-- ===== src/Rpc/Respond/Returns.antt =====
-- Reading a chunk's bytes comes to an end, for any reader that does not stall.
use nodewatch_api.Base.{
  ℕ, zero, suc, ◌+◌, ◌-◌, ◌≤◌, ◌<◌, ◌≡◌, inl, inr, refl, ap, some, Option-cases, List, [], ◌++◌,
  length, length-append, length-replicate, replicate, ◌-◌, min, arith, Result, ok,
}
use nodewatch_api.Rpc.Stream.{RpcError}
use nodewatch_api.Rpc.Reader.{BufLimitReader, read}
use nodewatch_api.Rpc.Reader.Limits.{read_count}
use nodewatch_api.Rpc.Reader.Progress.{
  IsProgressive, read_progress, read-IsClean, IsClean, filled_fits,
}
use nodewatch_api.Rpc.Respond.{Chunk, read_limited, read_raw, at_end}

at_end-ok : (e : RpcError) (buf bytes : List ℕ) → at_end e buf ≡ ok bytes → bytes ≡ buf
unfolding at_end
at_end-ok e buf bytes h = ground arith

padded :
    (buf filled : List ℕ) (count : ℕ)
    → count ≡ 0
    → length (buf ++ filled ++ replicate (count - length filled) 0) ≡ length buf + length filled
padded buf filled count h =
    let missing : List ℕ = replicate (count - length filled) 0 in
    let none_ : length missing ≡ count - length filled = length-replicate _ _ in
    omega (arith, h, none_, length-append (buf ++ filled) missing, length-append buf filled)

read_limited_returns :
    (fuel space left : ℕ) (buf : List ℕ) (b : BufLimitReader)
    → 1 ≤ space
    → left < fuel
    → 1 ≤ b.size
    → IsProgressive b.rd
    → IsClean b.rd
    → (r : Result RpcError (List ℕ)) × ((read_limited fuel space left buf b).0 ≡ some r)
      × ((bytes : List ℕ) → r ≡ ok bytes → length bytes ≤ length buf + left)
unfolding read_limited
read_limited_returns zero space left buf b hs hf hz h c = absurd (omega arith)
read_limited_returns (suc fuel) space zero buf b hs hf hz h c =
    (ok buf, refl, λ bytes e. ground arith)
read_limited_returns (suc fuel) space (suc left) buf b hs hf hz h c =
    let k = min space (suc left) in
    let (prog, size_, one) = read_progress k b (omega arith) hz h in
    let (clean, nothing) = read-IsClean k b c in
    let (r, b') = read k b in
    elim (Option-cases r.error) [
      | inl e ↦
          let (cnt, fits) = read_count k b e in
          let more =
            read_limited_returns fuel space (suc left - r.count) (buf ++ r.filled) b' hs
              (omega (arith, one e)) size_ prog clean in
          (
            more.0,
            ground (arith, more.1),
            λ bytes er. omega (arith, more.2 bytes er, length-append buf r.filled, one e),
          )
      | inr (e, h') ↦
          let none_counted : r.count ≡ 0 = nothing (λ n. cc) in
          let got = buf ++ r.filled ++ replicate (r.count - length r.filled) 0 in
          let short : length got ≤ length buf + suc left =
            omega (arith, padded buf r.filled r.count none_counted, filled_fits k b) in
          (
            at_end e got,
            ground (arith, none_counted),
            λ bytes er. omega (arith, ap length (at_end-ok e got bytes er), short),
          )
    ]

-- ReadRaw and ReadErrMsg of a chunk that is not compressed return, on any reader that does not stall and
-- gives no bytes together with an error, and with room for a byte in each read, and never with more bytes
-- than the chunk's size.
pub read_raw_returns :
    (space : ℕ) (c : Chunk) (b : BufLimitReader)
    → 1 ≤ space
    → 1 ≤ b.size
    → IsProgressive b.rd
    → IsClean b.rd
    → (r : Result RpcError (List ℕ)) × ((read_raw space c b).0 ≡ some r)
      × ((bytes : List ℕ) → r ≡ ok bytes → length bytes ≤ c.chunk_size)
unfolding read_raw
read_raw_returns space c b hs hz h clean =
    let (r, e, bound) =
      read_limited_returns (suc c.chunk_size) space c.chunk_size [] b hs (omega arith) hz h clean in
    (r, e, λ bytes er. omega (arith, bound bytes er))
