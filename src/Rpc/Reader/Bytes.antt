-- ===== src/Rpc/Reader/Bytes.antt =====
-- Reading from a steady reader, one that answers every request with bytes until its end.
use nodewatch_api.Base.{
  ℕ, ◌≤◌, ◌<◌, ◌≡◌, refl, none, List, [], ◌∷◌, ◌++◌, length, length-append, length-take, min, arith,
  ap, ◌∙◌, if◌then◌else◌, ok, err,
}
use nodewatch_api.Rpc.Stream.{
  Stream, eof, IsSteady, read_stream, flat, read_stream-IsSteady, read_stream_steady,
}
use nodewatch_api.Rpc.Reader.{BufLimitReader, charge, read_some, read, byte_result, read_byte}
use nodewatch_api.Rpc.Reader.Limits.{content, read_lem, read_count}

pub read-IsSteady :
    (k : ℕ) (b : BufLimitReader)
    → 1 ≤ k
    → 1 ≤ b.n
    → 1 ≤ b.size
    → IsSteady b.rd
    → 1 ≤ length (content b)
    → ((read k b).0.error ≡ none)
      × (1 ≤ length (read k b).0.filled)
      × IsSteady (read k b).1.rd
      × ((read k b).1.size ≡ b.size)
      × ((read k b).1.per_read ≡ b.per_read)
unfolding read charge read_some
read-IsSteady k b hk hn hs st hc = ground (
  arith,
  read_stream_steady (min k b.n) b.rd (omega arith),
  read_stream_steady (min b.n b.size) b.rd (omega arith),
  read_stream-IsSteady (min k b.n) b.rd (omega arith) st,
  read_stream-IsSteady (min b.n b.size) b.rd (omega arith) st,
  length-append b.pending (flat b.rd),
  length-take (min k b.n) b.pending,
  length-take (min k b.n) (read_stream (min b.n b.size) b.rd).got,
)

-- A reader that will deliver `bs`, through a buffer of more than one byte.
pub record IsReady (bs : List ℕ) (b : BufLimitReader) : Type 0 where
  pub roomy : 1 < b.size
  pub steady : IsSteady b.rd
  pub holds : content b ≡ bs

single_eq :
    (xs ys zs : List ℕ) (c : ℕ) → length xs ≡ 1 → xs ++ ys ≡ c ∷ zs → (xs ≡ c ∷ []) × (ys ≡ zs)
single_eq [] ys zs c h e = absurd (omega arith)
single_eq (x ∷ []) ys zs c h e = (cc, cc)
single_eq (x ∷ y ∷ xs) ys zs c h e = absurd (omega arith)

-- ReadByte with a limit of 1 delivers the next byte, in whatever pieces the bytes come.
pub read_byte-IsReady :
    (b : BufLimitReader) (c : ℕ) (rest : List ℕ)
    → IsReady (c ∷ rest) b
    → b.n ≡ 1
    → (b' : BufLimitReader) × (read_byte b ≡ (ok c, b'))
      × IsReady rest b'
      × (b'.n ≡ (if b.per_read then 1 else 0))
      × (b'.per_read ≡ b.per_read)
unfolding read_byte byte_result
read_byte-IsReady b c rest r hn =
    let (noerr, some_, st, sz, pr) =
      read-IsSteady 1 b (omega arith) (omega arith) (omega (arith, r.roomy)) r.steady
        (omega (arith, ap length r.holds)) in
    let (kept, le, taken, left) = read_lem 1 b in
    let (cnt, fits) = read_count 1 b noerr in
    let (e1, e2) =
      single_eq (read 1 b).0.filled (content (read 1 b).1) rest c (omega arith) (kept ∙ r.holds) in
    (
      (read 1 b).1,
      ground arith,
      record { roomy = ground (arith, r.roomy); steady = st; holds = e2 },
      ground arith,
      pr,
    )

steady_nil : (s : Stream) → IsSteady s → flat s ≡ [] → s ≡ []
steady_nil [] h e = refl
steady_nil (p ∷ ps) h e =
    absurd (omega (arith, ap length e, length-append p.bytes (flat ps), h.0.0))

append_nil_parts : (xs ys : List ℕ) → xs ++ ys ≡ [] → (xs ≡ []) × (ys ≡ [])
append_nil_parts [] ys e = (refl, e)
append_nil_parts (x ∷ xs) ys e = cc

-- ReadByte at the end of a steady reader says so.
pub read_byte_end : (b : BufLimitReader) → IsReady [] b → b.n ≡ 1 → (read_byte b).0 ≡ err eof
unfolding read_byte byte_result read charge read_some read_stream
read_byte_end b r hn =
    let (e1, e2) = append_nil_parts b.pending (flat b.rd) r.holds in
    let e3 = steady_nil b.rd r.steady e2 in ground (arith, r.roomy)
