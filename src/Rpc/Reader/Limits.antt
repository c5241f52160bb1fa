-- ===== src/Rpc/Reader/Limits.antt =====
-- What BufLimitReader.Read promises of counts and limits, for any underlying reader.
use nodewatch_api.Base.{
  ℕ, ◌+◌, ◌-◌, ◌≤◌, ◌<◌, ◌≡◌, true, none, some, List, [], ◌∷◌, ◌++◌, length, length-append,
  length-take, take-append-drop, append_assoc, take, drop, min, arith, ap,
}
use nodewatch_api.Base.{if◌then◌else◌}
use nodewatch_api.Rpc.Stream.{Stream, Piece, RpcError, read_stream, flat, got-flat, got-le}
use nodewatch_api.Rpc.Reader.{BufLimitReader, charge, read_some, read, read_byte}

-- What a reader still holds: the buffered bytes, then those of the underlying reader.
abbrev pub content : BufLimitReader → List ℕ
content b = b.pending ++ flat b.rd

read_some-content :
    (k : ℕ) (b : BufLimitReader) → (read_some k b).0.filled ++ content (read_some k b).1 ≡ content b
unfolding read_some
read_some-content k b = ground (
  arith,
  got-flat k b.rd,
  got-flat (min b.n b.size) b.rd,
  append_assoc (take k b.pending) (drop k b.pending) (flat b.rd),
  take-append-drop k b.pending,
  append_assoc (take k (read_stream (min b.n b.size) b.rd).got)
      (drop k (read_stream (min b.n b.size) b.rd).got)
      (flat (read_stream (min b.n b.size) b.rd).rest),
  take-append-drop k (read_stream (min b.n b.size) b.rd).got,
)

read_some_bounds :
    (k : ℕ) (b : BufLimitReader)
    → k ≤ b.n
    → ((read_some k b).0.count ≤ b.n)
      × (length (flat b.rd) ≤ length (flat (read_some k b).1.rd) + b.n)
      × ((read_some k b).1.n ≡ b.n)
      × ((read_some k b).1.per_read ≡ b.per_read)
      × ((read_some k b).1.size ≡ b.size)
unfolding read_some
read_some_bounds k b h = ground (
  arith,
  length-take k b.pending,
  got-le k b.rd,
  got-le (min b.n b.size) b.rd,
  length-take k (read_stream (min b.n b.size) b.rd).got,
  ap length (got-flat k b.rd),
  ap length (got-flat (min b.n b.size) b.rd),
  length-append (read_stream k b.rd).got (flat (read_stream k b.rd).rest),
  length-append (read_stream (min b.n b.size) b.rd).got
      (flat (read_stream (min b.n b.size) b.rd).rest),
)

-- One Read, on any reader and for any length of p: no byte is lost or made up, since what was put
-- into p and what is still held make up what was held before; the count is at most the limit; no
-- more than the limit is taken from the underlying reader; and the limit falls by the count unless
-- it applies per read.
pub read_lem :
    (k : ℕ) (b : BufLimitReader)
    → ((read k b).0.filled ++ content (read k b).1 ≡ content b)
      × ((read k b).0.count ≤ b.n)
      × (length (flat b.rd) ≤ length (flat (read k b).1.rd) + b.n)
      × ((read k b).1.n ≡ (if b.per_read then b.n else b.n - (read k b).0.count))
unfolding read charge
read_lem k b = ground (arith, read_some-content (min k b.n) b, read_some_bounds (min k b.n) b)

-- A Read that returns no error returns the number of bytes that it has put into p, and these fit p.
pub read_count :
    (k : ℕ) (b : BufLimitReader)
    → (read k b).0.error ≡ none
    → ((read k b).0.count ≡ length (read k b).0.filled) × ((read k b).0.count ≤ k)
unfolding read read_some
read_count k b e = ground (
  arith,
  length-take (min k b.n) b.pending,
  got-le (min k b.n) b.rd,
  length-take (min k b.n) (read_stream (min b.n b.size) b.rd).got,
)

-- When the underlying reader returns bytes together with an error, and they go to the buffer, Read
-- reports their count, which may be larger than p, and puts none of them into p.
pub read_error_drops :
    (k : ℕ) (b : BufLimitReader) (p : Piece) (ps : Stream) (e : RpcError)
    → b.pending ≡ []
    → b.rd ≡ p ∷ ps
    → p.error ≡ some e
    → length p.bytes ≤ min b.n b.size
    → 1 ≤ k
    → 1 ≤ b.n
    → min k b.n < b.size
    → (read k b).0 ≡ record { count = length p.bytes; filled = []; error = some e }
unfolding read read_some read_stream
read_error_drops k b p ps e hp hr he hl hk hn hs = ground arith

-- Where the limit applies per read, a Read leaves it and the mode as they are.
pub read_byte-per_read :
    (b : BufLimitReader)
    → b.per_read ≡ true
    → ((read_byte b).1.n ≡ b.n) × ((read_byte b).1.per_read ≡ true)
unfolding read_byte read charge
read_byte-per_read b h = ground (arith, read_some_bounds (min 1 b.n) b)
