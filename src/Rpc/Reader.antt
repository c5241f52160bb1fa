-- ===== src/Rpc/Reader.antt =====
-- crawler/rpc/request/buf_limit_read.go: a buffer over a reader, with a limit.
pub mod Limits
pub mod Bytes
pub mod Progress
use nodewatch_api.Base.{
  ℕ, zero, suc, ◌+◌, ◌-◌, Bool, true, false, Option, none, some, List, [], ◌∷◌, length, take, drop,
  min, ◌==◌, leb, if◌then◌else◌,
}
use nodewatch_api.Base.{Result, ok, err}
use nodewatch_api.Rpc.Stream.{Stream, Answer, read_stream, RpcError, eof, no_progress}

-- `size` is len(b.buf), and `pending` is b.buf[b.r:b.w], so b.r == b.w says that it is empty.
-- `n` is b.N. A negative b.N behaves as 0 does, and is written as 0.
pub record BufLimitReader : Type 0 where
  pub size : ℕ
  pub pending : List ℕ
  pub rd : Stream
  pub n : ℕ
  pub per_read : Bool

unfoldable pub new_buf_limit_reader : Stream → ℕ → ℕ → BufLimitReader
new_buf_limit_reader rd size limit = record {
  size = size;
  pending = [];
  rd = rd;
  n = limit;
  per_read = false;
}

-- The count and the error that Read returns, and the bytes that it has put at the front of p.
pub record ReadResult : Type 0 where
  pub count : ℕ
  pub filled : List ℕ
  pub error : Option RpcError

-- The deferred function: the limit falls by the count, unless it applies per read.
charge : ReadResult × BufLimitReader → ReadResult × BufLimitReader
charge (r, b) = (r, if b.per_read then b else record b { n = b.n - r.count })

-- `n = copy(p, b.buf[b.r:b.w]); b.r += n`
copy_out : ℕ → BufLimitReader → ReadResult × BufLimitReader
copy_out k b =
    let out = take k b.pending in
    (
      record { count = length out; filled = out; error = none },
      record b { pending = drop k b.pending },
    )

-- A large read with an empty buffer goes straight to p.
read_direct : ℕ → BufLimitReader → ReadResult × BufLimitReader
read_direct k b =
    let a = read_stream k b.rd in
    (record { count = length a.got; filled = a.got; error = a.error }, record b { rd = a.rest })

-- Any other read with an empty buffer fills it, no further than the limit. An error is returned at
-- once with the count of the buffered bytes, and nothing is copied.
fill : ℕ → BufLimitReader → ReadResult × BufLimitReader
unfolding copy_out
fill k b =
    let a = read_stream (min b.n b.size) b.rd in
    let b' = record b { pending = a.got; rd = a.rest } in
    elim a.error [
      | some e ↦ (record { count = length a.got; filled = []; error = some e }, b')
      | none ↦ copy_out k b'
    ]

read_some : ℕ → BufLimitReader → ReadResult × BufLimitReader
unfolding copy_out read_direct fill
read_some k b = elim b.pending [
  | [] ↦ if leb b.size k then read_direct k b else fill k b
  | _ ∷ _ ↦ copy_out k b
]

-- Read(p) with len(p) equal to `k`. The test for a limit of 0 inside `len(p) > b.N` cannot succeed
-- behind the first test, and is left out.
unfoldable pub read : ℕ → BufLimitReader → ReadResult × BufLimitReader
unfolding charge read_some
read k b =
    if b.n == 0
    then charge (record { count = 0; filled = []; error = some eof }, b)
    else if min k b.n == 0
    then charge (record { count = 0; filled = []; error = none }, b)
    else charge (read_some (min k b.n) b)

-- `out` starts as the byte 0.
first_byte : List ℕ → ℕ
first_byte [] = 0
first_byte (c ∷ cs) = c

byte_result : ReadResult → Result RpcError ℕ
unfolding first_byte
byte_result r = elim r.error [
  | some e ↦ err e
  | none ↦ if r.count == 0 then err no_progress else ok (first_byte r.filled)
]

-- ReadByte. Its callers do not look at the byte that comes with an error.
unfoldable pub read_byte : BufLimitReader → Result RpcError ℕ × BufLimitReader
unfolding read byte_result
read_byte b = let (r, b') = read 1 b in (byte_result r, b')
