-- ===== src/Rpc/Respond.antt =====
-- crawler/rpc/request/handle_response.go, and the chunk handlers of rpc_method.go that read a chunk.
pub mod Bounds
pub mod RoundTrip
pub mod Single
pub mod Returns
use nodewatch_api.Base.{
  ℕ, zero, suc, ◌+◌, ◌-◌, ◌^◌, Bool, true, false, ◌||◌, ◌&&◌, Option, none, some, List, [], ◌∷◌,
  ◌++◌, length, replicate, ltb, ◌==◌, min, if◌then◌else◌, Result, ok, err,
}
use nodewatch_api.Rpc.Stream.{Stream, RpcError, eof, too_large, error_chunk_too_large, close_failed}
use nodewatch_api.Rpc.Reader.{BufLimitReader, new_buf_limit_reader, read, read_byte}
use nodewatch_api.Rpc.Varint.{read_uvarint}
use nodewatch_api.Rpc.Encode.{Compression}

-- The ResponseCode constants, as the bytes on the wire.
abbrev pub success_code : ℕ
success_code = 0

abbrev pub invalid_req_code : ℕ
invalid_req_code = 1

abbrev pub server_err_code : ℕ
server_err_code = 2

abbrev pub max_err_size : ℕ
max_err_size = 256

-- Go's `int(x)` of a uint64, for a limit: a negative limit behaves as 0.
abbrev pub int_of_u64 : ℕ → ℕ
int_of_u64 x = if ltb x (2 ^ 63) then x else 0

-- What a chunk handler is told of a chunk. With a compression its reader decompresses.
pub record Chunk : Type 0 where
  pub chunk_index : ℕ
  pub chunk_size : ℕ
  pub result : ℕ
  pub comp : Option Compression

-- What a chunk handler answers, and whether closing its compressed writer will fail.
pub record Outcome : Type 0 where
  pub error : Option RpcError
  pub close_fails : Bool

-- A chunk handler over a state of its own, which reads from the limited reader.
abbrev pub Handler : Type 0 → Type 0
Handler S = S → Chunk → BufLimitReader → Outcome × S × BufLimitReader

unfoldable pub is_error_code : ℕ → Bool
is_error_code code = code == invalid_req_code || code == server_err_code

-- The limit for reading a chunk of the given code and size, or why the chunk is refused.
pub chunk_limit : ℕ → ℕ → ℕ → Result RpcError ℕ
unfolding is_error_code
chunk_limit max_chunk_content_size code size =
    if is_error_code code
    then (if ltb max_err_size size then err error_chunk_too_large else ok max_err_size)
    else (if ltb max_chunk_content_size size
        then err too_large
        else ok (int_of_u64 max_chunk_content_size))

abbrev pub is_some : Option Compression → Bool
is_some none = false
is_some (some c) = true

module _ {S : Type 0} (handle_chunk : Handler S) (max_size : ℕ) (comp : Option Compression) where
  -- The rounds of the loop that are left, the index of the next chunk, and the two states.
  chunks : ℕ → ℕ → S → BufLimitReader → Option RpcError × S × BufLimitReader
  unfolding chunk_limit
  chunks zero index s b = (none, s, b)
  chunks (suc left) index s b =
      let (result_byte, b1) = read_byte (record b { n = 1 }) in
      elim result_byte [
        | err eof ↦ (none, s, b1)
        | err e ↦ (some e, s, b1)
        | ok code ↦
            let (size_read, b2) = read_uvarint (record b1 { n = 1; per_read = true }) in
            let b3 = record b2 { per_read = false } in
            elim size_read [
              | err e ↦ (some e, s, b3)
              | ok size ↦ elim (chunk_limit max_size code size) [
                | err e ↦ (some e, s, b3)
                | ok limit ↦
                    let chunk : Chunk = record {
                      chunk_index = index;
                      chunk_size = size;
                      result = code;
                      comp = comp;
                    } in
                    let (outcome, s', b4) = handle_chunk s chunk (record b3 { n = limit }) in
                    let more = chunks left (suc index) s' b4 in
                    elim outcome.error [
                      | some e ↦ (some e, s', b4)
                      | none ↦
                          if is_some comp && outcome.close_fails
                          then (some close_failed, s', b4)
                          else more
                    ]
              ]
            ]
      ]

  -- MakeResponseHandler: the handler for a response that is read from `r`.
  pub respond : ℕ → S → Stream → Option RpcError × S × BufLimitReader
  unfolding chunks
  respond max_chunk_count s r = chunks max_chunk_count 0 s (new_buf_limit_reader r 1024 0)

-- What reading into a buffer gives when the reader fails: the end of the reader is no failure.
pub at_end : RpcError → List ℕ → Result RpcError (List ℕ)
at_end eof buf = ok buf
at_end e buf = err e

-- bytes.Buffer.ReadFrom over io.LimitReader(r, left), with room for `space` bytes in each read.
-- Bytes that Read counts with an error and has not put into the buffer are zero there, since the buffer
-- is new; a count beyond the room makes the slice panic. `none` means this panic, or that the fuel ran out.
pub read_limited :
    ℕ → ℕ → ℕ → List ℕ → BufLimitReader → Option (Result RpcError (List ℕ)) × BufLimitReader
unfolding at_end
read_limited zero space left buf b = (none, b)
read_limited (suc fuel) space left buf b =
    let (r, b') = read (min space left) b in
    let more = read_limited fuel space (left - r.count) (buf ++ r.filled) b' in
    if left == 0 then (some (ok buf), b) else elim r.error [
      | none ↦ more
      | some e ↦
          let missing = replicate (r.count - length r.filled) 0 in
          if ltb space r.count
          then (none, b')
          else (some (at_end e (buf ++ r.filled ++ missing)), b')
    ]

-- ReadRaw and ReadErrMsg of chRespHandler, on a chunk that is not compressed.
pub read_raw : ℕ → Chunk → BufLimitReader → Option (Result RpcError (List ℕ)) × BufLimitReader
read_raw space c b = read_limited (suc c.chunk_size) space c.chunk_size [] b
