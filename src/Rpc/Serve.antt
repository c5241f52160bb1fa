-- ===== src/Rpc/Serve.antt =====
-- crawler/rpc/request/handle_request.go and the request handler of rpc_method.go: how a request is
-- received and answered.
pub mod Checks
pub mod Valid
pub mod Chunks
use nodewatch_api.Base.{
  ℕ, zero, suc, ◌+◌, ◌-◌, ◌^◌, Bool, true, false, Option, none, some, List, [], ◌∷◌, ◌++◌, length,
  take, ltb, ◌==◌, if◌then◌else◌, Result, ok, err,
}
use nodewatch_api.Base.Text.{codes}
use nodewatch_api.Rpc.Stream.{Stream, RpcError, too_small, too_large}
use nodewatch_api.Rpc.Reader.{BufLimitReader, new_buf_limit_reader}
use nodewatch_api.Rpc.Varint.{read_uvarint}
use nodewatch_api.Rpc.Encode.{Compression, Writer, stream_chunk, bytes_reader}
use nodewatch_api.Rpc.Respond.{int_of_u64, max_err_size, read_limited}

-- What the payload handler is called with. The length that comes with an error is written as 0: no
-- handler looks at it. No reader is given for a method without request data.
pub record Request : Type 0 where
  pub request_len : ℕ
  pub reader : Option BufLimitReader
  pub invalid_input : Option RpcError

abbrev pub request_buffer_size : ℕ
request_buffer_size = 2048

-- The first switch: why the input is invalid, or the maximum size, adjusted for compression.
check_length : ℕ → ℕ → Option Compression → Result RpcError ℕ → Result RpcError ℕ
check_length min_size max_size comp (err e) = err e
check_length min_size max_size comp (ok len) =
    if ltb len min_size
    then err too_small
    else if ltb max_size len
    then err too_large
    else elim comp [ none ↦ ok max_size | some c ↦ c.max_encoded_len max_size ]

-- The second switch: the limit that the reader gets. With a compression the maximum is adjusted once
-- more, if that is possible. On invalid input the limit stays what it was.
set_limit : Option Compression → Result RpcError ℕ → BufLimitReader → BufLimitReader
set_limit comp (err e) b = b
set_limit none (ok max_size) b = record b { n = int_of_u64 max_size }
set_limit (some c) (ok max_size) b = elim (c.max_encoded_len max_size) [
  | err e ↦ record b { n = int_of_u64 max_size }
  | ok v ↦ record b { n = int_of_u64 v }
]

invalid : Result RpcError ℕ → Option RpcError
invalid (ok m) = none
invalid (err e) = some e

length_of : Result RpcError ℕ → ℕ
length_of (ok len) = len
length_of (err e) = 0

-- What the variable with the maximum holds afterwards, which all streams of a handler share.
next_max : Result RpcError ℕ → ℕ
next_max (ok m) = m
next_max (err e) = 0

-- MakeStreamHandler: what a stream is turned into for the payload handler, and the maximum that the
-- handler has for the next stream.
unfoldable pub receive : ℕ → ℕ → Option Compression → Stream → Request × ℕ
unfolding check_length set_limit invalid length_of next_max new_buf_limit_reader
receive min_size max_size comp stream =
    let b = record (new_buf_limit_reader stream request_buffer_size 0) { n = 1; per_read = true } in
    let (len, b') = read_uvarint b in
    let checked = check_length min_size max_size comp len in
    let limited = set_limit comp checked (record b' { per_read = false }) in
    if max_size == 0
    then (record { request_len = 0; reader = none; invalid_input = none }, 0)
    else (
      record {
        request_len = length_of len;
        reader = some limited;
        invalid_input = invalid checked;
      },
      next_max checked,
    )

-- What a handler makes of one stream after the other.
pub receive_all : ℕ → ℕ → Option Compression → List Stream → List Request
receive_all min_size max_size comp [] = []
receive_all min_size max_size comp (stream ∷ streams) =
    let (r, max_size') = receive min_size max_size comp stream in
    r ∷ receive_all min_size max_size' comp streams

-- RawRequest of a request that is not compressed. `none` outside says that the fuel ran out; without
-- a reader nothing is read.
pub raw_request : ℕ → Request → Option (Result RpcError (List ℕ))
raw_request space r = elim r.invalid_input [
  | some e ↦ some (err e)
  | none ↦ elim r.reader [
    | none ↦ some (ok [])
    | some b ↦ (read_limited (suc r.request_len) space r.request_len [] b).0
  ]
]

-- The message of an error chunk: at most MaxErrSize bytes of it are sent.
pub clip : List ℕ → List ℕ
clip msg = if ltb max_err_size (length msg) then take (max_err_size - 3) msg ++ codes "..." else msg

-- WriteErrorChunk
unfoldable pub write_error_chunk :
    ℕ → List ℕ → Writer → Option Compression → Option RpcError × Writer
unfolding clip
write_error_chunk code msg w comp =
    let b = clip msg in stream_chunk code (length b) (bytes_reader b) w comp

-- WriteRawResponseChunk
pub write_raw_response_chunk : ℕ → List ℕ → Writer → Option Compression → Option RpcError × Writer
write_raw_response_chunk code chunk w comp =
    stream_chunk code (length chunk) (bytes_reader chunk) w comp

-- StreamResponseChunk
pub stream_response_chunk : ℕ → ℕ → Stream → Writer → Option Compression → Option RpcError × Writer
stream_response_chunk code size r w comp = stream_chunk code size r w comp
