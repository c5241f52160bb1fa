-- ===== src/Rpc/Method.antt =====
-- crawler/rpc/request/rpc_method.go and request.go: methods with their codecs, and a request from
-- dialling the peer to handling the response.
pub mod Exchange
use nodewatch_api.Base.{
  ℕ, zero, suc, Bool, true, false, Option, none, some, List, [], ◌∷◌, ◌++◌, length, ◌==◌,
  if◌then◌else◌, Result, ok, err,
}
use nodewatch_api.Base.Text.{Text, codes}
use nodewatch_api.Rpc.Stream.{Stream, RpcError, no_op_codec, nil_panic, not_returned}
use nodewatch_api.Rpc.Reader.{BufLimitReader}
use nodewatch_api.Rpc.Encode.{
  Compression, Writer, adjusted, write, encode_header_and_payload, stream_chunk, bytes_reader,
}
use nodewatch_api.Rpc.Respond.{Handler, Chunk, respond, read_raw}
use nodewatch_api.Rpc.Serve.{Request, receive}

-- The methods that github.com/protolambda/ztyp generates for a type: Serialize, as the bytes that it
-- writes to a buffer, and Deserialize of a number of bytes, from a reader that decompresses when a
-- compression is given.
pub record Ssz (A : Type 0) : Type 0 where
  pub serialize : A → Result RpcError (List ℕ)
  pub deserialize : Option Compression → ℕ → BufLimitReader → Result RpcError A × BufLimitReader

-- SSZCodec. A codec may be a nil pointer, which is a codec for no bytes.
pub record SszCodec (A : Type 0) : Type 0 where
  pub alloc : Ssz A
  pub min_size : ℕ
  pub max_size : ℕ

abbrev pub Codec : Type 0 → Type 0
Codec A = Option (SszCodec A)

abbrev pub new_ssz_codec : {A : Type 0} → Ssz A → ℕ → ℕ → Codec A
new_ssz_codec alloc min_size max_size =
    some (record { alloc = alloc; min_size = min_size; max_size = max_size })

abbrev pub min_byte_len : {A : Type 0} → Codec A → ℕ
min_byte_len none = 0
min_byte_len (some c) = c.min_size

abbrev pub max_byte_len : {A : Type 0} → Codec A → ℕ
max_byte_len none = 0
max_byte_len (some c) = c.max_size

-- Encode, of an input that may be nil. Without a codec only nil is an input, and with one a nil input
-- panics; no caller does anything after the panic or the error.
unfoldable pub encode : {A : Type 0} → Codec A → Option A → Result RpcError (List ℕ)
encode none none = ok []
encode none (some x) = err no_op_codec
encode (some c) none = err nil_panic
encode (some c) (some x) = c.alloc.serialize x

-- Decode into `dest`, of which the result is what `dest` holds afterwards.
unfoldable pub decode :
    {A : Type 0}
    → Codec A
    → Option Compression
    → ℕ
    → A
    → BufLimitReader
    → Result RpcError A × BufLimitReader
decode none comp len dest b = ((if len == 0 then ok dest else err no_op_codec), b)
decode (some c) comp len dest b = c.alloc.deserialize comp len b

pub record RpcMethod (A B : Type 0) : Type 0 where
  pub protocol : Text
  pub request_codec : Codec A
  pub response_codec : Codec B
  pub default_count : ℕ

-- RequestInput: an object for the codec, or the bytes themselves.
pub data RequestInput (A : Type 0) : Type 0 where
  ssz_input : Option A → RequestInput A
  bytes_input : List ℕ → RequestInput A

-- Reader of an input, as the bytes that it will deliver.
unfoldable pub input_bytes : {A : Type 0} → Codec A → RequestInput A → Result RpcError (List ℕ)
unfolding encode
input_bytes codec (ssz_input obj) = encode codec obj
input_bytes codec (bytes_input bytes) = ok bytes

-- The other end of a stream: how many bytes it takes, and what it answers to all that was written.
pub record Remote : Type 0 where
  pub room : ℕ
  pub answer : List ℕ → Stream

-- NewStreamFn: dials the peer with a protocol.
abbrev pub NewStreamFn : Type 0
NewStreamFn = Text → Result RpcError Remote

-- A ResponseHandler, over a state of its own.
abbrev pub ResponseHandler : Type 0 → Type 0
ResponseHandler S = S → Stream → Option RpcError × S

-- Request. `memory` is the number of bytes that a bytes.Buffer can take.
unfoldable pub request :
    {S : Type 0}
    → ℕ
    → NewStreamFn
    → Text
    → Stream
    → Option Compression
    → ResponseHandler S
    → S
    → Option RpcError × S
request memory new_stream protocol r comp handle s = elim (new_stream protocol) [
  | err e ↦ (some e, s)
  | ok remote ↦
      let (failed, buf) = encode_header_and_payload r (record { out = []; room = memory }) comp in
      elim failed [
        | some e ↦ (some e, s)
        | none ↦
            let (failed_write, sent) = write buf.out (record { out = []; room = remote.room }) in
            elim failed_write [ some e ↦ (some e, s) | none ↦ handle s (remote.answer sent.out) ]
      ]
]

-- The protocol that is dialled: with a compression its name is appended.
unfoldable pub protocol_id : Text → Option Compression → Text
protocol_id p none = p
protocol_id p (some c) = p ++ codes "_" ++ c.name

-- The handler that RunRequest gives to Request.
unfoldable pub after_request :
    {S : Type 0}
    → (S → Option RpcError × S)
    → Handler S
    → ℕ
    → Option Compression
    → ℕ
    → ResponseHandler S
after_request made_request on_response max_size comp max_chunks s r =
    let (failed, s') = made_request s in
    elim failed [
      | some e ↦ (some e, s')
      | none ↦ let (e, final, _) = respond on_response max_size comp max_chunks s' r in (e, final)
    ]

-- RunRequest
unfoldable pub run_request :
    {A B S : Type 0}
    → ℕ
    → NewStreamFn
    → RpcMethod A B
    → Option Compression
    → RequestInput A
    → ℕ
    → (S → Option RpcError × S)
    → Handler S
    → S
    → Option RpcError × S
unfolding input_bytes request protocol_id
run_request memory new_stream m comp input max_chunks made_request on_response s =
    elim (input_bytes m.request_codec input) [
      | err e ↦ (some e, s)
      | ok bytes ↦ elim (adjusted comp (max_byte_len m.response_codec)) [
        | err e ↦ (some e, s)
        | ok max_size ↦
            request memory new_stream (protocol_id m.protocol comp) (bytes_reader bytes) comp
              (after_request made_request on_response max_size comp max_chunks) s
      ]
    ]

-- ReadErrMsg and ReadRaw of a chunk. `inflate` reads at most a number of bytes to the end of the
-- reader of github.com/golang/snappy. A call that does not return is an error of its own here.
unfoldable pub read_err_msg :
    ℕ
    → (Compression → ℕ → BufLimitReader → Result RpcError (List ℕ) × BufLimitReader)
    → Chunk
    → BufLimitReader
    → Result RpcError (List ℕ) × BufLimitReader
read_err_msg space inflate c b = elim c.comp [
  | some comp ↦ inflate comp c.chunk_size b
  | none ↦
      let (r, b') = read_raw space c b in
      elim r [ none ↦ (err not_returned, b') | some msg ↦ (msg, b') ]
]

-- ReadObj
unfoldable pub read_obj :
    {A B : Type 0} → RpcMethod A B → Chunk → B → BufLimitReader → Result RpcError B × BufLimitReader
unfolding decode
read_obj m c dest b = decode m.response_codec c.comp c.chunk_size dest b

-- MakeStreamHandler: what a listener is given for a stream, where the handler has a maximum, and the
-- maximum for the next stream. The first is the longest request of the codec.
unfoldable pub make_stream_handler :
    {A B : Type 0} → RpcMethod A B → Option Compression → ℕ → Stream → Request × ℕ
make_stream_handler m comp max_size stream =
    receive (min_byte_len m.request_codec) max_size comp stream

-- ReadRequest. A request without a reader is one of a codec for no bytes.
unfoldable pub read_request :
    {A B : Type 0} → RpcMethod A B → Option Compression → Request → A → Result RpcError A
unfolding decode
read_request m comp r dest = elim r.invalid_input [
  | some e ↦ err e
  | none ↦ elim r.reader [
    | some b ↦ (decode m.request_codec comp r.request_len dest b).0
    | none ↦ elim m.request_codec [
      | some c ↦ err nil_panic
      | none ↦ if r.request_len == 0 then ok dest else err no_op_codec
    ]
  ]
]

-- WriteResponseChunk
unfoldable pub write_response_chunk :
    {A B : Type 0}
    → RpcMethod A B
    → ℕ
    → Option B
    → Writer
    → Option Compression
    → Option RpcError × Writer
unfolding encode
write_response_chunk m code obj w comp = elim (encode m.response_codec obj) [
  | err e ↦ (some e, w)
  | ok bytes ↦ stream_chunk code (length bytes) (bytes_reader bytes) w comp
]
