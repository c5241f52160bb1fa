-- ===== src/Rpc/Method/Exchange.antt =====
-- One request and one chunk in answer, from end to end, with any compression.
use nodewatch_api.Base.{
  append-nil, ℕ, ◌≤◌, ◌<◌, ◌^◌, ◌≡◌, ◌≢◌, refl, ◌∙◌, false, ◌&&◌, Option, none, some, List, [], ◌∷◌,
  length, ok, arith,
}
use nodewatch_api.Base.Text.{Text}
use nodewatch_api.Rpc.Stream.{Stream, RpcError, IsSteady, flat}
use nodewatch_api.Rpc.Reader.{BufLimitReader}
use nodewatch_api.Rpc.Encode.{Compression, Writer, adjusted, bytes_reader}
use nodewatch_api.Rpc.Encode.Layout.{
  framed, body, wrote, write_fits, encode_header_and_payload-framed, encode_chunk_layout,
  stream_chunk-encode_chunk,
}
use nodewatch_api.Rpc.Respond.{Handler, Chunk, chunk_limit, is_some}
use nodewatch_api.Rpc.Respond.RoundTrip.{IsOpen}
use nodewatch_api.Rpc.Respond.Single.{respond_one}
use nodewatch_api.Rpc.Serve.{write_error_chunk}
use nodewatch_api.Rpc.Serve.Checks.{clip_short}
use nodewatch_api.Rpc.Serve.Valid.{IsCarried, receive-framed}
use nodewatch_api.Rpc.Method.{
  NewStreamFn, Remote, ResponseHandler, RpcMethod, RequestInput, ssz_input, request, run_request,
  after_request, max_byte_len, decode, encode, input_bytes, Ssz, SszCodec, make_stream_handler,
  read_request, write_response_chunk, protocol_id,
}

-- What the generated methods promise of a value: its serialization is `payload`, and reading as many
-- bytes as that has from a reader that will deliver it, compressed or not, gives the value again.
pub record Serializes {A : Type 0} (lib : Ssz A) (comp : Option Compression) (x : A)
    (payload : List ℕ) : Type 0 where
  pub serialized : lib.serialize x ≡ ok payload
  pub deserialized :
      (b : BufLimitReader)
      → IsOpen (length (body comp payload)) (body comp payload) b
      → (lib.deserialize comp (length payload) b).0 ≡ ok x

pub bytes_reader-flat : (p : List ℕ) → IsSteady (bytes_reader p) × (flat (bytes_reader p) ≡ p)
bytes_reader-flat [] = (tt, refl)
bytes_reader-flat (c ∷ cs) = (((omega arith, refl), tt), append-nil (c ∷ cs))

-- WriteResponseChunk
pub write_response_chunk_lem :
    {A B : Type 0} (m : RpcMethod A B) (codec : SszCodec B) (code : ℕ) (x : B) (payload : List ℕ)
    (w : Writer) (comp : Option Compression)
    → m.response_codec ≡ some codec
    → codec.alloc.serialize x ≡ ok payload
    → length (code ∷ framed comp payload) ≤ w.room
    → write_response_chunk m code (some x) w comp ≡ (none, wrote (code ∷ framed comp payload) w)
unfolding write_response_chunk
write_response_chunk_lem m codec code x payload w comp hc hs hr =
    let (steady, all) = bytes_reader-flat payload in
    ground (
      arith,
      steady,
      all,
      stream_chunk-encode_chunk code (bytes_reader payload) w comp steady,
      encode_chunk_layout code (bytes_reader payload) w comp steady,
    )

-- WriteErrorChunk, of a message that is not cut.
pub write_error_chunk_short :
    (code : ℕ) (msg : List ℕ) (w : Writer) (comp : Option Compression)
    → length msg ≤ 256
    → length (code ∷ framed comp msg) ≤ w.room
    → write_error_chunk code msg w comp ≡ (none, wrote (code ∷ framed comp msg) w)
unfolding write_error_chunk
write_error_chunk_short code msg w comp hl hr =
    let (steady, all) = bytes_reader-flat msg in
    ground (
      arith,
      steady,
      all,
      clip_short msg hl,
      stream_chunk-encode_chunk code (bytes_reader msg) w comp steady,
      encode_chunk_layout code (bytes_reader msg) w comp steady,
    )

-- A request that was sent framed is read back.
pub read_request-framed :
    {A B : Type 0} (m : RpcMethod A B) (codec : SszCodec A) (comp : Option Compression) (x dest : A)
    (max_size : ℕ) (payload : List ℕ) (stream : Stream)
    → m.request_codec ≡ some codec
    → max_size ≢ 0
    → codec.min_size ≤ length payload
    → (carried : IsCarried comp max_size payload) → Serializes codec.alloc comp x payload
    → IsSteady stream
    → flat stream ≡ framed comp payload
    → let (r, max_size') = make_stream_handler m comp max_size stream in
      (read_request m comp r dest ≡ ok x) × (max_size' ≡ carried.limit)
unfolding read_request make_stream_handler decode
read_request-framed m codec comp x dest max_size payload stream hc h0 hmin carried lib steady e =
    let (b, opened, received) =
      receive-framed codec.min_size max_size comp payload stream h0 hmin carried steady e in
    rw (hc, received) (lib.deserialized b opened, refl)

-- Request, to a peer that takes what is sent: the handler gets what it answers to the framed bytes.
pub request-framed :
    {S : Type 0} (memory : ℕ) (new_stream : NewStreamFn) (protocol : Text)
    (comp : Option Compression) (sent : List ℕ) (remote : Remote) (handle : ResponseHandler S)
    (s : S)
    → new_stream protocol ≡ ok remote
    → length (framed comp sent) ≤ memory
    → length (framed comp sent) ≤ remote.room
    → request memory new_stream protocol (bytes_reader sent) comp handle s
      ≡ handle s (remote.answer (framed comp sent))
unfolding request
request-framed memory new_stream protocol comp sent remote handle s hd hm hw =
    let (reads, all) = bytes_reader-flat sent in
    let encoded =
      encode_header_and_payload-framed (bytes_reader sent) (record { out = []; room = memory }) comp
        reads (rw all hm) in
    let framed_sent = rw all at encoded in
    let written = write_fits (framed comp sent) (record { out = []; room = remote.room }) hw in
    ground (arith, framed_sent, written)

run_request_lem :
    {A B S : Type 0} (memory : ℕ) (new_stream : NewStreamFn) (m : RpcMethod A B)
    (comp : Option Compression) (input : RequestInput A) (max_chunks : ℕ)
    (made : S → Option RpcError × S) (on_response : Handler S) (s : S) (bytes : List ℕ) (limit : ℕ)
    → input_bytes m.request_codec input ≡ ok bytes
    → adjusted comp (max_byte_len m.response_codec) ≡ ok limit
    → run_request memory new_stream m comp input max_chunks made on_response s
      ≡ request memory new_stream
          (protocol_id m.protocol comp)
          (bytes_reader bytes)
          comp
          (after_request made on_response limit comp max_chunks)
          s
unfolding run_request
run_request_lem memory new_stream m comp input max_chunks made on_response s bytes limit e1 e2 =
    ground arith

-- A request of one object that is answered by one chunk that is let through: the listener is
-- called once, on that chunk, with a reader that will deliver what the server sent.
pub run_request_one :
    {A B S : Type 0} (memory : ℕ) (new_stream : NewStreamFn) (m : RpcMethod A B)
    (sender : SszCodec A) (receiver : SszCodec B) (comp : Option Compression) (x : A)
    (sent answered : List ℕ) (code max_size limit : ℕ) (remote : Remote) (on_response : Handler S)
    (s : S)
    → m.request_codec ≡ some sender
    → m.response_codec ≡ some receiver
    → sender.alloc.serialize x ≡ ok sent
    → adjusted comp receiver.max_size ≡ ok max_size
    → chunk_limit max_size code (length answered) ≡ ok limit
    → length (body comp answered) ≤ limit
    → length answered < 2 ^ 64
    → new_stream (protocol_id m.protocol comp) ≡ ok remote
    → length (framed comp sent) ≤ memory
    → length (framed comp sent) ≤ remote.room
    → IsSteady (remote.answer (framed comp sent))
    → flat (remote.answer (framed comp sent)) ≡ code ∷ framed comp answered
    → let c : Chunk = record {
      chunk_index = 0;
      chunk_size = length answered;
      result = code;
      comp = comp;
    } in
      (b : BufLimitReader) × IsOpen (length (body comp answered)) (body comp answered) b
      × ((on_response s c b).0.error ≡ none
          → (is_some comp && (on_response s c b).0.close_fails) ≡ false
          → run_request memory new_stream m comp
              (ssz_input (some x))
              1
              (λ t. (none, t))
              on_response
              s
            ≡ (none, (on_response s c b).1))
unfolding after_request input_bytes encode
run_request_one {A} {B} {S} memory new_stream m sender receiver comp x sent answered code max_size
      limit remote on_response s hq hr hs adjusts allowed fits small hd hm hw steady e =
    let (b, opened, once) =
      respond_one on_response comp max_size limit code answered s (remote.answer (framed comp sent))
        allowed fits small steady e in
    (
      b,
      opened,
      λ h k.
          let (none_, final) = once h k in
          let run =
            run_request_lem memory new_stream m comp (ssz_input (some x)) 1 (λ t. (none, t))
              on_response s sent max_size (rw hq hs) (rw hr adjusts) in
          let framed_ =
            request-framed memory new_stream (protocol_id m.protocol comp) comp sent remote
              (after_request (λ t. (none, t)) on_response max_size comp 1) s hd hm hw in
          run ∙ framed_ ∙ ground arith,
    )
