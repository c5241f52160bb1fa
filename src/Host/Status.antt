-- ===== src/Host/Status.antt =====
-- How a status request is answered, what is fetched, and the two together.
use nodewatch_api.Base.{
  ℕ, ◌≤◌, ◌≡◌, ◌≢◌, refl, Bool, false, ◌&&◌, Option, none, some, List, ◌∷◌, length, ltb,
  if◌then◌else◌, ok, arith,
}
use nodewatch_api.Rpc.Stream.{Stream, IsSteady, flat}
use nodewatch_api.Rpc.Reader.{BufLimitReader}
use nodewatch_api.Rpc.Encode.{Compression, Writer}
use nodewatch_api.Rpc.Encode.Layout.{framed, wrote}
use nodewatch_api.Rpc.Respond.{Chunk, success_code, is_some, is_error_code}
use nodewatch_api.Rpc.Respond.Single.{chunk_limit_success}
use nodewatch_api.Rpc.Serve.Valid.{IsCarried}
use nodewatch_api.Rpc.Method.{NewStreamFn, Remote, Ssz, SszCodec, read_obj, decode, protocol_id}
use nodewatch_api.Rpc.Method.Exchange.{
  Serializes, write_response_chunk_lem, read_request-framed, run_request_one,
}
use nodewatch_api.Host.{
  ChainStatus, Client, Fetched, Inflate, update_status, on_status, fetch_status, zero_status,
  status_rpc_v1,
}
use nodewatch_api.Host.Listeners.{serve_beacon_status}

-- The status that FetchStatus sends: the client's own with its current fork digest.
abbrev pub sent_status : Client → ChainStatus
sent_status c = record c.local_status { fork_digest = c.fork_choice.current_fork_digest }

module _ (lib : Ssz ChainStatus) (status_byte_len : ℕ) (comp : Option Compression) where
  -- A status that may be sent: its serialization has the length of the type.
  pub record IsSendable (x : ChainStatus) (payload : List ℕ) : Type 0 where
    pub serializes : Serializes lib comp x payload
    pub sized : length payload ≡ status_byte_len
    pub carried : IsCarried comp status_byte_len payload

  codec : SszCodec ChainStatus
  codec = record { alloc = lib; min_size = status_byte_len; max_size = status_byte_len }

  on_status_success :
      (inflate : Inflate) (space : ℕ) (close_fails : Bool) (f : Fetched) (c : Chunk)
      (x : ChainStatus) (b : BufLimitReader)
      → c.result ≡ success_code
      → (lib.deserialize c.comp c.chunk_size b).0 ≡ ok x
      → let (outcome, f', _) = on_status lib status_byte_len inflate space close_fails f c b in
        (outcome ≡ record { error = none; close_fails = close_fails })
        × (f'.fetched_status ≡ some x)
  unfolding on_status read_obj decode is_error_code
  on_status_success inflate space close_fails f c x b h e = ground arith

  -- FetchStatus, with any compression: a peer that takes the request under the protocol's name with the
  -- compression's, and answers its bytes with one chunk of a status, in whatever pieces, has this status
  -- returned, without an error. The request is the client's own status with its current fork digest. Both
  -- statuses serialize within the limits, no read or write fails, and with a compression the writer closes.
  pub fetch_status_lem :
      (inflate : Inflate) (space memory : ℕ) (new_stream : NewStreamFn) (close_fails : Bool)
      (c : Client) (theirs : ChainStatus) (sent answered : List ℕ) (remote : Remote)
      → IsSendable (sent_status c) sent
      → IsSendable theirs answered
      → (is_some comp && close_fails) ≡ false
      → new_stream (protocol_id (status_rpc_v1 lib status_byte_len).protocol comp) ≡ ok remote
      → length (framed comp sent) ≤ memory
      → length (framed comp sent) ≤ remote.room
      → IsSteady (remote.answer (framed comp sent))
      → flat (remote.answer (framed comp sent)) ≡ success_code ∷ framed comp answered
      → fetch_status lib status_byte_len inflate space memory new_stream comp close_fails c
        ≡ (some theirs, none, record c { local_status = sent_status c })
  unfolding fetch_status codec
  fetch_status_lem inflate space memory new_stream close_fails c theirs sent answered remote hs ht
        hc hd hm hw steady e =
      let (b, opened, run) =
        run_request_one memory new_stream (status_rpc_v1 lib status_byte_len) codec codec comp
          (sent_status c) sent answered success_code ht.carried.limit ht.carried.limit remote
          (on_status lib status_byte_len inflate space close_fails)
          (record { res_code = 2; fetched_status = none }) refl refl hs.serializes.serialized
          ht.carried.adjusts
          (chunk_limit_success ht.carried.limit (length answered)
            (omega (arith, ht.carried.small, ht.carried.within)) ht.carried.machine)
          ht.carried.fits (omega (arith, ht.carried.small, ht.carried.within, ht.carried.machine))
          hd hm hw steady e in
      let read_back = ht.serializes.deserialized b opened in
      let (fine, found) =
        on_status_success inflate space close_fails (record { res_code = 2; fetched_status = none })
          (record {
            chunk_index = 0;
            chunk_size = length answered;
            result = success_code;
            comp = comp;
          })
          theirs b refl read_back in
      let ran = run (rw fine refl) (rw fine hc) in ground (arith, ran, found)

-- A status request that is well formed, within the maximum that the listener has, and compressed with
-- snappy, is answered with the client's status as it was before; then the client takes over the status of
-- the request if that one has the higher head slot, and the listener's maximum becomes the compression's
-- encoded length of it. The status of the client serializes, no read fails before all bytes are there, and
-- the writer has room for the answer.
pub serve_beacon_status_answers :
    (lib : Ssz ChainStatus) (status_byte_len : ℕ) (snappy : Compression) (c : Client)
    (x : ChainStatus) (asked mine : List ℕ) (stream : Stream) (w : Writer) (max_size : ℕ)
    → max_size ≢ 0
    → Serializes lib (some snappy) x asked
    → length asked ≡ status_byte_len
    → (carried : IsCarried (some snappy) max_size asked) → lib.serialize c.local_status ≡ ok mine
    → IsSteady stream
    → flat stream ≡ framed (some snappy) asked
    → length (success_code ∷ framed (some snappy) mine) ≤ w.room
    → serve_beacon_status lib status_byte_len snappy c stream w max_size ≡ (
      if ltb c.local_status.head_slot x.head_slot then record c { local_status = x } else c,
      wrote (success_code ∷ framed (some snappy) mine) w,
      carried.limit,
    )
unfolding serve_beacon_status update_status
serve_beacon_status_answers lib status_byte_len snappy c x asked mine stream w max_size h0 hx sized
      carried hc steady e hw =
    let m = status_rpc_v1 lib status_byte_len in
    let codec : SszCodec ChainStatus = record {
      alloc = lib;
      min_size = status_byte_len;
      max_size = status_byte_len;
    } in
    let comp = some snappy in
    let (parsed, next) =
      read_request-framed m codec comp x zero_status max_size asked stream refl h0
        (omega (arith, sized)) carried hx steady e in
    let answered =
      write_response_chunk_lem m codec success_code c.local_status mine w comp refl hc hw in
    ground (arith, parsed, next, answered)
