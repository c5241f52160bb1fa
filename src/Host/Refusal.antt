-- ===== src/Host/Refusal.antt =====
-- A status request that the peer refuses, from either side.
use nodewatch_api.Base.{
  ℕ, ◌≤◌, ◌≡◌, refl, sym, subst, Bool, true, none, List, [], ◌∷◌, length, append-nil, ok, arith,
}
use nodewatch_api.Base.Text.{Text, codes}
use nodewatch_api.Rpc.Stream.{Stream, IsSteady, flat}
use nodewatch_api.Rpc.Reader.{BufLimitReader}
use nodewatch_api.Rpc.Encode.{adjusted}
use nodewatch_api.Rpc.Encode.Layout.{framed}
use nodewatch_api.Rpc.Respond.{Chunk, is_error_code}
use nodewatch_api.Rpc.Respond.RoundTrip.{IsOpen, read_raw_payload}
use nodewatch_api.Rpc.Respond.Single.{chunk_limit_error}
use nodewatch_api.Rpc.Method.{NewStreamFn, Remote, Ssz, read_err_msg, protocol_id, SszCodec}
use nodewatch_api.Rpc.Method.Exchange.{run_request_one}
use nodewatch_api.Host.{
  ChainStatus, Client, Fetched, Inflate, on_status, fetch_status, status_rpc_v1,
}
use nodewatch_api.Host.Status.{sent_status}

-- What a client that cannot read a status request answers.
abbrev pub refusal : Text
refusal = codes "could not parse status request"

module _ (lib : Ssz ChainStatus) (status_byte_len : ℕ) where
  on_status_refused :
      (inflate : Inflate) (space : ℕ) (close_fails : Bool) (f : Fetched) (code : ℕ)
      (message : List ℕ) (b : BufLimitReader)
      → is_error_code code ≡ true
      → 1 ≤ space
      → IsOpen (length message) message b
      → let c : Chunk = record {
        chunk_index = 0;
        chunk_size = length message;
        result = code;
        comp = none;
      } in
        let (outcome, f', _) = on_status lib status_byte_len inflate space close_fails f c b in
        (outcome ≡ record { error = none; close_fails = close_fails })
        × (f'.fetched_status ≡ f.fetched_status)
  unfolding on_status read_err_msg
  on_status_refused inflate space close_fails f code message b hk hs o =
      let c : Chunk = record {
        chunk_index = 0;
        chunk_size = length message;
        result = code;
        comp = none;
      } in
      let (b', e, _) =
        read_raw_payload space c message [] b hs refl
          (subst (λ bs. IsOpen (length message) bs b) (sym (append-nil message)) o) in
      ground (arith, e, hk)

  -- When the peer answers with an error chunk, of either code, FetchStatus returns neither a status nor
  -- an error, so that its caller has to look for both. No compression; a message of at most 256 bytes;
  -- no read or write fails.
  pub fetch_status_refused :
      (inflate : Inflate) (space memory : ℕ) (new_stream : NewStreamFn) (close_fails : Bool)
      (c : Client) (code : ℕ) (sent message : List ℕ) (remote : Remote)
      → is_error_code code ≡ true
      → 1 ≤ space
      → lib.serialize (sent_status c) ≡ ok sent
      → length message ≤ 256
      → new_stream (status_rpc_v1 lib status_byte_len).protocol ≡ ok remote
      → length (framed none sent) ≤ memory
      → length (framed none sent) ≤ remote.room
      → IsSteady (remote.answer (framed none sent))
      → flat (remote.answer (framed none sent)) ≡ code ∷ framed none message
      → fetch_status lib status_byte_len inflate space memory new_stream none close_fails c
        ≡ (none, none, record c { local_status = sent_status c })
  unfolding fetch_status adjusted protocol_id
  fetch_status_refused inflate space memory new_stream close_fails c code sent message remote hk h1
        hs hl hd hm hw steady e =
      let m = status_rpc_v1 lib status_byte_len in
      let codec : SszCodec ChainStatus = record {
        alloc = lib;
        min_size = status_byte_len;
        max_size = status_byte_len;
      } in
      let start : Fetched = record { res_code = 2; fetched_status = none } in
      let (b, opened, run) =
        run_request_one memory new_stream m codec codec none (sent_status c) sent message code
          status_byte_len 256 remote (on_status lib status_byte_len inflate space close_fails) start
          refl refl hs refl (chunk_limit_error status_byte_len code (length message) hk hl) hl
          (omega arith) hd hm hw steady e in
      let (fine, found) =
        on_status_refused inflate space close_fails start code message b hk h1 opened in
      let ran = run (rw fine refl) refl in ground (arith, ran, found)
