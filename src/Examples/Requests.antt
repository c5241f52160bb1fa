-- ===== src/Examples/Requests.antt =====
-- A request of three bytes, and requests that are refused.
use nodewatch_api.Base.{◌≡◌, refl, none, some, [], ◌∷◌, arith, ok, inl, replicate}
use nodewatch_api.Rpc.Stream.{Stream, RpcError, too_small, read_stream}
use nodewatch_api.Rpc.Reader.{read, read_byte}
use nodewatch_api.Rpc.Varint.{put_uvarint, read_uvarint}
use nodewatch_api.Rpc.Serve.{Request, receive, receive_all, raw_request}
use nodewatch_api.Rpc.Serve.Checks.{receive_round_trip, receive_all_refused, nothing_read}

abbrev request : Stream
request =
    record { bytes = 3 ∷ 7 ∷ []; error = none } ∷ record { bytes = 8 ∷ 9 ∷ []; error = none } ∷ []

receive_round_trip_example :
    let (r, max_size) = receive 1 84 none request in
    (r.request_len ≡ 3)
    × (r.invalid_input ≡ none)
    × (raw_request 512 r ≡ some (ok (7 ∷ 8 ∷ 9 ∷ [])))
    × (max_size ≡ 84)
unfolding put_uvarint
receive_round_trip_example =
    receive_round_trip 512 1 84 (7 ∷ 8 ∷ 9 ∷ []) request (omega arith) (λ e. omega arith)
      (omega arith) (omega arith) (omega arith) ((omega arith, refl), ((omega arith, refl), tt))
      refl

accepted : (receive 1 84 none request).0.invalid_input ≡ none
unfolding put_uvarint
accepted =
    let found =
      receive_round_trip 512 1 84 (7 ∷ 8 ∷ 9 ∷ []) request (omega arith) (λ e. omega arith)
        (omega arith) (omega arith) (omega arith) ((omega arith, refl), ((omega arith, refl), tt))
        refl in
    found.1

refused : (receive 4 84 none request).0.invalid_input ≡ some too_small
unfolding receive read_uvarint read_byte read read_stream
refused = refl

receive_all_refused_example :
    (r : Request) × (e : RpcError) × (r.invalid_input ≡ some e)
    × (receive_all 4 84 none (request ∷ request ∷ request ∷ []) ≡ r ∷ replicate 2 nothing_read)
unfolding put_uvarint
receive_all_refused_example =
    receive_all_refused 4 84 3 none (7 ∷ 8 ∷ 9 ∷ []) request (request ∷ request ∷ [])
      (λ e. omega arith) (omega arith) (inl (omega arith))
      ((omega arith, refl), ((omega arith, refl), tt)) refl
