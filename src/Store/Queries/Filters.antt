-- ===== src/Store/Queries/Filters.antt =====
-- The fork digest of a filter, in hex with or without 0x.
use nodewatch_api.Base.{
  map, ℕ, ◌/◌, ◌%◌, ◌<◌, ◌≡◌, refl, false, Option, none, some, List, [], ◌∷◌, ◌++◌, length, All,
  arith, ◌==◌, Result, ok, err,
}
use nodewatch_api.Base.Text.{Text}
use nodewatch_api.Peer.{hex_digit, hex_encode}
use nodewatch_api.Store.{DbError}
use nodewatch_api.Store.Queries.{
  QueryError, slice_out_of_range, Stage, match_fork_digest, hex_value, hex_decode, strip_0x,
  add_fork_digest_filter, add_peer_filter, run_query, decode_all,
}

pub hex_value-hex_digit :
    (d : ℕ) → d < 16 → (hex_value (hex_digit d) ≡ some d) × ((hex_digit d == b'x') ≡ false)
unfolding hex_value hex_digit
hex_value-hex_digit d h = ground arith

pub hex_decode-hex_encode :
    (bs : List ℕ) → All (λ b. b < 256) bs → hex_decode (hex_encode bs) ≡ some bs
unfolding hex_decode hex_encode
hex_decode-hex_encode [] h = refl
hex_decode-hex_encode (b ∷ bs) h =
    let (hi, _) = hex_value-hex_digit (b / 16) (omega (arith, h.0)) in
    let (lo, _) = hex_value-hex_digit (b % 16) (omega arith) in
    ground (arith, hex_decode-hex_encode bs h.1)

strip_0x-hex_encode :
    (b : ℕ) (bs : List ℕ) → strip_0x (hex_encode (b ∷ bs)) ≡ ok (hex_encode (b ∷ bs))
unfolding strip_0x hex_encode
strip_0x-hex_encode b bs =
    let (_, apart) = hex_value-hex_digit (b % 16) (omega arith) in ground arith

-- A digest in hex selects the peers with these bytes, written with 0x or without; without a filter or a
-- digest in it, the query stays as it is.
pub add_peer_filter_lem :
    (query : List Stage) (b : ℕ) (bs : List ℕ)
    → All (λ x. x < 256) (b ∷ bs)
    → let filtered : Result QueryError (List Stage) =
        ok (query ++ match_fork_digest (b ∷ bs) ∷ []) in
      let digest = hex_encode (b ∷ bs) in
      (add_peer_filter query (some (record { fork_digest = some digest })) ≡ filtered)
      × (add_peer_filter query (some (record { fork_digest = some (b'0' ∷ b'x' ∷ digest) }))
          ≡ filtered)
      × (add_peer_filter query (some (record { fork_digest = none })) ≡ ok query)
      × (add_peer_filter query none ≡ ok query)
unfolding add_peer_filter add_fork_digest_filter
add_peer_filter_lem query b bs h =
    let decoded = hex_decode-hex_encode (b ∷ bs) h in
    let plain = strip_0x-hex_encode b bs in
    let prefixed : strip_0x (b'0' ∷ b'x' ∷ hex_encode (b ∷ bs)) ≡ ok (hex_encode (b ∷ bs)) =
      unfold strip_0x in refl in
    (ground arith, ground arith, refl, refl)

-- A filter whose digest has fewer than two characters makes every query panic, before the database is
-- asked.
pub run_query_panics :
    {A : Type 0} (aggregate : List Stage → Result DbError (List (Option A))) (stages : List Stage)
    (digest : Text)
    → length digest < 2
    → run_query aggregate stages (some (record { fork_digest = some digest }))
      ≡ err slice_out_of_range
unfolding run_query add_peer_filter add_fork_digest_filter strip_0x
run_query_panics aggregate stages [] h = refl
run_query_panics aggregate stages (c ∷ []) h = refl
run_query_panics aggregate stages (c ∷ d ∷ cs) h = absurd (omega arith)

-- Documents that all decode are what a query returns.
pub decode_all-some : {A : Type 0} (as_ : List A) → decode_all (map some as_) ≡ ok as_
unfolding decode_all
decode_all-some [] = refl
decode_all-some (a ∷ as_) = ground (arith, decode_all-some as_)
