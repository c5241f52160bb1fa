-- ===== src/Examples/Api.antt =====
-- Groups, shares and filters of the API on small data.
use mathlib.Core.Quot
use nodewatch_api.Graph.Groups.Bags.{values}
use nodewatch_api.Graph.Groups.Answer.{
  Bag, hardfork_groups, aggregate_by_hardfork_schedule-hardfork_groups,
}
use nodewatch_api.Base.{
  refl, ℕ, ◌≡◌, Bool, true, Option, none, some, List, [], ◌∷◌, ◌++◌, length, tally, arith, Result,
  ok, err,
}
use nodewatch_api.Base.Text.{Text, codes, text_eq}
use nodewatch_api.Peer.{Peer, hex_encode}
use nodewatch_api.Examples.Peers.{peer_of}
use nodewatch_api.Graph.{
  Aggregation, sort_by_count, key_of, aggregate_by_hardfork_schedule, group_by_hardfork_schedule,
  Named, ClientVersions,
}
use nodewatch_api.Graph.Sorting.{Descends, sort_by_count_lem}
use nodewatch_api.Graph.Groups.{count_of, sum_of, group_by_hardfork_schedule_lem}
use nodewatch_api.Store.{DbError}
use nodewatch_api.Store.Queries.{
  QueryError, slice_out_of_range, Stage, match_connectable, match_fork_digest, group_count, country,
  add_peer_filter, run_query,
}
use nodewatch_api.Store.Queries.Filters.{add_peer_filter_lem, run_query_panics}

abbrev group : ℕ → Aggregation
group n = record { version = codes "0x00000000"; epoch = codes "7"; count = n }

sorted_groups :
    Descends (sort_by_count (group 2 ∷ group 5 ∷ group 3 ∷ []))
    × ((q : Aggregation → Bool)
        → tally q (sort_by_count (group 2 ∷ group 5 ∷ group 3 ∷ []))
          ≡ tally q (group 2 ∷ group 5 ∷ group 3 ∷ []))
sorted_groups = sort_by_count_lem (group 2 ∷ group 5 ∷ group 3 ∷ [])

abbrev hex : Text → Text
hex t = t

abbrev decimal : ℕ → Text
decimal n = n ∷ []

abbrev two_peers : List Peer
two_peers = peer_of 3 ∷ peer_of 4 ∷ []

two_peers_grouped :
    ((key : Text)
      → count_of key (group_by_hardfork_schedule hex decimal two_peers)
        ≡ tally (λ p. text_eq (key_of hex decimal p) key) two_peers)
    × (sum_of (group_by_hardfork_schedule hex decimal two_peers) ≡ 2)
two_peers_grouped = group_by_hardfork_schedule_lem hex decimal two_peers

abbrev networks : List Named
networks =
    record { name = codes "hosting"; count = 3 }
    ∷ record { name = codes "residential"; count = 2 }
    ∷ []

abbrev parsed : Text → Option ℕ
parsed t = some (length t)

abbrev at_least : ℕ → ℕ → Bool
at_least m n = true

abbrev versions : List ClientVersions
versions =
    record {
      client = codes "prysm";
      client_count = 4;
      versions = record { name = codes "v2.0.0"; count = 4 } ∷ [];
    }
    ∷ []

digest_filtered :
    let query = match_connectable ∷ [] in
    let filtered : Result QueryError (List Stage) =
      ok (query ++ match_fork_digest (175 ∷ 202 ∷ []) ∷ []) in
    let digest = hex_encode (175 ∷ 202 ∷ []) in
    (add_peer_filter query (some (record { fork_digest = some digest })) ≡ filtered)
    × (add_peer_filter query (some (record { fork_digest = some (b'0' ∷ b'x' ∷ digest) }))
        ≡ filtered)
    × (add_peer_filter query (some (record { fork_digest = none })) ≡ ok query)
    × (add_peer_filter query none ≡ ok query)
digest_filtered =
    add_peer_filter_lem (match_connectable ∷ []) 175 (202 ∷ []) (omega arith, (omega arith, tt))

abbrev no_documents_found : List Stage → Result DbError (List (Option Named))
no_documents_found stages = ok []

short_digest_panics :
    run_query no_documents_found
      (group_count country ∷ [])
      (some (record { fork_digest = some [] }))
    ≡ err slice_out_of_range
short_digest_panics =
    run_query_panics no_documents_found (group_count country ∷ []) [] (omega arith)

-- Versions without a text, and epochs as their own digits.
abbrev no_version : Text → Text
no_version v = []

abbrev as_digit : ℕ → Text
as_digit n = n ∷ []

abbrev peers_apart : List Peer
peers_apart = peer_of 1 ∷ record (peer_of 2) { next_fork_epoch = 7 } ∷ []

aggregate_by_hardfork_schedule-hardfork_groups_example :
    let answer = aggregate_by_hardfork_schedule no_version as_digit values peers_apart in
    (◌≡◌ {A = Bag Aggregation}
      (Quot.mk answer)
      (hardfork_groups no_version as_digit (λ v. tt) (Quot.mk peers_apart)))
    × Descends answer
aggregate_by_hardfork_schedule-hardfork_groups_example =
    aggregate_by_hardfork_schedule-hardfork_groups no_version as_digit (λ v. tt) values peers_apart
      (λ groups q. refl)
