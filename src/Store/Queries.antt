-- ===== src/Store/Queries.antt =====
-- The queries of store/peerstore/mongo/mongo.go: the filter of a query, ViewAll and the aggregations. What
-- the database makes of a pipeline is a parameter.
pub mod Filters
use nodewatch_api.Base.{
  ℕ, ◌+◌, ◌-◌, ◌*◌, Bool, true, false, ◌&&◌, Option, none, some, List, [], ◌∷◌, ◌++◌, leb, ◌==◌,
  if◌then◌else◌, Result, ok, err,
}
use nodewatch_api.Base.Text.{Text}
use nodewatch_api.Peer.{Peer}
use nodewatch_api.Store.{DbError}
use nodewatch_api.Graph.{Named, ClientVersions}

-- Why a query fails. A slice that is out of range is a panic in Go.
pub data QueryError : Type 0 where
  slice_out_of_range invalid_hex decode_failed : QueryError
  query_failed : DbError → QueryError

-- The fields by which peers are counted, and the stages of a pipeline.
pub data Field : Type 0 where
  agent_name agent_os country network_type : Field

pub data Stage : Type 0 where
  match_connectable group_versions group_clients facet_sync : Stage
  match_fork_digest : List ℕ → Stage
  group_count : Field → Stage

pub record PeerFilter : Type 0 where
  pub fork_digest : Option Text

-- hex.DecodeString: a digit of either case, and pairs of digits.
unfoldable pub hex_value : ℕ → Option ℕ
hex_value c =
    if leb 48 c && leb c 57
    then some (c - 48)
    else if leb 97 c && leb c 102
    then some (c - 87)
    else if leb 65 c && leb c 70
    then some (c - 55)
    else none

unfoldable pub hex_decode : Text → Option (List ℕ)
unfolding hex_value
hex_decode [] = some []
hex_decode (c ∷ []) = none
hex_decode (c ∷ d ∷ cs) =
    let rest = hex_decode cs in
    elim (hex_value c) [
      | none ↦ none
      | some hi ↦ elim (hex_value d) [
        | none ↦ none
        | some lo ↦ elim rest [ none ↦ none | some bs ↦ some ((hi * 16 + lo) ∷ bs) ]
      ]
    ]

-- `if forkDigest[0:2] == "0x" { forkDigest = forkDigest[2:] }`
unfoldable pub strip_0x : Text → Result QueryError Text
strip_0x [] = err slice_out_of_range
strip_0x (c ∷ []) = err slice_out_of_range
strip_0x (c ∷ d ∷ cs) = if c == b'0' && d == b'x' then ok cs else ok (c ∷ d ∷ cs)

-- AddForkDigestFilterToQueryPipeline
unfoldable pub add_fork_digest_filter : List Stage → Text → Result QueryError (List Stage)
unfolding strip_0x
add_fork_digest_filter query digest = elim (strip_0x digest) [
  | err e ↦ err e
  | ok t ↦ elim (hex_decode t) [
    | none ↦ err invalid_hex
    | some bytes ↦ ok (query ++ match_fork_digest bytes ∷ [])
  ]
]

-- AddPeerFilterToQueryPipeline
unfoldable pub add_peer_filter : List Stage → Option PeerFilter → Result QueryError (List Stage)
add_peer_filter query none = ok query
add_peer_filter query (some f) = elim f.fork_digest [
  | none ↦ ok query
  | some digest ↦ add_fork_digest_filter query digest
]

-- The loop over a cursor, of which each document decodes or not.
unfoldable pub decode_all {ℓ} : {A : Type ℓ} → List (Option A) → Result QueryError (List A)
decode_all [] = ok []
decode_all (d ∷ ds) =
    let rest = decode_all ds in
    elim d [
      | none ↦ err decode_failed
      | some a ↦ elim rest [ err e ↦ err e | ok as_ ↦ ok (a ∷ as_) ]
    ]

unfoldable pub gather {ℓ} :
    {A : Type ℓ} → Result DbError (List (Option A)) → Result QueryError (List A)
unfolding decode_all
gather (err e) = err (query_failed e)
gather (ok docs) = decode_all docs

-- What all queries share: connectable peers, the filter, and the query's own stages.
unfoldable pub run_query {ℓ} :
    {A : Type ℓ}
    → (List Stage → Result DbError (List (Option A)))
    → List Stage
    → Option PeerFilter
    → Result QueryError (List A)
unfolding gather
run_query aggregate stages filter = elim (add_peer_filter (match_connectable ∷ []) filter) [
  | err e ↦ err e
  | ok query ↦ gather (aggregate (query ++ stages))
]

unfoldable pub view_all :
    (List Stage → Result DbError (List (Option Peer)))
    → Option PeerFilter
    → Result QueryError (List Peer)
view_all aggregate filter = run_query aggregate [] filter

-- AggregateByOperatingSystem, AggregateByCountry and AggregateByNetworkType
unfoldable pub aggregate_by :
    Field
    → (List Stage → Result DbError (List (Option Named)))
    → Option PeerFilter
    → Result QueryError (List Named)
aggregate_by field aggregate filter = run_query aggregate (group_count field ∷ []) filter

-- AggregateByAgentName, which groups by the agent's name as the others do by their fields.
abbrev aggregate_by_agent_name :
    (List Stage → Result DbError (List (Option Named)))
    → Option PeerFilter
    → Result QueryError (List Named)
aggregate_by_agent_name aggregate filter = aggregate_by agent_name aggregate filter

pub aggregate_by_client_version :
    (List Stage → Result DbError (List (Option ClientVersions)))
    → Option PeerFilter
    → Result QueryError (List ClientVersions)
aggregate_by_client_version aggregate filter =
    run_query aggregate (group_versions ∷ group_clients ∷ []) filter

-- A document of the facets, and SyncAggregateData.
pub record SyncFacets : Type 0 where
  pub total_counts : List ℕ
  pub synced_counts : List ℕ
  pub unsynced_counts : List ℕ

pub record SyncCounts : Type 0 where
  pub total : ℕ
  pub synced : ℕ
  pub unsynced : ℕ

first_or : ℕ → List ℕ → ℕ
first_or n [] = n
first_or n (x ∷ xs) = x

read_facets : SyncCounts → List SyncFacets → SyncCounts
unfolding first_or
read_facets r [] = r
read_facets r (d ∷ ds) =
    read_facets
      (record {
        total = first_or r.total d.total_counts;
        synced = first_or r.synced d.synced_counts;
        unsynced = first_or r.unsynced d.unsynced_counts;
      })
      ds

-- AggregateBySyncStatus
pub aggregate_by_sync_status :
    (List Stage → Result DbError (List (Option SyncFacets)))
    → Option PeerFilter
    → Result QueryError SyncCounts
unfolding read_facets
aggregate_by_sync_status aggregate filter = elim (run_query aggregate (facet_sync ∷ []) filter) [
  | err e ↦ err e
  | ok docs ↦ ok (read_facets (record { total = 0; synced = 0; unsynced = 0 }) docs)
]
