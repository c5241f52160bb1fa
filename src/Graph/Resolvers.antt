-- ===== src/Graph/Resolvers.antt =====
-- The resolvers of graph/schema.resolvers.go, from the store's queries to the answers. A percentage is
-- given by the part and the whole that are divided as float64.
pub mod Heatmap
pub mod Empty
use nodewatch_api.Base.{
  ℕ, Bool, true, false, ◌||◌, not, Option, none, some, List, [], ◌∷◌, length, ◌==◌, if◌then◌else◌,
  Result, ok, err,
}
use nodewatch_api.Base.Int.{ℤ, pos, negsuc}
use nodewatch_api.Base.Text.{Text, codes}
use nodewatch_api.Agent.{ClientName, UserAgent}
use nodewatch_api.Peer.{Peer, Sync, GeoLocation}
use nodewatch_api.Store.{DbError}
use nodewatch_api.Store.Queries.{
  QueryError, Stage, Field, country, network_type, PeerFilter, SyncFacets, view_all, aggregate_by,
  aggregate_by_client_version, aggregate_by_sync_status,
}
use nodewatch_api.Graph.{
  Named, ClientVersions, Aggregation, aggregate_by_hardfork_schedule, altair_counts, Regional,
  regional_counts,
}

-- What the database makes of a pipeline whose documents are of a type.
abbrev pub Aggregate : Type 0 → Type 0
Aggregate A = List Stage → Result DbError (List (Option A))

-- The loop of the resolvers that copies names and counts.
copy_named : List Named → List Named
copy_named [] = []
copy_named (a ∷ rest) = record { name = a.name; count = a.count } ∷ copy_named rest

-- AggregateByAgentName, AggregateByCountry, AggregateByOperatingSystem and AggregateByNetwork.
pub resolve_aggregate_by :
    Field → Aggregate Named → Option PeerFilter → Result QueryError (List Named)
unfolding copy_named
resolve_aggregate_by field aggregate filter = elim (aggregate_by field aggregate filter) [
  | err e ↦ err e
  | ok found ↦ ok (copy_named found)
]

copy_clients : List ClientVersions → List ClientVersions
unfolding copy_named
copy_clients [] = []
copy_clients (c ∷ cs) =
    record { client = c.client; client_count = c.client_count; versions = copy_named c.versions }
    ∷ copy_clients cs

-- AggregateByClientVersion
pub resolve_client_version :
    Aggregate ClientVersions → Option PeerFilter → Result QueryError (List ClientVersions)
unfolding copy_clients
resolve_client_version aggregate filter = elim (aggregate_by_client_version aggregate filter) [
  | err e ↦ err e
  | ok found ↦ ok (copy_clients found)
]

-- AggregateByHardforkSchedule
pub resolve_hardfork_schedule :
    (Text → Text)
    → (ℕ → Text)
    → (List (Text × Aggregation) → List Aggregation)
    → Aggregate Peer
    → Option PeerFilter
    → Result QueryError (List Aggregation)
resolve_hardfork_schedule version_text epoch_text walk aggregate filter =
    elim (view_all aggregate filter) [
      | err e ↦ err e
      | ok peers ↦ ok (aggregate_by_hardfork_schedule version_text epoch_text walk peers)
    ]

-- HeatmapData. A sync status that is not known is the empty text.
pub record HeatmapData : Type 0 where
  pub network_of : Text
  pub client_type : ClientName
  pub sync_status : Text
  pub lat : ℤ
  pub long : ℤ
  pub city_of : Text
  pub country_of : Text

is_zero_angle : ℤ → Bool
is_zero_angle (pos n) = n == 0
is_zero_angle (negsuc n) = false

pub sync_text : Option Sync → Text
sync_text none = []
sync_text (some s) = if s.status then codes "synced" else codes "unsynced"

is_located : GeoLocation → Bool
unfolding is_zero_angle
is_located g = not (is_zero_angle g.latitude) || not (is_zero_angle g.longitude)

-- Whether the heatmap shows a peer.
pub is_shown : Peer → Bool
unfolding is_located
is_shown p = elim p.geo_location [ none ↦ false | some g ↦ is_located g ]

-- The entry of a peer.
located : GeoLocation → UserAgent → Option Sync → HeatmapData
unfolding sync_text
located g u sync = record {
  network_of = g.asn.usage_type;
  client_type = u.name;
  sync_status = sync_text sync;
  lat = g.latitude;
  long = g.longitude;
  city_of = g.city;
  country_of = g.country;
}

-- The loop of GetHeatmapData. `none` is the panic at a peer that is shown and has no user agent.
unfoldable pub heatmap_data : List Peer → Option (List HeatmapData)
unfolding is_located located
heatmap_data [] = some []
heatmap_data (p ∷ ps) =
    let rest = heatmap_data ps in
    elim p.geo_location [
      | none ↦ rest
      | some g ↦
          if is_located g
          then elim p.user_agent_of [
            | none ↦ none
            | some u ↦ elim rest [ none ↦ none | some shown ↦ some (located g u p.sync ∷ shown) ]
          ]
          else rest
    ]

-- GetHeatmapData
unfoldable pub get_heatmap_data :
    Aggregate Peer → Option PeerFilter → Option (Result QueryError (List HeatmapData))
unfolding heatmap_data
get_heatmap_data aggregate filter = elim (view_all aggregate filter) [
  | err e ↦ some (err e)
  | ok peers ↦ elim (heatmap_data peers) [ none ↦ none | some shown ↦ some (ok shown) ]
]

-- A part of a whole.
pub record Share : Type 0 where
  pub part : ℕ
  pub whole : ℕ

-- NodeStats
pub record NodeStats : Type 0 where
  pub all_nodes : ℕ
  pub synced_share : Share
  pub unsynced_share : Share

-- GetNodeStats
pub get_node_stats : Aggregate SyncFacets → Option PeerFilter → Result QueryError NodeStats
get_node_stats aggregate filter = elim (aggregate_by_sync_status aggregate filter) [
  | err e ↦ err e
  | ok counts ↦ ok (record {
    all_nodes = counts.total;
    synced_share = record { part = counts.synced; whole = counts.total };
    unsynced_share = record { part = counts.unsynced; whole = counts.total };
  })
]

-- RegionalStats
pub record RegionalStats : Type 0 where
  pub participating_countries : ℕ
  pub hosted_share : Share
  pub nonhosted_share : Share

-- GetRegionalStats
pub get_regional_stats : Aggregate Named → Option PeerFilter → Result QueryError RegionalStats
get_regional_stats aggregate filter = elim (aggregate_by country aggregate filter) [
  | err e ↦ err e
  | ok countries ↦ elim (aggregate_by network_type aggregate filter) [
    | err e ↦ err e
    | ok networks ↦
        let r = regional_counts networks (record { hosted = 0; nonhosted = 0; total = 0 }) in
        ok (record {
          participating_countries = length countries;
          hosted_share = record { part = r.hosted; whole = r.total };
          nonhosted_share = record { part = r.nonhosted; whole = r.total };
        })
  ]
]

-- GetAltairUpgradePercentage
pub get_altair_upgrade_percentage :
    {V : Type 0}
    → (Text → Option V)
    → (V → V → Bool)
    → Aggregate ClientVersions
    → Option PeerFilter
    → Result QueryError Share
get_altair_upgrade_percentage new_version at_least aggregate filter =
    elim (aggregate_by_client_version aggregate filter) [
      | err e ↦ err e
      | ok clients ↦
          let counts = altair_counts new_version at_least clients (0, 0) in
          ok (record { part = counts.0; whole = counts.1 })
    ]
