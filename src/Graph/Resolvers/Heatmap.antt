-- ===== src/Graph/Resolvers/Heatmap.antt =====
-- The heatmap shows every located peer, and does not panic on what the crawler stores.
use nodewatch_api.Base.{
  ◌≡◌, ◌⊎◌, subst, refl, Option, none, some, List, [], ◌∷◌, ◌++◌, map, All, ok, err, arith,
  Option-cases, Result-cases, inl, inr,
}
use nodewatch_api.Base.Text.{Text}
use nodewatch_api.Agent.{UserAgent}
use nodewatch_api.Peer.{Peer, GeoLocation}
use nodewatch_api.Store.Queries.Filters.{decode_all-some}
use nodewatch_api.Store.Queries.{
  QueryError, invalid_hex, Stage, match_connectable, match_fork_digest, group_count, group_versions,
  group_clients, facet_sync, strip_0x, hex_decode, PeerFilter, view_all, run_query, gather,
  add_peer_filter, add_fork_digest_filter,
}
use nodewatch_api.Graph.Resolvers.{Aggregate, HeatmapData, sync_text}

-- What the heatmap shows of a peer: its place, its client and its sync status.
abbrev pub IsEntry : Peer → HeatmapData → Type 0
IsEntry p d =
    (g : GeoLocation) × (u : UserAgent) × (p.geo_location ≡ some g)
    × (p.user_agent_of ≡ some u)
    × ((d.lat ≡ g.latitude) × (d.long ≡ g.longitude))
    × ((d.city_of ≡ g.city) × (d.country_of ≡ g.country) × (d.network_of ≡ g.asn.usage_type))
    × (d.client_type ≡ u.name)
    × (d.sync_status ≡ sync_text p.sync)

-- One entry for each peer, in order.
abbrev pub AreEntries : List Peer → List HeatmapData → Type 0
AreEntries [] [] = Unit {0}
AreEntries [] (d ∷ ds) = ⊥
AreEntries (p ∷ ps) [] = ⊥
AreEntries (p ∷ ps) (d ∷ ds) = IsEntry p d × AreEntries ps ds

-- Documents of peers: each decodes, to a peer that meets `Q`.
abbrev pub AllDecode : (Peer → Type 0) → List (Option Peer) → Type 0
AllDecode Q docs = (ps : List Peer) × (docs ≡ map some ps) × All Q ps

-- A stage that only picks documents.
abbrev pub IsMatch : Stage → Type 0
IsMatch match_connectable = Unit {0}
IsMatch (match_fork_digest digest) = Unit {0}
IsMatch (group_count field) = ⊥
IsMatch group_versions = ⊥
IsMatch group_clients = ⊥
IsMatch facet_sync = ⊥

filter_cases :
    (filter : Option PeerFilter)
    → ((stages : List Stage) × (add_peer_filter (match_connectable ∷ []) filter
          ≡ ok (match_connectable ∷ stages))
        × All IsMatch (stages ++ []))
      ⊎ ((e : QueryError) × (add_peer_filter (match_connectable ∷ []) filter ≡ err e))
unfolding add_peer_filter add_fork_digest_filter
filter_cases none = inl ([], refl, tt)
filter_cases (some f) = elim (Option-cases f.fork_digest) [
  | inl all ↦ inl ([], ground arith, tt)
  | inr (digest, e) ↦ elim (Result-cases (strip_0x digest)) [
    | inr (x, e1) ↦ inr (x, ground arith)
    | inl (t, e1) ↦ elim (Option-cases (hex_decode t)) [
      | inl e2 ↦ inr (invalid_hex, ground arith)
      | inr (bytes, e2) ↦ inl (match_fork_digest bytes ∷ [], ground arith, (tt, tt))
    ]
  ]
]

-- When the database answers pipelines that only pick connectable peers with peers that meet `Q`, so does
-- ViewAll.
pub view_all_answers :
    (Q : Peer → Type 0) (aggregate : Aggregate Peer) (filter : Option PeerFilter)
    → ((stages : List Stage) (docs : List (Option Peer))
        → All IsMatch stages
        → aggregate (match_connectable ∷ stages) ≡ ok docs
        → AllDecode Q docs)
    → (ps : List Peer) → view_all aggregate filter ≡ ok ps
    → All Q ps
unfolding view_all run_query gather
view_all_answers Q aggregate filter answers ps e = elim (filter_cases filter) [
  | inr (x, bad) ↦ absurd (ground arith)
  | inl (stages, good, matches) ↦
      elim (Result-cases (aggregate (match_connectable ∷ (stages ++ [])))) [
        | inr (x, fault) ↦ absurd (ground arith)
        | inl (docs, found) ↦
            let (qs, shape, all) = answers (stages ++ []) docs matches found in
            let decoded = decode_all-some qs in
            let same : qs ≡ ps = ground arith in subst (All Q) same all
      ]
]
