-- ===== src/Graph/Resolvers/Empty.antt =====
-- The heatmap of what the crawler stores by itself.
use nodewatch_api.Base.{◌≡◌, refl, Option, some, List, [], ◌∷◌, All, All-weaken, ok, ℕ}
use nodewatch_api.Base.Text.{Text}
use nodewatch_api.Agent.{ClientTable}
use nodewatch_api.Peer.{Peer}
use nodewatch_api.Store.{Collection, CollectionLaws}
use nodewatch_api.Store.Queries.{match_connectable, Stage, PeerFilter, view_all}
use nodewatch_api.Crawl.{Crawler, Event, run}
use nodewatch_api.Crawl.Keeps.{Holds}
use nodewatch_api.Crawl.Unlocated.{IsUnlocated, run-IsUnlocated}
use nodewatch_api.Graph.Resolvers.{Aggregate, heatmap_data, get_heatmap_data}
use nodewatch_api.Graph.Resolvers.Heatmap.{AllDecode, IsMatch, view_all_answers}

heatmap_data_empty : (ps : List Peer) → All IsUnlocated ps → heatmap_data ps ≡ some []
unfolding heatmap_data
heatmap_data_empty [] h = refl
heatmap_data_empty (p ∷ ps) h = rw h.0 (heatmap_data_empty ps h.1)

-- Where no peer had a place at the start, GetHeatmapData shows no peer at all: after any sequence of the
-- crawler's events, on any database that keeps to the driver's laws and answers pipelines that only pick
-- connectable peers with stored ones, and with or without a filter, its answer is the empty list
-- whenever ViewAll succeeds.
pub get_heatmap_data_empty :
    (digest_text : Text → Text) (table : ClientTable) (uuid_of : ℕ → ℕ → Text) (c : Collection)
    (laws : CollectionLaws c) (s : Crawler c.Db) (es : List Event) (aggregate : Aggregate Peer)
    (filter : Option PeerFilter) (ps : List Peer)
    → Holds IsUnlocated c laws s
    → ((stages : List Stage) (docs : List (Option Peer))
        → All IsMatch stages
        → aggregate (match_connectable ∷ stages) ≡ ok docs
        → AllDecode (λ p. laws.view (run c digest_text table uuid_of s es).db p.id ≡ some p) docs)
    → view_all aggregate filter ≡ ok ps
    → get_heatmap_data aggregate filter ≡ some (ok [])
unfolding get_heatmap_data
get_heatmap_data_empty digest_text table uuid_of c laws s es aggregate filter ps start answers
      found =
    let kept = run-IsUnlocated digest_text table uuid_of c laws s es start in
    let stored = view_all_answers _ aggregate filter answers ps found in
    let empty =
      heatmap_data_empty ps (All-weaken _ IsUnlocated (λ p h. kept.0 p.id p h) ps stored) in
    rw (found, get_heatmap_data) (rw empty refl)
