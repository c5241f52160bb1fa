-- ===== src/Examples/Answers.antt =====
-- Answers of the API: the heatmap behind a crawler, and the counts over time.
use nodewatch_api.Base.{
  ◌≡◌, refl, true, none, some, List, [], ◌∷◌, ◌++◌, map, select, arith, ok, err,
}
use nodewatch_api.Base.Int.{pos}
use nodewatch_api.Base.Text.{codes}
use mathlib.Core.List.{Perm}
use mathlib.Core.List.Perm
use nodewatch_api.Agent.{clients, teku, linux}
use nodewatch_api.Peer.{Peer}
use nodewatch_api.Store.{DbError}
use nodewatch_api.Store.Memory.{memory, memory_laws, lookup}
use nodewatch_api.Store.Queries.{view_all, run_query, gather, decode_all, add_peer_filter}
use nodewatch_api.Crawl.{Crawler, taken, run, step, take_job}
use nodewatch_api.Crawl.Keeps.{Holds}
use nodewatch_api.Crawl.Identified.{IsIdentified, run-IsIdentified}
use nodewatch_api.Crawl.Unlocated.{IsUnlocated}
use nodewatch_api.Graph.Resolvers.Empty.{get_heatmap_data_empty}
use nodewatch_api.Graph.Resolvers.{Aggregate, get_heatmap_data}
use nodewatch_api.History.{
  History, HistoryCollection, HistoryLaws, between, match_and_between, in_range, NodeStatsOverTime,
  get_node_stats_over_time, insert_snapshots,
}
use nodewatch_api.History.OverTime.{
  Taken, as_snapshot, told, taken_between, get_node_stats_over_time-insert_snapshots,
}
use nodewatch_api.Examples.Peers.{peer_of, hex, uuid}

-- A connectable peer in Zug.
abbrev located_peer : Peer
located_peer = record (peer_of 3) {
  is_connectable = true;
  user_agent_of = some (record { name = teku; version = codes "v1.0.0"; os = linux });
  geo_location = some (record {
    asn = record {
      asn_id = [];
      asn_name = [];
      domain = [];
      route = [];
      usage_type = codes "hosting";
    };
    country = codes "CH";
    state = [];
    city = codes "Zug";
    latitude = pos 47;
    longitude = pos 8;
  });
}

abbrev crawler : Crawler (List Peer)
crawler = record {
  db = located_peer ∷ [];
  pending = [];
  jobs = peer_of 4 ∷ [];
  busy = [];
  written = [];
}

crawler-IsIdentified : Holds IsIdentified memory memory_laws crawler
unfolding lookup
crawler-IsIdentified = (λ k p e h. ground arith, tt, ((λ h. cc), tt), tt)

run-IsIdentified_example :
    Holds IsIdentified memory memory_laws (run memory hex clients uuid crawler (taken ∷ []))
run-IsIdentified_example =
    run-IsIdentified hex clients uuid memory memory_laws crawler (taken ∷ []) crawler-IsIdentified

abbrev one_peer : Aggregate Peer
one_peer stages = ok (some located_peer ∷ [])

-- A crawler that has met no peer with a place, and its only peer as the answer of the database.
abbrev unlocated : Crawler (List Peer)
unlocated = record crawler { db = peer_of 3 ∷ [] }

unlocated-IsUnlocated : Holds IsUnlocated memory memory_laws unlocated
unfolding lookup
unlocated-IsUnlocated = (λ k p e. ground arith, tt, (refl, tt), tt)

stored_peer : Aggregate Peer
stored_peer stages = ok (some (peer_of 3) ∷ [])

stored_peer_viewed : view_all stored_peer none ≡ ok (peer_of 3 ∷ [])
unfolding view_all run_query gather decode_all add_peer_filter stored_peer
stored_peer_viewed = refl

get_heatmap_data_empty_example : get_heatmap_data stored_peer none ≡ some (ok [])
unfolding run step take_job lookup stored_peer
get_heatmap_data_empty_example =
    get_heatmap_data_empty hex clients uuid memory memory_laws unlocated (taken ∷ []) stored_peer
      none (peer_of 3 ∷ []) unlocated-IsUnlocated
      (λ stages docs m e. (peer_of 3 ∷ [], ground arith, (refl, tt))) stored_peer_viewed

-- A collection of the recorded counts in memory.
abbrev recorded : HistoryCollection
recorded = record {
  Db = List History;
  insert_one = λ db h. (none, db ++ h ∷ []);
  find = λ db q. elim q [
    | between start end_ ↦ ok (map some (select (in_range start end_) db))
    | match_and_between digest start end_ ↦ err DbError.failed
  ];
}

recorded_laws : HistoryLaws recorded
recorded_laws = record {
  documents = λ db. db;
  insert_one_ok = λ db h e. refl;
  find_ok = λ db start end_ docs e. (select (in_range start end_) db, ground arith, Perm.refl _);
}

abbrev runs : List Taken
runs =
    (record { total = 10; synced = 7; unsynced = 3 }, 1, pos 100)
    ∷ (record { total = 12; synced = 8; unsynced = 4 }, 2, pos 200)
    ∷ []

get_node_stats_over_time-insert_snapshots_example :
    (db' : List History) × (stats : List NodeStatsOverTime) × (insert_snapshots recorded
        (map as_snapshot runs)
        []
      ≡ some db')
    × (get_node_stats_over_time recorded db' (pos 100) (pos 300) none ≡ ok stats)
    × Perm stats (map told (select (taken_between (pos 100) (pos 300)) runs))
unfolding recorded_laws
get_node_stats_over_time-insert_snapshots_example =
    get_node_stats_over_time-insert_snapshots recorded recorded_laws [] runs (pos 100) (pos 300)
      refl (λ db h u. refl) (((λ e. omega arith), tt), (tt, tt))
      (λ db. (map some (select (in_range (pos 100) (pos 300)) db), refl))
