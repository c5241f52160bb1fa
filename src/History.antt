-- ===== src/History.antt =====
-- models/history.go, store/record/mongo/mongo.go, insertToHistory of crawler/crawl/crawl.go and
-- GetNodeStatsOverTime of graph/schema.resolvers.go: the counts that are recorded from time to time,
-- and what the API makes of them.
pub mod OverTime
use nodewatch_api.Base.{
  ℕ, ◌≡◌, Bool, ◌&&◌, Option, none, some, List, [], ◌∷◌, ◌++◌, map, select, Result, ok, err,
}
use nodewatch_api.Base.Int.{ℤ, pos, ◌-ℤ◌, ltb_ℤ}
use nodewatch_api.Base.Text.{Text}
use mathlib.Core.List.{Perm}
use nodewatch_api.Store.{DbError}
use nodewatch_api.Store.Queries.{
  QueryError, slice_out_of_range, invalid_hex, query_failed, PeerFilter, SyncCounts, strip_0x,
  hex_decode, gather,
}

-- History. Its random ID is given by a number.
pub record History : Type 0 where
  pub history_id : ℕ
  pub time : ℤ
  pub sync_nodes : ℕ
  pub eth2_nodes : ℕ

-- NewHistory, at the given time.
abbrev pub new_history : ℕ → ℤ → ℕ → ℕ → History
new_history id now sync_nodes eth2_nodes = record {
  history_id = id;
  time = now;
  sync_nodes = sync_nodes;
  eth2_nodes = eth2_nodes;
}

-- HistoryCount
pub record HistoryCount : Type 0 where
  pub count_time : ℤ
  pub total_nodes : ℕ
  pub synced_nodes : ℕ

-- The filter of GetHistory: the time is above the first and below the second, and the digest of a
-- peer filter stands in front, under the key `$match`.
pub data HistoryFilter : Type 0 where
  between : ℤ → ℤ → HistoryFilter
  match_and_between : List ℕ → ℤ → ℤ → HistoryFilter

-- The collection of the driver.
pub record HistoryCollection : Type 1 where
  pub Db : Type 0
  pub insert_one : Db → History → Option DbError × Db
  pub find : Db → HistoryFilter → Result DbError (List (Option History))

pub in_range : ℤ → ℤ → History → Bool
in_range start end_ h = ltb_ℤ start h.time && ltb_ℤ h.time end_

-- What the driver documents: an insertion without an error adds the document, and a query by time
-- that succeeds gives the documents in range, in some order.
pub record HistoryLaws (c : HistoryCollection) : Type 0 where
  pub documents : c.Db → List History
  pub insert_one_ok :
      (db : c.Db) (h : History)
      → (c.insert_one db h).0 ≡ none
      → documents (c.insert_one db h).1 ≡ documents db ++ h ∷ []
  pub find_ok :
      (db : c.Db) (start end_ : ℤ) (docs : List (Option History))
      → c.find db (between start end_) ≡ ok docs
      → (hs : List History) × (docs ≡ map some hs)
        × Perm hs (select (in_range start end_) (documents db))

digest_of : Option PeerFilter → Option Text
digest_of none = none
digest_of (some f) = f.fork_digest

-- The filter that GetHistory builds.
history_filter : ℤ → ℤ → Option PeerFilter → Result QueryError HistoryFilter
unfolding digest_of
history_filter start end_ filter = elim (digest_of filter) [
  | none ↦ ok (between start end_)
  | some digest ↦ elim (strip_0x digest) [
    | err e ↦ err e
    | ok t ↦ elim (hex_decode t) [
      | none ↦ err invalid_hex
      | some bytes ↦ ok (match_and_between bytes start end_)
    ]
  ]
]

-- The last loop of GetHistory.
count_of : History → HistoryCount
count_of h = record { count_time = h.time; total_nodes = h.eth2_nodes; synced_nodes = h.sync_nodes }

-- NodeStatsOverTime. The time is a float64 of the same value, below 2^53.
pub record NodeStatsOverTime : Type 0 where
  pub stats_time : ℤ
  pub stats_total : ℕ
  pub stats_synced : ℕ
  pub stats_unsynced : ℤ

pub stats_of : HistoryCount → NodeStatsOverTime
stats_of v = record {
  stats_time = v.count_time;
  stats_total = v.total_nodes;
  stats_synced = v.synced_nodes;
  stats_unsynced = pos v.total_nodes -ℤ pos v.synced_nodes;
}

-- What one run of the job meets: the peer store's answer, an ID and the time.
abbrev pub Snapshot : Type 0
Snapshot = Result QueryError SyncCounts × ℕ × ℤ

module _ (c : HistoryCollection) where
  open c use {Db, insert_one, find}

  -- Create
  create_history : Db → History → Option DbError × Db
  create_history db h = insert_one db h

  -- GetHistory
  pub get_history : Db → ℤ → ℤ → Option PeerFilter → Result QueryError (List HistoryCount)
  unfolding history_filter count_of
  get_history db start end_ filter = elim (history_filter start end_ filter) [
    | err e ↦ err e
    | ok query ↦ elim (gather (find db query)) [
      | err e ↦ err e
      | ok result ↦ ok (map count_of result)
    ]
  ]

  -- GetNodeStatsOverTime, of times that are whole.
  pub get_node_stats_over_time :
      Db → ℤ → ℤ → Option PeerFilter → Result QueryError (List NodeStatsOverTime)
  unfolding get_history stats_of
  get_node_stats_over_time db start end_ filter = elim (get_history db start end_ filter) [
    | err e ↦ err e
    | ok counts ↦ ok (map stats_of counts)
  ]

  -- insertToHistory: the counts that the peer store gave, or its error, the ID and the time. A nil
  -- pointer to the counts is dereferenced after an error, and `none` stands for the panic. A failure
  -- of Create is logged only.
  unfoldable pub insert_to_history : Result QueryError SyncCounts → ℕ → ℤ → Db → Option Db
  unfolding create_history
  insert_to_history (err e) id now db = none
  insert_to_history (ok counts) id now db =
      some (create_history db (new_history id now counts.synced counts.total)).1

  -- The job run once for each of some counts, with their IDs and times, as long as it does not panic.
  unfoldable pub insert_snapshots : List Snapshot → Db → Option Db
  unfolding insert_to_history
  insert_snapshots [] db = some db
  insert_snapshots ((counts, id, now) ∷ rest) db = elim (insert_to_history counts id now db) [
    | none ↦ none
    | some db' ↦ insert_snapshots rest db'
  ]
