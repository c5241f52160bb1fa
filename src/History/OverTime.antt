-- ===== src/History/OverTime.antt =====
-- What is recorded by insertToHistory is what GetNodeStatsOverTime tells.
use nodewatch_api.Base.{
  ℕ, ◌≡◌, ◌≢◌, All, All-append, refl, sym, ◌∙◌, ap, subst, Bool, ◌&&◌, Option, none, some, List, [],
  ◌∷◌, ◌++◌, map, select, ok, append-nil, append_assoc, arith,
}
use nodewatch_api.Base.Int.{ℤ, sub_ℕ, ltb_ℤ, ◌-ℤ◌}
use mathlib.Core.List.{Perm}
use mathlib.Core.List.Perm
use nodewatch_api.Store.Queries.Filters.{decode_all-some}
use nodewatch_api.Store.Queries.{SyncCounts, gather}
use nodewatch_api.History.{
  History, HistoryCollection, HistoryLaws, NodeStatsOverTime, between, in_range, new_history,
  count_of, stats_of, history_filter, get_history, get_node_stats_over_time, insert_to_history,
  create_history, insert_snapshots, Snapshot,
}

-- The counts of one run of the job, with its ID and its time.
abbrev pub Taken : Type 0
Taken = SyncCounts × ℕ × ℤ

abbrev pub as_snapshot : Taken → Snapshot
as_snapshot (counts, id, now) = (ok counts, id, now)

abbrev pub id_of : Taken → ℕ
id_of (counts, id, now) = id

-- No two runs have the same ID.
abbrev pub AreDistinct : List Taken → Type 0
AreDistinct [] = Unit {0}
AreDistinct (t ∷ ts) = All (λ u. id_of t ≢ id_of u) ts × AreDistinct ts

-- No document has the ID.
abbrev pub IsUnused : List History → ℕ → Type 0
IsUnused ds id = All (λ d. d.history_id ≢ id) ds

history_of : Taken → History
history_of (counts, id, now) = new_history id now counts.synced counts.total

-- What the API is to tell of a run: its time and its counts, and the rest as not synced.
abbrev pub told : Taken → NodeStatsOverTime
told (counts, id, now) = record {
  stats_time = now;
  stats_total = counts.total;
  stats_synced = counts.synced;
  stats_unsynced = sub_ℕ counts.total counts.synced;
}

abbrev pub taken_between : ℤ → ℤ → Taken → Bool
taken_between start end_ (counts, id, now) = ltb_ℤ start now && ltb_ℤ now end_

told_selected :
    (start end_ : ℤ) (ts : List Taken)
    → map stats_of (map count_of (select (in_range start end_) (map history_of ts)))
      ≡ map told (select (taken_between start end_) ts)
unfolding stats_of count_of in_range history_of ◌-ℤ◌
told_selected start end_ [] = refl
told_selected start end_ (t ∷ ts) = ground (arith, told_selected start end_ ts)

module _ (c : HistoryCollection) (laws : HistoryLaws c) where
  open c use {Db, insert_one, find}
  open laws use {documents, insert_one_ok, find_ok}

  -- An insertion of a document whose ID is not in use succeeds.
  abbrev pub Accepts : Type 0
  Accepts =
      (db : Db) (h : History) → IsUnused (documents db) h.history_id → (insert_one db h).0 ≡ none

  -- The IDs of the other runs are still unused behind an insertion.
  append-IsUnused :
      (t : Taken) (ts : List Taken) (ds : List History)
      → All (λ u. id_of t ≢ id_of u) ts
      → All (λ u. IsUnused ds (id_of u)) ts
      → All (λ u. IsUnused (ds ++ history_of t ∷ []) (id_of u)) ts
  unfolding history_of
  append-IsUnused t [] ds other unused = tt
  append-IsUnused t (u ∷ ts) ds other unused = (
    All-append _ ds (history_of t ∷ []) unused.0 (other.0, tt),
    append-IsUnused t ts ds other.1 unused.1,
  )

  insert_snapshots-documents :
      (ts : List Taken) (db : Db)
      → Accepts
      → AreDistinct ts
      → All (λ t. IsUnused (documents db) (id_of t)) ts
      → (db' : Db) × (insert_snapshots c (map as_snapshot ts) db ≡ some db')
        × (documents db' ≡ documents db ++ map history_of ts)
  unfolding insert_snapshots insert_to_history create_history history_of
  insert_snapshots-documents [] db h distinct unused = (db, refl, sym (append-nil (documents db)))
  insert_snapshots-documents (t ∷ ts) db h distinct unused =
      let new = history_of t in
      let added = insert_one_ok db new (h db new unused.0) in
      let fresh =
        subst (λ ds. All (λ u. IsUnused ds (id_of u)) ts) (sym added)
          (append-IsUnused t ts (documents db) distinct.0 unused.1) in
      let (db', e, all) = insert_snapshots-documents ts (insert_one db new).1 h distinct.1 fresh in
      (
        db',
        e,
        all
            ∙ ap (λ d. d ++ map history_of ts) added
            ∙ append_assoc (documents db) (new ∷ []) (map history_of ts),
      )

  nil-IsUnused : (ts : List Taken) → All (λ t. IsUnused [] (id_of t)) ts
  nil-IsUnused [] = tt
  nil-IsUnused (t ∷ ts) = (tt, nil-IsUnused ts)

  -- GetNodeStatsOverTime without a fork digest, after insertToHistory has run any number of times, with
  -- different IDs, on an empty collection whose queries succeed, and whose insertions do where the ID is
  -- not in use: the job does not panic where the peer
  -- store's counts are given, and the answer has, in some order, one entry for each run whose time is
  -- strictly between the two bounds, with the time and the counts of that run, and with the
  -- difference of the counts as the nodes that are not synced.
  pub get_node_stats_over_time-insert_snapshots :
      (db : Db) (ts : List Taken) (start end_ : ℤ)
      → documents db ≡ []
      → Accepts
      → AreDistinct ts
      → ((db1 : Db) → (docs : List (Option History)) × (find db1 (between start end_) ≡ ok docs))
      → (db' : Db) × (stats : List NodeStatsOverTime) × (insert_snapshots c (map as_snapshot ts) db
          ≡ some db')
        × (get_node_stats_over_time c db' start end_ none ≡ ok stats)
        × Perm stats (map told (select (taken_between start end_) ts))
  unfolding get_node_stats_over_time get_history history_filter gather
  get_node_stats_over_time-insert_snapshots db ts start end_ empty accepts distinct answers =
      let unused =
        subst (λ ds. All (λ t. IsUnused ds (id_of t)) ts) (sym empty) (nil-IsUnused ts) in
      let (db', e, all) = insert_snapshots-documents ts db accepts distinct unused in
      let (docs, found) = answers db' in
      let (hs, shape, order) = find_ok db' start end_ docs found in
      let listed : documents db' ≡ map history_of ts = ground (arith, all) in
      let decoded = decode_all-some hs in
      (
        db',
        map stats_of (map count_of hs),
        e,
        ground arith,
        subst (λ l. Perm (map stats_of (map count_of hs)) l) (told_selected start end_ ts)
            (Perm.map stats_of (Perm.map count_of (rw listed at order))),
      )
