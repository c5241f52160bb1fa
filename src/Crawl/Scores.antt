-- ===== src/Crawl/Scores.antt =====
-- The scores of the peers that the crawler keeps.
use nodewatch_api.Base.{ℕ, ◌≡◌, some, List, arith}
use nodewatch_api.Base.Int.{ℤ, pos, ◌-ℤ◌, ◌≤ℤ◌}
use nodewatch_api.Base.Text.{Text}
use nodewatch_api.Agent.{ClientTable}
use nodewatch_api.Peer.{Peer, Node, Eth2Data, new_peer}
use nodewatch_api.Store.{Collection, CollectionLaws}
use nodewatch_api.Crawl.{Crawler, Event, collect_node_info, reached, run}
use nodewatch_api.Crawl.Keeps.{Holds, IsStable, run-Holds}
use nodewatch_api.Crawl.Attempts.{collect-Keeps}

-- A score that lets a peer stay: between 1 and 3.
abbrev pub IsKept : Peer → Type 0
IsKept p = (pos 1 ≤ℤ p.score) × (p.score ≤ℤ pos 3)

new_peer-IsKept :
    (digest_text : Text → Text) (node : Node) (eth2 : Eth2Data) (p : Peer)
    → new_peer digest_text node eth2 ≡ some p
    → IsKept p
unfolding new_peer
new_peer-IsKept digest_text node eth2 p e = ground arith

lowered : (x : ℤ) → x ≤ℤ pos 3 → x -ℤ pos 1 ≤ℤ pos 3
unfolding ◌-ℤ◌
lowered x h = ground arith

IsKept-IsStable :
    (digest_text : Text → Text) (table : ClientTable) (c : Collection) (laws : CollectionLaws c)
    → IsStable IsKept c laws digest_text table
unfolding reached
IsKept-IsStable digest_text table c laws = record {
  fresh = new_peer-IsKept digest_text;
  steady = record {
    touched = λ p t h. h;
    kept_reached = λ retries w p h e. ground arith;
    kept_failed = λ retries w p h e.
        let kept = collect-Keeps digest_text table retries 0 w.attempts p in
        let p' = (collect_node_info digest_text table retries 0 w.attempts p).1 in
        λ good. (ground arith, lowered p'.score (ground arith));
  };
}

module _ (c : Collection) (laws : CollectionLaws c) where
  open c use {Db}

  -- All that the crawler keeps, in the database and in the queue of jobs, has such a score.
  abbrev pub IsScored : Crawler Db → Type 0
  IsScored = Holds IsKept c laws

  module _ (digest_text : Text → Text) (table : ClientTable) (uuid_of : ℕ → ℕ → Text) where
    -- On any database that keeps to the driver's laws: if every peer of the database, of the selector's
    -- list, of the queue of jobs and of those at work has a score from 1 to 3, then this is so after any
    -- sequence of discoveries, selections and updates, with workers that overlap, whatever the database
    -- and the peers answer, failures included.
    pub run-IsScored :
        (s : Crawler Db) (es : List Event)
        → IsScored s
        → IsScored (run c digest_text table uuid_of s es)
    run-IsScored =
        run-Holds IsKept c laws digest_text table uuid_of (IsKept-IsStable digest_text table c laws)
