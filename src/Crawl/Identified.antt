-- ===== src/Crawl/Identified.antt =====
-- The peers that count as connectable have a user agent.
use nodewatch_api.Base.{ℕ, zero, suc, ◌≡◌, true, false, some, none, arith, Bool, Option, List}
use nodewatch_api.Base.Text.{Text}
use nodewatch_api.Agent.{ClientTable, UserAgent}
use nodewatch_api.Peer.{
  Peer, new_peer, set_fork_digest, set_protocol_version, set_user_agent, set_sync_status,
  set_connection_status,
}
use nodewatch_api.Store.{Collection, CollectionLaws}
use nodewatch_api.Crawl.{Attempt, Crawler, Event, try_once, collect_node_info, reached, run}
use nodewatch_api.Crawl.Attempts.{collect-Keeps}
use nodewatch_api.Crawl.Keeps.{Holds, IsStable, run-Holds}

abbrev pub has_agent : Option UserAgent → Bool
has_agent none = false
has_agent (some u) = true

abbrev pub HasAgent : Peer → Type 0
HasAgent p = has_agent p.user_agent_of ≡ true

abbrev pub IsIdentified : Peer → Type 0
IsIdentified p = p.is_connectable ≡ true → HasAgent p

module _ (digest_text : Text → Text) (table : ClientTable) where
  try_once-HasAgent :
      (a : Attempt) (p : Peer)
      → ((try_once digest_text table a p).0 ≡ true → HasAgent (try_once digest_text table a p).1)
        × (HasAgent p → HasAgent (try_once digest_text table a p).1)
  unfolding try_once set_fork_digest set_protocol_version set_user_agent set_sync_status
  try_once-HasAgent a p = ground arith

  collect-HasAgent :
      (left count : ℕ) (env : ℕ → Attempt) (p : Peer)
      → let (ok_, q) = collect_node_info digest_text table left count env p in
        (ok_ ≡ true → HasAgent q) × (HasAgent p → HasAgent q)
  unfolding collect_node_info
  collect-HasAgent zero count env p = (λ e. cc, λ h. h)
  collect-HasAgent (suc left) count env p =
      let (now, keeps) = try_once-HasAgent (env count) p in
      let (later, keeps') =
        collect-HasAgent left (suc count) env (try_once digest_text table (env count) p).1 in
      ground (arith, now, keeps, later, keeps')

  IsIdentified-IsStable :
      (c : Collection) (laws : CollectionLaws c) → IsStable IsIdentified c laws digest_text table
  unfolding reached new_peer set_connection_status
  IsIdentified-IsStable c laws = record {
    fresh = λ node eth2 p e h. ground arith;
    steady = record {
      touched = λ p t h. h;
      kept_reached = λ retries w p h e k. (collect-HasAgent retries 0 w.attempts p).0 e;
      kept_failed = λ retries w p h e good k.
          let kept = collect-Keeps digest_text table retries 0 w.attempts p in
          (collect-HasAgent retries 0 w.attempts p).1 (h (ground (arith, kept)));
    };
  }

  -- On any database that keeps to the driver's laws: if every peer of the database, of the selector's
  -- list, of the queue of jobs and of those at work that counts as connectable has a user agent, then
  -- this is so after any sequence of discoveries, selections and updates, with workers that overlap,
  -- whatever the database and the peers answer, failures included.
  pub run-IsIdentified :
      (uuid_of : ℕ → ℕ → Text) (c : Collection) (laws : CollectionLaws c) (s : Crawler c.Db)
      (es : List Event)
      → Holds IsIdentified c laws s
      → Holds IsIdentified c laws (run c digest_text table uuid_of s es)
  run-IsIdentified uuid_of c laws =
      run-Holds IsIdentified c laws digest_text table uuid_of (IsIdentified-IsStable c laws)
