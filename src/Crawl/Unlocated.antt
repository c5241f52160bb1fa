-- ===== src/Crawl/Unlocated.antt =====
-- The crawler stores no place of a peer: the call of updateGeolocation is left out of updatePeerInfo.
use nodewatch_api.Base.{ℕ, zero, suc, ◌≡◌, refl, arith, List}
use nodewatch_api.Base.Text.{Text}
use nodewatch_api.Agent.{ClientTable}
use nodewatch_api.Peer.{
  Peer, new_peer, set_fork_digest, set_protocol_version, set_user_agent, set_sync_status,
  set_connection_status,
}
use nodewatch_api.Base.{none, ◌∙◌}
use nodewatch_api.Store.{Collection, CollectionLaws}
use nodewatch_api.Crawl.{Attempt, Crawler, Event, try_once, collect_node_info, reached, run}
use nodewatch_api.Crawl.Keeps.{Holds, IsStable, run-Holds}

abbrev pub IsUnlocated : Peer → Type 0
IsUnlocated p = p.geo_location ≡ none

module _ (digest_text : Text → Text) (table : ClientTable) where
  try_once-geo_location :
      (a : Attempt) (p : Peer) → (try_once digest_text table a p).1.geo_location ≡ p.geo_location
  unfolding try_once set_fork_digest set_protocol_version set_user_agent set_sync_status
  try_once-geo_location a p = ground arith

  collect-geo_location :
      (left count : ℕ) (env : ℕ → Attempt) (p : Peer)
      → (collect_node_info digest_text table left count env p).1.geo_location ≡ p.geo_location
  unfolding collect_node_info
  collect-geo_location zero count env p = refl
  collect-geo_location (suc left) count env p =
      let now = try_once-geo_location (env count) p in
      let later =
        collect-geo_location left (suc count) env (try_once digest_text table (env count) p).1 in
      ground (arith, now, later)

  pub IsUnlocated-IsStable :
      (c : Collection) (laws : CollectionLaws c) → IsStable IsUnlocated c laws digest_text table
  unfolding reached new_peer set_connection_status
  IsUnlocated-IsStable c laws = record {
    fresh = λ node eth2 p e. ground arith;
    steady = record {
      touched = λ p t h. h;
      kept_reached = λ retries w p h e. collect-geo_location retries 0 w.attempts p ∙ h;
      kept_failed = λ retries w p h e good. collect-geo_location retries 0 w.attempts p ∙ h;
    };
  }

  -- What the crawler holds has no place after any events, if it had none before.
  pub run-IsUnlocated :
      (uuid_of : ℕ → ℕ → Text) (c : Collection) (laws : CollectionLaws c) (s : Crawler c.Db)
      (es : List Event)
      → Holds IsUnlocated c laws s
      → Holds IsUnlocated c laws (run c digest_text table uuid_of s es)
  run-IsUnlocated uuid_of c laws =
      run-Holds IsUnlocated c laws digest_text table uuid_of (IsUnlocated-IsStable c laws)
