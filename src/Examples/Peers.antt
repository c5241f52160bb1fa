-- ===== src/Examples/Peers.antt =====
-- Peers in the store in memory, and a run of the crawler on them.
use nodewatch_api.Base.{
  ℕ, ◌+◌, ◌-◌, ◌*◌, ◌/◌, ◌≤◌, ◌<◌, ◌^◌, ◌≡◌, ◌↔◌, true, false, none, some, List, [], ◌∷◌, arith,
}
use nodewatch_api.Base.Int.{pos, from_bits}
use nodewatch_api.Base.Text.{Text}
use nodewatch_api.Agent.{clients}
use nodewatch_api.Peer.{Peer, sync_status, no_attnets}
use nodewatch_api.Peer.SyncStatus.{sync_status_lem, sync_status_wraps}
use nodewatch_api.Store.Memory.{memory, memory_laws, lookup}
use nodewatch_api.Crawl.{
  Crawler, Attempt, Event, other_error, listed, selected, taken, worked, collect_node_info, run,
}
use nodewatch_api.Crawl.Attempts.{CollectsAt, collect_iff}
use nodewatch_api.Crawl.Scores.{IsScored, run-IsScored}

sync_status_lem_example :
    let s = sync_status (pos 100000) (from_bits 50000) in
    (100000 ≤ 50000 + 8192 → (s.status ≡ true) × (s.distance ≡ pos 0))
    × (50000 + 8192 < 100000
        → (s.status ≡ false)
          × (s.distance ≡ pos ((100000 - 50000) * 100 / 100000))
          × ((100000 - 50000) * 100 / 100000 ≤ 100))
sync_status_lem_example = sync_status_lem 100000 50000 (omega arith) (omega arith) (omega arith)

sync_status_wraps_example : (sync_status (pos 100000) (from_bits (2 ^ 63 + 5))).status ≡ true
sync_status_wraps_example = sync_status_wraps 100000 5 (omega arith) (omega arith)

abbrev pub peer_of : ℕ → Peer
peer_of id = record {
  id = id;
  node_id = [];
  pubkey = [];
  enr = [];
  ip = [];
  tcp_port = 9000;
  udp_port = 9000;
  addrs = [];
  attnets = no_attnets;
  fork_digest = [];
  fork_digest_str = [];
  next_fork_epoch = 0;
  next_fork_version = [];
  protocol_version = [];
  user_agent_of = none;
  user_agent_raw = [];
  geo_location = none;
  sync = none;
  score = pos 1;
  is_connectable = false;
  last_connected = 0;
  last_updated = 7;
}

abbrev pub no_answer : ℕ → Attempt
no_answer i = record {
  done = false;
  connect = some other_error;
  status = none;
  agent = none;
  protocol = none;
  at = 0;
}

abbrev pub hex : Text → Text
hex t = t

collect_iff_example :
    ((collect_node_info hex clients 5 0 no_answer (peer_of 3)).0 ≡ true)
    ↔ ((i : ℕ) × (i < 5) × CollectsAt hex clients 0 no_answer i)
collect_iff_example = collect_iff hex clients 5 no_answer (peer_of 3)

abbrev pub uuid : ℕ → ℕ → Text
uuid id time = []

abbrev pub start : Crawler (List Peer)
start = record { db = peer_of 3 ∷ []; pending = []; jobs = peer_of 4 ∷ []; busy = []; written = [] }

abbrev events : List Event
events =
    taken
    ∷ listed 1 10 1000
    ∷ selected (record { turn_at = 1000; stopped = false })
    ∷ taken
    ∷ worked 1 2
        (record { attempts = no_answer; connected_at = 0; last_connected_at = 0; processed_at = 0 })
    ∷ []

start-IsScored : IsScored memory memory_laws start
unfolding lookup
start-IsScored = (λ k p e. ground arith, tt, ((omega arith, omega arith), tt), tt)

run-IsScored_example : IsScored memory memory_laws (run memory hex clients uuid start events)
run-IsScored_example = run-IsScored memory memory_laws hex clients uuid start events start-IsScored
