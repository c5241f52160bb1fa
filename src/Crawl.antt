-- ===== src/Crawl.antt =====
-- crawler/crawl/crawl.go: discovered nodes are stored, due peers are selected, and each is asked for
-- its information. The database, the clock and the answers of peers are parameters.
pub mod Keeps
pub mod Walk
pub mod Pool
pub mod Identified
pub mod Origin
pub mod Unlocated
pub mod Scores
pub mod Attempts
pub mod Updates
use nodewatch_api.Base.{
  ℕ, zero, suc, ◌+◌, ◌-◌, ◌*◌, Bool, true, false, ◌&&◌, ◌||◌, Option, none, some, List, [], ◌∷◌,
  ◌++◌, ◌==◌, if◌then◌else◌, Result, ok, err,
}
use nodewatch_api.Base.Int.{ℤ, pos, ◌-ℤ◌, leb_ℤ, from_bits}
use nodewatch_api.Base.Text.{Text, codes, has_prefix, text_eq}
use nodewatch_api.Agent.{ClientTable}
use nodewatch_api.Peer.{
  Peer, Node, new_peer, set_fork_digest, set_protocol_version, set_user_agent,
  set_connection_status, set_sync_status, current_block, score_good, score_bad,
}
use nodewatch_api.Store.{Collection, StoreError, create, update, delete, list_for_job}

-- What Connect returns when it fails: a swarm.DialError with the texts of its causes, or another error.
pub data ConnectError : Type 0 where
  dial_error : List Text → ConnectError
  other_error : ConnectError

pub record Status : Type 0 where
  pub status_digest : Text
  pub head_slot : ℕ

-- What happens in one round of the retryer: whether the context is done, and else what the host
-- answers. `none` is an error, and for the status also a nil status.
pub record Attempt : Type 0 where
  pub done : Bool
  pub connect : Option ConnectError
  pub status : Option Status
  pub agent : Option Text
  pub protocol : Option Text
  pub at : ℕ

-- Whether some cause of a failed dial tells that the peer will never talk to us.
never_connects : List Text → Bool
never_connects [] = false
never_connects (t ∷ ts) =
    has_prefix (codes "failed to negotiate security protocol") t || never_connects ts

-- The peer after a failed Connect.
after_connect_error : ConnectError → Peer → Peer
unfolding never_connects
after_connect_error (dial_error causes) p =
    if never_connects causes then record p { score = score_bad } else p
after_connect_error other_error p = p

-- What is written for a peer: PeerOutput.
pub record PeerOutput : Type 0 where
  pub uuid : Text
  pub processed_timestamp : ℕ
  pub peer : Peer

module _ (digest_text : Text → Text) (table : ClientTable) where
  -- The body of the loop behind a Connect without an error. The answer is whether all was collected.
  collect : Attempt → Peer → Bool × Peer
  collect a p = elim a.status [
    | none ↦ (false, p)
    | some s ↦ elim a.agent [
      | none ↦ (false, p)
      | some ag ↦
          let p1 = set_user_agent table ag p in
          elim a.protocol [
            | none ↦ (false, p1)
            | some pv ↦
                let p2 = set_protocol_version pv p1 in
                let p3 = set_sync_status (current_block a.at) (from_bits s.head_slot) p2 in
                (true, set_fork_digest digest_text s.status_digest p3)
          ]
    ]
  ]

  try_once : Attempt → Peer → Bool × Peer
  unfolding after_connect_error collect
  try_once a p = elim a.connect [ some e ↦ (false, after_connect_error e p) | none ↦ collect a p ]

  -- collectNodeInfoRetryer: `left` rounds are left, and `count` is the number of this one.
  unfoldable pub collect_node_info : ℕ → ℕ → (ℕ → Attempt) → Peer → Bool × Peer
  unfolding try_once
  collect_node_info zero count env p = (false, p)
  collect_node_info (suc left) count env p =
      let a = env count in
      let (collected, p') = try_once a p in
      let more = collect_node_info left (suc count) env p' in
      if a.done then (false, p) else if collected then (true, p') else more

-- The crawler's shared state: the database, the peers that the selector has still to go through, the
-- jobs that wait for a worker, those that a worker is at, and what was written.
pub record Crawler (Db : Type 0) : Type 0 where
  pub db : Db
  pub pending : List Peer
  pub jobs : List Peer
  pub busy : List Peer
  pub written : List PeerOutput

-- What a worker meets while it updates a peer: the answers of the peer, and the times at which it
-- reads the clock.
pub record Work : Type 0 where
  pub attempts : ℕ → Attempt
  pub connected_at : ℕ
  pub last_connected_at : ℕ
  pub processed_at : ℕ

-- What the selector meets at each request: the time, and whether the context is done.
pub record Turn : Type 0 where
  pub turn_at : ℕ
  pub stopped : Bool

-- The peer after its information was collected.
unfoldable pub reached : Work → Peer → Peer
reached w p = record (set_connection_status true w.connected_at p) {
  score = score_good;
  last_connected = w.last_connected_at;
}

-- What the crawler's goroutines do to the shared state, one event at a time. Workers overlap with each
-- other and with the selector: a worker takes a job in one event and is done with it in a later one.
pub data Event : Type 0 where
  discovered : Text → Node → Event
  listed : ℕ → ℕ → ℕ → Event
  selected : Turn → Event
  taken : Event
  worked : ℕ → ℕ → Work → Event

-- One peer of a list, and the others.
pub pick : ℕ → List Peer → Option (Peer × List Peer)
pick n [] = none
pick zero (p ∷ ps) = some (p, ps)
pick (suc n) (p ∷ ps) = elim (pick n ps) [ none ↦ none | some (q, qs) ↦ some (q, p ∷ qs) ]

module _ (c : Collection) where
  open c use {Db}

  -- storePeer, while the fork choice holds the digest `fork`. Errors of the store are only logged.
  pub store_peer : (Text → Text) → Text → Node → Crawler Db → Crawler Db
  store_peer digest_text fork node s = if node.tcp == 0 then s else elim node.eth2 [
    | none ↦ s
    | some eth2 ↦
        if text_eq eth2.digest fork
        then elim (new_peer digest_text node eth2) [
          | none ↦ s
          | some p ↦ record s { db = (create c s.db p).1 }
        ]
        else s
  ]

  -- selectPendingAndExecute at time `now` gets the list that its loop goes through.
  pub list_pending : ℕ → ℕ → ℕ → Crawler Db → Crawler Db
  list_pending update_freq_min concurrency now s = elim s.pending [
    | [] ↦ elim (list_for_job c s.db now (60 * update_freq_min) concurrency) [
      | err e ↦ s
      | ok reqs ↦ record s { pending = reqs }
    ]
    | _ ∷ _ ↦ s
  ]

  -- One round of the loop. When the context is done, the loop ends without the rest.
  pub select_one : Turn → Crawler Db → Crawler Db
  select_one t s = elim s.pending [
    | [] ↦ s
    | req ∷ reqs ↦
        let req' : Peer = record req { last_updated = t.turn_at } in
        let (failed, db') = update c s.db req' in
        elim failed [
          | some e ↦ record s { db = db'; pending = reqs }
          | none ↦
              if t.stopped
              then record s { db = db'; pending = [] }
              else record s { db = db'; pending = reqs; jobs = s.jobs ++ req' ∷ [] }
        ]
  ]

  -- A worker of bgWorker takes the next job.
  unfoldable pub take_job : Crawler Db → Crawler Db
  take_job s = elim s.jobs [ [] ↦ s | p ∷ ps ↦ record s { jobs = ps; busy = s.busy ++ p ∷ [] } ]

  -- The second half of updatePeerInfo: a peer with a bad score is removed, any other is written back.
  finish : Peer → Crawler Db → Crawler Db
  finish p s =
      if leb_ℤ p.score score_bad
      then record s { db = (delete c s.db p).1 }
      else record s { db = (update c s.db p).1 }

  -- `uuid_of` is the hash of a peer's ID and of the time of its last update, in hex.
  module _ (digest_text : Text → Text) (table : ClientTable) (uuid_of : ℕ → ℕ → Text) where
    pub peer_output : Work → Peer → PeerOutput
    peer_output w q = record {
      uuid = uuid_of q.id q.last_updated;
      processed_timestamp = w.processed_at;
      peer = q;
    }

    -- updatePeerInfo
    pub update_peer_info : ℕ → Work → Peer → Crawler Db → Crawler Db
    unfolding peer_output reached finish
    update_peer_info connection_retries w p s =
        let (connectable, p') =
          collect_node_info digest_text table connection_retries 0 w.attempts p in
        if connectable
        then (let q = reached w p' in
            finish q (record s { written = s.written ++ peer_output w q ∷ [] }))
        else finish (record p' { score = p'.score -ℤ pos 1 }) s

    -- The worker that took job number `n` of those at work updates its peer.
    pub work : ℕ → ℕ → Work → Crawler Db → Crawler Db
    unfolding pick
    work n connection_retries w s = elim (pick n s.busy) [
      | none ↦ s
      | some (p, rest) ↦ update_peer_info connection_retries w p (record s { busy = rest })
    ]

    unfoldable pub step : Crawler Db → Event → Crawler Db
    unfolding list_pending select_one take_job work
    step s (discovered fork node) = store_peer digest_text fork node s
    step s (listed freq concurrency now) = list_pending freq concurrency now s
    step s (selected turn) = select_one turn s
    step s taken = take_job s
    step s (worked n retries w) = work n retries w s

    unfoldable pub run : Crawler Db → List Event → Crawler Db
    unfolding step
    run s [] = s
    run s (e ∷ es) = run (step s e) es
