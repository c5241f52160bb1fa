-- ===== src/Startup/Launches.antt =====
-- What is started, and what must have worked before.
use nodewatch_api.Base.{
  ℕ, ◌≡◌, ◌≢◌, ◌⊎◌, inl, inr, refl, ap, ◌∙◌, none, some, List, [], ◌∷◌, ok, err, arith,
  Result-cases, Option-cases, Bool-cases, Option, false,
}
use nodewatch_api.Base.Text.{Text}
use nodewatch_api.Clock.{
  Clock, ForkSchedule, ForkChoice, new_fork_choice, current_slot, epoch_for_slot, divides_by_zero,
}
use nodewatch_api.Clock.Fork.{scheduled, new_fork_choice-scheduled}
use nodewatch_api.Keys.{PrivateKey}
use nodewatch_api.Discovery.{parse_boot_nodes}
use nodewatch_api.Host.{Client, new_client}
use nodewatch_api.Config.Load.{boot_nodes}
use nodewatch_api.Startup.{
  Library, StartError, schedule_failed, start_monitor, start_listeners, start_gossip_sub,
  start_walk, start_update, start_output, schedule_history, Outcome, get_discovery_config, start_v5,
  new_p2p_host, new_host, new_crawler, node_key, launch, initialize, start_crawler,
}

module _ {E Point Key Multiaddr LibHost Ids Db Socket Disc Record Node : Type 0}
    (lib : Library E Point Key Multiaddr LibHost Ids Db Socket Disc Record Node) where
  -- Discovery is started with the nodes of all addresses.
  start_v5-parses :
      (key : Option (PrivateKey Point)) (addrs : List Text) (disc : Disc)
      → start_v5 lib key addrs ≡ ok disc
      → (nodes : List Node) × (parse_boot_nodes lib.rlp_decode lib.parse_v4 lib.enode_new addrs
          ≡ ok nodes)
        × (key ≢ none)
  unfolding start_v5 get_discovery_config
  start_v5-parses key addrs disc h =
      elim (Result-cases (parse_boot_nodes lib.rlp_decode lib.parse_v4 lib.enode_new addrs)) [
        | inl (nodes, e) ↦ (nodes, e, λ nil. keyless nodes e nil)
        | inr (x, e) ↦ absurd (ground arith)
      ]
    where
      keyless :
          (nodes : List Node)
          → parse_boot_nodes lib.rlp_decode lib.parse_v4 lib.enode_new addrs ≡ ok nodes
          → key ≡ none
          → ⊥
      keyless nodes e nil = elim (Result-cases (lib.open_db [])) [
        | inl (db, opened) ↦ ground arith
        | inr (x, fault) ↦ ground arith
      ]

  new_crawler-client :
      (f : ForkChoice) (client : Client)
      → (new_crawler lib f).0 ≡ some client
      → client ≡ new_client lib.unmarshal_text f
  unfolding new_crawler new_host new_p2p_host
  new_crawler-client f client h = ground arith

  -- The client's status has the digest of the fork that the schedule gives for the epoch of `now`.
  new_client-scheduled :
      (clock : Clock) (forks : ForkSchedule) (now : ℕ)
      → (new_client lib.unmarshal_text (
          new_fork_choice lib.parse_digest lib.zero_digest clock forks
            now)).local_status.fork_digest
        ≡ scheduled lib.parse_digest lib.zero_digest forks
            (epoch_for_slot clock (current_slot clock now))
  unfolding new_client
  new_client-scheduled clock forks now =
      new_fork_choice-scheduled lib.parse_digest lib.zero_digest clock forks now

  -- How Initialize ends once the crawler is made: all is started, or all but the daily job.
  abbrev pub EndsWell : Outcome E → Type 0
  EndsWell r =
      ((r.failure ≡ none)
        × (r.launches
            ≡ start_monitor ∷ start_listeners ∷ start_walk ∷ start_update ∷ start_output
              ∷ schedule_history ∷ []))
      ⊎ ((e : E) × (lib.add_func ≡ err e)
          × (r.failure ≡ some (schedule_failed e))
          × (r.launches
              ≡ start_monitor ∷ start_listeners ∷ start_walk ∷ start_update ∷ start_output ∷ []))

  launch-EndsWell :
      (client : Client)
      → EndsWell (launch lib (some client, ok tt))
        × ((launch lib (some client, ok tt)).client ≡ some client)
  unfolding launch
  launch-EndsWell client = elim (Result-cases lib.add_func) [
    | inl (done, e) ↦ (inl (ground arith, ground arith), ground arith)
    | inr (x, e) ↦ (inr (x, e, ground arith, ground arith), ground arith)
  ]

  -- The start fails, and nothing of the crawl is started. What may run are the monitor of forks and, where
  -- the client is made, its listeners.
  abbrev pub EndsEarly : Outcome E → Type 0
  EndsEarly r =
      (r.failure ≢ none)
      × (((r.launches ≡ []) × (r.client ≡ none))
          ⊎ ((r.launches ≡ start_monitor ∷ []) × (r.client ≡ none))
          ⊎ ((client : Client) × (r.launches ≡ start_monitor ∷ start_listeners ∷ [])
              × (r.client ≡ some client)))

  launch-EndsEarly :
      (client : Option Client) (x : StartError E) → EndsEarly (launch lib (client, err x))
  unfolding launch
  launch-EndsEarly none x = ((λ e. cc), inr (inl (refl, refl)))
  launch-EndsEarly (some client) x = ((λ e. cc), inr (inr (client, refl, refl)))

  -- newCrawler makes a client and succeeds, or it fails.
  new_crawler-cases :
      (f : ForkChoice)
      → ((client : Client) × (new_crawler lib f ≡ (some client, ok tt)))
        ⊎ ((client : Option Client) × (x : StartError E) × (new_crawler lib f ≡ (client, err x)))
  unfolding new_crawler
  new_crawler-cases f = elim (Result-cases (new_host lib f)) [
    | inr (x, e) ↦ inr (none, x, ground arith)
    | inl ((client, h), e) ↦ elim (Result-cases (start_gossip_sub lib h)) [
      | inl (tt, done) ↦ inl (client, ground arith)
      | inr (x, fault) ↦ inr (some client, x, ground arith)
    ]
  ]

  -- What has worked where the crawl is started.
  abbrev pub IsReady : List Text → Clock → ForkSchedule → ℕ → Outcome E → Type 0
  IsReady addrs clock forks now r =
      (nodes : List Node) × (client : Client) × (parse_boot_nodes lib.rlp_decode lib.parse_v4
          lib.enode_new addrs
        ≡ ok nodes)
      × (node_key lib ≢ none)
      × (divides_by_zero clock now ≡ false)
      × (r.client ≡ some client)
      × (client.local_status.fork_digest
          ≡ scheduled lib.parse_digest lib.zero_digest forks
              (epoch_for_slot clock (current_slot clock now)))
      × EndsWell r

  initialize-ends :
      (clock : Clock) (forks : ForkSchedule) (now : ℕ) (addrs : List Text)
      → let r = initialize lib clock forks now addrs in
        EndsEarly r ⊎ IsReady addrs clock forks now r
  unfolding initialize
  initialize-ends clock forks now addrs =
      let f = new_fork_choice lib.parse_digest lib.zero_digest clock forks now in
      elim (Result-cases (start_v5 lib (node_key lib) addrs)) [
        | inr (x, e) ↦ rw (e, initialize) (inl ((λ n. cc), inl (refl, refl)))
        | inl (disc, e) ↦ elim (Bool-cases (divides_by_zero clock now)) [
          | inl zero_ ↦ rw (e, zero_, initialize) (inl ((λ n. cc), inl (refl, refl)))
          | inr fine ↦ elim (new_crawler-cases f) [
            | inr (client, x, bad) ↦ rw (e, fine, bad, initialize) (inl (launch-EndsEarly client x))
            | inl (client, good) ↦
                let (nodes, parsed, key) = start_v5-parses (node_key lib) addrs disc e in
                let (well, kept) = launch-EndsWell client in
                let digest =
                  ap (λ (c : Client). c.local_status.fork_digest)
                    (new_crawler-client f client (ap (λ t. t.0) good))
                  ∙ new_client-scheduled clock forks now in
                rw (e, fine, good, initialize)
                  (inr (nodes, client, parsed, key, refl, kept, digest, well))
          ]
        ]
      ]

  -- Start of the crawler starts all of the crawl or nothing of it: either the start fails, and neither the
  -- walk over the nodes, updatePeer, the file output nor the daily job is started, though the monitor of
  -- forks may run, and the client's listeners where it was made; or the network has boot nodes that are all
  -- parsed, there is a key for discovery, the clock does not divide by zero, the client's status has the
  -- digest of the fork that the schedule gives for the current epoch, and all of them are started, but the
  -- daily job where it is refused, which is the failure.
  pub start_crawler_all_or_nothing :
      (name : Text) (configured : List Text) (clock : Clock) (forks : ForkSchedule) (now : ℕ)
      → let r = start_crawler lib name configured clock forks now in
        EndsEarly r
        ⊎ ((addrs : List Text) × (boot_nodes lib.v5_bootnodes name configured ≡ some addrs)
            × IsReady addrs clock forks now r)
  unfolding start_crawler
  start_crawler_all_or_nothing name configured clock forks now =
      elim (Option-cases (boot_nodes lib.v5_bootnodes name configured)) [
        | inl unknown ↦ rw (unknown, start_crawler) (inl ((λ n. cc), inl (refl, refl)))
        | inr (addrs, known) ↦ elim (initialize-ends clock forks now addrs) [
          | inl early ↦ rw (known, start_crawler) (inl early)
          | inr ready ↦ rw (known, start_crawler) (inr (addrs, refl, ready))
        ]
      ]
