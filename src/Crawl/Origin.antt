-- ===== src/Crawl/Origin.antt =====
-- Where the peers of the database come from.
use nodewatch_api.Base.{
  ℕ, ◌≡◌, ◌≢◌, ◌⊎◌, inl, inr, refl, sym, false, some, List, [], ◌∷◌, All-weaken, ◌==◌, arith, subst,
}
use nodewatch_api.Base.Text.{Text, text_eq_sound}
use nodewatch_api.Agent.{ClientTable}
use nodewatch_api.Peer.{Peer, Node, Eth2Data, new_peer, set_connection_status}
use nodewatch_api.Store.{Collection, CollectionLaws}
use nodewatch_api.Crawl.{
  Crawler, Event, discovered, listed, selected, taken, worked, step, run, reached,
}
use nodewatch_api.Crawl.Attempts.{collect-Keeps}
use nodewatch_api.Crawl.Keeps.{Holds, IsSteady, store_peer-Holds, step-Holds_steady, is_discovery}

-- An event that discovers the peer with an ID: a node that exports a TCP port, with the fork digest that
-- the crawler follows at that time.
abbrev pub Discovers : Event → ℕ → Type 0
Discovers (discovered fork node) id =
    (node.tcp ≢ 0)
    × ((eth2 : Eth2Data) × (node.eth2 ≡ some eth2) × (eth2.digest ≡ fork))
    × (node.identity ≡ id)
Discovers (listed freq concurrency now) id = ⊥
Discovers (selected turn) id = ⊥
Discovers taken id = ⊥
Discovers (worked n retries w) id = ⊥

abbrev pub WasDiscovered : List Event → ℕ → Type 0
WasDiscovered [] id = ⊥
WasDiscovered (e ∷ es) id = Discovers e id ⊎ WasDiscovered es id

-- A predicate on IDs, of peers.
abbrev pub OfId : (ℕ → Type 0) → Peer → Type 0
OfId K p = K p.id

new_peer-id :
    (digest_text : Text → Text) (node : Node) (eth2 : Eth2Data) (p : Peer)
    → new_peer digest_text node eth2 ≡ some p
    → node.identity ≡ p.id
unfolding new_peer
new_peer-id digest_text node eth2 p h = ground arith

not_closed : (n : ℕ) → (n == 0) ≡ false → n ≢ 0
not_closed n h e = grind arith

module _ (digest_text : Text → Text) (table : ClientTable) (uuid_of : ℕ → ℕ → Text) (c : Collection)
    (laws : CollectionLaws c) where
  open c use {Db}

  OfId-IsSteady : (K : ℕ → Type 0) → IsSteady (OfId K) c laws digest_text table
  unfolding reached set_connection_status
  OfId-IsSteady K = record {
    touched = λ p t h. h;
    kept_reached = λ retries w p h e.
        let kept = collect-Keeps digest_text table retries 0 w.attempts p in subst K (sym kept.0) h;
    kept_failed = λ retries w p h e good.
        let kept = collect-Keeps digest_text table retries 0 w.attempts p in subst K (sym kept.0) h;
  }

  Holds-weaken :
      (K L : ℕ → Type 0)
      → ((id : ℕ) → K id → L id)
      → (s : Crawler Db) → Holds (OfId K) c laws s
      → Holds (OfId L) c laws s
  Holds-weaken K L f s (stored, pending, jobs, busy) = (
    λ k p e. f p.id (stored k p e),
    All-weaken (OfId K) (OfId L) (λ p. f p.id) s.pending pending,
    All-weaken (OfId K) (OfId L) (λ p. f p.id) s.jobs jobs,
    All-weaken (OfId K) (OfId L) (λ p. f p.id) s.busy busy,
  )

  step-Holds_other :
      (K : ℕ → Type 0) (e : Event) (s : Crawler Db)
      → is_discovery e ≡ false
      → Holds (OfId K) c laws s
      → Holds (OfId (λ id. K id ⊎ Discovers e id)) c laws (step c digest_text table uuid_of s e)
  step-Holds_other K e s other h =
      Holds-weaken K _ (λ id k. inl k) (step c digest_text table uuid_of s e)
        (step-Holds_steady (OfId K) c laws digest_text table uuid_of (OfId-IsSteady K) s e other h)

  -- After one event, the IDs are the old ones or that of a node that it discovers.
  step-Holds_discovered :
      (K : ℕ → Type 0) (e : Event) (s : Crawler Db)
      → Holds (OfId K) c laws s
      → Holds (OfId (λ id. K id ⊎ Discovers e id)) c laws (step c digest_text table uuid_of s e)
  unfolding step
  step-Holds_discovered K (discovered fork node) s h =
      let L : ℕ → Type 0 = λ id. K id ⊎ Discovers (discovered fork node) id in
      store_peer-Holds (OfId L) c laws digest_text fork node s
        (λ eth2 p t e d n. inr (
          not_closed node.tcp t,
          (eth2, e, text_eq_sound eth2.digest fork d),
          new_peer-id digest_text node eth2 p n,
        ))
        (Holds-weaken K L (λ id k. inl k) s h)
  step-Holds_discovered K (listed freq concurrency now) s h =
      step-Holds_other K (listed freq concurrency now) s refl h
  step-Holds_discovered K (selected turn) s h = step-Holds_other K (selected turn) s refl h
  step-Holds_discovered K taken s h = step-Holds_other K taken s refl h
  step-Holds_discovered K (worked n retries w) s h =
      step-Holds_other K (worked n retries w) s refl h

  -- Only discovery adds peers: after any events, every peer that the crawler holds, in the database or
  -- in a queue, has an ID that a peer could have before, or that of a node that one of the events
  -- discovered, with a TCP port and with the fork digest that the crawler followed at that time.
  pub run_discovered :
      (es : List Event) (old : ℕ → Type 0) (s : Crawler Db)
      → Holds (OfId old) c laws s
      → Holds
          (OfId (λ id. old id ⊎ WasDiscovered es id))
          c
          laws
          (run c digest_text table uuid_of s es)
  unfolding run
  run_discovered [] old s h = Holds-weaken old _ (λ id k. inl k) s h
  run_discovered (e ∷ es) old s h =
      let now = step-Holds_discovered old e s h in
      let later =
        run_discovered es (λ id. old id ⊎ Discovers e id) (step c digest_text table uuid_of s e)
          now in
      Holds-weaken _ _
        (λ id k. elim k [ inl (inl o) ↦ inl o | inl (inr d) ↦ inr (inl d) | inr d ↦ inr (inr d) ])
        (run c digest_text table uuid_of (step c digest_text table uuid_of s e) es) later
