-- ===== src/Crawl/Keeps.antt =====
-- Predicates on peers that all the crawler's events keep, for what the crawler holds.
use nodewatch_api.Base.{
  zero, suc, ℕ, Bool, true, false, ◌-◌, ◌*◌, ◌<◌, ◌≡◌, ◌⊎◌, refl, subst, some, List, [], ◌∷◌, ◌++◌,
  All, All-append, All-weaken, arith, inl, inr, ◌==◌, Bool-cases, Option-cases, Result-cases,
}
use nodewatch_api.Base.Int.{pos, ◌-ℤ◌, leb_ℤ}
use nodewatch_api.Base.Text.{Text, text_eq}
use nodewatch_api.Agent.{ClientTable}
use nodewatch_api.Peer.{Peer, Node, Eth2Data, new_peer, score_bad}
use nodewatch_api.Store.{Collection, CollectionLaws, update, list_for_job}
use nodewatch_api.Store.Contract.{Stored, create-Stored, update-Stored, delete-Stored}
use nodewatch_api.Crawl.{
  Crawler, Work, Turn, Event, collect_node_info, store_peer, list_pending, select_one, take_job,
  pick, finish, listed, taken, reached, peer_output, update_peer_info, work, step, run, discovered,
  selected, worked,
}

list_cases : (ps : List Peer) → (ps ≡ []) ⊎ ((p : Peer) × (qs : List Peer) × (ps ≡ p ∷ qs))
list_cases [] = inl refl
list_cases (p ∷ ps) = inr (p, ps, refl)

pick_keeps :
    (P : Peer → Type 0) (n : ℕ) (ps : List Peer) (r : Peer × List Peer)
    → pick n ps ≡ some r
    → All P ps
    → P r.0 × All P r.1
unfolding pick
pick_keeps P n [] r e h = cc
pick_keeps P zero (p ∷ ps) r e h =
    let same : (p, ps) ≡ r = ground arith in subst (λ t. P t.0 × All P t.1) same h
pick_keeps P (suc n) (p ∷ ps) r e h = elim (Option-cases (pick n ps)) [
  | inl gone ↦ absurd (ground arith)
  | inr (q, found) ↦
      let kept = pick_keeps P n ps q found h.1 in
      let same : (q.0, p ∷ q.1) ≡ r = ground arith in
      subst (λ t. P t.0 × All P t.1) same (kept.0, (h.0, kept.1))
]

abbrev pub is_discovery : Event → Bool
is_discovery (discovered fork node) = true
is_discovery (listed freq concurrency now) = false
is_discovery (selected turn) = false
is_discovery taken = false
is_discovery (worked n retries w) = false

module _ (P : Peer → Type 0) (c : Collection) (laws : CollectionLaws c) where
  open c use {Db}
  open laws use {view, find_due_ok}

  -- All that the crawler keeps, in the database and in the queue of jobs, meets `P`.
  abbrev pub Holds : Crawler Db → Type 0
  Holds s = Stored c laws P s.db × All P s.pending × All P s.jobs × All P s.busy

  pub store_peer-Holds :
      (digest_text : Text → Text) (fork : Text) (node : Node) (s : Crawler Db)
      → ((eth2 : Eth2Data) (p : Peer)
          → (node.tcp == 0) ≡ false
          → node.eth2 ≡ some eth2
          → text_eq eth2.digest fork ≡ true
          → new_peer digest_text node eth2 ≡ some p
          → P p)
      → Holds s
      → Holds (store_peer c digest_text fork node s)
  unfolding store_peer
  store_peer-Holds digest_text fork node s fresh h = elim (Bool-cases (node.tcp == 0)) [
    | inl closed ↦ rw closed h
    | inr open_ ↦ rw open_ (elim (Option-cases node.eth2) [
      | inl other ↦ rw other h
      | inr (eth2, e) ↦ rw e (elim (Bool-cases (text_eq eth2.digest fork)) [
        | inr differs ↦ rw differs h
        | inl same ↦ rw same (elim (Option-cases (new_peer digest_text node eth2)) [
          | inl bad ↦ rw bad h
          | inr (p, good) ↦
              let new = fresh eth2 p open_ e same good in
              rw good (create-Stored c laws P s.db p new h.0, h.1, h.2, h.3)
        ])
      ])
    ])
  ]

  listed_keep :
      (db : Db) (before : ℕ) (ps : List Peer)
      → Stored c laws P db
      → All (λ p. (view db p.id ≡ some p) × (p.last_updated < before)) ps
      → All P ps
  listed_keep db before ps h = All-weaken _ P (λ p k. h p.id p k.0) ps

  list_pending-Holds :
      (freq concurrency now : ℕ) (s : Crawler Db)
      → Holds s
      → Holds (list_pending c freq concurrency now s)
  unfolding list_pending
  list_pending-Holds freq concurrency now s h = elim (list_cases s.pending) [
    | inr (p, ps, going) ↦ rw (going, list_pending) h
    | inl ready ↦ elim (Result-cases (list_for_job c s.db now (60 * freq) concurrency)) [
      | inr (x, fault) ↦ rw (ready, fault, list_pending) h
      | inl (reqs, e) ↦
          let found =
            find_due_ok s.db (now - 60 * freq) concurrency reqs (unfold list_for_job in e) in
          rw (ready, e, list_pending) (h.0, listed_keep s.db _ reqs h.0 found.0, h.2, h.3)
    ]
  ]

  select_one-Holds :
      ((p : Peer) (t : ℕ) → P p → P (record p { last_updated = t }))
      → (t : Turn) (s : Crawler Db) → Holds s
      → Holds (select_one c t s)
  unfolding select_one
  select_one-Holds touched t s h = elim (list_cases s.pending) [
    | inl empty ↦ rw (empty, select_one) h
    | inr (req, reqs, e) ↦
        let req' : Peer = record req { last_updated = t.turn_at } in
        let kept : All P (req ∷ reqs) = subst (All P) e h.1 in
        let kept' = touched req t.turn_at kept.0 in
        let stored = update-Stored c laws P s.db req' kept' h.0 in
        rw (e, select_one)
          (elim (Option-cases (update c s.db req').0) [
            | inr (x, fault) ↦ rw fault (stored, kept.1, h.2, h.3)
            | inl done ↦ rw done (elim (Bool-cases t.stopped) [
              | inl stop ↦ rw stop (stored, tt, h.2, h.3)
              | inr go ↦
                  rw go (stored, kept.1, All-append P s.jobs (req' ∷ []) h.2 (kept', tt), h.3)
            ])
          ])
  ]

  take_job-Holds : (s : Crawler Db) → Holds s → Holds (take_job c s)
  unfolding take_job
  take_job-Holds s h = elim (list_cases s.jobs) [
    | inl empty ↦ rw (empty, take_job) h
    | inr (p, ps, e) ↦
        let kept : All P (p ∷ ps) = subst (All P) e h.2 in
        rw (e, take_job) (h.0, h.1, kept.1, All-append P s.busy (p ∷ []) h.3 (kept.0, tt))
  ]

  finish-Holds :
      (p : Peer) (s : Crawler Db)
      → (leb_ℤ p.score score_bad ≡ false → P p)
      → Holds s
      → Holds (finish c p s)
  unfolding finish
  finish-Holds p s hp h = elim (Bool-cases (leb_ℤ p.score score_bad)) [
    | inl bad ↦ rw bad (delete-Stored c laws P s.db p h.0, h.1, h.2, h.3)
    | inr good ↦ rw good (update-Stored c laws P s.db p (hp good) h.0, h.1, h.2, h.3)
  ]

  -- What a predicate on peers needs to be kept by updates: no time of an update matters, and a peer that
  -- meets it still does once it was reached, or failed and is not removed.
  pub record IsSteady (digest_text : Text → Text) (table : ClientTable) : Type 0 where
    pub touched : (p : Peer) (t : ℕ) → P p → P (record p { last_updated = t })
    pub kept_reached :
        (retries : ℕ) (w : Work) (p : Peer)
        → P p
        → (collect_node_info digest_text table retries 0 w.attempts p).0 ≡ true
        → P (reached w (collect_node_info digest_text table retries 0 w.attempts p).1)
    pub kept_failed :
        (retries : ℕ) (w : Work) (p : Peer)
        → P p
        → let (connectable, p') = collect_node_info digest_text table retries 0 w.attempts p in
          connectable ≡ false
          → leb_ℤ (p'.score -ℤ pos 1) score_bad ≡ false
          → P (record p' { score = p'.score -ℤ pos 1 })

  -- And to be kept by all events: new peers meet it.
  pub record IsStable (digest_text : Text → Text) (table : ClientTable) : Type 0 where
    pub fresh :
        (node : Node) (eth2 : Eth2Data) (p : Peer) → new_peer digest_text node eth2 ≡ some p → P p
    pub steady : IsSteady digest_text table

  module _ (digest_text : Text → Text) (table : ClientTable) (uuid_of : ℕ → ℕ → Text)
      (stable : IsSteady digest_text table) where
    update_peer_info-Holds :
        (retries : ℕ) (w : Work) (p : Peer) (s : Crawler Db)
        → P p
        → Holds s
        → Holds (update_peer_info c digest_text table uuid_of retries w p s)
    unfolding update_peer_info
    update_peer_info-Holds retries w p s hp h =
        let p' = (collect_node_info digest_text table retries 0 w.attempts p).1 in
        elim (Bool-cases (collect_node_info digest_text table retries 0 w.attempts p).0) [
          | inl done ↦
              rw (done, update_peer_info)
                (finish-Holds (reached w p')
                  (record s {
                    written =
                        s.written ++ peer_output c digest_text table uuid_of w (reached w p') ∷ [];
                  })
                  (λ _. stable.kept_reached retries w p hp done) h)
          | inr fault ↦
              rw (fault, update_peer_info)
                (finish-Holds (record p' { score = p'.score -ℤ pos 1 }) s
                  (stable.kept_failed retries w p hp fault) h)
        ]

    work-Holds :
        (n retries : ℕ) (w : Work) (s : Crawler Db)
        → Holds s
        → Holds (work c digest_text table uuid_of n retries w s)
    unfolding work
    work-Holds n retries w s h = elim (Option-cases (pick n s.busy)) [
      | inl idle ↦ rw (idle, work) h
      | inr (found, e) ↦
          let kept = pick_keeps P n s.busy found e h.3 in
          rw (e, work)
            (update_peer_info-Holds retries w found.0 (record s { busy = found.1 }) kept.0
              (h.0, h.1, h.2, kept.1))
    ]

    -- All events but discoveries keep it.
    pub step-Holds_steady :
        (s : Crawler Db) (e : Event)
        → is_discovery e ≡ false
        → Holds s
        → Holds (step c digest_text table uuid_of s e)
    unfolding step
    step-Holds_steady s (discovered fork node) n h = cc
    step-Holds_steady s (listed freq concurrency now) n h =
        list_pending-Holds freq concurrency now s h
    step-Holds_steady s (selected turn) n h = select_one-Holds stable.touched turn s h
    step-Holds_steady s taken n h = take_job-Holds s h
    step-Holds_steady s (worked n retries w) m h = work-Holds n retries w s h

  module _ (digest_text : Text → Text) (table : ClientTable) (uuid_of : ℕ → ℕ → Text)
      (stable : IsStable digest_text table) where
    step-Holds :
        (s : Crawler Db) (e : Event) → Holds s → Holds (step c digest_text table uuid_of s e)
    unfolding step
    step-Holds s (discovered fork node) h =
        store_peer-Holds digest_text fork node s (λ eth2 p t e d n. stable.fresh node eth2 p n) h
    step-Holds s (listed freq concurrency now) h =
        step-Holds_steady digest_text table uuid_of stable.steady s (listed freq concurrency now)
          refl h
    step-Holds s (selected turn) h =
        step-Holds_steady digest_text table uuid_of stable.steady s (selected turn) refl h
    step-Holds s taken h = step-Holds_steady digest_text table uuid_of stable.steady s taken refl h
    step-Holds s (worked n retries w) h =
        step-Holds_steady digest_text table uuid_of stable.steady s (worked n retries w) refl h

    -- Such a predicate is kept by any sequence of events.
    pub run-Holds :
        (s : Crawler Db) (es : List Event) → Holds s → Holds (run c digest_text table uuid_of s es)
    unfolding run
    run-Holds s [] h = h
    run-Holds s (e ∷ es) h = run-Holds (step c digest_text table uuid_of s e) es (step-Holds s e h)
