-- ===== src/Crawl/Attempts.antt =====
-- What the retryer does to a peer.
use nodewatch_api.Base.{
  ℕ, zero, suc, ◌+◌, ◌≤◌, ◌<◌, ◌≡◌, ◌⊎◌, ◌↔◌, refl, Bool, true, false, none, some, arith, inl, inr,
  Bool-cases,
}
use native.Mathlib.Decide.{dec_lt}
use nodewatch_api.Base.Int.{pos}
use nodewatch_api.Base.Text.{Text}
use nodewatch_api.Agent.{ClientTable}
use nodewatch_api.Peer.{
  Peer, set_fork_digest, set_protocol_version, set_user_agent, set_sync_status,
}
use nodewatch_api.Crawl.{Attempt, try_once, collect_node_info}

module _ (digest_text : Text → Text) (table : ClientTable) where
  -- What one round keeps of a peer: all that identifies it, and its score or a bad one instead.
  abbrev pub Keeps : Peer → Peer → Type 0
  Keeps p q =
      (q.id ≡ p.id)
      × (q.last_updated ≡ p.last_updated)
      × (q.is_connectable ≡ p.is_connectable)
      × ((q.score ≡ p.score) ⊎ (q.score ≡ pos 0))

  try_once-Keeps : (a : Attempt) (p : Peer) → Keeps p (try_once digest_text table a p).1
  unfolding try_once set_fork_digest set_protocol_version set_user_agent set_sync_status
  try_once-Keeps a p = ground arith

  pub collect-Keeps :
      (left count : ℕ) (env : ℕ → Attempt) (p : Peer)
      → Keeps p (collect_node_info digest_text table left count env p).1
  unfolding collect_node_info
  collect-Keeps zero count env p = (refl, refl, refl, inl refl)
  collect-Keeps (suc left) count env p =
      let p' = (try_once digest_text table (env count) p).1 in
      ground (arith, try_once-Keeps (env count) p, collect-Keeps left (suc count) env p')

  -- A round that collects everything: the peer is reached and answers all three questions.
  abbrev pub is_complete : Attempt → Bool
  is_complete a = elim a.connect [
    | some _ ↦ false
    | none ↦ elim a.status [
      | none ↦ false
      | some _ ↦ elim a.agent [
        | none ↦ false
        | some _ ↦ elim a.protocol [ none ↦ false | some _ ↦ true ]
      ]
    ]
  ]

  try_once-is_complete :
      (a : Attempt) (p : Peer) → (try_once digest_text table a p).0 ≡ is_complete a
  unfolding try_once
  try_once-is_complete a p = ground arith

  -- Round number `i` is the first to collect everything, and the context was not done until then.
  abbrev pub CollectsAt : ℕ → (ℕ → Attempt) → ℕ → Type 0
  CollectsAt count env i =
      (count ≤ i)
      × ((env i).done ≡ false)
      × (is_complete (env i) ≡ true)
      × ((j : ℕ) → count ≤ j → j < i → ((env j).done ≡ false) × (is_complete (env j) ≡ false))

  collected_at :
      (left count : ℕ) (env : ℕ → Attempt) (p : Peer)
      → (collect_node_info digest_text table left count env p).0 ≡ true
      → (i : ℕ) × (i < count + left) × CollectsAt count env i
  unfolding collect_node_info
  collected_at zero count env p e = cc
  collected_at (suc left) count env p e =
      let same = try_once-is_complete (env count) p in
      elim (Bool-cases (is_complete (env count))) [
        | inl full ↦
            (count, omega arith, (omega arith, ground arith, full, λ j lo hi. absurd (omega arith)))
        | inr part ↦
            let (i, hi, at) =
              collected_at left (suc count) env (try_once digest_text table (env count) p).1
                (ground arith) in
            (
              i,
              omega arith,
              (
                omega arith,
                at.1,
                at.2,
                λ j a b. elim (dec_lt count j) [
                  | yes later ↦ at.3 j later b
                  | no here ↦ let same_j : j ≡ count = omega arith in rw same_j (ground arith, part)
                ],
              ),
            )
      ]

  collects :
      (left count i : ℕ) (env : ℕ → Attempt) (p : Peer)
      → i < count + left
      → CollectsAt count env i
      → (collect_node_info digest_text table left count env p).0 ≡ true
  unfolding collect_node_info
  collects zero count i env p h (lo, d, f, before) = absurd (omega arith)
  collects (suc left) count i env p h (lo, d, f, before) =
      let same = try_once-is_complete (env count) p in
      elim (dec_lt count i) [
        | yes later ↦
            let now = before count (omega arith) later in
            let rest =
              collects left (suc count) i env (try_once digest_text table (env count) p).1
                (omega arith) (later, d, f, λ j a b. before j (omega arith) b) in
            ground arith
        | no here ↦
            let here' : i ≡ count = omega arith in
            let d' : (env count).done ≡ false = rw here' at d in
            let f' : is_complete (env count) ≡ true = rw here' at f in ground arith
      ]

  -- The retryer succeeds exactly if some round below the number of retries is the first in which the
  -- peer is reached and answers everything, and the context was not done until then.
  pub collect_iff :
      (retries : ℕ) (env : ℕ → Attempt) (p : Peer)
      → ((collect_node_info digest_text table retries 0 env p).0 ≡ true)
        ↔ ((i : ℕ) × (i < retries) × CollectsAt 0 env i)
  collect_iff retries env p = (
    λ e. let (i, h, k) = collected_at retries 0 env p e in (i, omega arith, k),
    λ k. collects retries 0 k.0 env p (omega arith) k.2,
  )
