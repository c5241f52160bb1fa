-- ===== src/Graph/Groups.antt =====
-- GroupByHardforkSchedule counts each peer once, in the group of its key.
pub mod Bags
pub mod Answer
use nodewatch_api.Base.{
  ℕ, ◌+◌, ◌≡◌, refl, true, false, List, [], ◌∷◌, length, tally, arith, Bool-cases, inl, inr,
  if◌then◌else◌,
}
use nodewatch_api.Base.Text.{Text, text_eq, text_eq_sound, text_eq_refl}
use nodewatch_api.Peer.{Peer}
use nodewatch_api.Graph.{Aggregation, key_of, add_peer, groups_from, group_by_hardfork_schedule}

-- The count of the group with a key, and 0 where there is none.
pub count_of : Text → List (Text × Aggregation) → ℕ
count_of key [] = 0
count_of key ((k, a) ∷ groups) =
    let rest = count_of key groups in if text_eq k key then a.count else rest

-- The counts of all groups.
pub sum_of : List (Text × Aggregation) → ℕ
sum_of [] = 0
sum_of ((k, a) ∷ groups) = a.count + sum_of groups

elsewhere :
    (k key other : Text)
    → text_eq k key ≡ true
    → text_eq k other ≡ false
    → text_eq other key ≡ false
elsewhere k key other h n = elim (Bool-cases (text_eq other key)) [
  | inr e ↦ e
  | inl e ↦
      let one = text_eq_sound k key h in
      let two = text_eq_sound other key e in let refl_ = text_eq_refl k in cc
]

module _ (version_text : Text → Text) (epoch_text : ℕ → Text) where
  add_peer-count_of :
      (key : Text) (p : Peer) (groups : List (Text × Aggregation))
      → count_of key (add_peer version_text epoch_text p groups)
        ≡ count_of key groups + (if text_eq (key_of version_text epoch_text p) key then 1 else 0)
  unfolding count_of add_peer
  add_peer-count_of key p [] = ground arith
  add_peer-count_of key p ((k, a) ∷ groups) =
      let later = add_peer-count_of key p groups in
      elim (Bool-cases (text_eq k (key_of version_text epoch_text p))) [
        | inl same ↦
            let e = text_eq_sound k (key_of version_text epoch_text p) same in
            let e' : text_eq (key_of version_text epoch_text p) key ≡ text_eq k key = cc in
            rw (same, add_peer, e') (ground arith)
        | inr other ↦
            rw (other, add_peer)
              (elim (Bool-cases (text_eq k key)) [
                | inl here ↦
                    let apart : text_eq (key_of version_text epoch_text p) key ≡ false =
                      elsewhere k key _ here other in
                    rw (here, apart) (omega arith)
                | inr there ↦ rw there later
              ])
      ]

  add_peer-sum_of :
      (p : Peer) (groups : List (Text × Aggregation))
      → sum_of (add_peer version_text epoch_text p groups) ≡ sum_of groups + 1
  unfolding sum_of add_peer
  add_peer-sum_of p [] = refl
  add_peer-sum_of p ((k, a) ∷ groups) = ground (arith, add_peer-sum_of p groups)

  groups_from-count_of :
      (key : Text) (groups : List (Text × Aggregation)) (ps : List Peer)
      → count_of key (groups_from version_text epoch_text groups ps)
        ≡ count_of key groups + tally (λ p. text_eq (key_of version_text epoch_text p) key) ps
  unfolding groups_from
  groups_from-count_of key groups [] = omega arith
  groups_from-count_of key groups (p ∷ ps) = ground (
    arith,
    groups_from-count_of key (add_peer version_text epoch_text p groups) ps,
    add_peer-count_of key p groups,
  )

  groups_from-sum_of :
      (groups : List (Text × Aggregation)) (ps : List Peer)
      → sum_of (groups_from version_text epoch_text groups ps) ≡ sum_of groups + length ps
  unfolding groups_from
  groups_from-sum_of groups [] = omega arith
  groups_from-sum_of groups (p ∷ ps) = omega (
    arith,
    groups_from-sum_of (add_peer version_text epoch_text p groups) ps,
    add_peer-sum_of p groups,
  )

  -- The group of a key counts the peers whose version and epoch give that key, there is none where no
  -- peer does, and the counts of all groups make up the number of peers.
  pub group_by_hardfork_schedule_lem :
      (ps : List Peer)
      → let groups = group_by_hardfork_schedule version_text epoch_text ps in
        ((key : Text)
          → count_of key groups ≡ tally (λ p. text_eq (key_of version_text epoch_text p) key) ps)
        × (sum_of groups ≡ length ps)
  unfolding group_by_hardfork_schedule count_of sum_of
  group_by_hardfork_schedule_lem ps = (
    λ key. omega (arith, groups_from-count_of key [] ps),
    omega (arith, groups_from-sum_of [] ps),
  )
