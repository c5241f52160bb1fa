-- ===== src/Graph/Groups/Answer.antt =====
-- AggregateByHardforkSchedule against its abstract view, from a bag of peers to a bag of groups.
use mathlib.Core.Quot
use mathlib.Core.Quot.{Quot, Quot-set}
use nodewatch_api.Base.{ℕ, ◌+◌, ◌≡◌, sym, ap, ◌∙◌, Bool, List, [], tally}
use nodewatch_api.Base.Text.{Text, Lacks, text_eq}
use nodewatch_api.Peer.{Peer}
use nodewatch_api.Graph.{
  Aggregation, key_of, groups_from, group_by_hardfork_schedule, aggregate_by_hardfork_schedule,
}
use nodewatch_api.Graph.Sorting.{Descends, sort_by_count_lem}
use nodewatch_api.Graph.Groups.{count_of, groups_from-count_of}
use nodewatch_api.Graph.Groups.Bags.{values, groups_from-IsGrouped, same_tally}

-- Two lists that hold the same elements, as often.
abbrev pub SameBag : {A : Type 0} → List A → List A → Type 0
SameBag {A} xs ys = (q : A → Bool) → tally q xs ≡ tally q ys

abbrev pub Bag : Type 0 → Type 0
Bag A = Quot (SameBag {A = A})

module _ (version_text : Text → Text) (epoch_text : ℕ → Text)
    (no_dash : (v : Text) → Lacks b'-' (version_text v)) where
  groups_same :
      (ps qs : List Peer)
      → SameBag ps qs
      → SameBag
          (values (group_by_hardfork_schedule version_text epoch_text ps))
          (values (group_by_hardfork_schedule version_text epoch_text qs))
  unfolding group_by_hardfork_schedule count_of
  groups_same ps qs h q =
      same_tally q (groups_from version_text epoch_text [] ps)
        (groups_from version_text epoch_text [] qs)
        (groups_from-IsGrouped version_text epoch_text no_dash [] ps tt)
        (groups_from-IsGrouped version_text epoch_text no_dash [] qs tt)
        (λ k.
          groups_from-count_of version_text epoch_text k [] ps
          ∙ ap (λ n. 0 + n) (h (λ p. text_eq (key_of version_text epoch_text p) k))
          ∙ sym (groups_from-count_of version_text epoch_text k [] qs))

  -- The groups of a bag of peers, a bag themselves.
  pub hardfork_groups : Bag Peer → Bag Aggregation
  hardfork_groups =
      Quot.lift Quot-set
        (λ ps. Quot.mk (values (group_by_hardfork_schedule version_text epoch_text ps)))
        (λ ps qs h. Quot.sound (groups_same ps qs h))

  -- AggregateByHardforkSchedule depends neither on the order in which Go walks the map of groups nor on
  -- that in which the database gives the peers, but for the order of its answer: where no text of a
  -- version has a dash and the walk gives each group once, the answer as a bag is that of the bag of
  -- peers; and its counts do not rise.
  pub aggregate_by_hardfork_schedule-hardfork_groups :
      (walk : List (Text × Aggregation) → List Aggregation) (ps : List Peer)
      → ((groups : List (Text × Aggregation)) → SameBag (walk groups) (values groups))
      → let answer = aggregate_by_hardfork_schedule version_text epoch_text walk ps in
        (◌≡◌ {A = Bag Aggregation} (Quot.mk answer) (hardfork_groups (Quot.mk ps)))
        × Descends answer
  unfolding aggregate_by_hardfork_schedule hardfork_groups
  aggregate_by_hardfork_schedule-hardfork_groups walk ps once =
      let groups = group_by_hardfork_schedule version_text epoch_text ps in
      let (sorted, kept) = sort_by_count_lem (walk groups) in
      (Quot.sound (λ q. kept q ∙ once groups q), sorted)
