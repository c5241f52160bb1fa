-- ===== src/Graph.antt =====
-- graph/model/helpers.go and graph/schema.resolvers.go: what the API makes of the peers and of the
-- aggregations of the store.
pub mod Sorting
pub mod Groups
pub mod Shares
pub mod Resolvers
use nodewatch_api.Base.{
  ℕ, zero, suc, ◌+◌, ◌-◌, ◌≡◌, Bool, true, false, ◌&&◌, ◌||◌, not, Option, none, some, List, [],
  ◌∷◌, ◌++◌, length, ltb, ◌==◌, if◌then◌else◌, Result, ok, err,
}
use nodewatch_api.Base.Text.{Text, codes, text_eq}
use nodewatch_api.Agent.{ClientName, prysm, teku, lighthouse, nimbus, lodestar}
use nodewatch_api.Peer.{Peer}

-- NextHardforkAggregation
pub record Aggregation : Type 0 where
  pub version : Text
  pub epoch : Text
  pub count : ℕ

-- One run of the inner loop: `x` is data[i], and the list is what stands behind it.
pass : Aggregation → List Aggregation → Aggregation × List Aggregation
pass x [] = (x, [])
pass x (y ∷ ys) =
    let kept = pass x ys in
    let swapped = pass y ys in
    if ltb x.count y.count then (swapped.0, x ∷ swapped.1) else (kept.0, y ∷ kept.1)

-- The outer loop, with as many rounds left.
sort_rounds : ℕ → List Aggregation → List Aggregation
unfolding pass
sort_rounds zero data_ = data_
sort_rounds (suc n) [] = []
sort_rounds (suc n) (x ∷ xs) = let (m, rest) = pass x xs in m ∷ sort_rounds n rest

-- SortByCount
pub sort_by_count : List Aggregation → List Aggregation
unfolding sort_rounds
sort_by_count data_ = sort_rounds (length data_) data_

-- The texts of a version and of an epoch are functions of the beacon library.
module _ (version_text : Text → Text) (epoch_text : ℕ → Text) where
  pub key_of : Peer → Text
  key_of p = version_text p.next_fork_version ++ codes "-" ++ epoch_text p.next_fork_epoch

  -- One peer is counted in the map of groups.
  add_peer : Peer → List (Text × Aggregation) → List (Text × Aggregation)
  add_peer p [] =
      (
        key_of p,
        record {
          version = version_text p.next_fork_version;
          epoch = epoch_text p.next_fork_epoch;
          count = 1;
        },
      )
      ∷ []
  add_peer p ((k, a) ∷ groups) =
      let others = add_peer p groups in
      if text_eq k (key_of p)
      then (k, record a { count = a.count + 1 }) ∷ groups
      else (k, a) ∷ others

  pub groups_from : List (Text × Aggregation) → List Peer → List (Text × Aggregation)
  unfolding add_peer
  groups_from groups [] = groups
  groups_from groups (p ∷ ps) = groups_from (add_peer p groups) ps

  -- GroupByHardforkSchedule
  pub group_by_hardfork_schedule : List Peer → List (Text × Aggregation)
  unfolding groups_from
  group_by_hardfork_schedule ps = groups_from [] ps

-- The part of AggregateByHardforkSchedule behind ViewAll: `walk` is the order in which Go walks the map.
pub aggregate_by_hardfork_schedule :
    (Text → Text)
    → (ℕ → Text)
    → (List (Text × Aggregation) → List Aggregation)
    → List Peer
    → List Aggregation
aggregate_by_hardfork_schedule version_text epoch_text walk ps =
    sort_by_count (walk (group_by_hardfork_schedule version_text epoch_text ps))

-- AggregateData and ClientVersionAggregation.
pub record Named : Type 0 where
  pub name : Text
  pub count : ℕ

pub record ClientVersions : Type 0 where
  pub client : Text
  pub client_count : ℕ
  pub versions : List Named

-- The library of versions: its parser, and whether the first version is at least the second.
module _ {V : Type 0} (new_version : Text → Option V) (at_least : V → V → Bool) where
  -- The first version of a client that supports Altair.
  altair_version : Text → Option Text
  altair_version name =
      if text_eq name (codes "prysm")
      then some (codes "v2.0.0")
      else if text_eq name (codes "teku")
      then some (codes "v21.9.2")
      else if text_eq name (codes "lighthouse")
      then some (codes "v2.0.0")
      else if text_eq name (codes "nimbus")
      then some (codes "v1.5.0")
      else if text_eq name (codes "lodestar")
      then some (codes "v0.31.0")
      else none

  with_v : Text → Text
  with_v [] = []
  with_v (c ∷ cs) = if c == b'v' then c ∷ cs else b'v' ∷ c ∷ cs

  -- SupportAltairUpgrade. The versions that are written in the code are taken to parse.
  pub support_altair_upgrade : Text → Text → Bool
  unfolding altair_version with_v
  support_altair_upgrade client_name ver = elim (new_version (with_v ver)) [
    | none ↦ false
    | some v ↦ elim (altair_version client_name) [
      | none ↦ false
      | some first ↦ elim (new_version first) [ none ↦ false | some w ↦ at_least v w ]
    ]
  ]

  count_versions : Text → List Named → ℕ × ℕ → ℕ × ℕ
  count_versions client [] counts = counts
  count_versions client (v ∷ vs) (count, total) =
      count_versions client vs
        (if support_altair_upgrade client v.name then count + v.count else count, total + v.count)

  -- GetAltairUpgradePercentage behind the store's call: how many nodes support Altair, of how many.
  pub altair_counts : List ClientVersions → ℕ × ℕ → ℕ × ℕ
  unfolding count_versions
  altair_counts [] counts = counts
  altair_counts (c ∷ cs) counts = altair_counts cs (count_versions c.client c.versions counts)

-- The counts of GetRegionalStats: hosted, not hosted, and all.
pub record Regional : Type 0 where
  pub hosted : ℕ
  pub nonhosted : ℕ
  pub total : ℕ

pub regional_counts : List Named → Regional → Regional
regional_counts [] r = r
regional_counts (a ∷ rest) r = regional_counts rest (
    if text_eq a.name (codes "hosting")
    then record r { total = r.total + a.count; hosted = r.hosted + a.count }
    else record r { total = r.total + a.count; nonhosted = r.nonhosted + a.count })
