-- ===== src/Graph/Shares.antt =====
-- The shares that the API reports are parts of a whole.
use nodewatch_api.Base.{ℕ, ◌+◌, ◌≤◌, ◌≡◌, Bool, Option, List, [], ◌∷◌, arith, Bool-cases, inl, inr}
use nodewatch_api.Base.Text.{Text}
use nodewatch_api.Graph.{
  Named, ClientVersions, support_altair_upgrade, count_versions, altair_counts, Regional,
  regional_counts,
}

-- The sum of the counts of a list.
abbrev pub sum_counts : List Named → ℕ
sum_counts [] = 0
sum_counts (a ∷ rest) = a.count + sum_counts rest

abbrev pub sum_versions : List ClientVersions → ℕ
sum_versions [] = 0
sum_versions (c ∷ cs) = sum_counts c.versions + sum_versions cs

regional_from :
    (xs : List Named) (r : Regional)
    → ((regional_counts xs r).total ≡ r.total + sum_counts xs)
      × ((regional_counts xs r).hosted + (regional_counts xs r).nonhosted
          ≡ r.hosted + r.nonhosted + sum_counts xs)
unfolding regional_counts
regional_from [] r = (omega arith, omega arith)
regional_from (a ∷ rest) r = ground (
  arith,
  regional_from rest (record r { total = r.total + a.count; hosted = r.hosted + a.count }),
  regional_from rest (record r { total = r.total + a.count; nonhosted = r.nonhosted + a.count }),
)

-- Hosted and other nodes make up all nodes, and these are the sum of the counts by network.
pub regional_counts_lem :
    (xs : List Named)
    → let r = regional_counts xs (record { hosted = 0; nonhosted = 0; total = 0 }) in
      (r.total ≡ sum_counts xs) × (r.hosted + r.nonhosted ≡ r.total)
regional_counts_lem xs =
    let (t, s) = regional_from xs (record { hosted = 0; nonhosted = 0; total = 0 }) in
    (omega arith, omega arith)

module _ {V : Type 0} (new_version : Text → Option V) (at_least : V → V → Bool) where
  versions_from :
      (client : Text) (vs : List Named) (counts : ℕ × ℕ)
      → counts.0 ≤ counts.1
      → ((count_versions new_version at_least client vs counts).1 ≡ counts.1 + sum_counts vs)
        × ((count_versions new_version at_least client vs counts).0
            ≤ (count_versions new_version at_least client vs counts).1)
  unfolding count_versions
  versions_from client [] counts h = (omega arith, h)
  versions_from client (v ∷ vs) (count, total) h =
      elim (Bool-cases (support_altair_upgrade new_version at_least client v.name)) [
        | inl yes_ ↦
            rw (yes_, count_versions)
              (let (t, le) =
                  versions_from client vs (count + v.count, total + v.count) (omega arith) in
                (omega arith, le))
        | inr no_ ↦
            rw (no_, count_versions)
              (let (t, le) = versions_from client vs (count, total + v.count) (omega arith) in
                (omega arith, le))
      ]

  altair_from :
      (cs : List ClientVersions) (counts : ℕ × ℕ)
      → counts.0 ≤ counts.1
      → ((altair_counts new_version at_least cs counts).1 ≡ counts.1 + sum_versions cs)
        × ((altair_counts new_version at_least cs counts).0
            ≤ (altair_counts new_version at_least cs counts).1)
  unfolding altair_counts
  altair_from [] counts h = (omega arith, h)
  altair_from (c ∷ cs) counts h =
      let (t, le) = versions_from c.client c.versions counts h in
      let (t2, le2) =
        altair_from cs (count_versions new_version at_least c.client c.versions counts) le in
      (omega arith, le2)

  -- Of all nodes that have a client and a version, no more support Altair than there are.
  pub altair_counts_lem :
      (cs : List ClientVersions)
      → let counts = altair_counts new_version at_least cs (0, 0) in
        (counts.1 ≡ sum_versions cs) × (counts.0 ≤ counts.1)
  altair_counts_lem cs = let (t, le) = altair_from cs (0, 0) (omega arith) in (omega arith, le)
