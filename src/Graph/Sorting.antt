-- ===== src/Graph/Sorting.antt =====
-- SortByCount sorts.
use nodewatch_api.Base.{
  ℕ, zero, suc, ◌≤◌, ◌≡◌, refl, Bool, List, [], ◌∷◌, length, All, tally, arith, ltb, Bool-cases,
  inl, inr,
}
use nodewatch_api.Graph.{Aggregation, pass, sort_rounds, sort_by_count}

-- No count is larger than one before it.
abbrev pub Descends : List Aggregation → Type 0
Descends [] = Unit {0}
Descends (x ∷ xs) = All (λ y. y.count ≤ x.count) xs × Descends xs

pass_lem :
    (x : Aggregation) (xs : List Aggregation)
    → All (λ y. y.count ≤ (pass x xs).0.count) (pass x xs).1
      × (x.count ≤ (pass x xs).0.count)
      × (length (pass x xs).1 ≡ length xs)
unfolding pass
pass_lem x [] = (tt, omega arith, refl)
pass_lem x (y ∷ ys) = elim (Bool-cases (ltb x.count y.count)) [
  | inl less ↦
      let (below, le, size) = pass_lem y ys in
      rw (less, pass) ((ground arith, below), ground arith, omega arith)
  | inr more ↦
      let (below, le, size) = pass_lem x ys in
      rw (more, pass) ((ground arith, below), ground arith, omega arith)
]

pass-tally :
    (q : Aggregation → Bool) (x : Aggregation) (xs : List Aggregation)
    → tally q ((pass x xs).0 ∷ (pass x xs).1) ≡ tally q (x ∷ xs)
unfolding pass
pass-tally q x [] = refl
pass-tally q x (y ∷ ys) = ground (arith, pass-tally q x ys, pass-tally q y ys)

pass-All :
    (P : Aggregation → Type 0) (x : Aggregation) (xs : List Aggregation)
    → P x
    → All P xs
    → P (pass x xs).0 × All P (pass x xs).1
unfolding pass
pass-All P x [] h hs = (h, tt)
pass-All P x (y ∷ ys) h hs = elim (Bool-cases (ltb x.count y.count)) [
  | inl less ↦ let r = pass-All P y ys hs.0 hs.1 in rw (less, pass) (r.0, (h, r.1))
  | inr more ↦ let r = pass-All P x ys h hs.1 in rw (more, pass) (r.0, (hs.0, r.1))
]

rounds-All :
    (P : Aggregation → Type 0) (n : ℕ) (xs : List Aggregation) → All P xs → All P (sort_rounds n xs)
unfolding sort_rounds
rounds-All P zero xs h = h
rounds-All P (suc n) [] h = tt
rounds-All P (suc n) (x ∷ xs) h =
    let r = pass-All P x xs h.0 h.1 in (r.0, rounds-All P n (pass x xs).1 r.1)

rounds-Descends : (n : ℕ) (xs : List Aggregation) → length xs ≤ n → Descends (sort_rounds n xs)
unfolding sort_rounds
rounds-Descends zero [] h = tt
rounds-Descends zero (x ∷ xs) h = absurd (omega arith)
rounds-Descends (suc n) [] h = tt
rounds-Descends (suc n) (x ∷ xs) h =
    let (below, _, size) = pass_lem x xs in
    (rounds-All _ n (pass x xs).1 below, rounds-Descends n (pass x xs).1 (omega arith))

rounds-tally :
    (q : Aggregation → Bool) (n : ℕ) (xs : List Aggregation)
    → tally q (sort_rounds n xs) ≡ tally q xs
unfolding sort_rounds
rounds-tally q zero xs = refl
rounds-tally q (suc n) [] = refl
rounds-tally q (suc n) (x ∷ xs) = ground (arith, rounds-tally q n (pass x xs).1, pass-tally q x xs)

-- SortByCount leaves the groups with the largest counts first and neither loses a group nor makes one
-- up: whatever test is put to the groups, as many pass it as before.
pub sort_by_count_lem :
    (xs : List Aggregation)
    → Descends (sort_by_count xs)
      × ((q : Aggregation → Bool) → tally q (sort_by_count xs) ≡ tally q xs)
unfolding sort_by_count
sort_by_count_lem xs =
    (rounds-Descends (length xs) xs (omega arith), λ q. rounds-tally q (length xs) xs)
