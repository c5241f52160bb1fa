-- ===== src/Base/Text.antt =====
-- Text as the list of its code points, or of its bytes where the program counts or cuts bytes.
use nodewatch_api.Base.Tests.{◌==◌, ==_refl, if◌then◌else◌}
use Prim.Native.Nat.{ℕ}
use Prim.Native.Char.{code}
use Prim.Native.String.{String}
use mathlib.Core.Path.{◌≡◌, refl, ap}
use mathlib.Core.Bool.{Bool, true, false, ◌&&◌, ◌||◌}
use mathlib.Core.List.{List, [], ◌∷◌, ◌++◌}
use mathlib.Core.Path.{◌∙◌}
use mathlib.Core.Logic.{◌≢◌, inl, inr}
use nodewatch_api.Base.Tests.{Bool-cases}
use nodewatch_api.Base.Lists.{All}
use native.Mathlib.Omega.{arith}

-- The code points of a literal: its bytes, if it is ASCII.
abbrev pub codes : String → List ℕ
codes String.[] = []
codes (String.◌∷◌ c s) = code c ∷ codes s

abbrev pub Text : Type 0
Text = List ℕ

-- Go's `==` on strings.
unfoldable pub text_eq : Text → Text → Bool
text_eq [] [] = true
text_eq [] (b ∷ bs) = false
text_eq (a ∷ as_) [] = false
text_eq (a ∷ as_) (b ∷ bs) = a == b && text_eq as_ bs

pub text_eq_sound : (a b : Text) → text_eq a b ≡ true → a ≡ b
unfolding text_eq
text_eq_sound [] [] h = refl
text_eq_sound [] (b ∷ bs) h = cc
text_eq_sound (a ∷ s) [] h = cc
text_eq_sound (a ∷ s) (b ∷ bs) h = ground (arith, text_eq_sound s bs)

pub text_eq_refl : (a : Text) → text_eq a a ≡ true
unfolding text_eq
text_eq_refl [] = refl
text_eq_refl (a ∷ s) = ground (arith, text_eq_refl s)

-- strings.HasPrefix
unfoldable pub has_prefix : Text → Text → Bool
has_prefix [] s = true
has_prefix (p ∷ ps) [] = false
has_prefix (p ∷ ps) (c ∷ s) = p == c && has_prefix ps s

-- strings.Contains of `needle`.
unfoldable pub contains : Text → Text → Bool
unfolding has_prefix
contains needle [] = has_prefix needle []
contains needle (c ∷ s) = has_prefix needle (c ∷ s) || contains needle s

-- Prefix the first part of a list of parts by one character.
abbrev pub cons_first : ℕ → List Text → List Text
cons_first c [] = (c ∷ []) ∷ []
cons_first c (p ∷ ps) = (c ∷ p) ∷ ps

-- strings.Split by a separator of one character; it has one part at least.
unfoldable pub split : ℕ → Text → List Text
split sep [] = [] ∷ []
split sep (c ∷ s) = let parts = split sep s in if c == sep then [] ∷ parts else cons_first c parts

-- The parts joined again, which `split` undoes.
abbrev pub join : ℕ → List Text → Text
join sep [] = []
join sep (p ∷ []) = p
join sep (p ∷ q ∷ ps) = p ++ sep ∷ join sep (q ∷ ps)

-- A text without a given character.
abbrev pub Lacks : ℕ → Text → Type 0
Lacks sep = All (λ c. c ≢ sep)

split_run : (sep : ℕ) (p s : Text) → Lacks sep p → split sep (p ++ sep ∷ s) ≡ p ∷ split sep s
unfolding split
split_run sep [] s h = rw (==_refl sep)
split_run sep (c ∷ p) s h = ground (arith, split_run sep p s h.1)

split_last : (sep : ℕ) (p : Text) → Lacks sep p → split sep p ≡ p ∷ []
unfolding split
split_last sep [] h = refl
split_last sep (c ∷ p) h = ground (arith, split_last sep p h.1)

-- Parts without the separator are found again when their join is split.
pub split-join :
    (sep : ℕ) (p : Text) (ps : List Text)
    → All (Lacks sep) (p ∷ ps)
    → split sep (join sep (p ∷ ps)) ≡ p ∷ ps
split-join sep p [] h = split_last sep p h.0
split-join sep p (q ∷ ps) h =
    split_run sep p (join sep (q ∷ ps)) h.0 ∙ ap (◌∷◌ p) (split-join sep q ps h.1)

join-cons_first : (sep c : ℕ) (ps : List Text) → join sep (cons_first c ps) ≡ c ∷ join sep ps
join-cons_first sep c [] = refl
join-cons_first sep c (p ∷ []) = refl
join-cons_first sep c (p ∷ q ∷ ps) = refl

cons_first-Lacks :
    (sep c : ℕ) (ps : List Text) → c ≢ sep → All (Lacks sep) ps → All (Lacks sep) (cons_first c ps)
cons_first-Lacks sep c [] h hs = ((h, tt), tt)
cons_first-Lacks sep c (p ∷ ps) h hs = ((h, hs.0), hs.1)

-- Every text has a first part.
split_cases : (sep : ℕ) (s : Text) → (p : Text) × (ps : List Text) × (split sep s ≡ p ∷ ps)
unfolding split
split_cases sep [] = ([], [], refl)
split_cases sep (c ∷ s) =
    let (p, ps, e) = split_cases sep s in
    elim (Bool-cases (c == sep)) [
      | inl same ↦ ([], p ∷ ps, ground arith)
      | inr other ↦ (c ∷ p, ps, ground arith)
    ]

-- The parts make up the text when they are joined, and have no separator.
pub join-split : (sep : ℕ) (s : Text) → join sep (split sep s) ≡ s
unfolding split
join-split sep [] = refl
join-split sep (c ∷ s) = elim (Bool-cases (c == sep)) [
  | inl e ↦
      let (p, ps, parts) = split_cases sep s in
      let rest = join-split sep s in let same : c ≡ sep = ground arith in ground arith
  | inr n ↦ rw n (join-cons_first sep c (split sep s) ∙ ap (◌∷◌ c) (join-split sep s))
]

pub split-Lacks : (sep : ℕ) (s : Text) → All (Lacks sep) (split sep s)
unfolding split
split-Lacks sep [] = (tt, tt)
split-Lacks sep (c ∷ s) = elim (Bool-cases (c == sep)) [
  | inl e ↦ rw e (tt, split-Lacks sep s)
  | inr n ↦ rw n (cons_first-Lacks sep c (split sep s) (λ same. ground arith) (split-Lacks sep s))
]

-- The first part of a split.
abbrev pub first_part : List Text → Text
first_part [] = []
first_part (p ∷ ps) = p

first_part-cons_first : (c : ℕ) (ps : List Text) → first_part (cons_first c ps) ≡ c ∷ first_part ps
first_part-cons_first c [] = refl
first_part-cons_first c (p ∷ ps) = refl

-- The first part has no separator, and lacks whatever the whole text lacks.
pub first_part-Lacks : (sep : ℕ) (s : Text) → Lacks sep (first_part (split sep s))
unfolding split
first_part-Lacks sep [] = tt
first_part-Lacks sep (c ∷ s) = elim (Bool-cases (c == sep)) [
  | inl e ↦ rw e tt
  | inr n ↦ rw (n, first_part-cons_first c (split sep s)) (ground arith, first_part-Lacks sep s)
]

pub first_part-keeps_Lacks : (sep d : ℕ) (s : Text) → Lacks d s → Lacks d (first_part (split sep s))
unfolding split
first_part-keeps_Lacks sep d [] h = tt
first_part-keeps_Lacks sep d (c ∷ s) h = elim (Bool-cases (c == sep)) [
  | inl e ↦ rw e tt
  | inr n ↦ rw (n, first_part-cons_first c (split sep s)) (h.0, first_part-keeps_Lacks sep d s h.1)
]
