-- ===== src/Epoch.antt =====
-- models/marshallable_epoch.go: an epoch as the text that the database holds, and back. What bson makes
-- of the text is left out.
use nodewatch_api.Base.{
  ℕ, zero, suc, ◌+◌, ◌*◌, ◌/◌, ◌%◌, ◌^◌, ◌<◌, ◌≡◌, refl, sym, ap, ◌∙◌, none, some, [], ◌∷◌, ◌++◌,
  append_assoc, append-nil, arith, ltb, Bool-cases, inl, inr, if◌then◌else◌, Result, ok, err,
  ltb→lt,
}
use native.Mathlib.Numerals.{unary_clauses}
use nodewatch_api.Base.Text.{Text, codes}
use nodewatch_api.Peer.{hex_digit}
use nodewatch_api.Store.Queries.{hex_value}
use nodewatch_api.Store.Queries.Filters.{hex_value-hex_digit}

-- The errors of strconv.ParseUint, and the panic of a slice that is out of range.
pub data EpochError : Type 0 where
  syntax_error range_error slice_panic : EpochError

-- The digits of `%x`: `left` more may come before the last.
digits : ℕ → ℕ → Text
digits zero n = hex_digit (n % 16) ∷ []
digits (suc left) n =
    let high = digits left (n / 16) in
    if ltb n 16 then hex_digit n ∷ [] else high ++ hex_digit (n % 16) ∷ []

-- toHexString of a uint64, which has 16 digits at most.
pub to_hex_string : ℕ → Text
unfolding digits
to_hex_string i = codes "0x" ++ digits 15 i

-- The loop of strconv.ParseUint with base 16 and 64 bits.
parse_digits : ℕ → Text → Result EpochError ℕ
parse_digits n [] = ok n
parse_digits n (c ∷ cs) = elim (hex_value c) [
  | none ↦ err syntax_error
  | some d ↦
      let rest = parse_digits (n * 16 + d) cs in
      if ltb (n * 16 + d) (2 ^ 64) then rest else err range_error
]

parse_uint : Text → Result EpochError ℕ
unfolding parse_digits
parse_uint [] = err syntax_error
parse_uint (c ∷ cs) = parse_digits 0 (c ∷ cs)

-- fromHexString: the first two characters are cut off unseen.
pub from_hex_string : Text → Result EpochError ℕ
unfolding parse_uint
from_hex_string [] = err slice_panic
from_hex_string (c ∷ []) = err slice_panic
from_hex_string (c ∷ d ∷ cs) = parse_uint cs

parse_one :
    (n d : ℕ) (cs : Text)
    → d < 16
    → n * 16 + d < 2 ^ 64
    → parse_digits n (hex_digit d ∷ cs) ≡ parse_digits (n * 16 + d) cs
unfolding parse_digits
parse_one n d cs h fits = let (v, _) = hex_value-hex_digit d h in ground arith

parse_first : (d : ℕ) (cs : Text) → d < 16 → parse_digits 0 (hex_digit d ∷ cs) ≡ parse_digits d cs
parse_first d cs h =
    let plain : 0 * 16 + d ≡ d = omega arith in
    parse_one 0 d cs h (omega arith) ∙ ap (λ m. parse_digits m cs) plain

parse_uint-digits :
    (c : ℕ) (cs : Text) (n : ℕ)
    → parse_digits 0 (c ∷ cs) ≡ parse_digits n []
    → parse_uint (c ∷ cs) ≡ ok n
unfolding parse_uint parse_digits
parse_uint-digits c cs n h = h

parse_digits-digits :
    (left n : ℕ) (cs : Text)
    → n < 16 * 16 ^ left
    → n < 2 ^ 64
    → parse_digits 0 (digits left n ++ cs) ≡ parse_digits n cs
unfolding digits
parse_digits-digits zero n cs h fits =
    let small : n % 16 ≡ n = omega arith in rw small (parse_first n cs (omega arith))
parse_digits-digits (suc left) n cs h fits = elim (Bool-cases (ltb n 16)) [
  | inl small ↦ rw small (parse_first n cs (ltb→lt n 16 small))
  | inr large ↦
      let high = digits left (n / 16) in
      let last = hex_digit (n % 16) in
      let power : 16 ^ suc left ≡ 16 * 16 ^ left = simp unary_clauses (omega arith) in
      let front =
        parse_digits-digits left (n / 16) (last ∷ cs) (omega (arith, power)) (omega arith) in
      let next = parse_one (n / 16) (n % 16) cs (omega arith) (omega arith) in
      let whole : n / 16 * 16 + n % 16 ≡ n = omega arith in
      rw large (
        ap (parse_digits 0) (append_assoc high (last ∷ []) cs)
        ∙ front
        ∙ next
        ∙ ap (λ m. parse_digits m cs) whole)
]

digits_cons : (left n : ℕ) → (c : ℕ) × (cs : Text) × (digits left n ≡ c ∷ cs)
unfolding digits
digits_cons zero n = (hex_digit (n % 16), [], refl)
digits_cons (suc left) n = elim (Bool-cases (ltb n 16)) [
  | inl small ↦ (hex_digit n, [], rw small refl)
  | inr large ↦
      let (c, cs, e) = digits_cons left (n / 16) in
      (c, cs ++ hex_digit (n % 16) ∷ [], rw (large, e) refl)
]

-- Every epoch, which is a uint64, is read back as it was written.
pub from_hex_string-to_hex_string : (n : ℕ) → n < 2 ^ 64 → from_hex_string (to_hex_string n) ≡ ok n
unfolding from_hex_string to_hex_string
from_hex_string-to_hex_string n h =
    let (c, cs, e) = digits_cons 15 n in
    let parsed = parse_digits-digits 15 n [] (omega arith) h in
    let whole : digits 15 n ++ [] ≡ c ∷ cs = append-nil (digits 15 n) ∙ e in
    rw e (parse_uint-digits c cs n (ap (parse_digits 0) (sym whole) ∙ parsed))
