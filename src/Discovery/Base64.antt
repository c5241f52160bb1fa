-- ===== src/Discovery/Base64.antt =====
-- The base64 encoding that the decoder undoes.
use nodewatch_api.Base.{
  ℕ, ◌+◌, ◌-◌, ◌*◌, ◌/◌, ◌%◌, ◌<◌, ◌≡◌, refl, false, some, List, [], ◌∷◌, map, All, leb, ◌==◌,
  if◌then◌else◌, arith,
}
use nodewatch_api.Base.Text.{Text}
use nodewatch_api.Discovery.{is_space, base64_value, base64_values, base64_bytes, base64_decode}

-- The letter of a value below 64, and the text of some bytes: the encoder of the same encoding.
pub base64_letter : ℕ → ℕ
base64_letter v =
    if leb v 25
    then v + 65
    else if leb v 51
    then v + 71
    else if leb v 61
    then v - 4
    else if v == 62
    then b'-'
    else b'_'

-- The values of six bits that some bytes consist of.
unfoldable pub base64_groups : List ℕ → List ℕ
base64_groups [] = []
base64_groups (x ∷ []) = x / 4 ∷ x % 4 * 16 ∷ []
base64_groups (x ∷ y ∷ []) = x / 4 ∷ (x % 4 * 16 + y / 16) ∷ y % 16 * 4 ∷ []
base64_groups (x ∷ y ∷ z ∷ rest) =
    x / 4 ∷ (x % 4 * 16 + y / 16) ∷ (y % 16 * 4 + z / 64) ∷ z % 64 ∷ base64_groups rest

unfoldable pub base64_encode : List ℕ → Text
unfolding base64_letter base64_groups
base64_encode bs = map base64_letter (base64_groups bs)

pub base64_groups_bounds :
    (bs : List ℕ) → All (λ b. b < 256) bs → All (λ v. v < 64) (base64_groups bs)
unfolding base64_groups
base64_groups_bounds [] h = tt
base64_groups_bounds (x ∷ []) h = let hx = h.0 in (omega arith, (omega arith, tt))
base64_groups_bounds (x ∷ y ∷ []) h =
    let hx = h.0 in let hy = h.1.0 in (omega arith, (omega arith, (omega arith, tt)))
base64_groups_bounds (x ∷ y ∷ z ∷ rest) h =
    let hx = h.0 in
    let hy = h.1.0 in
    let hz = h.1.1.0 in
    (omega arith, (omega arith, (omega arith, (omega arith, base64_groups_bounds rest h.1.1.1))))

base64_bytes-groups :
    (bs : List ℕ) → All (λ b. b < 256) bs → base64_bytes (base64_groups bs) ≡ some bs
unfolding base64_groups base64_bytes
base64_bytes-groups [] h = refl
base64_bytes-groups (x ∷ []) h = let hx = h.0 in ground arith
base64_bytes-groups (x ∷ y ∷ []) h = let hx = h.0 in let hy = h.1.0 in ground arith
base64_bytes-groups (x ∷ y ∷ z ∷ rest) h =
    let hx = h.0 in
    let hy = h.1.0 in
    let hz = h.1.1.0 in let again = base64_bytes-groups rest h.1.1.1 in ground arith

pub base64_letter_lem :
    (v : ℕ)
    → v < 64
    → (base64_value (base64_letter v) ≡ some v)
      × ((base64_letter v == 10) ≡ false)
      × ((base64_letter v == 13) ≡ false)
      × (is_space (base64_letter v) ≡ false)
unfolding base64_letter base64_value is_space
base64_letter_lem v h = ground arith

base64_values_letters :
    (vs : List ℕ) → All (λ v. v < 64) vs → base64_values (map base64_letter vs) ≡ some vs
unfolding base64_values
base64_values_letters [] h = refl
base64_values_letters (v ∷ vs) h =
    ground (arith, base64_letter_lem v h.0, base64_values_letters vs h.1)

pub base64_decode-base64_encode :
    (bs : List ℕ) → All (λ b. b < 256) bs → base64_decode (base64_encode bs) ≡ some bs
unfolding base64_decode base64_encode
base64_decode-base64_encode bs h = ground (
  arith,
  base64_values_letters (base64_groups bs) (base64_groups_bounds bs h),
  base64_bytes-groups bs h,
)
