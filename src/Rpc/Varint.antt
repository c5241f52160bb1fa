-- ===== src/Rpc/Varint.antt =====
-- The varints of encoding/binary, as crawler/rpc/request writes and reads them.
use nodewatch_api.Base.{
  ℕ, zero, suc, ◌+◌, ◌*◌, ◌/◌, ◌%◌, ◌^◌, ◌≤◌, ◌<◌, ◌≡◌, refl, true, List, [], ◌∷◌, ◌++◌, length,
  arith, ap, subst, ◌∙◌, if◌then◌else◌, Result, ok, err, ltb, Bool-cases, ltb→lt, inl, inr, ◌==◌,
  ◌&&◌,
}
use nodewatch_api.Rpc.Stream.{RpcError, eof, unexpected_eof, varint_overflow}
use nodewatch_api.Rpc.Reader.{BufLimitReader, read_byte}
use nodewatch_api.Rpc.Reader.Bytes.{IsReady, read_byte-IsReady}
use nodewatch_api.Rpc.Reader.Limits.{read_byte-per_read}
use nodewatch_api.Base.{Result-cases}
use native.Mathlib.Nat.{div-add-mod}
use native.Mathlib.Numerals.{towards_suc}

-- PutUvarint into a buffer of MaxVarintLen64 bytes: `k` more bytes follow at most, and 9 are enough.
put_groups : ℕ → ℕ → List ℕ
put_groups zero v = v % 256 ∷ []
put_groups (suc k) v =
    let rest = put_groups k (v / 128) in if ltb v 128 then v ∷ [] else (v % 128 + 128) ∷ rest

unfoldable pub put_uvarint : ℕ → List ℕ
unfolding put_groups
put_uvarint v = put_groups 9 v

-- What ReadUvarint makes of an error in round `i`.
late_error : ℕ → RpcError → RpcError
late_error zero e = e
late_error (suc i) eof = unexpected_eof
late_error (suc i) e = e

-- The rounds of ReadUvarint: `left` of ten are left, this is round `i`, and `s` is 7 * i. The bits
-- that `|=` adds lie above those of `x`, so that it is a sum.
read_groups : ℕ → ℕ → ℕ → ℕ → BufLimitReader → Result RpcError ℕ × BufLimitReader
unfolding late_error
read_groups zero i x s b = (err varint_overflow, b)
read_groups (suc left) i x s b =
    let (r, b') = read_byte b in
    elim r [
      | err e ↦ (err (late_error i e), b')
      | ok c ↦
          let more = read_groups left (suc i) ((x + c % 128 * 2 ^ s) % 2 ^ 64) (s + 7) b' in
          if ltb c 128
          then (if i == 9 && ltb 1 c
              then (err varint_overflow, b')
              else (ok ((x + c * 2 ^ s) % 2 ^ 64), b'))
          else more
    ]

unfoldable pub read_uvarint : BufLimitReader → Result RpcError ℕ × BufLimitReader
unfolding read_groups
read_uvarint b = read_groups 10 0 0 0 b

-- The group of seven bits that a round takes, and what is left to the later rounds.
round_sum : (w s x : ℕ) → x + w % 128 * 2 ^ s + w / 128 * 2 ^ (s + 7) ≡ x + w * 2 ^ s
round_sum w s x =
    let next : 2 ^ (s + 7) ≡ 128 * 2 ^ s = simp towards_suc (omega arith) in
    omega (arith, ap (λ (t : ℕ). w / 128 * t) next, ap (λ (t : ℕ). t * 2 ^ s) (div-add-mod w 128))

-- What a successful round trip leaves: the value, and a reader at the bytes behind the varint.
abbrev pub Reads : ℕ → List ℕ → Result RpcError ℕ × BufLimitReader → Type 0
Reads v rest r =
    (b' : BufLimitReader) × (r ≡ (ok v, b')) × IsReady rest b' × (b'.n ≡ 1) × (b'.per_read ≡ true)

module _ (rest : List ℕ) where
  last_group :
      (left i x s w : ℕ) (b : BufLimitReader)
      → IsReady (w ∷ rest) b
      → b.n ≡ 1
      → b.per_read ≡ true
      → w < 128
      → (i ≡ 9 → w < 2)
      → x + w * 2 ^ s < 2 ^ 64
      → Reads (x + w * 2 ^ s) rest (read_groups (suc left) i x s b)
  unfolding read_groups
  last_group left i x s w b r hn hp hw h9 fits =
      let (b', e, r', n', p') = read_byte-IsReady b w rest r hn in
      (b', ground (arith, e, h9), r', ground arith, ground arith)

  inner_group :
      (left i x s w : ℕ) (b : BufLimitReader) (more : List ℕ)
      → IsReady ((w % 128 + 128) ∷ more) b
      → b.n ≡ 1
      → b.per_read ≡ true
      → x + w * 2 ^ s < 2 ^ 64
      → (b' : BufLimitReader) × (read_groups (suc left) i x s b
          ≡ read_groups left (suc i) (x + w % 128 * 2 ^ s) (s + 7) b')
        × IsReady more b'
        × (b'.n ≡ 1)
        × (b'.per_read ≡ true)
  unfolding read_groups
  inner_group left i x s w b more r hn hp fits =
      let (b', e, r', n', p') = read_byte-IsReady b (w % 128 + 128) more r hn in
      (b', ground (arith, e, round_sum w s x), r', ground arith, ground arith)

  read_groups-put_groups :
      (k i x s w : ℕ) (b : BufLimitReader)
      → IsReady (put_groups k w ++ rest) b
      → b.n ≡ 1
      → b.per_read ≡ true
      → i + k ≡ 9
      → s ≡ 7 * i
      → x + w * 2 ^ s < 2 ^ 64
      → Reads (x + w * 2 ^ s) rest (read_groups (suc k) i x s b)
  unfolding put_groups
  read_groups-put_groups zero i x s w b r hn hp hi hs fits =
      let s63 : s ≡ 63 = omega arith in
      let fits63 : x + w * 2 ^ 63 < 2 ^ 64 = rw s63 at fits in
      let byte : w % 256 ≡ w = omega arith in
      last_group zero i x s w b (rw byte at r) hn hp (omega arith) (λ _. omega arith) fits
  read_groups-put_groups (suc k) i x s w b r hn hp hi hs fits = elim (Bool-cases (ltb w 128)) [
    | inl small ↦
        last_group (suc k) i x s w b (rw small at r) hn hp (ltb→lt w 128 small)
          (λ h. absurd (omega arith)) fits
    | inr large ↦
        let (b', e, r', n', p') =
          inner_group (suc k) i x s w b (put_groups k (w / 128) ++ rest) (rw large at r) hn hp
            fits in
        let (b2, e2, r2, n2, p2) =
          read_groups-put_groups k (suc i) (x + w % 128 * 2 ^ s) (s + 7) (w / 128) b' r' n' p'
            (omega arith) (omega arith) (omega (arith, round_sum w s x)) in
        (b2, e ∙ e2 ∙ ap (λ (t : ℕ). (ok t, b2)) (round_sum w s x), r2, n2, p2)
  ]

-- ReadUvarint reads back the uint64 that PutUvarint wrote, in whatever pieces its bytes arrive, and
-- stops right behind it.
pub read_uvarint-put_uvarint :
    (v : ℕ) (rest : List ℕ) (b : BufLimitReader)
    → v < 2 ^ 64
    → IsReady (put_uvarint v ++ rest) b
    → b.n ≡ 1
    → b.per_read ≡ true
    → Reads v rest (read_uvarint b)
unfolding read_uvarint put_uvarint
read_uvarint-put_uvarint v rest b hv r hn hp =
    let plain : 0 + v * 2 ^ 0 ≡ v = omega arith in
    subst (λ t. Reads t rest (read_groups 10 0 0 0 b)) plain
      (read_groups-put_groups rest 9 0 0 0 v b r hn hp (omega arith) (omega arith) (omega arith))

put_groups_bounds : (k v : ℕ) → (1 ≤ length (put_groups k v)) × (length (put_groups k v) ≤ k + 1)
unfolding put_groups
put_groups_bounds zero v = omega arith
put_groups_bounds (suc k) v = ground (arith, put_groups_bounds k (v / 128))

-- A varint has 1 to MaxVarintLen64 = 10 bytes.
pub length-put_uvarint : (v : ℕ) → (1 ≤ length (put_uvarint v)) × (length (put_uvarint v) ≤ 10)
unfolding put_uvarint
length-put_uvarint v = put_groups_bounds 9 v

read_groups-lt :
    (left i x s : ℕ) (b : BufLimitReader) (v : ℕ) → (read_groups left i x s b).0 ≡ ok v → v < 2 ^ 64
unfolding read_groups
read_groups-lt zero i x s b v e = cc
read_groups-lt (suc left) i x s b v e =
    ground
      (arith, read_groups-lt left (suc i) ((x + byte * 2 ^ s) % 2 ^ 64) (s + 7) (read_byte b).1 v)
  where
    byte : ℕ
    byte = elim (read_byte b).0 [ ok c ↦ c % 128 | err e ↦ 0 ]

-- Whatever a reader sends, a length that ReadUvarint accepts fits 64 bits.
pub read_uvarint-lt : (b : BufLimitReader) (v : ℕ) → (read_uvarint b).0 ≡ ok v → v < 2 ^ 64
unfolding read_uvarint
read_uvarint-lt b v e = read_groups-lt 10 0 0 0 b v e

read_groups-per_read :
    (left i x s : ℕ) (b : BufLimitReader)
    → b.per_read ≡ true
    → ((read_groups left i x s b).1.n ≡ b.n) × ((read_groups left i x s b).1.per_read ≡ true)
unfolding read_groups
read_groups-per_read zero i x s b h = (refl, h)
read_groups-per_read (suc left) i x s b h =
    let (n', p') = read_byte-per_read b h in
    elim (Result-cases (read_byte b).0) [
      | inr (e, r) ↦ ground arith
      | inl (c, r) ↦ ground (
        arith,
        read_groups-per_read left (suc i) ((x + c % 128 * 2 ^ s) % 2 ^ 64) (s + 7) (read_byte b).1
            p',
      )
    ]

-- Reading a varint byte by byte leaves the limit as it is.
pub read_uvarint-per_read :
    (b : BufLimitReader)
    → b.per_read ≡ true
    → ((read_uvarint b).1.n ≡ b.n) × ((read_uvarint b).1.per_read ≡ true)
unfolding read_uvarint
read_uvarint-per_read b h = read_groups-per_read 10 0 0 0 b h
