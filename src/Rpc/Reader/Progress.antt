-- ===== src/Rpc/Reader/Progress.antt =====
-- Reading from a reader that does not stall.
use nodewatch_api.Base.{
  ℕ, ◌≤◌, ◌≡◌, ◌≢◌, ◌⊎◌, inl, inr, none, [], ◌∷◌, length, length-take, length-drop, All, min, arith,
  ◌==◌, Bool-cases, leb, ap, refl, drop, ◌∙◌, zero, suc,
}
use nodewatch_api.Rpc.Stream.{Stream, read_stream, got-le}
use nodewatch_api.Rpc.Reader.{BufLimitReader, charge, read_some, read}

-- A reader that does not stall: each of its answers has a byte or an error.
abbrev pub IsProgressive : Stream → Type 0
IsProgressive = All (λ p. (1 ≤ length p.bytes) ⊎ (p.error ≢ none))

read_stream_progress :
    (k : ℕ) (s : Stream)
    → 1 ≤ k
    → IsProgressive s
    → IsProgressive (read_stream k s).rest
      × ((read_stream k s).error ≡ none → 1 ≤ length (read_stream k s).got)
unfolding read_stream
read_stream_progress k [] hk h = (tt, λ e. cc)
read_stream_progress k (p ∷ ps) hk h = elim h.0 [
  | inl full ↦ (ground (arith, length-drop k p.bytes), λ e. ground (arith, length-take k p.bytes))
  | inr failed ↦ (ground (arith, length-drop k p.bytes), λ e. ground (arith, length-take k p.bytes))
]

pub read_progress :
    (k : ℕ) (b : BufLimitReader)
    → 1 ≤ k
    → 1 ≤ b.size
    → IsProgressive b.rd
    → IsProgressive (read k b).1.rd
      × (1 ≤ (read k b).1.size)
      × ((read k b).0.error ≡ none → 1 ≤ (read k b).0.count)
unfolding read charge read_some
read_progress k b hk hs h = elim (Bool-cases (b.n == 0)) [
  | inl zero_ ↦ ground (arith, h)
  | inr more ↦
      let n1 : 1 ≤ b.n = ground arith in
      let (prog1, got1) = read_stream_progress (min k b.n) b.rd (omega arith) h in
      let (prog2, got2) = read_stream_progress (min b.n b.size) b.rd (omega arith) h in
      ground (
        arith,
        h,
        prog1,
        prog2,
        got1,
        got2,
        length-take (min k b.n) b.pending,
        length-take (min k b.n) (read_stream (min b.n b.size) b.rd).got,
      )
]

-- No Read puts more into p than fits, whatever it returns.
pub filled_fits : (k : ℕ) (b : BufLimitReader) → length (read k b).0.filled ≤ k
unfolding read charge read_some
filled_fits k b = ground (
  arith,
  got-le (min k b.n) b.rd,
  length-take (min k b.n) b.pending,
  length-take (min k b.n) (read_stream (min b.n b.size) b.rd).got,
)

-- A reader that gives no bytes together with an error.
abbrev pub IsClean : Stream → Type 0
IsClean = All (λ p. p.error ≢ none → p.bytes ≡ [])

drop_nil : (k : ℕ) → drop {A = ℕ} k [] ≡ []
drop_nil zero = refl
drop_nil (suc k) = refl

read_stream-IsClean :
    (k : ℕ) (s : Stream)
    → IsClean s
    → IsClean (read_stream k s).rest
      × ((read_stream k s).error ≢ none → length (read_stream k s).got ≡ 0)
unfolding read_stream
read_stream-IsClean k [] h = (tt, λ e. refl)
read_stream-IsClean k (p ∷ ps) h = elim (Bool-cases (leb (length p.bytes) k)) [
  | inl whole ↦ rw (whole, read_stream) (h.1, λ e. ap length (h.0 e))
  | inr part ↦
      rw (part, read_stream) (((λ e. ap (drop k) (h.0 e) ∙ drop_nil k), h.1), λ e. absurd (e refl))
]

-- Nor does the limited reader then count bytes with an error.
pub read-IsClean :
    (k : ℕ) (b : BufLimitReader)
    → IsClean b.rd
    → IsClean (read k b).1.rd × ((read k b).0.error ≢ none → (read k b).0.count ≡ 0)
unfolding read charge read_some
read-IsClean k b h =
    let direct = read_stream-IsClean (min k b.n) b.rd h in
    let filling = read_stream-IsClean (min b.n b.size) b.rd h in ground (arith, h, direct, filling)
