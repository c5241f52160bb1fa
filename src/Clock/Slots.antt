-- ===== src/Clock/Slots.antt =====
-- Slots against times, and the waits of TickSlots.
use nodewatch_api.Base.{
  ℕ, ◌+◌, ◌-◌, ◌*◌, ◌/◌, ◌≤◌, ◌<◌, ◌≡◌, arith, ltb, ltb-false, ltb→lt, Bool-cases, inl, inr,
}
use nodewatch_api.Clock.{Clock, slot_in_seconds, current_slot, tick_slot}
use native.Mathlib.Nat.{le-div_iff_mul-le, div-lt_iff_lt-mul}

unique_slot :
    (c : Clock) (slot t : ℕ)
    → 0 < c.seconds_per_slot
    → slot * c.seconds_per_slot + c.genesis_time ≤ t
    → t < (slot + 1) * c.seconds_per_slot + c.genesis_time
    → current_slot c t ≡ slot
unfolding current_slot
unique_slot c slot t h lo hi =
    let a : slot ≤ (t - c.genesis_time) / c.seconds_per_slot =
      (le-div_iff_mul-le h).1 (omega arith) in
    let b : (t - c.genesis_time) / c.seconds_per_slot < slot + 1 =
      (div-lt_iff_lt-mul h).1 (omega arith) in
    rw (ltb-false t c.genesis_time (omega arith)) (omega arith)

-- At every moment of a slot, from its start to the start of the next, that slot is the current one.
pub current_slot-slot_in_seconds :
    (c : Clock) (slot offset : ℕ)
    → offset < c.seconds_per_slot
    → current_slot c (slot_in_seconds c slot + offset) ≡ slot
unfolding current_slot slot_in_seconds
current_slot-slot_in_seconds c slot offset h =
    unique_slot c slot (slot_in_seconds c slot + offset) (omega arith) (omega arith) (omega arith)

-- From genesis on, the current slot has started and the next one has not.
pub current_slot_bounds :
    (c : Clock) (now : ℕ)
    → 0 < c.seconds_per_slot
    → c.genesis_time ≤ now
    → (slot_in_seconds c (current_slot c now) ≤ now)
      × (now < slot_in_seconds c (current_slot c now + 1))
unfolding current_slot slot_in_seconds
current_slot_bounds c now h g =
    let q = (now - c.genesis_time) / c.seconds_per_slot in
    let a : q * c.seconds_per_slot ≤ now - c.genesis_time =
      (le-div_iff_mul-le {x = q} h).0 (omega arith) in
    let b : now - c.genesis_time < (q + 1) * c.seconds_per_slot =
      (div-lt_iff_lt-mul {y = q + 1} h).0 (omega arith) in
    rw (ltb-false now c.genesis_time g) (omega arith, omega arith)

next_start :
    (c : Clock) (now : ℕ)
    → 0 < c.seconds_per_slot
    → now < slot_in_seconds c (current_slot c now + 1)
next_start c now h = elim (Bool-cases (ltb now c.genesis_time)) [
  | inl early ↦
      let lt = ltb→lt now c.genesis_time early in
      unfold current_slot slot_in_seconds in rw early (omega arith)
  | inr late ↦ (current_slot_bounds c now h (ground arith)).1
]

-- TickSlots waits for at least a second and, from genesis on, for a slot at most; when it wakes up on
-- time, the current slot is the one behind the slot that it has sent.
pub tick_slot_wait :
    (c : Clock) (now : ℕ)
    → 0 < c.seconds_per_slot
    → (1 ≤ (tick_slot c now).1)
      × (c.genesis_time ≤ now → (tick_slot c now).1 ≤ c.seconds_per_slot)
      × (current_slot c (now + (tick_slot c now).1) ≡ (tick_slot c now).0 + 1)
unfolding tick_slot
tick_slot_wait c now h =
    let later = next_start c now h in
    let slot = current_slot c now in
    let wakes : now + (slot_in_seconds c (slot + 1) - now) ≡ slot_in_seconds c (slot + 1) + 0 =
      omega arith in
    (
      omega arith,
      λ g.
          let (lo, hi) = current_slot_bounds c now h g in
          let step : slot_in_seconds c (slot + 1) ≡ slot_in_seconds c slot + c.seconds_per_slot =
            unfold slot_in_seconds in omega arith in
          omega arith,
      rw wakes (current_slot-slot_in_seconds c (slot + 1) 0 h),
    )
