-- ===== src/Peer/SyncStatus.antt =====
-- What the sync status says of a peer's head slot.
use nodewatch_api.Base.{
  ℕ, ◌+◌, ◌-◌, ◌*◌, ◌/◌, ◌^◌, ◌≤◌, ◌<◌, ◌≡◌, refl, true, false, arith, leb, leb→le, Bool-cases, inl,
  inr,
}
use nodewatch_api.Base.Int.{
  pos, negsuc, ◌-ℤ◌, ◌*ℤ◌, quot_ℤ, wrap, wrap-pos, wrap-IsInt64, from_bits,
}
use native.Mathlib.Nat.{div-lt_iff_lt-mul}
use nodewatch_api.Peer.{sync_status}

from_bits-lt : (n : ℕ) → n < 2 ^ 63 → from_bits n ≡ pos n
unfolding from_bits
from_bits-lt n h = ground arith

minus_down : (a b : ℕ) → b ≤ a → pos a -ℤ pos b ≡ pos (a - b)
unfolding ◌-ℤ◌
minus_down a b h = ground arith

minus_up : (a b : ℕ) → a < b → pos a -ℤ pos b ≡ negsuc (b - a - 1)
unfolding ◌-ℤ◌
minus_up a b h = ground arith

times_hundred : (a : ℕ) → pos a *ℤ pos 100 ≡ pos (a * 100)
unfolding ◌*ℤ◌
times_hundred a = ground arith

near_status :
    (cb slot : ℕ)
    → cb < 2 ^ 56
    → slot < 2 ^ 63
    → cb ≤ slot + 8192
    → sync_status (pos cb) (pos slot) ≡ record { status = true; distance = pos 0 }
unfolding sync_status
near_status cb slot hc hs near = elim (Bool-cases (leb slot cb)) [
  | inl below ↦
      rw (minus_down cb slot (leb→le slot cb below), wrap-pos (cb - slot) (omega arith))
        (ground arith)
  | inr above ↦
      rw (minus_up cb slot (ground arith), wrap-IsInt64 (negsuc (slot - cb - 1)) (omega arith))
        (ground arith)
]

far_status :
    (cb slot : ℕ)
    → cb < 2 ^ 56
    → slot + 8192 < cb
    → sync_status (pos cb) (pos slot)
      ≡ record { status = false; distance = pos ((cb - slot) * 100 / cb) }
unfolding sync_status quot_ℤ
far_status cb slot hc far =
    rw
      (
        minus_down cb slot (omega arith),
        wrap-pos (cb - slot) (omega arith),
        times_hundred (cb - slot),
        wrap-pos ((cb - slot) * 100) (omega arith),
      )
      (ground arith)

-- For a current block below 2 ^ 56 and a head slot that fits int64: a peer is synced exactly if it is
-- at most 8192 slots behind the current block, being ahead included; its distance is then 0, and
-- otherwise it is the share of the current block that it is behind, rounded down, at most 100.
pub sync_status_lem :
    (cb slot : ℕ)
    → 0 < cb
    → cb < 2 ^ 56
    → slot < 2 ^ 63
    → let s = sync_status (pos cb) (from_bits slot) in
      (cb ≤ slot + 8192 → (s.status ≡ true) × (s.distance ≡ pos 0))
      × (slot + 8192 < cb
          → (s.status ≡ false)
            × (s.distance ≡ pos ((cb - slot) * 100 / cb))
            × ((cb - slot) * 100 / cb ≤ 100))
sync_status_lem cb slot h hc hs = (
  λ near. rw (from_bits-lt slot hs, near_status cb slot hc hs near) (refl, refl),
  λ far.
      let part : (cb - slot) * 100 / cb < 101 = (div-lt_iff_lt-mul h).1 (omega arith) in
      rw (from_bits-lt slot hs, far_status cb slot hc far) (refl, refl, omega arith),
)

high_bits : (x : ℕ) → x < 2 ^ 63 → from_bits (2 ^ 63 + x) ≡ negsuc (2 ^ 63 - x - 1)
unfolding from_bits
high_bits x h = ground arith

minus_high :
    (a x : ℕ) → a < 2 ^ 56 → x ≤ a → pos a -ℤ negsuc (2 ^ 63 - x - 1) ≡ pos (2 ^ 63 + (a - x))
unfolding ◌-ℤ◌
minus_high a x h le = ground arith

wrap_high : (y : ℕ) → y < 2 ^ 63 → wrap (pos (2 ^ 63 + y)) ≡ negsuc (2 ^ 63 - y - 1)
unfolding wrap
wrap_high y h = ground arith

-- A head slot of 2 ^ 63 or a little more is negative as an int64, and how far the peer is behind wraps
-- around: it counts as synced, at any current block that is not below the excess.
pub sync_status_wraps :
    (cb excess : ℕ)
    → cb < 2 ^ 56
    → excess ≤ cb
    → (sync_status (pos cb) (from_bits (2 ^ 63 + excess))).status ≡ true
unfolding sync_status
sync_status_wraps cb excess hc he =
    rw
      (
        high_bits excess (omega arith),
        minus_high cb excess hc he,
        wrap_high (cb - excess) (omega arith),
      )
      (ground arith)
