-- ===== src/Clock/Ticks.antt =====
-- The epochs that TickEpochs sends.
use nodewatch_api.Base.{ℕ, ◌/◌, ◌<◌, ◌≡◌, refl, true, false, ltb, List, [], ◌∷◌, arith, ap, ◌∙◌}
use nodewatch_api.Clock.{Clock, later_epochs, tick_epochs, epoch_for_slot}
use nodewatch_api.Clock.Fork.{last_epoch}

-- Each number of a list is above the one before it, and the first above a given one.
abbrev pub Rises : ℕ → List ℕ → Type 0
Rises e [] = Unit {0}
Rises e (x ∷ xs) = (e < x) × Rises x xs

-- The largest epoch of a list of slots, or a given one that is larger.
abbrev pub top_epoch : Clock → ℕ → List ℕ → ℕ
top_epoch c e [] = e
top_epoch c e (slot ∷ slots) =
    top_epoch c
      (elim (ltb e (slot / c.slots_per_epoch)) [ true ↦ slot / c.slots_per_epoch | false ↦ e ])
      slots

later_epochs_lem :
    (c : Clock) (e : ℕ) (slots : List ℕ)
    → Rises e (later_epochs c e slots)
      × (last_epoch e (later_epochs c e slots) ≡ top_epoch c e slots)
unfolding later_epochs
later_epochs_lem c e [] = (tt, refl)
later_epochs_lem c e (slot ∷ slots) =
    ground (arith, later_epochs_lem c (slot / c.slots_per_epoch) slots, later_epochs_lem c e slots)

-- Whatever slots come in, TickEpochs first sends the epoch of the first of them, then only ever larger
-- epochs, and the last that it has sent is the largest epoch of all the slots.
pub tick_epochs_rise :
    (c : Clock) (slot : ℕ) (slots : List ℕ)
    → let first = slot / c.slots_per_epoch in
      (xs : List ℕ) × (tick_epochs c (slot ∷ slots) ≡ first ∷ xs)
      × Rises first xs
      × (last_epoch first xs ≡ top_epoch c first slots)
unfolding tick_epochs
tick_epochs_rise c slot slots =
    let first = slot / c.slots_per_epoch in
    let (r, l) = later_epochs_lem c first slots in (later_epochs c first slots, refl, r, l)

-- Whatever epoch was there before, the last one is then the largest of all the slots.
pub last_epoch-tick_epochs :
    (c : Clock) (before slot : ℕ) (slots : List ℕ)
    → last_epoch before (tick_epochs c (slot ∷ slots)) ≡ top_epoch c (epoch_for_slot c slot) slots
unfolding epoch_for_slot
last_epoch-tick_epochs c before slot slots =
    let (xs, e, r, l) = tick_epochs_rise c slot slots in ap (last_epoch before) e ∙ l
