-- ===== src/Clock.antt =====
-- utils/clock/clock.go and utils/fork/fork.go: slots, epochs and the current fork digest. Times are
-- whole seconds from the Unix epoch on, small enough for int64, so that they are natural numbers.
pub mod Slots
pub mod Ticks
pub mod Fork
use nodewatch_api.Base.{
  ℕ, zero, suc, ◌+◌, ◌-◌, ◌*◌, ◌/◌, Bool, true, false, ◌&&◌, ◌||◌, ◌==◌, Option, none, some, List,
  [], ◌∷◌, ltb, leb, if◌then◌else◌,
}
use nodewatch_api.Base.Text.{Text, text_eq}

pub record Clock : Type 0 where
  pub genesis_time : ℕ
  pub seconds_per_slot : ℕ
  pub slots_per_epoch : ℕ

-- NewClock
pub new_clock : ℕ → ℕ → ℕ → Clock
new_clock genesis_time seconds_per_slot slots_per_epoch = record {
  genesis_time = genesis_time;
  seconds_per_slot = seconds_per_slot;
  slots_per_epoch = slots_per_epoch;
}

-- SlotInSeconds
pub slot_in_seconds : Clock → ℕ → ℕ
slot_in_seconds c slot = slot * c.seconds_per_slot + c.genesis_time

-- CurrentSlot: 0 before genesis.
pub current_slot : Clock → ℕ → ℕ
current_slot c current_time =
    if ltb current_time c.genesis_time
    then 0
    else (current_time - c.genesis_time) / c.seconds_per_slot

-- Whether CurrentSlot or EpochForSlot panics at a time: Go does not divide by zero. What stands below is
-- about clocks on which they do not.
unfoldable pub divides_by_zero : Clock → ℕ → Bool
divides_by_zero c now = leb c.genesis_time now && c.seconds_per_slot == 0 || c.slots_per_epoch == 0

-- EpochForSlot
pub epoch_for_slot : Clock → ℕ → ℕ
epoch_for_slot c slot = slot / c.slots_per_epoch

-- One round of TickSlots at time `now`: the slot that is sent, and the seconds to wait.
pub tick_slot : Clock → ℕ → ℕ × ℕ
unfolding current_slot slot_in_seconds
tick_slot c now = let slot = current_slot c now in (slot, slot_in_seconds c (slot + 1) - now)

-- TickSlots, where a wait of `d` seconds from `now` ends at `now + d` and `late` more seconds: one
-- round for each entry, until the context is done.
pub tick_slots : Clock → ℕ → List ℕ → List ℕ
unfolding tick_slot
tick_slots c now [] = (tick_slot c now).0 ∷ []
tick_slots c now (late ∷ rest) =
    let (slot, wait) = tick_slot c now in slot ∷ tick_slots c (now + wait + late) rest

-- The loop of TickEpochs over the slots behind the first.
pub later_epochs : Clock → ℕ → List ℕ → List ℕ
later_epochs c current [] = []
later_epochs c current (slot ∷ slots) =
    let epoch = slot / c.slots_per_epoch in
    elim (ltb current epoch) [
      | true ↦ epoch ∷ later_epochs c epoch slots
      | false ↦ later_epochs c current slots
    ]

-- TickEpochs, from the slots that TickSlots sends. From a channel that is closed before the first
-- slot comes the slot 0.
pub tick_epochs : Clock → List ℕ → List ℕ
unfolding later_epochs
tick_epochs c [] = 0 / c.slots_per_epoch ∷ []
tick_epochs c (slot ∷ slots) =
    slot / c.slots_per_epoch ∷ later_epochs c (slot / c.slots_per_epoch) slots

-- ForkConfig and Fork of utils/config/config.go, without the genesis fork, which fork.go never reads.
pub record ForkConfig : Type 0 where
  pub supported : Bool
  pub fork_digest : Text
  pub fork_epoch : ℕ

pub record ForkSchedule : Type 0 where
  pub altair : ForkConfig
  pub bellatrix : ForkConfig
  pub capella : ForkConfig
  pub deneb : ForkConfig
  pub electra : ForkConfig

pub record ForkChoice : Type 0 where
  pub clock : Clock
  pub fork_config : ForkSchedule
  pub current_epoch : ℕ
  pub current_fork_digest : Text

-- The parser of digests is common.ForkDigest.UnmarshalText: on a text that it refuses, a digest stays
-- what it was, all zero. It is a parameter, from the text to the resulting digest.
module _ (parse_digest : Text → Text) (zero_digest : Text) where
  is_active : ForkConfig → ℕ → Bool
  is_active fork epoch = leb fork.fork_epoch epoch && fork.supported

  -- getForkForEpoch. Its argument is only printed: the epoch that counts is the current one.
  pub get_fork_for_epoch : ForkChoice → ℕ → Text
  unfolding is_active
  get_fork_for_epoch f epoch =
      let forks = f.fork_config in
      let now = f.current_epoch in
      if is_active forks.electra now
      then parse_digest forks.electra.fork_digest
      else if is_active forks.deneb now
      then parse_digest forks.deneb.fork_digest
      else if is_active forks.capella now
      then parse_digest forks.capella.fork_digest
      else if is_active forks.bellatrix now
      then parse_digest forks.bellatrix.fork_digest
      else if is_active forks.altair now
      then parse_digest forks.altair.fork_digest
      else zero_digest

  -- NewForkChoice, with what Start does at time `now` before it starts to monitor.
  pub new_fork_choice : Clock → ForkSchedule → ℕ → ForkChoice
  new_fork_choice c schedule now =
      let f : ForkChoice = record {
        clock = c;
        fork_config = schedule;
        current_epoch = epoch_for_slot c (current_slot c now);
        current_fork_digest = zero_digest;
      } in
      record f { current_fork_digest = get_fork_for_epoch f f.current_epoch }

  -- What monitorForkChange does with one epoch.
  pub on_epoch : ForkChoice → ℕ → ForkChoice
  on_epoch f epoch =
      let f' = record f { current_epoch = epoch } in
      let digest = get_fork_for_epoch f' epoch in
      if text_eq digest f.current_fork_digest
      then f'
      else record f' { current_fork_digest = digest }

  -- The epochs that come through the channel, one after the other.
  pub monitor : ForkChoice → List ℕ → ForkChoice
  monitor f [] = f
  monitor f (epoch ∷ epochs) = monitor (on_epoch f epoch) epochs
