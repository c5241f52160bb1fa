-- ===== src/Examples/Slots.antt =====
-- Slots, epochs and forks on small numbers.
use nodewatch_api.Base.{ℕ, ◌+◌, ◌/◌, ◌≤◌, ◌≡◌, true, false, List, [], ◌∷◌, arith}
use nodewatch_api.Base.Text.{Text, codes}
use nodewatch_api.Clock.{
  Clock, ForkConfig, ForkSchedule, current_slot, epoch_for_slot, tick_slot, tick_epochs,
  new_fork_choice, monitor,
}
use nodewatch_api.Clock.Slots.{tick_slot_wait}
use nodewatch_api.Clock.Ticks.{Rises, top_epoch, tick_epochs_rise}
use nodewatch_api.Clock.Fork.{last_epoch, scheduled, monitor-scheduled}

abbrev mainnet : Clock
mainnet = record { genesis_time = 1606824023; seconds_per_slot = 12; slots_per_epoch = 32 }

next_slot :
    (1 ≤ (tick_slot mainnet 1606824100).1)
    × (1606824023 ≤ 1606824100 → (tick_slot mainnet 1606824100).1 ≤ 12)
    × (current_slot mainnet (1606824100 + (tick_slot mainnet 1606824100).1)
        ≡ (tick_slot mainnet 1606824100).0 + 1)
next_slot = tick_slot_wait mainnet 1606824100 (omega arith)

ticked_epochs :
    (xs : List ℕ) × (tick_epochs mainnet (64 ∷ 65 ∷ 96 ∷ 40 ∷ 160 ∷ []) ≡ 64 / 32 ∷ xs)
    × Rises (64 / 32) xs
    × (last_epoch (64 / 32) xs ≡ top_epoch mainnet (64 / 32) (65 ∷ 96 ∷ 40 ∷ 160 ∷ []))
ticked_epochs = tick_epochs_rise mainnet 64 (65 ∷ 96 ∷ 40 ∷ 160 ∷ [])

abbrev no_fork : ForkConfig
no_fork = record { supported = false; fork_digest = []; fork_epoch = 0 }

abbrev two_forks : ForkSchedule
two_forks = record {
  altair = record { supported = true; fork_digest = codes "afcaaba0"; fork_epoch = 74240 };
  bellatrix = record { supported = true; fork_digest = codes "4a26c58b"; fork_epoch = 144896 };
  capella = no_fork;
  deneb = no_fork;
  electra = no_fork;
}

abbrev drop_prefix : Text → Text
drop_prefix t = t

monitor-scheduled_example :
    (monitor drop_prefix []
      (new_fork_choice drop_prefix [] mainnet two_forks 1606824100)
      (80000 ∷ 150000 ∷ [])).current_fork_digest
    ≡ scheduled drop_prefix [] two_forks (
        last_epoch (epoch_for_slot mainnet (current_slot mainnet 1606824100)) (80000 ∷ 150000 ∷ []))
monitor-scheduled_example =
    monitor-scheduled drop_prefix [] mainnet two_forks 1606824100 (80000 ∷ 150000 ∷ [])
