-- ===== src/Clock/Fork.antt =====
-- The fork digest that the crawler compares nodes with.
use nodewatch_api.Base.{
  ℕ, ◌≡◌, refl, ◌&&◌, leb, if◌then◌else◌, List, [], ◌∷◌, arith, ◌∙◌, sym, ap, Bool-cases, inl, inr,
}
use nodewatch_api.Base.Text.{Text, text_eq, text_eq_sound}
use nodewatch_api.Clock.{
  Clock, ForkConfig, ForkSchedule, ForkChoice, get_fork_for_epoch, new_fork_choice, on_epoch,
  monitor, current_slot, epoch_for_slot,
}

-- The forks in the order in which they come.
abbrev pub forks : ForkSchedule → List ForkConfig
forks s = s.altair ∷ s.bellatrix ∷ s.capella ∷ s.deneb ∷ s.electra ∷ []

-- The last of a list of epochs, or a given one.
abbrev pub last_epoch : ℕ → List ℕ → ℕ
last_epoch e [] = e
last_epoch e (x ∷ xs) = last_epoch x xs

module _ (parse_digest : Text → Text) (zero_digest : Text) where
  -- The digest of the last fork of a list that is supported and has begun, or else a given one.
  unfoldable pub last_active : List ForkConfig → ℕ → Text → Text
  last_active [] epoch d = d
  last_active (f ∷ fs) epoch d =
      last_active fs epoch
        (if leb f.fork_epoch epoch && f.supported then parse_digest f.fork_digest else d)

  -- The digest that a schedule gives for an epoch.
  abbrev pub scheduled : ForkSchedule → ℕ → Text
  scheduled s epoch = last_active (forks s) epoch zero_digest

  -- The tests from the newest fork down give the schedule's digest for the current epoch.
  pub get_fork_for_epoch-scheduled :
      (f : ForkChoice) (epoch : ℕ)
      → get_fork_for_epoch parse_digest zero_digest f epoch
        ≡ scheduled f.fork_config f.current_epoch
  unfolding get_fork_for_epoch last_active
  get_fork_for_epoch-scheduled f epoch = ground arith

  -- The current digest is the schedule's for the current epoch.
  abbrev pub IsCurrent : ForkChoice → Type 0
  IsCurrent f = f.current_fork_digest ≡ scheduled f.fork_config f.current_epoch

  on_epoch-IsCurrent :
      (f : ForkChoice) (epoch : ℕ)
      → let f' = on_epoch parse_digest zero_digest f epoch in
        IsCurrent f' × (f'.current_epoch ≡ epoch) × (f'.fork_config ≡ f.fork_config)
  unfolding on_epoch
  on_epoch-IsCurrent f epoch =
      let digest =
        get_fork_for_epoch parse_digest zero_digest (record f { current_epoch = epoch }) epoch in
      let right = get_fork_for_epoch-scheduled (record f { current_epoch = epoch }) epoch in
      elim (Bool-cases (text_eq digest f.current_fork_digest)) [
        | inl same ↦
            let unchanged = sym (text_eq_sound digest f.current_fork_digest same) ∙ right in
            rw same (unchanged, refl, refl)
        | inr new ↦ rw new (right, refl, refl)
      ]

  monitor-IsCurrent :
      (f : ForkChoice) (epochs : List ℕ)
      → IsCurrent f
      → (monitor parse_digest zero_digest f epochs).current_fork_digest
        ≡ scheduled f.fork_config (last_epoch f.current_epoch epochs)
  unfolding monitor
  monitor-IsCurrent f [] h = h
  monitor-IsCurrent f (e ∷ es) h =
      let (now, epoch, config) = on_epoch-IsCurrent f e in
      monitor-IsCurrent (on_epoch parse_digest zero_digest f e) es now
      ∙ ap (λ s. scheduled s (last_epoch (on_epoch parse_digest zero_digest f e).current_epoch es))
          config
      ∙ ap (λ n. scheduled f.fork_config (last_epoch n es)) epoch

  -- From its start on, and after whatever epochs have come in, the digest that Fork returns is that of
  -- the last supported fork of the schedule that has begun in the epoch that came in last, or at the
  -- start in the epoch of the current time.
  pub monitor-scheduled :
      (c : Clock) (schedule : ForkSchedule) (now : ℕ) (epochs : List ℕ)
      → (monitor parse_digest zero_digest
          (new_fork_choice parse_digest zero_digest c schedule now)
          epochs).current_fork_digest
        ≡ scheduled schedule (last_epoch (epoch_for_slot c (current_slot c now)) epochs)
  unfolding new_fork_choice
  monitor-scheduled c schedule now epochs =
      let start : ForkChoice = record {
        clock = c;
        fork_config = schedule;
        current_epoch = epoch_for_slot c (current_slot c now);
        current_fork_digest = zero_digest;
      } in
      monitor-IsCurrent (new_fork_choice parse_digest zero_digest c schedule now) epochs
        (get_fork_for_epoch-scheduled start start.current_epoch)

  -- From the start on.
  pub new_fork_choice-scheduled :
      (c : Clock) (schedule : ForkSchedule) (now : ℕ)
      → (new_fork_choice parse_digest zero_digest c schedule now).current_fork_digest
        ≡ scheduled schedule (epoch_for_slot c (current_slot c now))
  unfolding monitor
  new_fork_choice-scheduled c schedule now = monitor-scheduled c schedule now []
