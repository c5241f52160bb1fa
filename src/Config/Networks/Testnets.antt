-- ===== src/Config/Networks/Testnets.antt =====
-- goerli and holesky without Electra: the fork choice follows the epochs of the specification.
use nodewatch_api.Base.{
  ℕ, ◌≤◌, ◌<◌, ◌≡◌, ◌⊎◌, inl, inr, false, some, List, ◌∷◌, ap, ok, arith, ◌∙◌, sym, subst,
}
use nodewatch_api.Base.Text.{Text, codes}
use nodewatch_api.Clock.{Clock, ForkSchedule, current_slot, epoch_for_slot, tick_epochs}
use nodewatch_api.Clock.Ticks.{top_epoch, last_epoch-tick_epochs}
use nodewatch_api.Clock.Fork.{last_active, scheduled, monitor-scheduled}
use nodewatch_api.Store.Queries.{hex_decode}
use nodewatch_api.Config.{decoder_for, load_fork_defaults, tree_root}
use nodewatch_api.Config.Defaults.{AreFilled, load_fork_defaults_lem}
use nodewatch_api.Config.Networks.{Spec, HasEpochs}
use nodewatch_api.Config.Networks.Goerli.{goerli}
use nodewatch_api.Config.Networks.Holesky.{holesky}
use nodewatch_api.Config.Networks.Schedules.{
  KeepsSpec, IsLeftOpen, IsTaken, taken, goerli_known, holesky_known, digest_after,
}

-- One of the two networks, with its specification.
abbrev pub IsTestnet : Text → Spec → Type 0
IsTestnet name spec =
    ((name ≡ codes "goerli") × (spec ≡ goerli)) ⊎ ((name ≡ codes "holesky") × (spec ≡ holesky))

-- The forks of a specification come in their order.
abbrev AreOrdered : Spec → Type 0
AreOrdered spec =
    (spec.config.altair_fork_epoch ≤ spec.config.bellatrix_fork_epoch)
    × (spec.config.bellatrix_fork_epoch ≤ spec.config.capella_fork_epoch)
    × (spec.config.capella_fork_epoch ≤ spec.config.deneb_fork_epoch)

testnet_ordered : (name : Text) (spec : Spec) → IsTestnet name spec → AreOrdered spec
testnet_ordered name spec t = elim t [
  | inl (n, e) ↦ rw e (omega arith, omega arith, omega arith)
  | inr (n, e) ↦ rw e (omega arith, omega arith, omega arith)
]

-- The forks up to Deneb are left to the network, and Electra is not supported.
abbrev pub AreBeforeElectra : ForkSchedule → Type 0
AreBeforeElectra s =
    IsLeftOpen s.altair
    × IsLeftOpen s.bellatrix
    × IsLeftOpen s.capella
    × IsLeftOpen s.deneb
    × (s.electra.supported ≡ false)

abbrev AreTakenBefore : ForkSchedule → ForkSchedule → Type 0
AreTakenBefore known s =
    IsTaken known.altair s.altair
    × IsTaken known.bellatrix s.bellatrix
    × IsTaken known.capella s.capella
    × IsTaken known.deneb s.deneb
    × (s.electra.supported ≡ false)

all_taken_before :
    (known before after : ForkSchedule)
    → AreBeforeElectra before
    → AreFilled known before after
    → AreTakenBefore known after
all_taken_before known before after (a, b, c, d, off) ((fa, _), fb, fc, fd, fe) = (
  taken known.altair before.altair after.altair a (fa (a.0)),
  taken known.bellatrix before.bellatrix after.bellatrix b fb,
  taken known.capella before.capella after.capella c fc,
  taken known.deneb before.deneb after.deneb d fd,
  fe.0 ∙ off,
)

module _ (parse_digest : Text → Text) (zero_digest : Text) where
  -- The digest of each span of a specification's epochs, for the digests of a schedule.
  abbrev pub IsSpecDigest : Spec → ForkSchedule → ℕ → Text → Type 0
  IsSpecDigest spec d epoch digest =
      let config = spec.config in
      (config.deneb_fork_epoch ≤ epoch → digest ≡ parse_digest d.deneb.fork_digest)
      × (config.capella_fork_epoch ≤ epoch
          → epoch < config.deneb_fork_epoch
          → digest ≡ parse_digest d.capella.fork_digest)
      × (config.bellatrix_fork_epoch ≤ epoch
          → epoch < config.capella_fork_epoch
          → digest ≡ parse_digest d.bellatrix.fork_digest)
      × (config.altair_fork_epoch ≤ epoch
          → epoch < config.bellatrix_fork_epoch
          → digest ≡ parse_digest d.altair.fork_digest)
      × (epoch < config.altair_fork_epoch → digest ≡ zero_digest)

  spec_scheduled :
      (spec : Spec) (d s : ForkSchedule) (epoch : ℕ)
      → AreOrdered spec
      → HasEpochs d spec
      → AreTakenBefore d s
      → IsSpecDigest spec d epoch (scheduled parse_digest zero_digest s epoch)
  unfolding last_active
  spec_scheduled spec d s epoch (o1, o2, o3) (e1, e2, e3, e4, e5)
        ((a, x, p), (b, y, q), (c, z, r), (dn, v, t), off) =
      (
        λ h. ground arith,
        (λ h i. ground arith),
        (λ h i. ground arith),
        (λ h i. ground arith),
        λ h. ground arith,
      )

  module _ (new_fork_decoder : Text → List ℕ → ForkSchedule) where
    testnet_known :
        (name : Text) (spec : Spec) (root : List ℕ)
        → KeepsSpec new_fork_decoder
        → IsTestnet name spec
        → (decoder_for new_fork_decoder name root ≡ some (new_fork_decoder name root))
          × HasEpochs (new_fork_decoder name root) spec
    testnet_known name spec root k t = elim t [
      | inl (n, e) ↦ rw (n, e) (goerli_known new_fork_decoder root, k.keeps_goerli root)
      | inr (n, e) ↦ rw (n, e) (holesky_known new_fork_decoder root, k.keeps_holesky root)
    ]

    -- On goerli or holesky, where the decoder keeps the specification of the network, with a root in hex,
    -- with the forks up to Deneb supported and none of their digests configured, and without Electra: once
    -- a slot has come in, Fork returns the digest that the decoder gives for the span of the specification's
    -- epochs in which the largest epoch of the slots so far lies, or the zero digest before Altair.
    pub testnet_followed :
        (name root : Text) (spec : Spec) (bytes : List ℕ) (s : ForkSchedule) (c : Clock)
        (now slot : ℕ) (slots : List ℕ)
        → KeepsSpec new_fork_decoder
        → IsTestnet name spec
        → hex_decode root ≡ some bytes
        → AreBeforeElectra s
        → (t : ForkSchedule) × (load_fork_defaults new_fork_decoder name root s ≡ ok t)
          × IsSpecDigest spec
              (new_fork_decoder name (tree_root bytes))
              (top_epoch c (epoch_for_slot c slot) slots)
              (digest_after parse_digest zero_digest c t now (tick_epochs c (slot ∷ slots)))
    testnet_followed name root spec bytes s c now slot slots k n h o =
        let d = new_fork_decoder name (tree_root bytes) in
        let last = top_epoch c (epoch_for_slot c slot) slots in
        let (known, epochs_of) = testnet_known name spec (tree_root bytes) k n in
        let (t, e, f) = load_fork_defaults_lem new_fork_decoder name root bytes d s h known in
        let right =
          spec_scheduled spec d t last (testnet_ordered name spec n) epochs_of
            (all_taken_before d s t o f) in
        let digest =
          monitor-scheduled parse_digest zero_digest c t now (tick_epochs c (slot ∷ slots))
          ∙ ap (scheduled parse_digest zero_digest t)
              (last_epoch-tick_epochs c (epoch_for_slot c (current_slot c now)) slot slots) in
        (t, e, subst (IsSpecDigest spec d last) (sym digest) right)
