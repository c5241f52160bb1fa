-- ===== src/Config/Networks/Schedules.antt =====
-- The schedules of forks that a network's defaults give, as the fork choice reads them.
use nodewatch_api.Base.{
  ℕ, ◌≤◌, ◌<◌, ◌≡◌, ◌⊎◌, inl, inr, refl, true, some, List, [], arith, ok, ◌∙◌, sym, ap, subst,
}
use nodewatch_api.Base.Text.{Text, codes, text_eq}
use nodewatch_api.Clock.{
  Clock, ForkConfig, ForkSchedule, monitor, new_fork_choice, current_slot, epoch_for_slot,
}
use nodewatch_api.Clock.Fork.{last_epoch, last_active, scheduled, monitor-scheduled}
use nodewatch_api.Store.Queries.{hex_decode}
use nodewatch_api.Config.{decoder_for, load_fork_defaults, mainnet_epochs, tree_root}
use nodewatch_api.Config.Defaults.{IsFilled, AreFilled, load_fork_defaults_lem}
use nodewatch_api.Config.Networks.{HasEpochs}
use nodewatch_api.Config.Networks.Goerli.{goerli}
use nodewatch_api.Config.Networks.Holesky.{holesky}

-- beacon.NewForkDecoder keeps the specification that it is given, whose epochs loadForkDefaults reads.
pub record KeepsSpec (new_fork_decoder : Text → List ℕ → ForkSchedule) : Type 0 where
  pub keeps_goerli : (root : List ℕ) → HasEpochs (new_fork_decoder (codes "goerli") root) goerli
  pub keeps_holesky : (root : List ℕ) → HasEpochs (new_fork_decoder (codes "holesky") root) holesky

module _ (new_fork_decoder : Text → List ℕ → ForkSchedule) where
  mainnet_known :
      (root : List ℕ)
      → decoder_for new_fork_decoder (codes "mainnet") root
        ≡ some (mainnet_epochs (new_fork_decoder (codes "mainnet") root))
  unfolding decoder_for text_eq
  mainnet_known root = refl

  pub goerli_known :
      (root : List ℕ)
      → decoder_for new_fork_decoder (codes "goerli") root
        ≡ some (new_fork_decoder (codes "goerli") root)
  unfolding decoder_for text_eq
  goerli_known root = refl

  pub holesky_known :
      (root : List ℕ)
      → decoder_for new_fork_decoder (codes "holesky") root
        ≡ some (new_fork_decoder (codes "holesky") root)
  unfolding decoder_for text_eq
  holesky_known root = refl

  -- Both networks are known, and have no epoch for Electra.
  without_electra :
      KeepsSpec new_fork_decoder
      → (name : Text) (root : List ℕ) → (name ≡ codes "goerli") ⊎ (name ≡ codes "holesky")
      → (decoder_for new_fork_decoder name root ≡ some (new_fork_decoder name root))
        × ((new_fork_decoder name root).electra.fork_epoch ≡ 0)
  without_electra k name root n = elim n [
    | inl e ↦ rw e (goerli_known root, (k.keeps_goerli root).4)
    | inr e ↦ rw e (holesky_known root, (k.keeps_holesky root).4)
  ]

-- What a configuration leaves to the network: a fork is supported and has no digest.
abbrev pub IsLeftOpen : ForkConfig → Type 0
IsLeftOpen f = (f.supported ≡ true) × (f.fork_digest ≡ [])

abbrev pub AreLeftOpen : ForkSchedule → Type 0
AreLeftOpen s =
    IsLeftOpen s.altair
    × IsLeftOpen s.bellatrix
    × IsLeftOpen s.capella
    × IsLeftOpen s.deneb
    × IsLeftOpen s.electra

-- The same fork, as the fork choice reads it: supported, with the network's digest and epoch.
abbrev pub IsTaken : ForkConfig → ForkConfig → Type 0
IsTaken known f =
    (f.supported ≡ true) × (f.fork_digest ≡ known.fork_digest) × (f.fork_epoch ≡ known.fork_epoch)

abbrev pub AreTaken : ForkSchedule → ForkSchedule → Type 0
AreTaken known s =
    IsTaken known.altair s.altair
    × IsTaken known.bellatrix s.bellatrix
    × IsTaken known.capella s.capella
    × IsTaken known.deneb s.deneb
    × IsTaken known.electra s.electra

pub taken :
    (known before after : ForkConfig)
    → IsLeftOpen before
    → IsFilled known before after
    → IsTaken known after
taken known before after (on, empty) (same, kept, filled) =
    let (digest, epoch) = filled empty in (same ∙ on, digest, epoch)

all_taken :
    (known before after : ForkSchedule)
    → AreLeftOpen before
    → AreFilled known before after
    → AreTaken known after
all_taken known before after (a, b, c, d, e) ((fa, off), fb, fc, fd, fe) = (
  taken known.altair before.altair after.altair a (fa (a.0)),
  taken known.bellatrix before.bellatrix after.bellatrix b fb,
  taken known.capella before.capella after.capella c fc,
  taken known.deneb before.deneb after.deneb d fd,
  taken known.electra before.electra after.electra e fe,
)

module _ (parse_digest : Text → Text) (zero_digest : Text) where
  -- A supported last fork that begins with epoch 0 is the fork of every epoch.
  at_once :
      (s : ForkSchedule) (epoch : ℕ)
      → s.electra.supported ≡ true
      → s.electra.fork_epoch ≡ 0
      → scheduled parse_digest zero_digest s epoch ≡ parse_digest s.electra.fork_digest
  unfolding last_active
  at_once s epoch h e = ground arith

  -- The digest of each span of mainnet's epochs, for the digests of a schedule.
  abbrev pub IsMainnetDigest : ForkSchedule → ℕ → Text → Type 0
  IsMainnetDigest d epoch digest =
      (364032 ≤ epoch → digest ≡ parse_digest d.electra.fork_digest)
      × (269568 ≤ epoch → epoch < 364032 → digest ≡ parse_digest d.deneb.fork_digest)
      × (194048 ≤ epoch → epoch < 269568 → digest ≡ parse_digest d.capella.fork_digest)
      × (144896 ≤ epoch → epoch < 194048 → digest ≡ parse_digest d.bellatrix.fork_digest)
      × (74240 ≤ epoch → epoch < 144896 → digest ≡ parse_digest d.altair.fork_digest)
      × (epoch < 74240 → digest ≡ zero_digest)

  mainnet_scheduled :
      (d s : ForkSchedule) (epoch : ℕ)
      → AreTaken (mainnet_epochs d) s
      → IsMainnetDigest d epoch (scheduled parse_digest zero_digest s epoch)
  unfolding last_active
  mainnet_scheduled d s epoch ((a, x, p), (b, y, q), (c, z, r), (dn, v, t), (e, w, u)) = (
    λ h. ground arith,
    (λ h i. ground arith),
    (λ h i. ground arith),
    (λ h i. ground arith),
    (λ h i. ground arith),
    λ h. ground arith,
  )

  -- The digest that Fork returns after some epochs have come in.
  abbrev pub digest_after : Clock → ForkSchedule → ℕ → List ℕ → Text
  digest_after c s now epochs =
      (monitor parse_digest zero_digest (new_fork_choice parse_digest zero_digest c s now)
        epochs).current_fork_digest

  abbrev pub epoch_after : Clock → ℕ → List ℕ → ℕ
  epoch_after c now epochs = last_epoch (epoch_for_slot c (current_slot c now)) epochs

  module _ (new_fork_decoder : Text → List ℕ → ForkSchedule) where
    -- On mainnet, with all forks supported and none of their digests configured, and with a root in hex:
    -- at the start and after whatever epochs have come in, Fork returns the digest that the decoder gives
    -- for the span of mainnet's epochs in which the last of them lies, or the zero digest before Altair.
    pub mainnet_followed :
        (root : Text) (bytes : List ℕ) (s : ForkSchedule) (c : Clock) (now : ℕ) (epochs : List ℕ)
        → hex_decode root ≡ some bytes
        → AreLeftOpen s
        → (t : ForkSchedule) × (load_fork_defaults new_fork_decoder (codes "mainnet") root s ≡ ok t)
          × IsMainnetDigest
              (new_fork_decoder (codes "mainnet") (tree_root bytes))
              (epoch_after c now epochs)
              (digest_after c t now epochs)
    mainnet_followed root bytes s c now epochs h o =
        let d = new_fork_decoder (codes "mainnet") (tree_root bytes) in
        let known = mainnet_known new_fork_decoder (tree_root bytes) in
        let (t, e, f) =
          load_fork_defaults_lem new_fork_decoder (codes "mainnet") root bytes (mainnet_epochs d) s
            h known in
        let right =
          mainnet_scheduled d t (epoch_after c now epochs) (all_taken (mainnet_epochs d) s t o f) in
        (
          t,
          e,
          subst (IsMainnetDigest d (epoch_after c now epochs))
              (sym (monitor-scheduled parse_digest zero_digest c t now epochs)) right,
        )

    -- On goerli or holesky, where the decoder keeps the specification of the network, and with a root
    -- in hex: when a configuration supports Electra and gives it no digest, Fork returns Electra's
    -- digest from the start on, in every epoch.
    pub electra_from_start :
        (name root : Text) (bytes : List ℕ) (s : ForkSchedule) (c : Clock) (now : ℕ)
        (epochs : List ℕ)
        → KeepsSpec new_fork_decoder
        → (name ≡ codes "goerli") ⊎ (name ≡ codes "holesky")
        → hex_decode root ≡ some bytes
        → IsLeftOpen s.electra
        → (t : ForkSchedule) × (load_fork_defaults new_fork_decoder name root s ≡ ok t)
          × (digest_after c t now epochs
              ≡ parse_digest (new_fork_decoder name (tree_root bytes)).electra.fork_digest)
    electra_from_start name root bytes s c now epochs k n h o =
        let d = new_fork_decoder name (tree_root bytes) in
        let (known, zero_) = without_electra new_fork_decoder k name (tree_root bytes) n in
        let (t, e, f) = load_fork_defaults_lem new_fork_decoder name root bytes d s h known in
        let (on, digest, epoch) = taken d.electra s.electra t.electra o (f.4) in
        (
          t,
          e,
          monitor-scheduled parse_digest zero_digest c t now epochs
              ∙ at_once t (epoch_after c now epochs) on (epoch ∙ zero_)
              ∙ ap parse_digest digest,
        )
