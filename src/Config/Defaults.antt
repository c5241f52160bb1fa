-- ===== src/Config/Defaults.antt =====
-- What loadForkDefaults promises of the forks.
use nodewatch_api.Base.{
  ℕ, ◌≡◌, ◌≢◌, refl, true, false, Option, none, some, List, [], ◌∷◌, arith, Bool-cases, inl, inr,
  ◌⊎◌, ok, err,
}
use nodewatch_api.Base.Text.{Text}
use nodewatch_api.Clock.{ForkConfig, ForkSchedule}
use nodewatch_api.Store.Queries.{hex_decode}
use nodewatch_api.Config.{
  nil_decoder, decoder_for, fill, fill_altair, fill_all, load_fork_defaults, tree_root,
}

-- A fork that has a digest stays as it is; another keeps whether it is supported, and takes its digest and
-- epoch from the decoder.
abbrev pub IsFilled : ForkConfig → ForkConfig → ForkConfig → Type 0
IsFilled known before after =
    (after.supported ≡ before.supported)
    × (before.fork_digest ≢ [] → after ≡ before)
    × (before.fork_digest ≡ []
        → (after.fork_digest ≡ known.fork_digest) × (after.fork_epoch ≡ known.fork_epoch))

-- Each fork of a schedule is filled in, but Altair only where it is supported.
abbrev pub AreFilled : ForkSchedule → ForkSchedule → ForkSchedule → Type 0
AreFilled known before after =
    ((before.altair.supported ≡ true → IsFilled known.altair before.altair after.altair)
      × (before.altair.supported ≡ false → after.altair ≡ before.altair))
    × IsFilled known.bellatrix before.bellatrix after.bellatrix
    × IsFilled known.capella before.capella after.capella
    × IsFilled known.deneb before.deneb after.deneb
    × IsFilled known.electra before.electra after.electra

text_cases : (t : Text) → (t ≡ []) ⊎ ((c : ℕ) × (cs : Text) × (t ≡ c ∷ cs))
text_cases [] = inl refl
text_cases (c ∷ cs) = inr (c, cs, refl)

-- The outcome of one fill with a decoder.
filled : ForkConfig → ForkConfig → ForkConfig
filled k f = elim f.fork_digest [
  | _ ∷ _ ↦ f
  | [] ↦ record f { fork_digest = k.fork_digest; fork_epoch = k.fork_epoch }
]

module _ (new_fork_decoder : Text → List ℕ → ForkSchedule) where
  fill-filled :
      (k f : ForkConfig)
      → (fill new_fork_decoder (some k) f ≡ ok (filled k f)) × IsFilled k f (filled k f)
  unfolding fill filled
  fill-filled k f = elim (text_cases f.fork_digest) [
    | inl e ↦ rw e (refl, (refl, (λ h. absurd (h refl)), λ h. (refl, refl)))
    | inr (c, cs, e) ↦ rw e (refl, (refl, (λ h. refl), λ h. absurd (ground arith)))
  ]

  altair_on :
      (k f : ForkConfig)
      → f.supported ≡ true
      → fill_altair new_fork_decoder (some k) f ≡ ok (filled k f)
  unfolding fill_altair
  altair_on k f h = let filled_ = (fill-filled k f).0 in ground arith

  altair_off :
      (known : Option ForkConfig) (f : ForkConfig)
      → f.supported ≡ false
      → fill_altair new_fork_decoder known f ≡ ok f
  unfolding fill_altair
  altair_off known f h = ground arith

  fill_all-AreFilled :
      (k s : ForkSchedule)
      → (t : ForkSchedule) × (fill_all new_fork_decoder (some k) s ≡ ok t) × AreFilled k s t
  unfolding fill_all
  fill_all-AreFilled k s =
      let (e1, f1) = fill-filled k.altair s.altair in
      let (e2, f2) = fill-filled k.bellatrix s.bellatrix in
      let (e3, f3) = fill-filled k.capella s.capella in
      let (e4, f4) = fill-filled k.deneb s.deneb in
      let (e5, f5) = fill-filled k.electra s.electra in
      let rest : ForkSchedule = record {
        altair = s.altair;
        bellatrix = filled k.bellatrix s.bellatrix;
        capella = filled k.capella s.capella;
        deneb = filled k.deneb s.deneb;
        electra = filled k.electra s.electra;
      } in
      elim (Bool-cases s.altair.supported) [
        | inl on ↦ (
          record rest { altair = filled k.altair s.altair },
          rw (altair_on k.altair s.altair on, e2, e3, e4, e5, fill_all) refl,
          (((λ h. f1), λ h. absurd (ground arith)), f2, f3, f4, f5),
        )
        | inr off ↦ (
          rest,
          rw (altair_off (some k.altair) s.altair off, e2, e3, e4, e5, fill_all) refl,
          (((λ h. absurd (ground arith)), λ h. refl), f2, f3, f4, f5),
        )
      ]

  -- On a known network, with a root in hex, the defaults are filled in without an error: each fork keeps
  -- the digest that the configuration gives it, with its epoch, and a fork without one takes both from
  -- the network, Altair only if it is supported.
  pub load_fork_defaults_lem :
      (name root : Text) (bytes : List ℕ) (known s : ForkSchedule)
      → hex_decode root ≡ some bytes
      → decoder_for new_fork_decoder name (tree_root bytes) ≡ some known
      → (t : ForkSchedule) × (load_fork_defaults new_fork_decoder name root s ≡ ok t)
        × AreFilled known s t
  unfolding load_fork_defaults
  load_fork_defaults_lem name root bytes known s h k =
      let (t, e, f) = fill_all-AreFilled known s in (t, rw (h, k, load_fork_defaults) e, f)

  unfilled : (f : ForkConfig) → f.fork_digest ≡ [] → fill new_fork_decoder none f ≡ err nil_decoder
  unfolding fill
  unfilled f e = rw e refl

  fill_all_without :
      (s : ForkSchedule)
      → s.altair.supported ≡ false
      → s.bellatrix.fork_digest ≡ []
      → fill_all new_fork_decoder none s ≡ err nil_decoder
  unfolding fill_all
  fill_all_without s off e =
      rw (altair_off none s.altair off, unfilled s.bellatrix e, fill_all) refl

  -- On any other network, a fork of which the configuration gives no digest makes the program panic, even
  -- if the fork is not supported; Altair is the exception that is guarded.
  pub load_fork_defaults_panics :
      (name root : Text) (bytes : List ℕ) (s : ForkSchedule)
      → hex_decode root ≡ some bytes
      → decoder_for new_fork_decoder name (tree_root bytes) ≡ none
      → s.altair.supported ≡ false
      → s.bellatrix.fork_digest ≡ []
      → load_fork_defaults new_fork_decoder name root s ≡ err nil_decoder
  unfolding load_fork_defaults
  load_fork_defaults_panics name root bytes s h k off e =
      rw (h, k, load_fork_defaults) (fill_all_without s off e)
