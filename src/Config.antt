-- ===== src/Config.antt =====
-- utils/config/config.go: loadForkDefaults, which fills in what the configuration leaves out of the forks.
-- The decoder of forks, of the beacon library, is a parameter.
pub mod Defaults
pub mod Load
pub mod Networks
use nodewatch_api.Base.{
  ℕ, ◌-◌, Bool, true, false, ◌&&◌, Option, none, some, List, [], ◌∷◌, ◌++◌, length, take, replicate,
  if◌then◌else◌, Result, ok, err,
}
use nodewatch_api.Base.Text.{Text, codes, text_eq}
use nodewatch_api.Clock.{ForkConfig, ForkSchedule}
use nodewatch_api.Store.Queries.{hex_decode}

-- A root that is not hex, and the panic on a decoder that is nil.
pub data ConfigError : Type 0 where
  invalid_root nil_decoder : ConfigError

-- The mainnet epochs that are written in the code replace those of the specification.
abbrev pub mainnet_epochs : ForkSchedule → ForkSchedule
mainnet_epochs s = record {
  altair = record s.altair { fork_epoch = 74240 };
  bellatrix = record s.bellatrix { fork_epoch = 144896 };
  capella = record s.capella { fork_epoch = 194048 };
  deneb = record s.deneb { fork_epoch = 269568 };
  electra = record s.electra { fork_epoch = 364032 };
}

-- `copy(treeRoot[:], root)` into 32 zero bytes.
pub tree_root : List ℕ → List ℕ
tree_root root = take 32 root ++ replicate (32 - length root) 0

-- beacon.NewForkDecoder gives for a network and a root the text of each fork's digest, and its epoch from
-- the network's specification.
module _ (new_fork_decoder : Text → List ℕ → ForkSchedule) where
  -- The decoder of a network. Any other network has none.
  unfoldable pub decoder_for : Text → List ℕ → Option ForkSchedule
  decoder_for name root =
      if text_eq name (codes "mainnet")
      then some (mainnet_epochs (new_fork_decoder name root))
      else if text_eq name (codes "goerli")
      then some (new_fork_decoder name root)
      else if text_eq name (codes "holesky")
      then some (new_fork_decoder name root)
      else none

  -- A fork whose digest is empty gets the decoder's digest and epoch.
  fill : Option ForkConfig → ForkConfig → Result ConfigError ForkConfig
  fill known fork = elim fork.fork_digest [
    | _ ∷ _ ↦ ok fork
    | [] ↦ elim known [
      | none ↦ err nil_decoder
      | some k ↦ ok (record fork { fork_digest = k.fork_digest; fork_epoch = k.fork_epoch })
    ]
  ]

  -- Altair is filled in only where it is supported.
  fill_altair : Option ForkConfig → ForkConfig → Result ConfigError ForkConfig
  unfolding fill
  fill_altair known fork = if fork.supported then fill known fork else ok fork

  fill_all : Option ForkSchedule → ForkSchedule → Result ConfigError ForkSchedule
  unfolding fill fill_altair
  fill_all known s =
      let of_known : (ForkSchedule → ForkConfig) → Option ForkConfig =
        λ f. elim known [ none ↦ none | some k ↦ some (f k) ] in
      elim (fill_altair (of_known (λ k. k.altair)) s.altair) [
        | err e ↦ err e
        | ok altair ↦ elim (fill (of_known (λ k. k.bellatrix)) s.bellatrix) [
          | err e ↦ err e
          | ok bellatrix ↦ elim (fill (of_known (λ k. k.capella)) s.capella) [
            | err e ↦ err e
            | ok capella ↦ elim (fill (of_known (λ k. k.deneb)) s.deneb) [
              | err e ↦ err e
              | ok deneb ↦ elim (fill (of_known (λ k. k.electra)) s.electra) [
                | err e ↦ err e
                | ok electra ↦ ok (record {
                  altair = altair;
                  bellatrix = bellatrix;
                  capella = capella;
                  deneb = deneb;
                  electra = electra;
                })
              ]
            ]
          ]
        ]
      ]

  -- loadForkDefaults, for the network's name and the text of the root.
  unfoldable pub load_fork_defaults : Text → Text → ForkSchedule → Result ConfigError ForkSchedule
  unfolding decoder_for fill_all tree_root
  load_fork_defaults name root s = elim (hex_decode root) [
    | none ↦ err invalid_root
    | some bytes ↦ fill_all (decoder_for name (tree_root bytes)) s
  ]
