-- ===== src/Examples/Settings.antt =====
-- The defaults of a network, and epochs as texts.
use nodewatch_api.Base.{
  ℕ, ◌≡◌, inr, refl, if◌then◌else◌, true, false, none, some, List, [], ◌∷◌, arith, ok, err,
}
use nodewatch_api.Base.Text.{Text, codes, text_eq}
use nodewatch_api.Clock.{Clock, ForkConfig, ForkSchedule, epoch_for_slot, tick_epochs}
use nodewatch_api.Clock.Ticks.{top_epoch}
use nodewatch_api.Store.Queries.{hex_decode}
use nodewatch_api.Config.{nil_decoder, tree_root, decoder_for, load_fork_defaults}
use nodewatch_api.Config.Defaults.{AreFilled, load_fork_defaults_lem, load_fork_defaults_panics}
use nodewatch_api.Config.Networks.{Spec}
use nodewatch_api.Config.Networks.Goerli.{goerli}
use nodewatch_api.Config.Networks.Holesky.{holesky}
use nodewatch_api.Config.Networks.Schedules.{
  KeepsSpec, IsMainnetDigest, digest_after, mainnet_followed, electra_from_start,
}
use nodewatch_api.Config.Networks.Testnets.{IsSpecDigest, testnet_followed}
use nodewatch_api.Epoch.{from_hex_string, to_hex_string, from_hex_string-to_hex_string}

from_hex_string-to_hex_string_example : from_hex_string (to_hex_string 364032) ≡ ok 364032
from_hex_string-to_hex_string_example = from_hex_string-to_hex_string 364032 (omega arith)

abbrev fork : Text → ForkConfig
fork digest = record { supported = true; fork_digest = digest; fork_epoch = 9 }

abbrev known_forks : Text → List ℕ → ForkSchedule
known_forks name root = record {
  altair = fork (codes "afcaaba0");
  bellatrix = fork (codes "4a26c58b");
  capella = fork (codes "bba4da96");
  deneb = fork (codes "6a95a1a9");
  electra = fork (codes "ad532ceb");
}

abbrev given : ForkSchedule
given = record {
  altair = record { supported = false; fork_digest = []; fork_epoch = 0 };
  bellatrix = fork [];
  capella = fork (codes "01020304");
  deneb = fork [];
  electra = fork [];
}

goerli_known :
    decoder_for known_forks (codes "goerli") (tree_root [])
    ≡ some (known_forks (codes "goerli") (tree_root []))
unfolding decoder_for text_eq
goerli_known = refl

devnet_unknown : decoder_for known_forks (codes "devnet") (tree_root []) ≡ none
unfolding decoder_for text_eq
devnet_unknown = refl

no_root : hex_decode [] ≡ some []
unfolding hex_decode
no_root = refl

goerli_filled :
    (t : ForkSchedule) × (load_fork_defaults known_forks (codes "goerli") [] given ≡ ok t)
    × AreFilled (known_forks (codes "goerli") (tree_root [])) given t
goerli_filled =
    load_fork_defaults_lem known_forks (codes "goerli") [] []
      (known_forks (codes "goerli") (tree_root [])) given no_root goerli_known

devnet_panics : load_fork_defaults known_forks (codes "devnet") [] given ≡ err nil_decoder
devnet_panics =
    load_fork_defaults_panics known_forks (codes "devnet") [] [] given no_root devnet_unknown refl
      refl

-- A decoder that keeps its network's specification.
abbrev at_epochs : Spec → ForkSchedule
at_epochs e = record {
  altair = record {
    supported = true;
    fork_digest = codes "0a";
    fork_epoch = e.config.altair_fork_epoch;
  };
  bellatrix = record {
    supported = true;
    fork_digest = codes "0b";
    fork_epoch = e.config.bellatrix_fork_epoch;
  };
  capella = record {
    supported = true;
    fork_digest = codes "0c";
    fork_epoch = e.config.capella_fork_epoch;
  };
  deneb = record {
    supported = true;
    fork_digest = codes "0d";
    fork_epoch = e.config.deneb_fork_epoch;
  };
  electra = record {
    supported = true;
    fork_digest = codes "0e";
    fork_epoch = e.config.electra_fork_epoch;
  };
}

abbrev network_forks : Text → List ℕ → ForkSchedule
network_forks name root =
    if text_eq name (codes "goerli") then at_epochs goerli else at_epochs holesky

network_forks-KeepsSpec : KeepsSpec network_forks
unfolding text_eq
network_forks-KeepsSpec = record {
  keeps_goerli = λ root. (refl, refl, refl, refl, refl);
  keeps_holesky = λ root. (refl, refl, refl, refl, refl);
}

abbrev left_open : ForkConfig
left_open = record { supported = true; fork_digest = []; fork_epoch = 0 }

abbrev all_open : ForkSchedule
all_open = record {
  altair = left_open;
  bellatrix = left_open;
  capella = left_open;
  deneb = left_open;
  electra = left_open;
}

abbrev as_given : Text → Text
as_given d = d

abbrev clock : Clock
clock = record { genesis_time = 1606824023; seconds_per_slot = 12; slots_per_epoch = 32 }

mainnet_followed_example :
    (t : ForkSchedule) × (load_fork_defaults network_forks (codes "mainnet") [] all_open ≡ ok t)
    × IsMainnetDigest as_given []
        (network_forks (codes "mainnet") (tree_root []))
        270000
        (digest_after as_given [] clock t 1606824100 (269000 ∷ 270000 ∷ []))
mainnet_followed_example =
    mainnet_followed as_given [] network_forks [] [] all_open clock 1606824100
      (269000 ∷ 270000 ∷ []) no_root
      ((refl, refl), (refl, refl), (refl, refl), (refl, refl), (refl, refl))

electra_from_start_example :
    (t : ForkSchedule) × (load_fork_defaults network_forks (codes "holesky") [] all_open ≡ ok t)
    × (digest_after as_given [] clock t 1606824100 (1 ∷ 2 ∷ [])
        ≡ (network_forks (codes "holesky") (tree_root [])).electra.fork_digest)
electra_from_start_example =
    electra_from_start as_given [] network_forks (codes "holesky") [] [] all_open clock 1606824100
      (1 ∷ 2 ∷ []) network_forks-KeepsSpec (inr refl) no_root (refl, refl)

abbrev before_electra : ForkSchedule
before_electra = record all_open { electra = record left_open { supported = false } }

testnet_followed_example :
    (t : ForkSchedule) × (load_fork_defaults network_forks (codes "holesky") [] before_electra
      ≡ ok t)
    × IsSpecDigest as_given [] holesky
        (network_forks (codes "holesky") (tree_root []))
        (top_epoch clock (epoch_for_slot clock 950272) (950273 ∷ 950304 ∷ []))
        (digest_after as_given [] clock t 1606824100
          (tick_epochs clock (950272 ∷ 950273 ∷ 950304 ∷ [])))
testnet_followed_example =
    testnet_followed as_given [] network_forks (codes "holesky") [] holesky [] before_electra clock
      1606824100 950272 (950273 ∷ 950304 ∷ []) network_forks-KeepsSpec (inr (refl, refl)) no_root
      ((refl, refl), (refl, refl), (refl, refl), (refl, refl), refl)
