-- ===== src/Examples/Setup.antt =====
-- The crawler's surroundings: records, addresses, keys, settings, and its shutdown.
use nodewatch_api.Base.{
  ℕ, ◌-◌, ◌^◌, ◌≤◌, ◌≡◌, ◌≢◌, ◌⊎◌, refl, Bool, true, false, Option, some, List, [], ◌∷◌, ◌++◌, map,
  arith, Result, ok,
}
use nodewatch_api.Base.Text.{Text, codes}
use nodewatch_api.Keys.{PrivateKey}
use nodewatch_api.Discovery.{parse_boot_nodes}
use nodewatch_api.Discovery.Records.{text_of, parse_boot_nodes_lem}
use nodewatch_api.Address.{EnodeView, AddressLibrary, address_text}
use nodewatch_api.Address.Enode.{AddressLaws}
use nodewatch_api.Address.Dialled.{
  Addressed, new_addressed, get_peer_info, get_peer_info-new_addressed,
}
use nodewatch_api.Clock.{ForkConfig, ForkSchedule}
use nodewatch_api.Config.{load_fork_defaults}
use nodewatch_api.Config.Load.{Configuration, Database, IsComplete, load, load_lem}
use nodewatch_api.Store.Queries.{hex_decode}
use nodewatch_api.Crawl.Walk
use nodewatch_api.Crawl.Walk.{
  Walk, asking, offering, finishing, finished, new_walk, next, hand_over, cancel, finish,
}
use nodewatch_api.Crawl.Walk.Order.{Advances, walk_stores}
use nodewatch_api.Crawl.Pool.{
  Pool, closed, looping, waiting, new_pool, Step, Steps, here, then_step, see_end,
}
use nodewatch_api.Crawl.Pool.Shutdown.{IsStuck, work_left, shutdown_completes}
use nodewatch_api.Crawl.Pool.Blocks.{shutdown_may_block}

abbrev kept : List ℕ → Result (List ℕ) (List ℕ)
kept bytes = ok bytes

abbrev same_key : List ℕ → Option (List ℕ)
same_key k = some k

abbrev point_of : List ℕ → List ℕ
point_of k = k

abbrev a_key : PrivateKey (List ℕ)
a_key = record { d = 70000; point = [] }

-- The order of the group of secp256k1.
abbrev secp256k1_order : ℕ
secp256k1_order = 2 ^ 256 - 432420386565659656852420866394968145599

-- A record stands for itself, and so does its node.
abbrev plain : List ℕ → Result Text (List ℕ)
plain bs = ok bs

abbrev texts : List (Bool × List ℕ)
texts = (true, 1 ∷ 2 ∷ 255 ∷ 4 ∷ []) ∷ (false, 7 ∷ 160 ∷ []) ∷ []

parse_boot_nodes_lem_example :
    parse_boot_nodes plain plain plain (map text_of texts)
    ≡ ok ((1 ∷ 2 ∷ 255 ∷ 4 ∷ []) ∷ (7 ∷ 160 ∷ []) ∷ [])
parse_boot_nodes_lem_example =
    parse_boot_nodes_lem plain plain plain texts ((1 ∷ 2 ∷ 255 ∷ 4 ∷ []) ∷ (7 ∷ 160 ∷ []) ∷ []) (
      ((omega arith, (omega arith, (omega arith, (omega arith, tt)))), (_, refl, refl)),
      (((omega arith, (omega arith, tt)), (_, refl, refl)), tt),
    )

-- Addresses that are their own texts.
abbrev text_library : AddressLibrary Text Text Text Text Text
text_library = record {
  convert_pubkey = λ k. ok k;
  id_from_public_key = λ k. ok k;
  id_text = λ p. p;
  decimal = λ n. n ∷ [];
  new_multiaddr = λ t. ok t;
  addr_info_from_p2p_addr = λ t. ok (record { peer_id = codes "key"; transports = t ∷ [] });
  split_transport = λ t. t;
}

abbrev a_node : EnodeView Text
a_node = record {
  ip = 10 ∷ 0 ∷ 0 ∷ 1 ∷ [];
  ip_text = codes "10.0.0.1";
  tcp_port = 48;
  udp_port = 49;
  pubkey = codes "key";
}

node_keeps :
    AddressLaws text_library a_node
      (codes "key")
      (codes "key")
      (codes "/ip4/10.0.0.1/tcp/0/p2p/key")
      (codes "/ip4/10.0.0.1/udp/1/p2p/key")
unfolding address_text
node_keeps = record {
  converts = refl;
  identifies = refl;
  tcp_parses = refl;
  udp_parses = refl;
  takes_apart = refl;
}

abbrev as_written : Text → Text
as_written m = m

get_peer_info-new_addressed_example :
    (p : Addressed Text) × (new_addressed text_library as_written a_node ≡ some (ok p))
    × (get_peer_info text_library p ≡ record {
      peer_id = codes "key";
      transports =
          some (codes "/ip4/10.0.0.1/tcp/0/p2p/key")
          ∷ some (codes "/ip4/10.0.0.1/udp/1/p2p/key")
          ∷ [];
    })
get_peer_info-new_addressed_example =
    get_peer_info-new_addressed text_library as_written a_node (codes "key") (codes "key")
      (codes "/ip4/10.0.0.1/tcp/0/p2p/key") (codes "/ip4/10.0.0.1/udp/1/p2p/key") node_keeps refl
      refl

abbrev pub known_fork : ForkConfig
known_fork = record { supported = true; fork_digest = codes "0x01020304"; fork_epoch = 5 }

abbrev pub schedule : ForkSchedule
schedule = record {
  altair = known_fork;
  bellatrix = known_fork;
  capella = known_fork;
  deneb = known_fork;
  electra = known_fork;
}

abbrev pub given_database : Database
given_database = record {
  uri = [];
  timeout = 10;
  database = codes "crawler";
  collection = codes "peerstore";
  history_collection = codes "history";
}

abbrev pub configured : Configuration
configured = record {
  database_of = some given_database;
  kafka = some (record {
    topic = codes "nodes";
    bootstrap_servers_str = codes "a:1,b:2";
    bootstrap_servers = [];
    timeout = 0;
  });
  network = codes "custom";
  genesis_validators_root = codes "00ff";
  forks_of = schedule;
}

abbrev pub environment : Text → Text
environment name = codes "mongodb://db"

abbrev pub decoder : Text → List ℕ → ForkSchedule
decoder name root = schedule

pub forks_kept :
    load_fork_defaults decoder configured.network configured.genesis_validators_root
      configured.forks_of
    ≡ ok schedule
unfolding load_fork_defaults hex_decode
forks_kept = refl

configuration_loaded :
    (cfg' : Configuration) × (load decoder (ok configured) environment ≡ ok cfg')
    × (cfg'.database_of ≡ some (record given_database { uri = codes "mongodb://db" }))
    × (cfg'.forks_of ≡ schedule)
    × (cfg'.network ≡ codes "custom")
    × IsComplete configured.kafka cfg'.kafka
configuration_loaded =
    load_lem decoder configured environment given_database (codes "mongodb://db") schedule refl refl
      (λ e. cc) forks_kept

-- One node is stored, and the context ends with the second in hand.
abbrev with_one : Walk ℕ
with_one = record {
  cancelled = false;
  ahead = 8 ∷ [];
  walker = offering 7;
  returned = false;
  stored = [];
}

abbrev one_stored : Walk ℕ
one_stored = record with_one { walker = asking; stored = 7 ∷ [] }

abbrev with_two : Walk ℕ
with_two = record one_stored { ahead = []; walker = offering 8 }

abbrev walk_ended : Walk ℕ
walk_ended = record with_two { cancelled = true; walker = finished; returned = true }

a_walk : Walk.Steps (new_walk (7 ∷ 8 ∷ [])) walk_ended
unfolding new_walk
a_walk =
    let s0 = new_walk (7 ∷ 8 ∷ []) in
    let s4 = record with_two { cancelled = true } in
    let s5 = record s4 { walker = finishing } in
    Walk.then_step s0 s5 walk_ended
      (Walk.then_step s0 s4 s5
        (Walk.then_step s0 with_two s4
          (Walk.then_step s0 one_stored with_two
            (Walk.then_step s0 with_one one_stored
              (Walk.then_step s0 s0 with_one (Walk.here s0) (next s0 7 (8 ∷ []) refl refl))
              (hand_over with_one 7 refl refl))
            (next one_stored 8 [] refl refl))
          (cancel with_two))
        (Walk.see_end s4 8 refl refl))
      (finish s5 refl refl)

walk_stores_example :
    ((walk_ended.walker ≡ finished) ⊎ Advances walk_ended)
    × (walk_ended.walker ≡ finished
        → ((rest : List ℕ) × (walk_ended.stored ++ rest ≡ 7 ∷ 8 ∷ []))
          × (walk_ended.cancelled ≡ false → walk_ended.stored ≡ 7 ∷ 8 ∷ []))
walk_stores_example = walk_stores (7 ∷ 8 ∷ []) walk_ended a_walk

-- The end of the context while updatePeer is at its select.
abbrev ended : Pool
ended = record { cancelled = true; place = looping; queued = 2; idle = 1; busy = 3 }

abbrev after_end : Pool
after_end = record ended { place = waiting }

pool_ended :
    (1 ≤ work_left ended) × ((after_end.place ≡ closed) ⊎ ((u : Pool) × Step 4 after_end u))
pool_ended =
    shutdown_completes 4 ended after_end
      (then_step ended ended after_end (here ended) (see_end ended refl refl)) refl (λ n e. cc)

shutdown_may_block_example :
    (s : Pool) × Steps 4 (new_pool 4) s
    × (s.cancelled ≡ true)
    × IsStuck 4 s
    × ((t : Pool) → Steps 4 s t → (t ≡ s) × (t.place ≢ closed))
shutdown_may_block_example = shutdown_may_block 4 (omega arith)
