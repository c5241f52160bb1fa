-- ===== src/Startup.antt =====
-- The start of the program: main of cmd/main.go up to its go statements, Start of crawler/service.go,
-- Initialize and newCrawler under crawler/crawl with the start of discovery in udpv5.go, and NewHost of
-- crawler/p2p/host.go. What the libraries make is a parameter, with the errors that they may give.
pub mod Launches
pub mod Succeeds
use nodewatch_api.Base.{
  ℕ, Bool, true, false, Option, none, some, List, [], ◌∷◌, ◌++◌, if◌then◌else◌, Result, ok, err,
  ◌>>=◌, map_err,
}
use nodewatch_api.Base.Text.{Text, codes}
use nodewatch_api.Clock.{Clock, ForkSchedule, ForkChoice, new_fork_choice, divides_by_zero}
use nodewatch_api.Keys.{PrivateKey, convert_to_interface_privkey}
use nodewatch_api.Address.{multi_address_builder}
use nodewatch_api.Discovery.{parse_boot_nodes}
use nodewatch_api.Host.{Client, new_client}
use nodewatch_api.Config.Load.{
  Configuration, Database, LoadError, nil_database, Kafka, load, boot_nodes,
}
use nodewatch_api.Store.Connect.{MongoLibrary, MongoStore, new_peer_store, new_record_store}

-- What the libraries do, with keys of libp2p, addresses, hosts, records and nodes of their own.
-- `generate_key` is given the number of the call.
pub record Library (E Point Key Multiaddr LibHost Ids Db Socket Disc Record Node : Type 0)
    : Type 0 where
  pub generate_key : ℕ → Result E (PrivateKey Point)
  pub unmarshal_key : List ℕ → Result E Key
  pub decimal : ℕ → Text
  pub new_multiaddr : Text → Result E Multiaddr
  pub new_lib_host : Key → Multiaddr → Result E LibHost
  pub new_id_service : LibHost → Result E Ids
  pub new_gossip_sub : LibHost → Result E (Unit {0})
  pub rlp_decode : List ℕ → Result E Record
  pub parse_v4 : Text → Result E Node
  pub enode_new : Record → Result E Node
  pub open_db : Text → Result E Db
  pub listen_udp : Text → ℕ → Result E Socket
  pub listen_v5 : Socket → Db → Option (PrivateKey Point) → List Node → Result E Disc
  pub unmarshal_text : List ℕ → List ℕ → List ℕ
  pub parse_digest : Text → Text
  pub zero_digest : Text
  pub v5_bootnodes : List Text
  pub add_func : Result E (Unit {0})

-- Where the start fails. All of these end in a panic. Without a key enode.NewLocalNode panics itself, and
-- so does NewForkChoice with a clock that divides by zero.
pub data StartError (E : Type 0) : Type 0 where
  unknown_network no_key division_by_zero : StartError E
  boot_nodes_failed db_failed udp_failed discovery_failed : E → StartError E
  key_failed host_failed gossip_failed schedule_failed : E → StartError E
  address_failed : Option E → StartError E

-- What is started on the way: monitorForkChange, the three listeners of the client, which newClient
-- starts, the walk over the nodes, updatePeer and the file output, and the daily job.
pub data Launch : Type 0 where
  start_monitor start_listeners start_walk start_update start_output schedule_history : Launch

-- How a start comes out: what was started, the client behind the host, and the failure if there is one.
pub record Outcome (E : Type 0) : Type 0 where
  pub launches : List Launch
  pub client : Option Client
  pub failure : Option (StartError E)

module _ {E Point Key Multiaddr LibHost Ids Db Socket Disc Record Node : Type 0}
    (lib : Library E Point Key Multiaddr LibHost Ids Db Socket Disc Record Node) where
  -- getDiscoveryConfig, with the nodes and the database; enode.NewLocalNode needs a key.
  get_discovery_config :
      Option (PrivateKey Point) → List Text → Result (StartError E) (List Node × Db)
  get_discovery_config key addrs = do
    nodes ←
        map_err boot_nodes_failed (parse_boot_nodes lib.rlp_decode lib.parse_v4 lib.enode_new addrs)
    db ← map_err db_failed (lib.open_db [])
    elim key [ none ↦ err no_key | some k ↦ ok (nodes, db) ]

  -- listen, on net.IPv4zero.
  listen : Result (StartError E) Socket
  listen = map_err udp_failed (lib.listen_udp (codes "0.0.0.0") 30304)

  -- startV5
  start_v5 : Option (PrivateKey Point) → List Text → Result (StartError E) Disc
  unfolding get_discovery_config listen
  start_v5 key addrs = do
    (nodes, db) ← get_discovery_config key addrs
    socket ← listen
    map_err discovery_failed (lib.listen_v5 socket db key nodes)

  -- NewHost of crawler/p2p/host.go, with the host of libp2p that it wraps.
  new_p2p_host : ForkChoice → Key → Multiaddr → Result (StartError E) (Client × LibHost)
  new_p2p_host fork_choice key addr = do
    h ← map_err host_failed (lib.new_lib_host key addr)
    ids ← map_err host_failed (lib.new_id_service h)
    ok (new_client lib.unmarshal_text fork_choice, h)

  -- newHost of crawler/crawl/crawl.go
  new_host : ForkChoice → Result (StartError E) (Client × LibHost)
  unfolding new_p2p_host
  new_host fork_choice = do
    pkey ← map_err key_failed (lib.generate_key 1)
    cpkey ← map_err key_failed (convert_to_interface_privkey lib.unmarshal_key pkey)
    addr ←
        map_err address_failed
          (multi_address_builder lib.new_multiaddr lib.decimal true true (codes "0.0.0.0") 30304)
    new_p2p_host fork_choice cpkey addr

  -- startGossipSub, which panics where it fails.
  start_gossip_sub : LibHost → Result (StartError E) (Unit {0})
  start_gossip_sub h = map_err gossip_failed (lib.new_gossip_sub h)

  -- newCrawler, which panics where it fails: the client of the host, if that was made, and the failure.
  new_crawler : ForkChoice → Option Client × Result (StartError E) (Unit {0})
  unfolding new_host start_gossip_sub
  new_crawler fork_choice = elim (new_host fork_choice) [
    | err e ↦ (none, err e)
    | ok (client, h) ↦ (some client, start_gossip_sub h)
  ]

  -- The key of Initialize, whose error is not looked at.
  unfoldable pub node_key : Option (PrivateKey Point)
  node_key = elim (lib.generate_key 0) [ err e ↦ none | ok key ↦ some key ]

  -- What runs since NewForkChoice and, with a client, since newClient.
  abbrev started : Option Client → List Launch
  started none = start_monitor ∷ []
  started (some client) = start_monitor ∷ start_listeners ∷ []

  -- Initialize, from newCrawler on: the goroutines, and then the daily job.
  launch : Option Client × Result (StartError E) (Unit {0}) → Outcome E
  launch (client, err e) = record { launches = started client; client = client; failure = some e }
  launch (client, ok made) = elim lib.add_func [
    | err e ↦ record {
      launches = started client ++ start_walk ∷ start_update ∷ start_output ∷ [];
      client = client;
      failure = some (schedule_failed e);
    }
    | ok done ↦ record {
      launches = started client ++ start_walk ∷ start_update ∷ start_output ∷ schedule_history ∷ [];
      client = client;
      failure = none;
    }
  ]

  -- Initialize, at a time.
  initialize : Clock → ForkSchedule → ℕ → List Text → Outcome E
  unfolding node_key start_v5 new_crawler launch
  initialize clock forks now addrs = elim (start_v5 node_key addrs) [
    | err e ↦ record { launches = []; client = none; failure = some e }
    | ok disc ↦
        if divides_by_zero clock now
        then record { launches = []; client = none; failure = some division_by_zero }
        else launch (new_crawler (new_fork_choice lib.parse_digest lib.zero_digest clock forks now))
  ]

  -- Start of crawler/service.go, for a network's name and the boot nodes of the configuration.
  pub start_crawler : Text → List Text → Clock → ForkSchedule → ℕ → Outcome E
  unfolding initialize
  start_crawler name configured clock forks now =
      elim (boot_nodes lib.v5_bootnodes name configured) [
        | none ↦ record { launches = []; client = none; failure = some unknown_network }
        | some addrs ↦ initialize clock forks now addrs
      ]

-- Why main ends before it starts a goroutine: log.Fatalf.
pub data FatalError (E : Type 0) : Type 0 where
  configuration_failed : LoadError → FatalError E
  peer_store_failed record_store_failed output_failed : E → FatalError E

-- KafkaConfig of output/file.go
pub record KafkaConfig : Type 0 where
  pub topic : Text
  pub bootstrap_servers : List Text
  pub timeout : ℕ

kafka_config : Option Kafka → Option KafkaConfig
kafka_config none = none
kafka_config (some k) =
    some (record { topic = k.topic; bootstrap_servers = k.bootstrap_servers; timeout = k.timeout })

-- New of output/file.go: whether there is a writer to Kafka, once the file is open.
new_file_output : {E : Type 0} → Result E (Unit {0}) → Option KafkaConfig → Result E Bool
new_file_output open_file kafka = do
  file ← open_file
  ok (elim kafka [ none ↦ false | some k ↦ true ])

-- What main hands to the crawler: the configuration, the two stores, and whether the file output has a
-- writer to Kafka.
pub record Services (Client : Type 0) : Type 0 where
  pub configuration : Configuration
  pub peer_store : MongoStore Client
  pub record_store : MongoStore Client
  pub kafka_of : Option KafkaConfig
  pub has_kafka : Bool

-- The section of the database, where a nil one makes New panic.
given_database : Configuration → Result LoadError Database
given_database cfg = elim cfg.database_of [ none ↦ err nil_database | some db ↦ ok db ]

-- main up to its go statements.
pub main_services :
    {E Client : Type 0}
    → (Text → List ℕ → ForkSchedule)
    → Result LoadError Configuration
    → (Text → Text)
    → MongoLibrary E Client
    → Result E (Unit {0})
    → Result (FatalError E) (Services Client)
unfolding kafka_config new_file_output given_database
main_services new_fork_decoder file getenv mongo open_file = do
  cfg ← map_err configuration_failed (load new_fork_decoder file getenv)
  db ← map_err configuration_failed (given_database cfg)
  peers ← map_err peer_store_failed (new_peer_store mongo db)
  records ← map_err record_store_failed (new_record_store mongo db)
  let kafka = kafka_config cfg.kafka
  has_kafka ← map_err output_failed (new_file_output open_file kafka)
  ok (record {
    configuration = cfg;
    peer_store = peers;
    record_store = records;
    kafka_of = kafka;
    has_kafka = has_kafka;
  })
