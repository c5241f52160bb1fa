-- ===== src/Startup/Succeeds.antt =====
-- When the start succeeds.
use nodewatch_api.Base.{
  ℕ, Bool, true, false, ◌≡◌, ◌≢◌, refl, Option, none, some, List, [], Result, ok,
}
use nodewatch_api.Base.Text.{Text, codes}
use nodewatch_api.Clock.{Clock, ForkSchedule}
use nodewatch_api.Keys.{PrivateKey, convert_to_interface_privkey}
use nodewatch_api.Address.{multi_address_builder}
use nodewatch_api.Discovery.{parse_boot_nodes}
use nodewatch_api.Host.{Client}
use nodewatch_api.Config.{load_fork_defaults}
use nodewatch_api.Config.Load.{Configuration, Database, Kafka, IsComplete, load_lem}
use nodewatch_api.Store.Connect.{MongoLibrary, IsReachable, AreStores, new_stores_lem}
use nodewatch_api.Startup.{
  Library, node_key, KafkaConfig, kafka_config, new_file_output, Services, main_services,
  given_database,
}

module _ {E Point Key Multiaddr LibHost Ids Db Socket Disc Record Node : Type 0}
    (lib : Library E Point Key Multiaddr LibHost Ids Db Socket Disc Record Node) where
  -- Each call of a library that the start makes gives a value.
  pub record Works (addrs : List Text) : Type 0 where
    pub nodes : List Node
    pub parses : parse_boot_nodes lib.rlp_decode lib.parse_v4 lib.enode_new addrs ≡ ok nodes
    pub discovery_key : PrivateKey Point
    pub generates_first : lib.generate_key 0 ≡ ok discovery_key
    pub db : Db
    pub opens : lib.open_db [] ≡ ok db
    pub socket : Socket
    pub listens : lib.listen_udp (codes "0.0.0.0") 30304 ≡ ok socket
    pub disc : Disc
    pub discovers : lib.listen_v5 socket db (node_key lib) nodes ≡ ok disc
    pub pkey : PrivateKey Point
    pub generates : lib.generate_key 1 ≡ ok pkey
    pub cpkey : Key
    pub converts : convert_to_interface_privkey lib.unmarshal_key pkey ≡ ok cpkey
    pub addr : Multiaddr
    pub addresses :
        multi_address_builder lib.new_multiaddr lib.decimal true true (codes "0.0.0.0") 30304
        ≡ ok addr
    pub host : LibHost
    pub hosts : lib.new_lib_host cpkey addr ≡ ok host
    pub ids : Ids
    pub identifies : lib.new_id_service host ≡ ok ids
    pub gossips : lib.new_gossip_sub host ≡ ok tt
    pub schedules : lib.add_func ≡ ok tt

abbrev pub is_given : {A : Type 0} → Option A → Bool
is_given none = false
is_given (some a) = true

-- The writer of the file output has the topic, servers and timeout of a section of the configuration.
abbrev pub IsTaken : Option Kafka → Option KafkaConfig → Type 0
IsTaken none none = Unit
IsTaken none (some c) = ⊥
IsTaken (some k) none = ⊥
IsTaken (some k) (some c) =
    (c.topic ≡ k.topic) × (c.bootstrap_servers ≡ k.bootstrap_servers) × (c.timeout ≡ k.timeout)

kafka_config-IsTaken : (k : Option Kafka) → IsTaken k (kafka_config k)
unfolding kafka_config
kafka_config-IsTaken none = tt
kafka_config-IsTaken (some k) = (refl, refl, refl)

new_file_output-is_given :
    {E : Type 0} (open_file : Result E (Unit {0})) (k : Option Kafka)
    → open_file ≡ ok tt
    → new_file_output open_file (kafka_config k) ≡ ok (is_given k)
unfolding new_file_output kafka_config
new_file_output-is_given open_file none h = rw h refl
new_file_output-is_given open_file (some k) h = rw h refl

-- main comes to its go statements where the configuration can be loaded, the driver makes a client for
-- the URI of the environment that reaches the database, and the output file can be opened. Then both
-- stores have this client and the given database, each with its collection, and the file output has a
-- writer to Kafka just if the file had a section for it, with the topic, the servers and the timeout
-- that Load makes of it.
pub main_services_lem :
    {E Client : Type 0} (new_fork_decoder : Text → List ℕ → ForkSchedule) (cfg : Configuration)
    (getenv : Text → Text) (mongo : MongoLibrary E Client) (client : Client)
    (open_file : Result E (Unit {0})) (old : Database) (uri : Text) (forks : ForkSchedule)
    → cfg.database_of ≡ some old
    → getenv (codes "MONGODB_URI") ≡ uri
    → uri ≢ []
    → load_fork_defaults new_fork_decoder cfg.network cfg.genesis_validators_root cfg.forks_of
      ≡ ok forks
    → IsReachable mongo uri client
    → open_file ≡ ok tt
    → (s : Services Client) × (main_services new_fork_decoder (ok cfg) getenv mongo open_file
        ≡ ok s)
      × (s.configuration.network ≡ cfg.network)
      × (s.configuration.forks_of ≡ forks)
      × AreStores old client s.peer_store s.record_store
      × IsComplete cfg.kafka s.configuration.kafka
      × IsTaken s.configuration.kafka s.kafka_of
      × (s.has_kafka ≡ is_given s.configuration.kafka)
unfolding main_services given_database
main_services_lem new_fork_decoder cfg getenv mongo client open_file old uri forks hd hu hn hf hm
      ho =
    let (cfg', loaded, same_db, same_forks, same_network, complete) =
      load_lem new_fork_decoder cfg getenv old uri forks hd hu hn hf in
    let (peers, records, hp, hr, stores) =
      new_stores_lem mongo (record old { uri = uri }) client hm in
    let output = new_file_output-is_given open_file cfg'.kafka ho in
    (
      record {
        configuration = cfg';
        peer_store = peers;
        record_store = records;
        kafka_of = kafka_config cfg'.kafka;
        has_kafka = is_given cfg'.kafka;
      },
      rw (loaded, same_db, hp, hr, output, main_services, given_database) refl,
      same_network,
      same_forks,
      stores,
      complete,
      kafka_config-IsTaken cfg'.kafka,
      refl,
    )
