-- ===== src/Config/Load.antt =====
-- Load of utils/config/config.go, and the choice of the boot nodes in crawler/service.go.
use nodewatch_api.Base.{
  ℕ, ◌≡◌, ◌≢◌, refl, ◌||◌, Option, none, some, List, [], ◌∷◌, ◌*◌, ◌^◌, ◌==◌, if◌then◌else◌, All,
  Result, ok, err, arith,
}
use nodewatch_api.Base.Text.{Text, codes, text_eq, split, join, join-split, split-Lacks, Lacks}
use nodewatch_api.Clock.{ForkSchedule}
use nodewatch_api.Config.{ConfigError, load_fork_defaults}

-- Kafka. The timeout is in nanoseconds.
pub record Kafka : Type 0 where
  pub topic : Text
  pub bootstrap_servers_str : Text
  pub bootstrap_servers : List Text
  pub timeout : ℕ

pub record Database : Type 0 where
  pub uri : Text
  pub timeout : ℕ
  pub database : Text
  pub collection : Text
  pub history_collection : Text

-- The parts of Configuration that Load looks at. Sections that the file leaves out are nil, which
-- matters for the database: it is dereferenced. The network, the crawler and the forks are taken to
-- be there.
pub record Configuration : Type 0 where
  pub database_of : Option Database
  pub kafka : Option Kafka
  pub network : Text
  pub genesis_validators_root : Text
  pub forks_of : ForkSchedule

pub data LoadError : Type 0 where
  read_failed decode_failed uri_required nil_database : LoadError
  forks_failed : ConfigError → LoadError

abbrev pub kafka_default_timeout : ℕ
kafka_default_timeout = 10 * 10 ^ 9

-- loadDatabaseURI, over the environment.
load_database_uri : (Text → Text) → Result LoadError Text
load_database_uri getenv = elim (getenv (codes "MONGODB_URI")) [
  | [] ↦ err uri_required
  | c ∷ cs ↦ ok (c ∷ cs)
]

-- What Load does to the Kafka section.
complete_kafka : Option Kafka → Option Kafka
complete_kafka none = none
complete_kafka (some k) = some (record k {
  bootstrap_servers = split b',' k.bootstrap_servers_str;
  timeout = if k.timeout == 0 then kafka_default_timeout else k.timeout;
})

module _ (new_fork_decoder : Text → List ℕ → ForkSchedule) where
  -- Load, of what the file decodes to. The field of a nil database is assigned after the call, so that
  -- the panic comes before the error of the call is looked at.
  pub load : Result LoadError Configuration → (Text → Text) → Result LoadError Configuration
  unfolding load_database_uri complete_kafka
  load (err e) getenv = err e
  load (ok cfg) getenv = elim cfg.database_of [
    | none ↦ err nil_database
    | some db ↦ elim (load_database_uri getenv) [
      | err e ↦ err e
      | ok uri ↦
          elim (load_fork_defaults new_fork_decoder cfg.network cfg.genesis_validators_root
            cfg.forks_of) [
              | err e ↦ err (forks_failed e)
              | ok forks ↦ ok (record cfg {
                database_of = some (record db { uri = uri });
                kafka = complete_kafka cfg.kafka;
                forks_of = forks;
              })
            ]
    ]
  ]

-- The switch of crawler/service.go: the boot nodes of a network, or the panic on a name that it does
-- not know.
unfoldable pub boot_nodes : List Text → Text → List Text → Option (List Text)
boot_nodes v5_bootnodes name configured =
    if text_eq name (codes "mainnet")
      || text_eq name (codes "goerli")
      || text_eq name (codes "holesky")
    then some v5_bootnodes
    else if text_eq name (codes "custom")
    then some configured
    else none

-- What Load makes of a Kafka section: the servers are the parts of the text between its commas, and
-- the timeout is not 0.
abbrev pub IsComplete : Option Kafka → Option Kafka → Type 0
IsComplete none none = Unit
IsComplete none (some k') = ⊥
IsComplete (some k) none = ⊥
IsComplete (some k) (some k') =
    (join b',' k'.bootstrap_servers ≡ k.bootstrap_servers_str)
    × All (Lacks b',') k'.bootstrap_servers
    × (k'.timeout ≢ 0)
    × (k.timeout ≢ 0 → k'.timeout ≡ k.timeout)
    × (k'.topic ≡ k.topic)

complete_kafka-IsComplete : (k : Option Kafka) → IsComplete k (complete_kafka k)
unfolding complete_kafka
complete_kafka-IsComplete none = tt
complete_kafka-IsComplete (some k) = (
  join-split b',' k.bootstrap_servers_str,
  split-Lacks b',' k.bootstrap_servers_str,
  ground arith,
  λ h. ground arith,
  refl,
)

-- Load succeeds where the file decodes to a configuration with a database section, MONGODB_URI is set
-- and not empty, and the forks can be completed. The result has the given section with this URI, the
-- completed forks, and a Kafka section only if there was one: its servers lack commas and make up the
-- given text when they are joined with commas, and its timeout is the given one, or not 0 if that is 0.
pub load_lem :
    (new_fork_decoder : Text → List ℕ → ForkSchedule) (cfg : Configuration) (getenv : Text → Text)
    (old : Database) (uri : Text) (forks : ForkSchedule)
    → cfg.database_of ≡ some old
    → getenv (codes "MONGODB_URI") ≡ uri
    → uri ≢ []
    → load_fork_defaults new_fork_decoder cfg.network cfg.genesis_validators_root cfg.forks_of
      ≡ ok forks
    → (cfg' : Configuration) × (load new_fork_decoder (ok cfg) getenv ≡ ok cfg')
      × (cfg'.database_of ≡ some (record old { uri = uri }))
      × (cfg'.forks_of ≡ forks)
      × (cfg'.network ≡ cfg.network)
      × IsComplete cfg.kafka cfg'.kafka
unfolding load load_database_uri
load_lem new_fork_decoder cfg getenv old [] forks hd hu hn hf = absurd (hn refl)
load_lem new_fork_decoder cfg getenv old (c ∷ cs) forks hd hu hn hf = (
  record cfg {
    database_of = some (record old { uri = c ∷ cs });
    kafka = complete_kafka cfg.kafka;
    forks_of = forks;
  },
  ground arith,
  refl,
  refl,
  refl,
  complete_kafka-IsComplete cfg.kafka,
)
