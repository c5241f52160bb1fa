-- ===== src/Peer.antt =====
-- models/peer.go: what is known of a peer, and how it changes. The user agent is in Agent.
pub mod SyncStatus
use nodewatch_api.Base.{
  ℕ, zero, suc, ◌+◌, ◌-◌, ◌*◌, ◌/◌, ◌%◌, Bool, true, false, Option, none, some, List, [], ◌∷◌, ◌++◌,
  map, if◌then◌else◌,
}
use nodewatch_api.Base.Int.{ℤ, pos, negsuc, ◌-ℤ◌, ◌*ℤ◌, leb_ℤ, quot_ℤ, wrap}
use nodewatch_api.Base.Text.{Text}
use nodewatch_api.Agent.{UserAgent, ClientTable, user_agent}

-- Angles as whole numbers of a unit that is small enough for the geo data at hand.
pub record Asn : Type 0 where
  pub asn_id : Text
  pub asn_name : Text
  pub domain : Text
  pub route : Text
  pub usage_type : Text

pub record GeoLocation : Type 0 where
  pub asn : Asn
  pub country : Text
  pub state : Text
  pub city : Text
  pub latitude : ℤ
  pub longitude : ℤ

pub record Sync : Type 0 where
  pub status : Bool
  pub distance : ℤ

abbrev pub score_good : ℤ
score_good = pos 3

abbrev pub score_bad : ℤ
score_bad = pos 0

-- A peer ID is only ever compared, and stands for its number in some enumeration. A fork digest and
-- the attestation subnets are byte strings; times are seconds from the Unix epoch on.
pub record Peer : Type 0 where
  pub id : ℕ
  pub node_id : Text
  pub pubkey : Text
  pub enr : Text
  pub ip : Text
  pub tcp_port : ℕ
  pub udp_port : ℕ
  pub addrs : List Text
  pub attnets : List ℕ
  pub fork_digest : Text
  pub fork_digest_str : Text
  pub next_fork_epoch : ℕ
  pub next_fork_version : Text
  pub protocol_version : Text
  pub user_agent_of : Option UserAgent
  pub user_agent_raw : Text
  pub geo_location : Option GeoLocation
  pub sync : Option Sync
  pub score : ℤ
  pub is_connectable : Bool
  pub last_connected : ℕ
  pub last_updated : ℕ

-- The eth2 entry of a node record.
pub record Eth2Data : Type 0 where
  pub digest : Text
  pub next_version : Text
  pub next_epoch : ℕ

-- A discovered node, as the library of node records presents it: `raw_pubkey` is what the key converts
-- to, `addr_info` what util.AddrsFromEnode makes of it, and `eth2` and `attnets_entry` are the parsed
-- entries; each is `none` where the source gets an error.
pub record Node : Type 0 where
  pub identity : ℕ
  pub node_text : Text
  pub record_text : Text
  pub ip_text : Text
  pub tcp : ℕ
  pub udp : ℕ
  pub raw_pubkey : Option (List ℕ)
  pub addr_info : Option (List Text)
  pub attnets_entry : Option (List ℕ)
  pub eth2 : Option Eth2Data

-- hex.EncodeToString
unfoldable pub hex_digit : ℕ → ℕ
hex_digit d = elim (leb_ℤ (pos 10) (pos d)) [ true ↦ d + 87 | false ↦ d + 48 ]

unfoldable pub hex_encode : List ℕ → Text
unfolding hex_digit
hex_encode [] = []
hex_encode (b ∷ bs) = hex_digit (b / 16) ∷ hex_digit (b % 16) ∷ hex_encode bs

-- common.AttnetBits{}
abbrev pub no_attnets : List ℕ
no_attnets = 0 ∷ 0 ∷ 0 ∷ 0 ∷ 0 ∷ 0 ∷ 0 ∷ 0 ∷ []

abbrev or_no_attnets : Option (List ℕ) → List ℕ
or_no_attnets none = no_attnets
or_no_attnets (some a) = a

-- `digest_text` is common.ForkDigest.String.
module _ (digest_text : Text → Text) where
  -- NewPeer. The ID of the address information is that of the node's key.
  unfoldable pub new_peer : Node → Eth2Data → Option Peer
  new_peer node eth2 = elim node.raw_pubkey [
    | none ↦ none
    | some key ↦ elim node.addr_info [
      | none ↦ none
      | some addrs ↦ some (record {
        id = node.identity;
        node_id = node.node_text;
        pubkey = hex_encode key;
        enr = node.record_text;
        ip = node.ip_text;
        tcp_port = node.tcp;
        udp_port = node.udp;
        addrs = addrs;
        attnets = or_no_attnets node.attnets_entry;
        fork_digest = eth2.digest;
        fork_digest_str = digest_text eth2.digest;
        next_fork_epoch = eth2.next_epoch;
        next_fork_version = eth2.next_version;
        protocol_version = [];
        user_agent_of = none;
        user_agent_raw = [];
        geo_location = none;
        sync = none;
        score = score_good;
        is_connectable = false;
        last_connected = 0;
        last_updated = 0;
      })
    ]
  ]

  -- SetForkDigest
  unfoldable pub set_fork_digest : Text → Peer → Peer
  set_fork_digest digest p = record p { fork_digest = digest; fork_digest_str = digest_text digest }

-- SetProtocolVersion
unfoldable pub set_protocol_version : Text → Peer → Peer
set_protocol_version pv p = record p { protocol_version = pv }

-- SetUserAgent, with the client table in the order in which the loop meets it.
unfoldable pub set_user_agent : ClientTable → Text → Peer → Peer
set_user_agent table ag p = record p {
  user_agent_of = some (user_agent table ag);
  user_agent_raw = ag;
}

-- SetConnectionStatus at time `now`.
unfoldable pub set_connection_status : Bool → ℕ → Peer → Peer
set_connection_status status now p =
    if status
    then record p { is_connectable = status; last_connected = now }
    else record p { is_connectable = status }

-- blockIgnoreThreshold: 256 epochs.
abbrev pub block_ignore_threshold : ℤ
block_ignore_threshold = pos 8192

-- The sync status for a peer's block, at the current block `cb`, in int64 arithmetic.
pub sync_status : ℤ → ℤ → Sync
sync_status cb block =
    let behind = wrap (cb -ℤ block) in
    if leb_ℤ behind block_ignore_threshold
    then record { status = true; distance = pos 0 }
    else record { status = false; distance = quot_ℤ (wrap (behind *ℤ pos 100)) cb }

-- SetSyncStatus
unfoldable pub set_sync_status : ℤ → ℤ → Peer → Peer
set_sync_status cb block p = record p { sync = some (sync_status cb block) }

-- SetGeoLocation
unfoldable pub set_geo_location : GeoLocation → Peer → Peer
set_geo_location geo p = record p { geo_location = some geo }

-- util.CurrentBlock at `now` seconds from the Unix epoch: slots of 12 seconds since 1 December 2020,
-- 12:00 GMT, in whole seconds.
abbrev pub genesis_seconds : ℤ
genesis_seconds = pos 1606824000

pub current_block : ℕ → ℤ
current_block now = quot_ℤ (pos now -ℤ genesis_seconds) (pos 12)
