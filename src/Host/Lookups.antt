-- ===== src/Host/Lookups.antt =====
-- GetProtocolVersion, GetAgentVersion and IdentifyRequest of crawler/p2p/host.go.
use nodewatch_api.Base.{ℕ, zero, suc, Option, none, some, List, [], ◌∷◌, Result, ok, err}
use nodewatch_api.Base.Text.{Text, codes}

-- What a peer store of libp2p holds under a key.
pub data StoredValue : Type 0 where
  text_value : Text → StoredValue
  other_value : StoredValue

pub data LookupError (E : Type 0) : Type 0 where
  get_failed connect_failed : E → LookupError E
  not_a_string not_connected : LookupError E

module _ {E PeerId : Type 0} (peerstore_get : PeerId → Text → Result E StoredValue) where
  string_value : Result E StoredValue → Result (LookupError E) Text
  string_value (err e) = err (get_failed e)
  string_value (ok other_value) = err not_a_string
  string_value (ok (text_value t)) = ok t

  unfoldable pub get_protocol_version : PeerId → Result (LookupError E) Text
  unfolding string_value
  get_protocol_version peer = string_value (peerstore_get peer (codes "ProtocolVersion"))

  unfoldable pub get_agent_version : PeerId → Result (LookupError E) Text
  unfolding string_value
  get_agent_version peer = string_value (peerstore_get peer (codes "AgentVersion"))

-- The calls that IdentifyRequest makes, in order. Waiting ends with the identification or with the
-- context, and either is taken as success.
pub data NetworkCall : Type 0 where
  connect conns_to_peer identify_wait close_peer : NetworkCall

-- IdentifyRequest, over the outcome of Connect and the number of connections to the peer then.
unfoldable pub identify_request :
    {E : Type 0} → Option E → ℕ → Option (LookupError E) × List NetworkCall
identify_request (some e) conns = (some (connect_failed e), connect ∷ [])
identify_request none zero = (some not_connected, connect ∷ conns_to_peer ∷ close_peer ∷ [])
identify_request none (suc n) = (none, connect ∷ conns_to_peer ∷ identify_wait ∷ close_peer ∷ [])
