-- ===== src/Address.antt =====
-- crawler/util/util.go and multiAddressBuilder of crawler/crawl/service.go: multi-addresses of nodes and
-- what node records say. Addresses, IDs and keys are those of libp2p and go-ethereum.
pub mod Enode
pub mod Dialled
use nodewatch_api.Base.{
  ℕ, ◌/◌, ◌-◌, Bool, true, false, Option, none, some, List, [], ◌∷◌, ◌++◌, length, ◌==◌,
  if◌then◌else◌, Result, ok, err,
}
use nodewatch_api.Base.Int.{ℤ, pos, quot_ℤ}
use nodewatch_api.Base.Text.{Text, codes}

-- What the functions read of a node: the bytes and the text of its IP, its ports and its key.
pub record EnodeView (Pubkey : Type 0) : Type 0 where
  pub ip : List ℕ
  pub ip_text : Text
  pub tcp_port : ℕ
  pub udp_port : ℕ
  pub pubkey : Pubkey

-- peer.AddrInfo
pub record AddrInfo (PeerId Multiaddr : Type 0) : Type 0 where
  pub peer_id : PeerId
  pub transports : List Multiaddr

-- What the code calls: the conversion of keys, IDs of keys and their texts, decimal texts, the parser
-- of multi-addresses, and the split of one into its transport and its ID.
pub record AddressLibrary (E Pubkey Key PeerId Multiaddr : Type 0) : Type 0 where
  pub convert_pubkey : Pubkey → Result E Key
  pub id_from_public_key : Key → Result E PeerId
  pub id_text : PeerId → Text
  pub decimal : ℕ → Text
  pub new_multiaddr : Text → Result E Multiaddr
  pub addr_info_from_p2p_addr : Multiaddr → Result E (AddrInfo PeerId Multiaddr)
  pub split_transport : Multiaddr → Multiaddr

abbrev pub ip_scheme : List ℕ → Text
ip_scheme ip = if length ip == 16 then codes "ip6" else codes "ip4"

module _ {E Pubkey Key PeerId Multiaddr : Type 0}
    (lib : AddressLibrary E Pubkey Key PeerId Multiaddr) where
  -- The text of an address: `/%s/%s/tcp/%d/p2p/%s`, or with `udp`.
  unfoldable pub address_text : EnodeView Pubkey → Text → ℕ → PeerId → Text
  address_text node transport port peer =
      codes "/"
      ++ ip_scheme node.ip
      ++ codes "/"
      ++ node.ip_text
      ++ codes "/"
      ++ transport
      ++ codes "/"
      ++ lib.decimal port
      ++ codes "/p2p/"
      ++ lib.id_text peer

  -- EnodeToMultiAddr
  unfoldable pub enode_to_multi_addr : EnodeView Pubkey → Result E (List Multiaddr)
  unfolding address_text
  enode_to_multi_addr node = elim (lib.convert_pubkey node.pubkey) [
    | err e ↦ err e
    | ok key ↦ elim (lib.id_from_public_key key) [
      | err e ↦ err e
      | ok peer ↦ elim (lib.new_multiaddr (address_text node (codes "tcp") node.tcp_port peer)) [
        | err e ↦ err e
        | ok tcp ↦ elim (lib.new_multiaddr (address_text node (codes "udp") node.udp_port peer)) [
          | err e ↦ err e
          | ok udp ↦ ok (tcp ∷ udp ∷ [])
        ]
      ]
    ]
  ]

  -- The loop of AddrsFromEnode.
  unfoldable pub add_transports :
      List Multiaddr → AddrInfo PeerId Multiaddr → AddrInfo PeerId Multiaddr
  add_transports [] info = info
  add_transports (m ∷ ms) info =
      add_transports ms (record info { transports = info.transports ++ lib.split_transport m ∷ [] })

  -- AddrsFromEnode. Without an address the result is a nil pointer and no error.
  unfoldable pub addrs_from_enode : EnodeView Pubkey → Result E (Option (AddrInfo PeerId Multiaddr))
  unfolding enode_to_multi_addr add_transports
  addrs_from_enode node = elim (enode_to_multi_addr node) [
    | err e ↦ err e
    | ok addrs ↦ elim addrs [
      | [] ↦ ok none
      | m ∷ ms ↦ elim (lib.addr_info_from_p2p_addr m) [
        | err e ↦ err e
        | ok info ↦ ok (some (add_transports ms info))
      ]
    ]
  ]

-- ParseEnrEth2Data and ParseEnrAttnets: an entry of the record is loaded, and its bytes are
-- deserialized.
pub data EnrError (E : Type 0) : Type 0 where
  load_failed parse_failed : E → EnrError E

pub parse_enr_entry :
    {E A : Type 0}
    → (Text → Result E (List ℕ))
    → (List ℕ → Result E A)
    → Text
    → Result (EnrError E) A
parse_enr_entry load deserialize key = elim (load key) [
  | err e ↦ err (load_failed e)
  | ok bytes ↦ elim (deserialize bytes) [ err e ↦ err (parse_failed e) | ok a ↦ ok a ]
]

pub parse_enr_eth2_data :
    {E A : Type 0} → (Text → Result E (List ℕ)) → (List ℕ → Result E A) → Result (EnrError E) A
unfolding parse_enr_entry
parse_enr_eth2_data load deserialize = parse_enr_entry load deserialize (codes "eth2")

pub parse_enr_attnets :
    {E A : Type 0} → (Text → Result E (List ℕ)) → (List ℕ → Result E A) → Result (EnrError E) A
unfolding parse_enr_entry
parse_enr_attnets load deserialize = parse_enr_entry load deserialize (codes "attnets")

-- The error of a call, next to that of an invalid IP.
with_error : {E A : Type 0} → Result E A → Result (Option E) A
with_error (ok m) = ok m
with_error (err e) = err (some e)

-- multiAddressBuilder: `to4` and `to16` say whether an IP has these forms.
unfoldable pub multi_address_builder :
    {E Multiaddr : Type 0}
    → (Text → Result E Multiaddr)
    → (ℕ → Text)
    → Bool
    → Bool
    → Text
    → ℕ
    → Result (Option E) Multiaddr
unfolding with_error
multi_address_builder new_multiaddr decimal to4 to16 ip_text port =
    if to4
    then with_error (new_multiaddr (codes "/ip4/" ++ ip_text ++ codes "/tcp/" ++ decimal port))
    else if to16
    then with_error (new_multiaddr (codes "/ip6/" ++ ip_text ++ codes "/tcp/" ++ decimal port))
    else err none
