-- ===== src/Address/Dialled.antt =====
-- The addresses of a peer: what NewPeer of models/peer.go keeps of a node's, and GetPeerInfo, which makes
-- of these the addresses that the crawler dials.
use nodewatch_api.Base.{◌≡◌, refl, Option, none, some, List, [], ◌∷◌, map, Result, ok, err}
use nodewatch_api.Base.Text.{Text}
use nodewatch_api.Address.{EnodeView, AddressLibrary, AddrInfo, addrs_from_enode}
use nodewatch_api.Address.Enode.{AddressLaws, addrs_from_enode_lem}

-- The parts of a peer that come from its addresses.
pub record Addressed (PeerId : Type 0) : Type 0 where
  pub id : PeerId
  pub addrs : List Text

module _ {E Pubkey Key PeerId Multiaddr : Type 0}
    (lib : AddressLibrary E Pubkey Key PeerId Multiaddr) where
  -- `madd, _ := ma.NewMultiaddr(v)`: an address that does not parse becomes nil.
  parse_addr : Text → Option Multiaddr
  parse_addr t = elim (lib.new_multiaddr t) [ err e ↦ none | ok m ↦ some m ]

  -- GetPeerInfo
  pub get_peer_info : Addressed PeerId → AddrInfo PeerId (Option Multiaddr)
  unfolding parse_addr
  get_peer_info p = record { peer_id = p.id; transports = map parse_addr p.addrs }

module _ {E Pubkey Key PeerId Multiaddr : Type 0}
    (lib : AddressLibrary E Pubkey Key PeerId Multiaddr) (multiaddr_text : Multiaddr → Text) where
  -- The loop of NewPeer over the addresses.
  addr_texts : List Multiaddr → List Text
  addr_texts [] = []
  addr_texts (m ∷ ms) = multiaddr_text m ∷ addr_texts ms

  -- What NewPeer takes from AddrsFromEnode. A nil pointer without an error makes it panic: `none`.
  pub new_addressed : EnodeView Pubkey → Option (Result E (Addressed PeerId))
  unfolding addr_texts
  new_addressed node = elim (addrs_from_enode lib node) [
    | err e ↦ some (err e)
    | ok none ↦ none
    | ok (some info) ↦ some (ok (record { id = info.peer_id; addrs = addr_texts info.transports }))
  ]

  parse_addr_text :
      (m : Multiaddr)
      → lib.new_multiaddr (multiaddr_text m) ≡ ok m
      → parse_addr lib (multiaddr_text m) ≡ some m
  unfolding parse_addr
  parse_addr_text m h = rw (h, parse_addr) refl

  -- A node whose key converts and whose addresses parse and come apart, where the parser of addresses
  -- takes back the texts of the transports of the two: NewPeer gets through to a peer, and GetPeerInfo
  -- of that peer is the ID of the node's key with the transports of its TCP address and of its UDP
  -- address, in this order and none of them nil.
  pub get_peer_info-new_addressed :
      (node : EnodeView Pubkey) (key : Key) (peer : PeerId) (tcp udp : Multiaddr)
      → AddressLaws lib node key peer tcp udp
      → lib.new_multiaddr (multiaddr_text (lib.split_transport tcp)) ≡ ok (lib.split_transport tcp)
      → lib.new_multiaddr (multiaddr_text (lib.split_transport udp)) ≡ ok (lib.split_transport udp)
      → (p : Addressed PeerId) × (new_addressed node ≡ some (ok p))
        × (get_peer_info lib p ≡ record {
          peer_id = peer;
          transports = some (lib.split_transport tcp) ∷ some (lib.split_transport udp) ∷ [];
        })
  unfolding new_addressed get_peer_info addr_texts
  get_peer_info-new_addressed node key peer tcp udp h t u =
      let t' = parse_addr_text (lib.split_transport tcp) t in
      let u' = parse_addr_text (lib.split_transport udp) u in
      let found = addrs_from_enode_lem lib node key peer tcp udp h in
      (
        record {
          id = peer;
          addrs =
              multiaddr_text (lib.split_transport tcp)
              ∷ multiaddr_text (lib.split_transport udp)
              ∷ [];
        },
        rw (found, new_addressed) refl,
        rw (t', u') refl,
      )
