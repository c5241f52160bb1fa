-- ===== src/Address/Enode.antt =====
-- A node that can be addressed is given the addresses of both its ports.
use nodewatch_api.Base.{◌≡◌, some, [], ◌∷◌, ok, arith}
use nodewatch_api.Base.Text.{codes}
use nodewatch_api.Address.{
  EnodeView, AddressLibrary, address_text, enode_to_multi_addr, add_transports, addrs_from_enode,
}

-- What the libraries document of an address that ends in the ID of a peer: it parses, and taking it
-- apart gives the ID and one transport, which is also what splitting it gives.
pub record AddressLaws {E Pubkey Key PeerId Multiaddr : Type 0}
    (lib : AddressLibrary E Pubkey Key PeerId Multiaddr) (node : EnodeView Pubkey) (key : Key)
    (peer : PeerId) (tcp udp : Multiaddr) : Type 0 where
  pub converts : lib.convert_pubkey node.pubkey ≡ ok key
  pub identifies : lib.id_from_public_key key ≡ ok peer
  pub tcp_parses :
      lib.new_multiaddr (address_text lib node (codes "tcp") node.tcp_port peer) ≡ ok tcp
  pub udp_parses :
      lib.new_multiaddr (address_text lib node (codes "udp") node.udp_port peer) ≡ ok udp
  pub takes_apart :
      lib.addr_info_from_p2p_addr tcp
      ≡ ok (record { peer_id = peer; transports = lib.split_transport tcp ∷ [] })

-- AddrsFromEnode of a node whose key converts and whose two addresses parse is the ID of the key with
-- the transports of the TCP address and of the UDP address, in this order; it is never nil.
pub addrs_from_enode_lem :
    {E Pubkey Key PeerId Multiaddr : Type 0} (lib : AddressLibrary E Pubkey Key PeerId Multiaddr)
    (node : EnodeView Pubkey) (key : Key) (peer : PeerId) (tcp udp : Multiaddr)
    → AddressLaws lib node key peer tcp udp
    → addrs_from_enode lib node
      ≡ ok (
          some (record {
            peer_id = peer;
            transports = lib.split_transport tcp ∷ lib.split_transport udp ∷ [];
          }))
unfolding addrs_from_enode enode_to_multi_addr add_transports
addrs_from_enode_lem lib node key peer tcp udp h =
    ground (arith, h.converts, h.identifies, h.tcp_parses, h.udp_parses, h.takes_apart)
