-- ===== src/System/Packets.antt =====
-- The packets of the virtual network: from the tunnel to the peer, and from the peer to the tunnel.
use peer_bridge_cli.Common.{
  ℕ, ◌/◌, ◌^◌, Bool, false, ◌&&◌, ◌||◌, not, Option, none, some, Bytes, Text, codes, leb, ◌==◌,
  length, get_or, text_eq, if◌then◌else◌, ◌>>=◌,
}
use peer_bridge_cli.Ip.{uint32_to_ip}
use peer_bridge_cli.Wire.{word32}
use peer_bridge_cli.Network.State.{send_message}
use peer_bridge_cli.Tun.{send_packet}
use peer_bridge_cli.System.State.{P2PSystem}

-- `sizeof(IPPacket)`
abbrev pub header_size : ℕ
header_size = 20

-- At least a header, of version 4.
unfoldable pub is_ipv4 : Bytes → Bool
is_ipv4 packet = leb header_size (length packet) && (get_or packet 0 0 / 2 ^ 4) == 4

unfoldable pub is_broadcast : Text → Bool
is_broadcast dst = text_eq dst (codes "10.0.0.255") || text_eq dst (codes "255.255.255.255")

unfoldable pub is_multicast : ℕ → Bool
is_multicast dst_ip = (dst_ip / 2 ^ 28) == 14

-- The filter of both directions: for `own`, or for all.
unfoldable pub is_wanted : Text → Bytes → Bool
is_wanted own packet =
    let dst_ip = word32 packet 16 in
    let dst = uint32_to_ip dst_ip in text_eq dst own || (is_broadcast dst || is_multicast dst_ip)

unfoldable pub forward_packet_to_peer : ℕ → Bytes → P2PSystem → Option (P2PSystem × Bool)
forward_packet_to_peer now packet s =
    if not (is_wanted s.peer_virtual_ip packet) then some (s, false) else elim s.net [
      | none ↦ none
      | some n ↦ let (m, ok) = send_message now packet n in some (record s { net = some m }, ok)
    ]

unfoldable pub handle_packet_from_tun : ℕ → Bytes → P2PSystem → Option P2PSystem
handle_packet_from_tun now packet s =
    if is_ipv4 packet then (forward_packet_to_peer now packet s >>= λ (t, _). some t) else some s

unfoldable pub deliver_packet_to_tun : Bytes → P2PSystem → P2PSystem × Bool
deliver_packet_to_tun packet s = elim s.tun [
  | none ↦ (s, false)
  | some t ↦
      if not t.running
      then (s, false)
      else if not (is_wanted s.local_virtual_ip packet)
      then (s, false)
      else let (u, ok) = send_packet packet t in (record s { tun = some u }, ok)
]

unfoldable pub handle_network_data : Bytes → P2PSystem → P2PSystem
handle_network_data packet s = if is_ipv4 packet then (deliver_packet_to_tun packet s).0 else s
