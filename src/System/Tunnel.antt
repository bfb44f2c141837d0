-- ===== src/System/Tunnel.antt =====
-- A packet of the virtual network, from one client's tunnel to the other's; and the two addresses.
use peer_bridge_cli.Common.{
  ℕ, ◌+◌, ◌-◌, ◌^◌, ◌<◌, ◌≤◌, ◌≡◌, ◌≢◌, refl, ap, sym, ◌∙◌, Bool, true, false, ◌&&◌, not, none,
  some, [], ◌∷◌, ◌++◌, Bytes, Text, codes, arith, length, if◌then◌else◌, subst,
}
use peer_bridge_cli.Decimal.{decimal}
use peer_bridge_cli.Network.State.{
  Endpoint, ErrorCode, UdpNetwork, Wired, message_packet, send_message, async_send_to,
}
use peer_bridge_cli.Network.Receive.{handled, handle_receive_from, establish, start_async_receive}
use peer_bridge_cli.Network.Packets.{touched, message_packet-layout}
use peer_bridge_cli.Network.Delivery.{message-delivered, acknowledged}
use peer_bridge_cli.Tun.{Tun, send_packet}
use peer_bridge_cli.System.State.{P2PSystem, wired, rewired, is_linked, host_ip, client_ip}
use peer_bridge_cli.System.Packets.{
  is_ipv4, is_wanted, forward_packet_to_peer, handle_packet_from_tun, handle_network_data,
  deliver_packet_to_tun,
}
use peer_bridge_cli.System.Connection.{assign_ip_addresses}
use peer_bridge_cli.System.Threads.{after_receive, handle_datagram}
use peer_bridge_cli.Cli.{shown_ips}

-- The address of a role.
abbrev pub role_ip : Bool → Text
role_ip host = if host then host_ip else client_ip

role_ip-index : (host : Bool) → role_ip host ≡ codes "10.0.0." ++ decimal (if host then 1 else 2)
unfolding decimal
role_ip-index true = refl
role_ip-index false = refl

role_ip-apart : (a b : Bool) → a ≢ b → role_ip a ≡ role_ip (not b)
role_ip-apart true true h = absurd (h refl)
role_ip-apart true false h = refl
role_ip-apart false true h = refl
role_ip-apart false false h = absurd (h refl)

assign_ip-roles :
    (s : P2PSystem)
    → let a = assign_ip_addresses s in
      (a.local_virtual_ip ≡ role_ip s.is_host)
      × (a.peer_virtual_ip ≡ role_ip (not s.is_host))
      × (a.is_host ≡ s.is_host)
      × (is_linked a ≡ is_linked s)
unfolding assign_ip_addresses is_linked
assign_ip-roles s = ground arith

shown_ips-roles :
    (s : P2PSystem)
    → shown_ips s
      ≡ (if is_linked s then some (role_ip s.is_host, role_ip (not s.is_host)) else none)
unfolding shown_ips
shown_ips-roles s = ground arith

-- Two clients of different roles are given addresses such that each one's own address is what the
-- other takes for its peer's; the own address is the one that the interface is configured with,
-- 10.0.0.1 for the host and 10.0.0.2 for the other; and `/ip` prints the two addresses if there is
-- a link, and nothing of them otherwise.
assign_ip-complementary :
    (s t : P2PSystem)
    → s.is_host ≢ t.is_host
    → let a = assign_ip_addresses s in
      let b = assign_ip_addresses t in
      (a.local_virtual_ip ≡ b.peer_virtual_ip)
      × (a.peer_virtual_ip ≡ b.local_virtual_ip)
      × (a.local_virtual_ip ≡ codes "10.0.0." ++ decimal (if a.is_host then 1 else 2))
      × (shown_ips a ≡ (if is_linked a then some (a.local_virtual_ip, a.peer_virtual_ip) else none))
assign_ip-complementary s t h =
    let (a, b, c, d) = assign_ip-roles s in
    let (p, q, r, l) = assign_ip-roles t in
    (
      a ∙ role_ip-apart s.is_host t.is_host h ∙ sym q,
      b ∙ sym (p ∙ role_ip-apart t.is_host s.is_host (λ e. h (sym e))),
      a
          ∙ role_ip-index s.is_host
          ∙ ap (λ x. codes "10.0.0." ++ decimal (if x then 1 else 2)) (sym c),
      simp (shown_ips-roles (assign_ip_addresses s), a, b, c),
    )

module _ (now : ℕ) (packet : Bytes) (s : P2PSystem) (n : UdpNetwork) where
  sent_by :
      s.net ≡ some n
      → n.running ≡ true
      → is_ipv4 packet ≡ true
      → is_wanted s.peer_virtual_ip packet ≡ true
      → handle_packet_from_tun now packet s
        ≡ some (record s { net = some (send_message now packet n).0 })
  unfolding handle_packet_from_tun forward_packet_to_peer
  sent_by e on v w = simp (e, v, w)

sent_packet :
    (now : ℕ) (packet : Bytes) (n : UdpNetwork)
    → n.running ≡ true
    → 16 + length packet ≤ 65507
    → (send_message now packet n).0.sent
      ≡ n.sent ++ (n.peer_endpoint, (message_packet n.next_seq packet).packet) ∷ []
unfolding send_message async_send_to
sent_packet now packet n on fits = ground arith

message_packet-length :
    (next : ℕ) (packet : Bytes)
    → 16 + length packet ≤ 65507
    → length (message_packet next packet).packet ≡ 16 + length packet
message_packet-length next packet fits =
    rw (message_packet-layout next packet (omega arith)) (omega arith)

taken_by :
    (packet : Bytes) (t : P2PSystem) (u : Tun)
    → t.tun ≡ some u
    → u.running ≡ true
    → is_ipv4 packet ≡ true
    → is_wanted t.local_virtual_ip packet ≡ true
    → (handle_network_data packet t).tun ≡ some (record u { outgoing = u.outgoing ++ packet ∷ [] })
unfolding handle_network_data deliver_packet_to_tun send_packet
taken_by packet t u e on v w = ground arith

rearmed : Wired → Wired
rearmed w =
    let n = record (w.net) { receives = w.net.receives - 1 } in
    record w { net = if n.socket_open && true then start_async_receive n else n }

rearmed-keeps :
    (w : Wired)
    → ((rearmed w).net.running ≡ w.net.running)
      × ((rearmed w).net.has_callback ≡ w.net.has_callback)
unfolding rearmed start_async_receive
rearmed-keeps w = ground arith

received_by :
    (now seq : ℕ) (packet padding : Bytes) (sender : Endpoint) (t : P2PSystem) (m : UdpNetwork)
    → t.net ≡ some m
    → m.running ≡ true
    → m.has_callback ≡ true
    → seq < 2 ^ 32
    → 16 + length packet ≤ 65507
    → (w : Wired) × (handle_datagram now ErrorCode.success
          (16 + length packet)
          ((message_packet seq packet).packet ++ padding)
          sender
          t
        ≡ some (handle_network_data packet (rewired t w)))
unfolding handle_datagram handle_receive_from after_receive rearmed
received_by now seq packet padding sender t m e on call small fits =
    let v = rearmed (wired t m) in
    let (a, b) = rearmed-keeps (wired t m) in
    let d = message-delivered now seq packet padding sender v small fits (a ∙ on) in
    (
      acknowledged sender seq (establish now sender (touched now v)),
      rw (e, handle_datagram)
          (ap (after_receive t) (
            d
            ∙ ap (handled (acknowledged sender seq (establish now sender (touched now v))))
                (ap (λ x. if x then some packet else none) (b ∙ call)))),
    )

-- A packet that one client reads from its tunnel, of IP version 4 and wanted at the peer's virtual
-- address, goes out as one datagram to the peer; when that datagram comes in at the other client,
-- with whatever behind it in the receive buffer, the same packet stands at the end of that
-- client's tunnel queue. The two links run, the second one has its callback, the second tunnel
-- runs, the second client has the virtual address that the first one takes for its peer, and the
-- packet fits a datagram.
pub tunnel-to-tunnel :
    (now later : ℕ) (packet padding : Bytes) (sender : Endpoint) (s t : P2PSystem)
    (n m : UdpNetwork) (u : Tun)
    → s.net ≡ some n
    → n.running ≡ true
    → n.next_seq < 2 ^ 32
    → t.net ≡ some m
    → m.running ≡ true
    → m.has_callback ≡ true
    → t.tun ≡ some u
    → u.running ≡ true
    → t.local_virtual_ip ≡ s.peer_virtual_ip
    → is_ipv4 packet ≡ true
    → is_wanted s.peer_virtual_ip packet ≡ true
    → 16 + length packet ≤ 65507
    → (sent : Bytes) × (n' : UdpNetwork) × (t' : P2PSystem) × (handle_packet_from_tun now packet s
        ≡ some (record s { net = some n' }))
      × (n'.sent ≡ n.sent ++ (n.peer_endpoint, sent) ∷ [])
      × (handle_datagram later ErrorCode.success (length sent) (sent ++ padding) sender t ≡ some t')
      × (t'.tun ≡ some (record u { outgoing = u.outgoing ++ packet ∷ [] }))
tunnel-to-tunnel now later packet padding sender s t n m u sn on small tn up call tt' run same v w
      fits =
    let (w', r) = received_by later n.next_seq packet padding sender t m tn up call small fits in
    (
      (message_packet n.next_seq packet).packet,
      (send_message now packet n).0,
      handle_network_data packet (rewired t w'),
      sent_by now packet s n sn on v w,
      sent_packet now packet n on fits,
      rw (message_packet-length n.next_seq packet fits) r,
      taken_by packet (rewired t w') u tt' run v
          (subst (λ x. is_wanted x packet ≡ true) (sym same) w),
    )
