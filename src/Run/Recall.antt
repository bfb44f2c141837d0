-- ===== src/Run/Recall.antt =====
-- A connected client that the server tells of another peer (client/src/P2PSystem.cpp,
-- handleConnectionInit).
use peer_bridge_cli.Common.{
  ℕ, ◌≡◌, refl, ap, ◌∙◌, true, false, not, Option, some, Text, arith, if◌then◌else◌, if_off,
}
use peer_bridge_cli.Common.Int.{ℤ}
use peer_bridge_cli.StateManager.{
  idle, connecting, connected, StateManager, set_state, is_valid_transition, same_state,
  is_in_state, all_peers_disconnected,
}
use peer_bridge_cli.Network.State.{UdpNetwork, Wired}
use peer_bridge_cli.Network.Connection
use peer_bridge_cli.Routing.{Windows, ConnectionConfig, configure_interface}
use peer_bridge_cli.System.State.{P2PSystem, wired, rewired, is_linked, is_tunnelling, with_state}
use peer_bridge_cli.System.Connection.{
  assign_ip_addresses, dial, handle_connection_init, handle_network_event,
}
use peer_bridge_cli.Run.Handshake.{Obeys, configured, assign-same}

kept_connected :
    (m : StateManager)
    → m.current_state ≡ connected
    → (set_state idle (set_state connecting m)).current_state ≡ idle
unfolding set_state is_valid_transition same_state
kept_connected m e = ground arith

refused :
    (make_address : Text → Option Text) (ip : Text) (port : ℤ) (w : Wired)
    → w.net.peer.connected ≡ true
    → Connection.connect_to_peer make_address ip port w ≡ (w, false)
unfolding Connection.connect_to_peer Connection.is_connected
refused make_address ip port w on = rw on refl

refused-dial :
    (windows : Windows) (make_address : Text → Option Text) (ip : Text) (port : ℤ) (s : P2PSystem)
    (n : UdpNetwork)
    → s.net ≡ some n
    → n.peer.connected ≡ true
    → dial windows make_address ip port s ≡ some (with_state idle (rewired s (wired s n)))
unfolding dial
refused-dial windows make_address ip port s n e on =
    rw (e, dial) (rw (refused make_address ip port (wired s n) on, dial) refl)

ignored :
    (windows : Windows) (now : ℕ) (s : P2PSystem)
    → s.manager.current_state ≡ idle
    → handle_network_event windows now all_peers_disconnected s ≡ some s
unfolding handle_network_event is_in_state same_state
ignored windows now s e = rw e refl

-- If a client with a connection, in the state connected, is told by the server of a peer, and
-- Windows obeys every command, then the call comes to a result; the client is idle, but its link
-- is still connected and its tunnel runs exactly if it did; and the event of the lost connection,
-- whenever it is handled then, changes nothing.
pub init-forgets :
    (windows : Windows) (make_address : Text → Option Text) (name ip : Text) (port : ℤ)
    (s : P2PSystem) (n : UdpNetwork) (now : ℕ)
    → Obeys windows
    → s.manager.current_state ≡ connected
    → s.net ≡ some n
    → n.peer.connected ≡ true
    → (t : P2PSystem) × (handle_connection_init windows make_address name ip port s ≡ some t)
      × (t.manager.current_state ≡ idle)
      × (is_linked t ≡ true)
      × (is_tunnelling t ≡ is_tunnelling s)
      × (handle_network_event windows now all_peers_disconnected t ≡ some t)
unfolding handle_connection_init is_linked is_tunnelling Connection.is_connected
init-forgets windows make_address name ip port s n now obeys up net on =
    let named : P2PSystem = record s { peer_username = name; peer_ip = ip; peer_port = port } in
    let begun : P2PSystem = with_state connecting named in
    let p : P2PSystem = assign_ip_addresses begun in
    let cfg : ConnectionConfig = record {
      self_index = if p.is_host then 1 else 2;
      peer_virtual_ip = p.peer_virtual_ip;
    } in
    let q = configure_interface windows cfg p.routing in
    let routed : P2PSystem = record p { routing = q.0 } in
    let (same_net, same_tun, same_manager) = assign-same begun in
    let t : P2PSystem = with_state idle (rewired routed (wired routed n)) in
    let down : t.manager.current_state ≡ idle =
      ap (λ m. (set_state idle m).current_state) same_manager ∙ kept_connected s.manager up in
    (
      t,
      if_off (not (q.1)) _ _ (ap not (configured windows cfg p.routing obeys))
          ∙ refused-dial windows make_address ip port routed n (same_net ∙ net) on,
      down,
      on,
      ap (λ o. is_tunnelling (record s { tun = o })) same_tun,
      ignored windows now t down,
    )
