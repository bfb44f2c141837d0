-- ===== src/System/Connection.antt =====
-- The life of a connection: requests, the start and stop of the link and of the interface, and the
-- shutdown of the system. `windows` runs the commands of the interface's configuration, and
-- `make_address` reads an address.
use peer_bridge_cli.Common.{
  ℕ, zero, suc, Bool, true, false, ◌||◌, not, Option, none, some, [], Text, text_eq, is_empty,
  length, if◌then◌else◌, ◌>>=◌,
}
use peer_bridge_cli.Common.Int.{ℤ, pos}
use peer_bridge_cli.StateManager.{
  SystemState, NetworkEvent, peer_connected, all_peers_disconnected, shutdown_requested, set_state,
  is_in_state, get_next_event,
}
use peer_bridge_cli.Network.State.{Wired}
use peer_bridge_cli.Network.Connection
use peer_bridge_cli.Routing.{
  Windows, ConnectionConfig, configure_interface, reset_interface_configuration,
}
use peer_bridge_cli.Tun.{Tun, start_packet_processing, stop_packet_processing, close}
use peer_bridge_cli.Signaling.{
  SignalingClient, request_peer_info, send_chat_request, accept_chat_request, decline_chat_request,
  disconnect,
}
use peer_bridge_cli.System.State.{
  P2PSystem, wired, rewired, is_linked, with_state, host_ip, client_ip,
}

unfoldable pub assign_ip_addresses : P2PSystem → P2PSystem
assign_ip_addresses s =
    if s.is_host
    then record s { local_virtual_ip = host_ip; peer_virtual_ip = client_ip }
    else record s { local_virtual_ip = client_ip; peer_virtual_ip = host_ip }

-- The system that has asked for a peer.
abbrev pub requesting : Text → P2PSystem → SignalingClient → P2PSystem
requesting peer s asked = record s {
  peer_username = peer;
  is_host = false;
  manager = set_state SystemState.connecting s.manager;
  signaling = asked;
}

-- What a request throws is caught by nobody.
unfoldable pub connect_to_peer : Text → P2PSystem → Option (P2PSystem × Bool)
connect_to_peer peer s =
    if is_linked s
    then some (s, false)
    else request_peer_info peer s.signaling >>= λ told.
        send_chat_request peer told >>= λ asked. some (requesting peer s asked, true)

unfoldable pub accept_incoming_request : P2PSystem → P2PSystem
accept_incoming_request s = if is_empty s.pending_request_from then s else record s {
  is_host = true;
  signaling = accept_chat_request s.signaling;
  peer_username = s.pending_request_from;
  pending_request_from = [];
}

unfoldable pub reject_incoming_request : P2PSystem → P2PSystem
reject_incoming_request s =
    if is_empty s.pending_request_from
    then s
    else record s { signaling = decline_chat_request s.signaling; pending_request_from = [] }

unfoldable pub handle_connection_request : Text → P2PSystem → P2PSystem
handle_connection_request requester s = record s { pending_request_from = requester }

unfoldable pub handle_peer_info : Text → Text → ℤ → P2PSystem → P2PSystem
handle_peer_info name ip port s =
    if text_eq name s.peer_username then record s { peer_ip = ip; peer_port = port } else s

-- The link of the system, where there is one, goes through a step.
unfoldable pub on_net : (Wired → Wired) → P2PSystem → P2PSystem
on_net step s = elim s.net [ none ↦ s | some n ↦ rewired s (step (wired s n)) ]

-- `tunInterface->...`, through a pointer that may be null.
unfoldable pub close_tun : P2PSystem → Option P2PSystem
close_tun s = elim s.tun [ none ↦ none | some t ↦ some (record s { tun = some (close t) }) ]

unfoldable pub start_network_interface : P2PSystem → Option (P2PSystem × Bool)
start_network_interface s =
    if not (is_linked s) || not (is_in_state s.manager SystemState.connecting)
    then some (s, false)
    else elim s.tun [
      | none ↦ none
      | some t ↦
          let (u, ok) = start_packet_processing t in
          if not ok
          then some (record s { tun = some u }, false)
          else some (record s { tun = some u; console_logging = false }, true)
    ]

module _ (windows : Windows) where
  unfoldable pub stop_tun : Tun → P2PSystem → P2PSystem
  stop_tun t s = if not t.running then s else record s {
    tun = some (stop_packet_processing t);
    routing = reset_interface_configuration windows s.peer_virtual_ip s.routing;
  }

  unfoldable pub stop_network_interface : P2PSystem → P2PSystem
  stop_network_interface s = elim s.tun [ none ↦ s | some t ↦ stop_tun t s ]

  unfoldable pub stop_connection : ℕ → P2PSystem → P2PSystem
  stop_connection now s =
      let stopped = stop_network_interface (on_net (Connection.stop_connection now) s) in
      with_state SystemState.idle
        (record stopped { peer_username = []; peer_ip = []; peer_port = pos 0 })

  unfoldable pub shutdown : ℕ → P2PSystem → Option P2PSystem
  shutdown now s =
      let s₁ =
        if is_linked s
        then stop_network_interface (on_net (Connection.stop_connection now) s)
        else s in
      let s₂ = with_state SystemState.shutting_down (record s₁ { running = false }) in
      do
        s₃ ← close_tun (stop_network_interface s₂)
        s₄ ← close_tun (on_net (Connection.shutdown now) s₃)
        some (record s₄ { signaling = disconnect s₄.signaling; monitor_thread = false })

  unfoldable pub handle_peer_connected : ℕ → P2PSystem → Option P2PSystem
  handle_peer_connected now s =
      if not (is_in_state s.manager SystemState.connecting)
      then some s
      else start_network_interface s >>= λ (t, ok).
          some (if ok then with_state SystemState.connected t else stop_connection now t)

  -- `shutdown` on the monitor's own thread: the join at its end would be of the thread with itself,
  -- and throws. Nothing catches this, and the program ends.
  unfoldable pub join_self : P2PSystem → Option P2PSystem
  join_self s = none

  unfoldable pub handle_network_event : ℕ → NetworkEvent → P2PSystem → Option P2PSystem
  handle_network_event now peer_connected s = handle_peer_connected now s
  handle_network_event now all_peers_disconnected s =
      some (if is_in_state s.manager SystemState.connected then stop_connection now s else s)
  handle_network_event now shutdown_requested s = shutdown now s >>= join_self

  -- `monitorLoop`, with a bound on its rounds.
  unfoldable pub monitor_rounds : ℕ → ℕ → P2PSystem → Option P2PSystem
  monitor_rounds zero now s = some s
  monitor_rounds (suc fuel) now s =
      let (event, m) = get_next_event s.manager in
      elim event [
        | none ↦ some s
        | some e ↦ handle_network_event now e.event (record s { manager = m }) >>= λ t.
            monitor_rounds fuel now t
      ]

  -- One round more than there are events.
  unfoldable pub monitor_loop : ℕ → P2PSystem → Option P2PSystem
  monitor_loop now s = monitor_rounds (suc (length s.manager.event_queue)) now s

  module _ (make_address : Text → Option Text) where
    unfoldable pub dial : Text → ℤ → P2PSystem → Option P2PSystem
    dial ip port s = elim s.net [
      | none ↦ none
      | some n ↦
          let (w, ok) = Connection.connect_to_peer make_address ip port (wired s n) in
          some (if ok then rewired s w else with_state SystemState.idle (rewired s w))
    ]

    unfoldable pub handle_connection_init : Text → Text → ℤ → P2PSystem → Option P2PSystem
    handle_connection_init name ip port s =
        let named = record s { peer_username = name; peer_ip = ip; peer_port = port } in
        let placed = assign_ip_addresses (with_state SystemState.connecting named) in
        let cfg : ConnectionConfig = record {
          self_index = if placed.is_host then 1 else 2;
          peer_virtual_ip = placed.peer_virtual_ip;
        } in
        let (routing, configured) = configure_interface windows cfg placed.routing in
        let routed = record placed { routing = routing } in
        if not configured then some routed else dial ip port routed
