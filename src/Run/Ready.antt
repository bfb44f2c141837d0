-- ===== src/Run/Ready.antt =====
-- The handlers on a client that has its link and its tunnel.
use peer_bridge_cli.Common.{
  ℕ, ◌≡◌, refl, ◌∙◌, inl, inr, Bool, true, false, not, ◌&&◌, Option, none, some, Bytes, Text, arith,
  if◌then◌else◌, if_both, Option-cases, ◌>>=◌,
}
use peer_bridge_cli.Common.Int.{ℤ}
use peer_bridge_cli.StateManager.{
  SystemState, connecting, connected, is_in_state, NetworkEvent, peer_connected,
  all_peers_disconnected, shutdown_requested,
}
use peer_bridge_cli.Tun.{WaitResult, Round, go_on, leave, receive_round, start_packet_processing}
use peer_bridge_cli.Network.State.{Wired}
use peer_bridge_cli.Network.Connection
use peer_bridge_cli.Routing.{Windows, ConnectionConfig, configure_interface}
use peer_bridge_cli.Signaling.{
  send_json, send_texts, send_chat_request, request_peer_info, Callback, on_connect,
  on_chat_request, on_peer_info, on_chat_init,
}
use peer_bridge_cli.Signaling.{request_peer_info, send_chat_request, send_texts, send_json}
use peer_bridge_cli.Signaling.Utf8.{is_utf8}
use peer_bridge_cli.System.State.{P2PSystem, rewired, is_linked, with_state}
use peer_bridge_cli.System.Packets.{
  handle_packet_from_tun, forward_packet_to_peer, handle_network_data, deliver_packet_to_tun,
  is_ipv4,
}
use peer_bridge_cli.System.Connection.{
  close_tun, stop_tun, stop_network_interface, on_net, stop_connection, shutdown,
  start_network_interface, handle_peer_connected, handle_network_event, assign_ip_addresses, dial,
  handle_connection_init, connect_to_peer, accept_incoming_request, reject_incoming_request,
  handle_connection_request, handle_peer_info,
}
use peer_bridge_cli.System.Threads.{handle_callback, after_round, handle_tun_read, handle_tun_write}
use peer_bridge_cli.Cli.{Command, execute}

unfoldable pub is_some {ℓ} : {A : Type ℓ} → Option A → Bool
is_some none = false
is_some (some a) = true

-- The two owning pointers of the system are not null.
unfoldable pub is_ready : P2PSystem → Bool
is_ready s = is_some s.net && is_some s.tun

-- There is a result, and it is ready.
abbrev pub Goes : Option P2PSystem → Type 0
Goes none = ⊥
Goes (some t) = is_ready t ≡ true

pub Goes-bind :
    (o : Option P2PSystem) (f : P2PSystem → Option P2PSystem)
    → Goes o
    → ((t : P2PSystem) → is_ready t ≡ true → Goes (f t))
    → Goes (o >>= f)
Goes-bind none f h k = absurd h
Goes-bind (some t) f h k = k t h

pub on_net-ready : (f : Wired → Wired) (s : P2PSystem) → is_ready (on_net f s) ≡ is_ready s
unfolding is_ready on_net is_some
on_net-ready f s = ground arith

close_tun-Goes : (s : P2PSystem) → is_ready s ≡ true → Goes (close_tun s)
unfolding is_ready close_tun is_some
close_tun-Goes s h = ground arith

abbrev GoesWith : Option (P2PSystem × Bool) → Type 0
GoesWith none = ⊥
GoesWith (some r) = is_ready (r.0) ≡ true

pub GoesWith-bind :
    (o : Option (P2PSystem × Bool)) (f : P2PSystem × Bool → Option P2PSystem)
    → GoesWith o
    → ((t : P2PSystem) (ok : Bool) → is_ready t ≡ true → Goes (f (t, ok)))
    → Goes (o >>= f)
GoesWith-bind none f h k = absurd h
GoesWith-bind (some (t, ok)) f h k = k t ok h

start_interface-Goes : (s : P2PSystem) → is_ready s ≡ true → GoesWith (start_network_interface s)
unfolding is_ready start_network_interface is_some start_packet_processing
start_interface-Goes s h = ground arith

forward-Goes :
    (now : ℕ) (packet : Bytes) (s : P2PSystem)
    → is_ready s ≡ true
    → GoesWith (forward_packet_to_peer now packet s)
unfolding is_ready forward_packet_to_peer is_some
forward-Goes now packet s h = ground arith

handle_packet_from_tun-Goes :
    (now : ℕ) (packet : Bytes) (s : P2PSystem)
    → is_ready s ≡ true
    → Goes (handle_packet_from_tun now packet s)
unfolding handle_packet_from_tun
handle_packet_from_tun-Goes now packet s h =
    if_both Goes (is_ipv4 packet) _ _
      (GoesWith-bind (forward_packet_to_peer now packet s) _ (forward-Goes now packet s h)
        λ t ok k. k)
      h

pub handle_network_data-ready :
    (packet : Bytes) (s : P2PSystem)
    → is_ready s ≡ true
    → is_ready (handle_network_data packet s) ≡ true
unfolding is_ready handle_network_data deliver_packet_to_tun is_some
handle_network_data-ready packet s h = ground arith

pub rewired-ready : (s : P2PSystem) (w : Wired) → is_ready s ≡ true → is_ready (rewired s w) ≡ true
unfolding is_ready is_some
rewired-ready s w h = ground arith

after_round-Goes :
    (now : ℕ) (s : P2PSystem) (r : Round) → is_ready s ≡ true → Goes (after_round now s r)
unfolding after_round
after_round-Goes now s leave h = h
after_round-Goes now s (go_on none) h = h
after_round-Goes now s (go_on (some packet)) h = handle_packet_from_tun-Goes now packet s h

pub handle_tun_read-Goes :
    (now : ℕ) (packet : Option Bytes) (wait : WaitResult) (s : P2PSystem)
    → is_ready s ≡ true
    → Goes (handle_tun_read now packet wait s)
unfolding handle_tun_read
handle_tun_read-Goes now packet wait s h = elim (Option-cases s.tun) [
  | inl e ↦ rw (e, handle_tun_read) h
  | inr (t, e) ↦ rw (e, handle_tun_read) (after_round-Goes now s (receive_round packet wait t) h)
]

pub handle_tun_write-ready :
    (allocated : Bool) (s : P2PSystem)
    → is_ready s ≡ true
    → is_ready (handle_tun_write allocated s) ≡ true
unfolding is_ready handle_tun_write is_some
handle_tun_write-ready allocated s h = ground arith

dial-Goes :
    (windows : Windows) (make_address : Text → Option Text) (ip : Text) (port : ℤ) (s : P2PSystem)
    → is_ready s ≡ true
    → Goes (dial windows make_address ip port s)
unfolding is_ready dial is_some
dial-Goes windows make_address ip port s h = ground arith

assign_ip-ready : (s : P2PSystem) → is_ready (assign_ip_addresses s) ≡ is_ready s
unfolding is_ready assign_ip_addresses
assign_ip-ready s = ground arith

init-Goes :
    (windows : Windows) (make_address : Text → Option Text) (name ip : Text) (port : ℤ)
    (s : P2PSystem)
    → is_ready s ≡ true
    → Goes (handle_connection_init windows make_address name ip port s)
unfolding handle_connection_init is_ready
init-Goes windows make_address name ip port s h =
    let named = record s { peer_username = name; peer_ip = ip; peer_port = port } in
    let p = assign_ip_addresses (with_state connecting named) in
    let cfg : ConnectionConfig = record {
      self_index = if p.is_host then 1 else 2;
      peer_virtual_ip = p.peer_virtual_ip;
    } in
    let q = configure_interface windows cfg p.routing in
    let k : is_ready p ≡ true = assign_ip-ready (with_state connecting named) ∙ h in
    if_both Goes (not (q.1)) (some (record p { routing = q.0 }))
      (dial windows make_address ip port (record p { routing = q.0 })) k
      (dial-Goes windows make_address ip port (record p { routing = q.0 }) k)

pub handle_callback-Goes :
    (windows : Windows) (make_address : Text → Option Text) (c : Callback) (s : P2PSystem)
    → is_ready s ≡ true
    → Goes (handle_callback windows make_address c s)
unfolding handle_callback is_ready handle_connection_request handle_peer_info
handle_callback-Goes windows make_address (on_connect up) s h = ground arith
handle_callback-Goes windows make_address (on_chat_request requester) s h = h
handle_callback-Goes windows make_address (on_peer_info name ip port) s h = ground arith
handle_callback-Goes windows make_address (on_chat_init name ip port) s h =
    init-Goes windows make_address name ip port s h

-- An event that makes the monitor shut down.
abbrev pub asks_shutdown : NetworkEvent → Bool
asks_shutdown shutdown_requested = true
asks_shutdown _ = false

-- A command whose requests throw: a name that is not UTF-8, for a client without a connection that
-- is online.
abbrev pub is_garbled : Command → P2PSystem → Bool
is_garbled (Command.connect peer) s =
    (not (is_linked s) && s.signaling.connected) && not (is_utf8 peer)
is_garbled _ s = false

module _ (windows : Windows) where
  stop_interface-ready : (s : P2PSystem) → is_ready (stop_network_interface windows s) ≡ is_ready s
  unfolding is_ready stop_network_interface stop_tun is_some
  stop_interface-ready s = ground arith

  pub stop_connection-ready :
      (now : ℕ) (s : P2PSystem) → is_ready (stop_connection windows now s) ≡ is_ready s
  unfolding is_ready stop_connection
  stop_connection-ready now s =
      stop_interface-ready (on_net (Connection.stop_connection now) s)
      ∙ on_net-ready (Connection.stop_connection now) s

  stopped-ready :
      (now : ℕ) (s : P2PSystem)
      → is_ready (
          if is_linked s
          then stop_network_interface windows (on_net (Connection.stop_connection now) s)
          else s)
        ≡ is_ready s
  stopped-ready now s =
      if_both (λ t. is_ready t ≡ is_ready s) (is_linked s) _ _
        (stop_interface-ready _ ∙ on_net-ready (Connection.stop_connection now) s) refl

  pub shutdown-Goes : (now : ℕ) (s : P2PSystem) → is_ready s ≡ true → Goes (shutdown windows now s)
  unfolding shutdown is_ready
  shutdown-Goes now s h =
      let s₁ : P2PSystem =
        if is_linked s
        then stop_network_interface windows (on_net (Connection.stop_connection now) s)
        else s in
      let s₂ : P2PSystem = with_state SystemState.shutting_down (record s₁ { running = false }) in
      let ready : is_ready s₂ ≡ true = stopped-ready now s ∙ h in
      Goes-bind (close_tun (stop_network_interface windows s₂)) _
        (close_tun-Goes _ (stop_interface-ready s₂ ∙ ready))
        λ t k.
          Goes-bind (close_tun (on_net (Connection.shutdown now) t)) _
            (close_tun-Goes _ (on_net-ready (Connection.shutdown now) t ∙ k)) λ u r. r

  pub handle_network_event-Goes :
      (now : ℕ) (e : NetworkEvent) (s : P2PSystem)
      → asks_shutdown e ≡ false
      → is_ready s ≡ true
      → Goes (handle_network_event windows now e s)
  unfolding handle_network_event handle_peer_connected is_ready
  handle_network_event-Goes now peer_connected s a h =
      if_both Goes (not (is_in_state s.manager connecting)) _ _ h (
        GoesWith-bind (start_network_interface s) _ (start_interface-Goes s h) λ t ok k.
          if_both (λ x. is_ready x ≡ true) ok (with_state connected t)
            (stop_connection windows now t) k (stop_connection-ready now t ∙ k))
  handle_network_event-Goes now all_peers_disconnected s a h =
      if_both (λ x. is_ready x ≡ true) (is_in_state s.manager connected) _ _
        (stop_connection-ready now s ∙ h) h
  handle_network_event-Goes now shutdown_requested s a h = cc

  -- The two requests for a peer, of a client that is offline or for a name that is UTF-8.
  connect-Goes :
      (now : ℕ) (peer : Text) (s : P2PSystem)
      → is_ready s ≡ true
      → is_garbled (Command.connect peer) s ≡ false
      → Goes (execute windows now (Command.connect peer) s)
  unfolding execute connect_to_peer request_peer_info send_chat_request send_texts send_json
      is_ready
  connect-Goes now peer s h g = ground arith

  pub execute-ready :
      (now : ℕ) (c : Command) (s : P2PSystem)
      → is_ready s ≡ true
      → is_garbled c s ≡ false
      → Goes (execute windows now c s)
  unfolding execute is_ready accept_incoming_request reject_incoming_request
  execute-ready now (Command.connect peer) s h g = connect-Goes now peer s h g
  execute-ready now Command.disconnect s h g = stop_connection-ready now s ∙ h
  execute-ready now Command.accept s h g = ground arith
  execute-ready now Command.reject s h g = ground arith
  execute-ready now _ s h g = h
