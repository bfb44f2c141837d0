-- ===== src/Network/Connection.antt =====
-- The lifecycle of the UDP link: listen, connect, stop, shut down.
--
-- What Boost decides is an argument: the socket's local endpoint (`none` where it throws), whether
-- the buffer options are accepted, and `make_address`, which reads an address (`none` where it
-- throws) into the text that prints it.
use peer_bridge_cli.Common.{
  ℕ, Bool, true, false, Option, none, some, [], ◌∷◌, ◌++◌, Text, if◌then◌else◌,
}
use peer_bridge_cli.Common.Int.{ℤ, to_u16}
use peer_bridge_cli.Decimal.{int_text}
use peer_bridge_cli.StateManager.{SystemState, set_state}
use peer_bridge_cli.PeerConnection.{unconnected, set_connected}
use peer_bridge_cli.Network.State.{
  Endpoint, UdpNetwork, Wired, start_hole_punching_process, stop_keep_alive_timer,
  send_disconnect_notification,
}
use peer_bridge_cli.Network.Receive.{start_async_receive}

-- The constructor, at the time `now`.
unfoldable pub new_network : ℕ → UdpNetwork
new_network now = record {
  running = false;
  local_port = 0;
  local_address = [];
  next_seq = 0;
  socket_open = true;
  receives = 0;
  sent = [];
  timer_armed = false;
  io_stopped = false;
  io_thread = false;
  posted = [];
  pending_acks = [];
  peer_endpoint = record { address = []; port = 0 };
  peer = unconnected now;
  current_peer_endpoint = [];
  has_callback = false;
}

unfoldable pub set_message_callback : UdpNetwork → UdpNetwork
set_message_callback n = record n { has_callback = true }

unfoldable pub start_listening : Option Endpoint → Bool → UdpNetwork → UdpNetwork × Bool
start_listening local options_accepted n =
    let restarted = record n { io_stopped = false } in
    elim local [
      | none ↦ (restarted, false)
      | some e ↦
          let named = record restarted { local_address = e.address; local_port = e.port } in
          if options_accepted
          then (
            record (start_async_receive (record named { running = true })) { io_thread = true },
            true,
          )
          else (named, false)
    ]

unfoldable pub is_connected : UdpNetwork → Bool
is_connected n = n.peer.connected

module _ (make_address : Text → Option Text) where
  unfoldable pub connect_to_peer : Text → ℤ → Wired → Wired × Bool
  connect_to_peer ip port w = if is_connected w.net then (w, false) else elim (make_address ip) [
    | none ↦ (w, false)
    | some addr ↦
        let dialled = record (w.net) {
          peer_endpoint = record { address = addr; port = to_u16 port };
          current_peer_endpoint = ip ++ (b':' ∷ int_text port);
          running = true;
        } in
        (
          record {
            manager = set_state SystemState.connecting w.manager;
            net = start_hole_punching_process dialled;
          },
          true,
        )
  ]

unfoldable pub stop_connection : ℕ → Wired → Wired
stop_connection now w =
    let n = send_disconnect_notification w.net in
    let m = record n { peer = set_connected now false n.peer; running = false } in
    record { manager = set_state SystemState.idle w.manager; net = stop_keep_alive_timer m }

-- The socket is cancelled and closed, the io context stopped and its thread joined.
unfoldable pub shutdown : ℕ → Wired → Wired
shutdown now w =
    let v = if is_connected w.net then stop_connection now w else w in
    let n = record (v.net) { running = false; peer = set_connected now false v.net.peer } in
    let stopped = stop_keep_alive_timer n in
    record {
      manager = set_state SystemState.shutting_down v.manager;
      net = record stopped { socket_open = false; io_stopped = true; io_thread = false };
    }
