-- ===== src/Run/Parting.antt =====
-- The event that a lost peer queues, and what a turn of the monitor makes of it.
use peer_bridge_cli.Common.{
  ℕ, zero, suc, ◌-◌, ◌^◌, ◌<◌, ◌≡◌, refl, ap, ◌∙◌, true, false, not, ◌&&◌, none, some, [], ◌∷◌,
  ◌++◌, Bytes, arith, if◌then◌else◌, if_on, if_off,
}
use peer_bridge_cli.StateManager.{
  SystemState, idle, connected, StateManager, NetworkEventData, all_peers_disconnected, monostate,
  set_state, same_state, is_in_state, queue_event, get_next_event,
}
use peer_bridge_cli.PeerConnection.{PeerConnectionInfo, update_activity, has_timed_out}
use peer_bridge_cli.Wire.{PacketType, of_byte, to_byte}
use peer_bridge_cli.Wire.Layout.{header}
use peer_bridge_cli.Network.State.{Endpoint, ErrorCode, Wired, notify_connection_event, is_aborted}
use peer_bridge_cli.Network.Receive.{
  handled, dispatch, handle_packet, handle_disconnect, handle_receive_from, start_async_receive,
  handle_keep_alive, check_all_connections,
}
use peer_bridge_cli.Network.Connection.{is_connected}
use peer_bridge_cli.Network.Packets.{touched, process_received-header}
use peer_bridge_cli.Routing.{Windows}
use peer_bridge_cli.System.State.{P2PSystem}
use peer_bridge_cli.System.Connection.{
  handle_network_event, monitor_rounds, monitor_loop, stop_connection,
}
use peer_bridge_cli.Network.Connection
use peer_bridge_cli.Network.State.{async_send_to, send_hole_punch_packet}
use peer_bridge_cli.Common.{inl, inr, Option-cases}
use peer_bridge_cli.System.Connection.{on_net}
use peer_bridge_cli.Run.Stops.{stop_network_interface-state}

-- The event that a loss queues.
abbrev pub lost_event : NetworkEventData
lost_event = record { event = all_peers_disconnected; payload = monostate }

pub goodbye-queued :
    (now seq : ℕ) (rest : Bytes) (sender : Endpoint) (w : Wired)
    → seq < 2 ^ 32
    → w.net.peer.connected ≡ true
    → (x : Wired) × (handle_receive_from now ErrorCode.success 16
          (header PacketType.disconnect seq ++ rest)
          sender
          w
        ≡ handled x none)
      × (x.manager ≡ queue_event lost_event w.manager)
unfolding handle_receive_from dispatch handle_packet start_async_receive update_activity of_byte
    to_byte handle_disconnect notify_connection_event
goodbye-queued now seq rest sender w small on =
    let n = record (w.net) { receives = w.net.receives - 1 } in
    let v = record w { net = if n.socket_open && true then start_async_receive n else n } in
    let v_on : v.net.peer.connected ≡ true = ground arith in
    (
      handle_disconnect now (touched now v),
      process_received-header now 16 PacketType.disconnect seq rest sender v refl small
          (omega arith),
      ap (λ (u : Wired). u.manager) (if_off (not v.net.peer.connected) _ _ (ap not v_on)),
    )

timed_out-connected :
    (now : ℕ) (p : PeerConnectionInfo) → has_timed_out now 20 p ≡ true → p.connected ≡ true
unfolding has_timed_out
timed_out-connected now p h = ground arith

pub silence-queued :
    (now : ℕ) (error : ErrorCode) (w : Wired)
    → is_aborted error ≡ false
    → w.net.running ≡ true
    → has_timed_out now 20 w.net.peer ≡ true
    → (handle_keep_alive now error w).manager ≡ queue_event lost_event w.manager
unfolding handle_keep_alive check_all_connections notify_connection_event send_hole_punch_packet
    async_send_to
silence-queued now error w fired on late =
    let up : w.net.peer.connected ≡ true = timed_out-connected now w.net.peer late in
    ap (λ (u : Wired). u.manager)
      (if_off (is_aborted error) w _ fired ∙ if_off (not w.net.running) _ _ (ap not on))
    ∙ ap (λ (u : Wired). u.manager)
        (if_on w.net.peer.connected _ _ up ∙ if_on (has_timed_out now 20 w.net.peer) _ _ late)

set_state-queue : (c : SystemState) (m : StateManager) → (set_state c m).event_queue ≡ m.event_queue
unfolding set_state
set_state-queue c m = ground arith

on_net-queue :
    (now : ℕ) (s : P2PSystem)
    → (on_net (Connection.stop_connection now) s).manager.event_queue ≡ s.manager.event_queue
unfolding on_net Connection.stop_connection
on_net-queue now s = elim (Option-cases s.net) [
  | inl e ↦ rw (e, on_net) refl
  | inr (n, e) ↦ rw (e, on_net) (set_state-queue idle s.manager)
]

-- A turn of the monitor, with the loss alone in the queue.
pub stop-queue :
    (windows : Windows) (now : ℕ) (s : P2PSystem)
    → (stop_connection windows now s).manager.event_queue ≡ s.manager.event_queue
unfolding stop_connection
stop-queue windows now s =
    set_state-queue idle _
    ∙ ap (λ (m : StateManager). m.event_queue)
        (stop_network_interface-state windows (on_net (Connection.stop_connection now) s))
    ∙ on_net-queue now s

next-empty : (m : StateManager) → m.event_queue ≡ [] → (get_next_event m).0 ≡ none
unfolding get_next_event
next-empty m e = ground arith

rounds-empty :
    (windows : Windows) (fuel now : ℕ) (s : P2PSystem)
    → s.manager.event_queue ≡ []
    → monitor_rounds windows fuel now s ≡ some s
unfolding monitor_rounds
rounds-empty windows zero now s e = refl
rounds-empty windows (suc fuel) now s e = rw (next-empty s.manager e, monitor_rounds) refl

pub monitor-stops :
    (windows : Windows) (now : ℕ) (s : P2PSystem)
    → s.manager ≡ record { current_state = connected; event_queue = lost_event ∷ [] }
    → monitor_loop windows now s
      ≡ some (
          stop_connection windows now
            (record s { manager = record { current_state = connected; event_queue = [] } }))
unfolding monitor_loop monitor_rounds get_next_event handle_network_event is_in_state same_state
monitor-stops windows now s e =
    let taken : P2PSystem = record s {
      manager = record { current_state = connected; event_queue = [] };
    } in
    ap (monitor_loop windows now) (λ i. record s { manager = e i })
    ∙ rounds-empty windows 1 now (stop_connection windows now taken) (stop-queue windows now taken)
