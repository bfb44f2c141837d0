-- ===== src/Run/Handlers.antt =====
-- The handlers of the threads, and histories, under the invariant.
use peer_bridge_cli.Common.{
  OnSome-none, inl, inr, ℕ, zero, suc, ◌≡◌, refl, inl, inr, Option, none, some, List, [], ◌∷◌,
  Bytes, Text, is_empty, arith, if_both, Option-cases, OnSome, OnSome-bind, OnSome-map,
}
use peer_bridge_cli.StateManager.{
  connected, StateManager, is_in_state, NetworkEvent, peer_connected, all_peers_disconnected,
  shutdown_requested, get_next_event,
}
use peer_bridge_cli.Tun.{WaitResult, Round, go_on, leave, receive_round}
use peer_bridge_cli.Network.State.{Endpoint, ErrorCode}
use peer_bridge_cli.Network.Receive.{handle_keep_alive, run_posted}
use peer_bridge_cli.Network.Handlers.{
  handle_receive_from-Announces, handle_keep_alive-Announces, run_posted-Announces,
}
use peer_bridge_cli.Routing.{Windows}
use peer_bridge_cli.Signaling.{
  SignalingClient, JsonReader, SocketMessage, Handled, returned, thrown, undefined, handle_message,
}
use peer_bridge_cli.System.State.{P2PSystem, wired, is_tunnelling}
use peer_bridge_cli.System.Connection.{
  join_self, on_net, shutdown, handle_network_event, monitor_rounds, monitor_loop,
  accept_incoming_request, reject_incoming_request,
}
use peer_bridge_cli.System.Threads.{
  handle_callback, handle_signal, handle_datagram, after_round, handle_tun_read,
}
use peer_bridge_cli.Cli.{connect-OnSome, Command, execute, parse_command}
use peer_bridge_cli.Run.{
  Event, step, run, from_server, datagram, send_complete, posted_task, timer, tun_read, tun_write,
  monitor_turn, typed_line, leave_main, send_done,
}
use peer_bridge_cli.Run.Invariant.{
  Inv, Inv-Mild, stays, set_connecting-Mild, Announces-Mild, on_net-Inv,
}
use peer_bridge_cli.Run.Stops.{stop_connection-Inv, Ended, shutdown-Ended}
use peer_bridge_cli.Run.Preserve.{
  Inv-same, handle_packet_from_tun-Inv, after_receive-Inv, handle_tun_write-Inv,
  handle_callback-Inv, handle_peer_connected-Inv,
}

handle_signal-Inv :
    (windows : Windows) (make_address : Text → Option Text) {J : Type 0} (reader : JsonReader J)
    (m : SocketMessage) (s : P2PSystem)
    → Inv s
    → OnSome Inv (handle_signal windows make_address reader m s)
unfolding handle_signal is_tunnelling
handle_signal-Inv windows make_address reader m s v = after (handle_message reader m s.signaling)
  where
    after :
        (r : SignalingClient × Handled)
        → OnSome Inv (elim (r.1) [
          | undefined ↦ none
          | thrown ↦ some (record s { signaling = r.0 })
          | returned callback ↦ elim callback [
            | none ↦ some (record s { signaling = r.0 })
            | some call ↦ handle_callback windows make_address call (record s { signaling = r.0 })
          ]
        ])
    after (c, undefined) = tt
    after (c, thrown) = Inv-same v refl refl
    after (c, returned none) = Inv-same v refl refl
    after (c, returned (some call)) =
        handle_callback-Inv windows make_address call _ (Inv-same v refl refl)

handle_datagram-Inv :
    (now : ℕ) (error : ErrorCode) (transferred : ℕ) (buffer : Bytes) (sender : Endpoint)
    (s : P2PSystem)
    → Inv s
    → OnSome Inv (handle_datagram now error transferred buffer sender s)
unfolding handle_datagram
handle_datagram-Inv now error transferred buffer sender s v = elim (Option-cases s.net) [
  | inl e ↦ rw (e, handle_datagram) v
  | inr (n, e) ↦
      rw (e, handle_datagram)
        (after_receive-Inv s (wired s n) _ refl v
          (handle_receive_from-Announces now error transferred buffer sender (wired s n)))
]

after_round-Inv : (now : ℕ) (s : P2PSystem) (r : Round) → Inv s → OnSome Inv (after_round now s r)
unfolding after_round
after_round-Inv now s leave v = v
after_round-Inv now s (go_on none) v = v
after_round-Inv now s (go_on (some packet)) v = handle_packet_from_tun-Inv now packet s v

handle_tun_read-Inv :
    (now : ℕ) (packet : Option Bytes) (wait : WaitResult) (s : P2PSystem)
    → Inv s
    → OnSome Inv (handle_tun_read now packet wait s)
unfolding handle_tun_read
handle_tun_read-Inv now packet wait s v = elim (Option-cases s.tun) [
  | inl e ↦ rw (e, handle_tun_read) v
  | inr (t, e) ↦ rw (e, handle_tun_read) (after_round-Inv now s (receive_round packet wait t) v)
]

shutdown-Inv : (windows : Windows) (now : ℕ) (s : P2PSystem) → OnSome Inv (shutdown windows now s)
shutdown-Inv windows now s =
    OnSome-map (Ended windows) Inv (shutdown windows now s)
      (λ t h. record { up = λ e. cc; down = λ _. h.1 }) (shutdown-Ended windows now s)

handle_network_event-Inv :
    (windows : Windows) (now : ℕ) (e : NetworkEvent) (s : P2PSystem)
    → Inv s
    → OnSome Inv (handle_network_event windows now e s)
unfolding handle_network_event join_self
handle_network_event-Inv windows now peer_connected s v = handle_peer_connected-Inv windows now s v
handle_network_event-Inv windows now all_peers_disconnected s v =
    if_both Inv (is_in_state s.manager connected) _ _ (stop_connection-Inv windows now s) v
handle_network_event-Inv windows now shutdown_requested s v =
    OnSome-none Inv (shutdown windows now s) (join_self windows) (λ t. refl)

pub get_next-state : (m : StateManager) → (get_next_event m).1.current_state ≡ m.current_state
unfolding get_next_event
get_next-state m = ground arith

monitor_rounds-Inv :
    (windows : Windows) (fuel now : ℕ) (s : P2PSystem)
    → Inv s
    → OnSome Inv (monitor_rounds windows fuel now s)
unfolding monitor_rounds is_tunnelling
monitor_rounds-Inv windows zero now s v = v
monitor_rounds-Inv windows (suc fuel) now s v = elim (Option-cases (get_next_event s.manager).0) [
  | inl e ↦ rw (e, monitor_rounds) v
  | inr (x, e) ↦
      let u = record s { manager = (get_next_event s.manager).1 } in
      rw (e, monitor_rounds)
        (OnSome-bind Inv Inv (handle_network_event windows now x.event u) _
          (handle_network_event-Inv windows now x.event u
            (Inv-Mild v (stays (get_next-state s.manager)) refl))
          λ t h. monitor_rounds-Inv windows fuel now t h)
]

send_done-Inv :
    (error : ErrorCode) (seq : ℕ) (s : P2PSystem) → Inv s → Inv (on_net (send_done error seq) s)
send_done-Inv error seq s v = on_net-Inv (send_done error seq) s (λ w. stays refl) v

execute-Inv :
    (windows : Windows) (now : ℕ) (c : Command) (s : P2PSystem)
    → Inv s
    → OnSome Inv (execute windows now c s)
unfolding execute is_tunnelling accept_incoming_request reject_incoming_request
execute-Inv windows now (Command.connect peer) s v =
    connect-OnSome Inv windows now peer s v (λ c. Inv-Mild v (set_connecting-Mild s.manager) refl)
execute-Inv windows now Command.disconnect s v = stop_connection-Inv windows now s
execute-Inv windows now Command.accept s v =
    if_both Inv (is_empty s.pending_request_from) _ _ v (Inv-same v refl refl)
execute-Inv windows now Command.reject s v =
    if_both Inv (is_empty s.pending_request_from) _ _ v (Inv-same v refl refl)
execute-Inv windows now _ s v = v

module _ {J : Type 0} (reader : JsonReader J) (windows : Windows)
    (make_address : Text → Option Text) where
  step-Inv :
      (now : ℕ) (e : Event) (s : P2PSystem)
      → Inv s
      → OnSome Inv (step reader windows make_address now e s)
  unfolding step monitor_loop
  step-Inv now (from_server m) s v = handle_signal-Inv windows make_address reader m s v
  step-Inv now (datagram error transferred buffer sender) s v =
      handle_datagram-Inv now error transferred buffer sender s v
  step-Inv now (send_complete error seq) s v = send_done-Inv error seq s v
  step-Inv now posted_task s v =
      on_net-Inv (run_posted now) s (λ w. Announces-Mild (run_posted-Announces now w)) v
  step-Inv now (timer error) s v =
      on_net-Inv (handle_keep_alive now error) s
        (λ w. Announces-Mild (handle_keep_alive-Announces now error w)) v
  step-Inv now (tun_read packet wait) s v = handle_tun_read-Inv now packet wait s v
  step-Inv now (tun_write allocated) s v = handle_tun_write-Inv allocated s v
  step-Inv now monitor_turn s v = monitor_rounds-Inv windows _ now s v
  step-Inv now (typed_line line) s v = execute-Inv windows now (parse_command line) s v
  step-Inv now leave_main s v = shutdown-Inv windows now s

  pub run-Inv :
      (events : List (ℕ × Event)) (s : P2PSystem)
      → Inv s
      → OnSome Inv (run reader windows make_address events s)
  unfolding run
  run-Inv [] s v = v
  run-Inv ((now, e) ∷ rest) s v =
      OnSome-bind Inv Inv (step reader windows make_address now e s) _ (step-Inv now e s v)
        λ t h. run-Inv rest t h
