-- ===== src/Run/Refines.antt =====
-- The whole client refines the state machine: which event moves it, and how.
use peer_bridge_cli.Common.{
  ℕ, ◌≡◌, refl, ap, ◌∙◌, inl, inr, Bool, not, Option, none, some, Bytes, Text, arith, if_both,
  Option-cases, OnSome, OnSome-some, OnSome-bind, OnSome-map,
}
use peer_bridge_cli.StateManager.{SystemState, shutting_down, queue_event}
use peer_bridge_cli.Network.State.{Endpoint, ErrorCode, Wired}
use peer_bridge_cli.Network.Receive.{Received, fault, handled, handle_keep_alive, run_posted}
use peer_bridge_cli.Network.Events.{Announces, quiet, found, lost, Returned}
use peer_bridge_cli.Network.Handlers.{
  handle_receive_from-Announces, handle_keep_alive-Announces, run_posted-Announces,
}
use peer_bridge_cli.Routing.{Windows}
use peer_bridge_cli.Tun.{WaitResult, Round, go_on, leave, receive_round}
use peer_bridge_cli.Signaling.{JsonReader}
use peer_bridge_cli.System.State.{P2PSystem, wired, rewired}
use peer_bridge_cli.System.Packets.{
  handle_packet_from_tun, forward_packet_to_peer, handle_network_data, deliver_packet_to_tun,
  is_wanted, is_ipv4,
}
use peer_bridge_cli.System.Connection.{on_net, monitor_loop, shutdown}
use peer_bridge_cli.System.Threads.{
  after_receive, handle_datagram, after_round, handle_tun_read, handle_tun_write,
}
use peer_bridge_cli.Cli.{parse_command}
use peer_bridge_cli.Run.{
  Event, step, from_server, datagram, send_complete, posted_task, timer, tun_read, tun_write,
  monitor_turn, typed_line, leave_main, send_done,
}
use peer_bridge_cli.Run.Stops.{Ended, shutdown-Ended}
use peer_bridge_cli.Run.Lifecycle.{Calls, Watches, state}
use peer_bridge_cli.Run.Moves.{signal-Called, execute-Called, rounds-Watched}

-- The state machine stays.
abbrev Still : P2PSystem → P2PSystem → Type 0
Still s t = state t ≡ state s

Announces-state : {w v : Wired} → Announces w v → v.manager.current_state ≡ w.manager.current_state
unfolding queue_event
Announces-state (quiet a b) = ap (λ m. m.current_state) b
Announces-state (found a b c) = ap (λ m. m.current_state) c
Announces-state (lost a b c) = ap (λ m. m.current_state) c

on_net-Still :
    (f : Wired → Wired) (s : P2PSystem)
    → ((w : Wired) → (f w).manager.current_state ≡ w.manager.current_state)
    → Still s (on_net f s)
unfolding on_net
on_net-Still f s h = elim (Option-cases s.net) [
  | inl e ↦ rw (e, on_net) refl
  | inr (n, e) ↦ rw (e, on_net) (h (wired s n))
]

network_data-Still : (packet : Bytes) (s : P2PSystem) → Still s (handle_network_data packet s)
unfolding handle_network_data deliver_packet_to_tun
network_data-Still packet s = ground arith

received-Still :
    (s : P2PSystem) (w : Wired) (r : Received)
    → w.manager.current_state ≡ state s
    → Returned (Announces w) r
    → OnSome (Still s) (after_receive s r)
unfolding after_receive
received-Still s w fault e a = tt
received-Still s w (handled x none) e a = Announces-state a ∙ e
received-Still s w (handled x (some p)) e a =
    network_data-Still p (rewired s x) ∙ (Announces-state a ∙ e)

datagram-Still :
    (now : ℕ) (error : ErrorCode) (transferred : ℕ) (buffer : Bytes) (sender : Endpoint)
    (s : P2PSystem)
    → OnSome (Still s) (handle_datagram now error transferred buffer sender s)
unfolding handle_datagram
datagram-Still now error transferred buffer sender s = elim (Option-cases s.net) [
  | inl e ↦ rw (e, handle_datagram) refl
  | inr (n, e) ↦
      rw (e, handle_datagram)
        (received-Still s (wired s n) _ refl
          (handle_receive_from-Announces now error transferred buffer sender (wired s n)))
]

forward-Still :
    (now : ℕ) (packet : Bytes) (s : P2PSystem)
    → OnSome (λ r. Still s (r.0)) (forward_packet_to_peer now packet s)
unfolding forward_packet_to_peer
forward-Still now packet s =
    if_both (OnSome (λ r. Still s (r.0))) (not (is_wanted s.peer_virtual_ip packet)) _ _ refl
      (elim (Option-cases s.net) [ inl e ↦ rw e tt | inr (n, e) ↦ simp e refl ])

packet-Still :
    (now : ℕ) (packet : Bytes) (s : P2PSystem)
    → OnSome (Still s) (handle_packet_from_tun now packet s)
unfolding handle_packet_from_tun
packet-Still now packet s =
    if_both (OnSome (Still s)) (is_ipv4 packet) _ _
      (OnSome-bind (λ r. Still s (r.0)) (Still s) (forward_packet_to_peer now packet s) _
        (forward-Still now packet s) (λ r h. h))
      refl

round-Still : (now : ℕ) (s : P2PSystem) (r : Round) → OnSome (Still s) (after_round now s r)
unfolding after_round
round-Still now s leave = refl
round-Still now s (go_on none) = refl
round-Still now s (go_on (some packet)) = packet-Still now packet s

tun_read-Still :
    (now : ℕ) (packet : Option Bytes) (wait : WaitResult) (s : P2PSystem)
    → OnSome (Still s) (handle_tun_read now packet wait s)
unfolding handle_tun_read
tun_read-Still now packet wait s = elim (Option-cases s.tun) [
  | inl e ↦ rw (e, handle_tun_read) refl
  | inr (t, e) ↦ rw (e, handle_tun_read) (round-Still now s (receive_round packet wait t))
]

tun_write-Still : (allocated : Bool) (s : P2PSystem) → Still s (handle_tun_write allocated s)
unfolding handle_tun_write
tun_write-Still allocated s = ground arith

-- How an event may move the state machine from `c` to `d`.
abbrev pub Moves : Event → SystemState → SystemState → Type 0
Moves (from_server message) c d = Calls c d
Moves (datagram error transferred buffer sender) c d = d ≡ c
Moves (send_complete error seq) c d = d ≡ c
Moves posted_task c d = d ≡ c
Moves (timer error) c d = d ≡ c
Moves (tun_read packet wait) c d = d ≡ c
Moves (tun_write allocated) c d = d ≡ c
Moves monitor_turn c d = Watches c d
Moves (typed_line line) c d = Calls c d
Moves leave_main c d = d ≡ shutting_down

module _ {J : Type 0} (reader : JsonReader J) (windows : Windows)
    (make_address : Text → Option Text) where
  moved :
      (now : ℕ) (e : Event) (s : P2PSystem)
      → OnSome (λ t. Moves e (state s) (state t)) (step reader windows make_address now e s)
  unfolding step monitor_loop
  moved now (from_server m) s = signal-Called windows make_address reader m s
  moved now (datagram error transferred buffer sender) s =
      datagram-Still now error transferred buffer sender s
  moved now (send_complete error seq) s = on_net-Still (send_done error seq) s (λ w. refl)
  moved now posted_task s =
      on_net-Still (run_posted now) s (λ w. Announces-state (run_posted-Announces now w))
  moved now (timer error) s =
      on_net-Still (handle_keep_alive now error) s
        (λ w. Announces-state (handle_keep_alive-Announces now error w))
  moved now (tun_read packet wait) s = tun_read-Still now packet wait s
  moved now (tun_write allocated) s = tun_write-Still allocated s
  moved now monitor_turn s = rounds-Watched windows _ now s
  moved now (typed_line line) s = execute-Called windows now (parse_command line) s
  moved now leave_main s =
      OnSome-map (Ended windows) (λ t. Moves leave_main (state s) (state t))
        (shutdown windows now s) (λ t h. h.0) (shutdown-Ended windows now s)

  -- An event of the client that comes to a result moves the state as the life of a connection
  -- allows. A message of the server or a line of the user keeps the state, makes it connecting
  -- from idle, or makes it idle unless it was shutting down. A turn of the monitor keeps it, makes
  -- it connected from connecting, idle from connecting or connected, or shutting down. The end of
  -- main makes it shutting down. A datagram, the end of a send, a posted task, the timer and the
  -- rounds of the tunnel's threads keep it.
  pub step-Moves :
      (now : ℕ) (e : Event) (s : P2PSystem) {t : P2PSystem}
      → step reader windows make_address now e s ≡ some t
      → Moves e (state s) (state t)
  step-Moves now e s h = OnSome-some (λ t. Moves e (state s) (state t)) _ (moved now e s) h
