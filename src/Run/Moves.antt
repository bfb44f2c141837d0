-- ===== src/Run/Moves.antt =====
-- The moves of the state machine that the calls of the user, of the server and of the monitor make.
use peer_bridge_cli.Common.{
  OnSome-none, ℕ, zero, suc, ◌≡◌, refl, sym, subst, ◌⊎◌, inl, inr, Bool, true, false, not, Option,
  none, some, Text, text_eq, is_empty, arith, if◌then◌else◌, if_both, Bool-cases, Option-cases,
  OnSome, OnSome-bind, OnSome-map,
}
use peer_bridge_cli.Common.Int.{ℤ}
use peer_bridge_cli.StateManager.{
  SystemState, idle, connecting, connected, shutting_down, StateManager, set_state,
  is_valid_transition, same_state, is_in_state, get_next_event, NetworkEvent, peer_connected,
  all_peers_disconnected, shutdown_requested,
}
use peer_bridge_cli.Network.State.{Wired}
use peer_bridge_cli.Network.Connection
use peer_bridge_cli.Routing.{Windows, ConnectionConfig, configure_interface}
use peer_bridge_cli.Signaling.{
  Callback, on_connect, on_chat_request, on_peer_info, on_chat_init, send_greeting, JsonReader,
  SocketMessage, SignalingClient, Handled, returned, thrown, undefined, handle_message,
}
use peer_bridge_cli.System.State.{P2PSystem, wired, rewired, with_state}
use peer_bridge_cli.System.Connection.{
  join_self, on_net, stop_connection, start_network_interface, handle_peer_connected,
  handle_network_event, monitor_rounds, assign_ip_addresses, dial, handle_connection_init,
  handle_connection_request, handle_peer_info, accept_incoming_request, reject_incoming_request,
  shutdown,
}
use peer_bridge_cli.System.Threads.{handle_callback, handle_signal}
use peer_bridge_cli.Cli.{Command, execute, connect-OnSome}
use peer_bridge_cli.Run.Stops.{stop_network_interface-state}
use peer_bridge_cli.Run.Preserve.{Started, start-Started, set_connected-state}
use peer_bridge_cli.Run.History.{in_state}
use peer_bridge_cli.Run.Handlers.{get_next-state}
use peer_bridge_cli.Run.Lifecycle.{
  Dials, stays, dials, Calls, goes_on, gives_up, Watches, waits, confirms, ends, state, Dials-trans,
  Calls-after, Watches-trans, set_connecting-Dials, set_idle-Calls,
}

connect-Dials :
    (make_address : Text → Option Text) (ip : Text) (port : ℤ) (w : Wired)
    → Dials w.manager.current_state
        (Connection.connect_to_peer make_address ip port w).0.manager.current_state
unfolding Connection.connect_to_peer
connect-Dials make_address ip port w =
    if_both (λ (r : Wired × Bool). Dials w.manager.current_state (r.0.manager.current_state))
      (Connection.is_connected w.net) _ _ (stays refl)
      (elim (Option-cases (make_address ip)) [
        | inl e ↦ rw e (stays refl)
        | inr (a, e) ↦ simp e (set_connecting-Dials w.manager)
      ])

-- Of a step, if it has a result, how it moves the state machine.
abbrev Called : P2PSystem → P2PSystem → Type 0
Called s t = Calls (state s) (state t)

abbrev Watched : P2PSystem → P2PSystem → Type 0
Watched s t = Watches (state s) (state t)

dial-Called :
    (windows : Windows) (make_address : Text → Option Text) (ip : Text) (port : ℤ) (s : P2PSystem)
    → OnSome (Called s) (dial windows make_address ip port s)
unfolding dial
dial-Called windows make_address ip port s = elim (Option-cases s.net) [
  | inl e ↦ rw (e, dial) tt
  | inr (n, e) ↦
      let r = Connection.connect_to_peer make_address ip port (wired s n) in
      let d : Dials (state s) (r.0.manager.current_state) =
        connect-Dials make_address ip port (wired s n) in
      rw (e, dial)
        (if_both (Called s) (r.1) (rewired s (r.0)) (with_state idle (rewired s (r.0))) (goes_on d)
          (Calls-after d (set_idle-Calls r.0.manager)))
]

assign-state : (s : P2PSystem) → state (assign_ip_addresses s) ≡ state s
unfolding assign_ip_addresses
assign-state s = ground arith

init-Called :
    (windows : Windows) (make_address : Text → Option Text) (name ip : Text) (port : ℤ)
    (s : P2PSystem)
    → OnSome (Called s) (handle_connection_init windows make_address name ip port s)
unfolding handle_connection_init
init-Called windows make_address name ip port s =
    let named = record s { peer_username = name; peer_ip = ip; peer_port = port } in
    let p = assign_ip_addresses (with_state connecting named) in
    let cfg : ConnectionConfig = record {
      self_index = if p.is_host then 1 else 2;
      peer_virtual_ip = p.peer_virtual_ip;
    } in
    let q = configure_interface windows cfg p.routing in
    let h : Dials (state s) (state p) =
      Dials-trans (set_connecting-Dials s.manager)
        (stays (assign-state (with_state connecting named))) in
    if_both (OnSome (Called s)) (not (q.1)) (some (record p { routing = q.0 }))
      (dial windows make_address ip port (record p { routing = q.0 })) (goes_on h)
      (OnSome-map (Called (record p { routing = q.0 })) (Called s) _ (λ t k. Calls-after h k)
        (dial-Called windows make_address ip port (record p { routing = q.0 })))

callback-Called :
    (windows : Windows) (make_address : Text → Option Text) (c : Callback) (s : P2PSystem)
    → OnSome (Called s) (handle_callback windows make_address c s)
unfolding handle_callback handle_connection_request handle_peer_info
callback-Called windows make_address (on_connect up) s =
    if_both (Called s) up (record s { signaling = send_greeting s.signaling }) s
      (goes_on (stays refl)) (goes_on (stays refl))
callback-Called windows make_address (on_chat_request requester) s = goes_on (stays refl)
callback-Called windows make_address (on_peer_info name ip port) s =
    if_both (Called s) (text_eq name s.peer_username) _ _ (goes_on (stays refl))
      (goes_on (stays refl))
callback-Called windows make_address (on_chat_init name ip port) s =
    init-Called windows make_address name ip port s

pub signal-Called :
    (windows : Windows) (make_address : Text → Option Text) {J : Type 0} (reader : JsonReader J)
    (m : SocketMessage) (s : P2PSystem)
    → OnSome (Called s) (handle_signal windows make_address reader m s)
unfolding handle_signal
signal-Called windows make_address reader m s = after (handle_message reader m s.signaling)
  where
    after :
        (r : SignalingClient × Handled)
        → OnSome (Called s) (elim (r.1) [
          | undefined ↦ none
          | thrown ↦ some (record s { signaling = r.0 })
          | returned callback ↦ elim callback [
            | none ↦ some (record s { signaling = r.0 })
            | some call ↦ handle_callback windows make_address call (record s { signaling = r.0 })
          ]
        ])
    after (c, undefined) = tt
    after (c, thrown) = goes_on (stays refl)
    after (c, returned none) = goes_on (stays refl)
    after (c, returned (some call)) =
        callback-Called windows make_address call (record s { signaling = c })

set_idle_twice-Calls :
    (m : StateManager) → Calls m.current_state (set_state idle (set_state idle m)).current_state
unfolding set_state is_valid_transition same_state
set_idle_twice-Calls m = go m.current_state refl
  where
    go :
        (c : SystemState)
        → m.current_state ≡ c
        → Calls m.current_state (set_state idle (set_state idle m)).current_state
    go idle e = goes_on (stays (ground arith))
    go connecting e = gives_up (λ h. cc) (ground arith)
    go connected e = gives_up (λ h. cc) (ground arith)
    go shutting_down e = goes_on (stays (ground arith))

stop-Called :
    (windows : Windows) (now : ℕ) (s : P2PSystem) → Called s (stop_connection windows now s)
unfolding stop_connection on_net Connection.stop_connection
stop-Called windows now s =
    rw (stop_network_interface-state windows (on_net (Connection.stop_connection now) s))
      (elim (Option-cases s.net) [
        | inl e ↦ rw (e, on_net) (set_idle-Calls s.manager)
        | inr (n, e) ↦ rw (e, on_net) (set_idle_twice-Calls s.manager)
      ])

pub execute-Called :
    (windows : Windows) (now : ℕ) (c : Command) (s : P2PSystem)
    → OnSome (Called s) (execute windows now c s)
unfolding execute accept_incoming_request reject_incoming_request
execute-Called windows now (Command.connect peer) s =
    connect-OnSome (Called s) windows now peer s (goes_on (stays refl))
      (λ c. goes_on (set_connecting-Dials s.manager))
execute-Called windows now Command.disconnect s = stop-Called windows now s
execute-Called windows now Command.accept s =
    if_both (Called s) (is_empty s.pending_request_from) _ _ (goes_on (stays refl))
      (goes_on (stays refl))
execute-Called windows now Command.reject s =
    if_both (Called s) (is_empty s.pending_request_from) _ _ (goes_on (stays refl))
      (goes_on (stays refl))
execute-Called windows now _ s = goes_on (stays refl)

-- Giving up a dial or a connection.
ended : {c d : SystemState} → (c ≡ connecting) ⊎ (c ≡ connected) → Calls c d → Watches c d
ended h (goes_on (stays e)) = waits e
ended (inl p) (goes_on (dials q r)) = cc
ended (inr p) (goes_on (dials q r)) = cc
ended h (gives_up n e) = ends h e

start-Watched :
    (windows : Windows) (now : ℕ) (s t : P2PSystem) (ok : Bool)
    → is_in_state s.manager connecting ≡ true
    → Started s (t, ok)
    → Watched s (if ok then with_state connected t else stop_connection windows now t)
start-Watched windows now s t true waiting h = confirms (in_state connecting s.manager waiting) (
    set_connected-state t.manager
      (subst (λ m. is_in_state m connecting ≡ true) (sym (h.0)) waiting))
start-Watched windows now s t false waiting h =
    ended (inl (in_state connecting s.manager waiting)) (
      subst (λ m. Calls m.current_state (state (stop_connection windows now t))) (h.0)
        (stop-Called windows now t))

connected-Watched :
    (windows : Windows) (now : ℕ) (s : P2PSystem)
    → OnSome (Watched s) (handle_peer_connected windows now s)
unfolding handle_peer_connected
connected-Watched windows now s = elim (Bool-cases (is_in_state s.manager connecting)) [
  | inr other ↦ simp other (waits refl)
  | inl waiting ↦ simp waiting (
      OnSome-bind (Started s) (Watched s) (start_network_interface s) _ (start-Started s)
        λ (t, ok) h. start-Watched windows now s t ok waiting h)
]

event-Watched :
    (windows : Windows) (now : ℕ) (e : NetworkEvent) (s : P2PSystem)
    → OnSome (Watched s) (handle_network_event windows now e s)
unfolding handle_network_event join_self
event-Watched windows now peer_connected s = connected-Watched windows now s
event-Watched windows now all_peers_disconnected s =
    elim (Bool-cases (is_in_state s.manager connected)) [
      | inl on ↦ rw on (ended (inr (in_state connected s.manager on)) (stop-Called windows now s))
      | inr off ↦ rw off (waits refl)
    ]
event-Watched windows now shutdown_requested s =
    OnSome-none (Watched s) (shutdown windows now s) (join_self windows) (λ t. refl)

pub rounds-Watched :
    (windows : Windows) (fuel now : ℕ) (s : P2PSystem)
    → OnSome (Watched s) (monitor_rounds windows fuel now s)
unfolding monitor_rounds
rounds-Watched windows zero now s = waits refl
rounds-Watched windows (suc fuel) now s = elim (Option-cases (get_next_event s.manager).0) [
  | inl e ↦ rw (e, monitor_rounds) (waits refl)
  | inr (x, e) ↦
      let u = record s { manager = (get_next_event s.manager).1 } in
      rw (e, monitor_rounds)
        (OnSome-bind (Watched u) (Watched s) (handle_network_event windows now x.event u) _
          (event-Watched windows now x.event u)
          λ t h.
            OnSome-map (Watched t) (Watched s) (monitor_rounds windows fuel now t)
              (λ v k. Watches-trans (waits (get_next-state s.manager)) (Watches-trans h k))
              (rounds-Watched windows fuel now t))
]
