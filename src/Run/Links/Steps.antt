-- ===== src/Run/Links/Steps.antt =====
-- The same through the handlers of the client, its start and its histories.
use peer_bridge_cli.Network.Connection.{shutdown}
use peer_bridge_cli.Common.{
  refl, OnSome-any, OnSome-none, ℕ, zero, suc, not, Option, none, some, List, [], ◌∷◌, Text,
  is_empty, text_eq, if◌then◌else◌, if_both, Option-cases, inl, inr, OnSome, OnSome-some,
  OnSome-bind,
}
use peer_bridge_cli.Common.Int.{ℤ, pos}
use peer_bridge_cli.StateManager.{
  idle, connecting, connected, is_in_state, NetworkEvent, peer_connected, all_peers_disconnected,
  shutdown_requested, get_next_event,
}
use peer_bridge_cli.Network.State.{UdpNetwork}
use peer_bridge_cli.Network.Receive.{run_posted, handle_keep_alive}
use peer_bridge_cli.Network.Connection
use peer_bridge_cli.Routing.{Windows, ConnectionConfig, configure_interface}
use peer_bridge_cli.Tun.{new_tun, initialize}
use peer_bridge_cli.Stun.{Discovered, overread, finished}
use peer_bridge_cli.Signaling.{
  register_user, SignalingClient, JsonReader, SocketMessage, Handled, Callback, on_connect,
  on_chat_request, on_peer_info, on_chat_init, returned, thrown, undefined, handle_message, connect,
  set_callbacks, send_greeting,
}
use peer_bridge_cli.System.State.{P2PSystem, new_system, wired, rewired, with_state}
use peer_bridge_cli.System.Connection.{
  join_self, start_network_interface, handle_peer_connected, handle_network_event, monitor_rounds,
  monitor_loop, accept_incoming_request, reject_incoming_request, assign_ip_addresses, dial,
  handle_connection_init, handle_connection_request, handle_peer_info,
}
use peer_bridge_cli.System.Threads.{
  World, start_network, start_tun, start_signaling, after_discovery, initialize_system,
  handle_callback, handle_signal,
}
use peer_bridge_cli.Cli.{connect-OnSome, Command, execute, parse_command}
use peer_bridge_cli.Run.{
  Event, step, run, from_server, datagram, send_complete, posted_task, timer, tun_read, tun_write,
  monitor_turn, typed_line, leave_main, send_done,
}
use peer_bridge_cli.Run.History.{history}
use peer_bridge_cli.Run.Links.{
  Kept, Holds, HoldsWith, datagram-Holds, on_net-Holds, shutdown-Holds, start_interface-Holds,
  stop_connection-Holds, tun_read-Holds, tun_write-Holds,
}

module _ (G : UdpNetwork → Type 0) (k : Kept G) where
  module _ (windows : Windows) where
    peer_connected-Holds :
        (now : ℕ) (s : P2PSystem)
        → (Holds G k) s
        → OnSome (Holds G k) (handle_peer_connected windows now s)
    unfolding handle_peer_connected
    peer_connected-Holds now s v =
        if_both (OnSome (Holds G k)) (not (is_in_state s.manager connecting)) _ _ v (
          OnSome-bind (HoldsWith G k) (Holds G k) (start_network_interface s) _
            ((start_interface-Holds G k) s v)
            λ (t, ok) h.
              if_both (Holds G k) ok (with_state connected t) _ h
                ((stop_connection-Holds G k) windows now t h))

    event-Holds :
        (now : ℕ) (e : NetworkEvent) (s : P2PSystem)
        → (Holds G k) s
        → OnSome (Holds G k) (handle_network_event windows now e s)
    unfolding handle_network_event join_self
    event-Holds now peer_connected s v = peer_connected-Holds now s v
    event-Holds now all_peers_disconnected s v =
        if_both (Holds G k) (is_in_state s.manager connected) _ _
          ((stop_connection-Holds G k) windows now s v) v
    event-Holds now shutdown_requested s v =
        OnSome-none (Holds G k) _ (join_self windows) (λ t. refl)

    rounds-Holds :
        (fuel now : ℕ) (s : P2PSystem)
        → (Holds G k) s
        → OnSome (Holds G k) (monitor_rounds windows fuel now s)
    unfolding monitor_rounds
    rounds-Holds zero now s v = v
    rounds-Holds (suc fuel) now s v = elim (Option-cases (get_next_event s.manager).0) [
      | inl e ↦ rw (e, monitor_rounds) v
      | inr (x, e) ↦
          let u = record s { manager = (get_next_event s.manager).1 } in
          rw (e, monitor_rounds)
            (OnSome-bind (Holds G k) (Holds G k) (handle_network_event windows now x.event u) _
              (event-Holds now x.event u v) λ t h. rounds-Holds fuel now t h)
    ]

    execute-Holds :
        (now : ℕ) (c : Command) (s : P2PSystem)
        → (Holds G k) s
        → OnSome (Holds G k) (execute windows now c s)
    unfolding execute accept_incoming_request reject_incoming_request
    execute-Holds now (Command.connect peer) s v =
        connect-OnSome (Holds G k) windows now peer s v (λ c. v)
    execute-Holds now Command.disconnect s v = (stop_connection-Holds G k) windows now s v
    execute-Holds now Command.accept s v =
        if_both (Holds G k) (is_empty s.pending_request_from) _ _ v v
    execute-Holds now Command.reject s v =
        if_both (Holds G k) (is_empty s.pending_request_from) _ _ v v
    execute-Holds now _ s v = v

    module _ (make_address : Text → Option Text) where
      dial-Holds :
          (ip : Text) (port : ℤ) (s : P2PSystem)
          → (Holds G k) s
          → OnSome (Holds G k) (dial windows make_address ip port s)
      unfolding dial
      dial-Holds ip port s v = elim (Option-cases s.net) [
        | inl e ↦ rw (e, dial) tt
        | inr (n, e) ↦
            let r = Connection.connect_to_peer make_address ip port (wired s n) in
            let h : G r.0.net =
              k.connects make_address ip port (wired s n) (OnSome-some G s.net v e) in
            rw (e, dial)
              (if_both (Holds G k) (r.1) (rewired s (r.0)) (with_state idle (rewired s (r.0))) h h)
      ]

      assign-Holds : (s : P2PSystem) → (Holds G k) s → (Holds G k) (assign_ip_addresses s)
      unfolding assign_ip_addresses
      assign-Holds s v = if_both (Holds G k) s.is_host _ _ v v

      init-Holds :
          (name ip : Text) (port : ℤ) (s : P2PSystem)
          → (Holds G k) s
          → OnSome (Holds G k) (handle_connection_init windows make_address name ip port s)
      unfolding handle_connection_init
      init-Holds name ip port s v =
          let named = record s { peer_username = name; peer_ip = ip; peer_port = port } in
          let p = assign_ip_addresses (with_state connecting named) in
          let cfg : ConnectionConfig = record {
            self_index = if p.is_host then 1 else 2;
            peer_virtual_ip = p.peer_virtual_ip;
          } in
          let q = configure_interface windows cfg p.routing in
          let routed = record p { routing = q.0 } in
          let h : (Holds G k) p = assign-Holds (with_state connecting named) v in
          if_both (OnSome (Holds G k)) (not (q.1)) (some routed)
            (dial windows make_address ip port routed) h (dial-Holds ip port routed h)

      callback-Holds :
          (c : Callback) (s : P2PSystem)
          → (Holds G k) s
          → OnSome (Holds G k) (handle_callback windows make_address c s)
      unfolding handle_callback handle_connection_request handle_peer_info
      callback-Holds (on_connect up) s v =
          if_both (Holds G k) up (record s { signaling = send_greeting s.signaling }) s v v
      callback-Holds (on_chat_request requester) s v = v
      callback-Holds (on_peer_info name ip port) s v =
          if_both (Holds G k) (text_eq name s.peer_username) _ _ v v
      callback-Holds (on_chat_init name ip port) s v = init-Holds name ip port s v

      module _ {J : Type 0} (reader : JsonReader J) where
        signal-Holds :
            (m : SocketMessage) (s : P2PSystem)
            → (Holds G k) s
            → OnSome (Holds G k) (handle_signal windows make_address reader m s)
        unfolding handle_signal
        signal-Holds m s v = after (handle_message reader m s.signaling)
          where
            after :
                (r : SignalingClient × Handled)
                → OnSome (Holds G k) (elim (r.1) [
                  | undefined ↦ none
                  | thrown ↦ some (record s { signaling = r.0 })
                  | returned callback ↦ elim callback [
                    | none ↦ some (record s { signaling = r.0 })
                    | some call ↦
                        handle_callback windows make_address call (record s { signaling = r.0 })
                  ]
                ])
            after (c, undefined) = tt
            after (c, thrown) = v
            after (c, returned none) = v
            after (c, returned (some call)) = callback-Holds call _ v

        step-Holds :
            (now : ℕ) (e : Event) (s : P2PSystem)
            → (Holds G k) s
            → OnSome (Holds G k) (step reader windows make_address now e s)
        unfolding step monitor_loop
        step-Holds now (from_server m) s v = signal-Holds m s v
        step-Holds now (datagram error transferred buffer sender) s v =
            (datagram-Holds G k) now error transferred buffer sender s v
        step-Holds now (send_complete error seq) s v =
            (on_net-Holds G k) (send_done error seq) s (λ w. k.completes error seq w.net) v
        step-Holds now posted_task s v = (on_net-Holds G k) (run_posted now) s (k.posted now) v
        step-Holds now (timer error) s v =
            (on_net-Holds G k) (handle_keep_alive now error) s (k.expires now error) v
        step-Holds now (tun_read packet wait) s v = (tun_read-Holds G k) now packet wait s v
        step-Holds now (tun_write allocated) s v = (tun_write-Holds G k) allocated s v
        step-Holds now monitor_turn s v = rounds-Holds _ now s v
        step-Holds now (typed_line line) s v = execute-Holds now (parse_command line) s v
        step-Holds now leave_main s v = (shutdown-Holds G k) windows now s v

        run-Holds :
            (events : List (ℕ × Event)) (s : P2PSystem)
            → (Holds G k) s
            → OnSome (Holds G k) (run reader windows make_address events s)
        unfolding run
        run-Holds [] s v = v
        run-Holds ((now, e) ∷ rest) s v =
            OnSome-bind (Holds G k) (Holds G k) (step reader windows make_address now e s) _
              (step-Holds now e s v) λ t h. run-Holds rest t h

        network-Holds : (w : World) (s : P2PSystem) → (HoldsWith G k) (start_network w s)
        unfolding start_network
        network-Holds w s =
            let l = k.listens w.now w.local w.options_accepted in
            if_both (HoldsWith G k)
              (not
                (Connection.start_listening w.local w.options_accepted
                  (Connection.set_message_callback (Connection.new_network w.now))).1)
              _ _ l l

        tun-Holds : (w : World) (s : P2PSystem) → (Holds G k) s → (HoldsWith G k) (start_tun w s)
        unfolding start_tun
        tun-Holds w s v =
            if_both (HoldsWith G k) (not (initialize w.wintun new_tun).1) _ _ v (network-Holds w _)

        signaling-Holds :
            (w : World) (s : P2PSystem)
            → (Holds G k) s
            → OnSome (HoldsWith G k) (start_signaling w s)
        unfolding start_signaling
        signaling-Holds w s v =
            let (c, ok) = connect w.looks w.opens (set_callbacks s.signaling) in
            if_both (OnSome (HoldsWith G k)) (not ok) _ _ v (
              OnSome-bind (λ (d : SignalingClient). Unit) (HoldsWith G k)
                (register_user s.username s.public_ip s.public_port c) _ (OnSome-any _)
                (λ d a. tun-Holds w _ v))

        discovered-Holds :
            (w : World) (d : Discovered) (s : P2PSystem)
            → (Holds G k) s
            → OnSome (HoldsWith G k) (after_discovery w d s)
        unfolding after_discovery
        discovered-Holds w overread s v = tt
        discovered-Holds w (finished none) s v = v
        discovered-Holds w (finished (some (ip, port))) s v =
            signaling-Holds w (record s { public_ip = ip; public_port = pos port }) v

        started-Holds :
            (w : World) (username : Text)
            → OnSome (HoldsWith G k) (initialize_system w username new_system)
        unfolding initialize_system
        started-Holds w username = discovered-Holds w _ _ tt

        -- What each call of the link keeps holds of the link at the end of every history.
        pub history-Holds :
            (w : World) (username : Text) (events : List (ℕ × Event))
            → OnSome (Holds G k) (history reader windows make_address w username events)
        history-Holds w username events =
            OnSome-bind (HoldsWith G k) (Holds G k) (initialize_system w username new_system) _
              (started-Holds w username) λ r h. run-Holds events (r.0) h
