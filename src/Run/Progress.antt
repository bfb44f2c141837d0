-- ===== src/Run/Progress.antt =====
-- Steps of a client that has its link and its tunnel, and its shutdown.
use peer_bridge_cli.Common.{
  Bool-cases, not, ℕ, ◌≡◌, refl, sym, ap, subst, ◌∙◌, ◌⊎◌, inl, inr, true, false, Option, none,
  some, Bytes, Text, arith, if◌then◌else◌, if_both, Option-cases, OnSome, ◌>>=◌,
}
use peer_bridge_cli.StateManager.{idle, shutting_down, SystemState}
use peer_bridge_cli.Network.State.{UdpNetwork, Wired, Endpoint, ErrorCode}
use peer_bridge_cli.Network.Receive.{
  Received, fault, handled, handle_receive_from, handle_keep_alive, run_posted,
}
use peer_bridge_cli.Network.Connection
use peer_bridge_cli.Routing.{Windows}
use peer_bridge_cli.Signaling.{
  disconnect, SignalingClient, JsonReader, SocketMessage, Handled, returned, thrown, undefined,
  handle_message,
}
use peer_bridge_cli.System.State.{
  new_system, P2PSystem, wired, rewired, is_linked, is_tunnelling, with_state,
}
use peer_bridge_cli.Run.Stops.{Ended, shutdown-Ended}
use peer_bridge_cli.System.Connection.{
  close_tun, stop_network_interface, on_net, shutdown, monitor_loop,
}
use peer_bridge_cli.System.Threads.{
  World, initialize_system, after_discovery, handle_callback, handle_signal, after_receive,
  handle_datagram,
}
use peer_bridge_cli.Cli.{parse_command}
use peer_bridge_cli.Run.{
  Event, step, from_server, datagram, send_complete, posted_task, timer, tun_read, tun_write,
  monitor_turn, typed_line, leave_main, send_done,
}
use peer_bridge_cli.Stun.{Exchange, StunClient, Discovered, finished, discover_public_address}
use peer_bridge_cli.Run.Monitor.{any_shutdown, monitor_rounds-Goes}
use peer_bridge_cli.Run.Ready.{
  is_ready, Goes, on_net-ready, handle_network_data-ready, rewired-ready, handle_tun_read-Goes,
  handle_tun_write-ready, handle_callback-Goes, execute-ready, is_garbled, shutdown-Goes,
}

module _ {J : Type 0} (reader : JsonReader J) (windows : Windows)
    (make_address : Text → Option Text) where
  -- What ends a history: a datagram that makes the link read past its buffer; a message of the
  -- server in which a key is missing that its type has; the command to connect with a name that is
  -- not UTF-8; and an event that makes the monitor shut down.
  pub data Fatal (now : ℕ) (s : P2PSystem) : Event → Type 0 where
    overread :
        {error : ErrorCode} {transferred : ℕ} {buffer : Bytes} {sender : Endpoint} (n : UdpNetwork)
        → s.net ≡ some n
        → handle_receive_from now error transferred buffer sender (wired s n) ≡ fault
        → Fatal now s (datagram error transferred buffer sender)
    missing_key :
        {m : SocketMessage}
        → (handle_message reader m s.signaling).1 ≡ undefined
        → Fatal now s (from_server m)
    garbled :
        {line : Text} → is_garbled (parse_command line) s ≡ true → Fatal now s (typed_line line)
    joins_self : any_shutdown s.manager.event_queue ≡ true → Fatal now s monitor_turn

  after_receive-Goes :
      (now : ℕ) (error : ErrorCode) (transferred : ℕ) (buffer : Bytes) (sender : Endpoint)
      (s : P2PSystem) (n : UdpNetwork)
      → is_ready s ≡ true
      → s.net ≡ some n
      → (r : Received) → handle_receive_from now error transferred buffer sender (wired s n) ≡ r
      → Goes (after_receive s r) ⊎ Fatal now s (datagram error transferred buffer sender)
  unfolding after_receive
  after_receive-Goes now error transferred buffer sender s n h e fault f = inr (overread n e f)
  after_receive-Goes now error transferred buffer sender s n h e (handled w none) f =
      inl (rewired-ready s w h)
  after_receive-Goes now error transferred buffer sender s n h e (handled w (some packet)) f =
      inl (handle_network_data-ready packet (rewired s w) (rewired-ready s w h))

  signal-Goes :
      (now : ℕ) (m : SocketMessage) (s : P2PSystem)
      → is_ready s ≡ true
      → Goes (handle_signal windows make_address reader m s) ⊎ Fatal now s (from_server m)
  unfolding handle_signal is_ready
  signal-Goes now m s h = after (handle_message reader m s.signaling) refl
    where
      after :
          (r : SignalingClient × Handled)
          → handle_message reader m s.signaling ≡ r
          → Goes (elim (r.1) [
            | undefined ↦ none
            | thrown ↦ some (record s { signaling = r.0 })
            | returned callback ↦ elim callback [
              | none ↦ some (record s { signaling = r.0 })
              | some call ↦ handle_callback windows make_address call (record s { signaling = r.0 })
            ]
          ])
            ⊎ Fatal now s (from_server m)
      after (c, undefined) e = inr (missing_key (ap (λ r. r.1) e))
      after (c, thrown) e = inl h
      after (c, returned none) e = inl h
      after (c, returned (some call)) e = inl (handle_callback-Goes windows make_address call _ h)

  datagram-after :
      (now : ℕ) (error : ErrorCode) (transferred : ℕ) (buffer : Bytes) (sender : Endpoint)
      (s : P2PSystem) (n : UdpNetwork)
      → s.net ≡ some n
      → handle_datagram now error transferred buffer sender s
        ≡ after_receive s (handle_receive_from now error transferred buffer sender (wired s n))
  unfolding handle_datagram after_receive
  datagram-after now error transferred buffer sender s n e = rw (e, handle_datagram) refl

  datagram-Goes :
      (now : ℕ) (error : ErrorCode) (transferred : ℕ) (buffer : Bytes) (sender : Endpoint)
      (s : P2PSystem)
      → is_ready s ≡ true
      → Goes (handle_datagram now error transferred buffer sender s)
        ⊎ Fatal now s (datagram error transferred buffer sender)
  unfolding handle_datagram after_receive
  datagram-Goes now error transferred buffer sender s h = elim (Option-cases s.net) [
    | inl e ↦ inl (rw (e, handle_datagram) h)
    | inr (n, e) ↦
        subst (λ o. Goes o ⊎ Fatal now s (datagram error transferred buffer sender))
          (sym (datagram-after now error transferred buffer sender s n e))
          (after_receive-Goes now error transferred buffer sender s n h e _ refl)
  ]

  -- A step of a client that has its link and its tunnel gives such a client again, for every
  -- event, unless the event is a datagram on which the link reads past its receive buffer; a
  -- message of the server in which a key is missing that its type has; the command /connect with a
  -- name that is not UTF-8, of a client that is online and has no connection; or a turn of the
  -- monitor with a request to shut down in its queue.
  pub step-Goes :
      (now : ℕ) (e : Event) (s : P2PSystem)
      → is_ready s ≡ true
      → Goes (step reader windows make_address now e s) ⊎ Fatal now s e
  unfolding step monitor_loop
  step-Goes now (from_server m) s h = signal-Goes now m s h
  step-Goes now (datagram error transferred buffer sender) s h =
      datagram-Goes now error transferred buffer sender s h
  step-Goes now (send_complete error seq) s h = inl (on_net-ready (send_done error seq) s ∙ h)
  step-Goes now posted_task s h = inl (on_net-ready (run_posted now) s ∙ h)
  step-Goes now (timer error) s h = inl (on_net-ready (handle_keep_alive now error) s ∙ h)
  step-Goes now (tun_read packet wait) s h = inl (handle_tun_read-Goes now packet wait s h)
  step-Goes now (tun_write allocated) s h = inl (handle_tun_write-ready allocated s h)
  step-Goes now monitor_turn s h = elim (Bool-cases (any_shutdown s.manager.event_queue)) [
    | inl asked ↦ inr (joins_self asked)
    | inr quiet ↦ inl (monitor_rounds-Goes windows now _ s quiet h)
  ]
  step-Goes now (typed_line line) s h = elim (Bool-cases (is_garbled (parse_command line) s)) [
    | inl g ↦ inr (garbled g)
    | inr g ↦ inl (execute-ready windows now (parse_command line) s h g)
  ]
  step-Goes now leave_main s h = inl (shutdown-Goes windows now s h)

-- The shutdown of a client that has its link and its tunnel comes to its end, with the state
-- shutting down, the tunnel off and the system not running.
pub shutdown_lem :
    (windows : Windows) (now : ℕ) (s : P2PSystem)
    → is_ready s ≡ true
    → (t : P2PSystem) × (shutdown windows now s ≡ some t)
      × (t.manager.current_state ≡ shutting_down)
      × (is_tunnelling t ≡ false)
      × (t.running ≡ false)
shutdown_lem windows now s h =
    go (shutdown windows now s) (shutdown-Goes windows now s h) (shutdown-Ended windows now s)
  where
    go :
        (o : Option P2PSystem)
        → Goes o
        → OnSome (Ended windows) o
        → (t : P2PSystem) × (o ≡ some t)
          × (t.manager.current_state ≡ shutting_down)
          × (is_tunnelling t ≡ false)
          × (t.running ≡ false)
    go none g e = absurd g
    go (some t) g (a, b, c) = (t, refl, a, b, c)

on_net-tun : (f : Wired → Wired) (s : P2PSystem) → (on_net f s).tun ≡ s.tun
unfolding on_net
on_net-tun f s = ground arith

stop_interface-no_tun :
    (windows : Windows) (s : P2PSystem)
    → s.tun ≡ none
    → (stop_network_interface windows s).tun ≡ none
unfolding stop_network_interface
stop_interface-no_tun windows s h = ground arith

close_tun-no_tun : (s : P2PSystem) → s.tun ≡ none → close_tun s ≡ none
unfolding close_tun
close_tun-no_tun s h = ground arith

-- Without a tunnel the shutdown has no result.
pub shutdown-no_tun :
    (windows : Windows) (now : ℕ) (s : P2PSystem) → s.tun ≡ none → shutdown windows now s ≡ none
unfolding shutdown
shutdown-no_tun windows now s h =
    let s₁ : P2PSystem =
      if is_linked s
      then stop_network_interface windows (on_net (Connection.stop_connection now) s)
      else s in
    let s₂ : P2PSystem = with_state SystemState.shutting_down (record s₁ { running = false }) in
    let off : s₁.tun ≡ none =
      if_both (λ (t : P2PSystem). t.tun ≡ none) (is_linked s) _ _
        (stop_interface-no_tun windows _ (on_net-tun (Connection.stop_connection now) s ∙ h)) h in
    ap
      (λ (o : Option P2PSystem). o >>= λ t. close_tun (on_net (Connection.shutdown now) t) >>= λ u.
        some (record u { signaling = disconnect u.signaling; monitor_thread = false }))
      (close_tun-no_tun (stop_network_interface windows s₂) (stop_interface-no_tun windows s₂ off))

no_answer :
    (to_string : Bytes → Text) (x : Exchange) (c : StunClient)
    → x.answer ≡ none
    → (discover_public_address to_string x c).1 ≡ finished none
unfolding discover_public_address
no_answer to_string x c h =
    if_both (λ (r : StunClient × Discovered). r.1 ≡ finished none) (not x.reaches) _ _ refl (simp h)

-- If the STUN server does not answer, the start of the client fails, and the shutdown that follows
-- has no result: it closes a tunnel that is not there.
pub shutdown-no_stun :
    (windows : Windows) (now : ℕ) (w : World) (username : Text)
    → w.stun.answer ≡ none
    → (s : P2PSystem) × (initialize_system w username new_system ≡ some (s, false))
      × (shutdown windows now s ≡ none)
unfolding initialize_system after_discovery
shutdown-no_stun windows now w username h =
    let begun = with_state idle (record new_system { username = username; running = true }) in
    let found = discover_public_address w.to_string w.stun begun.stun in
    let s : P2PSystem = record begun { stun = found.0 } in
    (
      s,
      ap (λ d. after_discovery w d s) (no_answer w.to_string w.stun begun.stun h),
      shutdown-no_tun windows now s refl,
    )
