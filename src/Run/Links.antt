-- ===== src/Run/Links.antt =====
-- What every call of the link keeps, every step of the client keeps.
pub mod Steps
use peer_bridge_cli.Common.{
  ℕ, zero, suc, ◌≡◌, sym, subst, Bool, false, not, Option, none, some, List, [], ◌∷◌, Bytes, Text,
  arith, is_empty, text_eq, if◌then◌else◌, if_both, Option-cases, inl, inr, OnSome, OnSome-some,
  OnSome-bind, OnSome-map,
}
use peer_bridge_cli.Common.Int.{ℤ, pos}
use peer_bridge_cli.StateManager.{
  idle, connecting, connected, shutting_down, is_in_state, NetworkEvent, peer_connected,
  all_peers_disconnected, shutdown_requested, get_next_event,
}
use peer_bridge_cli.Network.State.{
  Endpoint, ErrorCode, UdpNetwork, Wired, send_message, handle_send_complete,
}
use peer_bridge_cli.Network.Receive.{
  Received, fault, handled, handle_receive_from, run_posted, handle_keep_alive,
}
use peer_bridge_cli.Network.Connection
use peer_bridge_cli.Network.Events.{Returned}
use peer_bridge_cli.Routing.{Windows, ConnectionConfig, configure_interface}
use peer_bridge_cli.Tun.{WaitResult, Round, go_on, leave, receive_round, new_tun, initialize}
use peer_bridge_cli.Stun.{Discovered, overread, finished}
use peer_bridge_cli.Signaling.{
  SignalingClient, JsonReader, SocketMessage, Handled, Callback, on_connect, on_chat_request,
  on_peer_info, on_chat_init, returned, thrown, undefined, handle_message, connect, set_callbacks,
  send_greeting,
}
use peer_bridge_cli.System.State.{P2PSystem, new_system, wired, rewired, is_linked, with_state}
use peer_bridge_cli.System.Packets.{
  handle_packet_from_tun, forward_packet_to_peer, handle_network_data, deliver_packet_to_tun,
  is_wanted, is_ipv4,
}
use peer_bridge_cli.System.Connection.{
  on_net, close_tun, stop_network_interface, stop_connection, start_network_interface, shutdown,
  handle_peer_connected, handle_network_event, monitor_rounds, monitor_loop, connect_to_peer,
  accept_incoming_request, reject_incoming_request, assign_ip_addresses, dial,
  handle_connection_init, handle_connection_request, handle_peer_info,
}
use peer_bridge_cli.System.Threads.{
  World, start_network, start_tun, start_signaling, after_discovery, initialize_system,
  handle_callback, handle_signal, after_receive, handle_datagram, after_round, handle_tun_read,
  handle_tun_write,
}
use peer_bridge_cli.Cli.{Command, execute, parse_command}
use peer_bridge_cli.Run.{
  Event, step, run, from_server, datagram, send_complete, posted_task, timer, tun_read, tun_write,
  monitor_turn, typed_line, leave_main, send_done,
}
use peer_bridge_cli.Run.Stops.{stop_network_interface-net}
use peer_bridge_cli.Run.History.{history}

-- A property of the link that each of its calls keeps, the constructor and the listening first.
pub record Kept (G : UdpNetwork → Type 0) : Type 0 where
  pub listens :
      (now : ℕ) (local : Option Endpoint) (accepted : Bool)
      → G
          (Connection.start_listening local accepted
            (Connection.set_message_callback (Connection.new_network now))).0
  pub receives :
      (now : ℕ) (error : ErrorCode) (transferred : ℕ) (buffer : Bytes) (sender : Endpoint)
      (w : Wired)
      → G w.net
      → Returned
          (λ (v : Wired). G v.net)
          (handle_receive_from now error transferred buffer sender w)
  pub completes :
      (error : ErrorCode) (seq : ℕ) (n : UdpNetwork) → G n → G (handle_send_complete error seq n)
  pub posted : (now : ℕ) (w : Wired) → G w.net → G (run_posted now w).net
  pub expires :
      (now : ℕ) (error : ErrorCode) (w : Wired) → G w.net → G (handle_keep_alive now error w).net
  pub sends : (now : ℕ) (bytes : Bytes) (n : UdpNetwork) → G n → G (send_message now bytes n).0
  pub connects :
      (make_address : Text → Option Text) (ip : Text) (port : ℤ) (w : Wired)
      → G w.net
      → G (Connection.connect_to_peer make_address ip port w).0.net
  pub stops : (now : ℕ) (w : Wired) → G w.net → G (Connection.stop_connection now w).net
  pub shuts : (now : ℕ) (w : Wired) → G w.net → G (Connection.shutdown now w).net

module _ (G : UdpNetwork → Type 0) (k : Kept G) where
  -- The link of the client has the property, if there is one.
  abbrev pub Holds : P2PSystem → Type 0
  Holds s = OnSome G s.net

  pub on_net-Holds :
      (f : Wired → Wired) (s : P2PSystem)
      → ((w : Wired) → G w.net → G (f w).net)
      → Holds s
      → Holds (on_net f s)
  unfolding on_net
  on_net-Holds f s h v = elim (Option-cases s.net) [
    | inl e ↦ rw (e, on_net) (rw e tt)
    | inr (n, e) ↦ rw (e, on_net) (h (wired s n) (OnSome-some G s.net v e))
  ]

  pub interface-Holds :
      (windows : Windows) (s : P2PSystem) → Holds s → Holds (stop_network_interface windows s)
  interface-Holds windows s v = subst (OnSome G) (sym (stop_network_interface-net windows s)) v

  pub close_tun-Holds : (s : P2PSystem) → Holds s → OnSome Holds (close_tun s)
  unfolding close_tun
  close_tun-Holds s v = elim (Option-cases s.tun) [
    | inl e ↦ rw (e, close_tun) tt
    | inr (u, e) ↦ rw (e, close_tun) v
  ]

  pub stop_connection-Holds :
      (windows : Windows) (now : ℕ) (s : P2PSystem)
      → Holds s
      → Holds (stop_connection windows now s)
  unfolding stop_connection
  stop_connection-Holds windows now s v =
      interface-Holds windows _ (on_net-Holds (Connection.stop_connection now) s (k.stops now) v)

  pub shutdown-Holds :
      (windows : Windows) (now : ℕ) (s : P2PSystem)
      → Holds s
      → OnSome Holds (shutdown windows now s)
  unfolding shutdown
  shutdown-Holds windows now s v =
      let s₁ : P2PSystem =
        if is_linked s
        then stop_network_interface windows (on_net (Connection.stop_connection now) s)
        else s in
      let v₁ : Holds s₁ =
        if_both Holds (is_linked s) _ s
          (interface-Holds windows _
            (on_net-Holds (Connection.stop_connection now) s (k.stops now) v))
          v in
      let s₂ : P2PSystem = with_state shutting_down (record s₁ { running = false }) in
      OnSome-bind Holds Holds (close_tun (stop_network_interface windows s₂)) _
        (close_tun-Holds _ (interface-Holds windows s₂ v₁))
        λ s₃ v₃.
          OnSome-bind Holds Holds (close_tun (on_net (Connection.shutdown now) s₃)) _
            (close_tun-Holds _ (on_net-Holds (Connection.shutdown now) s₃ (k.shuts now) v₃))
            λ s₄ v₄. v₄

  -- The first of a pair.
  abbrev pub HoldsWith : P2PSystem × Bool → Type 0
  HoldsWith r = Holds (r.0)

  start_interface-net :
      (s : P2PSystem)
      → OnSome (λ (r : P2PSystem × Bool). r.0.net ≡ s.net) (start_network_interface s)
  unfolding start_network_interface
  start_interface-net s = elim (Option-cases s.tun) [
    | inl e ↦ ground arith
    | inr (t, e) ↦ ground arith
  ]

  pub start_interface-Holds :
      (s : P2PSystem) → Holds s → OnSome HoldsWith (start_network_interface s)
  start_interface-Holds s v =
      OnSome-map (λ (r : P2PSystem × Bool). r.0.net ≡ s.net) HoldsWith (start_network_interface s)
        (λ r e. subst (OnSome G) (sym e) v) (start_interface-net s)

  pub forward-Holds :
      (now : ℕ) (packet : Bytes) (s : P2PSystem)
      → Holds s
      → OnSome HoldsWith (forward_packet_to_peer now packet s)
  unfolding forward_packet_to_peer
  forward-Holds now packet s v =
      if_both (OnSome HoldsWith) (not (is_wanted s.peer_virtual_ip packet)) _ _ v
        (elim (Option-cases s.net) [
          | inl e ↦ rw e tt
          | inr (n, e) ↦ simp e (k.sends now packet n (OnSome-some G s.net v e))
        ])

  pub handle_packet_from_tun-Holds :
      (now : ℕ) (packet : Bytes) (s : P2PSystem)
      → Holds s
      → OnSome Holds (handle_packet_from_tun now packet s)
  unfolding handle_packet_from_tun
  handle_packet_from_tun-Holds now packet s v =
      if_both (OnSome Holds) (is_ipv4 packet) _ _
        (OnSome-bind HoldsWith Holds (forward_packet_to_peer now packet s) _
          (forward-Holds now packet s v) (λ r h. h))
        v

  pub network_data-Holds :
      (packet : Bytes) (s : P2PSystem) → Holds s → Holds (handle_network_data packet s)
  unfolding handle_network_data deliver_packet_to_tun
  network_data-Holds packet s v = subst (OnSome G) {x = s.net} (ground arith) v

  pub received-Holds :
      (s : P2PSystem) (r : Received)
      → Returned (λ (w : Wired). G w.net) r
      → OnSome Holds (after_receive s r)
  unfolding after_receive
  received-Holds s fault h = tt
  received-Holds s (handled w none) h = h
  received-Holds s (handled w (some p)) h = network_data-Holds p (rewired s w) h

  pub datagram-Holds :
      (now : ℕ) (error : ErrorCode) (transferred : ℕ) (buffer : Bytes) (sender : Endpoint)
      (s : P2PSystem)
      → Holds s
      → OnSome Holds (handle_datagram now error transferred buffer sender s)
  unfolding handle_datagram
  datagram-Holds now error transferred buffer sender s v = elim (Option-cases s.net) [
    | inl e ↦ rw (e, handle_datagram) (rw e tt)
    | inr (n, e) ↦
        rw (e, handle_datagram)
          (received-Holds s _
            (k.receives now error transferred buffer sender (wired s n) (OnSome-some G s.net v e)))
  ]

  pub tun_write-Holds :
      (allocated : Bool) (s : P2PSystem) → Holds s → Holds (handle_tun_write allocated s)
  unfolding handle_tun_write
  tun_write-Holds allocated s v = subst (OnSome G) {x = s.net} (ground arith) v

  pub round-Holds :
      (now : ℕ) (s : P2PSystem) (r : Round) → Holds s → OnSome Holds (after_round now s r)
  unfolding after_round
  round-Holds now s leave v = v
  round-Holds now s (go_on none) v = v
  round-Holds now s (go_on (some packet)) v = handle_packet_from_tun-Holds now packet s v

  pub tun_read-Holds :
      (now : ℕ) (packet : Option Bytes) (wait : WaitResult) (s : P2PSystem)
      → Holds s
      → OnSome Holds (handle_tun_read now packet wait s)
  unfolding handle_tun_read
  tun_read-Holds now packet wait s v = elim (Option-cases s.tun) [
    | inl e ↦ rw (e, handle_tun_read) v
    | inr (t, e) ↦ rw (e, handle_tun_read) (round-Holds now s (receive_round packet wait t) v)
  ]
