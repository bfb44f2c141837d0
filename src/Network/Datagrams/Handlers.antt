-- ===== src/Network/Datagrams/Handlers.antt =====
-- The same through the handlers and the life of the link.
use peer_bridge_cli.Common.{
  ℕ, ◌+◌, ◌%◌, ◌^◌, refl, Bool, false, not, Option, some, List, [], ◌∷◌, Bytes, Text, arith, length,
  ltb, ◌==◌, if◌then◌else◌, if_both, inl, inr, Option-cases,
}
use peer_bridge_cli.Common.Int.{ℤ}
use peer_bridge_cli.Wire.{PacketType, word32, word16, magic_number, protocol_version}
use peer_bridge_cli.Network.State.{
  Endpoint, ErrorCode, Task, drop_ack, disconnect_task, UdpNetwork, Wired, notify_connection_event,
  is_error, is_aborted, is_recoverable, send_hole_punch_packet, start_keep_alive_timer,
  stop_keep_alive_timer, start_hole_punching_process,
}
use peer_bridge_cli.Network.Receive.{
  start_async_receive, handle_disconnect, establish, handle_message, handle_packet, is_disconnect,
  dispatch, process_received_data, handle_receive_from, run_task, run_posted, check_all_connections,
  handle_keep_alive,
}
use peer_bridge_cli.Network.Connection
use peer_bridge_cli.Network.Packets.{attach-bare}
use peer_bridge_cli.Network.Events.{Returned}
use peer_bridge_cli.Network.Datagrams.{
  bare, Sound, Sound-same, send-Sound, counted, erased, punch-Sound, punches-Sound, timer-Sound,
  goodbye-Sound,
}

handle_disconnect-Sound : (now : ℕ) (w : Wired) → Sound w.net → Sound (handle_disconnect now w).net
unfolding handle_disconnect notify_connection_event
handle_disconnect-Sound now w v = Sound-same v (ground arith) (ground arith) (ground arith)

establish-Sound :
    (now : ℕ) (sender : Endpoint) (w : Wired) → Sound w.net → Sound (establish now sender w).net
unfolding establish notify_connection_event
establish-Sound now sender w v = Sound-same v (ground arith) (ground arith) (ground arith)

-- What a handler that returns leaves of the link.
abbrev pub SoundAfter : Wired → Type 0
SoundAfter w = Sound w.net

handle_message-Sound :
    (transferred : ℕ) (buffer : Bytes) (sender : Endpoint) (seq : ℕ) (w : Wired)
    → Sound w.net
    → Returned SoundAfter (handle_message transferred buffer sender seq w)
unfolding handle_message
handle_message-Sound transferred buffer sender seq w v =
    if_both (Returned SoundAfter) (ltb transferred ((16 + word32 buffer 12) % 2 ^ 32)) _ _ v (
      if_both (Returned SoundAfter) (ltb (length buffer) (16 + word32 buffer 12)) _ _ tt (
        send-Sound sender _ _ (counted w.net.next_seq _ PacketType.ack (some seq) w.net v)
          (bare PacketType.ack seq refl (attach-bare w.net.next_seq PacketType.ack (some seq)))))

handle_packet-Sound :
    (now : ℕ) (t : PacketType) (transferred : ℕ) (buffer : Bytes) (sender : Endpoint) (seq : ℕ)
    (w : Wired)
    → Sound w.net
    → Returned SoundAfter (handle_packet now t transferred buffer sender seq w)
unfolding handle_packet
handle_packet-Sound now PacketType.message transferred buffer sender seq w v =
    handle_message-Sound transferred buffer sender seq w v
handle_packet-Sound now PacketType.disconnect transferred buffer sender seq w v =
    handle_disconnect-Sound now w v
handle_packet-Sound now PacketType.ack transferred buffer sender seq w v = erased seq w.net v
handle_packet-Sound now t transferred buffer sender seq w v = v

dispatch-Sound :
    (now : ℕ) (t : PacketType) (transferred : ℕ) (buffer : Bytes) (sender : Endpoint) (seq : ℕ)
    (w : Wired)
    → Sound w.net
    → Returned SoundAfter (dispatch now t transferred buffer sender seq w)
unfolding dispatch
dispatch-Sound now t transferred buffer sender seq w v =
    if_both (Returned SoundAfter) (is_disconnect t) _ _
      (handle_packet-Sound now t transferred buffer sender seq w v)
      (if_both (Returned SoundAfter) (not w.net.running) _ _ v (
        handle_packet-Sound now t transferred buffer sender seq _ (establish-Sound now sender w v)))

received-Sound :
    (now transferred : ℕ) (buffer : Bytes) (sender : Endpoint) (w : Wired)
    → Sound w.net
    → Returned SoundAfter (process_received_data now transferred buffer sender w)
unfolding process_received_data
received-Sound now transferred buffer sender w v =
    if_both (Returned SoundAfter) (ltb transferred 16) _ _ v (
      if_both (Returned SoundAfter) (not (word32 buffer 0 == magic_number)) _ _ v (
        if_both (Returned SoundAfter) (not (word16 buffer 4 == protocol_version)) _ _ v
          (dispatch-Sound now _ transferred buffer sender _ _ (Sound-same v refl refl refl))))

pub handle_receive_from-Sound :
    (now : ℕ) (error : ErrorCode) (transferred : ℕ) (buffer : Bytes) (sender : Endpoint) (w : Wired)
    → Sound w.net
    → Returned SoundAfter (handle_receive_from now error transferred buffer sender w)
unfolding handle_receive_from start_async_receive
handle_receive_from-Sound now error transferred buffer sender w v =
    let r : Sound _ = Sound-same v (ground arith) (ground arith) (ground arith) in
    if_both (Returned SoundAfter) (not (is_error error)) _ _
      (received-Sound now transferred buffer sender _ r)
      (if_both (Returned SoundAfter) (is_aborted error) _ _ r (
        if_both (Returned SoundAfter) (is_recoverable error) _ _ r
          (handle_disconnect-Sound now _ r)))

run_task-Sound : (now : ℕ) (t : Task) (w : Wired) → Sound w.net → Sound (run_task now t w).net
unfolding run_task
run_task-Sound now (drop_ack seq) w v = erased seq w.net v
run_task-Sound now disconnect_task w v = handle_disconnect-Sound now w v

pub run_posted-Sound : (now : ℕ) (w : Wired) → Sound w.net → Sound (run_posted now w).net
unfolding run_posted
run_posted-Sound now w v = tasks w.net.posted
  where
    tasks :
        (ts : List Task)
        → SoundAfter (elim ts [
          | [] ↦ w
          | task ∷ rest ↦ run_task now task (record w { net = record (w.net) { posted = rest } })
        ])
    tasks [] = v
    tasks (t ∷ ts) = run_task-Sound now t _ (Sound-same v refl refl refl)

checked-Sound : (now : ℕ) (w : Wired) → Sound w.net → Sound (check_all_connections now w).net
unfolding check_all_connections notify_connection_event
checked-Sound now w v = Sound-same v (ground arith) (ground arith) (ground arith)

pub handle_keep_alive-Sound :
    (now : ℕ) (error : ErrorCode) (w : Wired)
    → Sound w.net
    → Sound (handle_keep_alive now error w).net
unfolding handle_keep_alive
handle_keep_alive-Sound now error w v =
    let sent : UdpNetwork = send_hole_punch_packet (record (w.net) { timer_armed = false }) in
    let punched : Wired = record w { net = sent } in
    let v' : Sound sent = punch-Sound _ (Sound-same v refl refl refl) in
    let c : Wired =
      if punched.net.peer.connected then check_all_connections now punched else punched in
    let v'' : Sound c.net =
      if_both SoundAfter sent.peer.connected _ punched (checked-Sound now punched v') v' in
    if_both SoundAfter (is_aborted error) w _ v (
      if_both SoundAfter (not w.net.running)
        (record w { net = record (w.net) { timer_armed = false } })
        (record c { net = start_keep_alive_timer c.net }) (Sound-same v refl refl refl)
        (timer-Sound c.net v''))

pub stop_connection-Sound :
    (now : ℕ) (w : Wired) → Sound w.net → Sound (Connection.stop_connection now w).net
unfolding Connection.stop_connection stop_keep_alive_timer
stop_connection-Sound now w v = Sound-same (goodbye-Sound w.net v) refl refl refl

pub shutdown-Sound : (now : ℕ) (w : Wired) → Sound w.net → Sound (Connection.shutdown now w).net
unfolding Connection.shutdown stop_keep_alive_timer
shutdown-Sound now w v =
    Sound-same
      (if_both SoundAfter (Connection.is_connected w.net) (Connection.stop_connection now w) w
        (stop_connection-Sound now w v) v)
      refl refl refl

pub connect-Sound :
    (make_address : Text → Option Text) (ip : Text) (port : ℤ) (w : Wired)
    → Sound w.net
    → Sound (Connection.connect_to_peer make_address ip port w).0.net
unfolding Connection.connect_to_peer start_hole_punching_process
connect-Sound make_address ip port w v =
    if_both (λ (r : Wired × Bool). Sound (r.0.net)) (Connection.is_connected w.net) _ _ v
      (elim (Option-cases (make_address ip)) [
        | inl e ↦ rw e v
        | inr (a, e) ↦ simp e (timer-Sound _ (punches-Sound 5 _ (Sound-same v refl refl refl)))
      ])

pub listening-Sound :
    (now : ℕ) (local : Option Endpoint) (accepted : Bool)
    → Sound
        (Connection.start_listening local accepted
          (Connection.set_message_callback (Connection.new_network now))).0
unfolding Connection.start_listening Connection.set_message_callback Connection.new_network
    start_async_receive
listening-Sound now local accepted =
    let fresh : Sound (Connection.new_network now) = record {
      sent = tt;
      next = omega arith;
      acks = tt;
    } in
    Sound-same fresh (ground arith) (ground arith) (ground arith)
