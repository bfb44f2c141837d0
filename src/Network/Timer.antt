-- ===== src/Network/Timer.antt =====
-- What keeps the link alive: the timer, the receive operation, and the packets of a dial.
use peer_bridge_cli.Common.{
  ◌*◌, ℕ, zero, suc, ◌+◌, ◌-◌, ◌%◌, ◌^◌, ◌<◌, ◌≡◌, refl, sym, ◌∙◌, true, false, ◌&&◌, not, Option,
  none, some, List, [], ◌∷◌, ◌++◌, append_assoc, append-nil, Bytes, Text, ◌==◌, if_both, arith,
  if◌then◌else◌, replicate, ltb,
}
use peer_bridge_cli.Common.Int.{ℤ, to_u16}
use peer_bridge_cli.PeerConnection.{has_timed_out, set_connected}
use peer_bridge_cli.Wire.{
  magic_number, protocol_version, word16, word32, PacketType, attach_custom_header,
}
use peer_bridge_cli.Wire.Layout.{header}
use peer_bridge_cli.Network.State.{
  is_recoverable, Endpoint, ErrorCode, UdpNetwork, Wired, is_aborted, is_error, async_send_to,
  send_hole_punch_packet, start_keep_alive_timer, hole_punches, start_hole_punching_process,
  notify_connection_event,
}
use peer_bridge_cli.Network.Receive.{
  is_disconnect, handle_keep_alive, check_all_connections, handle_receive_from, start_async_receive,
  process_received_data, dispatch, handle_packet, handle_message, handle_disconnect, establish,
}
use peer_bridge_cli.Network.Connection.{connect_to_peer, is_connected}
use peer_bridge_cli.Network.Packets.{attach-bare}
use peer_bridge_cli.Network.Events.{Returned}
use peer_bridge_cli.Decimal.{int_text}

-- The packet that punches the hole, under the number `seq`.
abbrev pub punch_packet : ℕ → Bytes
punch_packet seq = header PacketType.hole_punch seq ++ replicate 4 0

send_hole_punch-sent :
    (n : UdpNetwork)
    → send_hole_punch_packet n ≡ record n {
      next_seq = (n.next_seq + 1) % 2 ^ 32;
      sent = n.sent ++ (n.peer_endpoint, punch_packet n.next_seq) ∷ [];
    }
unfolding send_hole_punch_packet async_send_to attach_custom_header
send_hole_punch-sent n = simp (attach-bare n.next_seq PacketType.hole_punch none)

-- When the timer of a running link expires and was not cancelled, it is armed again, one
-- hole-punch packet goes to the peer, and the link is connected exactly if it was and fewer than
-- twenty-one seconds have passed since the peer was last heard of.
pub handle_keep_alive_lem :
    (now : ℕ) (error : ErrorCode) (w : Wired)
    → is_aborted error ≡ false
    → w.net.running ≡ true
    → let v = handle_keep_alive now error w in
      (v.net.timer_armed ≡ true)
      × (v.net.sent ≡ w.net.sent ++ (w.net.peer_endpoint, punch_packet w.net.next_seq) ∷ [])
      × (v.net.peer.connected
          ≡ (w.net.peer.connected && ltb now (w.net.peer.last_activity + 21 * 10 ^ 9)))
unfolding handle_keep_alive has_timed_out set_connected check_all_connections start_keep_alive_timer
    notify_connection_event
handle_keep_alive_lem now error w fresh on =
    rw (send_hole_punch-sent (record (w.net) { timer_armed = false })) (ground arith)

-- The number of receive operations that a handler leaves.
Keeps : ℕ → Wired → Type 0
Keeps k v = v.net.receives ≡ k

handle_disconnect-receives :
    (now : ℕ) (w : Wired) → (handle_disconnect now w).net.receives ≡ w.net.receives
unfolding handle_disconnect notify_connection_event
handle_disconnect-receives now w = ground arith

establish-receives :
    (now : ℕ) (sender : Endpoint) (w : Wired)
    → (establish now sender w).net.receives ≡ w.net.receives
unfolding establish notify_connection_event
establish-receives now sender w = ground arith

handle_message-receives :
    (transferred : ℕ) (buffer : Bytes) (sender : Endpoint) (seq k : ℕ) (w : Wired)
    → Keeps k w
    → Returned (Keeps k) (handle_message transferred buffer sender seq w)
unfolding Keeps handle_message async_send_to
handle_message-receives transferred buffer sender seq k w h = ground arith

handle_packet-receives :
    (now : ℕ) (t : PacketType) (transferred : ℕ) (buffer : Bytes) (sender : Endpoint) (seq k : ℕ)
    (w : Wired)
    → Keeps k w
    → Returned (Keeps k) (handle_packet now t transferred buffer sender seq w)
unfolding Keeps handle_packet
handle_packet-receives now PacketType.message transferred buffer sender seq k w h =
    handle_message-receives transferred buffer sender seq k w h
handle_packet-receives now PacketType.disconnect transferred buffer sender seq k w h =
    handle_disconnect-receives now w ∙ h
handle_packet-receives now t transferred buffer sender seq k w h = h

dispatch-receives :
    (now : ℕ) (t : PacketType) (transferred : ℕ) (buffer : Bytes) (sender : Endpoint) (seq k : ℕ)
    (w : Wired)
    → Keeps k w
    → Returned (Keeps k) (dispatch now t transferred buffer sender seq w)
unfolding Keeps dispatch
dispatch-receives now t transferred buffer sender seq k w h =
    if_both (Returned (Keeps k)) (is_disconnect t) _ _
      (handle_packet-receives now t transferred buffer sender seq k w h)
      (if_both (Returned (Keeps k)) (not w.net.running) _ _ h (
        handle_packet-receives now t transferred buffer sender seq k (establish now sender w)
          (establish-receives now sender w ∙ h)))

process_received-receives :
    (now transferred : ℕ) (buffer : Bytes) (sender : Endpoint) (k : ℕ) (w : Wired)
    → Keeps k w
    → Returned (Keeps k) (process_received_data now transferred buffer sender w)
unfolding Keeps process_received_data
process_received-receives now transferred buffer sender k w h =
    let P = Returned (Keeps k) in
    if_both P (ltb transferred 16) _ _ h (
      if_both P (not (word32 buffer 0 == magic_number)) _ _ h (
        if_both P (not (word16 buffer 4 == protocol_version)) _ _ h
          (dispatch-receives now _ transferred buffer sender _ k _ h)))

-- If the handler of a completed receive operation returns, as many operations wait as before the
-- completion, provided the socket is open and the operation was not aborted; otherwise one fewer
-- waits.
handle_receive_from-receives :
    (now : ℕ) (error : ErrorCode) (transferred : ℕ) (buffer : Bytes) (sender : Endpoint) (w : Wired)
    → 0 < w.net.receives
    → Returned
        (λ v. v.net.receives ≡ (
          if w.net.socket_open && not (is_aborted error)
          then w.net.receives
          else w.net.receives - 1))
        (handle_receive_from now error transferred buffer sender w)
unfolding handle_receive_from start_async_receive Keeps
handle_receive_from-receives now error transferred buffer sender w h =
    let k =
      if w.net.socket_open && not (is_aborted error) then w.net.receives else w.net.receives - 1 in
    let P = Returned (Keeps k) in
    let n = record (w.net) { receives = w.net.receives - 1 } in
    let v = record w {
      net = if n.socket_open && not (is_aborted error) then start_async_receive n else n;
    } in
    let left : Keeps k v = ground arith in
    if_both P (not (is_error error)) _ _
      (process_received-receives now transferred buffer sender k v left)
      (if_both P (is_aborted error) _ _ left
        (if_both P (is_recoverable error) _ _ left (handle_disconnect-receives now v ∙ left)))

-- `k` packets to one endpoint, with consecutive numbers.
unfoldable pub punches : ℕ → ℕ → Endpoint → List (Endpoint × Bytes)
punches zero seq to = []
punches (suc k) seq to = (to, punch_packet seq) ∷ punches k ((seq + 1) % 2 ^ 32) to

hole_punches-sent :
    (k : ℕ) (n : UdpNetwork)
    → ((hole_punches k n).sent ≡ n.sent ++ punches k n.next_seq n.peer_endpoint)
      × ((hole_punches k n).running ≡ n.running)
      × ((hole_punches k n).peer_endpoint ≡ n.peer_endpoint)
unfolding hole_punches punches
hole_punches-sent zero n = (sym (append-nil n.sent), refl, refl)
hole_punches-sent (suc k) n =
    let m = record n {
      next_seq = (n.next_seq + 1) % 2 ^ 32;
      sent = n.sent ++ (n.peer_endpoint, punch_packet n.next_seq) ∷ [];
    } in
    let (a, b, c) = hole_punches-sent k m in
    rw (hole_punches, send_hole_punch-sent n) (a ∙ append_assoc n.sent _ _, b, c)

start_punching-sent :
    (n : UdpNetwork)
    → n.running ≡ true
    → let m = start_hole_punching_process n in
      (m.timer_armed ≡ true)
      × (m.running ≡ true)
      × (m.peer_endpoint ≡ n.peer_endpoint)
      × (m.sent ≡ n.sent ++ punches 5 n.next_seq n.peer_endpoint)
unfolding start_hole_punching_process start_keep_alive_timer
start_punching-sent n on = let (a, b, c) = hole_punches-sent 5 n in ground arith

-- A dial of an address that reads, on a link without a connection, succeeds: the link runs with
-- the address as its peer and its timer armed, and exactly five hole-punch packets go there, with
-- consecutive numbers.
pub connect_to_peer-punches :
    (make_address : Text → Option Text) (ip addr : Text) (port : ℤ) (w : Wired)
    → w.net.peer.connected ≡ false
    → make_address ip ≡ some addr
    → let (v, ok) = connect_to_peer make_address ip port w in
      let to : Endpoint = record { address = addr; port = to_u16 port } in
      (ok ≡ true)
      × (v.net.timer_armed ≡ true)
      × (v.net.running ≡ true)
      × (v.net.peer_endpoint ≡ to)
      × (v.net.sent ≡ w.net.sent ++ punches 5 w.net.next_seq to)
unfolding connect_to_peer is_connected
connect_to_peer-punches make_address ip addr port w off e =
    let dialled = record (w.net) {
      peer_endpoint = record { address = addr; port = to_u16 port };
      current_peer_endpoint = ip ++ (b':' ∷ int_text port);
      running = true;
    } in
    let (a, b, c, d) = start_punching-sent dialled refl in simp (off, e) (refl, a, b, c, d)
