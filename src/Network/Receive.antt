-- ===== src/Network/Receive.antt =====
-- What arrives at the UDP socket: `startAsyncReceive`, `handleReceiveFrom`, `processReceivedData`
-- and the handlers below it, and the tasks that a failed send posts.
use peer_bridge_cli.Common.{
  ℕ, ◌+◌, ◌-◌, ◌%◌, ◌^◌, Bool, true, false, ◌&&◌, not, Option, none, some, [], ◌∷◌, ◌++◌, Bytes,
  Text, ltb, ◌==◌, if◌then◌else◌, length, replicate, take, drop, get_or,
}
use peer_bridge_cli.StateManager.{NetworkEvent}
use peer_bridge_cli.PeerConnection.{update_activity, has_timed_out, set_connected}
use peer_bridge_cli.Decimal.{decimal}
use peer_bridge_cli.Wire.{
  PacketType, of_byte, attach_custom_header, word32, word16, magic_number, protocol_version,
}
use peer_bridge_cli.Network.State.{
  Endpoint, ErrorCode, Task, drop_ack, disconnect_task, UdpNetwork, Wired, erase_ack, async_send_to,
  notify_connection_event, is_error, is_aborted, is_recoverable, send_hole_punch_packet,
  start_keep_alive_timer,
}

-- `fault` is a read beyond the receive buffer. Otherwise the handler returns, and may have passed a
-- payload to the message callback.
pub data Received : Type 0 where
  fault : Received
  handled : Wired → Option Bytes → Received

unfoldable pub start_async_receive : UdpNetwork → UdpNetwork
start_async_receive n = if n.socket_open then record n { receives = n.receives + 1 } else n

unfoldable pub handle_disconnect : ℕ → Wired → Wired
handle_disconnect now w =
    if not w.net.peer.connected
    then w
    else notify_connection_event NetworkEvent.all_peers_disconnected []
        (record w { net = record (w.net) { peer = set_connected now false w.net.peer } })

-- `address:port`
unfoldable pub endpoint_text : Endpoint → Text
endpoint_text e = e.address ++ (b':' ∷ decimal e.port)

-- The first packet that is no goodbye makes its sender the peer.
unfoldable pub establish : ℕ → Endpoint → Wired → Wired
establish now sender w =
    if w.net.peer.connected
    then w
    else notify_connection_event NetworkEvent.peer_connected (endpoint_text sender) (record w {
      net = record (w.net) {
        peer_endpoint = sender;
        current_peer_endpoint = endpoint_text sender;
        peer = set_connected now true w.net.peer;
      };
    })

-- `processMessage`: the callback, where one is set.
abbrev pub process_message : UdpNetwork → Bytes → Option Bytes
process_message n message = if n.has_callback then some message else none

-- The sum with 16 is taken in `uint32_t`.
unfoldable pub handle_message : ℕ → Bytes → Endpoint → ℕ → Wired → Received
handle_message transferred buffer sender seq w =
    let msg_len = word32 buffer 12 in
    if ltb transferred ((16 + msg_len) % 2 ^ 32)
    then handled w none
    else let n = w.net in
      let stamped = attach_custom_header n.next_seq (replicate 16 0) PacketType.ack (some seq) in
      let acked = async_send_to sender stamped.packet (record n { next_seq = stamped.next_seq }) in
      if ltb (length buffer) (16 + msg_len)
      then fault
      else handled (record w { net = acked })
          (process_message acked (take msg_len (drop 16 buffer)))

unfoldable pub handle_packet : ℕ → PacketType → ℕ → Bytes → Endpoint → ℕ → Wired → Received
handle_packet now PacketType.hole_punch transferred buffer sender seq w = handled w none
handle_packet now PacketType.heartbeat transferred buffer sender seq w = handled w none
handle_packet now PacketType.disconnect transferred buffer sender seq w =
    handled (handle_disconnect now w) none
handle_packet now PacketType.message transferred buffer sender seq w =
    handle_message transferred buffer sender seq w
handle_packet now PacketType.ack transferred buffer sender seq w =
    handled (record w { net = record (w.net) { pending_acks = erase_ack seq w.net.pending_acks } })
      none
handle_packet now (PacketType.unknown b) transferred buffer sender seq w = handled w none

abbrev pub is_disconnect : PacketType → Bool
is_disconnect PacketType.disconnect = true
is_disconnect _ = false

-- Behind the checks of the header: the packet's type decides.
unfoldable pub dispatch : ℕ → PacketType → ℕ → Bytes → Endpoint → ℕ → Wired → Received
dispatch now type transferred buffer sender seq w =
    if is_disconnect type
    then handle_packet now type transferred buffer sender seq w
    else if not w.net.running
    then handled w none
    else handle_packet now type transferred buffer sender seq (establish now sender w)

unfoldable pub process_received_data : ℕ → ℕ → Bytes → Endpoint → Wired → Received
process_received_data now transferred buffer sender w =
    if ltb transferred 16
    then handled w none
    else if not (word32 buffer 0 == magic_number)
    then handled w none
    else if not (word16 buffer 4 == protocol_version)
    then handled w none
    else let n = w.net in
      dispatch now (of_byte (get_or buffer 6 0)) transferred buffer sender (word32 buffer 8)
        (record w { net = record n { peer = update_activity now n.peer } })

-- A receive operation completes: it is no longer outstanding, and the handler queues another first.
unfoldable pub handle_receive_from : ℕ → ErrorCode → ℕ → Bytes → Endpoint → Wired → Received
handle_receive_from now error transferred buffer sender w =
    let n = record (w.net) { receives = w.net.receives - 1 } in
    let rearmed = if n.socket_open && not (is_aborted error) then start_async_receive n else n in
    let v = record w { net = rearmed } in
    if not (is_error error)
    then process_received_data now transferred buffer sender v
    else if is_aborted error
    then handled v none
    else if is_recoverable error
    then handled v none
    else handled (handle_disconnect now v) none

-- A posted task runs.
unfoldable pub run_task : ℕ → Task → Wired → Wired
run_task now (drop_ack seq) w = record w {
  net = record (w.net) { pending_acks = erase_ack seq w.net.pending_acks };
}
run_task now disconnect_task w = handle_disconnect now w

unfoldable pub run_posted : ℕ → Wired → Wired
run_posted now w = elim w.net.posted [
  | [] ↦ w
  | task ∷ rest ↦ run_task now task (record w { net = record (w.net) { posted = rest } })
]

-- Twenty seconds without a packet end the connection.
unfoldable pub check_all_connections : ℕ → Wired → Wired
check_all_connections now w =
    if has_timed_out now 20 w.net.peer
    then notify_connection_event NetworkEvent.all_peers_disconnected []
        (record w { net = record (w.net) { peer = set_connected now false w.net.peer } })
    else w

-- The timer's wait completes: it is no longer armed, until the handler starts it again. A wait that
-- was cancelled says nothing of a newer one.
unfoldable pub handle_keep_alive : ℕ → ErrorCode → Wired → Wired
handle_keep_alive now error w =
    let expired = record w { net = record (w.net) { timer_armed = false } } in
    if is_aborted error
    then w
    else if not w.net.running
    then expired
    else let punched = record expired { net = send_hole_punch_packet expired.net } in
      let checked =
        if punched.net.peer.connected then check_all_connections now punched else punched in
      record checked { net = start_keep_alive_timer checked.net }
