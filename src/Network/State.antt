-- ===== src/Network/State.antt =====
-- The state of `UDPNetwork`, the timer, and what it sends.
--
-- The module holds a pointer to the system's state manager; the two are passed together as a
-- `Wired`. The socket is Boost's: a datagram that is handed to `async_send_to` is added to `sent`,
-- and `receives` counts the receive operations that wait for one. It is never null: the system
-- makes a `UDPNetwork` only from the socket of a STUN exchange that succeeded. A task given to
-- `boost::asio::post` waits in `posted`. An address stands as the text that prints it.
use peer_bridge_cli.Common.{
  ℕ, zero, suc, ◌+◌, ◌%◌, ◌^◌, Bool, true, false, not, none, List, [], ◌∷◌, ◌++◌, Bytes, Text, ltb,
  ◌==◌, if◌then◌else◌, length, replicate, copy_at, is_empty,
}
use peer_bridge_cli.StateManager.{StateManager, NetworkEvent, endpoint, monostate, queue_event}
use peer_bridge_cli.PeerConnection.{PeerConnectionInfo}
use peer_bridge_cli.Wire.{PacketType, Stamped, attach_custom_header, set_word, max_packet_size}

pub record Endpoint : Type 0 where
  pub address : Text
  pub port : ℕ

-- `boost::system::error_code`: no error, the values that the code names, and any other.
pub data ErrorCode : Type 0 where
  success operation_aborted would_block try_again : ErrorCode
  other : ℕ → ErrorCode

pub data Task : Type 0 where
  drop_ack : ℕ → Task
  disconnect_task : Task

pub record UdpNetwork : Type 0 where
  pub running : Bool
  pub local_port : ℕ
  pub local_address : Text
  pub next_seq : ℕ
  pub socket_open : Bool
  pub receives : ℕ
  pub sent : List (Endpoint × Bytes)
  pub timer_armed : Bool
  pub io_stopped : Bool
  pub io_thread : Bool
  pub posted : List Task
  pub pending_acks : List (ℕ × ℕ)
  pub peer_endpoint : Endpoint
  pub peer : PeerConnectionInfo
  pub current_peer_endpoint : Text
  pub has_callback : Bool

pub record Wired : Type 0 where
  pub manager : StateManager
  pub net : UdpNetwork

-- `pendingAcks[seq] = now` and `pendingAcks.erase(seq)`.
unfoldable pub insert_ack : ℕ → ℕ → List (ℕ × ℕ) → List (ℕ × ℕ)
insert_ack seq now [] = (seq, now) ∷ []
insert_ack seq now ((s, t) ∷ acks) =
    if s == seq then (seq, now) ∷ acks else (s, t) ∷ insert_ack seq now acks

unfoldable pub erase_ack : ℕ → List (ℕ × ℕ) → List (ℕ × ℕ)
erase_ack seq [] = []
erase_ack seq ((s, t) ∷ acks) =
    let rest = erase_ack seq acks in if s == seq then rest else (s, t) ∷ rest

unfoldable pub async_send_to : Endpoint → Bytes → UdpNetwork → UdpNetwork
async_send_to to packet n = record n { sent = n.sent ++ (to, packet) ∷ [] }

unfoldable pub notify_connection_event : NetworkEvent → Text → Wired → Wired
notify_connection_event event at w =
    if is_empty at
    then record w {
      manager = queue_event (record { event = event; payload = monostate }) w.manager;
    }
    else record w {
      manager = queue_event (record { event = event; payload = endpoint at }) w.manager;
    }

unfoldable pub send_hole_punch_packet : UdpNetwork → UdpNetwork
send_hole_punch_packet n =
    let stamped = attach_custom_header n.next_seq (replicate 16 0) PacketType.hole_punch none in
    async_send_to n.peer_endpoint stamped.packet (record n { next_seq = stamped.next_seq })

unfoldable pub start_keep_alive_timer : UdpNetwork → UdpNetwork
start_keep_alive_timer n = if n.running then record n { timer_armed = true } else n

unfoldable pub stop_keep_alive_timer : UdpNetwork → UdpNetwork
stop_keep_alive_timer n = record n { timer_armed = false }

-- Five packets, then the timer.
unfoldable pub hole_punches : ℕ → UdpNetwork → UdpNetwork
hole_punches zero n = n
hole_punches (suc k) n = hole_punches k (send_hole_punch_packet n)

unfoldable pub start_hole_punching_process : UdpNetwork → UdpNetwork
start_hole_punching_process n = start_keep_alive_timer (hole_punches 5 n)

-- Three copies of one packet.
unfoldable pub send_disconnect_notification : UdpNetwork → UdpNetwork
send_disconnect_notification n =
    if not n.peer.connected
    then n
    else let stamped =
        attach_custom_header n.next_seq (replicate 16 0) PacketType.disconnect none in
      let to = n.peer_endpoint in
      let m = record n { next_seq = stamped.next_seq } in
      async_send_to to stamped.packet
        (async_send_to to stamped.packet (async_send_to to stamped.packet m))

-- The packet of a message: the header, the length, and the data behind them.
unfoldable pub message_packet : ℕ → Bytes → Stamped
message_packet next data_to_send =
    let size = length data_to_send in
    let stamped = attach_custom_header next (replicate (16 + size) 0) PacketType.message none in
    record stamped { packet = copy_at 16 (set_word stamped.packet 12 (size % 2 ^ 32)) data_to_send }

unfoldable pub send_message : ℕ → Bytes → UdpNetwork → UdpNetwork × Bool
send_message now data_to_send n =
    if not n.running
    then (n, false)
    else if ltb max_packet_size (16 + length data_to_send)
    then (n, false)
    else let stamped = message_packet n.next_seq data_to_send in
      let tracked = record n {
        next_seq = stamped.next_seq;
        pending_acks = insert_ack stamped.seq now n.pending_acks;
      } in
      (async_send_to n.peer_endpoint stamped.packet tracked, true)

abbrev pub is_error : ErrorCode → Bool
is_error ErrorCode.success = false
is_error _ = true

abbrev pub is_aborted : ErrorCode → Bool
is_aborted ErrorCode.operation_aborted = true
is_aborted _ = false

-- 10035 is WSAEWOULDBLOCK.
abbrev pub is_recoverable : ErrorCode → Bool
is_recoverable ErrorCode.would_block = true
is_recoverable ErrorCode.try_again = true
is_recoverable (ErrorCode.other code) = code == 10035
is_recoverable _ = false

unfoldable pub handle_send_complete : ErrorCode → ℕ → UdpNetwork → UdpNetwork
handle_send_complete error seq n =
    if is_error error
    then if is_recoverable error
      then record n { posted = n.posted ++ drop_ack seq ∷ [] }
      else if is_aborted error
      then n
      else record n { posted = n.posted ++ disconnect_task ∷ [] }
    else n
