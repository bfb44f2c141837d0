-- ===== src/Tests/Link.antt =====
-- Examples of the link's theorems.
use peer_bridge_cli.Common.{
  ◌*◌, ltb, ◌+◌, ◌%◌, ◌^◌, ◌≤◌, ◌<◌, ◌≡◌, refl, ◌↔◌, ◌⊎◌, true, false, ◌&&◌, none, some, [], ◌∷◌,
  ◌++◌, arith, length, Bytes, IsByte, All, replicate, get_or, ◌==◌, if◌then◌else◌,
}
use peer_bridge_cli.Wire.{PacketType, to_byte, of_byte, word32, word16}
use peer_bridge_cli.Wire.Layout.{header}
use peer_bridge_cli.Network.State.{ErrorCode, Wired, message_packet, send_message}
use peer_bridge_cli.Network.Receive.{
  fault, handled, process_message, process_received_data, handle_receive_from, handle_keep_alive,
  run_posted, establish,
}
use peer_bridge_cli.Network.Packets.{touched}
use peer_bridge_cli.Network.Safety.{IsAccepted, Wraps, process_received-fault}
use peer_bridge_cli.Network.Acks.{ack_time, send_message_lem}
use peer_bridge_cli.Network.Delivery.{
  ack_packet, acknowledged, message-delivered, send-acknowledged,
}
use peer_bridge_cli.Network.Events.{Announces, Returned}
use peer_bridge_cli.Network.Handlers.{completions-Announces}
use peer_bridge_cli.Network.Timer.{punch_packet, handle_keep_alive_lem}
use peer_bridge_cli.Tests.Fixtures.{there, live, wire, three_bytes}

message-delivered_example :
    process_received_data 5
      (16 + length three_bytes)
      ((message_packet 7 three_bytes).packet ++ (9 ∷ []))
      there
      wire
    ≡ handled
        (acknowledged there 7 (establish 5 there (touched 5 wire)))
        (process_message live three_bytes)
message-delivered_example =
    message-delivered 5 7 three_bytes (9 ∷ []) there wire (omega arith) (omega arith) refl

send-acknowledged_example :
    (v : Wired) × (process_received_data 6 16
        (ack_packet 7 ++ [])
        there
        (record wire { net = (send_message 5 three_bytes live).0 })
      ≡ handled v none)
    × (ack_time 7 v.net.pending_acks ≡ (if 7 == 7 then none else ack_time 7 live.pending_acks))
send-acknowledged_example =
    send-acknowledged 5 6 three_bytes [] there wire 7 (omega arith) (omega arith) refl refl

send_message_lem_example :
    let (m, ok) = send_message 5 three_bytes live in
    ((ok ≡ false) × (m ≡ live) × ((live.running ≡ false) ⊎ (65507 < 16 + length three_bytes)))
    ⊎ ((ok ≡ true)
        × (live.running ≡ true)
        × (16 + length three_bytes ≤ 65507)
        × (m.sent ≡ live.sent ++ (there, (message_packet 7 three_bytes).packet) ∷ [])
        × (m.next_seq ≡ (7 + 1) % 2 ^ 32)
        × (ack_time 3 m.pending_acks ≡ (if 7 == 3 then some 5 else ack_time 3 live.pending_acks)))
send_message_lem_example = send_message_lem 5 three_bytes live 3

-- A message whose length field is all ones.
abbrev long_message : Bytes
long_message = header PacketType.message 0 ++ replicate 4 255

long_message-bytes : All IsByte long_message
unfolding to_byte
long_message-bytes = ground arith

long_message-IsAccepted : IsAccepted 16 long_message
unfolding word32 word16 to_byte
long_message-IsAccepted = record { enough = omega arith; magic = refl; version = refl }

process_received-fault_example : (process_received_data 5 16 long_message there wire ≡ fault) ↔ (
    (of_byte (get_or long_message 6 0) ≡ PacketType.message)
    × Wraps 16 long_message (omega arith) (omega arith) long_message-bytes)
process_received-fault_example =
    process_received-fault 16 long_message (omega arith) (omega arith) long_message-bytes 5 there
      wire long_message-IsAccepted refl

completions-Announces_example :
    Returned (Announces wire) (handle_receive_from 5 ErrorCode.success 16 (ack_packet 3) there wire)
    × Announces wire (handle_keep_alive 5 ErrorCode.success wire)
    × Announces wire (run_posted 5 wire)
completions-Announces_example =
    completions-Announces 5 ErrorCode.success 16 (ack_packet 3) there wire

handle_keep_alive_lem_example :
    let v = handle_keep_alive 5 ErrorCode.success wire in
    (v.net.timer_armed ≡ true)
    × (v.net.sent ≡ live.sent ++ (there, punch_packet 7) ∷ [])
    × (v.net.peer.connected ≡ (true && ltb 5 (live.peer.last_activity + 21 * 10 ^ 9)))
handle_keep_alive_lem_example = handle_keep_alive_lem 5 ErrorCode.success wire refl refl
