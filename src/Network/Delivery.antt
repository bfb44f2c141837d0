-- ===== src/Network/Delivery.antt =====
-- A message from one client to the other, over the wire and back.
use peer_bridge_cli.Common.{
  ℕ, ◌+◌, ◌%◌, ◌^◌, ◌≤◌, ◌<◌, ◌≡◌, refl, ◌∙◌, true, false, none, [], ◌∷◌, ◌++◌, Bytes, arith,
  length, ltb, ◌==◌, if◌then◌else◌, replicate, take-append_left, length-append,
}
use peer_bridge_cli.PeerConnection.{update_activity}
use peer_bridge_cli.Wire.{PacketType, to_byte, of_byte, attach_custom_header, set_word}
use peer_bridge_cli.Bits.{bit_and-0xff}
use peer_bridge_cli.Wire.Layout.{header, bytes4, word32-msg_len}
use peer_bridge_cli.Network.State.{
  Endpoint, Wired, message_packet, send_message, async_send_to, erase_ack, notify_connection_event,
}
use peer_bridge_cli.Network.Receive.{
  handled, dispatch, process_received_data, handle_packet, handle_message, establish,
  process_message,
}
use peer_bridge_cli.Network.Acks.{ack_time, ack_time-insert, ack_time-erase}
use peer_bridge_cli.Network.Packets.{touched, message_packet-layout, process_received-header}

-- The acknowledgement of the number `seq`.
abbrev pub ack_packet : ℕ → Bytes
ack_packet seq = header PacketType.ack seq ++ replicate 4 0

-- The link after it has answered the message `seq` of `sender`.
abbrev pub acknowledged : Endpoint → ℕ → Wired → Wired
acknowledged sender seq w =
    let n = w.net in
    record w {
      net = record n {
        next_seq = (n.next_seq + 1) % 2 ^ 32;
        sent = n.sent ++ (sender, ack_packet seq) ∷ [];
      };
    }

abbrev received_buffer : ℕ → Bytes → Bytes → Bytes
received_buffer seq bytes padding =
    header PacketType.message seq ++ bytes4 (length bytes) ++ (bytes ++ padding)

handle_message-reads :
    (seq : ℕ) (bytes padding : Bytes) (sender : Endpoint) (w : Wired)
    → 16 + length bytes ≤ 65507
    → handle_message (16 + length bytes) (received_buffer seq bytes padding) sender seq w
      ≡ handled (acknowledged sender seq w) (process_message w.net bytes)
unfolding handle_message attach_custom_header async_send_to set_word to_byte
handle_message-reads seq bytes padding sender w fits =
    let len = length bytes in
    let word = word32-msg_len PacketType.message seq (bytes ++ padding) len (omega arith) in
    let small : (16 + len) % 2 ^ 32 ≡ 16 + len = omega arith in
    let bound : ltb (16 + len) (16 + len) ≡ false = ground arith in
    let room : ltb (length (received_buffer seq bytes padding)) (16 + len) ≡ false =
      ground (arith, length-append bytes padding) in
    simp (word, small, bound, room, take-append_left bytes padding, bit_and-0xff)

establish-has_callback :
    (now : ℕ) (sender : Endpoint) (w : Wired)
    → (establish now sender w).net.has_callback ≡ w.net.has_callback
unfolding establish notify_connection_event
establish-has_callback now sender w = ground arith

-- What a sender puts into a message is what the callback of a running receiver gets, whatever
-- bytes follow the datagram in the receive buffer, if the message fits a datagram and its number
-- is below 2 ^ 32. The receiver answers with the acknowledgement of that number, and its own
-- counter moves on by one.
pub message-delivered :
    (now seq : ℕ) (bytes padding : Bytes) (sender : Endpoint) (w : Wired)
    → seq < 2 ^ 32
    → 16 + length bytes ≤ 65507
    → w.net.running ≡ true
    → process_received_data now
        (16 + length bytes)
        ((message_packet seq bytes).packet ++ padding)
        sender
        w
      ≡ handled
          (acknowledged sender seq (establish now sender (touched now w)))
          (process_message w.net bytes)
unfolding dispatch handle_packet of_byte to_byte
message-delivered now seq bytes padding sender w small fits on =
    let b = bytes4 (length bytes) ++ (bytes ++ padding) in
    let t = touched now w in
    rw (message_packet-layout seq bytes (omega arith)) (
      process_received-header now (16 + length bytes) PacketType.message seq b sender w refl small
        (omega arith)
      ∙ simp (on, handle_message-reads, establish-has_callback))

abbrev cleared : ℕ → ℕ → Wired → Wired
cleared now seq w =
    let n = (touched now w).net in
    record w { net = record n { pending_acks = erase_ack seq n.pending_acks } }

-- An acknowledgement takes its number, and no other, off the receiver's table.
ack-received :
    (now seq : ℕ) (padding : Bytes) (sender : Endpoint) (w : Wired)
    → seq < 2 ^ 32
    → w.net.running ≡ true
    → w.net.peer.connected ≡ true
    → process_received_data now 16 (ack_packet seq ++ padding) sender w
      ≡ handled (cleared now seq w) none
unfolding dispatch handle_packet of_byte to_byte establish update_activity
ack-received now seq padding sender w small on linked =
    process_received-header now 16 PacketType.ack seq (replicate 4 0 ++ padding) sender w refl small
      (omega arith)
    ∙ simp (on, linked)

-- After a running, connected link has sent a message that fits a datagram and the acknowledgement
-- of its number has come in, that number no longer waits, and every other number waits as it did
-- before the message. The counter is below 2 ^ 32.
pub send-acknowledged :
    (now later : ℕ) (bytes padding : Bytes) (sender : Endpoint) (w : Wired) (k : ℕ)
    → w.net.next_seq < 2 ^ 32
    → 16 + length bytes ≤ 65507
    → w.net.running ≡ true
    → w.net.peer.connected ≡ true
    → (v : Wired) × (process_received_data later 16
          (ack_packet w.net.next_seq ++ padding)
          sender
          (record w { net = (send_message now bytes w.net).0 })
        ≡ handled v none)
      × (ack_time k v.net.pending_acks
          ≡ (if w.net.next_seq == k then none else ack_time k w.net.pending_acks))
unfolding send_message message_packet attach_custom_header async_send_to
send-acknowledged now later bytes padding sender w k small fits on linked =
    let s : Wired = record w { net = (send_message now bytes w.net).0 } in
    let seq = w.net.next_seq in
    (
      cleared later seq s,
      ack-received later seq padding sender s small (ground arith) (ground arith),
      ground (
        arith,
        ack_time-erase k seq s.net.pending_acks,
        ack_time-insert k seq now w.net.pending_acks,
      ),
    )
