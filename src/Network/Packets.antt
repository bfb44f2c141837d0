-- ===== src/Network/Packets.antt =====
-- The packets that the client builds, and how the receiver takes them apart.
use peer_bridge_cli.Common.{
  ℕ, ◌+◌, ◌%◌, ◌^◌, ◌≤◌, ◌<◌, ◌≡◌, Option, none, ◌++◌, Bytes, arith, length, replicate, ltb, false,
  replicate-add, drop-replicate_self, append-nil,
}
use peer_bridge_cli.PeerConnection.{update_activity}
use peer_bridge_cli.Wire.{PacketType, to_byte, of_byte, attach_custom_header, value_or}
use peer_bridge_cli.Wire.Layout.{
  header, bytes4, attach-header, set_word-bytes4, word32-magic, word16-version, word32-seq,
}
use peer_bridge_cli.Network.State.{Endpoint, Wired, message_packet}
use peer_bridge_cli.Network.Receive.{dispatch, process_received_data}

-- A packet with a header alone: hole punch, acknowledgement, goodbye.
pub attach-bare :
    (next : ℕ) (t : PacketType) (o : Option ℕ)
    → (attach_custom_header next (replicate 16 0) t o).packet
      ≡ header t (value_or o next) ++ replicate 4 0
attach-bare next t o = attach-header next t o (replicate 4 0)

-- The packet of a message is the header of 12 bytes with the message's number, the length in 4
-- bytes, and the data, if the length has 32 bits.
pub message_packet-layout :
    (next : ℕ) (bytes : Bytes)
    → length bytes < 2 ^ 32
    → (message_packet next bytes).packet
      ≡ header PacketType.message next ++ bytes4 (length bytes) ++ bytes
unfolding message_packet
message_packet-layout next bytes h =
    let n = length bytes in
    let blank : Bytes = replicate 4 0 ++ replicate n 0 in
    let e : replicate (16 + n) 0 ≡ replicate 12 0 ++ blank = replicate-add 16 n 0 in
    let m : n % 2 ^ 32 ≡ n = omega arith in
    rw (
      e,
      attach-header next PacketType.message none blank,
      m,
      set_word-bytes4,
      drop-replicate_self {A = ℕ} n 0,
      append-nil,
    )

-- `update_activity` on the link.
abbrev pub touched : ℕ → Wired → Wired
touched now w = let n = w.net in record w { net = record n { peer = update_activity now n.peer } }

-- A well-formed header is read back: type and sequence number reach `dispatch` as they were
-- written.
pub process_received-header :
    (now transferred : ℕ) (t : PacketType) (seq : ℕ) (rest : Bytes) (sender : Endpoint) (w : Wired)
    → of_byte (to_byte t) ≡ t
    → seq < 2 ^ 32
    → 16 ≤ transferred
    → process_received_data now transferred (header t seq ++ rest) sender w
      ≡ dispatch now t transferred (header t seq ++ rest) sender seq (touched now w)
unfolding process_received_data
process_received-header now transferred t seq rest sender w known small enough =
    let e : ltb transferred 16 ≡ false = ground arith in
    rw (e, word32-magic t seq rest, word16-version t seq rest, word32-seq t seq rest small, known)
