-- ===== src/Wire.antt =====
-- The 16-byte header of the client's datagrams: `PacketType`, the constants and
-- `attachCustomHeader` of client/include/NetworkingModule.hpp and client/src/NetworkingModule.cpp,
-- and the reads by which `processReceivedData` takes a header apart. A byte is a number below 256.
pub mod Layout
use peer_bridge_cli.Common.{
  ℕ, suc, ◌+◌, ◌*◌, ◌/◌, ◌%◌, ◌^◌, Option, none, some, Bytes, bit_and, bit_or, set, get_or, ◌==◌,
  if◌then◌else◌,
}

abbrev pub max_packet_size : ℕ
max_packet_size = 65507

abbrev pub protocol_version : ℕ
protocol_version = 1

abbrev pub magic_number : ℕ
magic_number = 0x12345678

-- `unknown` holds a byte that `static_cast` turns into no enumerator.
pub data PacketType : Type 0 where
  hole_punch heartbeat message ack disconnect : PacketType
  unknown : ℕ → PacketType

unfoldable pub to_byte : PacketType → ℕ
to_byte PacketType.hole_punch = 0x01
to_byte PacketType.heartbeat = 0x02
to_byte PacketType.message = 0x03
to_byte PacketType.ack = 0x04
to_byte PacketType.disconnect = 0x05
to_byte (PacketType.unknown b) = b

unfoldable pub of_byte : ℕ → PacketType
of_byte b =
    if b == 0x01
    then PacketType.hole_punch
    else if b == 0x02
    then PacketType.heartbeat
    else if b == 0x03
    then PacketType.message
    else if b == 0x04
    then PacketType.ack
    else if b == 0x05
    then PacketType.disconnect
    else PacketType.unknown b

-- `(x >> k) & 0xFF`
abbrev pub byte_of : ℕ → ℕ → ℕ
byte_of x k = bit_and (x / 2 ^ k) 0xff

abbrev pub value_or {ℓ} : {A : Type ℓ} → Option A → A → A
value_or none d = d
value_or (some a) d = a

-- The packet with its header, the sequence number in it, and the next value of the counter.
pub record Stamped : Type 0 where
  pub packet : Bytes
  pub seq : ℕ
  pub next_seq : ℕ

-- `(*packet)[12..15]` with the length of the message.
unfoldable pub set_word : Bytes → ℕ → ℕ → Bytes
set_word p i x =
    set (set (set (set p i (byte_of x 24)) (i + 1) (byte_of x 16)) (i + 2) (byte_of x 8)) (i + 3)
      (bit_and x 0xff)

-- The argument of `value_or` is evaluated either way, so the counter moves on at each call.
unfoldable pub attach_custom_header : ℕ → Bytes → PacketType → Option ℕ → Stamped
attach_custom_header next packet type seq_opt =
    let seq = value_or seq_opt next in
    let p0 = set_word packet 0 magic_number in
    let p4 = set p0 4 (byte_of protocol_version 8) in
    let p5 = set p4 5 (bit_and protocol_version 0xff) in
    let p6 = set p5 6 (to_byte type) in
    let p8 = set_word p6 8 seq in record { packet = p8; seq = seq; next_seq = (next + 1) % 2 ^ 32 }

-- `(b[i] << 24) | (b[i+1] << 16) | (b[i+2] << 8) | b[i+3]`, as a `uint32_t`.
unfoldable pub word32 : Bytes → ℕ → ℕ
word32 b i =
    bit_or
      (bit_or (bit_or (get_or b i 0 * 2 ^ 24) (get_or b (i + 1) 0 * 2 ^ 16))
        (get_or b (i + 2) 0 * 2 ^ 8))
      (get_or b (i + 3) 0)

-- `(b[i] << 8) | b[i+1]`, as a `uint16_t`.
unfoldable pub word16 : Bytes → ℕ → ℕ
word16 b i = bit_or (get_or b i 0 * 2 ^ 8) (get_or b (i + 1) 0)
