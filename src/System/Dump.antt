-- ===== src/System/Dump.antt =====
-- `dumpMulticastPacket` of client/src/P2PSystem.cpp, which nothing calls.
use peer_bridge_cli.Common.{
  ℕ, ◌+◌, ◌-◌, ◌*◌, ◌%◌, ◌^◌, ◌≤◌, ◌<◌, ◌≡◌, ◌↔◌, Bool, [], ◌∷◌, ◌++◌, Bytes, Text, codes, arith,
  ltb, length, take, drop, get_or, map, if◌then◌else◌, bit_and,
}
use peer_bridge_cli.Bits.{bit_and-0x0f}
use peer_bridge_cli.Decimal.{decimal}

-- A packet that is too short is left alone; `beyond` is a read past the end of the packet.
pub data Dump : Type 0 where
  skipped : Dump
  beyond : Dump
  dumped : Text → Dump

-- The length of the IPv4 header.
abbrev pub header_length : Bytes → ℕ
header_length buf = bit_and (get_or buf 0 0) 0x0F * 4

module _ (is_print : ℕ → Bool) where
  -- The text of a payload, with dots for what does not print, cut off at `print_len`.
  unfoldable pub shown : ℕ → Bytes → Text
  shown print_len payload = map (λ c. if is_print c then c else b'.') (take print_len payload)

  -- `size_t` wraps round at 2 ^ 64.
  unfoldable pub dump_multicast_packet : Bytes → Text → Dump
  dump_multicast_packet buf text_prefix =
      if ltb (length buf) 34
      then skipped
      else let ihl = header_length buf in
        if ltb (length buf) (ihl + 4)
        then beyond
        else let payload_start = ihl + 8 in
          let payload_len = (length buf + (2 ^ 64 - payload_start)) % 2 ^ 64 in
          let print_len = if ltb 50 payload_len then 50 else payload_len in
          if ltb (length buf) (payload_start + print_len)
          then beyond
          else dumped (
              text_prefix
              ++ codes " MC-LAN "
              ++ (0xE2 ∷ 0x80 ∷ 0xA2 ∷ [])
              ++ codes " printed size "
              ++ decimal payload_len
              ++ codes " B  | "
              ++ shown print_len (drop payload_start buf)
              ++ (if ltb print_len payload_len then codes "..." else []))

  -- The dump of a packet reads past its end exactly when the packet has 34 bytes at least but
  -- fewer than its IP header, of the length that it claims, and eight more. The packet is shorter
  -- than 2 ^ 63 bytes.
  dump_multicast_packet-beyond :
      (buf : Bytes) (text_prefix : Text)
      → length buf < 2 ^ 63
      → (dump_multicast_packet buf text_prefix ≡ beyond)
        ↔ ((34 ≤ length buf) × (length buf < header_length buf + 8))
  unfolding dump_multicast_packet
  dump_multicast_packet-beyond buf text_prefix small = ground (arith, bit_and-0x0f (get_or buf 0 0))
