-- ===== src/Network/Safety.antt =====
-- The receive path: reads of the buffer, and datagrams that are not the protocol's.
use peer_bridge_cli.Common.{
  ℕ, ◌+◌, ◌-◌, ◌%◌, ◌^◌, ◌≤◌, ◌<◌, ◌≡◌, ◌≢◌, ◌↔◌, ◌⊎◌, refl, true, false, none, Bytes, arith,
  length, ltb, get_or, All, IsByte,
}
use peer_bridge_cli.Wire.Layout.{word32-lt}
use peer_bridge_cli.Wire.{PacketType, of_byte, word32, word16}
use peer_bridge_cli.Network.State.{Endpoint, Wired}
use peer_bridge_cli.Network.Receive.{
  fault, handled, dispatch, process_received_data, handle_packet, handle_message, establish,
}
use peer_bridge_cli.Network.Packets.{touched}

-- The checks of the header that every packet passes.
pub record IsAccepted (transferred : ℕ) (buffer : Bytes) : Type 0 where
  pub enough : 16 ≤ transferred
  pub magic : word32 buffer 0 ≡ 0x12345678
  pub version : word16 buffer 4 ≡ 1

process_received-dispatch :
    (now transferred : ℕ) (buffer : Bytes) (sender : Endpoint) (w : Wired)
    → IsAccepted transferred buffer
    → process_received_data now transferred buffer sender w
      ≡ dispatch now
          (of_byte (get_or buffer 6 0))
          transferred
          buffer
          sender
          (word32 buffer 8)
          (touched now w)
unfolding process_received_data
process_received-dispatch now transferred buffer sender w ok =
    let e : ltb transferred 16 ≡ false = ground arith in rw (e, ok.magic, ok.version)

-- A datagram that is too short, or that has another magic number or version, changes nothing at
-- all: no activity, no connection, no event, no answer.
process_received-rejects :
    (now transferred : ℕ) (buffer : Bytes) (sender : Endpoint) (w : Wired)
    → (transferred < 16) ⊎ (word32 buffer 0 ≢ 0x12345678) ⊎ (word16 buffer 4 ≢ 1)
    → process_received_data now transferred buffer sender w ≡ handled w none
unfolding process_received_data
process_received-rejects now transferred buffer sender w h = ground arith

handle_message-fault :
    (transferred : ℕ) (buffer : Bytes) (sender : Endpoint) (seq : ℕ) (w : Wired)
    → transferred ≤ length buffer
    → length buffer < 2 ^ 32 - 16
    → word32 buffer 12 < 2 ^ 32
    → (handle_message transferred buffer sender seq w ≡ fault)
      ↔ (2 ^ 32 ≤ 16 + word32 buffer 12) × ((16 + word32 buffer 12) % 2 ^ 32 ≤ transferred)
unfolding handle_message
handle_message-fault transferred buffer sender seq w fits small word = ground arith

module _ (transferred : ℕ) (buffer : Bytes) (fits : transferred ≤ length buffer)
    (small : length buffer < 2 ^ 32 - 16) (bytes : All IsByte buffer) where
  -- The length field, with the 16 of the header added in 32 bits, wraps round to no more than the
  -- datagram's size.
  abbrev pub Wraps : Type 0
  Wraps = (2 ^ 32 ≤ 16 + word32 buffer 12) × ((16 + word32 buffer 12) % 2 ^ 32 ≤ transferred)

  dispatch-fault :
      (now : ℕ) (t : PacketType) (sender : Endpoint) (seq : ℕ) (w : Wired)
      → w.net.running ≡ true
      → (dispatch now t transferred buffer sender seq w ≡ fault)
        ↔ ((t ≡ PacketType.message) × Wraps)
  unfolding dispatch handle_packet
  dispatch-fault now PacketType.message sender seq w on = simp on (λ h. (refl, l.0 h), λ h. l.1 h.1)
    where
      l : (handle_message transferred buffer sender seq (establish now sender w) ≡ fault) ↔ Wraps
      l =
          handle_message-fault transferred buffer sender seq (establish now sender w) fits small
            (word32-lt buffer 12 bytes)
  dispatch-fault now PacketType.disconnect sender seq w on = (λ h. cc, λ h. cc)
  dispatch-fault now t sender seq w on = simp on (λ h. cc, λ h. cc)

  -- A running link reads past the receive buffer, on a datagram whose header passes the checks,
  -- exactly when the datagram is a message and its length field, with the 16 of the header added
  -- in 32 bits, wraps round to no more than the datagram's size. The buffer holds bytes, at least
  -- as many as were transferred, and is shorter than 2 ^ 32 - 16.
  pub process_received-fault :
      (now : ℕ) (sender : Endpoint) (w : Wired)
      → IsAccepted transferred buffer
      → w.net.running ≡ true
      → (process_received_data now transferred buffer sender w ≡ fault)
        ↔ ((of_byte (get_or buffer 6 0) ≡ PacketType.message) × Wraps)
  process_received-fault now sender w ok on =
      rw (process_received-dispatch now transferred buffer sender w ok) (
        dispatch-fault now (of_byte (get_or buffer 6 0)) sender (word32 buffer 8) (touched now w)
          on)
