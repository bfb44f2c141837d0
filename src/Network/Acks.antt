-- ===== src/Network/Acks.antt =====
-- The table of packets that wait for an acknowledgement.
use peer_bridge_cli.Common.{
  ℕ, ◌+◌, ◌%◌, ◌^◌, ◌≤◌, ◌<◌, ◌≡◌, ◌⊎◌, refl, true, false, Option, none, some, List, [], ◌∷◌, ◌++◌,
  Bytes, arith, length, ◌==◌, if◌then◌else◌,
}
use peer_bridge_cli.Wire.{attach_custom_header}
use peer_bridge_cli.Network.State.{
  UdpNetwork, insert_ack, erase_ack, send_message, message_packet, async_send_to,
}

-- When a sequence number was sent, if it is still waiting.
pub ack_time : ℕ → List (ℕ × ℕ) → Option ℕ
ack_time k [] = none
ack_time k ((s, t) ∷ acks) = if s == k then some t else ack_time k acks

pub ack_time-insert :
    (k seq now : ℕ) (acks : List (ℕ × ℕ))
    → ack_time k (insert_ack seq now acks) ≡ (if seq == k then some now else ack_time k acks)
unfolding ack_time insert_ack
ack_time-insert k seq now [] = refl
ack_time-insert k seq now ((s, t) ∷ acks) = ground (arith, ack_time-insert k seq now acks)

pub ack_time-erase :
    (k seq : ℕ) (acks : List (ℕ × ℕ))
    → ack_time k (erase_ack seq acks) ≡ (if seq == k then none else ack_time k acks)
unfolding ack_time erase_ack
ack_time-erase k seq [] = ground arith
ack_time-erase k seq ((s, t) ∷ acks) = ground (arith, ack_time-erase k seq acks)

-- A message is refused, with nothing changed, when the link is not running or the packet would
-- exceed the largest datagram. Otherwise exactly one packet goes to the peer, the counter moves on
-- by one modulo 2 ^ 32, the message's number waits since the time of the call, and the other
-- numbers wait as before.
pub send_message_lem :
    (now : ℕ) (bytes : Bytes) (n : UdpNetwork) (k : ℕ)
    → let (m, ok) = send_message now bytes n in
      ((ok ≡ false) × (m ≡ n) × ((n.running ≡ false) ⊎ (65507 < 16 + length bytes)))
      ⊎ ((ok ≡ true)
          × (n.running ≡ true)
          × (16 + length bytes ≤ 65507)
          × (m.sent ≡ n.sent ++ (n.peer_endpoint, (message_packet n.next_seq bytes).packet) ∷ [])
          × (m.next_seq ≡ (n.next_seq + 1) % 2 ^ 32)
          × (ack_time k m.pending_acks
              ≡ (if n.next_seq == k then some now else ack_time k n.pending_acks)))
unfolding send_message message_packet attach_custom_header async_send_to
send_message_lem now bytes n k = ground (arith, ack_time-insert k n.next_seq now n.pending_acks)
