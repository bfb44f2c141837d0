-- ===== src/Network/Datagrams.antt =====
-- What the link sends, and the numbers that it keeps, through each of its calls.
pub mod Handlers
use peer_bridge_cli.Common.{
  ℕ, ◌+◌, ◌%◌, ◌^◌, ◌≤◌, ◌<◌, ◌≡◌, refl, sym, subst, Bool, true, false, not, Option, none, some,
  List, [], ◌∷◌, ◌++◌, Bytes, Text, arith, length, replicate, ltb, ◌==◌, if◌then◌else◌, if_both,
  All, All-snoc, zero, suc, inl, inr, Bool-cases, Option-cases,
}
use peer_bridge_cli.Common.Int.{ℤ}
use peer_bridge_cli.Wire.{
  PacketType, word32, word16, attach_custom_header, magic_number, protocol_version, max_packet_size,
}
use peer_bridge_cli.Wire.Layout.{header, bytes4}
use peer_bridge_cli.Network.State.{
  Endpoint, ErrorCode, Task, drop_ack, disconnect_task, UdpNetwork, Wired, insert_ack, erase_ack,
  async_send_to, notify_connection_event, is_error, is_aborted, is_recoverable,
  send_hole_punch_packet, start_keep_alive_timer, stop_keep_alive_timer, hole_punches,
  start_hole_punching_process, send_disconnect_notification, message_packet, send_message,
  handle_send_complete,
}
use peer_bridge_cli.Network.Receive.{
  start_async_receive, handle_disconnect, establish, handle_message, handle_packet, is_disconnect,
  dispatch, process_received_data, handle_receive_from, run_task, run_posted, check_all_connections,
  handle_keep_alive,
}
use peer_bridge_cli.Network.Connection
use peer_bridge_cli.Network.Packets.{attach-bare, message_packet-layout}
use peer_bridge_cli.Network.Events.{Returned}

-- The types of the packets that are a header alone.
abbrev pub is_bare : PacketType → Bool
is_bare PacketType.hole_punch = true
is_bare PacketType.ack = true
is_bare PacketType.disconnect = true
is_bare _ = false

-- The packets of the protocol: a header with four zeros, or a message with its length and data.
pub data IsDatagram (p : Bytes) : Type 0 where
  bare :
      (t : PacketType) (seq : ℕ)
      → is_bare t ≡ true
      → p ≡ header t seq ++ replicate 4 0
      → IsDatagram p
  loaded :
      (seq : ℕ) (payload : Bytes)
      → 16 + length payload ≤ 65507
      → p ≡ header PacketType.message seq ++ bytes4 (length payload) ++ payload
      → IsDatagram p

pub record Sound (n : UdpNetwork) : Type 0 where
  pub sent : All (λ (d : Endpoint × Bytes). IsDatagram (d.1)) n.sent
  pub next : n.next_seq < 2 ^ 32
  pub acks : All (λ (a : ℕ × ℕ). a.0 < 2 ^ 32) n.pending_acks

pub Sound-same :
    {n m : UdpNetwork}
    → Sound n
    → m.sent ≡ n.sent
    → m.next_seq ≡ n.next_seq
    → m.pending_acks ≡ n.pending_acks
    → Sound m
Sound-same v a b c = record {
  sent = subst (All (λ (d : Endpoint × Bytes). IsDatagram (d.1))) (sym a) v.sent;
  next = subst (λ k. k < 2 ^ 32) (sym b) v.next;
  acks = subst (All (λ (a : ℕ × ℕ). a.0 < 2 ^ 32)) (sym c) v.acks;
}

pub send-Sound :
    (to : Endpoint) (p : Bytes) (n : UdpNetwork)
    → Sound n
    → IsDatagram p
    → Sound (async_send_to to p n)
unfolding async_send_to
send-Sound to p n v d = record {
  sent = All-snoc (λ (d : Endpoint × Bytes). IsDatagram (d.1)) n.sent (to, p) v.sent d;
  next = v.next;
  acks = v.acks;
}

-- A fresh value of the counter.
pub counted :
    (next : ℕ) (packet : Bytes) (t : PacketType) (o : Option ℕ) (n : UdpNetwork)
    → Sound n
    → Sound (record n { next_seq = (attach_custom_header next packet t o).next_seq })
unfolding attach_custom_header
counted next packet t o n v = record { sent = v.sent; next = omega arith; acks = v.acks }

insert-small :
    (seq now : ℕ) (acks : List (ℕ × ℕ))
    → seq < 2 ^ 32
    → All (λ (a : ℕ × ℕ). a.0 < 2 ^ 32) acks
    → All (λ (a : ℕ × ℕ). a.0 < 2 ^ 32) (insert_ack seq now acks)
unfolding insert_ack
insert-small seq now [] h k = (h, tt)
insert-small seq now ((s, t) ∷ acks) h k =
    if_both (All (λ (a : ℕ × ℕ). a.0 < 2 ^ 32)) (s == seq) _ _ (h, k.1)
      (k.0, insert-small seq now acks h k.1)

erase-small :
    (seq : ℕ) (acks : List (ℕ × ℕ))
    → All (λ (a : ℕ × ℕ). a.0 < 2 ^ 32) acks
    → All (λ (a : ℕ × ℕ). a.0 < 2 ^ 32) (erase_ack seq acks)
unfolding erase_ack
erase-small seq [] k = tt
erase-small seq ((s, t) ∷ acks) k =
    if_both (All (λ (a : ℕ × ℕ). a.0 < 2 ^ 32)) (s == seq) _ _ (erase-small seq acks k.1)
      (k.0, erase-small seq acks k.1)

pub erased :
    (seq : ℕ) (n : UdpNetwork)
    → Sound n
    → Sound (record n { pending_acks = erase_ack seq n.pending_acks })
erased seq n v = record {
  sent = v.sent;
  next = v.next;
  acks = erase-small seq n.pending_acks v.acks;
}

pub punch-Sound : (n : UdpNetwork) → Sound n → Sound (send_hole_punch_packet n)
unfolding send_hole_punch_packet
punch-Sound n v =
    send-Sound n.peer_endpoint _ _ (counted n.next_seq _ PacketType.hole_punch none n v) (
      bare PacketType.hole_punch n.next_seq refl
        (attach-bare n.next_seq PacketType.hole_punch none))

pub punches-Sound : (k : ℕ) (n : UdpNetwork) → Sound n → Sound (hole_punches k n)
unfolding hole_punches
punches-Sound zero n v = v
punches-Sound (suc k) n v = punches-Sound k _ (punch-Sound n v)

pub timer-Sound : (n : UdpNetwork) → Sound n → Sound (start_keep_alive_timer n)
unfolding start_keep_alive_timer
timer-Sound n v = Sound-same v (ground arith) (ground arith) (ground arith)

pub goodbye-Sound : (n : UdpNetwork) → Sound n → Sound (send_disconnect_notification n)
unfolding send_disconnect_notification
goodbye-Sound n v =
    let d : IsDatagram
        (attach_custom_header n.next_seq (replicate 16 0) PacketType.disconnect none).packet =
      bare PacketType.disconnect n.next_seq refl
        (attach-bare n.next_seq PacketType.disconnect none) in
    let to = n.peer_endpoint in
    if_both Sound (not n.peer.connected) _ _ v (
      send-Sound to _ _
        (send-Sound to _ _
          (send-Sound to _ _ (counted n.next_seq _ PacketType.disconnect none n v) d) d)
        d)

tracked :
    (now : ℕ) (bytes : Bytes) (n : UdpNetwork)
    → Sound n
    → Sound (record n {
      next_seq = (message_packet n.next_seq bytes).next_seq;
      pending_acks = insert_ack (message_packet n.next_seq bytes).seq now n.pending_acks;
    })
unfolding message_packet attach_custom_header
tracked now bytes n v = record {
  sent = v.sent;
  next = omega arith;
  acks = insert-small n.next_seq now n.pending_acks v.next v.acks;
}

message-IsDatagram :
    (next : ℕ) (bytes : Bytes)
    → ltb max_packet_size (16 + length bytes) ≡ false
    → IsDatagram (message_packet next bytes).packet
message-IsDatagram next bytes fits =
    loaded next bytes (ground arith) (message_packet-layout next bytes (ground arith))

pub send_message-Sound :
    (now : ℕ) (bytes : Bytes) (n : UdpNetwork) → Sound n → Sound (send_message now bytes n).0
unfolding send_message
send_message-Sound now bytes n v =
    if_both (λ (r : UdpNetwork × Bool). Sound (r.0)) (not n.running) _ _ v
      (elim (Bool-cases (ltb max_packet_size (16 + length bytes))) [
        | inl big ↦ rw big v
        | inr fits ↦ rw fits (
            send-Sound n.peer_endpoint _ _ (tracked now bytes n v)
              (message-IsDatagram n.next_seq bytes fits))
      ])

pub send_complete-Sound :
    (error : ErrorCode) (seq : ℕ) (n : UdpNetwork)
    → Sound n
    → Sound (handle_send_complete error seq n)
unfolding handle_send_complete
send_complete-Sound error seq n v = Sound-same v (ground arith) (ground arith) (ground arith)
