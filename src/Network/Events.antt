-- ===== src/Network/Events.antt =====
-- The events by which the network thread tells the system of its peer, and the handlers of
-- received data.
use peer_bridge_cli.Common.{
  ℕ, ◌≡◌, inl, inr, refl, true, false, [], ◌∷◌, ◌++◌, Bytes, Text, is_empty, Bool-cases, arith, ltb,
  ◌==◌, get_or,
}
use peer_bridge_cli.StateManager.{NetworkEvent, endpoint, monostate, queue_event}
use peer_bridge_cli.PeerConnection.{update_activity, set_connected}
use peer_bridge_cli.Wire.{PacketType, of_byte, word32, word16}
use peer_bridge_cli.Network.State.{Endpoint, Wired, notify_connection_event, async_send_to}
use peer_bridge_cli.Network.Packets.{touched}
use peer_bridge_cli.Network.Receive.{
  Received, handled, is_disconnect, dispatch, process_received_data, handle_packet, handle_message,
  establish, handle_disconnect, endpoint_text,
}

-- Nothing changes, or the peer is found and its endpoint announced, or it is lost and that is
-- announced. The state machine is left to the system's own thread.
pub data Announces (w v : Wired) : Type 0 where
  quiet : v.net.peer.connected ≡ w.net.peer.connected → v.manager ≡ w.manager → Announces w v
  found :
      w.net.peer.connected ≡ false
      → v.net.peer.connected ≡ true
      → v.manager
        ≡ queue_event
            (record {
              event = NetworkEvent.peer_connected;
              payload = endpoint v.net.current_peer_endpoint;
            })
            w.manager
      → Announces w v
  lost :
      w.net.peer.connected ≡ true
      → v.net.peer.connected ≡ false
      → v.manager
        ≡ queue_event
            (record { event = NetworkEvent.all_peers_disconnected; payload = monostate })
            w.manager
      → Announces w v

pub handle_disconnect-Announces : (now : ℕ) (w : Wired) → Announces w (handle_disconnect now w)
unfolding handle_disconnect notify_connection_event set_connected
handle_disconnect-Announces now w = elim (Bool-cases w.net.peer.connected) [
  | inl e ↦ lost e (ground arith) (ground arith)
  | inr e ↦ quiet (ground arith) (ground arith)
]

address_nonempty : (a s : Text) (c : ℕ) → is_empty (a ++ (c ∷ s)) ≡ false
address_nonempty [] s c = refl
address_nonempty (b ∷ a) s c = refl

endpoint_text-nonempty : (e : Endpoint) → is_empty (endpoint_text e) ≡ false
unfolding endpoint_text
endpoint_text-nonempty e = address_nonempty e.address _ _

establish-Announces :
    (now : ℕ) (sender : Endpoint) (w : Wired) → Announces w (establish now sender w)
unfolding establish notify_connection_event set_connected update_activity
establish-Announces now sender w = elim (Bool-cases w.net.peer.connected) [
  | inl e ↦ quiet (ground arith) (ground arith)
  | inr e ↦
      found e (ground (arith, endpoint_text-nonempty sender))
        (ground (arith, endpoint_text-nonempty sender))
]

-- The parts that an event is about stay as they are.
pub record Same (w v : Wired) : Type 0 where
  pub peer : v.net.peer ≡ w.net.peer
  pub manager : v.manager ≡ w.manager
  pub text : v.net.current_peer_endpoint ≡ w.net.current_peer_endpoint

pub Announces-Same : {w v u : Wired} → Announces w v → Same v u → Announces w u
Announces-Same (quiet a b) s = quiet (ground arith) (ground arith)
Announces-Same (found a b c) s = found a (ground arith) (ground arith)
Announces-Same (lost a b c) s = lost a (ground arith) (ground arith)

pub Announces-from :
    {w x v : Wired}
    → Announces w v
    → w.net.peer.connected ≡ x.net.peer.connected
    → w.manager ≡ x.manager
    → Announces x v
Announces-from (quiet a b) p q = quiet (ground arith) (ground arith)
Announces-from (found a b c) p q = found (ground arith) b (ground arith)
Announces-from (lost a b c) p q = lost (ground arith) b (ground arith)

pub Announces-refl : (w : Wired) → Announces w w
Announces-refl w = quiet refl refl

-- The result of a handler that returned.
abbrev pub Returned {ℓ} : (Wired → Type ℓ) → Received → Type ℓ
Returned P Received.fault = Unit
Returned P (handled v p) = P v

pub Returned-map {ℓ κ} :
    (P : Wired → Type ℓ) (Q : Wired → Type κ) (r : Received)
    → ((v : Wired) → P v → Q v)
    → Returned P r
    → Returned Q r
Returned-map P Q Received.fault f h = tt
Returned-map P Q (handled v p) f h = f v h

handle_message-Same :
    (transferred : ℕ) (buffer : Bytes) (sender : Endpoint) (seq : ℕ) (w : Wired)
    → Returned (Same w) (handle_message transferred buffer sender seq w)
unfolding handle_message async_send_to
handle_message-Same transferred buffer sender seq w = ground arith

handle_packet-Announces :
    (now : ℕ) (t : PacketType) (transferred : ℕ) (buffer : Bytes) (sender : Endpoint) (seq : ℕ)
    (w x : Wired)
    → Announces w x
    → is_disconnect t ≡ false
    → Returned (Announces w) (handle_packet now t transferred buffer sender seq x)
unfolding handle_packet
handle_packet-Announces now PacketType.message transferred buffer sender seq w x a h =
    Returned-map (Same x) (Announces w) (handle_message transferred buffer sender seq x)
      (λ v s. Announces-Same a s) (handle_message-Same transferred buffer sender seq x)
handle_packet-Announces now PacketType.disconnect transferred buffer sender seq w x a h = cc
handle_packet-Announces now t transferred buffer sender seq w x a h =
    Announces-Same a (record { peer = refl; manager = refl; text = refl })

dispatch-Announces :
    (now : ℕ) (t : PacketType) (transferred : ℕ) (buffer : Bytes) (sender : Endpoint) (seq : ℕ)
    (w : Wired)
    → Returned (Announces w) (dispatch now t transferred buffer sender seq w)
unfolding dispatch handle_packet
dispatch-Announces now PacketType.disconnect transferred buffer sender seq w =
    handle_disconnect-Announces now w
dispatch-Announces now t transferred buffer sender seq w = elim (Bool-cases w.net.running) [
  | inl on ↦ simp on (
      handle_packet-Announces now t transferred buffer sender seq w _
        (establish-Announces now sender w) refl)
  | inr off ↦ simp off (Announces-refl w)
]

from_touched :
    (now transferred : ℕ) (buffer : Bytes) (sender : Endpoint) (w : Wired)
    → Returned (Announces w) (
        dispatch now
          (of_byte (get_or buffer 6 0))
          transferred
          buffer
          sender
          (word32 buffer 8)
          (touched now w))
unfolding update_activity
from_touched now transferred buffer sender w =
    Returned-map (Announces (touched now w)) (Announces w) _ (λ v a. Announces-from a refl refl)
      (dispatch-Announces now (of_byte (get_or buffer 6 0)) transferred buffer sender
        (word32 buffer 8) (touched now w))

-- Whatever datagram comes in from whomever: if the handler returns, the flag and the queue have
-- moved together, and the state machine has not moved.
pub process_received-Announces :
    (now transferred : ℕ) (buffer : Bytes) (sender : Endpoint) (w : Wired)
    → Returned (Announces w) (process_received_data now transferred buffer sender w)
unfolding process_received_data update_activity
process_received-Announces now transferred buffer sender w =
    elim (Bool-cases (ltb transferred 16)) [
      | inl short ↦ rw short (Announces-refl w)
      | inr long ↦ elim (Bool-cases (word32 buffer 0 == 0x12345678)) [
        | inr bad ↦ rw (long, bad) (Announces-refl w)
        | inl good ↦ elim (Bool-cases (word16 buffer 4 == 1)) [
          | inr bad ↦ rw (long, good, bad) (Announces-refl w)
          | inl same ↦ rw (long, good, same) (from_touched now transferred buffer sender w)
        ]
      ]
    ]
