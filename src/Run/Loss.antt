-- ===== src/Run/Loss.antt =====
-- How a connection is lost: the peer's goodbye, or its silence, and a turn of the monitor.
use peer_bridge_cli.Common.{
  ◌≤◌, ◌*◌, ◌+◌, ℕ, ◌^◌, ◌<◌, ◌≡◌, ap, ◌∙◌, true, false, Option, none, some, List, [], ◌∷◌, ◌++◌,
  Bytes, Text, ◌>>=◌,
}
use peer_bridge_cli.StateManager.{idle, connected, queue_event}
use peer_bridge_cli.PeerConnection.Laws.{has_timed_out-silent}
use peer_bridge_cli.Wire.{PacketType}
use peer_bridge_cli.Wire.Layout.{header}
use peer_bridge_cli.Network.State.{Endpoint, ErrorCode, UdpNetwork, is_aborted}
use peer_bridge_cli.Network.Receive.{handle_keep_alive}
use peer_bridge_cli.Routing.{Windows}
use peer_bridge_cli.Signaling.{JsonReader}
use peer_bridge_cli.System.State.{P2PSystem, wired, rewired, is_linked, is_tunnelling}
use peer_bridge_cli.System.Connection.{monitor_loop, stop_connection}
use peer_bridge_cli.System.Threads.{after_receive}
use peer_bridge_cli.Run.{Event, step, run, datagram, timer, monitor_turn}
use peer_bridge_cli.Common.{inl, inr}
use peer_bridge_cli.System.Connection.{on_net}
use peer_bridge_cli.Run.Stops.{stop_connection_lem}
use peer_bridge_cli.Run.Establish.{datagram-received}
use peer_bridge_cli.Run.Parting.{
  lost_event, goodbye-queued, silence-queued, stop-queue, monitor-stops,
}

-- The peer's goodbye comes in, or the timer expires when the peer has been silent for twenty-one
-- seconds or more.
pub data Loss (now : ℕ) (n : UdpNetwork) : Event → Type 0 where
  goodbye :
      {seq : ℕ} {rest : Bytes} {sender : Endpoint}
      → seq < 2 ^ 32
      → n.peer.connected ≡ true
      → Loss now n (datagram ErrorCode.success 16 (header PacketType.disconnect seq ++ rest) sender)
  silence :
      {error : ErrorCode}
      → is_aborted error ≡ false
      → n.running ≡ true
      → n.peer.connected ≡ true
      → n.peer.last_activity + 21 * 10 ^ 9 ≤ now
      → Loss now n (timer error)

-- What is left of a connection.
abbrev pub Lost : P2PSystem → Type 0
Lost v =
    (v.manager.current_state ≡ idle)
    × (v.manager.event_queue ≡ [])
    × (is_tunnelling v ≡ false)
    × (is_linked v ≡ false)
    × (v.peer_username ≡ [])

monitor-Lost :
    (windows : Windows) (now : ℕ) (s : P2PSystem)
    → s.manager ≡ record { current_state = connected; event_queue = lost_event ∷ [] }
    → (v : P2PSystem) × (monitor_loop windows now s ≡ some v) × Lost v
monitor-Lost windows now s e =
    let taken : P2PSystem = record s {
      manager = record { current_state = connected; event_queue = [] };
    } in
    let (off, unlinked, state, name) = stop_connection_lem windows now taken in
    (
      stop_connection windows now taken,
      monitor-stops windows now s e,
      (
        elim state [ inl i ↦ i | inr (was, _) ↦ cc ],
        stop-queue windows now taken,
        off,
        unlinked,
        name,
      ),
    )

module _ {J : Type 0} (reader : JsonReader J) (windows : Windows)
    (make_address : Text → Option Text) where
  -- An event, and a turn of the monitor.
  abbrev pub then_monitor : ℕ → ℕ → Event → List (ℕ × Event)
  then_monitor now later e = (now, e) ∷ (later, monitor_turn) ∷ []

  then-Lost :
      (now later : ℕ) (e : Event) (s u : P2PSystem)
      → step reader windows make_address now e s ≡ some u
      → u.manager ≡ record { current_state = connected; event_queue = lost_event ∷ [] }
      → (v : P2PSystem) × (run reader windows make_address (then_monitor now later e) s ≡ some v)
        × Lost v
  unfolding run step
  then-Lost now later e s u first queued =
      let (v, turned, l) = monitor-Lost windows later u queued in
      let last : Option P2PSystem → Option P2PSystem =
        λ o. o >>= λ v. run reader windows make_address [] v in
      (v, ap (λ o. o >>= λ v. last (monitor_loop windows later v)) first ∙ ap last turned, l)

  goodbye-Lost :
      (now later seq : ℕ) (rest : Bytes) (sender : Endpoint) (s : P2PSystem) (n : UdpNetwork)
      → s.net ≡ some n
      → s.manager ≡ record { current_state = connected; event_queue = [] }
      → seq < 2 ^ 32
      → n.peer.connected ≡ true
      → (v : P2PSystem) × (run reader windows make_address
            (then_monitor now later
              (datagram ErrorCode.success 16 (header PacketType.disconnect seq ++ rest) sender))
            s
          ≡ some v)
        × Lost v
  unfolding step queue_event after_receive
  goodbye-Lost now later seq rest sender s n net state small on =
      let (x, received, queued) = goodbye-queued now seq rest sender (wired s n) small on in
      then-Lost now later _ s (rewired s x)
        (datagram-received now ErrorCode.success 16 _ sender s n net
          ∙ ap (after_receive s) received)
        (queued ∙ ap (queue_event lost_event) state)

  silence-Lost :
      (now later : ℕ) (error : ErrorCode) (s : P2PSystem) (n : UdpNetwork)
      → s.net ≡ some n
      → s.manager ≡ record { current_state = connected; event_queue = [] }
      → is_aborted error ≡ false
      → n.running ≡ true
      → n.peer.connected ≡ true
      → n.peer.last_activity + 21 * 10 ^ 9 ≤ now
      → (v : P2PSystem) × (run reader windows make_address (then_monitor now later (timer error)) s
          ≡ some v)
        × Lost v
  unfolding step queue_event on_net
  silence-Lost now later error s n net state fired on up late =
      then-Lost now later (timer error) s (rewired s (handle_keep_alive now error (wired s n)))
        (ap
          (λ (o : Option UdpNetwork).
            some
              (elim o [ none ↦ s | some m ↦ rewired s (handle_keep_alive now error (wired s m)) ]))
          net)
        (silence-queued now error (wired s n) fired on (has_timed_out-silent now n.peer up late)
          ∙ ap (queue_event lost_event) state)

  -- When a connected client with an empty event queue gets its peer's goodbye, or its timer
  -- expires, not cancelled, when twenty-one seconds or more have passed since the peer was last
  -- heard of, then the next turn of the monitor comes to its end and leaves the client idle, its
  -- tunnel and link off, its event queue empty and the peer's name forgotten. In both cases the
  -- link is connected; for the goodbye the number is below 2 ^ 32, for the timer the link runs.
  pub Loss-disconnects :
      (now later : ℕ) (e : Event) (s : P2PSystem) (n : UdpNetwork)
      → s.net ≡ some n
      → s.manager ≡ record { current_state = connected; event_queue = [] }
      → Loss now n e
      → (v : P2PSystem) × (run reader windows make_address (then_monitor now later e) s ≡ some v)
        × Lost v
  Loss-disconnects now later _ s n net state (goodbye {seq} {rest} {sender} small on) =
      goodbye-Lost now later seq rest sender s n net state small on
  Loss-disconnects now later _ s n net state (silence {error} fired on up late) =
      silence-Lost now later error s n net state fired on up late
