-- ===== src/Run/Establish.antt =====
-- How a connection comes to be: a hole punch that comes in, and a turn of the monitor.
use peer_bridge_cli.Common.{
  ℕ, ◌-◌, ◌^◌, ◌<◌, ◌≡◌, refl, ap, ◌∙◌, true, false, not, ◌&&◌, Option, none, some, [], ◌∷◌, ◌++◌,
  Bytes, Text, arith, if◌then◌else◌, is_empty, ◌>>=◌, if_off,
}
use peer_bridge_cli.StateManager.{
  connecting, connected, StateManager, NetworkEventData, peer_connected, endpoint, set_state,
  is_valid_transition, same_state, is_in_state, queue_event, get_next_event,
}
use peer_bridge_cli.PeerConnection.{update_activity, set_connected}
use peer_bridge_cli.Decimal.{decimal}
use peer_bridge_cli.Wire.{PacketType, of_byte, to_byte}
use peer_bridge_cli.Wire.Layout.{header}
use peer_bridge_cli.Network.State.{Endpoint, ErrorCode, UdpNetwork, Wired, notify_connection_event}
use peer_bridge_cli.Network.Receive.{
  handled, dispatch, handle_packet, establish, endpoint_text, handle_receive_from,
  start_async_receive,
}
use peer_bridge_cli.Network.Connection.{is_connected}
use peer_bridge_cli.Network.Packets.{touched, process_received-header}
use peer_bridge_cli.Tun.{Tun, start_packet_processing}
use peer_bridge_cli.Routing.{Windows}
use peer_bridge_cli.Signaling.{JsonReader}
use peer_bridge_cli.System.State.{P2PSystem, wired, rewired, is_linked, is_tunnelling}
use peer_bridge_cli.System.Connection.{
  start_network_interface, handle_peer_connected, handle_network_event, monitor_rounds,
  monitor_loop,
}
use peer_bridge_cli.System.Threads.{after_receive, handle_datagram}
use peer_bridge_cli.Run.{step, run, datagram, monitor_turn}

nonempty : (a : Text) (c : ℕ) (b : Text) → is_empty (a ++ c ∷ b) ≡ false
nonempty [] c b = refl
nonempty (x ∷ a) c b = refl

-- The event that the first packet queues.
abbrev found_event : Endpoint → NetworkEventData
found_event sender = record { event = peer_connected; payload = endpoint (endpoint_text sender) }

-- A link that has found its peer.
record Paired (sender : Endpoint) (m : StateManager) (x : Wired) : Type 0 where
  manager : x.manager ≡ queue_event (found_event sender) m
  peer : x.net.peer.connected ≡ true
  target : x.net.peer_endpoint ≡ sender

establish-Paired :
    (now : ℕ) (sender : Endpoint) (w : Wired)
    → w.net.peer.connected ≡ false
    → Paired sender w.manager (establish now sender w)
unfolding establish notify_connection_event endpoint_text set_connected update_activity
establish-Paired now sender w off =
    let e =
      if_off w.net.peer.connected w _ off
      ∙ if_off (is_empty (endpoint_text sender)) _ _
          (nonempty sender.address b':' (decimal sender.port)) in
    record {
      manager = ap (λ v. v.manager) e;
      peer = ap (λ v. v.net.peer.connected) e;
      target = ap (λ v. v.net.peer_endpoint) e;
    }

punch-Paired :
    (now seq : ℕ) (rest : Bytes) (sender : Endpoint) (w : Wired)
    → seq < 2 ^ 32
    → w.net.running ≡ true
    → w.net.peer.connected ≡ false
    → (x : Wired) × (handle_receive_from now ErrorCode.success 16
          (header PacketType.hole_punch seq ++ rest)
          sender
          w
        ≡ handled x none)
      × Paired sender w.manager x
unfolding handle_receive_from dispatch handle_packet start_async_receive update_activity of_byte
    to_byte
punch-Paired now seq rest sender w small on off =
    let n = record (w.net) { receives = w.net.receives - 1 } in
    let v = record w { net = if n.socket_open && true then start_async_receive n else n } in
    let v_on : v.net.running ≡ true = ground arith in
    let v_off : v.net.peer.connected ≡ false = ground arith in
    let x = establish now sender (touched now v) in
    (
      x,
      process_received-header now 16 PacketType.hole_punch seq rest sender v refl small
            (omega arith)
          ∙ if_off (not v.net.running) _ _ (ap not v_on),
      establish-Paired now sender (touched now v) v_off,
    )

-- A client that waits for its peer, with its tunnel ready and one event in its queue.
abbrev waiting : P2PSystem → UdpNetwork → Tun → NetworkEventData → P2PSystem
waiting s n t e = record s {
  manager = record {
    current_state = connecting;
    event_queue = record e { event = peer_connected } ∷ [];
  };
  net = some (record n { peer = record (n.peer) { connected = true } });
  tun = some (record t { adapter = true; session = true; running = false });
}

-- What a turn of the monitor makes of it.
abbrev joined : P2PSystem → UdpNetwork → Tun → P2PSystem
joined s n t = record s {
  manager = record { current_state = connected; event_queue = [] };
  net = some (record n { peer = record (n.peer) { connected = true } });
  tun = some (record t { adapter = true; session = true; running = true; threads = true });
  console_logging = false;
}

monitor-joins :
    (windows : Windows) (now : ℕ) (s : P2PSystem) (n : UdpNetwork) (t : Tun) (e : NetworkEventData)
    → monitor_loop windows now (waiting s n t e) ≡ some (joined s n t)
unfolding monitor_loop monitor_rounds get_next_event handle_network_event handle_peer_connected
    is_in_state same_state start_network_interface is_linked is_connected start_packet_processing
    set_state is_valid_transition
monitor-joins windows now s n t e = refl

pub datagram-received :
    (now : ℕ) (error : ErrorCode) (transferred : ℕ) (buffer : Bytes) (sender : Endpoint)
    (s : P2PSystem) (n : UdpNetwork)
    → s.net ≡ some n
    → handle_datagram now error transferred buffer sender s
      ≡ after_receive s (handle_receive_from now error transferred buffer sender (wired s n))
unfolding handle_datagram after_receive
datagram-received now error transferred buffer sender s n e = rw (e, handle_datagram) refl

module _ {J : Type 0} (reader : JsonReader J) (windows : Windows)
    (make_address : Text → Option Text) where
  -- A hole punch that comes in at a client that has dialled, and a turn of the monitor, make it
  -- connected, with the sender as its peer and its tunnel running.
  pub punch-connects :
      (now later seq : ℕ) (rest : Bytes) (sender : Endpoint) (s : P2PSystem) (n : UdpNetwork)
      (t : Tun)
      → seq < 2 ^ 32
      → s.net ≡ some n
      → s.tun ≡ some t
      → n.running ≡ true
      → n.peer.connected ≡ false
      → s.manager ≡ record { current_state = connecting; event_queue = [] }
      → t.adapter ≡ true
      → t.session ≡ true
      → t.running ≡ false
      → (v : P2PSystem) × (m : UdpNetwork) × (run reader windows make_address
            ((now, datagram ErrorCode.success 16 (header PacketType.hole_punch seq ++ rest) sender)
              ∷ (later, monitor_turn)
              ∷ [])
            s
          ≡ some v)
        × (v.manager ≡ record { current_state = connected; event_queue = [] })
        × (v.net ≡ some m)
        × (m.peer.connected ≡ true)
        × (m.peer_endpoint ≡ sender)
        × (is_tunnelling v ≡ true)
  unfolding run step is_tunnelling queue_event after_receive
  punch-connects now later seq rest sender s n t small net tun on off state adapter session still =
      let (x, received, p) = punch-Paired now seq rest sender (wired s n) small on off in
      let u : P2PSystem = rewired s x in
      let e = found_event sender in
      let first : handle_datagram now ErrorCode.success 16
            (header PacketType.hole_punch seq ++ rest) sender s
          ≡ some u =
        datagram-received now ErrorCode.success 16 _ sender s n net
        ∙ ap (after_receive s) received in
      let queued : x.manager ≡ record { current_state = connecting; event_queue = e ∷ [] } =
        p.manager ∙ ap (queue_event e) state in
      let tunnel : s.tun ≡ some (record t { adapter = true; session = true; running = false }) =
        tun ∙ λ i.
        some (record t { adapter = adapter i; session = session i; running = still i }) in
      let ready : u ≡ waiting s x.net t e = λ i. record s {
        manager = queued i;
        net = some (record (x.net) { peer = record (x.net.peer) { connected = p.peer i } });
        tun = tunnel i;
      } in
      let last : Option P2PSystem → Option P2PSystem =
        λ o. o >>= λ v. run reader windows make_address [] v in
      (
        joined s x.net t,
        record (x.net) { peer = record (x.net.peer) { connected = true } },
        ap (λ o. o >>= λ v. last (monitor_loop windows later v)) first
            ∙ ap (λ v. last (monitor_loop windows later v)) ready
            ∙ ap last (monitor-joins windows later s x.net t e),
        refl,
        refl,
        refl,
        p.target,
        refl,
      )
