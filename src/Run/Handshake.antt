-- ===== src/Run/Handshake.antt =====
-- Two clients that are told of one another.
use peer_bridge_cli.Common.{
  ℕ, zero, suc, ◌^◌, ◌<◌, ◌≡◌, refl, ◌⊎◌, inl, inr, ap, ◌∙◌, true, false, not, Option, none, some,
  List, [], ◌∷◌, ◌++◌, Bytes, Text, arith, if◌then◌else◌, if_on, if_off, length, replicate,
}
use peer_bridge_cli.Common.Int.{ℤ, to_u16}
use peer_bridge_cli.Decimal.{int_text}
use peer_bridge_cli.StateManager.{
  StateManager, idle, connecting, connected, set_state, is_valid_transition, same_state,
}
use peer_bridge_cli.Wire.{PacketType}
use peer_bridge_cli.Wire.Layout.{header}
use peer_bridge_cli.Network.State.{
  Endpoint, ErrorCode, UdpNetwork, Wired, hole_punches, send_hole_punch_packet, async_send_to,
  start_hole_punching_process, start_keep_alive_timer,
}
use peer_bridge_cli.Network.Connection.{connect_to_peer, is_connected}
use peer_bridge_cli.Network.Timer.{punches, connect_to_peer-punches}
use peer_bridge_cli.Routing.{
  Windows, ProcessOutcome, is_success, ConnectionConfig, NetworkConfigManager, configure_interface,
}
use peer_bridge_cli.Routing.Laws.{configure_interface_iff}
use peer_bridge_cli.Tun.{Tun}
use peer_bridge_cli.Signaling.{JsonReader}
use peer_bridge_cli.System.State.{P2PSystem, wired, rewired, is_tunnelling, with_state}
use peer_bridge_cli.System.Connection.{assign_ip_addresses, dial, handle_connection_init}
use peer_bridge_cli.Run.{run, datagram, monitor_turn}
use peer_bridge_cli.Run.Establish.{punch-connects}

-- Every command that Windows is given succeeds.
abbrev pub Obeys : Windows → Type 0
Obeys windows =
    (history : List Text) (command : Text) → windows history command ≡ ProcessOutcome.exited 0

pub configured :
    (windows : Windows) (cfg : ConnectionConfig) (c : NetworkConfigManager)
    → Obeys windows
    → (configure_interface windows cfg c).1 ≡ true
configured windows cfg c h =
    (configure_interface_iff windows cfg c).1 (ap is_success (h _ _), ap is_success (h _ _))

hole_punches-peer : (k : ℕ) (n : UdpNetwork) → (hole_punches k n).peer ≡ n.peer
unfolding hole_punches send_hole_punch_packet async_send_to
hole_punches-peer zero n = refl
hole_punches-peer (suc k) n = hole_punches-peer k (send_hole_punch_packet n)

timer-peer : (n : UdpNetwork) → (start_keep_alive_timer n).peer ≡ n.peer
unfolding start_keep_alive_timer
timer-peer n = ground arith

dialled :
    (make_address : Text → Option Text) (ip addr : Text) (port : ℤ) (w : Wired)
    → w.net.peer.connected ≡ false
    → make_address ip ≡ some addr
    → let v = (connect_to_peer make_address ip port w).0 in
      (v.manager ≡ set_state connecting w.manager) × (v.net.peer ≡ w.net.peer)
unfolding connect_to_peer is_connected start_hole_punching_process start_keep_alive_timer
dialled make_address ip addr port w off e =
    let n : UdpNetwork = record (w.net) {
      peer_endpoint = record { address = addr; port = to_u16 port };
      current_peer_endpoint = ip ++ (b':' ∷ int_text port);
      running = true;
    } in
    simp (off, e) (refl, timer-peer (hole_punches 5 n) ∙ hole_punches-peer 5 n)

pub assign-same :
    (s : P2PSystem)
    → let p = assign_ip_addresses s in (p.net ≡ s.net) × (p.tun ≡ s.tun) × (p.manager ≡ s.manager)
unfolding assign_ip_addresses
assign-same s = ground arith

-- Idle, or waiting for the answer of a peer, with nothing in the queue.
abbrev pub Waiting : StateManager → Type 0
Waiting m =
    (m ≡ record { current_state = idle; event_queue = [] })
    ⊎ (m ≡ record { current_state = connecting; event_queue = [] })

pub dialling :
    (m : StateManager)
    → Waiting m
    → set_state connecting m ≡ record { current_state = connecting; event_queue = [] }
unfolding set_state is_valid_transition same_state
dialling m (inl e) = ap (set_state connecting) e
dialling m (inr e) = ap (set_state connecting) e

-- A client that can take a call: idle or waiting for one, with its link and its tunnel, and without
-- a connection.
pub record Standby (s : P2PSystem) (n : UdpNetwork) (t : Tun) : Type 0 where
  pub net : s.net ≡ some n
  pub tun : s.tun ≡ some t
  pub manager : Waiting s.manager
  pub unconnected : n.peer.connected ≡ false
  pub small : n.next_seq < 2 ^ 32
  pub adapter : t.adapter ≡ true
  pub session : t.session ≡ true
  pub still : t.running ≡ false

-- A client that has dialled `to`.
record Dialled (u : P2PSystem) (n m : UdpNetwork) (t : Tun) (to : Endpoint) : Type 0 where
  net : u.net ≡ some m
  tun : u.tun ≡ some t
  manager : u.manager ≡ record { current_state = connecting; event_queue = [] }
  running : m.running ≡ true
  unconnected : m.peer.connected ≡ false
  sent : m.sent ≡ n.sent ++ punches 5 n.next_seq to

init-Dialled :
    (windows : Windows) (make_address : Text → Option Text) (name ip addr : Text) (port : ℤ)
    (s : P2PSystem) (n : UdpNetwork) (t : Tun)
    → Obeys windows
    → make_address ip ≡ some addr
    → Standby s n t
    → (u : P2PSystem) × (m : UdpNetwork) × (handle_connection_init windows make_address name ip port
          s
        ≡ some u)
      × Dialled u n m t (record { address = addr; port = to_u16 port })
unfolding handle_connection_init dial set_state is_valid_transition same_state
init-Dialled windows make_address name ip addr port s n t obeys reads v =
    let named : P2PSystem = record s { peer_username = name; peer_ip = ip; peer_port = port } in
    let begun : P2PSystem = with_state connecting named in
    let p : P2PSystem = assign_ip_addresses begun in
    let cfg : ConnectionConfig = record {
      self_index = if p.is_host then 1 else 2;
      peer_virtual_ip = p.peer_virtual_ip;
    } in
    let q = configure_interface windows cfg p.routing in
    let routed : P2PSystem = record p { routing = q.0 } in
    let (same_net, same_tun, same_manager) = assign-same begun in
    let w = wired routed n in
    let x = connect_to_peer make_address ip port w in
    let (ok, armed, running, target, sent) =
      connect_to_peer-punches make_address ip addr port w v.unconnected reads in
    let (moved, peer) = dialled make_address ip addr port w v.unconnected reads in
    let u : P2PSystem = rewired routed (x.0) in
    (
      u,
      x.0.net,
      if_off (not (q.1)) _ _ (ap not (configured windows cfg p.routing obeys))
          ∙ ap
              (λ (o : Option UdpNetwork). elim o as (λ _. Option P2PSystem) [
                | none ↦ none
                | some m ↦
                    let (y, done) = connect_to_peer make_address ip port (wired routed m) in
                    some (if done then rewired routed y else with_state idle (rewired routed y))
              ])
              (same_net ∙ v.net)
          ∙ ap some (if_on (x.1) u _ ok),
      record {
        net = refl;
        tun = same_tun ∙ v.tun;
        manager = moved ∙ ap (set_state connecting) (same_manager ∙ dialling s.manager v.manager);
        running = running;
        unconnected = ap (λ k. k.connected) peer ∙ v.unconnected;
        sent = sent;
      },
    )

-- A client whose connection to `sender` is up.
abbrev pub Joined : Endpoint → P2PSystem → Type 0
Joined sender v =
    (v.manager ≡ record { current_state = connected; event_queue = [] })
    × (is_tunnelling v ≡ true)
    × ((m : UdpNetwork) × (v.net ≡ some m) × (m.peer.connected ≡ true) × (m.peer_endpoint ≡ sender))

module _ {J : Type 0} (reader : JsonReader J) (windows : Windows)
    (make_address : Text → Option Text) where
  -- The client `c`, whose link was `n`, has sent a packet to `to`; when that packet comes in at
  -- `d`, from whatever endpoint it seems to come and with whatever behind it in the buffer, the
  -- next turn of the monitor leaves `d` with its connection up.
  abbrev pub Reaches : P2PSystem → UdpNetwork → Endpoint → P2PSystem → Type 0
  Reaches c n to d =
      (m : UdpNetwork) × (punch : Bytes) × (more : List (Endpoint × Bytes)) × (c.net ≡ some m)
      × (m.sent ≡ n.sent ++ (to, punch) ∷ more)
      × ((now later : ℕ) (rest : Bytes) (sender : Endpoint)
          → (y : P2PSystem) × (run reader windows make_address
                ((now, datagram ErrorCode.success (length punch) (punch ++ rest) sender)
                  ∷ (later, monitor_turn)
                  ∷ [])
                d
              ≡ some y)
            × Joined sender y)

  Dialled-Reaches :
      (c d : P2PSystem) (n m k l : UdpNetwork) (t t' : Tun) (to to' : Endpoint)
      → n.next_seq < 2 ^ 32
      → (t'.adapter ≡ true) × (t'.session ≡ true) × (t'.running ≡ false)
      → Dialled c n m t to
      → Dialled d l k t' to'
      → Reaches c n to d
  unfolding punches
  Dialled-Reaches c d n m k l t t' to to' small v x y = (
    m,
    header PacketType.hole_punch n.next_seq ++ replicate 4 0,
    _,
    x.net,
    x.sent,
    λ now later rest sender.
        let (z, j, e, state, net, on, target, tunnel) =
          punch-connects reader windows make_address now later n.next_seq (replicate 4 0 ++ rest)
            sender d k t' small y.net y.tun y.running y.unconnected y.manager v.0 v.1 v.2 in
        (z, e, (state, tunnel, (j, net, on, target))),
  )

  module _ (obeys : Obeys windows) where
    -- Two clients on standby, each told of the other.
    pub init-Joined :
        (name ip addr name' ip' addr' : Text) (port port' : ℤ) (a b : P2PSystem) (n n' : UdpNetwork)
        (t t' : Tun)
        → make_address ip ≡ some addr
        → make_address ip' ≡ some addr'
        → Standby a n t
        → Standby b n' t'
        → (a' b' : P2PSystem) × (handle_connection_init windows make_address name ip port a
            ≡ some a')
          × (handle_connection_init windows make_address name' ip' port' b ≡ some b')
          × Reaches b' n' (record { address = addr'; port = to_u16 port' }) a'
          × Reaches a' n (record { address = addr; port = to_u16 port }) b'
    init-Joined name ip addr name' ip' addr' port port' a b n n' t t' reads reads' va vb =
        let (a', k, ea, da) =
          init-Dialled windows make_address name ip addr port a n t obeys reads va in
        let (b', m, eb, db) =
          init-Dialled windows make_address name' ip' addr' port' b n' t' obeys reads' vb in
        (
          a',
          b',
          ea,
          eb,
          Dialled-Reaches b' a' n' m k n t' t _ _ vb.small (va.adapter, va.session, va.still) db da,
          Dialled-Reaches a' b' n k m n' t t' _ _ va.small (vb.adapter, vb.session, vb.still) da db,
        )
