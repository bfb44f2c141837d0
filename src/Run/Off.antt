-- ===== src/Run/Off.antt =====
-- A client that is off, and the calls of a shutdown, which then change nothing.
use peer_bridge_cli.Common.{
  if_on, if_off, ℕ, ◌≡◌, refl, sym, ap, ◌∙◌, inl, inr, true, false, not, Option, none, some, arith,
  Option-cases, OnSome, OnSome-some,
}
use peer_bridge_cli.StateManager.{shutting_down, StateManager, set_state}
use peer_bridge_cli.Network.State.{UdpNetwork, Wired, stop_keep_alive_timer}
use peer_bridge_cli.Network.Connection
use peer_bridge_cli.PeerConnection.{set_connected}
use peer_bridge_cli.Tun.{Tun, close, stop_packet_processing}
use peer_bridge_cli.Routing.{Windows}
use peer_bridge_cli.System.State.{P2PSystem, wired, rewired, is_linked, is_tunnelling}
use peer_bridge_cli.System.Connection.{on_net, close_tun, stop_network_interface, stop_tun}
use peer_bridge_cli.StateManager.Laws.{shutting_down_stays}

pub record NetOff (n : UdpNetwork) : Type 0 where
  pub running : n.running ≡ false
  pub connected : n.peer.connected ≡ false
  pub timer : n.timer_armed ≡ false
  pub socket : n.socket_open ≡ false
  pub stopped : n.io_stopped ≡ true
  pub thread : n.io_thread ≡ false

pub record TunOff (u : Tun) : Type 0 where
  pub running : u.running ≡ false
  pub session : u.session ≡ false
  pub adapter : u.adapter ≡ false
  pub module_loaded : u.module_loaded ≡ false

-- What a shutdown leaves.
pub record Off (t : P2PSystem) : Type 0 where
  pub state : t.manager.current_state ≡ shutting_down
  pub running : t.running ≡ false
  pub monitor : t.monitor_thread ≡ false
  pub signaling : t.signaling.connected ≡ false
  pub net : OnSome NetOff t.net
  pub tun : (u : Tun) × (t.tun ≡ some u) × TunOff u

off_again :
    (n : UdpNetwork)
    → NetOff n
    → record n {
      running = false;
      timer_armed = false;
      socket_open = false;
      io_stopped = true;
      io_thread = false;
      peer = record (n.peer) { connected = false };
    }
      ≡ n
off_again n o = λ i. record n {
  running = sym o.running i;
  timer_armed = sym o.timer i;
  socket_open = sym o.socket i;
  io_stopped = sym o.stopped i;
  io_thread = sym o.thread i;
  peer = record (n.peer) { connected = sym o.connected i };
}

pub off-untunnelled :
    (t : P2PSystem) → (u : Tun) × (t.tun ≡ some u) × TunOff u → is_tunnelling t ≡ false
unfolding is_tunnelling
off-untunnelled t (u, e, o) = rw (e, is_tunnelling) o.running

net_shutdown-same :
    (now : ℕ) (m : StateManager) (n : UdpNetwork)
    → m.current_state ≡ shutting_down
    → NetOff n
    → Connection.shutdown now (record { manager = m; net = n }) ≡ record { manager = m; net = n }
unfolding Connection.shutdown Connection.is_connected set_connected stop_keep_alive_timer
net_shutdown-same now m n h o =
    let after : Wired → Wired = λ v. record {
      manager = set_state shutting_down v.manager;
      net = record (v.net) {
        running = false;
        timer_armed = false;
        socket_open = false;
        io_stopped = true;
        io_thread = false;
        peer = record (v.net.peer) { connected = false };
      };
    } in
    ap after (
      if_off n.peer.connected (Connection.stop_connection now (record { manager = m; net = n })) _
        o.connected)
    ∙ λ i. record { manager = shutting_down_stays shutting_down m h i; net = off_again n o i }

close-same : (u : Tun) → TunOff u → close u ≡ u
unfolding close
close-same u o =
    let after : Tun → Tun =
      λ v. record v { session = false; adapter = false; module_loaded = false } in
    ap after (if_off u.running (stop_packet_processing u) u o.running) ∙ λ i. record u {
      session = sym o.session i;
      adapter = sym o.adapter i;
      module_loaded = sym o.module_loaded i;
    }

pub off-unlinked : (s : P2PSystem) → OnSome NetOff s.net → is_linked s ≡ false
unfolding is_linked Connection.is_connected
off-unlinked s o = elim (Option-cases s.net) [
  | inl e ↦ ground arith
  | inr (n, e) ↦ rw (e, is_linked) (OnSome-some NetOff s.net o e).connected
]

module _ (windows : Windows) where
  interface_at :
      (o : Option Tun) (s : P2PSystem)
      → OnSome TunOff o
      → elim o [ none ↦ s | some u ↦ stop_tun windows u s ] ≡ s
  unfolding stop_tun
  interface_at none s h = refl
  interface_at (some u) s h = if_on (not u.running) _ _ (ap not h.running)

  pub interface-same : (s : P2PSystem) → OnSome TunOff s.tun → stop_network_interface windows s ≡ s
  unfolding stop_network_interface
  interface-same s h = interface_at s.tun s h

  pub OnSome-tun : (s : P2PSystem) → Off s → OnSome TunOff s.tun
  OnSome-tun s o = rw (o.tun.1) (o.tun.2)

  pub tun-same : (s : P2PSystem) (u : Tun) → s.tun ≡ some u → TunOff u → close_tun s ≡ some s
  unfolding close_tun
  tun-same s u e h =
      ap
        (λ (o : Option Tun). elim o [
          | none ↦ none
          | some v ↦ some (record s { tun = some (close v) })
        ])
        e
      ∙ ap some (λ i. record s { tun = (ap some (close-same u h) ∙ sym e) i })

  net_at :
      (now : ℕ) (o : Option UdpNetwork) (s : P2PSystem)
      → s.net ≡ o
      → s.manager.current_state ≡ shutting_down
      → OnSome NetOff o
      → elim o [ none ↦ s | some n ↦ rewired s (Connection.shutdown now (wired s n)) ] ≡ s
  net_at now none s e h o = refl
  net_at now (some n) s e h o =
      ap (rewired s) (net_shutdown-same now s.manager n h o) ∙ λ i. record s { net = sym e i }

  pub net-same :
      (now : ℕ) (s : P2PSystem)
      → s.manager.current_state ≡ shutting_down
      → OnSome NetOff s.net
      → on_net (Connection.shutdown now) s ≡ s
  unfolding on_net
  net-same now s h o = net_at now s.net s refl h o
