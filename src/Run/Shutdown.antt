-- ===== src/Run/Shutdown.antt =====
-- What a shutdown leaves, and a shutdown after a shutdown.
use peer_bridge_cli.Common.{
  if_off, ℕ, ◌≡◌, refl, sym, ap, ◌∙◌, inl, inr, false, Option, some, arith, if◌then◌else◌,
  Option-cases, OnSome, OnSome-bind, OnSome-some, ◌>>=◌,
}
use peer_bridge_cli.StateManager.{shutting_down}
use peer_bridge_cli.Network.State.{Wired, stop_keep_alive_timer}
use peer_bridge_cli.Network.Connection
use peer_bridge_cli.PeerConnection.{set_connected}
use peer_bridge_cli.Tun.{Tun, close, stop_packet_processing}
use peer_bridge_cli.Routing.{Windows}
use peer_bridge_cli.Signaling.{SignalingClient, disconnect}
use peer_bridge_cli.System.State.{P2PSystem, wired, is_linked, with_state}
use peer_bridge_cli.System.Connection.{on_net, close_tun, stop_network_interface, shutdown}
use peer_bridge_cli.StateManager.Laws.{shutting_down_stays}
use peer_bridge_cli.Run.Stops.{set_shutting_down-state, Ended, first_closing-Ended}
use peer_bridge_cli.Run.Off.{
  NetOff, TunOff, Off, off-unlinked, interface-same, OnSome-tun, tun-same, net-same,
}

module _ (windows : Windows) where
  close-TunOff : (u : Tun) → TunOff (close u)
  unfolding close stop_packet_processing
  close-TunOff u = record {
    running = ground arith;
    session = refl;
    adapter = refl;
    module_loaded = refl;
  }

  -- What the second closing of the tunnel finds, and what it leaves.
  record Closing (t : P2PSystem) : Type 0 where
    state : t.manager.current_state ≡ shutting_down
    running : t.running ≡ false
    net : OnSome NetOff t.net

  record Closed (t : P2PSystem) : Type 0 where
    closing : Closing t
    tun : (u : Tun) × (t.tun ≡ some u) × TunOff u

  close_tun-Closed : (s : P2PSystem) → Closing s → OnSome Closed (close_tun s)
  unfolding close_tun
  close_tun-Closed s c = elim (Option-cases s.tun) [
    | inl e ↦ rw (e, close_tun) tt
    | inr (u, e) ↦
        rw (e, close_tun)
          (record {
            closing = record { state = c.state; running = c.running; net = c.net };
            tun = (close u, refl, close-TunOff u);
          })
  ]

  shutdown-NetOff : (now : ℕ) (w : Wired) → NetOff (Connection.shutdown now w).net
  unfolding Connection.shutdown set_connected stop_keep_alive_timer
  shutdown-NetOff now w = record {
    running = refl;
    connected = refl;
    timer = refl;
    socket = refl;
    stopped = refl;
    thread = refl;
  }

  on_net-Closing :
      (now : ℕ) (s : P2PSystem)
      → s.manager.current_state ≡ shutting_down
      → s.running ≡ false
      → Closing (on_net (Connection.shutdown now) s)
  unfolding on_net Connection.shutdown
  on_net-Closing now s h r = elim (Option-cases s.net) [
    | inl e ↦ rw (e, on_net) (record { state = h; running = r; net = rw e tt })
    | inr (n, e) ↦
        rw (e, on_net)
          (record {
            state = set_shutting_down-state _;
            running = r;
            net = shutdown-NetOff now (wired s n);
          })
  ]

  disconnected : (c : SignalingClient) → (disconnect c).connected ≡ false
  unfolding disconnect
  disconnected c = ground arith

  disconnect-same : (c : SignalingClient) → c.connected ≡ false → disconnect c ≡ c
  unfolding disconnect
  disconnect-same c h = if_off c.connected _ c h

  -- A shutdown that comes to its end leaves the client off in all its parts.
  pub shutdown-Off : (now : ℕ) (s : P2PSystem) → OnSome Off (shutdown windows now s)
  unfolding shutdown
  shutdown-Off now s =
      let s₁ : P2PSystem =
        if is_linked s
        then stop_network_interface windows (on_net (Connection.stop_connection now) s)
        else s in
      let s₂ : P2PSystem = with_state shutting_down (record s₁ { running = false }) in
      OnSome-bind (Ended windows) Off (close_tun (stop_network_interface windows s₂)) _
        (first_closing-Ended windows now s)
        λ s₃ h.
          OnSome-bind Closed Off (close_tun (on_net (Connection.shutdown now) s₃)) _
            (close_tun-Closed _ (on_net-Closing now s₃ (h.0) (h.2)))
            λ s₄ k. record {
              state = k.closing.state;
              running = k.closing.running;
              monitor = refl;
              signaling = disconnected s₄.signaling;
              net = k.closing.net;
              tun = k.tun;
            }

  shutdown-same : (now : ℕ) (s : P2PSystem) → Off s → shutdown windows now s ≡ some s
  unfolding shutdown
  shutdown-same now s o =
      let after : P2PSystem → Option P2PSystem = λ s₂.
        close_tun (stop_network_interface windows s₂) >>= λ s₃.
        close_tun (on_net (Connection.shutdown now) s₃) >>= λ s₄.
        some (record s₄ { signaling = disconnect s₄.signaling; monitor_thread = false }) in
      let last : P2PSystem → Option P2PSystem =
        λ s₄. some (record s₄ { signaling = disconnect s₄.signaling; monitor_thread = false }) in
      let second : P2PSystem → Option P2PSystem =
        λ s₃. close_tun (on_net (Connection.shutdown now) s₃) >>= last in
      let closed : close_tun s ≡ some s = tun-same windows s (o.tun.0) (o.tun.1) (o.tun.2) in
      ap (λ (x : P2PSystem). after (with_state shutting_down (record x { running = false })))
        (if_off (is_linked s) _ s (off-unlinked s o.net))
      ∙ ap after (λ i. record s {
        running = sym o.running i;
        manager = shutting_down_stays shutting_down s.manager o.state i;
      })
      ∙ ap (λ (x : P2PSystem). close_tun x >>= second)
          (interface-same windows s (OnSome-tun windows s o))
      ∙ ap (λ (x : Option P2PSystem). x >>= second) closed
      ∙ ap (λ (x : P2PSystem). close_tun x >>= last) (net-same windows now s o.state o.net)
      ∙ ap (λ (x : Option P2PSystem). x >>= last) closed
      ∙ λ i. some (record s {
        signaling = disconnect-same s.signaling o.signaling i;
        monitor_thread = sym o.monitor i;
      })

  -- A second shutdown, at any later time, changes nothing of what a shutdown that came to its end
  -- has left: no link, no connection to the server, no monitor thread.
  pub shutdown-shutdown :
      (first second : ℕ) (s t : P2PSystem)
      → shutdown windows first s ≡ some t
      → (shutdown windows second t ≡ some t)
        × (is_linked t ≡ false)
        × (t.signaling.connected ≡ false)
        × (t.monitor_thread ≡ false)
  shutdown-shutdown first second s t h =
      let o = OnSome-some Off _ (shutdown-Off first s) h in
      (shutdown-same second t o, off-unlinked t o.net, o.signaling, o.monitor)
