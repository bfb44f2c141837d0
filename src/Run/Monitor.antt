-- ===== src/Run/Monitor.antt =====
-- The monitor's loop: its rounds, and the queue.
use peer_bridge_cli.Common.{
  ◌||◌, OnSome-none, ◌∷◌, ℕ, zero, suc, ◌+◌, ◌<◌, ◌≡◌, refl, ap, ◌∙◌, inl, inr, Bool, true, false,
  not, Option, none, some, List, [], length, arith, if◌then◌else◌, if_both, Option-cases, OnSome,
  OnSome-bind, OnSome-map, ◌>>=◌,
}
use peer_bridge_cli.StateManager.{
  SystemState, connecting, connected, StateManager, NetworkEvent, NetworkEventData, peer_connected,
  all_peers_disconnected, shutdown_requested, set_state, is_in_state, get_next_event,
}
use peer_bridge_cli.Network.Connection
use peer_bridge_cli.Routing.{Windows}
use peer_bridge_cli.Tun.{start_packet_processing}
use peer_bridge_cli.System.State.{P2PSystem, is_linked, with_state}
use peer_bridge_cli.System.Connection.{
  join_self, on_net, close_tun, stop_tun, stop_network_interface, stop_connection, shutdown,
  start_network_interface, handle_peer_connected, handle_network_event, monitor_rounds,
  monitor_loop,
}
use peer_bridge_cli.Run.Ready.{is_ready, Goes, asks_shutdown, handle_network_event-Goes}

abbrev queue : P2PSystem → List NetworkEventData
queue s = s.manager.event_queue

-- The events that wait are those of `q`.
abbrev Waits : List NetworkEventData → P2PSystem → Type 0
Waits q t = queue t ≡ q

set_state-queue :
    (state : SystemState) (m : StateManager) → (set_state state m).event_queue ≡ m.event_queue
unfolding set_state
set_state-queue state m = ground arith

net_stop-queue :
    (now : ℕ) (s : P2PSystem) → queue (on_net (Connection.stop_connection now) s) ≡ queue s
unfolding on_net Connection.stop_connection set_state
net_stop-queue now s = ground arith

net_shutdown-queue :
    (now : ℕ) (s : P2PSystem) → queue (on_net (Connection.shutdown now) s) ≡ queue s
unfolding on_net Connection.shutdown Connection.stop_connection set_state
net_shutdown-queue now s = ground arith

close_tun-queue : (s : P2PSystem) → OnSome (Waits (queue s)) (close_tun s)
unfolding close_tun
close_tun-queue s = ground arith

start_interface-queue :
    (s : P2PSystem)
    → OnSome (λ (r : P2PSystem × Bool). Waits (queue s) (r.0)) (start_network_interface s)
unfolding start_network_interface start_packet_processing
start_interface-queue s = ground arith

module _ (windows : Windows) (now : ℕ) where
  stop_interface-queue : (s : P2PSystem) → queue (stop_network_interface windows s) ≡ queue s
  unfolding stop_network_interface stop_tun
  stop_interface-queue s = ground arith

  stop_connection-queue : (s : P2PSystem) → queue (stop_connection windows now s) ≡ queue s
  unfolding stop_connection
  stop_connection-queue s =
      set_state-queue SystemState.idle _ ∙ stop_interface-queue _ ∙ net_stop-queue now s

  shutdown-queue : (s : P2PSystem) → OnSome (Waits (queue s)) (shutdown windows now s)
  unfolding shutdown
  shutdown-queue s =
      let q = queue s in
      let s₁ : P2PSystem =
        if is_linked s
        then stop_network_interface windows (on_net (Connection.stop_connection now) s)
        else s in
      let s₂ : P2PSystem = with_state SystemState.shutting_down (record s₁ { running = false }) in
      let a = stop_network_interface windows s₂ in
      let kept : Waits q s₁ =
        if_both (Waits q) (is_linked s) _ _ (stop_interface-queue _ ∙ net_stop-queue now s) refl in
      let first : Waits q a =
        stop_interface-queue s₂ ∙ set_state-queue SystemState.shutting_down _ ∙ kept in
      OnSome-bind (Waits q) (Waits q) (close_tun a) _
        (OnSome-map (Waits (queue a)) (Waits q) (close_tun a) (λ t h. h ∙ first)
          (close_tun-queue a))
        λ t h.
          let b = on_net (Connection.shutdown now) t in
          OnSome-bind (Waits q) (Waits q) (close_tun b) _
            (OnSome-map (Waits (queue b)) (Waits q) (close_tun b)
              (λ u k. k ∙ net_shutdown-queue now t ∙ h) (close_tun-queue b))
            λ u k. k

  handle_network_event-queue :
      (e : NetworkEvent) (s : P2PSystem)
      → OnSome (Waits (queue s)) (handle_network_event windows now e s)
  unfolding handle_network_event handle_peer_connected join_self
  handle_network_event-queue peer_connected s =
      let q = queue s in
      if_both (OnSome (Waits q)) (not (is_in_state s.manager connecting)) _ _ refl (
        OnSome-bind (λ (r : P2PSystem × Bool). Waits q (r.0)) (Waits q) (start_network_interface s)
          _ (start_interface-queue s)
          λ (t, ok) h.
            if_both (Waits q) ok (with_state connected t) (stop_connection windows now t)
              (set_state-queue connected t.manager ∙ h) (stop_connection-queue t ∙ h))
  handle_network_event-queue all_peers_disconnected s =
      if_both (Waits (queue s)) (is_in_state s.manager connected) _ _ (stop_connection-queue s) refl
  handle_network_event-queue shutdown_requested s =
      OnSome-none (Waits (queue s)) (shutdown windows now s) (join_self windows) (λ t. refl)

-- An event in the queue makes the monitor shut down.
abbrev pub any_shutdown : List NetworkEventData → Bool
any_shutdown [] = false
any_shutdown (e ∷ events) = asks_shutdown e.event || any_shutdown events

next-none : (m : StateManager) → (get_next_event m).0 ≡ none → m.event_queue ≡ []
unfolding get_next_event
next-none m h = ground arith

next-some :
    (m : StateManager) (e : NetworkEventData)
    → (get_next_event m).0 ≡ some e
    → suc (length (get_next_event m).1.event_queue) ≡ length m.event_queue
unfolding get_next_event
next-some m e h = ground arith

same_bind :
    (P : P2PSystem → Type 0) (o : Option P2PSystem) (f g : P2PSystem → Option P2PSystem)
    → OnSome P o
    → ((t : P2PSystem) → P t → f t ≡ g t)
    → (o >>= f) ≡ (o >>= g)
same_bind P none f g h k = refl
same_bind P (some t) f g h k = k t h

next-asks :
    (m : StateManager) (e : NetworkEventData)
    → (get_next_event m).0 ≡ some e
    → any_shutdown m.event_queue ≡ false
    → (asks_shutdown e.event ≡ false) × (any_shutdown (get_next_event m).1.event_queue ≡ false)
unfolding get_next_event
next-asks m e h a = ground arith

Goes-after :
    (P : P2PSystem → Type 0) (o : Option P2PSystem) (f : P2PSystem → Option P2PSystem)
    → Goes o
    → OnSome P o
    → ((t : P2PSystem) → is_ready t ≡ true → P t → Goes (f t))
    → Goes (o >>= f)
Goes-after P none f g p k = absurd g
Goes-after P (some t) f g p k = k t g p

module _ (windows : Windows) (now : ℕ) where
  pub monitor_rounds-Goes :
      (fuel : ℕ) (s : P2PSystem)
      → any_shutdown (queue s) ≡ false
      → is_ready s ≡ true
      → Goes (monitor_rounds windows fuel now s)
  unfolding monitor_rounds is_ready
  monitor_rounds-Goes zero s a h = h
  monitor_rounds-Goes (suc fuel) s a h = elim (Option-cases (get_next_event s.manager).0) [
    | inl e ↦ rw (e, monitor_rounds) h
    | inr (x, e) ↦
        let u = record s { manager = (get_next_event s.manager).1 } in
        let (this, others) = next-asks s.manager x e a in
        rw (e, monitor_rounds)
          (Goes-after (Waits (queue u)) (handle_network_event windows now x.event u) _
            (handle_network_event-Goes windows now x.event u this h)
            (handle_network_event-queue windows now x.event u)
            λ t k same. monitor_rounds-Goes fuel t (ap any_shutdown same ∙ others) k)
  ]

  rounds-enough :
      (k l : ℕ) (s : P2PSystem)
      → length (queue s) < k
      → length (queue s) < l
      → monitor_rounds windows k now s ≡ monitor_rounds windows l now s
  unfolding monitor_rounds
  rounds-enough zero l s hk hl = absurd (omega arith)
  rounds-enough (suc k) zero s hk hl = absurd (omega arith)
  rounds-enough (suc k) (suc l) s hk hl = elim (Option-cases (get_next_event s.manager).0) [
    | inl e ↦ rw (e, monitor_rounds) refl
    | inr (x, e) ↦
        let u = record s { manager = (get_next_event s.manager).1 } in
        let fewer = next-some s.manager x e in
        rw (e, monitor_rounds)
          (same_bind (Waits (queue u)) (handle_network_event windows now x.event u) _ _
            (handle_network_event-queue windows now x.event u)
            λ t h.
              let same : length (queue t) ≡ length (queue u) = ap length h in
              rounds-enough k l t (omega arith) (omega arith))
  ]

  rounds-drain :
      (k : ℕ) (s : P2PSystem)
      → length (queue s) < k
      → OnSome (Waits []) (monitor_rounds windows k now s)
  unfolding monitor_rounds
  rounds-drain zero s h = absurd (omega arith)
  rounds-drain (suc k) s h = elim (Option-cases (get_next_event s.manager).0) [
    | inl e ↦ rw (e, monitor_rounds) (next-none s.manager e)
    | inr (x, e) ↦
        let u = record s { manager = (get_next_event s.manager).1 } in
        let fewer = next-some s.manager x e in
        rw (e, monitor_rounds)
          (OnSome-bind (Waits (queue u)) (Waits []) (handle_network_event windows now x.event u) _
            (handle_network_event-queue windows now x.event u)
            λ t k'.
              let same : length (queue t) ≡ length (queue u) = ap length k' in
              rounds-drain k t (omega arith))
  ]

-- A turn of the monitor of a client that has its link and its tunnel, with no request to shut down
-- in its queue, comes to its end with the event queue empty, and any larger bound on its rounds
-- gives the same result.
pub monitor_loop-drains :
    (windows : Windows) (now extra : ℕ) (s : P2PSystem)
    → any_shutdown s.manager.event_queue ≡ false
    → is_ready s ≡ true
    → (t : P2PSystem) × (monitor_loop windows now s ≡ some t)
      × (t.manager.event_queue ≡ [])
      × (monitor_rounds windows (suc (length s.manager.event_queue) + extra) now s ≡ some t)
unfolding monitor_loop
monitor_loop-drains windows now extra s a h =
    go (monitor_rounds windows enough now s) (monitor_rounds-Goes windows now enough s a h)
      (rounds-drain windows now enough s (omega arith))
      (rounds-enough windows now (enough + extra) enough s (omega arith) (omega arith))
  where
    enough : ℕ
    enough = suc (length s.manager.event_queue)

    go :
        (o : Option P2PSystem)
        → Goes o
        → OnSome (Waits []) o
        → monitor_rounds windows (enough + extra) now s ≡ o
        → (t : P2PSystem) × (o ≡ some t)
          × (t.manager.event_queue ≡ [])
          × (monitor_rounds windows (enough + extra) now s ≡ some t)
    go none g d e = absurd g
    go (some t) g d e = (t, refl, d, e)
