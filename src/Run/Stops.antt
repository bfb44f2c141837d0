-- ===== src/Run/Stops.antt =====
-- How a connection and the system end, and how the tunnel starts.
use peer_bridge_cli.Common.{
  ℕ, ◌≡◌, ◌≢◌, refl, ap, ◌∙◌, ◌⊎◌, inl, inr, Bool, false, Option, none, some, [], arith,
  if◌then◌else◌, Option-cases, OnSome, OnSome-bind,
}
use peer_bridge_cli.PeerConnection.{set_connected}
use peer_bridge_cli.StateManager.{
  SystemState, idle, connecting, connected, shutting_down, StateManager, set_state,
  is_valid_transition, same_state,
}
use peer_bridge_cli.Tun.{stop_packet_processing, close}
use peer_bridge_cli.Network.State.{UdpNetwork, stop_keep_alive_timer}
use peer_bridge_cli.Network.Connection
use peer_bridge_cli.Routing.{Windows}
use peer_bridge_cli.System.State.{P2PSystem, is_linked, is_tunnelling, with_state}
use peer_bridge_cli.System.Connection.{
  on_net, close_tun, stop_tun, stop_network_interface, stop_connection, shutdown,
}
use peer_bridge_cli.Run.Invariant.{Inv}

pub state_cases :
    (c : SystemState) (P : SystemState → Type 0)
    → P idle
    → P connecting
    → P connected
    → P shutting_down
    → P c
state_cases idle P a b c d = a
state_cases connecting P a b c d = b
state_cases connected P a b c d = c
state_cases shutting_down P a b c d = d

pub set_idle-ne-connected : (m : StateManager) → (set_state idle m).current_state ≢ connected
unfolding set_state is_valid_transition same_state
set_idle-ne-connected m = ground arith

pub set_shutting_down-state :
    (m : StateManager) → (set_state shutting_down m).current_state ≡ shutting_down
unfolding set_state is_valid_transition same_state
set_shutting_down-state m = ground arith

pub set_state-shutting_down :
    (t : SystemState) (m : StateManager)
    → m.current_state ≡ shutting_down
    → (set_state t m).current_state ≡ shutting_down
unfolding set_state is_valid_transition same_state
set_state-shutting_down t m h = ground arith

set_idle_lem :
    (m : StateManager)
    → ((set_state idle m).current_state ≡ idle)
      ⊎ ((m.current_state ≡ shutting_down) × ((set_state idle m).current_state ≡ shutting_down))
unfolding set_state is_valid_transition same_state
set_idle_lem m = ground arith

set_idle_twice :
    (m : StateManager)
    → ((set_state idle (set_state idle m)).current_state ≡ idle)
      ⊎ ((m.current_state ≡ shutting_down)
          × ((set_state idle (set_state idle m)).current_state ≡ shutting_down))
unfolding set_state is_valid_transition same_state
set_idle_twice m = ground arith

-- `is_linked`, of the link's pointer alone.
linked : Option UdpNetwork → Bool
linked none = false
linked (some n) = n.peer.connected

on_net-unlinked :
    (now : ℕ) (s : P2PSystem) → linked (on_net (Connection.stop_connection now) s).net ≡ false
unfolding linked on_net Connection.stop_connection set_connected stop_keep_alive_timer
on_net-unlinked now s = elim (Option-cases s.net) [
  | inl e ↦ ground arith
  | inr (n, e) ↦ ground arith
]

module _ (windows : Windows) where
  pub stop_network_interface-off :
      (s : P2PSystem) → is_tunnelling (stop_network_interface windows s) ≡ false
  unfolding is_tunnelling stop_network_interface stop_tun stop_packet_processing
  stop_network_interface-off s = elim (Option-cases s.tun) [
    | inl e ↦ ground arith
    | inr (t, e) ↦ ground arith
  ]

  pub stop_network_interface-state :
      (s : P2PSystem) → (stop_network_interface windows s).manager ≡ s.manager
  unfolding stop_network_interface stop_tun
  stop_network_interface-state s = ground arith

  stop_network_interface-running :
      (s : P2PSystem) → (stop_network_interface windows s).running ≡ s.running
  unfolding stop_network_interface stop_tun
  stop_network_interface-running s = ground arith

  pub idle_or_down :
      (now : ℕ) (s : P2PSystem)
      → let t = stop_connection windows now s in
        (t.manager.current_state ≡ idle)
        ⊎ ((s.manager.current_state ≡ shutting_down) × (t.manager.current_state ≡ shutting_down))
  unfolding stop_connection on_net Connection.stop_connection
  idle_or_down now s =
      rw (stop_network_interface-state (on_net (Connection.stop_connection now) s))
        (elim (Option-cases s.net) [
          | inl e ↦ rw (e, on_net) (set_idle_lem s.manager)
          | inr (n, e) ↦ rw (e, on_net) (set_idle_twice s.manager)
        ])

  pub stop_network_interface-net : (s : P2PSystem) → (stop_network_interface windows s).net ≡ s.net
  unfolding stop_network_interface stop_tun
  stop_network_interface-net s = ground arith

  -- After `stopConnection` the tunnel and the link are off, the peer's name is forgotten, and the
  -- system is idle, or still shutting down if it was.
  pub stop_connection_lem :
      (now : ℕ) (s : P2PSystem)
      → let t = stop_connection windows now s in
        (is_tunnelling t ≡ false)
        × (is_linked t ≡ false)
        × ((t.manager.current_state ≡ idle)
            ⊎ ((s.manager.current_state ≡ shutting_down)
                × (t.manager.current_state ≡ shutting_down)))
        × (t.peer_username ≡ [])
  unfolding stop_connection is_tunnelling is_linked linked Connection.is_connected
  stop_connection_lem now s =
      let u = on_net (Connection.stop_connection now) s in
      (
        stop_network_interface-off u,
        ap linked (stop_network_interface-net u) ∙ on_net-unlinked now s,
        idle_or_down now s,
        refl,
      )

  pub stop_connection-Inv : (now : ℕ) (s : P2PSystem) → Inv (stop_connection windows now s)
  unfolding stop_connection is_tunnelling
  stop_connection-Inv now s = record {
    up = λ h. absurd (set_idle-ne-connected _ h);
    down = λ _. stop_network_interface-off (on_net (Connection.stop_connection now) s);
  }

  -- What the second closing of the tunnel finds.
  abbrev pub Ended : P2PSystem → Type 0
  Ended t =
      (t.manager.current_state ≡ shutting_down) × (is_tunnelling t ≡ false) × (t.running ≡ false)

  abbrev Ending : P2PSystem → Type 0
  Ending t = (t.manager.current_state ≡ shutting_down) × (t.running ≡ false)

  close_tun-Ended : (s : P2PSystem) → Ending s → OnSome Ended (close_tun s)
  unfolding close_tun close is_tunnelling stop_packet_processing
  close_tun-Ended s h = elim (Option-cases s.tun) [
    | inl e ↦ rw (e, close_tun) tt
    | inr (t, e) ↦ rw (e, close_tun) (h.0, ground arith, h.1)
  ]

  shutdown-Ending :
      (now : ℕ) (s : P2PSystem) → Ending s → Ending (on_net (Connection.shutdown now) s)
  unfolding on_net Connection.shutdown
  shutdown-Ending now s h = elim (Option-cases s.net) [
    | inl e ↦ rw (e, on_net) h
    | inr (n, e) ↦ rw (e, on_net) (set_shutting_down-state _, h.1)
  ]

  -- The state after the first half of a shutdown, the closing of the tunnel.
  pub first_closing-Ended :
      (now : ℕ) (s : P2PSystem)
      → OnSome Ended (
          close_tun (
            stop_network_interface windows (
              with_state SystemState.shutting_down
                (record (if is_linked s
                  then stop_network_interface windows (on_net (Connection.stop_connection now) s)
                  else s) { running = false }))))
  first_closing-Ended now s =
      let s₁ : P2PSystem =
        if is_linked s
        then stop_network_interface windows (on_net (Connection.stop_connection now) s)
        else s in
      let s₂ : P2PSystem = with_state shutting_down (record s₁ { running = false }) in
      close_tun-Ended (stop_network_interface windows s₂) (
        ap (λ m. m.current_state) (stop_network_interface-state s₂) ∙ set_shutting_down-state _,
        stop_network_interface-running s₂,
      )

  -- A shutdown that comes to its end leaves the tunnel off, the state final and the system not
  -- running.
  pub shutdown-Ended : (now : ℕ) (s : P2PSystem) → OnSome Ended (shutdown windows now s)
  unfolding shutdown is_tunnelling
  shutdown-Ended now s = OnSome-bind Ended Ended _ _ (first_closing-Ended now s) λ s₃ h.
      OnSome-bind Ended Ended (close_tun (on_net (Connection.shutdown now) s₃)) _
        (close_tun-Ended _ (shutdown-Ending now s₃ (h.0, h.2))) λ s₄ k. k
