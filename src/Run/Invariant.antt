-- ===== src/Run/Invariant.antt =====
-- An invariant of the whole client: the state machine beside the tunnel.
use peer_bridge_cli.Common.{
  ◌≡◌, ◌≢◌, refl, sym, ap, ◌∙◌, inl, inr, true, false, arith, Option-cases,
}
use peer_bridge_cli.StateManager.{
  SystemState, idle, connecting, connected, shutting_down, StateManager, set_state,
  is_valid_transition, same_state, queue_event,
}
use peer_bridge_cli.System.State.{P2PSystem, wired, is_tunnelling}
use peer_bridge_cli.System.Connection.{on_net}
use peer_bridge_cli.Network.State.{Wired}
use peer_bridge_cli.Network.Events.{Announces, quiet, found, lost}

-- The tunnel passes packets whenever the system says that it is connected, and never once it has
-- said that it shuts down.
pub record Inv (s : P2PSystem) : Type 0 where
  pub up : s.manager.current_state ≡ connected → is_tunnelling s ≡ true
  pub down : s.manager.current_state ≡ shutting_down → is_tunnelling s ≡ false

-- The state machine stays, or is reset, or dials: what the link's own calls do to it.
pub data Mild (m n : StateManager) : Type 0 where
  stays : n.current_state ≡ m.current_state → Mild m n
  resets : m.current_state ≢ shutting_down → n.current_state ≡ idle → Mild m n
  dials : n.current_state ≡ connecting → Mild m n

-- A step that is mild on the state machine and leaves the tunnel alone keeps the invariant.
pub Inv-Mild :
    {s t : P2PSystem} → Inv s → Mild s.manager t.manager → is_tunnelling t ≡ is_tunnelling s → Inv t
Inv-Mild v (stays e) k = record {
  up = λ h. k ∙ v.up (sym e ∙ h);
  down = λ h. k ∙ v.down (sym e ∙ h);
}
Inv-Mild v (resets n e) k = record { up = λ h. cc; down = λ h. cc }
Inv-Mild v (dials e) k = record { up = λ h. cc; down = λ h. cc }

pub set_idle-Mild : (m : StateManager) → Mild m (set_state idle m)
unfolding set_state is_valid_transition same_state
set_idle-Mild m = go m.current_state refl
  where
    go : (c : SystemState) → m.current_state ≡ c → Mild m (set_state idle m)
    go idle e = stays (ground arith)
    go connecting e = resets (λ h. cc) (ground arith)
    go connected e = resets (λ h. cc) (ground arith)
    go shutting_down e = stays (ground arith)

pub set_connecting-Mild : (m : StateManager) → Mild m (set_state connecting m)
unfolding set_state is_valid_transition same_state
set_connecting-Mild m = go m.current_state refl
  where
    go : (c : SystemState) → m.current_state ≡ c → Mild m (set_state connecting m)
    go idle e = dials (ground arith)
    go connecting e = stays (ground arith)
    go connected e = stays (ground arith)
    go shutting_down e = stays (ground arith)

pub Announces-Mild : {w v : Wired} → Announces w v → Mild w.manager v.manager
unfolding queue_event
Announces-Mild (quiet a b) = stays (ap (λ m. m.current_state) b)
Announces-Mild (found a b c) = stays (ap (λ m. m.current_state) c)
Announces-Mild (lost a b c) = stays (ap (λ m. m.current_state) c)

-- A step of the link.
pub on_net-Inv :
    (f : Wired → Wired) (s : P2PSystem)
    → ((w : Wired) → Mild w.manager (f w).manager)
    → Inv s
    → Inv (on_net f s)
unfolding on_net is_tunnelling
on_net-Inv f s mild v = elim (Option-cases s.net) [
  | inl e ↦ rw (e, on_net) v
  | inr (n, e) ↦ rw (e, on_net) (Inv-Mild v (mild (wired s n)) refl)
]
