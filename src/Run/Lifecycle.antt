-- ===== src/Run/Lifecycle.antt =====
-- Which events move the state machine of a client, and how.
use peer_bridge_cli.Common.{◌≡◌, ◌≢◌, refl, sym, ◌∙◌, ◌⊎◌, inl, inr, arith}
use peer_bridge_cli.StateManager.{
  SystemState, idle, connecting, connected, shutting_down, StateManager, set_state,
  is_valid_transition, same_state,
}
use peer_bridge_cli.System.State.{P2PSystem}

-- A new dial, from the idle state only.
pub data Dials (c d : SystemState) : Type 0 where
  stays : d ≡ c → Dials c d
  dials : c ≡ idle → d ≡ connecting → Dials c d

-- What a call of the user or of the server may do: dial, or give up.
pub data Calls (c d : SystemState) : Type 0 where
  goes_on : Dials c d → Calls c d
  gives_up : c ≢ shutting_down → d ≡ idle → Calls c d

-- What a turn of the monitor may do: confirm a dial, end a connection or a dial, shut down.
pub data Watches (c d : SystemState) : Type 0 where
  waits : d ≡ c → Watches c d
  confirms : c ≡ connecting → d ≡ connected → Watches c d
  ends : (c ≡ connecting) ⊎ (c ≡ connected) → d ≡ idle → Watches c d
  shuts : d ≡ shutting_down → Watches c d

pub Dials-trans : {c d e : SystemState} → Dials c d → Dials d e → Dials c e
Dials-trans (stays p) (stays q) = stays (q ∙ p)
Dials-trans (stays p) (dials q r) = dials (sym p ∙ q) r
Dials-trans (dials p q) (stays r) = dials p (r ∙ q)
Dials-trans (dials p q) (dials r s) = cc

pub Calls-after : {c d e : SystemState} → Dials c d → Calls d e → Calls c e
Calls-after p (goes_on q) = goes_on (Dials-trans p q)
Calls-after (stays p) (gives_up n q) = gives_up (λ h. n (p ∙ h)) q
Calls-after (dials p r) (gives_up n q) = gives_up (λ h. cc) q

pub Watches-trans : {c d e : SystemState} → Watches c d → Watches d e → Watches c e
Watches-trans p (shuts q) = shuts q
Watches-trans (waits p) (waits q) = waits (q ∙ p)
Watches-trans (waits p) (confirms q r) = confirms (sym p ∙ q) r
Watches-trans (waits p) (ends (inl q) r) = ends (inl (sym p ∙ q)) r
Watches-trans (waits p) (ends (inr q) r) = ends (inr (sym p ∙ q)) r
Watches-trans (confirms p q) (waits r) = confirms p (r ∙ q)
Watches-trans (confirms p q) (confirms r s) = cc
Watches-trans (confirms p q) (ends h r) = ends (inl p) r
Watches-trans (ends h p) (waits q) = ends h (q ∙ p)
Watches-trans (ends h p) (confirms q r) = cc
Watches-trans (ends h p) (ends (inl q) r) = cc
Watches-trans (ends h p) (ends (inr q) r) = cc
Watches-trans (shuts p) (waits q) = shuts (q ∙ p)
Watches-trans (shuts p) (confirms q r) = cc
Watches-trans (shuts p) (ends (inl q) r) = cc
Watches-trans (shuts p) (ends (inr q) r) = cc

abbrev pub state : P2PSystem → SystemState
state s = s.manager.current_state

pub set_connecting-Dials :
    (m : StateManager) → Dials m.current_state (set_state connecting m).current_state
unfolding set_state is_valid_transition same_state
set_connecting-Dials m = go m.current_state refl
  where
    go :
        (c : SystemState)
        → m.current_state ≡ c
        → Dials m.current_state (set_state connecting m).current_state
    go idle e = dials e (ground arith)
    go connecting e = stays (ground arith)
    go connected e = stays (ground arith)
    go shutting_down e = stays (ground arith)

pub set_idle-Calls : (m : StateManager) → Calls m.current_state (set_state idle m).current_state
unfolding set_state is_valid_transition same_state
set_idle-Calls m = go m.current_state refl
  where
    go :
        (c : SystemState)
        → m.current_state ≡ c
        → Calls m.current_state (set_state idle m).current_state
    go idle e = goes_on (stays (ground arith))
    go connecting e = gives_up (λ h. cc) (ground arith)
    go connected e = gives_up (λ h. cc) (ground arith)
    go shutting_down e = goes_on (stays (ground arith))
