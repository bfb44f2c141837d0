-- ===== src/StateManager/Interleaving.antt =====
-- `SystemStateManager::setState` between threads: it loads the state and stores the new one, and
-- another thread's call may come between the two (client/src/systemstatemanager.cpp).
use peer_bridge_cli.Common.{
  ℕ, false, Option, none, some, List, [], ◌∷◌, if◌then◌else◌, ◌==◌, ◌≡◌, refl, sym, ap, ◌∙◌, inl,
  inr, arith, Option-cases,
}
use peer_bridge_cli.StateManager.{
  SystemState, shutting_down, is_valid_transition, set_state, StateManager,
}
use peer_bridge_cli.StateManager.Laws.{Transition, stop, Transition_sound, shutting_down_stays}

-- The call of a thread between its load and its store: the state asked for, and the one loaded.
pub record Request : Type 0 where
  pub asked : SystemState
  pub seen : SystemState

pub record Shared : Type 0 where
  pub manager : StateManager
  pub calls : ℕ → Option Request

-- The two halves of a call, by the number of the thread.
pub data Half : Type 0 where
  loads : ℕ → SystemState → Half
  stores : ℕ → Half

-- `calls[i] = call`
unfoldable pub with_call : ℕ → Option Request → (ℕ → Option Request) → ℕ → Option Request
with_call i call calls j = if i == j then call else calls j

-- What a call stores.
unfoldable pub finish_call : Request → StateManager → StateManager
finish_call r m =
    if is_valid_transition r.seen r.asked then record m { current_state = r.asked } else m

unfoldable pub half : Half → Shared → Shared
unfolding with_call finish_call
half (loads i t) s =
    let call : Request = record { asked = t; seen = s.manager.current_state } in
    record s { calls = with_call i (some call) s.calls }
half (stores i) s = elim (s.calls i) [
  | none ↦ s
  | some r ↦ record { manager = finish_call r s.manager; calls = with_call i none s.calls }
]

unfoldable pub halves : List Half → Shared → Shared
halves [] s = s
halves (h ∷ hs) s = halves hs (half h s)

-- Every call on its way has seen the shutdown.
abbrev AllSeen : Shared → Type 0
AllSeen s = (i : ℕ) (r : Request) → s.calls i ≡ some r → r.seen ≡ shutting_down

half-stores :
    (i : ℕ) (r : Request) (s : Shared)
    → s.calls i ≡ some r
    → half (stores i) s
      ≡ record { manager = finish_call r s.manager; calls = with_call i none s.calls }
unfolding half
half-stores i r s e = rw (e, half) refl

half-nothing : (i : ℕ) (s : Shared) → s.calls i ≡ none → half (stores i) s ≡ s
unfolding half
half-nothing i s e = rw (e, half) refl

-- An undisturbed call is `set_state`.
finish-set_state :
    (r : Request) (m : StateManager)
    → r.seen ≡ m.current_state
    → finish_call r m ≡ set_state r.asked m
unfolding finish_call set_state
finish-set_state r m e =
    ap
      (λ seen. if is_valid_transition seen r.asked then record m { current_state = r.asked } else m)
      e

half-down :
    (h : Half) (s : Shared)
    → s.manager.current_state ≡ shutting_down
    → AllSeen s
    → ((half h s).manager ≡ s.manager) × AllSeen (half h s)
unfolding half with_call
half-down (loads i t) s down seen = (refl, λ j r h. ground (arith, seen j r))
half-down (stores i) s down seen = elim (Option-cases (s.calls i)) [
  | inl e ↦ rw (half-nothing i s e) (refl, seen)
  | inr (r, e) ↦ rw (half-stores i r s e) (
    finish-set_state r s.manager (seen i r e ∙ sym down)
        ∙ shutting_down_stays r.asked s.manager down,
    λ j q h. ground (arith, seen j q),
  )
]

-- If the state is shutting down and every call of setState on its way has loaded that state, then
-- no further loads and stores, in any order, change the state or the event queue.
pub halves-shutting_down :
    (hs : List Half) (s : Shared)
    → s.manager.current_state ≡ shutting_down
    → AllSeen s
    → (halves hs s).manager ≡ s.manager
unfolding halves
halves-shutting_down [] s down seen = refl
halves-shutting_down (h ∷ hs) s down seen =
    let (same, seen') = half-down h s down seen in
    halves-shutting_down hs (half h s) (ap (λ m. m.current_state) same ∙ down) seen' ∙ same

finish-valid :
    (r : Request) (m : StateManager)
    → Transition r.seen r.asked
    → finish_call r m ≡ record m { current_state = r.asked }
unfolding finish_call
finish-valid r m move = rw (Transition_sound move) refl

-- A thread asks for a state that may follow the present one, and another thread for the shutdown.
-- If the first loads, the second loads and stores, and only then the first stores, then the state
-- has been shutting down in between and ends as the state that the first asked for: the shutdown
-- is lost.
pub halves-undo_shutdown :
    (i j : ℕ) (t : SystemState) (s : Shared)
    → (i == j) ≡ false
    → Transition s.manager.current_state t
    → (halves (loads i t ∷ loads j shutting_down ∷ stores j ∷ []) s).manager.current_state
        ≡ shutting_down
      × ((halves (loads i t ∷ loads j shutting_down ∷ stores j ∷ stores i ∷ []) s).manager
          ≡ record (s.manager) { current_state = t })
unfolding halves half with_call
halves-undo_shutdown i j t s apart move =
    let now : SystemState = s.manager.current_state in
    let first : Request = record { asked = t; seen = now } in
    let second : Request = record { asked = shutting_down; seen = now } in
    let both : Shared = half (loads j shutting_down) (half (loads i t) s) in
    let down : half (stores j) both
        ≡ record { manager = finish_call second s.manager; calls = with_call j none both.calls } =
      half-stores j second both (ground arith) in
    let stored = finish-valid second s.manager (stop now) in
    (
      ap (λ (z : Shared). z.manager.current_state) down
          ∙ ap (λ (m : StateManager). m.current_state) stored,
      ap (λ z. (half (stores i) z).manager) down
          ∙ ap (λ (z : Shared). z.manager)
              (half-stores i first
                (record {
                  manager = finish_call second s.manager;
                  calls = with_call j none both.calls;
                })
                (ground arith))
          ∙ ap (finish_call first) stored
          ∙ finish-valid first (record (s.manager) { current_state = shutting_down }) move,
    )
