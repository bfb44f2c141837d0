-- ===== src/StateManager/Laws.antt =====
-- What the state machine allows, and the order of the event queue.
use peer_bridge_cli.Common.{
  ℕ, zero, suc, ◌≡◌, refl, ◌⊎◌, inl, inr, true, Option, some, List, [], ◌∷◌, ◌++◌, arith, ap, ◌∙◌,
  map, length, append_assoc, append-nil, Bool-cases,
}
use peer_bridge_cli.StateManager.{
  SystemState, idle, connecting, connected, shutting_down, StateManager, NetworkEventData,
  is_valid_transition, set_state, queue_event, get_next_event,
}

-- The moves of the state machine as a relation, read off the lifecycle of a connection.
pub data Transition : SystemState → SystemState → Type 0 where
  reset : (s : SystemState) → (s ≡ shutting_down → ⊥) → Transition s idle
  dial : Transition idle connecting
  establish : Transition connecting connected
  stay : Transition connected connected
  stop : (s : SystemState) → Transition s shutting_down

pub Transition_sound : {s t : SystemState} → Transition s t → is_valid_transition s t ≡ true
unfolding is_valid_transition
Transition_sound (reset idle h) = refl
Transition_sound (reset connecting h) = refl
Transition_sound (reset connected h) = refl
Transition_sound (reset shutting_down h) = absurd (h refl)
Transition_sound dial = refl
Transition_sound establish = refl
Transition_sound stay = refl
Transition_sound (stop idle) = refl
Transition_sound (stop connecting) = refl
Transition_sound (stop connected) = refl
Transition_sound (stop shutting_down) = refl

pub Transition_complete : (s t : SystemState) → is_valid_transition s t ≡ true → Transition s t
unfolding is_valid_transition
Transition_complete idle idle h = reset idle (λ e. cc)
Transition_complete idle connecting h = dial
Transition_complete idle connected h = cc
Transition_complete connecting idle h = reset connecting (λ e. cc)
Transition_complete connecting connecting h = cc
Transition_complete connecting connected h = establish
Transition_complete connected idle h = reset connected (λ e. cc)
Transition_complete connected connecting h = cc
Transition_complete connected connected h = stay
Transition_complete shutting_down idle h = cc
Transition_complete shutting_down connecting h = cc
Transition_complete shutting_down connected h = cc
Transition_complete s shutting_down h = stop s

-- The state after a request is the one asked for where the lifecycle has that move, and is
-- unchanged where it has not; the event queue is left alone.
set_state-Transition :
    (m : StateManager) (t : SystemState)
    → ((Transition m.current_state t × (set_state t m ≡ record m { current_state = t }))
        ⊎ ((¬ Transition m.current_state t) × (set_state t m ≡ m)))
unfolding set_state
set_state-Transition m t = elim (Bool-cases (is_valid_transition m.current_state t)) [
  | inl valid ↦ inl (Transition_complete m.current_state t valid, rw valid)
  | inr invalid ↦ inr (λ move. cc (Transition_sound move), rw invalid)
]

-- Requests in any order, from any thread.
unfoldable pub requests : List SystemState → StateManager → StateManager
requests [] m = m
requests (t ∷ ts) m = requests ts (set_state t m)

pub shutting_down_stays :
    (t : SystemState) (m : StateManager) → m.current_state ≡ shutting_down → set_state t m ≡ m
unfolding set_state
shutting_down_stays idle m h = ground arith
shutting_down_stays t m h = ground arith

-- Once the system is shutting down, no sequence of requests changes the state machine.
requests-shutting_down :
    (ts : List SystemState) (m : StateManager) → m.current_state ≡ shutting_down → requests ts m ≡ m
unfolding requests
requests-shutting_down [] m h = refl
requests-shutting_down (t ∷ ts) m h = rw (shutting_down_stays t m h) (requests-shutting_down ts m h)

-- Queueing a list of events, then taking them off one by one.
queue_all : List NetworkEventData → StateManager → StateManager
queue_all [] m = m
queue_all (e ∷ es) m = queue_all es (queue_event e m)

-- `n` calls of `get_next_event`, with what each one returns.
drain : ℕ → StateManager → List (Option NetworkEventData) × StateManager
drain zero m = ([], m)
drain (suc n) m = let (e, m') = get_next_event m in let (rest, m'') = drain n m' in (e ∷ rest, m'')

queue_all-queue :
    (es : List NetworkEventData) (m : StateManager)
    → queue_all es m ≡ record m { event_queue = m.event_queue ++ es }
unfolding queue_all queue_event
queue_all-queue [] m = rw append-nil
queue_all-queue (e ∷ es) m =
    queue_all-queue es (queue_event e m)
    ∙ ap (λ q. record m { event_queue = q }) (append_assoc m.event_queue (e ∷ []) es)

drain-front :
    (es : List NetworkEventData) (s : SystemState)
    → drain (length es) (record { current_state = s; event_queue = es })
      ≡ (map some es, record { current_state = s; event_queue = [] })
unfolding drain get_next_event
drain-front [] s = refl
drain-front (e ∷ es) s = rw (drain-front es s)

-- The event queue is first in, first out: the events that waited and those queued after them come
-- back in that order, each once, and the state is not touched.
drain-queue_all :
    (es : List NetworkEventData) (m : StateManager)
    → drain (length (m.event_queue ++ es)) (queue_all es m)
      ≡ (map some (m.event_queue ++ es), record m { event_queue = [] })
drain-queue_all es m = rw (queue_all-queue es m) (drain-front (m.event_queue ++ es) m.current_state)
