-- ===== src/StateManager.antt =====
-- client/include/systemstatemanager.hpp and client/src/systemstatemanager.cpp: the system's state
-- machine and the queue of network events. Each operation is one step, as the lock of the queue
-- makes those of the queue; Interleaving has setState in its two steps. Log lines are left out.
pub mod Laws
pub mod Interleaving
use peer_bridge_cli.Common.{
  ℕ, Bool, true, false, ◌||◌, Option, none, some, List, [], ◌∷◌, ◌++◌, Text, if◌then◌else◌,
}

pub data SystemState : Type 0 where
  idle connecting connected shutting_down : SystemState

pub data NetworkEvent : Type 0 where
  peer_connected all_peers_disconnected shutdown_requested : NetworkEvent

-- The variant holds the peer's endpoint, or nothing. The timestamp is unused in the program.
pub data EventPayload : Type 0 where
  endpoint : Text → EventPayload
  monostate : EventPayload

pub record NetworkEventData : Type 0 where
  pub event : NetworkEvent
  pub payload : EventPayload

-- `==` on the states.
unfoldable pub same_state : SystemState → SystemState → Bool
same_state SystemState.idle SystemState.idle = true
same_state SystemState.connecting SystemState.connecting = true
same_state SystemState.connected SystemState.connected = true
same_state SystemState.shutting_down SystemState.shutting_down = true
same_state _ _ = false

-- The queue's front is the head of the list.
pub record StateManager : Type 0 where
  pub current_state : SystemState
  pub event_queue : List NetworkEventData

abbrev pub fresh : StateManager
fresh = record { current_state = SystemState.idle; event_queue = [] }

unfoldable pub is_valid_transition : SystemState → SystemState → Bool
unfolding same_state
is_valid_transition SystemState.idle to =
    same_state to SystemState.idle
    || (same_state to SystemState.connecting || same_state to SystemState.shutting_down)
is_valid_transition SystemState.connecting to =
    same_state to SystemState.connected
    || (same_state to SystemState.idle || same_state to SystemState.shutting_down)
is_valid_transition SystemState.connected to =
    same_state to SystemState.connected
    || (same_state to SystemState.idle || same_state to SystemState.shutting_down)
is_valid_transition SystemState.shutting_down to = same_state to SystemState.shutting_down

-- A transition that is not valid is logged and ignored.
unfoldable pub set_state : SystemState → StateManager → StateManager
unfolding is_valid_transition
set_state new_state m =
    if is_valid_transition m.current_state new_state
    then record m { current_state = new_state }
    else m

unfoldable pub is_in_state : StateManager → SystemState → Bool
unfolding same_state
is_in_state m state = same_state m.current_state state

unfoldable pub queue_event : NetworkEventData → StateManager → StateManager
queue_event event m = record m { event_queue = m.event_queue ++ event ∷ [] }

unfoldable pub get_next_event : StateManager → Option NetworkEventData × StateManager
get_next_event m = elim m.event_queue [
  | [] ↦ (none, m)
  | event ∷ rest ↦ (some event, record m { event_queue = rest })
]

unfoldable pub has_events : StateManager → Bool
has_events m = elim m.event_queue [ [] ↦ false | _ ∷ _ ↦ true ]
