-- ===== src/Run/History.antt =====
-- The histories of a client, from its start on.
use peer_bridge_cli.Common.{
  OnSome-any, Bool-cases, inl, inr, ◌⊎◌, ℕ, ◌≡◌, refl, ap, ◌⊎◌, inl, inr, Bool, true, false, not,
  Option, none, some, List, Text, arith, if_both, Bool-cases, OnSome, OnSome-some, OnSome-bind,
  ◌>>=◌,
}
use peer_bridge_cli.Common.Int.{pos}
use peer_bridge_cli.StateManager.{
  SystemState, idle, connecting, connected, shutting_down, StateManager, set_state,
  is_valid_transition, same_state, is_in_state,
}
use peer_bridge_cli.Stun.{Discovered, overread, finished}
use peer_bridge_cli.Tun.{new_tun, initialize}
use peer_bridge_cli.Routing.{Windows}
use peer_bridge_cli.Signaling.{register_user, SignalingClient, JsonReader}
use peer_bridge_cli.System.State.{P2PSystem, is_tunnelling}
use peer_bridge_cli.StateManager.{fresh}
use peer_bridge_cli.System.State.{new_system}
use peer_bridge_cli.System.Threads.{
  World, start_network, start_tun, start_signaling, after_discovery, initialize_system,
}
use peer_bridge_cli.Signaling.{connect, set_callbacks}
use peer_bridge_cli.Run.{Event, run}
use peer_bridge_cli.Run.Invariant.{Inv}
use peer_bridge_cli.Run.Handlers.{run-Inv}

start_network-idle : (w : World) (s : P2PSystem) → (start_network w s).0.manager ≡ s.manager
unfolding start_network
start_network-idle w s = ground arith

start_tun-idle : (w : World) (s : P2PSystem) → (start_tun w s).0.manager ≡ s.manager
unfolding start_tun
start_tun-idle w s =
    if_both (λ (r : P2PSystem × Bool). r.0.manager ≡ s.manager)
      (not (initialize w.wintun new_tun).1) _ _ refl (start_network-idle w _)

start_signaling-idle :
    (w : World) (s : P2PSystem)
    → OnSome (λ (r : P2PSystem × Bool). r.0.manager ≡ s.manager) (start_signaling w s)
unfolding start_signaling
start_signaling-idle w s =
    let same = λ (r : P2PSystem × Bool). r.0.manager ≡ s.manager in
    let (c, ok) = connect w.looks w.opens (set_callbacks s.signaling) in
    if_both (OnSome same) (not ok) _ _ refl (
      OnSome-bind (λ (d : SignalingClient). Unit) same
        (register_user s.username s.public_ip s.public_port c) _ (OnSome-any _)
        (λ d a. start_tun-idle w _))

after_discovery-idle :
    (w : World) (d : Discovered) (s : P2PSystem)
    → OnSome (λ (r : P2PSystem × Bool). r.0.manager ≡ s.manager) (after_discovery w d s)
unfolding after_discovery
after_discovery-idle w overread s = tt
after_discovery-idle w (finished none) s = refl
after_discovery-idle w (finished (some (ip, port))) s =
    start_signaling-idle w (record s { public_ip = ip; public_port = pos port })

pub initialize-idle :
    (w : World) (username : Text)
    → OnSome
        (λ (r : P2PSystem × Bool). r.0.manager ≡ fresh)
        (initialize_system w username new_system)
unfolding initialize_system set_state is_valid_transition same_state
initialize-idle w username = after_discovery-idle w _ _

-- A client that starts, in whatever way its start goes, and then runs.
abbrev pub history :
    {J : Type 0}
    → JsonReader J
    → Windows
    → (Text → Option Text)
    → World
    → Text
    → List (ℕ × Event)
    → Option P2PSystem
history reader windows make_address w username events =
    initialize_system w username new_system >>= λ r. run reader windows make_address events (r.0)

fresh-Inv : (s : P2PSystem) → s.manager ≡ fresh → Inv s
fresh-Inv s h = let e = ap (λ m. m.current_state) h in record { up = λ k. cc; down = λ k. cc }

pub in_state : (c : SystemState) (m : StateManager) → is_in_state m c ≡ true → m.current_state ≡ c
unfolding is_in_state same_state
in_state idle m h = ground arith
in_state connecting m h = ground arith
in_state connected m h = ground arith
in_state shutting_down m h = ground arith

-- After any history of handlers, from the start of a client however that start went, a client
-- whose state is connected has its tunnel running, and a client whose state is shutting down does
-- not have its tunnel running. The claim is of every history that comes to a result.
pub client-Inv :
    {J : Type 0} (reader : JsonReader J) (windows : Windows) (make_address : Text → Option Text)
    (w : World) (username : Text) (events : List (ℕ × Event)) {t : P2PSystem}
    → history reader windows make_address w username events ≡ some t
    → ((is_in_state t.manager connected ≡ false) ⊎ (is_tunnelling t ≡ true))
      × ((is_in_state t.manager shutting_down ≡ false) ⊎ (is_tunnelling t ≡ false))
client-Inv reader windows make_address w username events {t} h =
    let v : Inv t =
      OnSome-some Inv _
        (OnSome-bind (λ (r : P2PSystem × Bool). r.0.manager ≡ fresh) Inv
          (initialize_system w username new_system) _ (initialize-idle w username)
          λ r e. run-Inv reader windows make_address events (r.0) (fresh-Inv (r.0) e))
        h in
    (
      elim (Bool-cases (is_in_state t.manager connected)) [
        | inl e ↦ inr (v.up (in_state connected t.manager e))
        | inr e ↦ inl e
      ],
      elim (Bool-cases (is_in_state t.manager shutting_down)) [
        | inl e ↦ inr (v.down (in_state shutting_down t.manager e))
        | inr e ↦ inl e
      ],
    )
