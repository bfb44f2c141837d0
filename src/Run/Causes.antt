-- ===== src/Run/Causes.antt =====
-- How a client comes to be connected: by a call, and a later turn of the monitor.
use mathlib.Core.Option.{some-injective}
use peer_bridge_cli.Common.{
  ℕ, ◌≡◌, ◌≢◌, refl, sym, ap, ◌∙◌, ◌⊎◌, inl, inr, Bool, true, false, Option, none, some, List, [],
  ◌∷◌, Text, ◌>>=◌,
}
use peer_bridge_cli.StateManager.{SystemState, connecting, connected}
use peer_bridge_cli.Routing.{Windows}
use peer_bridge_cli.Signaling.{JsonReader}
use peer_bridge_cli.System.State.{P2PSystem}
use peer_bridge_cli.Run.{
  Event, step, run, from_server, datagram, send_complete, posted_task, timer, tun_read, tun_write,
  monitor_turn, typed_line, leave_main,
}
use peer_bridge_cli.Run.Lifecycle.{
  stays, dials, Calls, goes_on, gives_up, Watches, waits, confirms, ends, shuts, state,
}
use peer_bridge_cli.Run.Refines.{Moves, step-Moves}

-- A line that the user types, or a message of the server.
abbrev is_call : Event → Bool
is_call (from_server message) = true
is_call (typed_line line) = true
is_call _ = false

abbrev is_watch : Event → Bool
is_watch monitor_turn = true
is_watch _ = false

abbrev HasWatch : List (ℕ × Event) → Type 0
HasWatch [] = ⊥
HasWatch ((now, e) ∷ rest) = (is_watch e ≡ true) ⊎ HasWatch rest

-- A call, and later a turn of the monitor.
abbrev pub CallThenWatch : List (ℕ × Event) → Type 0
CallThenWatch [] = ⊥
CallThenWatch ((now, e) ∷ rest) = ((is_call e ≡ true) × HasWatch rest) ⊎ CallThenWatch rest

Calls-unconnected : {c d : SystemState} → Calls c d → c ≢ connected → d ≢ connected
Calls-unconnected (goes_on (stays e)) n h = n (sym e ∙ h)
Calls-unconnected (goes_on (dials e k)) n h = cc
Calls-unconnected (gives_up m e) n h = cc

-- Without the monitor, no event makes a client connected.
unwatched :
    (e : Event) {c d : SystemState}
    → Moves e c d
    → c ≢ connected
    → (is_watch e ≡ true) ⊎ (d ≢ connected)
unwatched (from_server message) m n = inr (Calls-unconnected m n)
unwatched (typed_line line) m n = inr (Calls-unconnected m n)
unwatched monitor_turn m n = inl refl
unwatched leave_main m n = inr (λ h. cc)
unwatched (datagram error transferred buffer sender) m n = inr (λ h. n (sym m ∙ h))
unwatched (send_complete error seq) m n = inr (λ h. n (sym m ∙ h))
unwatched posted_task m n = inr (λ h. n (sym m ∙ h))
unwatched (timer error) m n = inr (λ h. n (sym m ∙ h))
unwatched (tun_read packet wait) m n = inr (λ h. n (sym m ∙ h))
unwatched (tun_write allocated) m n = inr (λ h. n (sym m ∙ h))

-- Neither connected nor about to be.
abbrev pub Off : SystemState → Type 0
Off c = (c ≢ connecting) × (c ≢ connected)

Watches-Off : {c d : SystemState} → Watches c d → Off c → Off d
Watches-Off (waits e) n = (λ h. n.0 (sym e ∙ h), λ h. n.1 (sym e ∙ h))
Watches-Off (confirms p q) n = absurd (n.0 p)
Watches-Off (ends h e) n = (λ k. cc, λ k. cc)
Watches-Off (shuts e) n = (λ k. cc, λ k. cc)

uncalled :
    (e : Event) {c d : SystemState}
    → Moves e c d
    → Off c
    → ((is_call e ≡ true) × (d ≢ connected)) ⊎ Off d
uncalled (from_server message) m n = inl (refl, Calls-unconnected m n.1)
uncalled (typed_line line) m n = inl (refl, Calls-unconnected m n.1)
uncalled monitor_turn m n = inr (Watches-Off m n)
uncalled leave_main m n = inr (λ h. cc, λ h. cc)
uncalled (datagram error transferred buffer sender) m n = inr (Watches-Off (waits m) n)
uncalled (send_complete error seq) m n = inr (Watches-Off (waits m) n)
uncalled posted_task m n = inr (Watches-Off (waits m) n)
uncalled (timer error) m n = inr (Watches-Off (waits m) n)
uncalled (tun_read packet wait) m n = inr (Watches-Off (waits m) n)
uncalled (tun_write allocated) m n = inr (Watches-Off (waits m) n)

module _ {J : Type 0} (reader : JsonReader J) (windows : Windows)
    (make_address : Text → Option Text) where
  bound-run :
      (o : Option P2PSystem) (f : P2PSystem → Option P2PSystem) (t : P2PSystem)
      → (o >>= f) ≡ some t
      → (s : P2PSystem) × (o ≡ some s) × (f s ≡ some t)
  bound-run none f t h = cc
  bound-run (some s) f t h = (s, refl, h)

  watched :
      (events : List (ℕ × Event)) (s t : P2PSystem)
      → state s ≢ connected
      → run reader windows make_address events s ≡ some t
      → state t ≡ connected
      → HasWatch events
  unfolding run
  watched [] s t n h on = n (ap state (some-injective s t h) ∙ on)
  watched ((now, e) ∷ rest) s t n h on =
      let (u, first, later) =
        bound-run (step reader windows make_address now e s) (run reader windows make_address rest)
          t h in
      elim (unwatched e (step-Moves reader windows make_address now e s first) n) [
        | inl watch ↦ inl watch
        | inr off ↦ inr (watched rest u t off later on)
      ]

  -- If a client is neither connecting nor connected, and after a history of events that comes to a
  -- result it is connected, then the history has a message of the server or a line of the user
  -- and, later, a turn of the monitor.
  pub run-CallThenWatch :
      (events : List (ℕ × Event)) (s t : P2PSystem)
      → Off (state s)
      → run reader windows make_address events s ≡ some t
      → state t ≡ connected
      → CallThenWatch events
  unfolding run
  run-CallThenWatch [] s t n h on = n.1 (ap state (some-injective s t h) ∙ on)
  run-CallThenWatch ((now, e) ∷ rest) s t n h on =
      let (u, first, later) =
        bound-run (step reader windows make_address now e s) (run reader windows make_address rest)
          t h in
      let moves = step-Moves reader windows make_address now e s first in
      elim (uncalled e moves n) [
        | inl (call, off) ↦ inl (call, watched rest u t off later on)
        | inr off ↦ inr (run-CallThenWatch rest u t off later on)
      ]
