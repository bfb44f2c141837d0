-- ===== src/Main.antt =====
-- client/src/main.cpp: the start, the two threads of `main`, the signals, and the ends of the
-- program.
pub mod Ends
use peer_bridge_cli.Common.{
  ℕ, Bool, true, false, ◌&&◌, ◌||◌, not, Option, none, some, List, [], ◌∷◌, Text, is_empty,
  if◌then◌else◌,
}
use peer_bridge_cli.Routing.{Windows}
use peer_bridge_cli.Signaling.{JsonReader}
use peer_bridge_cli.System.State.{P2PSystem, new_system}
use peer_bridge_cli.System.Connection.{shutdown}
use peer_bridge_cli.System.Threads.{World, initialize_system}
use peer_bridge_cli.Cli.{Command, parse_command, execute}
use peer_bridge_cli.Run.{Event, step, typed_line, leave_main}

-- `g_running`, the system, whether the input thread reads, and whether the main thread has left its
-- loop and waits for the input thread.
pub record Program : Type 0 where
  pub g_running : Bool
  pub system : P2PSystem
  pub reading : Bool
  pub joining : Bool

-- The program goes on, or it ends with a code and leaves a system, if it made one. A null pointer
-- that is followed, a read beyond a buffer and an exception in `initialize` or on the monitor thread
-- are `undefined`.
pub data Outcome : Type 0 where
  runs : Program → Outcome
  exits : ℕ → Option P2PSystem → Outcome
  undefined : Outcome

-- A handler or a line; a signal that `signalHandler` takes; a signal or an uncaught exception that
-- ends in `_Exit`.
pub data Happening : Type 0 where
  of_system : Event → Happening
  interrupt fatal : Happening

abbrev pub is_quit : Command → Bool
is_quit Command.quit = true
is_quit _ = false

module _ (windows : Windows) where
  -- The global pointer is destroyed after `main`, or after its early `return 1`.
  unfoldable pub destroy : ℕ → ℕ → P2PSystem → Outcome
  destroy now code s = elim (shutdown windows now s) [
    | none ↦ undefined
    | some t ↦ exits code (some t)
  ]

  -- The input thread is joined once it reads no more.
  unfoldable pub join : ℕ → Program → Outcome
  join now p = if p.joining && not p.reading then destroy now 0 p.system else runs p

  -- One round of `inputThreadFunc`, once it has a line. An exception ends in `_Exit`,
  -- and the client that is kept is the one before the line.
  unfoldable pub read_line : ℕ → Text → Program → Outcome
  read_line now line p =
      if not p.reading
      then runs p
      else let command = parse_command line in
        let g_running = p.g_running && not (is_quit command) in
        elim (execute windows now command p.system) [
          | none ↦ exits 1 (some p.system)
          | some t ↦ join now (record p { g_running = g_running; system = t; reading = g_running })
        ]

  -- The main thread looks at `g_running`.
  unfoldable pub main_turn : ℕ → Program → Outcome
  main_turn now p =
      if p.joining || p.g_running then runs p else elim (shutdown windows now p.system) [
        | none ↦ undefined
        | some t ↦ join now (record p { system = t; joining = true })
      ]

  module _ {J : Type 0} (reader : JsonReader J) (make_address : Text → Option Text) where
    unfoldable pub happen : ℕ → Happening → Program → Outcome
    happen now (of_system (typed_line line)) p = read_line now line p
    happen now (of_system leave_main) p = main_turn now p
    happen now (of_system e) p = elim (step reader windows make_address now e p.system) [
      | none ↦ undefined
      | some t ↦ runs (record p { system = t })
    ]
    happen now interrupt p = runs (record p { g_running = false })
    happen now fatal p = exits 1 (some p.system)

    unfoldable pub go_on : List (ℕ × Happening) → Outcome → Outcome
    go_on [] o = o
    go_on ((now, h) ∷ rest) (runs p) = go_on rest (happen now h p)
    go_on (h ∷ rest) o = o

    -- `main`, up to the start of its loop.
    unfoldable pub begin : World → Text → Outcome
    begin w username =
        if is_empty username then exits 1 none else elim (initialize_system w username new_system) [
          | none ↦ undefined
          | some (s, ok) ↦
              if not ok
              then destroy w.now 1 s
              else runs (record { g_running = true; system = s; reading = true; joining = false })
        ]

    unfoldable pub main : World → Text → List (ℕ × Happening) → Outcome
    main w username happenings = go_on happenings (begin w username)
