-- ===== src/Main/Ends.antt =====
-- How the program ends.
use peer_bridge_cli.Common.{
  OnSome-any, arith, OnSome-bind, OnSome-some, ℕ, zero, suc, ◌≡◌, refl, ap, Bool, true, false, not,
  Option, none, some, List, [], ◌∷◌, Text, if◌then◌else◌, OnSome, if_both, subst, sym, ◌&&◌, ◌||◌,
  is_empty,
}
use peer_bridge_cli.StateManager.{shutting_down}
use peer_bridge_cli.Routing.{Windows}
use peer_bridge_cli.Signaling.{JsonReader}
use peer_bridge_cli.Signaling.{SignalingClient, disconnect}
use peer_bridge_cli.System.State.{P2PSystem, new_system, is_linked, is_tunnelling}
use peer_bridge_cli.Network.Connection
use peer_bridge_cli.System.State.{with_state}
use peer_bridge_cli.System.Connection.{shutdown, stop_network_interface, on_net, close_tun}
use peer_bridge_cli.System.Threads.{World, initialize_system}
use peer_bridge_cli.Cli.{Command, parse_command, execute}
use peer_bridge_cli.Run.{typed_line, leave_main}
use peer_bridge_cli.Run.Ready.{is_ready, Goes, execute-ready, is_garbled, shutdown-Goes}
use peer_bridge_cli.Run.Progress.{shutdown_lem}
use peer_bridge_cli.Run.Shutdown.{shutdown-Off}
use peer_bridge_cli.Run.Off.{Off, off-untunnelled, off-unlinked}
use peer_bridge_cli.Main.{
  Program, Outcome, runs, exits, undefined, is_quit, Happening, of_system, interrupt, fatal,
  destroy, join, read_line, main_turn, happen, go_on, begin, main,
}

-- A program that ends with the code 0 has shut its client down.
unfoldable Clean : Outcome → Type 0
Clean (runs p) = Unit
Clean (exits zero none) = ⊥
Clean (exits zero (some t)) = Off t
Clean (exits (suc code) o) = Unit
Clean undefined = Unit

module _ (windows : Windows) where
  destroyed-Clean :
      (code : ℕ) (o : Option P2PSystem)
      → OnSome Off o
      → Clean (elim o [ none ↦ undefined | some t ↦ exits code (some t) ])
  unfolding Clean
  destroyed-Clean code none h = tt
  destroyed-Clean zero (some t) h = h
  destroyed-Clean (suc code) (some t) h = tt

  destroy-Clean : (now code : ℕ) (s : P2PSystem) → Clean (destroy windows now code s)
  unfolding destroy
  destroy-Clean now code s = destroyed-Clean code _ (shutdown-Off windows now s)

  join-Clean : (now : ℕ) (p : Program) → Clean (join windows now p)
  unfolding join Clean
  join-Clean now p =
      if_both Clean (p.joining && not p.reading) _ _ (destroy-Clean now 0 p.system) tt

  read-Clean :
      (now : ℕ) (g_running : Bool) (p : Program) (o : Option P2PSystem)
      → Clean (elim o [
        | none ↦ exits 1 (some p.system)
        | some t ↦
            join windows now (record p { g_running = g_running; system = t; reading = g_running })
      ])
  unfolding Clean
  read-Clean now g p none = tt
  read-Clean now g p (some t) = join-Clean now _

  read_line-Clean : (now : ℕ) (line : Text) (p : Program) → Clean (read_line windows now line p)
  unfolding read_line Clean
  read_line-Clean now line p =
      let c = parse_command line in
      if_both Clean (not p.reading) _ _ tt
        (read-Clean now (p.g_running && not (is_quit c)) p (execute windows now c p.system))

  stopped-Clean :
      (now : ℕ) (o : Option P2PSystem) (p : Program)
      → Clean (elim o [
        | none ↦ undefined
        | some t ↦ join windows now (record p { system = t; joining = true })
      ])
  unfolding Clean
  stopped-Clean now none p = tt
  stopped-Clean now (some t) p = join-Clean now _

  main_turn-Clean : (now : ℕ) (p : Program) → Clean (main_turn windows now p)
  unfolding main_turn Clean
  main_turn-Clean now p =
      if_both Clean (p.joining || p.g_running) _ _ tt
        (stopped-Clean now (shutdown windows now p.system) p)

  module _ {J : Type 0} (reader : JsonReader J) (make_address : Text → Option Text) where
    stepped-Clean :
        (o : Option P2PSystem) (p : Program)
        → Clean (elim o [ none ↦ undefined | some t ↦ runs (record p { system = t }) ])
    unfolding Clean
    stepped-Clean none p = tt
    stepped-Clean (some t) p = tt

    happen-Clean :
        (now : ℕ) (h : Happening) (p : Program) → Clean (happen windows reader make_address now h p)
    unfolding happen Clean
    happen-Clean now (of_system (typed_line line)) p = read_line-Clean now line p
    happen-Clean now (of_system leave_main) p = main_turn-Clean now p
    happen-Clean now (of_system e) p = stepped-Clean _ p
    happen-Clean now interrupt p = tt
    happen-Clean now fatal p = tt

    go_on-Clean :
        (hs : List (ℕ × Happening)) (o : Outcome)
        → Clean o
        → Clean (go_on windows reader make_address hs o)
    unfolding go_on Clean
    go_on-Clean [] o c = c
    go_on-Clean ((now, h) ∷ rest) (runs p) c = go_on-Clean rest _ (happen-Clean now h p)
    go_on-Clean (h ∷ rest) (exits code o) c = c
    go_on-Clean (h ∷ rest) undefined c = c

    started-Clean :
        (now : ℕ) (o : Option (P2PSystem × Bool))
        → Clean (elim o [
          | none ↦ undefined
          | some (s, ok) ↦
              if not ok
              then destroy windows now 1 s
              else runs (record { g_running = true; system = s; reading = true; joining = false })
        ])
    unfolding Clean
    started-Clean now none = tt
    started-Clean now (some (s, ok)) = if_both Clean (not ok) _ _ (destroy-Clean now 1 s) tt

    begin-Clean :
        (w : World) (username : Text) → Clean (begin windows reader make_address w username)
    unfolding begin Clean
    begin-Clean w username =
        if_both Clean (is_empty username) _ _ tt
          (started-Clean w.now (initialize_system w username new_system))

    -- However the program was started and whatever happened to it, if it ends with the code 0 then
    -- its client is there and has been shut down: the state is shutting down, the tunnel and the
    -- link are off, and the connection to the server is closed.
    pub main-exit_zero :
        (w : World) (username : Text) (hs : List (ℕ × Happening)) (o : Option P2PSystem)
        → main windows reader make_address w username hs ≡ exits 0 o
        → (t : P2PSystem) × (o ≡ some t)
          × (t.manager.current_state ≡ shutting_down)
          × (is_tunnelling t ≡ false)
          × (is_linked t ≡ false)
          × (t.signaling.connected ≡ false)
    unfolding main Clean
    main-exit_zero w username hs o h = after o (
        subst Clean h
          (go_on-Clean hs (begin windows reader make_address w username) (begin-Clean w username)))
      where
        after :
            (o : Option P2PSystem)
            → Clean (exits 0 o)
            → (t : P2PSystem) × (o ≡ some t)
              × (t.manager.current_state ≡ shutting_down)
              × (is_tunnelling t ≡ false)
              × (is_linked t ≡ false)
              × (t.signaling.connected ≡ false)
        after none c = absurd c
        after (some t) c =
            (t, refl, c.state, off-untunnelled t c.tun, off-unlinked t c.net, c.signaling)

    -- The program ends with code 0, and the client in it is off.
    abbrev pub ExitsWell : Outcome → Type 0
    ExitsWell o =
        (t : P2PSystem) × (o ≡ exits 0 (some t))
        × (t.manager.current_state ≡ shutting_down)
        × (is_tunnelling t ≡ false)
        × (t.running ≡ false)

    destroy-ExitsWell :
        (now : ℕ) (s : P2PSystem) → is_ready s ≡ true → ExitsWell (destroy windows now 0 s)
    unfolding destroy
    destroy-ExitsWell now s h =
        let (t, e, a, b, c) = shutdown_lem windows now s h in
        (
          t,
          ap (λ (o : Option P2PSystem). elim o [ none ↦ undefined | some u ↦ exits 0 (some u) ]) e,
          a,
          b,
          c,
        )

    -- The program at work, as `begin` leaves it.
    abbrev pub at_work : P2PSystem → Program
    at_work s = record { g_running = true; system = s; reading = true; joining = false }

    shutdown-ready :
        (now : ℕ) (s : P2PSystem)
        → is_ready s ≡ true
        → (t : P2PSystem) × (shutdown windows now s ≡ some t) × (is_ready t ≡ true)
    shutdown-ready now s h = found (shutdown windows now s) (shutdown-Goes windows now s h)
      where
        found :
            (o : Option P2PSystem) → Goes o → (t : P2PSystem) × (o ≡ some t) × (is_ready t ≡ true)
        found none g = absurd g
        found (some t) g = (t, refl, g)

    quit-executes :
        (now : ℕ) (c : Command) (s : P2PSystem)
        → is_quit c ≡ true
        → execute windows now c s ≡ some s
    unfolding execute
    quit-executes now Command.quit s q = refl
    quit-executes now (Command.connect peer) s q = cc
    quit-executes now Command.disconnect s q = cc
    quit-executes now Command.accept s q = cc
    quit-executes now Command.reject s q = cc
    quit-executes now Command.help s q = cc
    quit-executes now Command.status s q = cc
    quit-executes now Command.ip s q = cc
    quit-executes now Command.unknown s q = cc

    offline-clear :
        (c : Command) (s : P2PSystem) → s.signaling.connected ≡ false → is_garbled c s ≡ false
    offline-clear (Command.connect peer) s off = ground arith
    offline-clear _ s off = refl

    disconnect-off : (c : SignalingClient) → (disconnect c).connected ≡ false
    unfolding disconnect
    disconnect-off c = ground arith

    -- The shutdown takes the client off the signaling server.
    shutdown-offline :
        (now : ℕ) (s : P2PSystem)
        → OnSome (λ t. t.signaling.connected ≡ false) (shutdown windows now s)
    unfolding shutdown disconnect
    shutdown-offline now s =
        let off = λ (t : P2PSystem). t.signaling.connected ≡ false in
        let any = λ (t : P2PSystem). Unit {0} in
        let s₁ : P2PSystem =
          if is_linked s
          then stop_network_interface windows (on_net (Connection.stop_connection now) s)
          else s in
        let s₂ : P2PSystem = with_state shutting_down (record s₁ { running = false }) in
        let a = stop_network_interface windows s₂ in
        OnSome-bind any off (close_tun a) _ (OnSome-any (close_tun a)) λ t p.
          let b = on_net (Connection.shutdown now) t in
          OnSome-bind any off (close_tun b) _ (OnSome-any (close_tun b))
            λ u q. disconnect-off u.signaling

    quit-ExitsWell :
        (a b : ℕ) (line : Text) (s : P2PSystem)
        → is_quit (parse_command line) ≡ true
        → is_ready s ≡ true
        → ExitsWell (
            go_on windows reader make_address
              ((a, of_system (typed_line line)) ∷ (b, of_system leave_main) ∷ [])
              (runs (at_work s)))
    unfolding go_on happen read_line main_turn join
    quit-ExitsWell a b line s q h =
        let (t, e, r) = shutdown-ready b s h in
        let after : Bool → Outcome = λ quits.
          main_turn windows b
            (record { g_running = not quits; system = s; reading = not quits; joining = false }) in
        let stopped : Option P2PSystem → Outcome =
          λ o. elim o [ none ↦ undefined | some u ↦ destroy windows b 0 u ] in
        let quits = is_quit (parse_command line) in
        let read : Option P2PSystem → Outcome = λ o.
          go_on windows reader make_address ((b, of_system leave_main) ∷ []) (elim o [
            | none ↦ exits 1 (some s)
            | some u ↦
                join windows a (record {
                  g_running = not quits;
                  system = u;
                  reading = not quits;
                  joining = false;
                })
          ]) in
        subst (λ o. ExitsWell (read o)) (sym (quit-executes a (parse_command line) s q))
          (subst (λ quits. ExitsWell (after quits)) (sym q)
            (subst (λ o. ExitsWell (stopped o)) (sym e) (destroy-ExitsWell b t r)))

    -- What the last line does once the client has been shut down.
    last-ExitsWell :
        (now : ℕ) (s : P2PSystem) (o : Option P2PSystem)
        → Goes o
        → ExitsWell (elim o [
          | none ↦ exits 1 (some s)
          | some u ↦
              join windows now
                (record { g_running = false; system = u; reading = false; joining = true })
        ])
    unfolding join
    last-ExitsWell now s none g = absurd g
    last-ExitsWell now s (some u) g = destroy-ExitsWell now u g

    interrupt-ExitsWell :
        (a b c : ℕ) (line : Text) (s : P2PSystem)
        → is_ready s ≡ true
        → ExitsWell (
            go_on windows reader make_address
              ((a, interrupt) ∷ (b, of_system leave_main) ∷ (c, of_system (typed_line line)) ∷ [])
              (runs (at_work s)))
    unfolding go_on happen read_line main_turn join
    interrupt-ExitsWell a b c line s h =
        let (t, e, r) = shutdown-ready b s h in
        let stopped : Option P2PSystem → Outcome = λ o.
          go_on windows reader make_address ((c, of_system (typed_line line)) ∷ []) (elim o [
            | none ↦ undefined
            | some u ↦
                runs (record { g_running = false; system = u; reading = true; joining = true })
          ]) in
        subst (λ o. ExitsWell (stopped o)) (sym e)
          (last-ExitsWell c t _ (
            execute-ready windows c (parse_command line) t r
              (offline-clear (parse_command line) t (OnSome-some _ _ (shutdown-offline b s) e))))

    -- A program at work whose client has its link and its tunnel ends with the code 0 and its
    -- client shut down, once the user has typed a line that quits and the main thread has looked
    -- at the flag; and likewise once an interrupt has come, the main thread has looked at the
    -- flag, and the user has typed one more line, whatever it says.
    pub main-ExitsWell :
        (a b c : ℕ) (line last : Text) (s : P2PSystem)
        → is_quit (parse_command line) ≡ true
        → is_ready s ≡ true
        → ExitsWell (
            go_on windows reader make_address
              ((a, of_system (typed_line line)) ∷ (b, of_system leave_main) ∷ [])
              (runs (at_work s)))
          × ExitsWell (
              go_on windows reader make_address
                ((a, interrupt) ∷ (b, of_system leave_main) ∷ (c, of_system (typed_line last)) ∷ [])
                (runs (at_work s)))
    main-ExitsWell a b c line last s q h =
        (quit-ExitsWell a b line s q h, interrupt-ExitsWell a b c last s h)
