-- ===== src/Tun/Laws.antt =====
-- The order of Wintun's handles, and the order of the packets (client/src/TUNInterface.cpp).
use peer_bridge_cli.Common.{
  inl, inr, ◌⊎◌, ◌≡◌, refl, sym, ap, subst, ◌∙◌, Bool, true, false, Option, none, some, List, [],
  ◌∷◌, ◌++◌, append-nil, append_assoc, Bytes, arith, length, is_empty, if◌then◌else◌,
}
use peer_bridge_cli.Tun.{
  Tun, new_tun, Wintun, initialize, start_packet_processing, stop_packet_processing, inject,
  send_round, send_packet, set_packet_callback, close,
}

-- One call on an interface, or one round of its send thread.
pub data Call : Type 0 where
  set_callback start stop shut : Call
  queue : Bytes → Call
  write : Bool → Call

pub perform : Call → Tun → Tun
perform Call.set_callback t = set_packet_callback t
perform Call.start t = (start_packet_processing t).0
perform Call.stop t = stop_packet_processing t
perform Call.shut t = close t
perform (Call.queue packet) t = (send_packet packet t).0
perform (Call.write allocated) t = elim (send_round allocated t) [ none ↦ t | some u ↦ u ]

-- The states that an interface comes to after `initialize`, whatever Wintun answered.
pub data Reached : Tun → Type 0 where
  begin : (w : Wintun) → Reached (initialize w new_tun).0
  after : {t : Tun} (c : Call) → Reached t → Reached (perform c t)

record Ordered (t : Tun) : Type 0 where
  runs : t.running ≡ true → t.session ≡ true
  serves : t.session ≡ true → t.adapter ≡ true
  loads : t.adapter ≡ true → t.module_loaded ≡ true
  joins : t.threads ≡ t.running

perform-Ordered : (c : Call) (t : Tun) → Ordered t → Ordered (perform c t)
unfolding perform set_packet_callback start_packet_processing stop_packet_processing close
    send_packet send_round inject
perform-Ordered Call.set_callback t o = record {
  runs = o.runs;
  serves = o.serves;
  loads = o.loads;
  joins = o.joins;
}
perform-Ordered Call.start t o = record {
  runs = ground (arith, o.runs, o.serves);
  serves = ground (arith, o.serves);
  loads = ground (arith, o.loads);
  joins = ground (arith, o.joins);
}
perform-Ordered Call.stop t o = record {
  runs = λ h. cc;
  serves = o.serves;
  loads = o.loads;
  joins = refl;
}
perform-Ordered Call.shut t o = record {
  runs = ground (arith, o.runs);
  serves = ground (arith, o.serves);
  loads = ground (arith, o.loads);
  joins = ground (arith, o.joins);
}
perform-Ordered (Call.queue packet) t o = record {
  runs = ground (arith, o.runs);
  serves = ground (arith, o.serves);
  loads = ground (arith, o.loads);
  joins = ground (arith, o.joins);
}
perform-Ordered (Call.write allocated) t o = record {
  runs = ground (arith, o.runs);
  serves = ground (arith, o.serves);
  loads = ground (arith, o.loads);
  joins = ground (arith, o.joins);
}

initialize-Ordered : (w : Wintun) → Ordered (initialize w new_tun).0
unfolding initialize
initialize-Ordered w = record {
  runs = ground arith;
  serves = ground arith;
  loads = ground arith;
  joins = ground arith;
}

Reached-Ordered : {t : Tun} → Reached t → Ordered t
Reached-Ordered (begin w) = initialize-Ordered w
Reached-Ordered (after {t} c r) = perform-Ordered c t (Reached-Ordered r)

implies : (a b : Bool) → (a ≡ true → b ≡ true) → (a ≡ false) ⊎ (b ≡ true)
implies true b h = inr (h refl)
implies false b h = inl refl

-- In every state that the tunnel comes to after its initialisation, a running tunnel has its
-- session, a session has its adapter, an adapter has its library, and the threads are there
-- exactly while the tunnel runs.
pub Reached-handles :
    {t : Tun}
    → Reached t
    → ((t.running ≡ false) ⊎ (t.session ≡ true))
      × ((t.session ≡ false) ⊎ (t.adapter ≡ true))
      × ((t.adapter ≡ false) ⊎ (t.module_loaded ≡ true))
      × (t.threads ≡ t.running)
Reached-handles {t} r =
    let o = Reached-Ordered r in
    (
      implies t.running t.session o.runs,
      implies t.session t.adapter o.serves,
      implies t.adapter t.module_loaded o.loads,
      o.joins,
    )

-- The send thread's rounds, one for each answer of Wintun to the request for a buffer.
pub send_rounds : List Bool → Tun → Option Tun
send_rounds [] t = some t
send_rounds (allocated ∷ rest) t = elim (send_round allocated t) [
  | none ↦ none
  | some u ↦ send_rounds rest u
]

-- The packets that have bytes and get a buffer.
pub accepted : List Bool → List Bytes → List Bytes
accepted (allocated ∷ rest) (packet ∷ packets) =
    if is_empty packet
    then accepted rest packets
    else if allocated
    then packet ∷ accepted rest packets
    else accepted rest packets
accepted _ _ = []

rounds-queue :
    (answers : List Bool) (queue : List Bytes) (t : Tun)
    → length answers ≡ length queue
    → send_rounds answers (record t { running = true; outgoing = queue })
      ≡ some (record t {
        running = true;
        outgoing = [];
        injected = t.injected ++ accepted answers queue;
      })
unfolding send_rounds accepted send_round inject
rounds-queue [] [] t same = simp append-nil
rounds-queue (a ∷ rest) [] t same = absurd (omega arith)
rounds-queue [] (p ∷ q) t same = absurd (omega arith)
rounds-queue (a ∷ rest) ([] ∷ q) t same = rounds-queue rest q t (omega arith)
rounds-queue (true ∷ rest) ((b ∷ p) ∷ q) t same =
    rounds-queue rest q (record t { injected = t.injected ++ (b ∷ p) ∷ [] }) (omega arith)
    ∙ simp append_assoc
rounds-queue (false ∷ rest) ((b ∷ p) ∷ q) t same = rounds-queue rest q t (omega arith)

-- As many rounds of the send thread of a running tunnel as there are packets in its queue empty
-- the queue, and inject the packets in their order, except those that are empty and those for
-- which Wintun gave no buffer.
pub send_rounds-outgoing :
    (answers : List Bool) (t : Tun)
    → t.running ≡ true
    → length answers ≡ length t.outgoing
    → send_rounds answers t
      ≡ some (record t { outgoing = []; injected = t.injected ++ accepted answers t.outgoing })
send_rounds-outgoing answers t on same =
    subst
      (λ u.
        send_rounds answers u
        ≡ some (record u { outgoing = []; injected = u.injected ++ accepted answers u.outgoing }))
      (ap (λ b. record t { running = b }) (sym on)) (rounds-queue answers t.outgoing t same)
