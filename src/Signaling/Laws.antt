-- ===== src/Signaling/Laws.antt =====
-- What reaches the callbacks, what is sent, and how long a connection is waited for.
use peer_bridge_cli.Common.{
  ℕ, zero, suc, ◌+◌, ◌≡◌, refl, sym, ap, ◌∙◌, inl, inr, Bool, true, false, ◌||◌, none, some, [],
  Text, codes, text_eq, text_eq_iff, arith, if◌then◌else◌, if_both, Bool-cases,
}
use peer_bridge_cli.Common.Int.{ℤ, pos}
use peer_bridge_cli.Signaling.{
  call, Access, ◌>>=◌, found, throws, missing, JsonReader, SignalingClient, Callback, on_chat_init,
  Handled, returned, handle_peer_info, handle_chat_request, handle_chat_init, handle_typed,
  handle_json_message, handle_text, wait_rounds, connect,
}

module _ (looks : ℕ → Bool) (stays : (j : ℕ) → looks j ≡ true → looks (suc j) ≡ true) where
  looks-later : (r k : ℕ) → looks k ≡ true → looks (r + k) ≡ true
  looks-later zero k h = ap looks (omega arith) ∙ h
  looks-later (suc r) k h = ap looks (omega arith) ∙ stays (r + k) (looks-later r k h)

  wait_rounds-stays : (r k : ℕ) → looks (wait_rounds r k looks) ≡ looks (r + k)
  unfolding wait_rounds
  wait_rounds-stays zero k = ap looks (omega arith)
  wait_rounds-stays (suc r) k = elim (Bool-cases (looks k)) [
    | inl e ↦ simp (e, stays k e, looks-later (suc r) k e)
    | inr e ↦ simp (e) (wait_rounds-stays r (suc k) ∙ ap looks (omega arith))
  ]

  -- The connection to the server is reported if it is there already or if the flag is set at the
  -- fiftieth look, which ends the wait of five seconds, and is not reported otherwise; the client
  -- is then connected as reported. A flag that is set stays set while the client waits.
  connect-looks :
      (opens : ℕ) (c : SignalingClient)
      → ((connect looks opens c).1 ≡ (c.connected || looks 50))
        × ((connect looks opens c).0.connected ≡ (connect looks opens c).1)
  unfolding connect
  connect-looks opens c = ground (arith, wait_rounds-stays 50 0)

bound-some :
    {A : Type 0} (a : Access A) (f : A → Handled) (x : Callback)
    → (a >>= f) ≡ returned (some x)
    → (v : A) × (a ≡ found v) × (f v ≡ returned (some x))
bound-some (found v) f x h = (v, refl, h)
bound-some throws f x h = cc
bound-some missing f x h = cc

called :
    (c : SignalingClient) (x y : Callback)
    → call c x ≡ returned (some y)
    → (x ≡ y) × (c.has_callbacks ≡ true)
called c x y h = ground arith

name_of : Callback → Text
name_of (on_chat_init name ip port) = name
name_of _ = []

ip_of : Callback → Text
ip_of (on_chat_init name ip port) = ip
ip_of _ = []

port_of : Callback → ℤ
port_of (on_chat_init name ip port) = port
port_of _ = pos 0

module _ {J : Type 0} (reader : JsonReader J) where
  open reader use {parse, type_of, string_at, int_at, printed_at}

  handle_chat_init-fields :
      (msg : J) (c : SignalingClient) (name ip : Text) (port : ℤ)
      → handle_chat_init reader msg c ≡ returned (some (on_chat_init name ip port))
      → (string_at msg (codes "ip") ≡ found ip)
        × (int_at msg (codes "port") ≡ found port)
        × (string_at msg (codes "username") ≡ found name)
        × (c.has_callbacks ≡ true)
  unfolding handle_chat_init name_of ip_of port_of
  handle_chat_init-fields msg c name ip port h =
      let (i, a, f) = bound-some (string_at msg (codes "ip")) _ _ h in
      let (p, b, g) = bound-some (int_at msg (codes "port")) _ _ f in
      let (n, d, k) = bound-some (string_at msg (codes "username")) _ _ g in
      let (same, on) = called c _ _ k in
      (
        a ∙ ap found (ap ip_of same),
        b ∙ ap found (ap port_of same),
        d ∙ ap found (ap name_of same),
        on,
      )

  is_init : Callback → Bool
  is_init (on_chat_init name ip port) = true
  is_init _ = false

  -- A result that is no call of the callback of a chat-init.
  Harmless : Handled → Type 0
  Harmless r = (x : Callback) → r ≡ returned (some x) → is_init x ≡ false

  skip :
      (b : Bool) (x y : Handled) (z : Callback)
      → is_init z ≡ true
      → Harmless x
      → (if b then x else y) ≡ returned (some z)
      → y ≡ returned (some z)
  unfolding Harmless
  skip true x y z i harmless h = let k = harmless z h in cc
  skip false x y z i harmless h = h

  printed-Harmless : (a : Access (Unit {0})) → Harmless (a >>= λ _. returned none)
  unfolding Harmless
  printed-Harmless a x h = let (u, _, k) = bound-some a (λ _. returned none) x h in cc

  called-Harmless :
      (c : SignalingClient) (y x : Callback)
      → is_init y ≡ false
      → call c y ≡ returned (some x)
      → is_init x ≡ false
  called-Harmless c y x i h = ap is_init (sym (called c y x h).0) ∙ i

  peer_info-Harmless : (msg : J) (c : SignalingClient) → Harmless (handle_peer_info reader msg c)
  unfolding Harmless handle_peer_info is_init
  peer_info-Harmless msg c x h =
      let (n, _, f) = bound-some (string_at msg (codes "username")) _ x h in
      let (i, _, g) = bound-some (string_at msg (codes "ip")) _ x f in
      let (p, _, k) = bound-some (int_at msg (codes "port")) _ x g in called-Harmless c _ x refl k

  chat_request-Harmless :
      (msg : J) (c : SignalingClient) → Harmless (handle_chat_request reader msg c)
  unfolding Harmless handle_chat_request is_init
  chat_request-Harmless msg c x h =
      let (n, _, k) = bound-some (string_at msg (codes "from")) _ x h in
      called-Harmless c _ x refl k

  choose :
      (b : Bool) (x y : Handled) (z : Callback)
      → is_init z ≡ true
      → Harmless y
      → (if b then x else y) ≡ returned (some z)
      → (b ≡ true) × (x ≡ returned (some z))
  unfolding Harmless
  choose true x y z i harmless h = (refl, h)
  choose false x y z i harmless h = let k = harmless z h in cc

  handle_typed-chat_init :
      (type : Text) (msg : J) (c : SignalingClient) (name ip : Text) (port : ℤ)
      → handle_typed reader type msg c ≡ returned (some (on_chat_init name ip port))
      → (type ≡ codes "chat-init")
        × (handle_chat_init reader msg c ≡ returned (some (on_chat_init name ip port)))
  unfolding handle_typed is_init Harmless
  handle_typed-chat_init type msg c name ip port h =
      let z = on_chat_init name ip port in
      let greet = skip (text_eq type (codes "greet-back")) _ _ z refl (printed-Harmless _) h in
      let register =
        skip (text_eq type (codes "register-ack")) _ _ z refl (printed-Harmless _) greet in
      let your = skip (text_eq type (codes "your-name")) _ _ z refl (printed-Harmless _) register in
      let info =
        skip (text_eq type (codes "peer-info")) _ _ z refl (peer_info-Harmless msg c) your in
      let asked =
        skip (text_eq type (codes "chat-request")) _ _ z refl (chat_request-Harmless msg c) info in
      let (e, k) =
        choose (text_eq type (codes "chat-init")) _ _ z refl
          (λ x.
            if_both (λ r. r ≡ returned (some x) → is_init x ≡ false) (text_eq type (codes "error"))
              _ _ (printed-Harmless (printed_at msg (codes "message")) x) (λ d. cc))
          asked in
      ((text_eq_iff type (codes "chat-init")).0 e, k)

  handle_text-json :
      (s : Text) (c : SignalingClient) (x : Callback)
      → handle_text reader s c ≡ returned (some x)
      → (msg : J) × (parse s ≡ some msg) × (handle_json_message reader msg c ≡ returned (some x))
  unfolding handle_text
  handle_text-json s c x h = ground arith

  handle_json-typed :
      (msg : J) (c : SignalingClient) (x : Callback)
      → handle_json_message reader msg c ≡ returned (some x)
      → (type : Text) × (type_of msg ≡ some type)
        × (handle_typed reader type msg c ≡ returned (some x))
  unfolding handle_json_message
  handle_json-typed msg c x h = ground arith

  -- A text of the server leads to a call of the chat-init callback only if it parses, is of the
  -- type chat-init, and has the three values of the call at its keys, and only if the callbacks
  -- are set.
  pub handle_text-on_chat_init :
      (s : Text) (c : SignalingClient) (name ip : Text) (port : ℤ)
      → handle_text reader s c ≡ returned (some (on_chat_init name ip port))
      → (msg : J) × (parse s ≡ some msg)
        × (type_of msg ≡ some (codes "chat-init"))
        × (string_at msg (codes "ip") ≡ found ip)
        × (int_at msg (codes "port") ≡ found port)
        × (string_at msg (codes "username") ≡ found name)
        × (c.has_callbacks ≡ true)
  handle_text-on_chat_init s c name ip port h =
      let (msg, p, j) = handle_text-json s c (on_chat_init name ip port) h in
      let (type, t, k) = handle_json-typed msg c (on_chat_init name ip port) j in
      let (e, init) = handle_typed-chat_init type msg c name ip port k in
      let (i, q, n, on) = handle_chat_init-fields msg c name ip port init in
      (msg, p, t ∙ ap some e, i, q, n, on)
