-- ===== src/Signaling.antt =====
-- client/include/signaling.hpp and client/src/signaling.cpp: the client of the signaling server.
--
-- The WebSocket and the JSON library are not the program's. A parsed message is a value of a type
-- `J`, which is read through a `JsonReader`; a message to the server is kept as the object that the
-- client hands to `dump`.
pub mod Utf8
pub mod Laws
use peer_bridge_cli.Common.{
  ℕ, zero, suc, Bool, true, false, not, ◌&&◌, Option, none, some, List, [], ◌∷◌, ◌++◌, Text, codes,
  text_eq, if◌then◌else◌,
}
use peer_bridge_cli.Common.Int.{ℤ}
use peer_bridge_cli.Signaling.Utf8.{is_utf8}

-- A value of an object that the client writes.
pub data JsonValue : Type 0 where
  str : Text → JsonValue
  int : ℤ → JsonValue

abbrev pub JsonObject : Type 0
JsonObject = List (Text × JsonValue)

-- `data[key]` of a constant object: a value, a conversion that throws, or a key that is not there,
-- for which the library promises nothing.
pub data Access {ℓ} (A : Type ℓ) : Type ℓ where
  found : A → Access A
  throws : Access A
  missing : Access A

pub record JsonReader (J : Type 0) : Type 0 where
  -- `json::parse`, which throws at `none`.
  pub parse : Text → Option J
  -- `data.value("type", "")`, which throws at `none`.
  pub type_of : J → Option Text
  pub string_at : J → Text → Access Text
  pub int_at : J → Text → Access ℤ
  -- The value of a key that is only printed.
  pub printed_at : J → Text → Access (Unit {0})

pub record SignalingClient : Type 0 where
  pub connected : Bool
  pub started : Bool
  pub sent : List JsonObject
  -- The callbacks, all set at once by the system.
  pub has_callbacks : Bool

abbrev pub new_client : SignalingClient
new_client = record { connected = false; started = false; sent = []; has_callbacks = false }

-- A call of one of the four callbacks.
pub data Callback : Type 0 where
  on_connect : Bool → Callback
  on_chat_request : Text → Callback
  on_peer_info : Text → Text → ℤ → Callback
  on_chat_init : Text → Text → ℤ → Callback

-- A message from the socket.
pub data SocketMessage : Type 0 where
  text_message : Text → SocketMessage
  open_message close_message error_message : SocketMessage

-- A handler returns, having called a callback or not; or throws; or reads a key that is not there.
pub data Handled : Type 0 where
  returned : Option Callback → Handled
  thrown : Handled
  undefined : Handled

infixl 5 ◌>>=◌
abbrev pub ◌>>=◌ {ℓ} : {A : Type ℓ} → Access A → (A → Handled) → Handled
found a >>= f = f a
throws >>= f = thrown
missing >>= f = undefined

abbrev pub call : SignalingClient → Callback → Handled
call c callback = returned (if c.has_callbacks then some callback else none)

module _ {J : Type 0} (reader : JsonReader J) where
  open reader use {parse, type_of, string_at, int_at, printed_at}

  unfoldable pub handle_peer_info : J → SignalingClient → Handled
  handle_peer_info msg c = do
    peer_name ← string_at msg (codes "username")
    ip ← string_at msg (codes "ip")
    port ← int_at msg (codes "port")
    call c (on_peer_info peer_name ip port)

  unfoldable pub handle_chat_request : J → SignalingClient → Handled
  handle_chat_request msg c = do
    requester ← string_at msg (codes "from")
    call c (on_chat_request requester)

  unfoldable pub handle_chat_init : J → SignalingClient → Handled
  handle_chat_init msg c = do
    peer_ip ← string_at msg (codes "ip")
    peer_port ← int_at msg (codes "port")
    peer_username ← string_at msg (codes "username")
    call c (on_chat_init peer_username peer_ip peer_port)

  unfoldable pub handle_typed : Text → J → SignalingClient → Handled
  handle_typed type msg c =
      if text_eq type (codes "greet-back")
      then (printed_at msg (codes "message") >>= λ _. returned none)
      else if text_eq type (codes "register-ack")
      then (printed_at msg (codes "message") >>= λ _. returned none)
      else if text_eq type (codes "your-name")
      then (printed_at msg (codes "username") >>= λ _. returned none)
      else if text_eq type (codes "peer-info")
      then handle_peer_info msg c
      else if text_eq type (codes "chat-request")
      then handle_chat_request msg c
      else if text_eq type (codes "chat-init")
      then handle_chat_init msg c
      else if text_eq type (codes "error")
      then (printed_at msg (codes "message") >>= λ _. returned none)
      else returned none

  unfoldable pub handle_json_message : J → SignalingClient → Handled
  handle_json_message msg c = elim (type_of msg) [
    | none ↦ thrown
    | some type ↦ handle_typed type msg c
  ]

  -- What is thrown is caught here.
  unfoldable pub handle_text : Text → SignalingClient → Handled
  handle_text s c = elim (parse s) [
    | none ↦ returned none
    | some msg ↦ elim (handle_json_message msg c) [
      | returned callback ↦ returned callback
      | thrown ↦ returned none
      | undefined ↦ undefined
    ]
  ]

  unfoldable pub handle_message : SocketMessage → SignalingClient → SignalingClient × Handled
  handle_message (text_message s) c = (c, handle_text s c)
  handle_message open_message c =
      let d = record c { connected = true } in (d, call d (on_connect true))
  handle_message close_message c =
      let d = record c { connected = false } in (d, call d (on_connect false))
  handle_message error_message c =
      let d = record c { connected = false } in (d, call d (on_connect false))

-- `ws_->send(js.dump())`, behind the check that every request starts with; for an object whose
-- texts are all the program's own, which `dump` writes.
unfoldable pub send_json : JsonObject → SignalingClient → SignalingClient
send_json js c = if not c.connected then c else record c { sent = c.sent ++ js ∷ [] }

abbrev pub is_dumpable : JsonObject → Bool
is_dumpable [] = true
is_dumpable ((key, str value) ∷ js) = is_utf8 value && is_dumpable js
is_dumpable ((key, int value) ∷ js) = is_dumpable js

-- The same for an object with a text from outside: `none` is the exception that `dump` throws where
-- a text is not UTF-8.
unfoldable pub send_texts : JsonObject → JsonObject → SignalingClient → Option SignalingClient
send_texts own outside c =
    if c.connected && not (is_dumpable outside) then none else some (send_json (own ++ outside) c)

abbrev pub field : Text → Text → Text × JsonValue
field key value = (key, str value)

abbrev pub typed : Text → Text × JsonValue
typed type = field (codes "type") type

unfoldable pub send_greeting : SignalingClient → SignalingClient
send_greeting c = send_json (typed (codes "greeting") ∷ []) c

unfoldable pub register_user : Text → Text → ℤ → SignalingClient → Option SignalingClient
register_user username ip port c =
    send_texts (typed (codes "register") ∷ [])
      (field (codes "username") username ∷ field (codes "ip") ip ∷ (codes "port", int port) ∷ []) c

unfoldable pub request_username : SignalingClient → SignalingClient
request_username c = send_json (typed (codes "get-name") ∷ []) c

unfoldable pub request_peer_info : Text → SignalingClient → Option SignalingClient
request_peer_info username c =
    send_texts (typed (codes "get-peer") ∷ []) (field (codes "username") username ∷ []) c

unfoldable pub send_chat_request : Text → SignalingClient → Option SignalingClient
send_chat_request username c =
    send_texts (typed (codes "start-chat") ∷ []) (field (codes "target") username ∷ []) c

unfoldable pub accept_chat_request : SignalingClient → SignalingClient
accept_chat_request c = send_json (typed (codes "chat-accept") ∷ []) c

unfoldable pub decline_chat_request : SignalingClient → SignalingClient
decline_chat_request c = send_json (typed (codes "chat-decline") ∷ []) c

-- The loop of `connect` looks at the flag before each pause of 100 ms; `looks k` is what look `k`
-- finds, as the socket's thread changes the flag. The result is the number of the next look.
unfoldable pub wait_rounds : ℕ → ℕ → (ℕ → Bool) → ℕ
wait_rounds zero k looks = k
wait_rounds (suc r) k looks =
    let rest = wait_rounds r (suc k) looks in if looks k then suc k else rest

-- The Open messages that the socket's thread handles, one after another. The callback is the one
-- that the system sets, `sendGreeting`.
unfoldable pub opened : ℕ → SignalingClient → SignalingClient
opened zero c = c
opened (suc k) c =
    let d = record c { connected = true } in
    let e = if d.has_callbacks then send_greeting d else d in opened k e

-- `opens` of them are handled before the last look.
unfoldable pub connect : (ℕ → Bool) → ℕ → SignalingClient → SignalingClient × Bool
connect looks opens c =
    if c.connected
    then (c, true)
    else let greeted = opened opens c in
      if not (looks (wait_rounds 50 0 looks))
      then (record greeted { started = false; connected = false }, false)
      else (record greeted { started = true; connected = true }, true)

unfoldable pub set_callbacks : SignalingClient → SignalingClient
set_callbacks c = record c { has_callbacks = true }

unfoldable pub disconnect : SignalingClient → SignalingClient
disconnect c = if c.connected then record c { connected = false; started = false } else c
