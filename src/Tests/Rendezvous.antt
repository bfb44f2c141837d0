-- ===== src/Tests/Rendezvous.antt =====
-- Examples of the signaling server, and of two clients that it brings together.
use peer_bridge_cli.Common.{
  ◌≡◌, refl, inl, ℕ, Bool, true, Option, none, some, [], ◌∷◌, ◌++◌, Text, codes, text_eq, arith,
}
use peer_bridge_cli.Common.Int.{ℤ, pos, to_u16}
use peer_bridge_cli.Common.Dict.{get}
use peer_bridge_cli.Signaling.{
  JsonReader, JsonObject, JsonValue, str, int, Access, found, throws, missing, text_message,
}
use peer_bridge_cli.Server.{dict, received, introduction, chat_request}
use peer_bridge_cli.Server.State.{User, Server}
use peer_bridge_cli.Server.Users.{Registered}
use peer_bridge_cli.Server.Values.{text_key, json_values}
use peer_bridge_cli.Signaling.Utf8.{is_utf8}
use peer_bridge_cli.System.State.{P2PSystem}
use peer_bridge_cli.Run.{run, typed_line, from_server}
use peer_bridge_cli.Run.Handshake.{Standby, Reaches}
use peer_bridge_cli.Run.Messages.{Reads}
use peer_bridge_cli.Run.Requests.{get_peer_object, start_chat_object, accept_object}
use peer_bridge_cli.Run.Meeting.{Present, request-Joined}
use peer_bridge_cli.Tests.Fixtures.{resting, willing, ready_client}
use peer_bridge_cli.Tests.Meeting.{quiet_tunnel, calm_host, calm_guest, willing-Obeys}

abbrev pub ana : User JsonValue
ana = record {
  websocket = 1;
  username = str (codes "ana");
  ip = str (codes "192.168.1.2");
  port = int (pos 5000);
  pending_chat_request = none;
}

abbrev bob : User JsonValue
bob = record {
  websocket = 2;
  username = str (codes "bob");
  ip = str (codes "203.0.113.9");
  port = int (pos 6000);
  pending_chat_request = none;
}

abbrev pub both_known : Server JsonValue
both_known = record {
  users = ana ∷ bob ∷ [];
  connected_users = (1, 0) ∷ (2, 1) ∷ [];
  username_to_user = (str (codes "ana"), 0) ∷ (str (codes "bob"), 1) ∷ [];
  handlers = (1, some 0) ∷ (2, some 1) ∷ [];
  sent = [];
}

abbrev pub shown : JsonValue → Text
shown (str t) = t
shown (int n) = codes "0"

pub ana-Registered : Registered (json_values shown) both_known 1 0 ana
unfolding get text_eq
ana-Registered = record {
  handler = refl;
  object = refl;
  socket = refl;
  named = refl;
  hashable = refl;
  truthy = refl;
}

bob-Registered : Registered (json_values shown) both_known 2 1 bob
unfolding get text_eq
bob-Registered = record {
  handler = refl;
  object = refl;
  socket = refl;
  named = refl;
  hashable = refl;
  truthy = refl;
}

-- A library whose texts are the numbers of four objects.
abbrev objects : Text → Option JsonObject
objects said = get text_key said (
    (codes "1", introduction (json_values shown) (codes "peer-info") bob)
    ∷ (codes "2", chat_request (json_values shown) ana)
    ∷ (codes "3", introduction (json_values shown) (codes "chat-init") bob)
    ∷ (codes "4", introduction (json_values shown) (codes "chat-init") ana)
    ∷ [])

abbrev as_string : Option JsonValue → Access Text
as_string none = missing
as_string (some (str t)) = found t
as_string (some (int n)) = throws

abbrev as_int : Option JsonValue → Access ℤ
as_int none = missing
as_int (some (str t)) = throws
as_int (some (int n)) = found n

abbrev as_type : Option JsonValue → Option Text
as_type none = some []
as_type (some (str t)) = some t
as_type (some (int n)) = none

abbrev numbered : JsonReader JsonObject
numbered = record {
  parse = objects;
  type_of = λ o. as_type (get text_key (codes "type") o);
  string_at = λ o key. as_string (get text_key key o);
  int_at = λ o key. as_int (get text_key key o);
  printed_at = λ o key. found tt;
}

-- The text is the number of the object.
numbered-Reads : (said : Text) (o : JsonObject) → objects said ≡ some o → Reads numbered said o
numbered-Reads said o e = record {
  value = o;
  parsed = e;
  typed = λ t h. rw h refl;
  strings = λ key t h. rw h refl;
  ints = λ key n h. rw h refl;
}

abbrev asker : P2PSystem
asker = record calm_guest { signaling = ready_client }

abbrev pub other : P2PSystem
other = record calm_host { signaling = ready_client }

asker-Standby : Standby asker resting quiet_tunnel
asker-Standby = record {
  net = refl;
  tun = refl;
  manager = inl refl;
  unconnected = refl;
  small = omega arith;
  adapter = refl;
  session = refl;
  still = refl;
}

other-Standby : Standby other resting quiet_tunnel
other-Standby = record {
  net = refl;
  tun = refl;
  manager = inl refl;
  unconnected = refl;
  small = omega arith;
  adapter = refl;
  session = refl;
  still = refl;
}

abbrev pub everyone : ℕ → Bool
everyone w = true

ana-Present :
    Present shown everyone some both_known 1 0 ana asker resting quiet_tunnel
      (codes "ana")
      (codes "192.168.1.2")
      (codes "192.168.1.2")
      (pos 5000)
unfolding is_utf8
ana-Present = record {
  registered = ana-Registered;
  named = refl;
  encoded = refl;
  at_ip = refl;
  at_port = refl;
  address = refl;
  reachable = refl;
  standby = asker-Standby;
  online = refl;
  callbacks = refl;
}

bob-Present :
    Present shown everyone some both_known 2 1 bob other resting quiet_tunnel
      (codes "bob")
      (codes "203.0.113.9")
      (codes "203.0.113.9")
      (pos 6000)
unfolding is_utf8
bob-Present = record {
  registered = bob-Registered;
  named = refl;
  encoded = refl;
  at_ip = refl;
  at_port = refl;
  address = refl;
  reachable = refl;
  standby = other-Standby;
  online = refl;
  callbacks = refl;
}

abbrev pub loaded : JsonObject → Text → Option JsonValue
loaded o key = get text_key key o

info-Reads : Reads numbered (codes "1") (introduction (json_values shown) (codes "peer-info") bob)
unfolding get text_eq text_key
info-Reads =
    numbered-Reads (codes "1") (introduction (json_values shown) (codes "peer-info") bob) refl

request-Reads : Reads numbered (codes "2") (chat_request (json_values shown) ana)
unfolding get text_eq text_key
request-Reads = numbered-Reads (codes "2") (chat_request (json_values shown) ana) refl

init-Reads : Reads numbered (codes "3") (introduction (json_values shown) (codes "chat-init") bob)
unfolding get text_eq text_key
init-Reads =
    numbered-Reads (codes "3") (introduction (json_values shown) (codes "chat-init") bob) refl

init'-Reads : Reads numbered (codes "4") (introduction (json_values shown) (codes "chat-init") ana)
unfolding get text_eq text_key
init'-Reads =
    numbered-Reads (codes "4") (introduction (json_values shown) (codes "chat-init") ana) refl

request-Joined_example :
    let py = json_values shown in
    let serve = received py everyone in
    let go = run numbered willing some in
    let s₁ = serve 1 (dict (loaded (get_peer_object (codes "bob")))) both_known in
    let s₂ = serve 1 (dict (loaded (start_chat_object (codes "bob")))) s₁ in
    let s₃ = serve 2 (dict (loaded accept_object)) s₂ in
    (a₁ a₂ b₁ b₂ : P2PSystem) × (go ((5, typed_line (codes "/connect " ++ codes "bob")) ∷ []) asker
      ≡ some a₁)
    × (a₁.signaling.sent
        ≡ asker.signaling.sent
          ++ get_peer_object (codes "bob") ∷ start_chat_object (codes "bob") ∷ [])
    × (s₁.sent ≡ both_known.sent ++ (1, introduction py (codes "peer-info") bob) ∷ [])
    × (s₂.sent ≡ s₁.sent ++ (2, chat_request py ana) ∷ [])
    × (go
          ((5, from_server (text_message (codes "2"))) ∷ (5, typed_line (codes "/accept")) ∷ [])
          other
        ≡ some b₁)
    × (b₁.signaling.sent ≡ other.signaling.sent ++ accept_object ∷ [])
    × (s₃.sent
        ≡ (s₂.sent ++ (1, introduction py (codes "chat-init") bob) ∷ [])
          ++ (2, introduction py (codes "chat-init") ana) ∷ [])
    × (go
          ((5, from_server (text_message (codes "1")))
            ∷ (5, from_server (text_message (codes "3")))
            ∷ [])
          a₁
        ≡ some a₂)
    × (go ((5, from_server (text_message (codes "4"))) ∷ []) b₁ ≡ some b₂)
    × Reaches numbered willing some b₂ resting
        (record { address = codes "192.168.1.2"; port = to_u16 (pos 5000) })
        a₂
    × Reaches numbered willing some a₂ resting
        (record { address = codes "203.0.113.9"; port = to_u16 (pos 6000) })
        b₂
unfolding get text_eq
request-Joined_example =
    request-Joined numbered willing some shown everyone willing-Obeys both_known 1 2 0 1 ana bob
      asker other resting resting quiet_tunnel quiet_tunnel (codes "ana") (codes "192.168.1.2")
      (codes "192.168.1.2") (codes "bob") (codes "203.0.113.9") (codes "203.0.113.9") (pos 5000)
      (pos 6000) (loaded (get_peer_object (codes "bob"))) (loaded (start_chat_object (codes "bob")))
      (loaded accept_object) (codes "1") (codes "2") (codes "3") (codes "4") 5 ana-Present
      bob-Present (λ key. refl) (λ key. refl) (λ key. refl) info-Reads request-Reads init-Reads
      init'-Reads
