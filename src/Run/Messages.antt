-- ===== src/Run/Messages.antt =====
-- What a client makes of the server's messages (client/src/signaling.cpp).
use peer_bridge_cli.Common.{◌≡◌, refl, ap, true, Option, some, Text, codes, text_eq}
use peer_bridge_cli.Common.Int.{ℤ}
use peer_bridge_cli.Common.Dict.{get}
use peer_bridge_cli.Routing.{Windows}
use peer_bridge_cli.Signaling.{
  JsonReader, JsonObject, JsonValue, str, int, found, returned, Callback, on_chat_init,
  on_chat_request, on_peer_info, text_message, SignalingClient, handle_text, handle_message,
  handle_json_message, handle_typed, handle_chat_init, handle_chat_request, handle_peer_info,
}
use peer_bridge_cli.Server.{introduction, chat_request}
use peer_bridge_cli.Server.State.{User}
use peer_bridge_cli.Server.Values.{text_key, json_values}
use peer_bridge_cli.System.State.{P2PSystem}
use peer_bridge_cli.System.Connection
use peer_bridge_cli.System.Threads.{handle_signal, handle_callback}

module _ {J : Type 0} (reader : JsonReader J) where
  open reader use {parse, type_of, string_at, int_at}

  -- The client's library reads the object `o`, which the server's has written as `said`.
  pub record Reads (said : Text) (o : JsonObject) : Type 0 where
    pub value : J
    pub parsed : parse said ≡ some value
    pub typed : (t : Text) → get text_key (codes "type") o ≡ some (str t) → type_of value ≡ some t
    pub strings : (key t : Text) → get text_key key o ≡ some (str t) → string_at value key ≡ found t
    pub ints : (key : Text) (n : ℤ) → get text_key key o ≡ some (int n) → int_at value key ≡ found n

  text-typed :
      (said type : Text) (value : J) (c : SignalingClient) (x : Option Callback)
      → parse said ≡ some value
      → type_of value ≡ some type
      → handle_typed reader type value c ≡ returned x
      → handle_text reader said c ≡ returned x
  unfolding handle_text handle_json_message
  text-typed said type value c x parsed typed done =
      rw (parsed, handle_text) (rw (typed, handle_text) (rw (done, handle_text) refl))

  module _ (windows : Windows) (make_address : Text → Option Text) where
    signalled :
        (said : Text) (s : P2PSystem) (x : Callback)
        → handle_text reader said s.signaling ≡ returned (some x)
        → handle_signal windows make_address reader (text_message said) s
          ≡ handle_callback windows make_address x s
    unfolding handle_signal handle_message
    signalled said s x e = rw (e, handle_signal) refl

    module _ (shown : JsonValue → Text) (said : Text) (s : P2PSystem)
        (on : s.signaling.has_callbacks ≡ true) where
      pub signal-chat_init :
          (u : User JsonValue) (name ip : Text) (port : ℤ)
          → Reads said (introduction (json_values shown) (codes "chat-init") u)
          → u.username ≡ str name
          → u.ip ≡ str ip
          → u.port ≡ int port
          → handle_signal windows make_address reader (text_message said) s
            ≡ Connection.handle_connection_init windows make_address name ip port s
      unfolding handle_typed handle_chat_init handle_callback get text_key text_eq
      signal-chat_init u name ip port r n i p = signalled said s (on_chat_init name ip port) (
          text-typed said (codes "chat-init") r.value s.signaling _ r.parsed
            (r.typed (codes "chat-init") refl)
            (simp (
              r.strings (codes "username") name (ap some n),
              r.strings (codes "ip") ip (ap some i),
              r.ints (codes "port") port (ap some p),
              on,
            )))

      pub signal-peer_info :
          (u : User JsonValue) (name ip : Text) (port : ℤ)
          → Reads said (introduction (json_values shown) (codes "peer-info") u)
          → u.username ≡ str name
          → u.ip ≡ str ip
          → u.port ≡ int port
          → handle_signal windows make_address reader (text_message said) s
            ≡ some (Connection.handle_peer_info name ip port s)
      unfolding handle_typed handle_peer_info handle_callback get text_key text_eq
      signal-peer_info u name ip port r n i p = signalled said s (on_peer_info name ip port) (
          text-typed said (codes "peer-info") r.value s.signaling _ r.parsed
            (r.typed (codes "peer-info") refl)
            (simp (
              r.strings (codes "username") name (ap some n),
              r.strings (codes "ip") ip (ap some i),
              r.ints (codes "port") port (ap some p),
              on,
            )))

      pub signal-chat_request :
          (u : User JsonValue) (name : Text)
          → Reads said (chat_request (json_values shown) u)
          → u.username ≡ str name
          → handle_signal windows make_address reader (text_message said) s
            ≡ some (Connection.handle_connection_request name s)
      unfolding handle_typed handle_chat_request handle_callback get text_key text_eq
      signal-chat_request u name r n = signalled said s (on_chat_request name) (
          text-typed said (codes "chat-request") r.value s.signaling _ r.parsed
            (r.typed (codes "chat-request") refl)
            (simp (r.strings (codes "from") name (ap some n), on)))
