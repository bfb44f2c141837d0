-- ===== src/Run/Requests.antt =====
-- The command of one user to connect, and the consent of the other (client/src/main.cpp,
-- client/src/P2PSystem.cpp).
use peer_bridge_cli.Common.{
  not, ◌&&◌, some, ℕ, ◌≡◌, refl, ap, ◌∙◌, true, false, Option, [], ◌∷◌, ◌++◌, Text, codes, text_eq,
  is_empty, if_off, if_both, inr, arith, append_assoc,
}
use peer_bridge_cli.Common.Int.{ℤ}
use peer_bridge_cli.Common.Dict.{get}
use peer_bridge_cli.StateManager.{connecting, set_state}
use peer_bridge_cli.Network.State.{UdpNetwork}
use peer_bridge_cli.Network.Connection.{is_connected}
use peer_bridge_cli.Routing.{Windows}
use peer_bridge_cli.Tun.{Tun}
use peer_bridge_cli.Signaling.{
  SignalingClient, JsonObject, JsonValue, typed, field, send_json, request_peer_info,
  send_chat_request, accept_chat_request,
}
use peer_bridge_cli.Server.Values.{text_key}
use peer_bridge_cli.Signaling.{send_texts}
use peer_bridge_cli.Signaling.Utf8.{is_utf8}
use peer_bridge_cli.System.Connection.{requesting}
use peer_bridge_cli.System.State.{P2PSystem, is_linked}
use peer_bridge_cli.System.Connection
use peer_bridge_cli.Cli.{Command, parse_command, execute}
use peer_bridge_cli.Run.Handshake.{Standby, Waiting, dialling}

-- What the two clients send.
abbrev pub get_peer_object : Text → JsonObject
get_peer_object name = typed (codes "get-peer") ∷ field (codes "username") name ∷ []

abbrev pub start_chat_object : Text → JsonObject
start_chat_object name = typed (codes "start-chat") ∷ field (codes "target") name ∷ []

abbrev pub accept_object : JsonObject
accept_object = typed (codes "chat-accept") ∷ []

-- The dictionary that the server's library makes of an object.
abbrev pub Loaded : (Text → Option JsonValue) → JsonObject → Type 0
Loaded message o = (key : Text) → message key ≡ get text_key key o

Standby-off : (s : P2PSystem) (n : UdpNetwork) (t : Tun) → Standby s n t → is_linked s ≡ false
unfolding is_linked is_connected
Standby-off s n t v = ground (arith, v.net, v.unconnected)

-- The client that has asked for a peer.
abbrev pub asking : Text → P2PSystem → P2PSystem
asking name s =
    requesting name s
      (send_json (start_chat_object name) (send_json (get_peer_object name) s.signaling))

connect-parsed : (name : Text) → parse_command (codes "/connect " ++ name) ≡ Command.connect name
unfolding parse_command text_eq
connect-parsed name = refl

request_peer_info-writes :
    (name : Text) (c : SignalingClient)
    → is_utf8 name ≡ true
    → request_peer_info name c ≡ some (send_json (get_peer_object name) c)
unfolding request_peer_info send_texts
request_peer_info-writes name c u =
    if_off (c.connected && not (is_utf8 name && true)) _ _ (ground arith)

send_chat_request-writes :
    (name : Text) (c : SignalingClient)
    → is_utf8 name ≡ true
    → send_chat_request name c ≡ some (send_json (start_chat_object name) c)
unfolding send_chat_request send_texts
send_chat_request-writes name c u =
    if_off (c.connected && not (is_utf8 name && true)) _ _ (ground arith)

pub connect-asks :
    (windows : Windows) (now : ℕ) (name : Text) (s : P2PSystem) (n : UdpNetwork) (t : Tun)
    → Standby s n t
    → is_utf8 name ≡ true
    → execute windows now (parse_command (codes "/connect " ++ name)) s ≡ some (asking name s)
unfolding execute Connection.connect_to_peer
connect-asks windows now name s n t v u =
    ap (λ c. execute windows now c s) (connect-parsed name)
    ∙ simp (
      Standby-off s n t v,
      request_peer_info-writes name s.signaling u,
      send_chat_request-writes name (send_json (get_peer_object name) s.signaling) u,
    )

pub asking-sent :
    (name : Text) (s : P2PSystem)
    → s.signaling.connected ≡ true
    → (asking name s).signaling.sent
      ≡ s.signaling.sent ++ get_peer_object name ∷ start_chat_object name ∷ []
unfolding send_json
asking-sent name s on = simp (on, append_assoc)

pub asking-callbacks :
    (name : Text) (s : P2PSystem)
    → (asking name s).signaling.has_callbacks ≡ s.signaling.has_callbacks
unfolding send_json
asking-callbacks name s = ground arith

-- The client that has accepted.
abbrev pub accepting : Text → P2PSystem → P2PSystem
accepting name s = record s {
  is_host = true;
  signaling = accept_chat_request s.signaling;
  peer_username = name;
  pending_request_from = [];
}

pub accept-accepts :
    (windows : Windows) (now : ℕ) (name : Text) (s : P2PSystem)
    → is_empty name ≡ false
    → execute windows now
        (parse_command (codes "/accept"))
        (Connection.handle_connection_request name s)
      ≡ some (accepting name s)
unfolding execute parse_command Connection.accept_incoming_request
    Connection.handle_connection_request text_eq
accept-accepts windows now name s full = simp full

pub accepting-sent :
    (name : Text) (s : P2PSystem)
    → s.signaling.connected ≡ true
    → (accepting name s).signaling.sent ≡ s.signaling.sent ++ accept_object ∷ []
unfolding accept_chat_request send_json
accepting-sent name s on = simp on

pub accepting-callbacks :
    (name : Text) (s : P2PSystem)
    → (accepting name s).signaling.has_callbacks ≡ s.signaling.has_callbacks
unfolding accept_chat_request send_json
accepting-callbacks name s = ground arith

like-Standby :
    (s r : P2PSystem) (n : UdpNetwork) (t : Tun)
    → r.net ≡ s.net
    → r.tun ≡ s.tun
    → Waiting r.manager
    → Standby s n t
    → Standby r n t
like-Standby s r n t net tun waiting v = record {
  net = net ∙ v.net;
  tun = tun ∙ v.tun;
  manager = waiting;
  unconnected = v.unconnected;
  small = v.small;
  adapter = v.adapter;
  session = v.session;
  still = v.still;
}

pub asking-Standby :
    (name ip : Text) (port : ℤ) (s : P2PSystem) (n : UdpNetwork) (t : Tun)
    → Standby s n t
    → Standby (Connection.handle_peer_info name ip port (asking name s)) n t
unfolding Connection.handle_peer_info
asking-Standby name ip port s n t v =
    let waiting : Waiting (set_state connecting s.manager) = inr (dialling s.manager v.manager) in
    if_both (λ (r : P2PSystem). Standby r n t) (text_eq name name)
      (record (asking name s) { peer_ip = ip; peer_port = port }) (asking name s)
      (like-Standby s _ n t refl refl waiting v) (like-Standby s _ n t refl refl waiting v)

pub accepting-Standby :
    (name : Text) (s : P2PSystem) (n : UdpNetwork) (t : Tun)
    → Standby s n t
    → Standby (accepting name s) n t
accepting-Standby name s n t v = like-Standby s _ n t refl refl v.manager v

pub peer_info-signaling :
    (name ip : Text) (port : ℤ) (s : P2PSystem)
    → (Connection.handle_peer_info name ip port s).signaling ≡ s.signaling
unfolding Connection.handle_peer_info
peer_info-signaling name ip port s = ground arith
