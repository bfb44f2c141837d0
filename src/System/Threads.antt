-- ===== src/System/Threads.antt =====
-- Who calls the system: `initialize`, and then the threads. The socket of the signaling server, the
-- UDP thread, the tunnel's two threads and the monitor each run one handler at a time; an event is
-- one such run, and any order of events may happen.
use peer_bridge_cli.Common.{
  ℕ, Bool, true, false, not, Option, none, some, Bytes, Text, if◌then◌else◌, ◌>>=◌,
}
use peer_bridge_cli.Common.Int.{pos}
use peer_bridge_cli.StateManager.{SystemState}
use peer_bridge_cli.Network.State.{Endpoint, ErrorCode}
use peer_bridge_cli.Network.Receive.{Received, fault, handled, handle_receive_from}
use peer_bridge_cli.Network.Connection.{new_network, set_message_callback, start_listening}
use peer_bridge_cli.Routing.{Windows, set_narrow_alias}
use peer_bridge_cli.Stun.{
  Exchange, Discovered, overread, finished, discover_public_address, get_socket,
}
use peer_bridge_cli.Tun.{
  Wintun, new_tun, initialize, set_packet_callback, get_narrow_alias, WaitResult, Round, go_on,
  leave, receive_round, send_round,
}
use peer_bridge_cli.Signaling.{
  JsonReader, SocketMessage, Callback, on_connect, on_chat_request, on_peer_info, on_chat_init,
  returned, thrown, undefined, handle_message, set_callbacks, connect, opened, register_user,
  send_greeting,
}
use peer_bridge_cli.System.State.{P2PSystem, wired, rewired, with_state}
use peer_bridge_cli.System.Packets.{handle_packet_from_tun, handle_network_data}
use peer_bridge_cli.System.Connection.{
  handle_connection_request, handle_peer_info, handle_connection_init,
}

-- What the world answers while the system starts: the exchange with the STUN
-- server and how Boost prints an address, the flag of the
-- WebSocket at each look and how many Open messages its thread handles, before `connect` returns and
-- after the registration, Wintun, the adapter's alias, and the socket.
pub record World : Type 0 where
  pub now : ℕ
  pub stun : Exchange
  pub to_string : Bytes → Text
  pub looks : ℕ → Bool
  pub opens : ℕ
  pub late_opens : ℕ
  pub wintun : Wintun
  pub luid_found : Bool
  pub alias : Option Text
  pub local : Option Endpoint
  pub options_accepted : Bool

-- The UDP part of `initialize`, and the monitor thread.
unfoldable pub start_network : World → P2PSystem → P2PSystem × Bool
start_network w s =
    let (n, ok) =
      start_listening w.local w.options_accepted (set_message_callback (new_network w.now)) in
    let listening = record s { stun = (get_socket s.stun).0; net = some n } in
    if not ok then (listening, false) else (record listening { monitor_thread = true }, true)

-- The tunnel's part.
unfoldable pub start_tun : World → P2PSystem → P2PSystem × Bool
start_tun w s =
    let (t, ok) = initialize w.wintun new_tun in
    if not ok
    then (record s { tun = some t }, false)
    else start_network w (record s {
      tun = some (set_packet_callback t);
      routing = set_narrow_alias (get_narrow_alias w.luid_found w.alias) s.routing;
    })

-- The part of the signaling server, and on.
unfoldable pub start_signaling : World → P2PSystem → Option (P2PSystem × Bool)
start_signaling w s =
    let (c, ok) = connect w.looks w.opens (set_callbacks s.signaling) in
    if not ok
    then some (record s { signaling = c }, false)
    else register_user s.username s.public_ip s.public_port c >>= λ d.
        some (start_tun w (record s { signaling = opened w.late_opens d }))

-- `P2PSystem::discoverPublicAddress`, on what the STUN client found, and what follows it.
unfoldable pub after_discovery : World → Discovered → P2PSystem → Option (P2PSystem × Bool)
after_discovery w overread s = none
after_discovery w (finished none) s = some (s, false)
after_discovery w (finished (some (ip, port))) s =
    start_signaling w (record s { public_ip = ip; public_port = pos port })

unfoldable pub initialize_system : World → Text → P2PSystem → Option (P2PSystem × Bool)
initialize_system w self_username s =
    let begun =
      with_state SystemState.idle (record s { username = self_username; running = true }) in
    let (c, result) = discover_public_address w.to_string w.stun begun.stun in
    after_discovery w result (record begun { stun = c })

module _ (windows : Windows) (make_address : Text → Option Text) where
  unfoldable pub handle_callback : Callback → P2PSystem → Option P2PSystem
  handle_callback (on_connect up) s =
      some (if up then record s { signaling = send_greeting s.signaling } else s)
  handle_callback (on_chat_request requester) s = some (handle_connection_request requester s)
  handle_callback (on_peer_info name ip port) s = some (handle_peer_info name ip port s)
  handle_callback (on_chat_init name ip port) s =
      handle_connection_init windows make_address name ip port s

  unfoldable pub handle_signal :
      {J : Type 0} → JsonReader J → SocketMessage → P2PSystem → Option P2PSystem
  handle_signal reader message s =
      let (c, result) = handle_message reader message s.signaling in
      let t = record s { signaling = c } in
      elim result [
        | undefined ↦ none
        | thrown ↦ some t
        | returned callback ↦ elim callback [ none ↦ some t | some call ↦ handle_callback call t ]
      ]

-- A datagram that comes in, and the payload that the link hands on.
unfoldable pub after_receive : P2PSystem → Received → Option P2PSystem
after_receive s fault = none
after_receive s (handled w none) = some (rewired s w)
after_receive s (handled w (some payload)) = some (handle_network_data payload (rewired s w))

unfoldable pub handle_datagram : ℕ → ErrorCode → ℕ → Bytes → Endpoint → P2PSystem → Option P2PSystem
handle_datagram now error transferred buffer sender s = elim s.net [
  | none ↦ some s
  | some n ↦ after_receive s (handle_receive_from now error transferred buffer sender (wired s n))
]

-- A round of the tunnel's receive thread; the callback is the system's.
unfoldable pub after_round : ℕ → P2PSystem → Round → Option P2PSystem
after_round now s leave = some s
after_round now s (go_on none) = some s
after_round now s (go_on (some packet)) = handle_packet_from_tun now packet s

unfoldable pub handle_tun_read : ℕ → Option Bytes → WaitResult → P2PSystem → Option P2PSystem
handle_tun_read now packet wait s = elim s.tun [
  | none ↦ some s
  | some t ↦ after_round now s (receive_round packet wait t)
]

-- A round of its send thread.
unfoldable pub handle_tun_write : Bool → P2PSystem → P2PSystem
handle_tun_write allocated s = elim s.tun [
  | none ↦ s
  | some t ↦ elim (send_round allocated t) [ none ↦ s | some u ↦ record s { tun = some u } ]
]
