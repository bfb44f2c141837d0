-- ===== src/Cli.antt =====
-- client/src/main.cpp: the commands that the user types.
use peer_bridge_cli.Common.{
  if_both, ℕ, Bool, ◌||◌, Option, none, some, Text, codes, text_eq, take, drop, if◌then◌else◌,
}
use peer_bridge_cli.Common.{OnSome, OnSome-bind, OnSome-any, if_both, ◌>>=◌}
use peer_bridge_cli.Signaling.{SignalingClient, request_peer_info, send_chat_request}
use peer_bridge_cli.Routing.{Windows}
use peer_bridge_cli.System.State.{P2PSystem, is_linked, host_ip, client_ip}
use peer_bridge_cli.System.Connection.{
  connect_to_peer, requesting, stop_connection, accept_incoming_request, reject_incoming_request,
}

pub data Command : Type 0 where
  quit help disconnect accept reject status ip unknown : Command
  connect : Text → Command

-- The tests of `inputThreadFunc`, in their order.
unfoldable pub parse_command : Text → Command
parse_command line =
    if text_eq line (codes "/quit") || text_eq line (codes "/exit")
    then Command.quit
    else if text_eq line (codes "/help")
    then Command.help
    else if text_eq (take 9 line) (codes "/connect ")
    then Command.connect (drop 9 line)
    else if text_eq line (codes "/disconnect")
    then Command.disconnect
    else if text_eq line (codes "/accept")
    then Command.accept
    else if text_eq line (codes "/reject")
    then Command.reject
    else if text_eq line (codes "/status")
    then Command.status
    else if text_eq line (codes "/ip")
    then Command.ip
    else Command.unknown

-- The commands that only print are left to `shown_role` and `shown_ips`; `quit` ends the loop.
-- `none` is an exception, which the input thread does not catch.
unfoldable pub execute : Windows → ℕ → Command → P2PSystem → Option P2PSystem
execute windows now (Command.connect peer) s = connect_to_peer peer s >>= λ (t, ok). some t
execute windows now Command.disconnect s = some (stop_connection windows now s)
execute windows now Command.accept s = some (accept_incoming_request s)
execute windows now Command.reject s = some (reject_incoming_request s)
execute windows now _ s = some s

-- What `/status` prints of a connection: whether this client is the host.
unfoldable pub shown_role : P2PSystem → Option Bool
shown_role s = if is_linked s then some s.is_host else none

-- What `/ip` prints: the own and the peer's virtual address.
unfoldable pub shown_ips : P2PSystem → Option (Text × Text)
shown_ips s =
    if is_linked s
    then some
        ((if s.is_host then host_ip else client_ip), (if s.is_host then client_ip else host_ip))
    else none

-- The command `/connect`: what holds of the client before, and after the two requests, holds of the
-- result, if there is one.
pub connect-OnSome {κ} :
    (P : P2PSystem → Type κ) (windows : Windows) (now : ℕ) (peer : Text) (s : P2PSystem)
    → P s
    → ((c : SignalingClient) → P (requesting peer s c))
    → OnSome P (execute windows now (Command.connect peer) s)
unfolding execute connect_to_peer
connect-OnSome P windows now peer s h k =
    let any = λ (c : SignalingClient). Unit {0} in
    let first = λ (r : P2PSystem × Bool). P (r.0) in
    OnSome-bind first P (connect_to_peer peer s) _
      (if_both (OnSome first) (is_linked s) _ _ h (
        OnSome-bind any first (request_peer_info peer s.signaling) _ (OnSome-any _) λ told a.
          OnSome-bind any first (send_chat_request peer told) _ (OnSome-any _) λ asked b. k asked))
      λ (t, ok) r. r
