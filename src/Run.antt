-- ===== src/Run.antt =====
-- The running client as one machine: an event is one run of a handler on one of the program's
-- threads, or a line that the user types (client/src/main.cpp), with the time at which it happens.
pub mod Invariant
pub mod Stops
pub mod Preserve
pub mod Handlers
pub mod History
pub mod Ready
pub mod Monitor
pub mod Progress
pub mod Off
pub mod Shutdown
pub mod Links
pub mod Traffic
pub mod Establish
pub mod Parting
pub mod Loss
pub mod Handshake
pub mod Start
pub mod Messages
pub mod Recall
pub mod Lifecycle
pub mod Moves
pub mod Refines
pub mod Causes
pub mod Requests
pub mod Meeting
use peer_bridge_cli.Common.{
  ℕ, Bool, true, false, Option, none, some, List, [], ◌∷◌, Bytes, Text, ◌>>=◌,
}
use peer_bridge_cli.Network.State.{Endpoint, ErrorCode, Wired, handle_send_complete}
use peer_bridge_cli.Network.Receive.{run_posted, handle_keep_alive}
use peer_bridge_cli.Routing.{Windows}
use peer_bridge_cli.Tun.{WaitResult}
use peer_bridge_cli.Signaling.{JsonReader, SocketMessage}
use peer_bridge_cli.System.State.{P2PSystem}
use peer_bridge_cli.System.Connection.{on_net, monitor_loop, shutdown}
use peer_bridge_cli.System.Threads.{
  handle_signal, handle_datagram, handle_tun_read, handle_tun_write,
}
use peer_bridge_cli.Cli.{parse_command, execute}

pub data Event : Type 0 where
  from_server : SocketMessage → Event
  datagram : ErrorCode → ℕ → Bytes → Endpoint → Event
  send_complete : ErrorCode → ℕ → Event
  posted_task : Event
  timer : ErrorCode → Event
  tun_read : Option Bytes → WaitResult → Event
  tun_write : Bool → Event
  monitor_turn : Event
  typed_line : Text → Event
  -- The end of `main`.
  leave_main : Event

-- The completion of a send leaves the state manager alone.
abbrev pub send_done : ErrorCode → ℕ → Wired → Wired
send_done error seq w = record w { net = handle_send_complete error seq w.net }

module _ {J : Type 0} (reader : JsonReader J) (windows : Windows)
    (make_address : Text → Option Text) where
  unfoldable pub step : ℕ → Event → P2PSystem → Option P2PSystem
  step now (from_server message) s = handle_signal windows make_address reader message s
  step now (datagram error transferred buffer sender) s =
      handle_datagram now error transferred buffer sender s
  step now (send_complete error seq) s = some (on_net (send_done error seq) s)
  step now posted_task s = some (on_net (run_posted now) s)
  step now (timer error) s = some (on_net (handle_keep_alive now error) s)
  step now (tun_read packet wait) s = handle_tun_read now packet wait s
  step now (tun_write allocated) s = some (handle_tun_write allocated s)
  step now monitor_turn s = monitor_loop windows now s
  step now (typed_line line) s = execute windows now (parse_command line) s
  step now leave_main s = shutdown windows now s

  -- A history. A step with no result ends it.
  unfoldable pub run : List (ℕ × Event) → P2PSystem → Option P2PSystem
  run [] s = some s
  run ((now, e) ∷ rest) s = step now e s >>= λ t. run rest t
