-- ===== src/System/State.antt =====
-- The state of `P2PSystem`. `net` and `tun` are its two owning pointers, `none` while null. A call
-- that follows a null pointer, or that reads memory or a key that is not there, has no result:
-- `none`.
use peer_bridge_cli.Common.{Bool, true, false, Option, none, some, [], Text, codes}
use peer_bridge_cli.Common.Int.{ℤ, pos}
use peer_bridge_cli.StateManager.{StateManager, SystemState, fresh, set_state}
use peer_bridge_cli.Network.State.{UdpNetwork, Wired}
use peer_bridge_cli.Network.Connection.{is_connected}
use peer_bridge_cli.Routing.{NetworkConfigManager, new_config}
use peer_bridge_cli.Tun.{Tun}
use peer_bridge_cli.Stun.{StunClient, new_stun}
use peer_bridge_cli.Signaling.{SignalingClient, new_client}

abbrev pub host_ip : Text
host_ip = codes "10.0.0.1"

abbrev pub client_ip : Text
client_ip = codes "10.0.0.2"

pub record P2PSystem : Type 0 where
  pub username : Text
  pub pending_request_from : Text
  pub running : Bool
  pub is_host : Bool
  pub local_virtual_ip : Text
  pub peer_virtual_ip : Text
  pub public_ip : Text
  pub public_port : ℤ
  pub peer_username : Text
  pub peer_ip : Text
  pub peer_port : ℤ
  pub manager : StateManager
  pub monitor_thread : Bool
  pub routing : NetworkConfigManager
  pub signaling : SignalingClient
  pub stun : StunClient
  pub net : Option UdpNetwork
  pub tun : Option Tun
  -- Whether `clog` prints.
  pub console_logging : Bool

-- The constructor.
abbrev pub new_system : P2PSystem
new_system = record {
  username = [];
  pending_request_from = [];
  running = false;
  is_host = false;
  local_virtual_ip = [];
  peer_virtual_ip = [];
  public_ip = [];
  public_port = pos 0;
  peer_username = [];
  peer_ip = [];
  peer_port = pos 0;
  manager = fresh;
  monitor_thread = false;
  routing = new_config;
  signaling = new_client;
  stun = new_stun;
  net = none;
  tun = none;
  console_logging = true;
}

-- The network module at work on the state manager that it shares with the system.
abbrev pub wired : P2PSystem → UdpNetwork → Wired
wired s n = record { manager = s.manager; net = n }

abbrev pub rewired : P2PSystem → Wired → P2PSystem
rewired s w = record s { manager = w.manager; net = some w.net }

-- `P2PSystem::isConnected`
unfoldable pub is_linked : P2PSystem → Bool
is_linked s = elim s.net [ none ↦ false | some n ↦ is_connected n ]

-- `tunInterface && tunInterface->isRunning()`
unfoldable pub is_tunnelling : P2PSystem → Bool
is_tunnelling s = elim s.tun [ none ↦ false | some t ↦ t.running ]

abbrev pub with_state : SystemState → P2PSystem → P2PSystem
with_state state s = record s { manager = set_state state s.manager }
