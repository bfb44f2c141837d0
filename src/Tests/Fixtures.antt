-- ===== src/Tests/Fixtures.antt =====
-- Values that the examples share.
use peer_bridge_cli.Common.{
  true, false, none, some, [], ◌∷◌, Bytes, codes, text_eq, replicate, ◌++◌, if◌then◌else◌,
}
use peer_bridge_cli.Common.Int.{pos}
use peer_bridge_cli.StateManager.{StateManager, connected}
use peer_bridge_cli.Network.State.{Endpoint, UdpNetwork, Wired}
use peer_bridge_cli.Routing.{
  Windows, ProcessOutcome, ConnectionConfig, NetworkConfigManager, new_config,
}
use peer_bridge_cli.Tun.{Tun, Wintun}
use peer_bridge_cli.Signaling.{found, missing, JsonReader, SignalingClient}
use peer_bridge_cli.System.State.{P2PSystem, new_system, host_ip, client_ip}
use peer_bridge_cli.System.Threads.{World}

abbrev pub here : Endpoint
here = record { address = codes "192.168.1.2"; port = 5000 }

abbrev pub there : Endpoint
there = record { address = codes "203.0.113.9"; port = 6000 }

-- A link to `there` that is up.
abbrev pub live : UdpNetwork
live = record {
  running = true;
  local_port = 5000;
  local_address = codes "192.168.1.2";
  next_seq = 7;
  socket_open = true;
  receives = 1;
  sent = [];
  timer_armed = true;
  io_stopped = false;
  io_thread = true;
  posted = [];
  pending_acks = (3, 1) ∷ [];
  peer_endpoint = there;
  peer = record { last_activity = 0; connected = true };
  current_peer_endpoint = codes "203.0.113.9:6000";
  has_callback = true;
}

abbrev pub resting : UdpNetwork
resting = record live { running = false; peer = record { last_activity = 0; connected = false } }

abbrev pub linked_manager : StateManager
linked_manager = record { current_state = connected; event_queue = [] }

abbrev pub wire : Wired
wire = record { manager = linked_manager; net = live }

abbrev pub three_bytes : Bytes
three_bytes = 1 ∷ 2 ∷ 3 ∷ []

-- An IPv4 header from 10.0.0.1 to 10.0.0.2.
abbrev pub ip_packet : Bytes
ip_packet =
    0x45 ∷ 0 ∷ 0 ∷ 20 ∷ 0 ∷ 0 ∷ 0 ∷ 0 ∷ 64 ∷ 17 ∷ 0 ∷ 0 ∷ 10 ∷ 0 ∷ 0 ∷ 1 ∷ 10 ∷ 0 ∷ 0 ∷ 2 ∷ []

abbrev pub tunnel : Tun
tunnel = record {
  module_loaded = true;
  adapter = true;
  session = true;
  running = true;
  threads = true;
  outgoing = [];
  injected = [];
  has_callback = true;
}

abbrev pub host : P2PSystem
host = record new_system {
  running = true;
  is_host = true;
  local_virtual_ip = host_ip;
  peer_virtual_ip = client_ip;
  manager = linked_manager;
  net = some live;
  tun = some tunnel;
}

abbrev pub guest : P2PSystem
guest = record host { is_host = false; local_virtual_ip = client_ip; peer_virtual_ip = host_ip }

abbrev pub willing : Windows
willing history command = ProcessOutcome.exited 0

abbrev pub unwilling : Windows
unwilling history command = ProcessOutcome.exited 1

abbrev pub peer_config : ConnectionConfig
peer_config = record { self_index = 1; peer_virtual_ip = client_ip }

abbrev pub named_config : NetworkConfigManager
named_config = record new_config { narrow_alias = codes "PeerBridge" }

abbrev pub whole : Wintun
whole = record {
  loads = true;
  exports = λ name. true;
  opens = true;
  creates = false;
  starts = true;
}

-- The answer of a server that saw the port 5000 and the address 198.51.100.4.
abbrev pub stun_answer : Bytes
stun_answer =
    1 ∷ 1 ∷ 0 ∷ 12 ∷ 0x21 ∷ 0x12 ∷ 0xA4 ∷ 0x42 ∷ replicate 12 7
    ++ (0 ∷ 0x20 ∷ 0 ∷ 8 ∷ 0 ∷ 1 ∷ 0x32 ∷ 0x9A ∷ 0xE7 ∷ 0x21 ∷ 0xC0 ∷ 0x46 ∷ [])

abbrev pub online : World
online = record {
  now = 0;
  stun = record { reaches = true; random = replicate 12 7; answer = some stun_answer };
  to_string = λ bytes. codes "198.51.100.4";
  looks = λ k. true;
  opens = 1;
  late_opens = 0;
  wintun = whole;
  luid_found = true;
  alias = some (codes "PeerBridge");
  local = some here;
  options_accepted = true;
}

abbrev pub offline : World
offline = record online { stun = record { reaches = true; random = replicate 12 7; answer = none } }

-- A reader of one message, a chat-init.
abbrev pub init_reader : JsonReader (Unit {0})
init_reader = record {
  parse = λ s. some tt;
  type_of = λ j. some (codes "chat-init");
  string_at = λ j key.
      if text_eq key (codes "ip") then found (codes "203.0.113.9") else found (codes "ana");
  int_at = λ j key. found (pos 6000);
  printed_at = λ j key. missing;
}

abbrev pub ready_client : SignalingClient
ready_client = record { connected = true; started = true; sent = []; has_callbacks = true }
