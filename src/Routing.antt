-- ===== src/Routing.antt =====
-- client/include/networkconfigmanager.hpp and client/src/networkconfigmanager.cpp: the virtual
-- interface's address, routes and firewall, by commands to Windows.
--
-- Windows is the argument `windows`: what becomes of the process that runs a command, given the
-- commands before it. The commands so far are kept in `history`.
pub mod Laws
use peer_bridge_cli.Common.{
  ℕ, zero, suc, ◌+◌, ◌/◌, ◌%◌, Bool, true, false, ◌&&◌, not, Option, none, some, List, [], ◌∷◌,
  ◌++◌, Text, codes, ◌==◌, if◌then◌else◌,
}
use peer_bridge_cli.Decimal.{decimal, stoi}
use peer_bridge_cli.Ip.{ip_to_uint32, ip_read, get_line, cut_line}
use peer_bridge_cli.Wire.{value_or}

pub data RouteConfigApproach : Type 0 where
  generic_route fallback_route_all failed : RouteConfigApproach

-- `CreateProcessW` fails, or `GetExitCodeProcess` does, or the process ends with a code.
pub data ProcessOutcome : Type 0 where
  not_created no_exit_code : ProcessOutcome
  exited : ℕ → ProcessOutcome

pub record ConnectionConfig : Type 0 where
  pub self_index : ℕ
  pub peer_virtual_ip : Text

pub record NetworkConfigManager : Type 0 where
  pub route_approach : RouteConfigApproach
  pub narrow_alias : Text
  pub ip_space : Text
  pub history : List Text

abbrev pub net_mask : Text
net_mask = codes "255.255.255.0"

abbrev pub multicast_subnet_range : Text
multicast_subnet_range = codes "224.0.0.0/4"

abbrev pub base_ip_index : ℕ
base_ip_index = 0

-- The constructor, with `SetupConfig::loadConfig`. The GUID is not used.
abbrev pub new_config : NetworkConfigManager
new_config = record {
  route_approach = RouteConfigApproach.generic_route;
  narrow_alias = [];
  ip_space = codes "10.0.0.";
  history = [];
}

-- `while (tempMask) { maskBits += tempMask & 1; tempMask >>= 1; }`; a word has 32 digits.
pub count_bits : ℕ → ℕ → ℕ
count_bits zero mask = 0
count_bits (suc fuel) mask = mask % 2 + count_bits fuel (mask / 2)

-- The mask is a constant that `ipToUint32` reads with no exception.
abbrev pub mask_bits : ℕ
unfolding count_bits ip_to_uint32 ip_read get_line cut_line stoi
mask_bits = count_bits 32 (value_or (ip_to_uint32 net_mask) 0)

abbrev pub quoted : Text → Text
quoted s = b'"' ∷ (s ++ b'"' ∷ [])

abbrev pub network_addr : NetworkConfigManager → Text
network_addr c = c.ip_space ++ decimal base_ip_index

-- `10.0.0.0/24 "alias"`
abbrev pub network_route : NetworkConfigManager → Text
network_route c =
    network_addr c ++ (codes "/" ++ (decimal mask_bits ++ (codes " " ++ quoted c.narrow_alias)))

abbrev pub peer_route : NetworkConfigManager → Text → Text
peer_route c peer = peer ++ (codes "/32 " ++ quoted c.narrow_alias)

abbrev pub set_address : NetworkConfigManager → ℕ → Text
set_address c index =
    codes "netsh interface ip set address "
    ++ (quoted c.narrow_alias
        ++ (codes " static " ++ ((c.ip_space ++ decimal index) ++ (codes " " ++ net_mask))))

abbrev pub add_route : Text → Text
add_route route = codes "netsh interface ipv4 add route " ++ (route ++ codes " metric=1")

abbrev pub delete_route : Text → Text
delete_route route = codes "netsh interface ipv4 delete route " ++ route

abbrev pub enable_forwarding : NetworkConfigManager → Text
enable_forwarding c =
    codes "netsh interface ipv4 set interface "
    ++ (quoted c.narrow_alias ++ codes " forwarding=enabled metric=1")

abbrev pub add_multicast : NetworkConfigManager → Text
add_multicast c =
    codes "netsh interface ipv4 add route prefix="
    ++ (multicast_subnet_range
        ++ (codes " interface=" ++ (quoted c.narrow_alias ++ codes " metric=1")))

abbrev pub reset_address : NetworkConfigManager → Text
reset_address c =
    codes "netsh interface ip set address  " ++ (quoted c.narrow_alias ++ codes " dhcp")

abbrev pub delete_multicast : NetworkConfigManager → Text
delete_multicast c =
    codes "netsh interface ipv4 delete route prefix= "
    ++ (multicast_subnet_range ++ (codes " interface =" ++ quoted c.narrow_alias))

abbrev pub disable_forwarding : NetworkConfigManager → Text
disable_forwarding c =
    codes "netsh interface ipv4 set interface "
    ++ (quoted c.narrow_alias ++ codes " forwarding=disabled")

abbrev pub add_rule : Text → Text → Text → Text
add_rule name direction protocol =
    codes "netsh advfirewall firewall add rule name="
    ++ (quoted name
        ++ (codes " dir="
            ++ (direction
                ++ (codes " action=allow protocol="
                    ++ (protocol ++ codes " remoteip=10.0.0.0/24")))))

abbrev pub delete_rule : Text → Text
delete_rule name = codes "netsh advfirewall firewall delete rule name=" ++ quoted name

abbrev pub firewall_commands : NetworkConfigManager → List Text
firewall_commands c =
    add_rule (codes "PeerBridge IN") (codes "in") (codes "any")
    ∷ add_rule (codes "PeerBridge OUT") (codes "out") (codes "any")
    ∷ add_rule (codes "PeerBridge ICMP") (codes "in") (codes "icmpv4")
    ∷ (codes "netsh advfirewall firewall set rule group="
        ++ (quoted (codes "File and Printer Sharing") ++ codes " new enable=Yes"))
    ∷ add_rule (codes "PeerBridge IGMP IN") (codes "in") (codes "2")
    ∷ add_rule (codes "PeerBridge IGMP OUT") (codes "out") (codes "2")
    ∷ (codes "powershell -Command \"Set-NetConnectionProfile -InterfaceAlias '"
        ++ (c.narrow_alias ++ codes "' -NetworkCategory Private\""))
    ∷ []

abbrev pub firewall_removals : List Text
firewall_removals =
    delete_rule (codes "PeerBridge IN")
    ∷ delete_rule (codes "PeerBridge OUT")
    ∷ delete_rule (codes "PeerBridge ICMP")
    ∷ delete_rule (codes "PeerBridge IGMP IN")
    ∷ delete_rule (codes "PeerBridge IGMP OUT")
    ∷ []

abbrev pub Windows : Type 0
Windows = List Text → Text → ProcessOutcome

-- A run of the manager: its new state, and the result of the call.
abbrev pub Run : Type 0
Run = NetworkConfigManager × Bool

abbrev pub is_success : ProcessOutcome → Bool
is_success ProcessOutcome.not_created = false
is_success ProcessOutcome.no_exit_code = false
is_success (ProcessOutcome.exited code) = code == 0

module _ (windows : Windows) where
  unfoldable pub execute_netsh_command : Text → NetworkConfigManager → Run
  execute_netsh_command command c =
      (record c { history = c.history ++ command ∷ [] }, is_success (windows c.history command))

  -- The results of these are only logged.
  unfoldable pub execute_all : List Text → NetworkConfigManager → NetworkConfigManager
  execute_all [] c = c
  execute_all (command ∷ rest) c = execute_all rest (execute_netsh_command command c).0

  unfoldable pub add_routes : Text → NetworkConfigManager → NetworkConfigManager
  add_routes peer c =
      let (c₁, generic) = execute_netsh_command (add_route (network_route c)) c in
      if generic
      then c₁
      else let c₂ = record c₁ { route_approach = RouteConfigApproach.fallback_route_all } in
        let (c₃, direct) = execute_netsh_command (add_route (peer_route c₂ peer)) c₂ in
        if direct then c₃ else record c₃ { route_approach = RouteConfigApproach.failed }

  unfoldable pub setup_routing : ConnectionConfig → NetworkConfigManager → Run
  setup_routing cfg c =
      let (c₁, addressed) = execute_netsh_command (set_address c cfg.self_index) c in
      if not addressed
      then (record c₁ { route_approach = RouteConfigApproach.failed }, false)
      else let c₂ = add_routes cfg.peer_virtual_ip c₁ in
        let (c₃, forwarding) = execute_netsh_command (enable_forwarding c₂) c₂ in
        if not forwarding
        then (c₃, false)
        else ((execute_netsh_command (add_multicast c₃) c₃).0, true)

  unfoldable pub setup_firewall : NetworkConfigManager → NetworkConfigManager
  setup_firewall c = execute_all (firewall_commands c) c

  unfoldable pub remove_firewall : NetworkConfigManager → NetworkConfigManager
  remove_firewall c = execute_all firewall_removals c

  unfoldable pub remove_route : RouteConfigApproach → Text → NetworkConfigManager → Run
  remove_route RouteConfigApproach.generic_route peer c =
      execute_netsh_command (delete_route (network_route c)) c
  remove_route RouteConfigApproach.fallback_route_all peer c =
      execute_netsh_command (delete_route (peer_route c peer)) c
  remove_route RouteConfigApproach.failed peer c = (c, true)

  -- Each command's result replaces the one before it.
  unfoldable pub remove_routing : Text → NetworkConfigManager → Run
  remove_routing peer c =
      let (c₁, _) = remove_route c.route_approach peer c in
      let (c₂, _) = execute_netsh_command (reset_address c₁) c₁ in
      let (c₃, _) = execute_netsh_command (delete_multicast c₂) c₂ in
      execute_netsh_command (disable_forwarding c₃) c₃

  unfoldable pub configure_interface : ConnectionConfig → NetworkConfigManager → Run
  configure_interface cfg c =
      let (routed, success) =
        setup_routing cfg (record c { route_approach = RouteConfigApproach.generic_route }) in
      if not success
      then ((remove_routing cfg.peer_virtual_ip routed).0, false)
      else (setup_firewall routed, true)

  unfoldable pub reset_interface_configuration : Text → NetworkConfigManager → NetworkConfigManager
  reset_interface_configuration peer c = remove_firewall (remove_routing peer c).0

unfoldable pub set_narrow_alias : Text → NetworkConfigManager → NetworkConfigManager
set_narrow_alias alias c = record c { narrow_alias = alias }
