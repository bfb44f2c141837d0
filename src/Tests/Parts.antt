-- ===== src/Tests/Parts.antt =====
-- Examples of the theorems of the state machine, the addresses, the routes, the tunnel and
-- signaling.
use peer_bridge_cli.Common.{
  Bytes, Text, bit_xor, replicate, ◌≢◌, ◌+◌, ◌-◌, ◌*◌, ◌/◌, ◌^◌, ◌≡◌, refl, ◌↔◌, ◌⊎◌, true, false,
  some, [], ◌∷◌, ◌++◌, arith, codes, text_eq,
}
use peer_bridge_cli.Common.Int.{pos}
use peer_bridge_cli.Ip.{ip_to_uint32, uint32_to_ip}
use peer_bridge_cli.Ip.RoundTrip.{ip_to_uint32-uint32_to_ip}
use peer_bridge_cli.Wire.{word32}
use peer_bridge_cli.StateManager.{shutting_down, StateManager}
use peer_bridge_cli.Routing.{
  RouteConfigApproach, set_address, add_route, delete_route, network_route, peer_route,
  reset_address, delete_multicast, disable_forwarding, add_routes, remove_route,
  configure_interface,
}
use peer_bridge_cli.Routing.Laws.{
  succeeds, ran, remove_route-add_routes, configure_interface-refused,
}
use peer_bridge_cli.Tun.{Tun, new_tun, initialize}
use peer_bridge_cli.Tun.Laws.{
  Call, perform, begin, after, Reached-handles, send_rounds, accepted, send_rounds-outgoing,
}
use peer_bridge_cli.Signaling.{
  found, returned, on_chat_init, handle_text, handle_json_message, handle_typed, handle_chat_init,
}
use peer_bridge_cli.Signaling.Laws.{handle_text-on_chat_init}
use peer_bridge_cli.System.State.{client_ip}
use peer_bridge_cli.System.Packets.{is_wanted}
use peer_bridge_cli.System.Filter.{subnet_broadcast, is_wanted_iff}
use peer_bridge_cli.Wire.Layout.{bytes4}
use peer_bridge_cli.Stun.{overread, finished, parse_response}
use peer_bridge_cli.Stun.Laws.{discover-inside}
use peer_bridge_cli.Stun.Attributes.{
  bytes2, Attribute, all_encoded, mapped_attribute, parse_response-others,
}
use peer_bridge_cli.Tests.Fixtures.{
  ip_packet, tunnel, willing, unwilling, peer_config, named_config, whole, init_reader,
  ready_client,
}

abbrev down : StateManager
down = record { current_state = shutting_down; event_queue = [] }

ip_to_uint32-uint32_to_ip_example : ip_to_uint32 (uint32_to_ip 167772161) ≡ some 167772161
ip_to_uint32-uint32_to_ip_example = ip_to_uint32-uint32_to_ip 167772161 (omega arith)

ip_packet-dst : word32 ip_packet 16 ≡ 10 * 2 ^ 24 + 2
unfolding word32
ip_packet-dst = refl

is_wanted_iff_example : (is_wanted (uint32_to_ip (10 * 2 ^ 24 + 2)) ip_packet ≡ true) ↔ (
    (10 * 2 ^ 24 + 2 ≡ 10 * 2 ^ 24 + 2)
    ⊎ (10 * 2 ^ 24 + 2 ≡ subnet_broadcast)
    ⊎ (10 * 2 ^ 24 + 2 ≡ 2 ^ 32 - 1)
    ⊎ ((10 * 2 ^ 24 + 2) / 2 ^ 28 ≡ 14))
is_wanted_iff_example =
    is_wanted_iff (10 * 2 ^ 24 + 2) (10 * 2 ^ 24 + 2) ip_packet (omega arith) (omega arith)
      ip_packet-dst

remove_route-add_routes_example :
    let c = named_config in
    let network = add_route (network_route c) in
    let direct = add_route (peer_route c client_ip) in
    let t = add_routes willing client_ip c in
    let removed = (remove_route willing t.route_approach client_ip t).0.history in
    ((succeeds willing c network ≡ true)
      × (removed ≡ (c.history ++ network ∷ []) ++ delete_route (network_route c) ∷ []))
    ⊎ ((succeeds willing c network ≡ false)
        × (succeeds willing (ran willing c network) direct ≡ true)
        × (removed
            ≡ ((c.history ++ network ∷ []) ++ direct ∷ [])
              ++ delete_route (peer_route c client_ip) ∷ []))
    ⊎ ((succeeds willing c network ≡ false)
        × (succeeds willing (ran willing c network) direct ≡ false)
        × (removed ≡ (c.history ++ network ∷ []) ++ direct ∷ []))
remove_route-add_routes_example = remove_route-add_routes willing client_ip named_config refl

configure_interface-refused_example :
    let c = named_config in
    let (t, ok) = configure_interface unwilling peer_config c in
    (ok ≡ false)
    × (t.route_approach ≡ RouteConfigApproach.failed)
    × (t.history
        ≡ (((c.history ++ set_address c 1 ∷ []) ++ reset_address c ∷ []) ++ delete_multicast c ∷ [])
          ++ disable_forwarding c ∷ [])
configure_interface-refused_example =
    configure_interface-refused unwilling peer_config named_config refl

abbrev started : Tun
started = perform Call.start (initialize whole new_tun).0

Reached-handles_example :
    ((started.running ≡ false) ⊎ (started.session ≡ true))
    × ((started.session ≡ false) ⊎ (started.adapter ≡ true))
    × ((started.adapter ≡ false) ⊎ (started.module_loaded ≡ true))
    × (started.threads ≡ started.running)
Reached-handles_example = Reached-handles (after Call.start (begin whole))

abbrev queued : Tun
queued = record tunnel { outgoing = ip_packet ∷ [] ∷ (1 ∷ []) ∷ [] }

send_rounds-outgoing_example :
    send_rounds (true ∷ true ∷ false ∷ []) queued
    ≡ some (record queued {
      outgoing = [];
      injected = [] ++ accepted (true ∷ true ∷ false ∷ []) queued.outgoing;
    })
send_rounds-outgoing_example = send_rounds-outgoing (true ∷ true ∷ false ∷ []) queued refl refl

init_text-handled :
    handle_text init_reader (codes "x") ready_client
    ≡ returned (some (on_chat_init (codes "ana") (codes "203.0.113.9") (pos 6000)))
unfolding handle_text handle_json_message handle_typed handle_chat_init text_eq
init_text-handled = refl

handle_text-on_chat_init_example :
    (msg : Unit {0}) × (init_reader.parse (codes "x") ≡ some msg)
    × (init_reader.type_of msg ≡ some (codes "chat-init"))
    × (init_reader.string_at msg (codes "ip") ≡ found (codes "203.0.113.9"))
    × (init_reader.int_at msg (codes "port") ≡ found (pos 6000))
    × (init_reader.string_at msg (codes "username") ≡ found (codes "ana"))
    × (ready_client.has_callbacks ≡ true)
handle_text-on_chat_init_example =
    handle_text-on_chat_init init_reader (codes "x") ready_client (codes "ana")
      (codes "203.0.113.9") (pos 6000) init_text-handled

abbrev stun_response : Bytes
stun_response =
    1 ∷ 1 ∷ 0 ∷ 12 ∷ replicate 16 9
    ++ (0 ∷ 32 ∷ 0 ∷ 8 ∷ 0 ∷ 1 ∷ 0x32 ∷ 0x9A ∷ 0xE7 ∷ 0x21 ∷ 0xC0 ∷ 0x46 ∷ replicate 32 0)

abbrev raw : Bytes → Text
raw address = address

discover-inside_example : parse_response raw 32 stun_response ≢ overread
discover-inside_example = discover-inside raw 32 stun_response (omega arith)

-- An attribute that the client passes over.
abbrev software : Attribute
software = record { type = 0x8022; value = codes "abcd" }

parse_response-others_example :
    parse_response raw 40 (
      (bytes2 0x0101 ++ bytes2 (40 - 20))
      ++ (replicate 16 9
          ++ (all_encoded (software ∷ [])
              ++ (mapped_attribute (bit_xor 5000 0x2112) (bit_xor 0xC6336404 0x2112A442) ++ []))))
    ≡ finished (some (bytes4 0xC6336404, 5000))
parse_response-others_example =
    parse_response-others raw 0xC6336404 5000 40 (omega arith) (omega arith) (replicate 16 9)
      (software ∷ []) [] refl ((omega arith, (λ e. omega (arith, e)), omega arith), tt) refl
      (omega arith)
