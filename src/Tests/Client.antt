-- ===== src/Tests/Client.antt =====
-- Examples of the theorems of the whole client.
use peer_bridge_cli.Common.{
  suc, ◌+◌, ℕ, ◌≡◌, refl, ◌⊎◌, true, false, Option, none, some, List, [], ◌∷◌, ◌++◌, arith, length,
  Bytes, codes, text_eq, replicate,
}
use peer_bridge_cli.Decimal.{decimal}
use peer_bridge_cli.Wire.{PacketType}
use peer_bridge_cli.Wire.Layout.{header}
use peer_bridge_cli.StateManager.{idle, connected, shutting_down}
use peer_bridge_cli.Network.State.{ErrorCode, UdpNetwork}
use peer_bridge_cli.System.State.{P2PSystem, new_system}
use peer_bridge_cli.System.Packets.{is_ipv4, is_wanted, handle_packet_from_tun}
use peer_bridge_cli.System.Connection.{stop_connection, shutdown}
use peer_bridge_cli.System.Tunnel.{tunnel-to-tunnel}
use peer_bridge_cli.Ip.{uint32_to_ip, ip_write}
use peer_bridge_cli.Run.{Event, from_server, monitor_turn, datagram}
use peer_bridge_cli.Run.History.{history, client-Inv}
use peer_bridge_cli.Run.Stops.{stop_connection_lem}
use peer_bridge_cli.Run.Ready.{is_ready, is_some, Goes}
use peer_bridge_cli.Run.Progress.{Fatal, step-Goes, shutdown_lem, shutdown-no_stun}
use peer_bridge_cli.System.Threads.{
  initialize_system, after_discovery, start_signaling, start_tun, start_network, handle_signal,
  handle_callback, handle_datagram, after_receive,
}
use peer_bridge_cli.Run.{run, step}
use peer_bridge_cli.System.Connection.{
  handle_connection_init, assign_ip_addresses, dial, monitor_loop, monitor_rounds,
  handle_network_event, handle_peer_connected, start_network_interface,
}
use peer_bridge_cli.Signaling.Utf8.{is_utf8}
use peer_bridge_cli.Signaling.{
  set_callbacks, connect, opened, send_greeting, register_user, send_texts, send_json,
  handle_message, handle_text, handle_json_message, handle_typed, handle_chat_init, wait_rounds,
}
use peer_bridge_cli.Tun.{
  initialize, load_wintun_functions, set_packet_callback, get_narrow_alias, start_packet_processing,
}
use peer_bridge_cli.Routing.{
  set_narrow_alias, configure_interface, setup_routing, add_routes, execute_netsh_command,
  setup_firewall, execute_all,
}
use peer_bridge_cli.Network.Connection.{
  new_network, set_message_callback, start_listening, connect_to_peer, is_connected,
}
use peer_bridge_cli.Network.Receive.{
  start_async_receive, handle_receive_from, process_received_data, dispatch, handle_packet,
  establish, endpoint_text,
}
use peer_bridge_cli.Network.State.{
  start_hole_punching_process, hole_punches, send_hole_punch_packet, async_send_to,
  start_keep_alive_timer, notify_connection_event,
}
use peer_bridge_cli.StateManager.{
  set_state, is_valid_transition, same_state, queue_event, get_next_event, is_in_state,
}
use peer_bridge_cli.Wire.{attach_custom_header, set_word, to_byte, of_byte, word32, word16}
use peer_bridge_cli.PeerConnection.{update_activity, set_connected}
use peer_bridge_cli.System.State.{is_linked, is_tunnelling}
use peer_bridge_cli.Signaling.{text_message}
use peer_bridge_cli.StateManager.{peer_connected, all_peers_disconnected, monostate, endpoint}
use peer_bridge_cli.Run.Monitor.{monitor_loop-drains}
use peer_bridge_cli.Stun.{
  discover_public_address, parse_response, parse_attributes, mapped_address, binding_request,
  get_socket,
}
use peer_bridge_cli.Tests.Fixtures.{
  linked_manager, here, there, live, tunnel, host, guest, ip_packet, willing, online, offline,
  init_reader,
}

-- The server starts a chat, the peer's first packet comes in, and the monitor looks at its queue.
abbrev pub morning : List (ℕ × Event)
morning =
    (1, from_server (text_message (codes "x")))
    ∷ (2, datagram ErrorCode.success 16 (header PacketType.hole_punch 0 ++ replicate 4 0) there)
    ∷ (3, monitor_turn)
    ∷ []

unfoldable pub or_new : Option P2PSystem → P2PSystem
or_new none = new_system
or_new (some s) = s

abbrev pub at_noon : P2PSystem
at_noon = or_new (history init_reader willing some online (codes "bob") morning)

pub morning-run : history init_reader willing some online (codes "bob") morning ≡ some at_noon
unfolding or_new after_discovery discover_public_address parse_response parse_attributes
    mapped_address binding_request get_socket initialize_system start_signaling start_tun
    start_network handle_signal handle_callback handle_datagram after_receive run step
    handle_connection_init assign_ip_addresses dial monitor_loop monitor_rounds handle_network_event
    handle_peer_connected start_network_interface set_callbacks connect opened send_greeting
    register_user send_texts is_utf8 send_json handle_message handle_text handle_json_message
    handle_typed handle_chat_init wait_rounds initialize load_wintun_functions set_packet_callback
    get_narrow_alias start_packet_processing set_narrow_alias configure_interface setup_routing
    add_routes execute_netsh_command setup_firewall execute_all new_network set_message_callback
    start_listening connect_to_peer is_connected start_async_receive handle_receive_from
    process_received_data dispatch handle_packet establish endpoint_text start_hole_punching_process
    hole_punches send_hole_punch_packet async_send_to start_keep_alive_timer notify_connection_event
    set_state is_valid_transition same_state queue_event get_next_event is_in_state
    attach_custom_header set_word to_byte of_byte word32 word16 update_activity set_connected
    is_linked is_tunnelling text_eq
morning-run = refl

client-Inv_example :
    ((is_in_state at_noon.manager connected ≡ false) ⊎ (is_tunnelling at_noon ≡ true))
    × ((is_in_state at_noon.manager shutting_down ≡ false) ⊎ (is_tunnelling at_noon ≡ false))
client-Inv_example = client-Inv init_reader willing some online (codes "bob") morning morning-run

pub host-ready : is_ready host ≡ true
unfolding is_ready is_some
host-ready = refl

step-Goes_example :
    Goes (step init_reader willing some 5 monitor_turn host)
    ⊎ Fatal init_reader willing some 5 host monitor_turn
step-Goes_example = step-Goes init_reader willing some 5 monitor_turn host host-ready

-- The peer has gone, and then a packet has come in again.
abbrev busy : P2PSystem
busy = record host {
  manager = record linked_manager {
    event_queue =
        record { event = all_peers_disconnected; payload = monostate }
        ∷ record { event = peer_connected; payload = endpoint (codes "203.0.113.9:6000") }
        ∷ [];
  };
}

busy-ready : is_ready busy ≡ true
unfolding is_ready is_some
busy-ready = refl

monitor_loop-drains_example :
    (t : P2PSystem) × (monitor_loop willing 5 busy ≡ some t)
    × (t.manager.event_queue ≡ [])
    × (monitor_rounds willing (suc (length busy.manager.event_queue) + 4) 5 busy ≡ some t)
monitor_loop-drains_example = monitor_loop-drains willing 5 4 busy refl busy-ready

stop_connection_lem_example :
    let t = stop_connection willing 5 host in
    (is_tunnelling t ≡ false)
    × (is_linked t ≡ false)
    × ((t.manager.current_state ≡ idle)
        ⊎ ((host.manager.current_state ≡ shutting_down)
            × (t.manager.current_state ≡ shutting_down)))
    × (t.peer_username ≡ [])
stop_connection_lem_example = stop_connection_lem willing 5 host

shutdown_lem_example :
    (t : P2PSystem) × (shutdown willing 5 host ≡ some t)
    × (t.manager.current_state ≡ shutting_down)
    × (is_tunnelling t ≡ false)
    × (t.running ≡ false)
shutdown_lem_example = shutdown_lem willing 5 host host-ready

shutdown-no_stun_example :
    (s : P2PSystem) × (initialize_system offline (codes "bob") new_system ≡ some (s, false))
    × (shutdown willing 5 s ≡ none)
shutdown-no_stun_example = shutdown-no_stun willing 5 offline (codes "bob") refl

ip_packet-is_ipv4 : is_ipv4 ip_packet ≡ true
unfolding is_ipv4
ip_packet-is_ipv4 = refl

ip_packet-is_wanted : is_wanted host.peer_virtual_ip ip_packet ≡ true
unfolding is_wanted text_eq uint32_to_ip ip_write decimal word32
ip_packet-is_wanted = refl

tunnel-to-tunnel_example :
    (sent : Bytes) × (n' : UdpNetwork) × (t' : P2PSystem) × (handle_packet_from_tun 5 ip_packet host
      ≡ some (record host { net = some n' }))
    × (n'.sent ≡ live.sent ++ (there, sent) ∷ [])
    × (handle_datagram 6 ErrorCode.success (length sent) (sent ++ (0 ∷ [])) here guest ≡ some t')
    × (t'.tun ≡ some (record tunnel { outgoing = tunnel.outgoing ++ ip_packet ∷ [] }))
tunnel-to-tunnel_example =
    tunnel-to-tunnel 5 6 ip_packet (0 ∷ []) here host guest live live tunnel refl refl (omega arith)
      refl refl refl refl refl refl ip_packet-is_ipv4 ip_packet-is_wanted (omega arith)
