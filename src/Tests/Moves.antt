-- ===== src/Tests/Moves.antt =====
-- Examples of how the state machine moves.
use peer_bridge_cli.Common.{◌≡◌, refl, true, none, some, [], ◌∷◌, codes, text_eq}
use peer_bridge_cli.Common.Int.{pos}
use peer_bridge_cli.StateManager.{
  SystemState, idle, connecting, connected, shutting_down, all_peers_disconnected,
}
use peer_bridge_cli.StateManager.Laws.{requests}
use peer_bridge_cli.StateManager.Laws
use peer_bridge_cli.StateManager.Interleaving.{
  Shared, loads, stores, halves, halves-shutting_down, halves-undo_shutdown,
}
use peer_bridge_cli.System.Connection as System
use peer_bridge_cli.System.State.{P2PSystem}
use peer_bridge_cli.Cli.{parse_command, execute}
use peer_bridge_cli.Run.{typed_line}
use peer_bridge_cli.Run.Lifecycle.{state}
use peer_bridge_cli.Run.Refines.{Moves, step-Moves}
use peer_bridge_cli.Run.Causes.{CallThenWatch, run-CallThenWatch}
use peer_bridge_cli.Run.Recall.{init-forgets}
use peer_bridge_cli.Tests.Client.{morning, or_new}
use peer_bridge_cli.Tests.Meeting.{willing-Obeys}
use peer_bridge_cli.Tests.Rendezvous.{other}
use peer_bridge_cli.Tests.Fixtures.{host, live, willing, init_reader}
use peer_bridge_cli.System.Threads.{
  initialize_system, after_discovery, start_signaling, start_tun, start_network, handle_signal,
  handle_callback, handle_datagram, after_receive,
}
use peer_bridge_cli.Run.{run, step}
use peer_bridge_cli.System.Connection.{
  handle_connection_init, assign_ip_addresses, dial, monitor_loop, monitor_rounds,
  handle_network_event, handle_peer_connected, start_network_interface,
}
use peer_bridge_cli.Signaling.Utf8.{is_utf8}
use peer_bridge_cli.Signaling.{
  set_callbacks, connect, opened, send_greeting, register_user, send_texts, send_json,
  handle_message, handle_text, handle_json_message, handle_typed, handle_chat_init, wait_rounds,
}
use peer_bridge_cli.Tun.{
  initialize, load_wintun_functions, set_packet_callback, get_narrow_alias, start_packet_processing,
}
use peer_bridge_cli.Routing.{
  set_narrow_alias, configure_interface, setup_routing, add_routes, execute_netsh_command,
  setup_firewall, execute_all,
}
use peer_bridge_cli.Network.Connection.{
  new_network, set_message_callback, start_listening, connect_to_peer, is_connected,
}
use peer_bridge_cli.Network.Receive.{
  start_async_receive, handle_receive_from, process_received_data, dispatch, handle_packet,
  establish, endpoint_text,
}
use peer_bridge_cli.Network.State.{
  start_hole_punching_process, hole_punches, send_hole_punch_packet, async_send_to,
  start_keep_alive_timer, notify_connection_event,
}
use peer_bridge_cli.StateManager.{
  set_state, is_valid_transition, same_state, queue_event, get_next_event, is_in_state,
}
use peer_bridge_cli.Wire.{attach_custom_header, set_word, to_byte, of_byte, word32, word16}
use peer_bridge_cli.PeerConnection.{update_activity, set_connected}
use peer_bridge_cli.System.State.{is_linked, is_tunnelling}
use peer_bridge_cli.Stun.{
  discover_public_address, parse_response, parse_attributes, mapped_address, binding_request,
  get_socket,
}

step-Moves_example :
    Moves
      (typed_line (codes "/disconnect"))
      (state host)
      (state (System.stop_connection willing 5 host))
unfolding step execute parse_command text_eq
step-Moves_example =
    step-Moves init_reader willing some 5 (typed_line (codes "/disconnect")) host refl

abbrev at_ten : P2PSystem
at_ten = or_new (run init_reader willing some morning other)

ten-run : run init_reader willing some morning other ≡ some at_ten
unfolding or_new after_discovery discover_public_address parse_response parse_attributes
    mapped_address binding_request get_socket initialize_system start_signaling start_tun
    start_network handle_signal handle_callback handle_datagram after_receive run step
    handle_connection_init assign_ip_addresses dial monitor_loop monitor_rounds handle_network_event
    handle_peer_connected start_network_interface set_callbacks connect opened send_greeting
    register_user send_texts is_utf8 send_json handle_message handle_text handle_json_message
    handle_typed handle_chat_init wait_rounds initialize load_wintun_functions set_packet_callback
    get_narrow_alias start_packet_processing set_narrow_alias configure_interface setup_routing
    add_routes execute_netsh_command setup_firewall execute_all new_network set_message_callback
    start_listening connect_to_peer is_connected start_async_receive handle_receive_from
    process_received_data dispatch handle_packet establish endpoint_text start_hole_punching_process
    hole_punches send_hole_punch_packet async_send_to start_keep_alive_timer notify_connection_event
    set_state is_valid_transition same_state queue_event get_next_event is_in_state
    attach_custom_header set_word to_byte of_byte word32 word16 update_activity set_connected
    is_linked is_tunnelling text_eq
ten-run = refl

ten-connected : state at_ten ≡ connected
unfolding or_new after_discovery discover_public_address parse_response parse_attributes
    mapped_address binding_request get_socket initialize_system start_signaling start_tun
    start_network handle_signal handle_callback handle_datagram after_receive run step
    handle_connection_init assign_ip_addresses dial monitor_loop monitor_rounds handle_network_event
    handle_peer_connected start_network_interface set_callbacks connect opened send_greeting
    register_user send_texts is_utf8 send_json handle_message handle_text handle_json_message
    handle_typed handle_chat_init wait_rounds initialize load_wintun_functions set_packet_callback
    get_narrow_alias start_packet_processing set_narrow_alias configure_interface setup_routing
    add_routes execute_netsh_command setup_firewall execute_all new_network set_message_callback
    start_listening connect_to_peer is_connected start_async_receive handle_receive_from
    process_received_data dispatch handle_packet establish endpoint_text start_hole_punching_process
    hole_punches send_hole_punch_packet async_send_to start_keep_alive_timer notify_connection_event
    set_state is_valid_transition same_state queue_event get_next_event is_in_state
    attach_custom_header set_word to_byte of_byte word32 word16 update_activity set_connected
    is_linked is_tunnelling text_eq
ten-connected = refl

run-CallThenWatch_example : CallThenWatch morning
run-CallThenWatch_example =
    run-CallThenWatch init_reader willing some morning other at_ten ((λ h. cc), (λ h. cc)) ten-run
      ten-connected

init-forgets_example :
    (t : P2PSystem) × (handle_connection_init willing some
        (codes "eve")
        (codes "198.51.100.7")
        (pos 7000)
        host
      ≡ some t)
    × (t.manager.current_state ≡ idle)
    × (is_linked t ≡ true)
    × (is_tunnelling t ≡ is_tunnelling host)
    × (handle_network_event willing 5 all_peers_disconnected t ≡ some t)
init-forgets_example =
    init-forgets willing some (codes "eve") (codes "198.51.100.7") (pos 7000) host live 5
      willing-Obeys refl refl refl

abbrev alone : SystemState → Shared
alone c = record { manager = record { current_state = c; event_queue = [] }; calls = λ i. none }

halves-shutting_down_example :
    (halves
      (loads 1 connected ∷ loads 2 idle ∷ stores 2 ∷ stores 1 ∷ [])
      (alone shutting_down)).manager
    ≡ (alone shutting_down).manager
halves-shutting_down_example =
    halves-shutting_down (loads 1 connected ∷ loads 2 idle ∷ stores 2 ∷ stores 1 ∷ [])
      (alone shutting_down) refl (λ i r h. cc)

halves-undo_shutdown_example :
    ((halves
        (loads 1 connected ∷ loads 2 shutting_down ∷ stores 2 ∷ [])
        (alone connecting)).manager.current_state
      ≡ shutting_down)
    × ((halves
          (loads 1 connected ∷ loads 2 shutting_down ∷ stores 2 ∷ stores 1 ∷ [])
          (alone connecting)).manager
        ≡ record { current_state = connected; event_queue = [] })
halves-undo_shutdown_example =
    halves-undo_shutdown 1 2 connected (alone connecting) refl Laws.establish
