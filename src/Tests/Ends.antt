-- ===== src/Tests/Ends.antt =====
-- Examples of the end of the program, and of what is on the wire at noon.
use peer_bridge_cli.Common.{
  ℕ, ◌≡◌, refl, true, false, Option, none, some, List, [], ◌∷◌, length, Bytes, codes, text_eq,
}
use peer_bridge_cli.StateManager.{shutting_down}
use peer_bridge_cli.Network.State.{UdpNetwork}
use peer_bridge_cli.System.State.{P2PSystem}
use peer_bridge_cli.System.Connection.{shutdown}
use peer_bridge_cli.System.Threads.{
  initialize_system, after_discovery, start_signaling, start_tun, start_network, handle_signal,
  handle_callback, handle_datagram, after_receive,
}
use peer_bridge_cli.Run.{run, step}
use peer_bridge_cli.System.Connection.{
  handle_connection_init, assign_ip_addresses, dial, monitor_loop, monitor_rounds,
  handle_network_event, handle_peer_connected, start_network_interface,
}
use peer_bridge_cli.Signaling.Utf8.{is_utf8}
use peer_bridge_cli.Signaling.{
  set_callbacks, connect, opened, send_greeting, register_user, send_texts, send_json,
  handle_message, handle_text, handle_json_message, handle_typed, handle_chat_init, wait_rounds,
}
use peer_bridge_cli.Tun.{
  initialize, load_wintun_functions, set_packet_callback, get_narrow_alias, start_packet_processing,
}
use peer_bridge_cli.Routing.{
  set_narrow_alias, configure_interface, setup_routing, add_routes, execute_netsh_command,
  setup_firewall, execute_all,
}
use peer_bridge_cli.Network.Connection.{
  new_network, set_message_callback, start_listening, connect_to_peer, is_connected,
}
use peer_bridge_cli.Network.Receive.{
  start_async_receive, handle_receive_from, process_received_data, dispatch, handle_packet,
  establish, endpoint_text,
}
use peer_bridge_cli.Network.State.{
  start_hole_punching_process, hole_punches, send_hole_punch_packet, async_send_to,
  start_keep_alive_timer, notify_connection_event,
}
use peer_bridge_cli.StateManager.{
  set_state, is_valid_transition, same_state, queue_event, get_next_event, is_in_state,
}
use peer_bridge_cli.Wire.{attach_custom_header, set_word, to_byte, of_byte, word32, word16}
use peer_bridge_cli.PeerConnection.{update_activity, set_connected}
use peer_bridge_cli.System.State.{is_linked, is_tunnelling}
use peer_bridge_cli.Stun.{
  discover_public_address, parse_response, parse_attributes, mapped_address, binding_request,
  get_socket,
}
use peer_bridge_cli.Tests.Fixtures.{live, host, willing, online, init_reader}
use peer_bridge_cli.Tests.Client.{morning, at_noon, morning-run, host-ready, or_new}
use peer_bridge_cli.Cli.{parse_command, execute}
use peer_bridge_cli.Common.{All, ◌≤◌, ◌<◌, ◌^◌}
use peer_bridge_cli.Run.{typed_line, leave_main}
use peer_bridge_cli.Main.{
  Outcome, runs, exits, Happening, of_system, interrupt, destroy, join, read_line, main_turn,
  happen, go_on, begin, main, is_quit,
}
use peer_bridge_cli.Main.Ends.{ExitsWell, at_work, main-exit_zero, main-ExitsWell}
use peer_bridge_cli.Run.Shutdown.{shutdown-shutdown}
use peer_bridge_cli.Run.Traffic.{history-datagrams}
use peer_bridge_cli.Network.Datagrams.{IsDatagram}
use peer_bridge_cli.Network.State.{stop_keep_alive_timer, send_disconnect_notification, Endpoint}
use peer_bridge_cli.Network.Connection
use peer_bridge_cli.System.Connection.{on_net, close_tun, stop_network_interface, stop_tun}
use peer_bridge_cli.Tun.{close, stop_packet_processing}
use peer_bridge_cli.Signaling.{disconnect}
use peer_bridge_cli.Routing.{
  reset_interface_configuration, remove_routing, remove_route, remove_firewall,
}

or_live : Option UdpNetwork → UdpNetwork
or_live none = live
or_live (some n) = n

abbrev noon_link : UdpNetwork
noon_link = or_live at_noon.net

noon-link : at_noon.net ≡ some noon_link
unfolding or_live or_new after_discovery discover_public_address parse_response parse_attributes
    mapped_address binding_request get_socket initialize_system start_signaling start_tun
    start_network handle_signal handle_callback handle_datagram after_receive run step
    handle_connection_init assign_ip_addresses dial monitor_loop monitor_rounds handle_network_event
    handle_peer_connected start_network_interface set_callbacks connect opened send_greeting
    register_user send_texts is_utf8 send_json handle_message handle_text handle_json_message
    handle_typed handle_chat_init wait_rounds initialize load_wintun_functions set_packet_callback
    get_narrow_alias start_packet_processing set_narrow_alias configure_interface setup_routing
    add_routes execute_netsh_command setup_firewall execute_all new_network set_message_callback
    start_listening connect_to_peer is_connected start_async_receive handle_receive_from
    process_received_data dispatch handle_packet establish endpoint_text start_hole_punching_process
    hole_punches send_hole_punch_packet async_send_to start_keep_alive_timer notify_connection_event
    set_state is_valid_transition same_state queue_event get_next_event is_in_state
    attach_custom_header set_word to_byte of_byte word32 word16 update_activity set_connected
    is_linked is_tunnelling text_eq
noon-link = refl

history-datagrams_example :
    All
      (λ (d : Endpoint × Bytes). IsDatagram (d.1) × (16 ≤ length (d.1)) × (length (d.1) ≤ 65507))
      noon_link.sent
    × (noon_link.next_seq < 2 ^ 32)
    × All (λ (a : ℕ × ℕ). a.0 < 2 ^ 32) noon_link.pending_acks
history-datagrams_example =
    history-datagrams init_reader willing some online (codes "bob") morning noon_link morning-run
      noon-link

host_off : P2PSystem
host_off = or_new (shutdown willing 5 host)

host-off : shutdown willing 5 host ≡ some host_off
unfolding host_off or_new shutdown on_net close_tun stop_network_interface stop_tun close
    stop_packet_processing disconnect reset_interface_configuration remove_routing remove_route
    remove_firewall Connection.stop_connection Connection.shutdown stop_keep_alive_timer
    send_disconnect_notification is_linked is_tunnelling is_connected set_state is_valid_transition
    same_state attach_custom_header set_word to_byte set_connected async_send_to
    execute_netsh_command text_eq
host-off = refl

shutdown-shutdown_example :
    (shutdown willing 9 host_off ≡ some host_off)
    × (is_linked host_off ≡ false)
    × (host_off.signaling.connected ≡ false)
    × (host_off.monitor_thread ≡ false)
shutdown-shutdown_example = shutdown-shutdown willing 5 9 host host_off host-off

quit-is_quit : is_quit (parse_command (codes "/quit")) ≡ true
unfolding parse_command text_eq
quit-is_quit = refl

main-ExitsWell_example :
    ExitsWell willing init_reader some (
      go_on willing init_reader some
        ((1, of_system (typed_line (codes "/quit"))) ∷ (2, of_system leave_main) ∷ [])
        (runs (at_work willing init_reader some host)))
    × ExitsWell willing init_reader some (
        go_on willing init_reader some
          ((1, interrupt)
            ∷ (2, of_system leave_main)
            ∷ (3, of_system (typed_line (codes "/ip")))
            ∷ [])
          (runs (at_work willing init_reader some host)))
main-ExitsWell_example =
    main-ExitsWell willing init_reader some 1 2 3 (codes "/quit") (codes "/ip") host quit-is_quit
      host-ready

-- A short life: the user quits at once.
abbrev day : List (ℕ × Happening)
day = (1, of_system (typed_line (codes "/quit"))) ∷ (2, of_system leave_main) ∷ []

left : Outcome → Option P2PSystem
left (exits code o) = o
left o = none

abbrev evening : Option P2PSystem
evening = left (main willing init_reader some online (codes "bob") day)

day-ends : main willing init_reader some online (codes "bob") day ≡ exits 0 evening
unfolding left main go_on begin happen read_line main_turn join destroy parse_command execute
    after_discovery discover_public_address parse_response parse_attributes mapped_address
    binding_request get_socket initialize_system start_signaling start_tun start_network
    handle_signal handle_callback handle_datagram after_receive run step handle_connection_init
    assign_ip_addresses dial monitor_loop monitor_rounds handle_network_event handle_peer_connected
    start_network_interface set_callbacks connect opened send_greeting register_user send_texts
    is_utf8 send_json handle_message handle_text handle_json_message handle_typed handle_chat_init
    wait_rounds initialize load_wintun_functions set_packet_callback get_narrow_alias
    start_packet_processing set_narrow_alias configure_interface setup_routing add_routes
    execute_netsh_command setup_firewall execute_all new_network set_message_callback
    start_listening connect_to_peer is_connected start_async_receive handle_receive_from
    process_received_data dispatch handle_packet establish endpoint_text start_hole_punching_process
    hole_punches send_hole_punch_packet async_send_to start_keep_alive_timer notify_connection_event
    set_state is_valid_transition same_state queue_event get_next_event is_in_state
    attach_custom_header set_word to_byte of_byte word32 word16 update_activity set_connected
    is_linked is_tunnelling text_eq shutdown on_net close_tun stop_network_interface stop_tun close
    stop_packet_processing disconnect reset_interface_configuration remove_routing remove_route
    remove_firewall Connection.stop_connection Connection.shutdown stop_keep_alive_timer
    send_disconnect_notification
day-ends = refl

main-exit_zero_example :
    (t : P2PSystem) × (evening ≡ some t)
    × (t.manager.current_state ≡ shutting_down)
    × (is_tunnelling t ≡ false)
    × (is_linked t ≡ false)
    × (t.signaling.connected ≡ false)
main-exit_zero_example =
    main-exit_zero willing init_reader some online (codes "bob") day evening day-ends
