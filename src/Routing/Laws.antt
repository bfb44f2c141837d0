-- ===== src/Routing/Laws.antt =====
-- Configuring the interface and undoing it (client/src/networkconfigmanager.cpp).
use peer_bridge_cli.Common.{◌≡◌, ◌⊎◌, ◌↔◌, Bool, true, false, [], ◌∷◌, ◌++◌, Text, arith}
use peer_bridge_cli.Routing.{
  RouteConfigApproach, ConnectionConfig, NetworkConfigManager, Windows, is_success, set_address,
  add_route, delete_route, network_route, peer_route, enable_forwarding, reset_address,
  delete_multicast, disable_forwarding, execute_netsh_command, add_routes, setup_routing,
  remove_route, remove_routing, configure_interface,
}

module _ (windows : Windows) where
  -- Whether a command would succeed now.
  abbrev pub succeeds : NetworkConfigManager → Text → Bool
  succeeds c command = is_success (windows c.history command)

  abbrev pub ran : NetworkConfigManager → Text → NetworkConfigManager
  ran c command = record c { history = c.history ++ command ∷ [] }

  -- Whichever route the set-up added, and no other, is the one deleted afterwards: the route of
  -- the network, or the direct one that is tried after it, or none if both were refused. The
  -- manager starts from the generic approach.
  pub remove_route-add_routes :
      (peer : Text) (c : NetworkConfigManager)
      → c.route_approach ≡ RouteConfigApproach.generic_route
      → let network = add_route (network_route c) in
        let direct = add_route (peer_route c peer) in
        let t = add_routes windows peer c in
        let removed = (remove_route windows t.route_approach peer t).0.history in
        ((succeeds c network ≡ true)
          × (removed ≡ (c.history ++ network ∷ []) ++ delete_route (network_route c) ∷ []))
        ⊎ ((succeeds c network ≡ false)
            × (succeeds (ran c network) direct ≡ true)
            × (removed
                ≡ ((c.history ++ network ∷ []) ++ direct ∷ [])
                  ++ delete_route (peer_route c peer) ∷ []))
        ⊎ ((succeeds c network ≡ false)
            × (succeeds (ran c network) direct ≡ false)
            × (removed ≡ (c.history ++ network ∷ []) ++ direct ∷ []))
  unfolding add_routes remove_route execute_netsh_command
  remove_route-add_routes peer c h = ground arith

  -- A configuration of the interface succeeds exactly when the commands that set the address and
  -- enable forwarding do, whatever became of the routes.
  pub configure_interface_iff :
      (cfg : ConnectionConfig) (c : NetworkConfigManager)
      → let begun = record c { route_approach = RouteConfigApproach.generic_route } in
        let addressed = ran begun (set_address begun cfg.self_index) in
        let routed = add_routes windows cfg.peer_virtual_ip addressed in
        ((configure_interface windows cfg c).1 ≡ true) ↔ (
          (succeeds begun (set_address begun cfg.self_index) ≡ true)
          × (succeeds routed (enable_forwarding routed) ≡ true))
  unfolding configure_interface setup_routing execute_netsh_command
  configure_interface_iff cfg c = ground arith

  -- If the address is refused, the configuration fails, no route is added or deleted and the
  -- firewall is left alone: after the command for the address there run those that reset the
  -- address, delete the multicast route and disable forwarding, and no other.
  pub configure_interface-refused :
      (cfg : ConnectionConfig) (c : NetworkConfigManager)
      → succeeds c (set_address c cfg.self_index) ≡ false
      → let (t, ok) = configure_interface windows cfg c in
        (ok ≡ false)
        × (t.route_approach ≡ RouteConfigApproach.failed)
        × (t.history
            ≡ (((c.history ++ set_address c cfg.self_index ∷ []) ++ reset_address c ∷ [])
                ++ delete_multicast c ∷ [])
              ++ disable_forwarding c ∷ [])
  unfolding configure_interface setup_routing remove_routing remove_route execute_netsh_command
  configure_interface-refused cfg c h = ground arith
