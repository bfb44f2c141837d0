-- ===== src/Run/Preserve.antt =====
-- The handlers of the system under the invariant.
use peer_bridge_cli.Common.{
  ℕ, ◌≡◌, refl, sym, ap, subst, inl, inr, Bool, true, false, not, Option, none, some, Bytes, Text,
  text_eq, arith, if◌then◌else◌, if_both, Bool-cases, Option-cases, OnSome, OnSome-bind,
}
use peer_bridge_cli.Common.Int.{ℤ}
use peer_bridge_cli.StateManager.{
  idle, connecting, connected, StateManager, set_state, is_valid_transition, same_state,
  is_in_state,
}
use peer_bridge_cli.Tun.{start_packet_processing, send_packet, send_round, inject}
use peer_bridge_cli.Network.State.{Wired}
use peer_bridge_cli.Network.Receive.{Received, fault, handled}
use peer_bridge_cli.Network.Connection
use peer_bridge_cli.Network.Events.{Announces, Returned}
use peer_bridge_cli.Routing.{Windows, ConnectionConfig, configure_interface}
use peer_bridge_cli.Signaling.{
  send_greeting, Callback, on_connect, on_chat_request, on_peer_info, on_chat_init,
}
use peer_bridge_cli.System.State.{P2PSystem, wired, rewired, is_tunnelling, with_state}
use peer_bridge_cli.System.Packets.{
  handle_packet_from_tun, forward_packet_to_peer, handle_network_data, deliver_packet_to_tun,
  is_wanted, is_ipv4,
}
use peer_bridge_cli.System.Connection.{
  stop_connection, start_network_interface, handle_peer_connected, assign_ip_addresses, dial,
  handle_connection_init, handle_connection_request, handle_peer_info,
}
use peer_bridge_cli.System.Threads.{handle_callback, after_receive, handle_tun_write}
use peer_bridge_cli.Run.Invariant.{
  Inv, Inv-Mild, Mild, stays, set_idle-Mild, set_connecting-Mild, Announces-Mild,
}
use peer_bridge_cli.Run.Stops.{stop_connection-Inv}

-- A step that leaves the state manager and the tunnel alone.
pub Inv-same :
    {s t : P2PSystem} → Inv s → t.manager ≡ s.manager → is_tunnelling t ≡ is_tunnelling s → Inv t
Inv-same v m k = Inv-Mild v (stays (ap (λ x. x.current_state) m)) k

forward-Inv :
    (now : ℕ) (packet : Bytes) (s : P2PSystem)
    → Inv s
    → OnSome (λ r. Inv (r.0)) (forward_packet_to_peer now packet s)
unfolding forward_packet_to_peer is_tunnelling
forward-Inv now packet s v =
    if_both (OnSome (λ r. Inv (r.0))) (not (is_wanted s.peer_virtual_ip packet)) _ _ v
      (elim (Option-cases s.net) [ inl e ↦ rw e tt | inr (n, e) ↦ simp e (Inv-same v refl refl) ])

pub handle_packet_from_tun-Inv :
    (now : ℕ) (packet : Bytes) (s : P2PSystem)
    → Inv s
    → OnSome Inv (handle_packet_from_tun now packet s)
unfolding handle_packet_from_tun
handle_packet_from_tun-Inv now packet s v =
    if_both (OnSome Inv) (is_ipv4 packet) _ _
      (OnSome-bind (λ r. Inv (r.0)) Inv (forward_packet_to_peer now packet s) _
        (forward-Inv now packet s v) (λ r h. h))
      v

handle_network_data-Inv :
    (packet : Bytes) (s : P2PSystem) → Inv s → Inv (handle_network_data packet s)
unfolding handle_network_data deliver_packet_to_tun is_tunnelling send_packet
handle_network_data-Inv packet s v = Inv-same v (ground arith) (ground arith)

rewired-Inv :
    (s : P2PSystem) (w x : Wired)
    → s.manager ≡ w.manager
    → Inv s
    → Announces w x
    → Inv (rewired s x)
unfolding is_tunnelling
rewired-Inv s w x e v a = Inv-Mild v (subst (λ m. Mild m x.manager) (sym e) (Announces-Mild a)) refl

pub after_receive-Inv :
    (s : P2PSystem) (w : Wired) (r : Received)
    → s.manager ≡ w.manager
    → Inv s
    → Returned (Announces w) r
    → OnSome Inv (after_receive s r)
unfolding after_receive is_tunnelling
after_receive-Inv s w fault e v a = tt
after_receive-Inv s w (handled x none) e v a = rewired-Inv s w x e v a
after_receive-Inv s w (handled x (some p)) e v a =
    handle_network_data-Inv p (rewired s x) (rewired-Inv s w x e v a)

pub handle_tun_write-Inv :
    (allocated : Bool) (s : P2PSystem) → Inv s → Inv (handle_tun_write allocated s)
unfolding handle_tun_write is_tunnelling send_round inject
handle_tun_write-Inv allocated s v = Inv-same v (ground arith) (ground arith)

-- Starting the interface leaves the state alone, and where it succeeds the tunnel is on.
abbrev pub Started : P2PSystem → P2PSystem × Bool → Type 0
Started s (t, ok) = (t.manager ≡ s.manager) × (ok ≡ true → is_tunnelling t ≡ true)

pub start-Started : (s : P2PSystem) → OnSome (Started s) (start_network_interface s)
unfolding start_network_interface is_tunnelling start_packet_processing
start-Started s = elim (Option-cases s.tun) [ inl e ↦ ground arith | inr (t, e) ↦ ground arith ]

pub set_connected-state :
    (m : StateManager)
    → is_in_state m connecting ≡ true
    → (set_state connected m).current_state ≡ connected
unfolding set_state is_valid_transition same_state is_in_state
set_connected-state m h = ground arith

peer_connected-Inv :
    (windows : Windows) (now : ℕ) (s t : P2PSystem) (ok : Bool)
    → is_in_state s.manager connecting ≡ true
    → Started s (t, ok)
    → Inv (if ok then with_state connected t else stop_connection windows now t)
unfolding is_tunnelling
peer_connected-Inv windows now s t true waiting h =
    let e : (set_state connected t.manager).current_state ≡ connected =
      set_connected-state t.manager
        (subst (λ m. is_in_state m connecting ≡ true) (sym (h.0)) waiting) in
    record { up = λ _. h.1 refl; down = λ d. cc }
peer_connected-Inv windows now s t false waiting h = stop_connection-Inv windows now t

pub handle_peer_connected-Inv :
    (windows : Windows) (now : ℕ) (s : P2PSystem)
    → Inv s
    → OnSome Inv (handle_peer_connected windows now s)
unfolding handle_peer_connected
handle_peer_connected-Inv windows now s v = elim (Bool-cases (is_in_state s.manager connecting)) [
  | inr other ↦ simp other v
  | inl waiting ↦ simp waiting (
      OnSome-bind (Started s) Inv (start_network_interface s) _ (start-Started s)
        λ (t, ok) h. peer_connected-Inv windows now s t ok waiting h)
]

pub connect-Mild :
    (make_address : Text → Option Text) (ip : Text) (port : ℤ) (w : Wired)
    → Mild w.manager (Connection.connect_to_peer make_address ip port w).0.manager
unfolding Connection.connect_to_peer
connect-Mild make_address ip port w =
    if_both (λ (r : Wired × Bool). Mild w.manager (r.0.manager)) (Connection.is_connected w.net) _ _
      (stays refl)
      (elim (Option-cases (make_address ip)) [
        | inl e ↦ rw e (stays refl)
        | inr (a, e) ↦ simp e (set_connecting-Mild w.manager)
      ])

dial-Inv :
    (windows : Windows) (make_address : Text → Option Text) (ip : Text) (port : ℤ) (s : P2PSystem)
    → Inv s
    → OnSome Inv (dial windows make_address ip port s)
unfolding dial is_tunnelling
dial-Inv windows make_address ip port s v = elim (Option-cases s.net) [
  | inl e ↦ rw (e, dial) tt
  | inr (n, e) ↦
      let r = Connection.connect_to_peer make_address ip port (wired s n) in
      let h : Inv (rewired s (r.0)) =
        Inv-Mild v (connect-Mild make_address ip port (wired s n)) refl in
      let back : Inv (with_state idle (rewired s (r.0))) =
        Inv-Mild h (set_idle-Mild r.0.manager) refl in
      rw (e, dial) (if_both Inv (r.1) (rewired s (r.0)) (with_state idle (rewired s (r.0))) h back)
]

assign_ip-Inv : (s : P2PSystem) → Inv s → Inv (assign_ip_addresses s)
unfolding assign_ip_addresses is_tunnelling
assign_ip-Inv s v = if_both Inv s.is_host _ _ (Inv-same v refl refl) (Inv-same v refl refl)

handle_connection_init-Inv :
    (windows : Windows) (make_address : Text → Option Text) (name ip : Text) (port : ℤ)
    (s : P2PSystem)
    → Inv s
    → OnSome Inv (handle_connection_init windows make_address name ip port s)
unfolding handle_connection_init is_tunnelling
handle_connection_init-Inv windows make_address name ip port s v =
    let named = record s { peer_username = name; peer_ip = ip; peer_port = port } in
    let p = assign_ip_addresses (with_state connecting named) in
    let cfg : ConnectionConfig = record {
      self_index = if p.is_host then 1 else 2;
      peer_virtual_ip = p.peer_virtual_ip;
    } in
    let q = configure_interface windows cfg p.routing in
    let h : Inv p =
      assign_ip-Inv (with_state connecting named)
        (Inv-Mild v (set_connecting-Mild s.manager) refl) in
    let k : Inv (record p { routing = q.0 }) = Inv-same h refl refl in
    if_both (OnSome Inv) (not (q.1)) (some (record p { routing = q.0 }))
      (dial windows make_address ip port (record p { routing = q.0 })) k
      (dial-Inv windows make_address ip port (record p { routing = q.0 }) k)

pub handle_callback-Inv :
    (windows : Windows) (make_address : Text → Option Text) (c : Callback) (s : P2PSystem)
    → Inv s
    → OnSome Inv (handle_callback windows make_address c s)
unfolding handle_callback handle_connection_request handle_peer_info is_tunnelling
handle_callback-Inv windows make_address (on_connect up) s v =
    if_both Inv up (record s { signaling = send_greeting s.signaling }) s (Inv-same v refl refl) v
handle_callback-Inv windows make_address (on_chat_request requester) s v = Inv-same v refl refl
handle_callback-Inv windows make_address (on_peer_info name ip port) s v =
    if_both Inv (text_eq name s.peer_username) _ _ (Inv-same v refl refl) v
handle_callback-Inv windows make_address (on_chat_init name ip port) s v =
    handle_connection_init-Inv windows make_address name ip port s v
