-- ===== src/Network/Handlers.antt =====
-- The same events, of completed receive operations, of the timer and of posted tasks.
use peer_bridge_cli.Common.{
  ℕ, ◌-◌, ◌≡◌, inl, inr, refl, false, not, ◌&&◌, none, List, [], ◌∷◌, Bytes, Bool-cases, if_both,
  arith, ◌==◌, if◌then◌else◌,
}
use peer_bridge_cli.PeerConnection.{set_connected, has_timed_out}
use peer_bridge_cli.Network.State.{
  Endpoint, ErrorCode, Task, drop_ack, disconnect_task, is_error, is_aborted, is_recoverable, Wired,
  notify_connection_event, async_send_to, send_hole_punch_packet, start_keep_alive_timer,
}
use peer_bridge_cli.Network.Receive.{
  handled, process_received_data, handle_disconnect, handle_receive_from, start_async_receive,
  run_task, run_posted, check_all_connections, handle_keep_alive,
}
use peer_bridge_cli.Network.Events.{
  Announces, quiet, lost, Returned, Returned-map, Announces-from, Announces-refl, Announces-Same,
  handle_disconnect-Announces, process_received-Announces,
}

-- What `handle_receive_from` does before it looks at the data.
rearm : ErrorCode → Wired → Wired
rearm error w =
    let n = record (w.net) { receives = w.net.receives - 1 } in
    record w { net = if n.socket_open && not (is_aborted error) then start_async_receive n else n }

rearm-connected :
    (error : ErrorCode) (w : Wired) → (rearm error w).net.peer.connected ≡ w.net.peer.connected
unfolding rearm start_async_receive
rearm-connected error w = ground arith

complete :
    (now : ℕ) (error : ErrorCode) (transferred : ℕ) (buffer : Bytes) (sender : Endpoint) (v : Wired)
    → Returned (Announces v) (
        if not (is_error error)
        then process_received_data now transferred buffer sender v
        else if is_aborted error
        then handled v none
        else if is_recoverable error
        then handled v none
        else handled (handle_disconnect now v) none)
complete now ErrorCode.success transferred buffer sender v =
    process_received-Announces now transferred buffer sender v
complete now (ErrorCode.other code) transferred buffer sender v =
    elim (Bool-cases (code == 10035)) [
      | inl soft ↦ rw soft (Announces-refl v)
      | inr hard ↦ rw hard (handle_disconnect-Announces now v)
    ]
complete now _ transferred buffer sender v = Announces-refl v

-- If the handler of a completed receive operation returns, then the connection flag and the event
-- queue have moved together: nothing has changed of the two, or the peer was found and its
-- endpoint queued, or it was lost and that was queued. The state machine has not moved.
pub handle_receive_from-Announces :
    (now : ℕ) (error : ErrorCode) (transferred : ℕ) (buffer : Bytes) (sender : Endpoint) (w : Wired)
    → Returned (Announces w) (handle_receive_from now error transferred buffer sender w)
unfolding handle_receive_from rearm
handle_receive_from-Announces now error transferred buffer sender w =
    Returned-map (Announces (rearm error w)) (Announces w) _
      (λ v a. Announces-from a (rearm-connected error w) refl)
      (complete now error transferred buffer sender (rearm error w))

check_all_connections-Announces : (now : ℕ) (w : Wired) → Announces w (check_all_connections now w)
unfolding check_all_connections has_timed_out notify_connection_event set_connected
check_all_connections-Announces now w = elim (Bool-cases (has_timed_out now 20 w.net.peer)) [
  | inl late ↦ rw late (lost (ground arith) (ground arith) (ground arith))
  | inr fine ↦ rw fine (Announces-refl w)
]

checked :
    (now : ℕ) (w : Wired)
    → Announces w (if w.net.peer.connected then check_all_connections now w else w)
checked now w = elim (Bool-cases w.net.peer.connected) [
  | inl e ↦ simp e (check_all_connections-Announces now w)
  | inr e ↦ simp e (Announces-refl w)
]

Announces-start :
    {w v : Wired} → Announces w v → Announces w (record v { net = start_keep_alive_timer v.net })
unfolding start_keep_alive_timer
Announces-start a =
    Announces-Same a (record { peer = ground arith; manager = refl; text = ground arith })

-- What the timer's handler sends before it checks the connection.
punch : Wired → Wired
punch w = record w { net = send_hole_punch_packet (record (w.net) { timer_armed = false }) }

-- The same of the handler of the keep-alive timer: the connection flag and the event queue stay,
-- or move together.
pub handle_keep_alive-Announces :
    (now : ℕ) (error : ErrorCode) (w : Wired) → Announces w (handle_keep_alive now error w)
unfolding handle_keep_alive punch send_hole_punch_packet async_send_to
handle_keep_alive-Announces now error w =
    if_both (Announces w) (is_aborted error) _ _ (Announces-refl w) (
      if_both (Announces w) (not w.net.running) _ _ (quiet refl refl)
        (Announces-start (Announces-from (checked now (punch w)) refl refl)))

run_task-Announces : (now : ℕ) (t : Task) (w : Wired) → Announces w (run_task now t w)
unfolding run_task
run_task-Announces now (drop_ack seq) w = quiet refl refl
run_task-Announces now disconnect_task w = handle_disconnect-Announces now w

tasks-Announces :
    (now : ℕ) (ts : List Task) (w : Wired)
    → Announces w (elim ts [
      | [] ↦ w
      | task ∷ rest ↦ run_task now task (record w { net = record (w.net) { posted = rest } })
    ])
tasks-Announces now [] w = Announces-refl w
tasks-Announces now (t ∷ ts) w = Announces-from (run_task-Announces now t _) refl refl

-- The same of the next task that a failed send has posted: the connection flag and the event queue
-- stay, or move together.
pub run_posted-Announces : (now : ℕ) (w : Wired) → Announces w (run_posted now w)
unfolding run_posted
run_posted-Announces now w = tasks-Announces now w.net.posted w

-- Whatever completes, a receive operation whose handler returns, the wait of the keep-alive timer
-- or a task that a failed send has posted, the connection flag and the event queue have moved
-- together: nothing has changed of the two, or the peer was found and its endpoint queued, or it
-- was lost and that was queued. The state machine has not moved.
pub completions-Announces :
    (now : ℕ) (error : ErrorCode) (transferred : ℕ) (buffer : Bytes) (sender : Endpoint) (w : Wired)
    → Returned (Announces w) (handle_receive_from now error transferred buffer sender w)
      × Announces w (handle_keep_alive now error w)
      × Announces w (run_posted now w)
completions-Announces now error transferred buffer sender w = (
  handle_receive_from-Announces now error transferred buffer sender w,
  handle_keep_alive-Announces now error w,
  run_posted-Announces now w,
)
