-- ===== src/PeerConnection/Laws.antt =====
-- When a peer counts as lost (`hasTimedOut` of client/src/systemstatemanager.cpp).
use peer_bridge_cli.Common.{ℕ, ◌+◌, ◌*◌, ◌^◌, ◌≤◌, ◌≡◌, true, not, ◌&&◌, ltb, arith}
use peer_bridge_cli.PeerConnection.{PeerConnectionInfo, has_timed_out}

-- The seconds are cut down to whole ones, and these are more than twenty: that is twenty-one
-- seconds, in nanoseconds.
pub has_timed_out_lem :
    (now : ℕ) (p : PeerConnectionInfo)
    → has_timed_out now 20 p ≡ (not (ltb now (p.last_activity + 21 * 10 ^ 9)) && p.connected)
unfolding has_timed_out
has_timed_out_lem now p = ground arith

pub has_timed_out-silent :
    (now : ℕ) (p : PeerConnectionInfo)
    → p.connected ≡ true
    → p.last_activity + 21 * 10 ^ 9 ≤ now
    → has_timed_out now 20 p ≡ true
unfolding has_timed_out
has_timed_out-silent now p on late = ground arith
