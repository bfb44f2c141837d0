-- ===== src/PeerConnection.antt =====
-- `PeerConnectionInfo` of client/include/systemstatemanager.hpp and
-- client/src/systemstatemanager.cpp. A time is the count of nanoseconds of the steady clock, and
-- `now` is the clock's reading at the call; the clock does not run backwards.
pub mod Laws
use peer_bridge_cli.Common.{ℕ, ◌-◌, ◌/◌, ◌^◌, Bool, false, ◌&&◌, ltb, if◌then◌else◌}

abbrev pub second : ℕ
second = 10 ^ 9

pub record PeerConnectionInfo : Type 0 where
  pub last_activity : ℕ
  pub connected : Bool

abbrev pub unconnected : ℕ → PeerConnectionInfo
unconnected now = record { last_activity = now; connected = false }

unfoldable pub update_activity : ℕ → PeerConnectionInfo → PeerConnectionInfo
update_activity now p = record p { last_activity = now }

-- The elapsed time is cut down to whole seconds.
unfoldable pub has_timed_out : ℕ → ℕ → PeerConnectionInfo → Bool
has_timed_out now timeout_seconds p =
    ltb timeout_seconds ((now - p.last_activity) / second) && p.connected

unfoldable pub set_connected : ℕ → Bool → PeerConnectionInfo → PeerConnectionInfo
set_connected now connected p =
    let q = record p { connected = connected } in if connected then update_activity now q else q
