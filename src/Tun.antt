-- ===== src/Tun.antt =====
-- client/include/TUNInterface.hpp and client/src/TUNInterface.cpp: the virtual network interface.
--
-- A handle or function pointer is kept as whether it is null, and `joinable` is kept of the two
-- threads, which are started and joined together. What Wintun and Windows answer is an argument:
-- the exports of the library, whether the adapter is opened or made, whether a session starts,
-- whether a send buffer is allocated.
pub mod Laws
use peer_bridge_cli.Common.{
  ℕ, Bool, true, false, ◌&&◌, ◌||◌, not, Option, none, some, List, [], ◌∷◌, ◌++◌, Bytes, Text,
  codes, is_empty, if◌then◌else◌,
}

pub record Tun : Type 0 where
  pub module_loaded : Bool
  pub adapter : Bool
  pub session : Bool
  pub running : Bool
  pub threads : Bool
  pub outgoing : List Bytes
  -- Packets passed to `WintunSendPacket`.
  pub injected : List Bytes
  pub has_callback : Bool

abbrev pub new_tun : Tun
new_tun = record {
  module_loaded = false;
  adapter = false;
  session = false;
  running = false;
  threads = false;
  outgoing = [];
  injected = [];
  has_callback = false;
}

-- What the system answers while `initialize` runs. `exports` tells which functions the library has.
pub record Wintun : Type 0 where
  pub loads : Bool
  pub exports : Text → Bool
  pub opens : Bool
  pub creates : Bool
  pub starts : Bool

-- `WintunDeleteDriver` is looked up too, and may be missing.
unfoldable pub load_wintun_functions : (Text → Bool) → Bool
load_wintun_functions exports =
    exports (codes "WintunOpenAdapter")
    && (exports (codes "WintunCreateAdapter")
        && (exports (codes "WintunStartSession")
            && (exports (codes "WintunAllocateSendPacket")
                && (exports (codes "WintunSendPacket")
                    && (exports (codes "WintunReceivePacket")
                        && (exports (codes "WintunReleaseReceivePacket")
                            && (exports (codes "WintunEndSession")
                                && (exports (codes "WintunCloseAdapter")
                                    && (exports (codes "WintunGetAdapterLUID")
                                        && exports (codes "WintunGetReadWaitEvent"))))))))))

unfoldable pub initialize : Wintun → Tun → Tun × Bool
initialize w t =
    if not w.loads
    then (record t { module_loaded = false }, false)
    else if not (load_wintun_functions w.exports)
    then (record t { module_loaded = false }, false)
    else if not (w.opens || w.creates)
    then (record t { module_loaded = false; adapter = false }, false)
    else if not w.starts
    then (record t { module_loaded = false; adapter = false; session = false }, false)
    else (record t { module_loaded = true; adapter = true; session = true }, true)

unfoldable pub start_packet_processing : Tun → Tun × Bool
start_packet_processing t =
    if not t.adapter || not t.session
    then (t, false)
    else if t.running
    then (t, false)
    else (record t { running = true; threads = true }, true)

unfoldable pub stop_packet_processing : Tun → Tun
stop_packet_processing t = record t { running = false; threads = false; outgoing = [] }

-- What a round of the receive thread meets: a packet, or else the end of a wait.
pub data WaitResult : Type 0 where
  wait_timeout wait_object_0 wait_failed : WaitResult

-- The thread goes on, having passed a packet to the callback or not, or it leaves its loop.
pub data Round : Type 0 where
  go_on : Option Bytes → Round
  leave : Round

-- One round of `receiveThreadFunc`.
unfoldable pub receive_round : Option Bytes → WaitResult → Tun → Round
receive_round packet wait t = if not t.running then leave else elim packet [
  | some bytes ↦ go_on (if t.has_callback then some bytes else none)
  | none ↦ elim wait [
    | WaitResult.wait_timeout ↦ go_on none
    | WaitResult.wait_object_0 ↦ go_on none
    | WaitResult.wait_failed ↦ leave
  ]
]

-- What is done with the packet at the queue's front. An empty one is dropped.
unfoldable pub inject : Bool → Bytes → Tun → Tun
inject allocated packet t =
    if is_empty packet
    then t
    else if allocated
    then record t { injected = t.injected ++ packet ∷ [] }
    else t

-- One round of `sendThreadFunc`; `none` is the end of the thread.
unfoldable pub send_round : Bool → Tun → Option Tun
send_round allocated t = if not t.running then none else elim t.outgoing [
  | [] ↦ some t
  | packet ∷ rest ↦ some (inject allocated packet (record t { outgoing = rest }))
]

unfoldable pub send_packet : Bytes → Tun → Tun × Bool
send_packet packet t =
    if not t.running then (t, false) else (record t { outgoing = t.outgoing ++ packet ∷ [] }, true)

unfoldable pub set_packet_callback : Tun → Tun
set_packet_callback t = record t { has_callback = true }

unfoldable pub is_running : Tun → Bool
is_running t = t.running

unfoldable pub close : Tun → Tun
close t =
    let s = if t.running then stop_packet_processing t else t in
    record s { session = false; adapter = false; module_loaded = false }

-- `getNarrowAlias`: the adapter's LUID and its alias, where Windows finds them.
unfoldable pub get_narrow_alias : Bool → Option Text → Text
get_narrow_alias luid_found alias =
    if not luid_found then [] else elim alias [ none ↦ [] | some name ↦ name ]
