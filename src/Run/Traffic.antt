-- ===== src/Run/Traffic.antt =====
-- What a client ever puts on the wire.
use peer_bridge_cli.Common.{
  ℕ, ◌^◌, ◌≤◌, ◌<◌, ◌≡◌, Option, some, List, Bytes, Text, arith, length, All, All-map, OnSome-some,
  ap,
}
use peer_bridge_cli.Routing.{Windows}
use peer_bridge_cli.Signaling.{JsonReader}
use peer_bridge_cli.Network.State.{Endpoint, UdpNetwork}
use peer_bridge_cli.Network.Datagrams.{
  IsDatagram, bare, loaded, Sound, send_complete-Sound, send_message-Sound,
}
use peer_bridge_cli.Network.Datagrams.Handlers.{
  listening-Sound, handle_receive_from-Sound, run_posted-Sound, handle_keep_alive-Sound,
  connect-Sound, stop_connection-Sound, shutdown-Sound,
}
use peer_bridge_cli.System.State.{P2PSystem}
use peer_bridge_cli.System.Threads.{World}
use peer_bridge_cli.Run.{Event}
use peer_bridge_cli.Run.History.{history}
use peer_bridge_cli.Run.Links.{Kept, Holds}
use peer_bridge_cli.Run.Links.Steps.{history-Holds}

Sound-Kept : Kept Sound
Sound-Kept = record {
  listens = listening-Sound;
  receives = handle_receive_from-Sound;
  completes = send_complete-Sound;
  posted = run_posted-Sound;
  expires = handle_keep_alive-Sound;
  sends = send_message-Sound;
  connects = connect-Sound;
  stops = stop_connection-Sound;
  shuts = shutdown-Sound;
}

-- A packet of the protocol fits into one datagram.
IsDatagram-length : (p : Bytes) → IsDatagram p → (16 ≤ length p) × (length p ≤ 65507)
IsDatagram-length p (bare t seq h e) = let l = ap length e in (omega (arith, l), omega (arith, l))
IsDatagram-length p (loaded seq payload fits e) =
    let l = ap length e in (omega (arith, l), omega (arith, l, fits))

module _ {J : Type 0} (reader : JsonReader J) (windows : Windows)
    (make_address : Text → Option Text) (w : World) (username : Text) (events : List (ℕ × Event))
    {t : P2PSystem} (n : UdpNetwork) where
  sound : history reader windows make_address w username events ≡ some t → t.net ≡ some n → Sound n
  sound h e =
      OnSome-some Sound t.net
        (OnSome-some (Holds Sound Sound-Kept) _
          (history-Holds Sound Sound-Kept windows make_address reader w username events) h)
        e

  -- After any history of a client that comes to a result, every datagram that its link has ever
  -- sent is a packet of the protocol: a header with four zeros, of a hole punch, an
  -- acknowledgement or a goodbye, or a message with the length of its data and the data. It has 16
  -- bytes at least and 65507 at most. The counter and the numbers that wait for an acknowledgement
  -- are below 2 ^ 32.
  pub history-datagrams :
      history reader windows make_address w username events ≡ some t
      → t.net ≡ some n
      → All
          (λ (d : Endpoint × Bytes).
            IsDatagram (d.1) × (16 ≤ length (d.1)) × (length (d.1) ≤ 65507))
          n.sent
        × (n.next_seq < 2 ^ 32)
        × All (λ (a : ℕ × ℕ). a.0 < 2 ^ 32) n.pending_acks
  history-datagrams h e =
      let s = sound h e in
      (
        All-map (λ (d : Endpoint × Bytes). IsDatagram (d.1)) _ n.sent
            (λ d k. (k, (IsDatagram-length (d.1) k).0, (IsDatagram-length (d.1) k).1)) s.sent,
        s.next,
        s.acks,
      )
