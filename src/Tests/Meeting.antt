-- ===== src/Tests/Meeting.antt =====
-- Examples of how two clients meet and part.
use peer_bridge_cli.Common.{◌^◌, ◌*◌, ◌≡◌, refl, false, some, ◌++◌, replicate, arith}
use peer_bridge_cli.StateManager.{fresh}
use peer_bridge_cli.Wire.{PacketType}
use peer_bridge_cli.Wire.Layout.{header}
use peer_bridge_cli.Network.State.{ErrorCode}
use peer_bridge_cli.System.State.{P2PSystem}
use peer_bridge_cli.Tun.{Tun}
use peer_bridge_cli.Run.{run, datagram, timer}
use peer_bridge_cli.Run.Handshake.{Obeys}
use peer_bridge_cli.Run.Loss.{Lost, goodbye, silence, then_monitor, Loss-disconnects}
use peer_bridge_cli.Tests.Fixtures.{there, live, resting, tunnel, host, guest, willing, init_reader}

abbrev pub quiet_tunnel : Tun
quiet_tunnel = record tunnel { running = false; threads = false }

abbrev pub calm_host : P2PSystem
calm_host = record host { manager = fresh; net = some resting; tun = some quiet_tunnel }

abbrev pub calm_guest : P2PSystem
calm_guest = record guest { manager = fresh; net = some resting; tun = some quiet_tunnel }

pub willing-Obeys : Obeys willing
willing-Obeys history command = refl

Loss-disconnects_example :
    ((v : P2PSystem) × (run init_reader willing some
          (then_monitor init_reader willing some 5 6 (
            datagram ErrorCode.success 16
              (header PacketType.disconnect 3 ++ (replicate 4 0))
              there))
          host
        ≡ some v)
      × Lost v)
    × ((v : P2PSystem) × (run init_reader willing some
            (then_monitor init_reader willing some
              (30 * 10 ^ 9)
              (31 * 10 ^ 9)
              (timer ErrorCode.success))
            host
          ≡ some v)
        × Lost v)
Loss-disconnects_example = (
  Loss-disconnects init_reader willing some 5 6 _ host live refl refl
      (goodbye {seq = 3} {rest = replicate 4 0} {sender = there} (omega arith) refl),
  Loss-disconnects init_reader willing some (30 * 10 ^ 9) (31 * 10 ^ 9) _ host live refl refl
      (silence {error = ErrorCode.success} refl refl refl (omega arith)),
)
