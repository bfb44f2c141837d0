-- ===== src/Tests/Start.antt =====
-- Example of a start with an answer of the STUN server that has another attribute in it.
use peer_bridge_cli.Common.{◌++◌, ◌≡◌, refl, Bool, true, some, [], ◌∷◌, codes, arith, replicate}
use peer_bridge_cli.Wire.Layout.{bytes4}
use peer_bridge_cli.Stun.Attributes.{Attribute}
use peer_bridge_cli.Signaling.{connect, wait_rounds, set_callbacks}
use peer_bridge_cli.Signaling.Utf8.{is_utf8}
use peer_bridge_cli.System.State.{P2PSystem, new_system}
use peer_bridge_cli.System.Threads.{World, initialize_system}
use peer_bridge_cli.Run.Start.{
  registration, greeting, binding_response, initialize_system-registers,
}
use peer_bridge_cli.Tests.Fixtures.{online}

abbrev server_name : Attribute
server_name = record { type = 0x8022; value = codes "stun" }

-- The machine of the other examples, with that answer.
abbrev answered : World
answered = record online {
  stun = record {
    reaches = true;
    random = replicate 12 7;
    answer = some (binding_response 0xC6336404 5000 (replicate 16 9) (server_name ∷ []));
  };
}

initialize_system-registers_example :
    (r : P2PSystem × Bool) × ((initialize_system answered (codes "ana") new_system ≡ some r)
      × (r.0.signaling.sent
          ≡ replicate 1 greeting
            ++ registration (codes "ana") (answered.to_string (bytes4 0xC6336404)) 5000
              ∷ replicate 0 greeting))
unfolding connect wait_rounds set_callbacks is_utf8
initialize_system-registers_example =
    initialize_system-registers answered (codes "ana") 0xC6336404 5000 (replicate 16 9)
      (server_name ∷ []) refl refl (omega arith) (omega arith) refl
      ((omega arith, (λ e. omega (arith, e)), omega arith), tt) (omega arith) refl refl refl
