-- ===== src/Tests/Server.antt =====
-- Examples of the tables of the signaling server.
use peer_bridge_cli.Common.{
  ℕ, ◌≡◌, refl, false, some, none, List, [], ◌∷◌, codes, length, ◌==◌, text_eq,
}
use peer_bridge_cli.Common.Int.{pos}
use peer_bridge_cli.Common.Dict.{get}
use peer_bridge_cli.Signaling.{JsonObject, JsonValue, str, int, typed, field}
use peer_bridge_cli.Server.{dict, Happening, opens, says, closes, serve_all, received, finish}
use peer_bridge_cli.Server.State.{User, socket_key, new_server}
use peer_bridge_cli.Server.Users.{Registered}
use peer_bridge_cli.Server.Registration.{
  Complete, fresh_user, register-Registered, finish-second_name,
}
use peer_bridge_cli.Server.Tables.{IsSound}
use peer_bridge_cli.Server.History.{history-IsSound}
use peer_bridge_cli.Server.Values.{json_values, text_key}
use peer_bridge_cli.Tests.Rendezvous.{ana, both_known, shown, ana-Registered, everyone, loaded}

abbrev eve_object : JsonObject
eve_object =
    typed (codes "register")
    ∷ field (codes "username") (codes "eve")
    ∷ field (codes "ip") (codes "198.51.100.7")
    ∷ (codes "port", int (pos 7000))
    ∷ []

eve-Complete :
    Complete
      (json_values shown)
      (loaded eve_object)
      (str (codes "eve"))
      (str (codes "198.51.100.7"))
      (int (pos 7000))
unfolding get text_key text_eq
eve-Complete = record {
  typed = refl;
  named = refl;
  at_ip = refl;
  at_port = refl;
  hashable = refl;
  name_true = refl;
  ip_true = refl;
  port_true = refl;
}

register-Registered_example :
    let t = received (json_values shown) everyone 3 (dict (loaded eve_object)) both_known in
    Registered (json_values shown) t 3 (length both_known.users) (
      fresh_user
        (json_values shown)
        everyone
        3
        (str (codes "eve"))
        (str (codes "198.51.100.7"))
        (int (pos 7000)))
    × ((v x : ℕ) (u : User JsonValue)
        → Registered (json_values shown) both_known v x u
        → (3 == v) ≡ false
        → Registered (json_values shown) t v x u)
unfolding get text_eq
register-Registered_example =
    register-Registered (json_values shown) everyone both_known 3 (str (codes "eve"))
      (str (codes "198.51.100.7")) (int (pos 7000)) (loaded eve_object) refl eve-Complete refl

finish-second_name_example :
    let t =
      finish
        (json_values shown)
        1
        (received (json_values shown) everyone 1 (dict (loaded eve_object)) both_known) in
    (get socket_key 1 t.connected_users ≡ none)
    × (get (json_values shown).key (str (codes "ana")) t.username_to_user ≡ some 0)
unfolding get text_eq
finish-second_name_example =
    finish-second_name (json_values shown) everyone both_known 1 0 ana (str (codes "eve"))
      (str (codes "198.51.100.7")) (int (pos 7000)) (loaded eve_object) ana-Registered refl
      eve-Complete refl

abbrev a_day : List (Happening JsonValue)
a_day =
    opens 1
    ∷ says everyone 1 (dict (loaded eve_object))
    ∷ opens 2
    ∷ says everyone 2 (dict (loaded (typed (codes "chat-accept") ∷ [])))
    ∷ closes 1
    ∷ []

history-IsSound_example :
    IsSound (json_values shown) (serve_all (json_values shown) a_day new_server)
history-IsSound_example = history-IsSound (json_values shown) a_day
