-- ===== src/Server/Registration.antt =====
-- Registration with the signaling server (backend/app.py).
use peer_bridge_cli.Common.{
  ℕ, Bool, true, false, Option, none, some, List, [], ◌∷◌, ◌++◌, Text, codes, text_eq, length, ◌≡◌,
  refl, sym, subst, ap, ◌∙◌, arith, ◌==◌, Bool-cases, inl, inr,
}
use peer_bridge_cli.Common.Dict.{
  Key, get, put, remove, get-put_self, get-put_other, get-put_new, get-remove, get-cong,
}
use peer_bridge_cli.Server.{
  dict, send, find_user, on_message, on_dict, register, enroll, add_user, received, finish,
}
use peer_bridge_cli.Server.State.{Python, User, Server, socket_key}
use peer_bridge_cli.Server.Users.{Registered, get_elem?-snoc, get_elem?-append}

module _ {V : Type 0} (py : Python V) where
  open py use {text, is_truthy, is_hashable, key, shown, same_text}

  -- A message that asks for a registration and has all that it takes.
  pub record Complete (message : Text → Option V) (name ip port : V) : Type 0 where
    pub typed : message (codes "type") ≡ some (text (codes "register"))
    pub named : message (codes "username") ≡ some name
    pub at_ip : message (codes "ip") ≡ some ip
    pub at_port : message (codes "port") ≡ some port
    pub hashable : is_hashable name ≡ true
    pub name_true : is_truthy name ≡ true
    pub ip_true : is_truthy ip ≡ true
    pub port_true : is_truthy port ≡ true

  gone : {K B : Type 0} (k : Key K) (i : K) (d : List (K × B)) → get k i (remove k i d) ≡ none
  gone k i d = ground (arith, get-remove k i i d, k.same_refl i)

  stays :
      {K B : Type 0} (k : Key K) (i j : K) (v : B) (d : List (K × B))
      → k.same j i ≡ false
      → get k i d ≡ some v
      → get k i (remove k j d) ≡ some v
  stays k i j v d h e = ground (arith, get-remove k i j d)

  module _ (alive : ℕ → Bool) where
    abbrev pub fresh_user : ℕ → V → V → V → User V
    fresh_user w name ip port = record {
      websocket = w;
      username = name;
      ip = ip;
      port = port;
      pending_chat_request = none;
    }

    -- What a registration leaves.
    abbrev registered : Server V → ℕ → V → V → V → Server V
    registered s w name ip port = record s {
      users = s.users ++ fresh_user w name ip port ∷ [];
      connected_users = put socket_key w (length s.users) s.connected_users;
      username_to_user = put key name (length s.users) s.username_to_user;
      handlers = put socket_key w (some (length s.users)) s.handlers;
      sent =
          s.sent
          ++ (
            w,
            (codes "type", text (codes "register-ack"))
                ∷ (codes "message", text (codes "Registered as " ++ shown name))
                ∷ [],
          )
            ∷ [];
    }

    register_lem :
        (s : Server V) (w : ℕ) (name ip port : V) (message : Text → Option V)
        → alive w ≡ true
        → Complete message name ip port
        → get key name s.username_to_user ≡ none
        → register py alive w message s ≡ (registered s w name ip port, some tt)
    unfolding register enroll add_user find_user send
    register_lem s w name ip port message up c free =
        simp
          (c.named, c.at_ip, c.at_port, c.hashable, c.name_true, c.ip_true, c.port_true, free, up)

    received-registered :
        (s : Server V) (w : ℕ) (name ip port : V) (message : Text → Option V)
        → alive w ≡ true
        → Complete message name ip port
        → get key name s.username_to_user ≡ none
        → received py alive w (dict message) s ≡ registered s w name ip port
    unfolding received on_message on_dict text_eq
    received-registered s w name ip port message up c free =
        simp (c.typed, same_text, register_lem s w name ip port message up c free)

    -- If a connection sends a registration with a name, an address and a port that are not empty,
    -- the name can be hashed and is not taken, and the server can send to the connection, then a
    -- new user with that name, address and port and no pending request is registered for the
    -- connection, and whoever is registered on another connection stays so.
    pub register-Registered :
        (s : Server V) (w : ℕ) (name ip port : V) (message : Text → Option V)
        → alive w ≡ true
        → Complete message name ip port
        → get key name s.username_to_user ≡ none
        → let t = received py alive w (dict message) s in
          Registered py t w (length s.users) (fresh_user w name ip port)
          × ((v x : ℕ) (u : User V)
              → Registered py s v x u
              → (w == v) ≡ false
              → Registered py t v x u)
    register-Registered s w name ip port message up c free =
        let done = received-registered s w name ip port message up c free in
        (
          subst (λ (z : Server V). Registered py z w (length s.users) (fresh_user w name ip port))
              (sym done)
              (record {
                handler = get-put_self socket_key w (some (length s.users)) s.handlers;
                object = get_elem?-snoc py s.users (fresh_user w name ip port);
                socket = refl;
                named = get-put_self key name (length s.users) s.username_to_user;
                hashable = c.hashable;
                truthy = c.name_true;
              }),
          λ v x u r h.
              subst (λ (z : Server V). Registered py z v x u) (sym done)
                (record {
                  handler =
                      get-put_other socket_key v w (some (length s.users)) s.handlers h ∙ r.handler;
                  object = get_elem?-append py s.users _ x u r.object;
                  socket = r.socket;
                  named =
                      get-put_new key u.username name (length s.users) x s.username_to_user free
                        r.named;
                  hashable = r.hashable;
                  truthy = r.truthy;
                }),
        )

    -- The end of the connection after that.
    ended_lem :
        (s : Server V) (w : ℕ) (name ip port : V)
        → let z = registered s w name ip port in
          finish py w z ≡ record z {
            handlers = remove socket_key w z.handlers;
            username_to_user = remove key name z.username_to_user;
            connected_users = remove socket_key w z.connected_users;
          }
    unfolding finish
    ended_lem s w name ip port =
        rw (get-put_self socket_key w (length s.users) s.connected_users, finish)
          (rw (get_elem?-snoc py s.users (fresh_user w name ip port), finish) refl)

    -- If the user of a connection is registered and the connection sends another complete
    -- registration, with a name that is not taken, then once the connection has ended it is listed
    -- no more, but its first name still leads to the first user, so that nobody else can register
    -- it. The server can send to the connection when the second registration comes in.
    pub finish-second_name :
        (s : Server V) (w r : ℕ) (u : User V) (name ip port : V) (message : Text → Option V)
        → Registered py s w r u
        → alive w ≡ true
        → Complete message name ip port
        → get key name s.username_to_user ≡ none
        → let t = finish py w (received py alive w (dict message) s) in
          (get socket_key w t.connected_users ≡ none)
          × (get key u.username t.username_to_user ≡ some r)
    finish-second_name s w r u name ip port message x up c free =
        let k = length s.users in
        let z = registered s w name ip port in
        let done = received-registered s w name ip port message up c free in
        let other : key.same name u.username ≡ false =
          elim (Bool-cases (key.same name u.username)) [
            | inl same ↦ cc (get-cong key name u.username s.username_to_user same, x.named)
            | inr apart ↦ apart
          ] in
        let ended : finish py w z ≡ record z {
          handlers = remove socket_key w z.handlers;
          username_to_user = remove key name z.username_to_user;
          connected_users = remove socket_key w z.connected_users;
        } =
          ended_lem s w name ip port in
        let both = ap (finish py w) done ∙ ended in
        (
          ap (λ (y : Server V). get socket_key w y.connected_users) both
              ∙ gone socket_key w z.connected_users,
          ap (λ (y : Server V). get key u.username y.username_to_user) both
              ∙ stays key u.username name r z.username_to_user other
                  (get-put_new key u.username name k r s.username_to_user free x.named),
        )
