-- ===== src/Server/Tables.antt =====
-- What the tables of the signaling server keep to, whatever is sent to it.
use peer_bridge_cli.Common.{
  ℕ, Bool, true, false, Option, none, some, List, [], ◌∷◌, ◌++◌, get_elem?, length, ◌==◌, ==_iff,
  ◌≡◌, sym, ap, ◌∙◌, arith, Bool-cases, Option-cases, inl, inr,
}
use peer_bridge_cli.Common.Dict.{
  Key, get, put, remove, get-put, get-remove, get-cong, get-put_new, get-put_self,
}
use peer_bridge_cli.Server.{add_user, finish, opened}
use peer_bridge_cli.Server.State.{
  Python, User, Server, Reply, new_server, socket_key, ==-refl, set_pending,
}
use peer_bridge_cli.Server.Users.{get-set_pending, get_elem?-snoc, get_elem?-append}

module _ {V : Type 0} (py : Python V) where
  open py use {text, key}

  -- A handler's user is the one of its connection; that one has been made for the connection, and
  -- its name leads to it; and a name leads to a user that has the name.
  pub record IsSound (s : Server V) : Type 0 where
    pub own :
        (w r : ℕ)
        → get socket_key w s.handlers ≡ some (some r)
        → get socket_key w s.connected_users ≡ some r
    pub known :
        (w r : ℕ)
        → get socket_key w s.connected_users ≡ some r
        → (u : User V) × (get_elem? s.users r ≡ some u)
          × (u.websocket ≡ w)
          × (get key u.username s.username_to_user ≡ some r)
    pub named :
        (name : V) (r : ℕ)
        → get key name s.username_to_user ≡ some r
        → (u : User V) × (get_elem? s.users r ≡ some u) × (key.same u.username name ≡ true)

  pub new_server-IsSound : IsSound new_server
  unfolding get
  new_server-IsSound = record { own = λ w r h. cc; known = λ w r h. cc; named = λ n r h. cc }

  pub opened-IsSound : (w : ℕ) (s : Server V) → IsSound s → IsSound (opened w s)
  unfolding opened
  opened-IsSound w s v = record {
    own = λ w' r h. v.own w' r (ground (arith, get-put socket_key w' w none s.handlers));
    known = v.known;
    named = v.named;
  }

  -- The entry that is left was there, under another key.
  left_there :
      {ℓ₁ : Type 0} {B : Type 0} (k : Key ℓ₁) (i j : ℓ₁) (v : B) (d : List (ℓ₁ × B))
      → get k i (remove k j d) ≡ some v
      → (k.same j i ≡ false) × (get k i d ≡ some v)
  left_there k i j v d h = ground (arith, get-remove k i j d)

  left-IsSound :
      (w : ℕ) (s : Server V)
      → IsSound s
      → IsSound (record s { handlers = remove socket_key w s.handlers })
  left-IsSound w s v = record {
    own = λ w' r h. v.own w' r ((left_there socket_key w' w (some r) s.handlers h).1);
    known = v.known;
    named = v.named;
  }

  removed-IsSound :
      (w r : ℕ) (u : User V) (s : Server V)
      → IsSound s
      → get socket_key w s.connected_users ≡ some r
      → get_elem? s.users r ≡ some u
      → IsSound (record s {
        handlers = remove socket_key w s.handlers;
        username_to_user = remove key u.username s.username_to_user;
        connected_users = remove socket_key w s.connected_users;
      })
  removed-IsSound w r u s v e o = record {
    own = λ w' r' h.
        let (apart, there) = left_there socket_key w' w (some r') s.handlers h in
        ground (arith, get-remove socket_key w' w s.connected_users, v.own w' r' there);
    known = λ w' r' h.
        let (apart, there) = left_there socket_key w' w r' s.connected_users h in
        let (u₀, o₀, at₀, led₀) = v.known w r e in
        let (u', o', at', led) = v.known w' r' there in
        (
          u',
          o',
          at',
          elim (Bool-cases (key.same u.username u'.username)) [
            | inl equal ↦
                cc (get-cong key u.username u'.username s.username_to_user equal, ==-refl w)
            | inr other ↦ ground (arith, get-remove key u'.username u.username s.username_to_user)
          ],
        );
    named =
        λ name r' h. v.named name r' ((left_there key name u.username r' s.username_to_user h).1);
  }

  pub finish-IsSound : (w : ℕ) (s : Server V) → IsSound s → IsSound (finish py w s)
  unfolding finish
  finish-IsSound w s v = elim (Option-cases (get socket_key w s.connected_users)) [
    | inl gone ↦ rw (gone, finish) (left-IsSound w s v)
    | inr (r, e) ↦
        let (u, o, at, led) = v.known w r e in
        rw (e, finish) (rw (o, finish) (removed-IsSound w r u s v e o))
  ]

  put_here :
      {K : Type 0} {B : Type 0} (k : Key K) (i j : K) (v x : B) (d : List (K × B))
      → k.same j i ≡ true
      → get k i (put k j v d) ≡ some x
      → v ≡ x
  put_here k i j v x d same h = ground (arith, get-put k i j v d)

  put_elsewhere :
      {K : Type 0} {B : Type 0} (k : Key K) (i j : K) (v x : B) (d : List (K × B))
      → k.same j i ≡ false
      → get k i (put k j v d) ≡ some x
      → get k i d ≡ some x
  put_elsewhere k i j v x d other h = ground (arith, get-put k i j v d)

  -- A new user under a free name.
  pub add_user-IsSound :
      (alive : ℕ → Bool) (w : ℕ) (name ip port : V) (s : Server V)
      → get key name s.username_to_user ≡ none
      → IsSound s
      → IsSound (add_user py alive w name ip port s).0
  unfolding add_user
  add_user-IsSound alive w name ip port s free v =
      let k = length s.users in
      let u : User V = record {
        websocket = w;
        username = name;
        ip = ip;
        port = port;
        pending_chat_request = none;
      } in
      let made : (r : ℕ) → k ≡ r → get_elem? (s.users ++ u ∷ []) r ≡ some u =
        λ r e. ap (get_elem? (s.users ++ u ∷ [])) (sym e) ∙ get_elem?-snoc py s.users u in
      record {
        own = λ w' r h. ground (
          arith,
          get-put socket_key w' w (some k) s.handlers,
          get-put socket_key w' w k s.connected_users,
          v.own w' r,
        );
        known = λ w' r h. elim (Bool-cases (w == w')) [
          | inl same ↦
              let here : k ≡ r = put_here socket_key w' w k r s.connected_users same h in
              (
                u,
                made r here,
                (==_iff w w').0 same,
                get-put_self key name k s.username_to_user ∙ ap some here,
              )
          | inr other ↦
              let (x, o, at, led) =
                v.known w' r (put_elsewhere socket_key w' w k r s.connected_users other h) in
              (
                x,
                get_elem?-append py s.users (u ∷ []) r x o,
                at,
                get-put_new key x.username name k r s.username_to_user free led,
              )
        ];
        named = λ n r h. elim (Bool-cases (key.same name n)) [
          | inl same ↦ (u, made r (put_here key n name k r s.username_to_user same h), same)
          | inr other ↦
              let (x, o, same) =
                v.named n r (put_elsewhere key n name k r s.username_to_user other h) in
              (x, get_elem?-append py s.users (u ∷ []) r x o, same)
        ];
      }

  -- What the tables do not show: what is sent, and what is pending.
  pub sent-IsSound :
      (s : Server V) (sent : List (ℕ × Reply V)) → IsSound s → IsSound (record s { sent = sent })
  sent-IsSound s sent v = record { own = v.own; known = v.known; named = v.named }

  pub pend-IsSound :
      (s : Server V) (k : ℕ) (request : Option V)
      → IsSound s
      → IsSound (record s { users = set_pending k request s.users })
  pend-IsSound s k request v = record {
    own = v.own;
    known = λ w r h.
        let (u, o, at, led) = v.known w r h in
        let (p, o') = get-set_pending py s.users k r request u o in
        (record u { pending_chat_request = p }, o', at, led);
    named = λ name r h.
        let (u, o, same) = v.named name r h in
        let (p, o') = get-set_pending py s.users k r request u o in
        (record u { pending_chat_request = p }, o', same);
  }
