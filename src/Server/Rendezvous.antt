-- ===== src/Server/Rendezvous.antt =====
-- How the signaling server brings two users together.
use peer_bridge_cli.Common.{
  ℕ, Bool, true, Option, none, some, [], ◌∷◌, ◌++◌, Text, codes, text_eq, get_elem?, ◌≡◌, refl, sym,
  ap, ◌∙◌, arith,
}
use peer_bridge_cli.Server.{
  dict, send, own_user, deref, find_user, pend, on_message, on_dict, start_chat, tell_peer,
  pass_request, accept_chat, own_request, request_of, introduce, introduction, chat_request,
  received,
}
use peer_bridge_cli.Server.Users.{
  Registered, pending, get-set_pending_self, get-set_pending, pended,
}
use peer_bridge_cli.Server.State.{Python, User, Server, Reply, set_pending}

module _ {V : Type 0} (py : Python V) where
  open py use {text, is_truthy, is_hashable, key, shown, same_text}

  module _ (alive : ℕ → Bool) where
    sends :
        (w : ℕ) (reply : Reply V) (s : Server V)
        → alive w ≡ true
        → send py alive w reply s ≡ (record s { sent = s.sent ++ (w, reply) ∷ [] }, some tt)
    unfolding send
    sends w reply s h = rw h

    owned :
        (s : Server V) (w r : ℕ) (u : User V)
        → Registered py s w r u
        → own_user py alive w s ≡ (s, some (some r))
    unfolding own_user
    owned s w r u x = rw (x.handler, own_user)

    looked_up :
        (s : Server V) (w r : ℕ) (u : User V)
        → Registered py s w r u
        → find_user py alive (some u.username) s ≡ (s, some (some r))
    unfolding find_user
    looked_up s w r u x = rw (x.hashable, x.named)

    read :
        (s : Server V) (r : ℕ) (u : User V)
        → get_elem? s.users r ≡ some u
        → deref py alive r s ≡ (s, some u)
    unfolding deref
    read s r u e = rw e

    starts :
        (s : Server V) (a b ra rb : ℕ) (u v : User V) (data_get : Text → Option V)
        → Registered py s a ra u
        → Registered py s b rb v
        → alive b ≡ true
        → data_get (codes "target") ≡ some v.username
        → start_chat py alive a data_get s ≡ (
          record s {
            users = set_pending rb (some u.username) s.users;
            sent = s.sent ++ (b, chat_request py u) ∷ [];
          },
          some tt,
        )
    unfolding start_chat pass_request pend
    starts s a b ra rb u v data_get x y up target = simp (
      owned s a ra u x,
      target,
      looked_up s b rb v y,
      read s ra u x.object,
      read s rb v y.object,
      y.socket,
      sends b (chat_request py u) s up,
    )

    -- A request to a registered user comes to that user, and stays pending there.
    start_chat_lem :
        (s : Server V) (a b ra rb : ℕ) (u v : User V) (data_get : Text → Option V)
        → Registered py s a ra u
        → Registered py s b rb v
        → alive b ≡ true
        → data_get (codes "type") ≡ some (text (codes "start-chat"))
        → data_get (codes "target") ≡ some v.username
        → received py alive a (dict data_get) s ≡ record s {
          users = set_pending rb (some u.username) s.users;
          sent = s.sent ++ (b, chat_request py u) ∷ [];
        }
    unfolding received on_message on_dict text_eq
    start_chat_lem s a b ra rb u v data_get x y up type target =
        simp (type, same_text, starts s a b ra rb u v data_get x y up target)

    looks :
        (s : Server V) (a b rb : ℕ) (v : User V) (data_get : Text → Option V)
        → Registered py s b rb v
        → alive a ≡ true
        → data_get (codes "username") ≡ some v.username
        → tell_peer py alive a data_get s
          ≡ (record s { sent = s.sent ++ (a, introduction py (codes "peer-info") v) ∷ [] }, some tt)
    unfolding tell_peer
    looks s a b rb v data_get y up target = simp (
      target,
      looked_up s b rb v y,
      read s rb v y.object,
      sends a (introduction py (codes "peer-info") v) s up,
    )

    -- Who asks for a registered user is told where that user is.
    pub tell_peer_lem :
        (s : Server V) (a b rb : ℕ) (v : User V) (data_get : Text → Option V)
        → Registered py s b rb v
        → alive a ≡ true
        → data_get (codes "type") ≡ some (text (codes "get-peer"))
        → data_get (codes "username") ≡ some v.username
        → received py alive a (dict data_get) s
          ≡ record s { sent = s.sent ++ (a, introduction py (codes "peer-info") v) ∷ [] }
    unfolding received on_message on_dict text_eq
    tell_peer_lem s a b rb v data_get y up type target =
        simp (type, same_text, looks s a b rb v data_get y up target)

    pends :
        (s : Server V) (r : ℕ) (request : Option V)
        → pend py alive r request s ≡ (record s { users = set_pending r request s.users }, some tt)
    unfolding pend
    pends s r request = refl

    pending_request :
        (r : ℕ) (u : User V) (name : V)
        → u.pending_chat_request ≡ some name
        → is_truthy name ≡ true
        → request_of py r u ≡ some (r, u, name)
    unfolding request_of
    pending_request r u name e t = ground arith

    requested :
        (s : Server V) (w r : ℕ) (u : User V) (name : V)
        → Registered py s w r u
        → u.pending_chat_request ≡ some name
        → is_truthy name ≡ true
        → own_request py alive w s ≡ (s, some (some (r, u, name)))
    unfolding own_request
    requested s w r u name x e t =
        simp (owned s w r u x, read s r u x.object, pending_request r u name e t)

    accepts :
        (s : Server V) (a b ra rb : ℕ) (u v : User V)
        → Registered py s a ra u
        → Registered py s b rb v
        → v.pending_chat_request ≡ some u.username
        → alive a ≡ true
        → alive b ≡ true
        → accept_chat py alive b s ≡ (
          record s {
            users = set_pending rb none s.users;
            sent =
                (s.sent ++ (a, introduction py (codes "chat-init") v) ∷ [])
                ++ (b, introduction py (codes "chat-init") u) ∷ [];
          },
          some tt,
        )
    unfolding accept_chat introduce
    accepts s a b ra rb u v x y e up up' =
        let told : Server V = record s {
          sent = s.sent ++ (a, introduction py (codes "chat-init") v) ∷ [];
        } in
        simp (
          requested s b rb v u.username y e x.truthy,
          looked_up s a ra u x,
          read s ra u x.object,
          x.socket,
          y.socket,
          sends a (introduction py (codes "chat-init") v) s up,
          sends b (introduction py (codes "chat-init") u) told up',
          pends,
        )

    -- The acceptance of a pending request tells each of the two users of the other.
    accept_chat_lem :
        (s : Server V) (a b ra rb : ℕ) (u v : User V) (data_get : Text → Option V)
        → Registered py s a ra u
        → Registered py s b rb v
        → v.pending_chat_request ≡ some u.username
        → alive a ≡ true
        → alive b ≡ true
        → data_get (codes "type") ≡ some (text (codes "chat-accept"))
        → received py alive b (dict data_get) s ≡ record s {
          users = set_pending rb none s.users;
          sent =
              (s.sent ++ (a, introduction py (codes "chat-init") v) ∷ [])
              ++ (b, introduction py (codes "chat-init") u) ∷ [];
        }
    unfolding received on_message on_dict text_eq
    accept_chat_lem s a b ra rb u v data_get x y e up up' type =
        simp (type, same_text, accepts s a b ra rb u v x y e up up')

    -- A request and its acceptance, between two users.
    pub chat-introduces :
        (s : Server V) (a b ra rb : ℕ) (u v : User V) (ask answer : Text → Option V)
        → Registered py s a ra u
        → Registered py s b rb v
        → alive a ≡ true
        → alive b ≡ true
        → ask (codes "type") ≡ some (text (codes "start-chat"))
        → ask (codes "target") ≡ some v.username
        → answer (codes "type") ≡ some (text (codes "chat-accept"))
        → let s₁ = received py alive a (dict ask) s in
          let s₂ = received py alive b (dict answer) s₁ in
          (s₁.sent ≡ s.sent ++ (b, chat_request py u) ∷ [])
          × (s₂.sent
              ≡ (s₁.sent ++ (a, introduction py (codes "chat-init") v) ∷ [])
                ++ (b, introduction py (codes "chat-init") u) ∷ [])
          × (s₂.connected_users ≡ s.connected_users)
          × (s₂.username_to_user ≡ s.username_to_user)
    chat-introduces s a b ra rb u v ask answer x y up up' asks target answers =
        let begun : Server V = record s {
          users = set_pending rb (some u.username) s.users;
          sent = s.sent ++ (b, chat_request py u) ∷ [];
        } in
        let first : received py alive a (dict ask) s ≡ begun =
          start_chat_lem s a b ra rb u v ask x y up' asks target in
        let (p, e) = get-set_pending py s.users rb ra (some u.username) u x.object in
        let second =
          accept_chat_lem begun a b ra rb (pending py p u) (pending py (some u.username) v) answer
            (pended py s a ra rb u (some u.username) p begun.sent x e)
            (pended py s b rb rb v (some u.username) (some u.username) begun.sent y
              (get-set_pending_self py s.users rb (some u.username) v y.object))
            refl up up' answers in
        let both = ap (received py alive b (dict answer)) first ∙ second in
        (
          ap (λ (z : Server V). z.sent) first,
          ap (λ (z : Server V). z.sent) both
              ∙ ap
                  (λ (z : Server V).
                    (z.sent ++ (a, introduction py (codes "chat-init") v) ∷ [])
                    ++ (b, introduction py (codes "chat-init") u) ∷ [])
                  (sym first),
          ap (λ (z : Server V). z.connected_users) both,
          ap (λ (z : Server V). z.username_to_user) both,
        )
