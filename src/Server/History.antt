-- ===== src/Server/History.antt =====
-- The signaling server over any history of connections and messages.
use peer_bridge_cli.Common.{
  ℕ, Bool, ◌&&◌, Option, none, some, List, [], ◌∷◌, Text, codes, if_both, ◌≡◌, Bool-cases,
  Option-cases, inl, inr,
}
use peer_bridge_cli.Common.Dict.{get}
use peer_bridge_cli.Server.{
  Inbound, invalid, not_a_dict, dict, Happening, opens, says, closes, serve, serve_all, send,
  chat_request, own_user, deref, find_user, pend, add_user, enroll, register, greet, tell_name,
  tell_peer, pass_request, start_chat, own_request, introduce, accept_chat, refuse, decline_chat,
  on_dict, on_message, ended, received,
}
use peer_bridge_cli.Server.State.{Python, User, Server, Reply, new_server, M, ◌>>=◌, ◌>>◌}
use peer_bridge_cli.Server.Tables.{
  IsSound, new_server-IsSound, opened-IsSound, finish-IsSound, add_user-IsSound, sent-IsSound,
  pend-IsSound,
}
use peer_bridge_cli.Server.Keeps.{
  Keeps, resume-IsSound, recover-IsSound, Keeps-bind, Kept, Kept-if, Keeps-option,
}

module _ {V : Type 0} (py : Python V) where
  open py use {text, key, is_truthy, is_hashable}

  module _ (alive : ℕ → Bool) where
    send-Keeps : (w : ℕ) (reply : Reply V) → Keeps py (send py alive w reply)
    unfolding send
    send-Keeps w reply s v =
        if_both (λ (p : Server V × Option (Unit {0})). IsSound py p.0) (alive w) _ _
          (sent-IsSound py s _ v) v

    own_user-Keeps : (w : ℕ) → Keeps py (own_user py alive w)
    unfolding own_user
    own_user-Keeps w s v = v

    deref-Keeps : (r : ℕ) → Keeps py (deref py alive r)
    unfolding deref
    deref-Keeps r s v = v

    find_user-Keeps : (name : Option V) → Keeps py (find_user py alive name)
    unfolding find_user
    find_user-Keeps none s v = v
    find_user-Keeps (some name) s v =
        if_both (λ (p : Server V × Option (Option ℕ)). IsSound py p.0) (is_hashable name) _ _ v v

    pend-Keeps : (r : ℕ) (request : Option V) → Keeps py (pend py alive r request)
    unfolding pend
    pend-Keeps r request s v = pend-IsSound py s r request v

    greet-Keeps : (w : ℕ) → Keeps py (greet py alive w)
    unfolding greet
    greet-Keeps w = send-Keeps w _

    tell_name-Keeps : (w : ℕ) → Keeps py (tell_name py alive w)
    unfolding tell_name
    tell_name-Keeps w = Keeps-bind py (own_user py alive w) _ (own_user-Keeps w) (λ user.
        Keeps-option py user _ _ (send-Keeps w _)
          (λ r. Keeps-bind py (deref py alive r) _ (deref-Keeps r) (λ u. send-Keeps w _)))

    tell_peer-Keeps :
        (w : ℕ) (data_get : Text → Option V) → Keeps py (tell_peer py alive w data_get)
    unfolding tell_peer
    tell_peer-Keeps w data_get =
        Keeps-bind py (find_user py alive (data_get (codes "username"))) _ (find_user-Keeps _)
          (λ peer.
            Keeps-option py peer _ _ (send-Keeps w _)
              (λ r. Keeps-bind py (deref py alive r) _ (deref-Keeps r) (λ u. send-Keeps w _)))

    enroll-IsSound :
        (w : ℕ) (name : V) (ip port : Option V) (s : Server V)
        → get key name s.username_to_user ≡ none
        → IsSound py s
        → IsSound py (enroll py alive w (some name) ip port s).0
    unfolding enroll
    enroll-IsSound w name none port s free v = v
    enroll-IsSound w name (some ip) none s free v = v
    enroll-IsSound w name (some ip) (some port) s free v =
        if_both (λ (m : M V (Unit {0})). IsSound py (m s).0)
          (is_truthy name && (is_truthy ip && is_truthy port)) _ _
          (resume-IsSound py (add_user py alive w name ip port s) _
            (add_user-IsSound py alive w name ip port s free v) (λ done. send-Keeps w _))
          v

    enroll-nameless : (w : ℕ) (ip port : Option V) → Keeps py (enroll py alive w none ip port)
    unfolding enroll
    enroll-nameless w none port s v = v
    enroll-nameless w (some ip) none s v = v
    enroll-nameless w (some ip) (some port) s v = v

    named-IsSound :
        (w : ℕ) (name : V) (ip port : Option V) (taken : M V (Unit {0})) (s : Server V)
        → Keeps py taken
        → IsSound py s
        → IsSound py
            ((find_user py alive (some name) >>= λ found. elim found [
              | some r ↦ taken
              | none ↦ enroll py alive w (some name) ip port
            ])
              s).0
    unfolding find_user
    named-IsSound w name ip port taken s k v = elim (Bool-cases (is_hashable name)) [
      | inl hashable ↦ rw hashable (elim (Option-cases (get key name s.username_to_user)) [
        | inl free ↦ rw free (enroll-IsSound w name ip port s free v)
        | inr (r, e) ↦ rw e (k s v)
      ])
      | inr unhashable ↦ rw unhashable v
    ]

    registering :
        (w : ℕ) (name ip port : Option V) (taken : M V (Unit {0}))
        → Keeps py taken
        → Keeps py (
            find_user py alive name >>= λ found. elim found [
              | some r ↦ taken
              | none ↦ enroll py alive w name ip port
            ])
    unfolding find_user
    registering w none ip port taken k s v = enroll-nameless w ip port s v
    registering w (some name) ip port taken k s v = named-IsSound w name ip port taken s k v

    register-Keeps : (w : ℕ) (data_get : Text → Option V) → Keeps py (register py alive w data_get)
    unfolding register
    register-Keeps w data_get = registering w (data_get (codes "username")) _ _ _ (send-Keeps w _)

    pass_request-Keeps :
        (w : ℕ) (u : User V) (t : ℕ) (target : Option V)
        → Keeps py (pass_request py alive w u t target)
    unfolding pass_request
    pass_request-Keeps w u t target s v =
        recover-IsSound py
          ((deref py alive t >>= λ peer.
              send py alive (peer.websocket) (chat_request py u)
              >> pend py alive t (some u.username))
            s)
          _
          (Keeps-bind py (deref py alive t) _ (deref-Keeps t)
            (λ peer.
              Keeps-bind py (send py alive (peer.websocket) (chat_request py u)) _ (send-Keeps _ _)
                (λ done. pend-Keeps t _))
            s v)
          (send-Keeps w _)

    start_chat-Keeps :
        (w : ℕ) (data_get : Text → Option V) → Keeps py (start_chat py alive w data_get)
    unfolding start_chat
    start_chat-Keeps w data_get = Keeps-bind py (own_user py alive w) _ (own_user-Keeps w) (λ user.
        Keeps-option py user _ _ (send-Keeps w _) (λ r.
          Keeps-bind py (find_user py alive (data_get (codes "target"))) _ (find_user-Keeps _)
            (λ peer. Keeps-option py peer _ _ (send-Keeps w _) (λ t.
              Keeps-bind py (deref py alive r) _ (deref-Keeps r)
                (λ u. pass_request-Keeps w u t _)))))

    own_request-Keeps : (w : ℕ) → Keeps py (own_request py alive w)
    unfolding own_request
    own_request-Keeps w = Keeps-bind py (own_user py alive w) _ (own_user-Keeps w) (λ user.
        Keeps-option py user _ _ (λ s v. v)
          (λ r. Keeps-bind py (deref py alive r) _ (deref-Keeps r) (λ u s v. v)))

    introduce-Keeps :
        (w r : ℕ) (u : User V) (name : V) (q : Option ℕ)
        → Keeps py (introduce py alive w r u name q)
    unfolding introduce
    introduce-Keeps w r u name none =
        Keeps-bind py (send py alive w _) _ (send-Keeps w _) (λ done. pend-Keeps r none)
    introduce-Keeps w r u name (some q) =
        Keeps-bind py (deref py alive q) _ (deref-Keeps q) (λ peer.
          Keeps-bind py (send py alive (peer.websocket) _) _ (send-Keeps _ _) (λ done.
            Keeps-bind py (send py alive (u.websocket) _) _ (send-Keeps _ _)
              (λ sent. pend-Keeps r none)))

    accept_chat-Keeps : (w : ℕ) → Keeps py (accept_chat py alive w)
    unfolding accept_chat
    accept_chat-Keeps w = Keeps-bind py (own_request py alive w) _ (own_request-Keeps w) (λ request.
        Keeps-option py request _ _ (send-Keeps w _) (λ x.
          Keeps-bind py (find_user py alive (some x.2)) _ (find_user-Keeps _)
            (λ q. introduce-Keeps w x.0 x.1 x.2 q)))

    refuse-Keeps : (r : ℕ) (u : User V) (q : Option ℕ) → Keeps py (refuse py alive r u q)
    unfolding refuse
    refuse-Keeps r u none = pend-Keeps r none
    refuse-Keeps r u (some q) = Keeps-bind py (deref py alive q) _ (deref-Keeps q) (λ peer.
        Keeps-bind py (send py alive (peer.websocket) _) _ (send-Keeps _ _)
          (λ done. pend-Keeps r none))

    decline_chat-Keeps : (w : ℕ) → Keeps py (decline_chat py alive w)
    unfolding decline_chat
    decline_chat-Keeps w =
        Keeps-bind py (own_request py alive w) _ (own_request-Keeps w) (λ request.
          Keeps-option py request _ _ (send-Keeps w _) (λ x.
            Keeps-bind py (find_user py alive (some x.2)) _ (find_user-Keeps _)
              (λ q. refuse-Keeps x.0 x.1 q)))

    on_dict-Keeps : (w : ℕ) (data_get : Text → Option V) → Keeps py (on_dict py alive w data_get)
    unfolding on_dict
    on_dict-Keeps w data_get =
        let kept : Kept py (on_dict py alive w data_get) = Kept-if py _ _ _ (greet-Keeps w) (
          Kept-if py _ _ _ (register-Keeps w data_get) (
            Kept-if py _ _ _ (tell_name-Keeps w) (
              Kept-if py _ _ _ (tell_peer-Keeps w data_get) (
                Kept-if py _ _ _ (start_chat-Keeps w data_get) (
                  Kept-if py _ _ _ (accept_chat-Keeps w)
                    (Kept-if py _ _ _ (decline_chat-Keeps w) (record { apply = λ s v. v }))))))) in
        kept.apply

    on_message-Keeps : (w : ℕ) (message : Inbound V) → Keeps py (on_message py alive w message)
    unfolding on_message
    on_message-Keeps w invalid s v = v
    on_message-Keeps w not_a_dict s v = v
    on_message-Keeps w (dict data_get) s v = on_dict-Keeps w data_get s v

    ended-IsSound :
        (w : ℕ) (p : Server V × Option (Unit {0}))
        → IsSound py p.0
        → IsSound py (ended py alive w p)
    ended-IsSound w (s, none) v = finish-IsSound py w s v
    ended-IsSound w (s, some done) v = v

    received-IsSound :
        (w : ℕ) (message : Inbound V) (s : Server V)
        → IsSound py s
        → IsSound py (received py alive w message s)
    unfolding received
    received-IsSound w message s v =
        ended-IsSound w (on_message py alive w message s) (on_message-Keeps w message s v)

  serve-IsSound : (h : Happening V) (s : Server V) → IsSound py s → IsSound py (serve py h s)
  unfolding serve
  serve-IsSound (opens w) s v = opened-IsSound py w s v
  serve-IsSound (says alive w message) s v = received-IsSound alive w message s v
  serve-IsSound (closes w) s v = finish-IsSound py w s v

  serve_all-IsSound :
      (hs : List (Happening V)) (s : Server V) → IsSound py s → IsSound py (serve_all py hs s)
  unfolding serve_all
  serve_all-IsSound [] s v = v
  serve_all-IsSound (h ∷ hs) s v = serve_all-IsSound hs (serve py h s) (serve-IsSound h s v)

  -- After any history of connections that open, say something and close, whatever they say,
  -- whatever sends fail, the tables of the server agree: a handler's user is the one that its
  -- connection is listed with; that user was made for the connection, and its name leads to it;
  -- and a name leads to a user that has the name.
  pub history-IsSound : (hs : List (Happening V)) → IsSound py (serve_all py hs new_server)
  history-IsSound hs = serve_all-IsSound hs new_server (new_server-IsSound py)
