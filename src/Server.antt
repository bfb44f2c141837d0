-- ===== src/Server.antt =====
-- backend/app.py: the signaling server.
--
-- A message is handled in one step: what the library does between the bytes of a send and its
-- return does not run another handler. `alive` says on which connections a send works; on the
-- others it raises `ConnectionClosed`. Lines that are only printed are left out.
pub mod State
pub mod Users
pub mod Rendezvous
pub mod Registration
pub mod Tables
pub mod Keeps
pub mod History
pub mod Values
use peer_bridge_cli.Common.{
  ℕ, zero, suc, Bool, true, false, ◌&&◌, not, Option, none, some, List, [], ◌∷◌, ◌++◌, Text, codes,
  length, get_elem?, if◌then◌else◌,
}
use peer_bridge_cli.Common.Dict.{Key, get, put, remove}
use peer_bridge_cli.Server.State.{
  Python, User, Server, Reply, socket_key, set_pending, M, resume, recover, ◌>>=◌, ◌>>◌, pure,
  raise, catching,
}

-- What `json.loads` makes of a message: it fails, the value has no method `get`, or it is a
-- dictionary, which gives `None` for a key that is not there.
pub data Inbound (V : Type 0) : Type 0 where
  invalid : Inbound V
  not_a_dict : Inbound V
  dict : (Text → Option V) → Inbound V

unfoldable pub opened : {V : Type 0} → ℕ → Server V → Server V
opened w s = record s { handlers = put socket_key w none s.handlers }

module _ {V : Type 0} (py : Python V) where
  open py use {text, is_truthy, is_hashable, key, shown}

  -- `f"{x}"`, where `x` may be `None`.
  abbrev printed : Option V → Text
  printed none = codes "None"
  printed (some v) = shown v

  abbrev error_reply : Text → Reply V
  error_reply message = (codes "type", text (codes "error")) ∷ (codes "message", text message) ∷ []

  -- The name, ip and port of a user, as `peer-info` and `chat-init`.
  abbrev pub introduction : Text → User V → Reply V
  introduction type u =
      (codes "type", text type)
      ∷ (codes "username", u.username)
      ∷ (codes "ip", u.ip)
      ∷ (codes "port", u.port)
      ∷ []

  abbrev not_found : Option V → Reply V
  not_found name =
      error_reply (codes "User '" ++ (printed name ++ codes "' not found or not online."))

  -- `user.pending_chat_request`, where it counts as true, with the user.
  unfoldable pub request_of : ℕ → User V → Option (ℕ × User V × V)
  request_of r u = elim u.pending_chat_request [
    | none ↦ none
    | some name ↦ if is_truthy name then some (r, u, name) else none
  ]

  -- `msg_type == "..."`
  abbrev is_type : Option V → Text → Bool
  is_type none name = false
  is_type (some v) name = key.same v (text name)

  abbrev pub chat_request : User V → Reply V
  chat_request u = (codes "type", text (codes "chat-request")) ∷ (codes "from", u.username) ∷ []

  -- The `finally` block, which ends the handler.
  unfoldable pub finish : ℕ → Server V → Server V
  finish w s =
      let left = record s { handlers = remove socket_key w s.handlers } in
      elim (get socket_key w s.connected_users) [
        | none ↦ left
        | some r ↦ elim (get_elem? s.users r) [
          | none ↦ left
          | some u ↦ record left {
            username_to_user = remove key u.username s.username_to_user;
            connected_users = remove socket_key w s.connected_users;
          }
        ]
      ]

  module _ (alive : ℕ → Bool) where
    -- `websocket.send(json.dumps(reply))`
    unfoldable pub send : ℕ → Reply V → M V (Unit {0})
    send w reply s =
        if alive w then (record s { sent = s.sent ++ (w, reply) ∷ [] }, some tt) else (s, none)

    -- The handler's own `user`.
    unfoldable pub own_user : ℕ → M V (Option ℕ)
    own_user w s = (s, some (elim (get socket_key w s.handlers) [ none ↦ none | some user ↦ user ]))

    -- What a reference refers to.
    unfoldable pub deref : ℕ → M V (User V)
    deref r s = (s, get_elem? s.users r)

    -- `username_to_user.get(name)`, and the test `name in username_to_user`.
    unfoldable pub find_user : Option V → M V (Option ℕ)
    find_user none s = (s, some none)
    find_user (some name) s =
        if is_hashable name then (s, some (get key name s.username_to_user)) else (s, none)

    unfoldable pub pend : ℕ → Option V → M V (Unit {0})
    pend r request s = (record s { users = set_pending r request s.users }, some tt)

    unfoldable pub greet : ℕ → M V (Unit {0})
    greet w = send w (
        (codes "type", text (codes "greet-back"))
        ∷ (codes "message", text (codes "Hello from the signaling server!"))
        ∷ [])

    -- A new `User`, in both dictionaries and in the handler's variable.
    unfoldable pub add_user : ℕ → V → V → V → M V (Unit {0})
    add_user w name ip port s =
        let r = length s.users in
        let user : User V = record {
          websocket = w;
          username = name;
          ip = ip;
          port = port;
          pending_chat_request = none;
        } in
        (
          record s {
            users = s.users ++ user ∷ [];
            connected_users = put socket_key w r s.connected_users;
            username_to_user = put key name r s.username_to_user;
            handlers = put socket_key w (some r) s.handlers;
          },
          some tt,
        )

    -- `if username and ip and port`
    unfoldable pub enroll : ℕ → Option V → Option V → Option V → M V (Unit {0})
    enroll w (some name) (some ip) (some port) =
        if is_truthy name && (is_truthy ip && is_truthy port)
        then add_user w name ip port
          >> send w (
              (codes "type", text (codes "register-ack"))
              ∷ (codes "message", text (codes "Registered as " ++ shown name))
              ∷ [])
        else pure tt
    enroll w _ _ _ = pure tt

    unfoldable pub register : ℕ → (Text → Option V) → M V (Unit {0})
    register w data_get =
        let name = data_get (codes "username") in
        find_user name >>= λ taken. elim taken [
          | some r ↦
              send w
                (error_reply (codes "Username '" ++ (printed name ++ codes "' is already taken.")))
          | none ↦ enroll w name (data_get (codes "ip")) (data_get (codes "port"))
        ]

    unfoldable pub tell_name : ℕ → M V (Unit {0})
    tell_name w = own_user w >>= λ user. elim user [
      | none ↦ send w (error_reply (codes "You are not registered yet."))
      | some r ↦ deref r >>= λ u.
          send w ((codes "type", text (codes "your-name")) ∷ (codes "username", u.username) ∷ [])
    ]

    unfoldable pub tell_peer : ℕ → (Text → Option V) → M V (Unit {0})
    tell_peer w data_get =
        let target = data_get (codes "username") in
        find_user target >>= λ peer. elim peer [
          | none ↦ send w (not_found target)
          | some r ↦ deref r >>= λ u. send w (introduction (codes "peer-info") u)
        ]

    -- The request of `user` to the user at `t`.
    unfoldable pub pass_request : ℕ → User V → ℕ → Option V → M V (Unit {0})
    pass_request w user t target =
        catching
          (deref t >>= λ peer.
            send (peer.websocket) (chat_request user) >> pend t (some user.username))
          (send w (
            error_reply (codes "Failed to send chat request to " ++ (printed target ++ codes "."))))

    unfoldable pub start_chat : ℕ → (Text → Option V) → M V (Unit {0})
    start_chat w data_get = own_user w >>= λ user. elim user [
      | none ↦ send w (error_reply (codes "You must register before starting a chat."))
      | some r ↦
          let target = data_get (codes "target") in
          find_user target >>= λ peer. elim peer [
            | none ↦ send w (not_found target)
            | some t ↦ deref r >>= λ u. pass_request w u t target
          ]
    ]

    -- The pending request of the handler's user.
    unfoldable pub own_request : ℕ → M V (Option (ℕ × User V × V))
    own_request w = own_user w >>= λ user. elim user [
      | none ↦ pure none
      | some r ↦ deref r >>= λ u. pure (request_of r u)
    ]

    unfoldable pub introduce : ℕ → ℕ → User V → V → Option ℕ → M V (Unit {0})
    introduce w r u name none =
        send w (error_reply (codes "User '" ++ (shown name ++ codes "' is no longer online.")))
        >> pend r none
    introduce w r u name (some q) = do
      requester ← deref q
      send (requester.websocket) (introduction (codes "chat-init") u)
      send (u.websocket) (introduction (codes "chat-init") requester)
      pend r none

    unfoldable pub accept_chat : ℕ → M V (Unit {0})
    accept_chat w = own_request w >>= λ request. elim request [
      | none ↦ send w (error_reply (codes "No pending chat request to accept."))
      | some (r, u, name) ↦ find_user (some name) >>= λ q. introduce w r u name q
    ]

    unfoldable pub refuse : ℕ → User V → Option ℕ → M V (Unit {0})
    refuse r u none = pend r none
    refuse r u (some q) = do
      requester ← deref q
      send (requester.websocket)
          (error_reply (shown u.username ++ codes " declined your chat request."))
      pend r none

    unfoldable pub decline_chat : ℕ → M V (Unit {0})
    decline_chat w = own_request w >>= λ request. elim request [
      | none ↦ send w (error_reply (codes "No pending chat request to decline."))
      | some (r, u, name) ↦ find_user (some name) >>= λ q. refuse r u q
    ]

    -- The tests of `handler`, in their order.
    unfoldable pub on_dict : ℕ → (Text → Option V) → M V (Unit {0})
    on_dict w data_get =
        let msg_type = data_get (codes "type") in
        if is_type msg_type (codes "greeting")
        then greet w
        else if is_type msg_type (codes "register")
        then register w data_get
        else if is_type msg_type (codes "get-name")
        then tell_name w
        else if is_type msg_type (codes "get-peer")
        then tell_peer w data_get
        else if is_type msg_type (codes "start-chat")
        then start_chat w data_get
        else if is_type msg_type (codes "chat-accept")
        then accept_chat w
        else if is_type msg_type (codes "chat-decline")
        then decline_chat w
        else pure tt

    unfoldable pub on_message : ℕ → Inbound V → M V (Unit {0})
    on_message w invalid = pure tt
    on_message w not_a_dict = raise
    on_message w (dict data_get) = on_dict w data_get

    -- An exception ends the handler.
    abbrev pub ended : ℕ → Server V × Option (Unit {0}) → Server V
    ended w (s, none) = finish w s
    ended w (s, some done) = s

    unfoldable pub received : ℕ → Inbound V → Server V → Server V
    received w message s = ended w (on_message w message s)

-- What happens to a connection, with the connections on which a send works at that time.
pub data Happening (V : Type 0) : Type 0 where
  opens : ℕ → Happening V
  says : (ℕ → Bool) → ℕ → Inbound V → Happening V
  closes : ℕ → Happening V

module _ {V : Type 0} (py : Python V) where
  unfoldable pub serve : Happening V → Server V → Server V
  serve (opens w) s = opened w s
  serve (says alive w message) s = received py alive w message s
  serve (closes w) s = finish py w s

  unfoldable pub serve_all : List (Happening V) → Server V → Server V
  serve_all [] s = s
  serve_all (h ∷ rest) s = serve_all rest (serve h s)
