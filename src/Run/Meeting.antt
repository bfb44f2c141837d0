-- ===== src/Run/Meeting.antt =====
-- Two clients and the signaling server between them: from the command of one user and the consent
-- of the other to the connection.
use peer_bridge_cli.Common.{
  ℕ, ◌≡◌, refl, sym, subst, ap, ◌∙◌, Bool, true, false, Option, some, [], ◌∷◌, ◌++◌, Text, codes,
  text_eq, is_empty, ◌>>=◌,
}
use peer_bridge_cli.Common.Int.{ℤ, to_u16}
use peer_bridge_cli.Common.Dict.{get}
use peer_bridge_cli.Network.State.{UdpNetwork}
use peer_bridge_cli.Routing.{Windows}
use peer_bridge_cli.Tun.{Tun}
use peer_bridge_cli.Signaling.{JsonReader, JsonValue, str, int, text_message}
use peer_bridge_cli.Signaling.Utf8.{is_utf8}
use peer_bridge_cli.Server.{dict, received, introduction, chat_request}
use peer_bridge_cli.Server.State.{User, Server}
use peer_bridge_cli.Server.Users.{Registered, Registered-sent}
use peer_bridge_cli.Server.Rendezvous.{tell_peer_lem, chat-introduces}
use peer_bridge_cli.Server.Values.{text_key, json_values}
use peer_bridge_cli.System.State.{P2PSystem}
use peer_bridge_cli.System.Connection
use peer_bridge_cli.Run.{step, run, typed_line, from_server}
use peer_bridge_cli.Run.Handshake.{Obeys, Standby, Reaches, init-Joined}
use peer_bridge_cli.Run.Messages.{Reads, signal-chat_init, signal-peer_info, signal-chat_request}
use peer_bridge_cli.Run.Requests.{
  get_peer_object, start_chat_object, accept_object, Loaded, asking, connect-asks, asking-sent,
  asking-callbacks, accepting, accept-accepts, accepting-sent, accepting-callbacks, asking-Standby,
  accepting-Standby, peer_info-signaling,
}

-- A client that can take a call, and that the server knows on the connection `w`.
pub record Present (shown : JsonValue → Text) (alive : ℕ → Bool) (make_address : Text → Option Text)
    (s : Server JsonValue) (w r : ℕ) (u : User JsonValue) (c : P2PSystem) (n : UdpNetwork) (t : Tun)
    (name ip addr : Text) (port : ℤ) : Type 0 where
  pub registered : Registered (json_values shown) s w r u
  pub named : u.username ≡ str name
  pub encoded : is_utf8 name ≡ true
  pub at_ip : u.ip ≡ str ip
  pub at_port : u.port ≡ int port
  pub address : make_address ip ≡ some addr
  pub reachable : alive w ≡ true
  pub standby : Standby c n t
  pub online : c.signaling.connected ≡ true
  pub callbacks : c.signaling.has_callbacks ≡ true

full_name :
    (shown : JsonValue → Text) (s : Server JsonValue) (w r : ℕ) (u : User JsonValue) (name : Text)
    → Registered (json_values shown) s w r u
    → u.username ≡ str name
    → is_empty name ≡ false
full_name shown s w r u [] x e = sym (ap (json_values shown).is_truthy (sym e) ∙ x.truthy)
full_name shown s w r u (k ∷ name) x e = refl

-- The server's part.
served :
    (shown : JsonValue → Text) (alive : ℕ → Bool) (s : Server JsonValue) (w w' r r' : ℕ)
    (u v : User JsonValue) (name' : Text) (look ask answer : Text → Option JsonValue)
    → Registered (json_values shown) s w r u
    → Registered (json_values shown) s w' r' v
    → v.username ≡ str name'
    → alive w ≡ true
    → alive w' ≡ true
    → Loaded look (get_peer_object name')
    → Loaded ask (start_chat_object name')
    → Loaded answer accept_object
    → let py = json_values shown in
      let serve = received py alive in
      let s₁ = serve w (dict look) s in
      let s₂ = serve w (dict ask) s₁ in
      let s₃ = serve w' (dict answer) s₂ in
      (s₁.sent ≡ s.sent ++ (w, introduction py (codes "peer-info") v) ∷ [])
      × (s₂.sent ≡ s₁.sent ++ (w', chat_request py u) ∷ [])
      × (s₃.sent
          ≡ (s₂.sent ++ (w, introduction py (codes "chat-init") v) ∷ [])
            ++ (w', introduction py (codes "chat-init") u) ∷ [])
unfolding get text_key text_eq
served shown alive s w w' r r' u v name' look ask answer x x' named up up' looks asks answers =
    let py = json_values shown in
    let serve = received py alive in
    let sent = s.sent ++ (w, introduction py (codes "peer-info") v) ∷ [] in
    let told : Server JsonValue = record s { sent = sent } in
    let first : serve w (dict look) s ≡ told =
      tell_peer_lem py alive s w w' r' v look x' up (looks (codes "type"))
        (looks (codes "username") ∙ ap some (sym named)) in
    let chat =
      chat-introduces py alive told w w' r r' u v ask answer (Registered-sent py s w r u sent x)
        (Registered-sent py s w' r' v sent x') up up' (asks (codes "type"))
        (asks (codes "target") ∙ ap some (sym named)) (answers (codes "type")) in
    (
      ap (λ (z : Server JsonValue). z.sent) first,
      subst
          (λ (z : Server JsonValue).
            (serve w (dict ask) z).sent ≡ z.sent ++ (w', chat_request py u) ∷ [])
          (sym first) (chat.0),
      subst
          (λ (z : Server JsonValue).
            let s₂ = serve w (dict ask) z in
            (serve w' (dict answer) s₂).sent
            ≡ (s₂.sent ++ (w, introduction py (codes "chat-init") v) ∷ [])
              ++ (w', introduction py (codes "chat-init") u) ∷ [])
          (sym first) (chat.1),
    )

module _ {J : Type 0} (reader : JsonReader J) (windows : Windows)
    (make_address : Text → Option Text) (shown : JsonValue → Text) (alive : ℕ → Bool) where
  -- The requester's history after the request.
  asker-rest :
      (u v : User JsonValue) (a a' : P2PSystem) (name ip info init : Text) (port : ℤ) (t₂ t₃ : ℕ)
      → a.signaling.has_callbacks ≡ true
      → v.username ≡ str name
      → v.ip ≡ str ip
      → v.port ≡ int port
      → Reads reader info (introduction (json_values shown) (codes "peer-info") v)
      → Reads reader init (introduction (json_values shown) (codes "chat-init") v)
      → Connection.handle_connection_init windows make_address name ip port
          (Connection.handle_peer_info name ip port (asking name a))
        ≡ some a'
      → run reader windows make_address
          ((t₂, from_server (text_message info)) ∷ (t₃, from_server (text_message init)) ∷ [])
          (asking name a)
        ≡ some a'
  unfolding run step
  asker-rest u v a a' name ip info init port t₂ t₃ on n i p r r' e =
      let heard : P2PSystem = Connection.handle_peer_info name ip port (asking name a) in
      let on' = asking-callbacks name a ∙ on in
      let on'' =
        ap (λ c. c.has_callbacks) (peer_info-signaling name ip port (asking name a)) ∙ on' in
      ap
        (λ o. o >>= λ x.
          step reader windows make_address t₃ (from_server (text_message init)) x >>= λ y. some y)
        (signal-peer_info reader windows make_address shown info (asking name a) on' v name ip port
          r n i p)
      ∙ ap (λ o. o >>= λ y. some y)
          (signal-chat_init reader windows make_address shown init heard on'' v name ip port r' n i
              p
            ∙ e)

  -- The other's, once asked.
  asked-all :
      (u : User JsonValue) (b b' : P2PSystem) (name ip request init : Text) (port : ℤ)
      (t₁ t₂ t₃ : ℕ)
      → b.signaling.has_callbacks ≡ true
      → is_empty name ≡ false
      → u.username ≡ str name
      → u.ip ≡ str ip
      → u.port ≡ int port
      → Reads reader request (chat_request (json_values shown) u)
      → Reads reader init (introduction (json_values shown) (codes "chat-init") u)
      → Connection.handle_connection_init windows make_address name ip port (accepting name b)
        ≡ some b'
      → (run reader windows make_address
            ((t₁, from_server (text_message request)) ∷ (t₂, typed_line (codes "/accept")) ∷ [])
            b
          ≡ some (accepting name b))
        × (run reader windows make_address
              ((t₃, from_server (text_message init)) ∷ [])
              (accepting name b)
            ≡ some b')
  unfolding run step
  asked-all u b b' name ip request init port t₁ t₂ t₃ on full n i p r r' e = (
    ap
          (λ o. o >>= λ x.
            step reader windows make_address t₂ (typed_line (codes "/accept")) x >>= λ y. some y)
          (signal-chat_request reader windows make_address shown request b on u name r n)
        ∙ ap (λ o. o >>= λ y. some y) (accept-accepts windows t₂ name b full),
    ap (λ o. o >>= λ y. some y)
        (signal-chat_init reader windows make_address shown init (accepting name b)
            (accepting-callbacks name b ∙ on) u name ip port r' n i p
          ∙ e),
  )

  module _ (obeys : Obeys windows) where
    -- Two clients are idle, without a connection, with empty event queues, with their links and
    -- their tunnels set up but still, their sequence counters below 2 ^ 32, online, with their
    -- callbacks set, and registered at one signaling server, which can send to both, with names
    -- that are UTF-8 and addresses that read. The user of the first types /connect and the
    -- second's name; the second's user types /accept when the request has come in. No other events
    -- come between, what one side writes the other's JSON library reads as the same object,
    -- Windows obeys every command, and the steps of the clients take place at one time. Then the
    -- requests, the answers of the server and the two calls come as listed: the server is sent the
    -- look-up, the request and the consent; it tells the first of the second, passes the request
    -- on, and introduces each to the other. Both clients come through this with a result, each has
    -- then sent a packet to the address that it was told of, and when one of these packets comes
    -- in at the other, from whatever endpoint it seems to come and with whatever behind it in the
    -- buffer, the next turn of that client's monitor leaves it connected, with its tunnel running
    -- and that endpoint as its peer.
    pub request-Joined :
        (s : Server JsonValue) (w w' r r' : ℕ) (u v : User JsonValue) (a b : P2PSystem)
        (n n' : UdpNetwork) (t t' : Tun) (name ip addr name' ip' addr' : Text) (port port' : ℤ)
        (look ask answer : Text → Option JsonValue) (info request init init' : Text) (now : ℕ)
        → Present shown alive make_address s w r u a n t name ip addr port
        → Present shown alive make_address s w' r' v b n' t' name' ip' addr' port'
        → Loaded look (get_peer_object name')
        → Loaded ask (start_chat_object name')
        → Loaded answer accept_object
        → Reads reader info (introduction (json_values shown) (codes "peer-info") v)
        → Reads reader request (chat_request (json_values shown) u)
        → Reads reader init (introduction (json_values shown) (codes "chat-init") v)
        → Reads reader init' (introduction (json_values shown) (codes "chat-init") u)
        → let py = json_values shown in
          let serve = received py alive in
          let go = run reader windows make_address in
          let s₁ = serve w (dict look) s in
          let s₂ = serve w (dict ask) s₁ in
          let s₃ = serve w' (dict answer) s₂ in
          (a₁ a₂ b₁ b₂ : P2PSystem) × (go ((now, typed_line (codes "/connect " ++ name')) ∷ []) a
            ≡ some a₁)
          × (a₁.signaling.sent
              ≡ a.signaling.sent ++ get_peer_object name' ∷ start_chat_object name' ∷ [])
          × (s₁.sent ≡ s.sent ++ (w, introduction py (codes "peer-info") v) ∷ [])
          × (s₂.sent ≡ s₁.sent ++ (w', chat_request py u) ∷ [])
          × (go
                ((now, from_server (text_message request))
                  ∷ (now, typed_line (codes "/accept"))
                  ∷ [])
                b
              ≡ some b₁)
          × (b₁.signaling.sent ≡ b.signaling.sent ++ accept_object ∷ [])
          × (s₃.sent
              ≡ (s₂.sent ++ (w, introduction py (codes "chat-init") v) ∷ [])
                ++ (w', introduction py (codes "chat-init") u) ∷ [])
          × (go
                ((now, from_server (text_message info))
                  ∷ (now, from_server (text_message init))
                  ∷ [])
                a₁
              ≡ some a₂)
          × (go ((now, from_server (text_message init')) ∷ []) b₁ ≡ some b₂)
          × Reaches reader windows make_address b₂ n'
              (record { address = addr; port = to_u16 port })
              a₂
          × Reaches reader windows make_address a₂ n
              (record { address = addr'; port = to_u16 port' })
              b₂
    unfolding run step
    request-Joined s w w' r r' u v a b n n' t t' name ip addr name' ip' addr' port port' look ask
          answer info request init init' now x x' looks asks answers i q j j' =
        let asked : P2PSystem = Connection.handle_peer_info name' ip' port' (asking name' a) in
        let (a₂, b₂, ea, eb, there, back) =
          init-Joined reader windows make_address obeys name' ip' addr' name ip addr port' port
            asked (accepting name b) n n' t t' x'.address x.address
            (asking-Standby name' ip' port' a n t x.standby)
            (accepting-Standby name b n' t' x'.standby) in
        let (first, second, third) =
          served shown alive s w w' r r' u v name' look ask answer x.registered x'.registered
            x'.named x.reachable x'.reachable looks asks answers in
        let (heard, initiated) =
          asked-all u b b₂ name ip request init' port now now now x'.callbacks
            (full_name shown s w r u name x.registered x.named) x.named x.at_ip x.at_port q j' eb in
        (
          asking name' a,
          a₂,
          accepting name b,
          b₂,
          ap (λ o. o >>= λ y. some y) (connect-asks windows now name' a n t x.standby x'.encoded),
          asking-sent name' a x.online,
          first,
          second,
          heard,
          accepting-sent name b x'.online,
          third,
          asker-rest u v a a₂ name' ip' info init port' now now x.callbacks x'.named x'.at_ip
              x'.at_port i j ea,
          initiated,
          there,
          back,
        )
