-- ===== src/Run/Start.antt =====
-- From the answer of the STUN server to the registration with the signaling server.
use peer_bridge_cli.Common.{
  if_on, append-nil, sym, ℕ, zero, suc, ◌+◌, ◌-◌, ◌^◌, ◌≤◌, ◌<◌, ◌≡◌, refl, ap, ◌∙◌, Bool, true,
  not, some, List, [], ◌∷◌, ◌++◌, Bytes, Text, codes, arith, length, take, replicate, length-append,
  append_assoc, All, bit_xor, if_both,
}
use peer_bridge_cli.Common.Int.{pos}
use peer_bridge_cli.StateManager.{idle}
use peer_bridge_cli.Wire.Layout.{bytes4}
use peer_bridge_cli.Stun.{Exchange, StunClient, finished, parse_response, discover_public_address}
use peer_bridge_cli.Stun.Attributes.{
  bytes2, Attribute, all_encoded, IsOther, mapped_attribute, parse_response-others,
}
use peer_bridge_cli.Signaling.{
  send_greeting, send_texts, opened, SignalingClient, JsonObject, typed, field, int, send_json,
  new_client, set_callbacks, connect, register_user,
}
use peer_bridge_cli.Tun.{new_tun, initialize}
use peer_bridge_cli.Signaling.Utf8.{is_utf8}
use peer_bridge_cli.System.State.{P2PSystem, new_system, with_state}
use peer_bridge_cli.System.Threads.{
  World, start_network, start_tun, start_signaling, after_discovery, initialize_system,
}

take-replicate : (k z : ℕ) → k ≤ z → take {A = ℕ} k (replicate {A = ℕ} z 0) ≡ replicate {A = ℕ} k 0
take-replicate zero z h = refl
take-replicate (suc k) zero h = absurd (omega (arith, h))
take-replicate (suc k) (suc z) h = ap (◌∷◌ 0) (take-replicate k z (omega (arith, h)))

-- The array after an answer that fits.
take-filled :
    (k : ℕ) (answer : Bytes) (z : ℕ)
    → length answer ≤ k
    → k ≤ z
    → take k (answer ++ replicate z 0) ≡ answer ++ replicate (k - length answer) 0
take-filled zero [] z fits large = refl
take-filled zero (b ∷ rest) z fits large = absurd (omega (arith, fits))
take-filled (suc k) [] z fits large =
    take-replicate (suc k) z large
    ∙ ap (λ n. replicate n 0) {x = suc k} {y = suc k - 0} (omega arith)
take-filled (suc k) (b ∷ rest) z fits large =
    ap (◌∷◌ b) (take-filled k rest z (omega (arith, fits)) (omega (arith, large)))
    ∙ ap (λ n. b ∷ (rest ++ replicate n 0)) {x = k - length rest} {y = suc k - suc (length rest)}
        (omega arith)

take-short : (k : ℕ) (answer : Bytes) → length answer ≤ k → take k answer ≡ answer
take-short zero [] h = refl
take-short zero (b ∷ rest) h = absurd (omega (arith, h))
take-short (suc k) [] h = refl
take-short (suc k) (b ∷ rest) h = ap (◌∷◌ b) (take-short k rest (omega (arith, h)))

start_network-signaling :
    (w : World) (s : P2PSystem) → (start_network w s).0.signaling ≡ s.signaling
unfolding start_network
start_network-signaling w s = ground arith

start_tun-signaling : (w : World) (s : P2PSystem) → (start_tun w s).0.signaling ≡ s.signaling
unfolding start_tun
start_tun-signaling w s =
    if_both (λ (r : P2PSystem × Bool). r.0.signaling ≡ s.signaling)
      (not (initialize w.wintun new_tun).1) _ _ refl (start_network-signaling w _)

-- The array that the client parses when an answer that fits has come in.
discovered :
    (to_string : Bytes → Text) (x : Exchange) (c : StunClient) (answer : Bytes)
    → x.reaches ≡ true
    → x.answer ≡ some answer
    → length answer ≤ 512
    → (discover_public_address to_string x c).1
      ≡ parse_response to_string (length answer) (answer ++ replicate (512 - length answer) 0)
unfolding discover_public_address
discovered to_string x c answer reaches got fits =
    simp (reaches, got, take-filled 512 answer 512 fits (omega arith), take-short 512 answer fits)

-- What the server is told.
abbrev pub registration : Text → Text → ℕ → JsonObject
registration username ip port =
    typed (codes "register")
    ∷ field (codes "username") username
    ∷ field (codes "ip") ip
    ∷ (codes "port", int (pos port))
    ∷ []

-- What the callback of an Open message sends.
abbrev pub greeting : JsonObject
greeting = typed (codes "greeting") ∷ []

opened-connected :
    (k : ℕ) (c : SignalingClient) → c.connected ≡ true → (opened k c).connected ≡ true
unfolding opened send_greeting send_json
opened-connected zero c on = on
opened-connected (suc k) c on = opened-connected k _ (ground arith)

greeted : SignalingClient → SignalingClient
greeted c = record c { connected = true; sent = c.sent ++ greeting ∷ [] }

opened_step :
    (k : ℕ) (c : SignalingClient) → c.has_callbacks ≡ true → opened (suc k) c ≡ opened k (greeted c)
unfolding opened send_greeting send_json greeted
opened_step k c set = ap (opened k) (if_on c.has_callbacks _ _ set)

opened-sent :
    (k : ℕ) (c : SignalingClient)
    → c.has_callbacks ≡ true
    → ((opened k c).sent ≡ c.sent ++ replicate k greeting)
unfolding opened greeted
opened-sent zero c set = sym (append-nil c.sent)
opened-sent (suc k) c set =
    ap (λ (d : SignalingClient). d.sent) (opened_step k c set)
    ∙ opened-sent k (greeted c) set
    ∙ append_assoc c.sent (greeting ∷ []) (replicate k greeting)

-- The client when `connect` has come up.
connected_lem :
    (looks : ℕ → Bool) (opens : ℕ)
    → (connect looks opens (set_callbacks new_client)).1 ≡ true
    → (connect looks opens (set_callbacks new_client)).0
      ≡ record (opened opens (set_callbacks new_client)) { started = true; connected = true }
unfolding connect set_callbacks
connected_lem looks opens h = ground arith

opened-callbacks : (k : ℕ) (c : SignalingClient) → (opened k c).has_callbacks ≡ c.has_callbacks
unfolding opened send_greeting send_json
opened-callbacks zero c = refl
opened-callbacks (suc k) c = opened-callbacks k _ ∙ ground arith

registered_lem :
    (username ip : Text) (port : ℕ) (c : SignalingClient)
    → is_utf8 username ≡ true
    → is_utf8 ip ≡ true
    → c.connected ≡ true
    → register_user username ip (pos port) c
      ≡ some (record c { sent = c.sent ++ registration username ip port ∷ [] })
unfolding register_user send_texts send_json
registered_lem username ip port c u i on = simp (on, u, i)

callbacks_set : (set_callbacks new_client).has_callbacks ≡ true
unfolding set_callbacks
callbacks_set = refl

set-sent : {x : List JsonObject} → (set_callbacks new_client).sent ++ x ≡ x
unfolding set_callbacks
set-sent = refl

signaling-registers :
    (w : World) (s : P2PSystem) (port : ℕ)
    → s.signaling ≡ new_client
    → s.public_port ≡ pos port
    → is_utf8 s.username ≡ true
    → is_utf8 s.public_ip ≡ true
    → (connect w.looks w.opens (set_callbacks new_client)).1 ≡ true
    → (r : P2PSystem × Bool) × ((start_signaling w s ≡ some r)
        × (r.0.signaling.sent
            ≡ replicate w.opens greeting
              ++ registration s.username s.public_ip port ∷ replicate w.late_opens greeting))
unfolding start_signaling
signaling-registers w s port fresh known u i h =
    let c : SignalingClient = record (opened w.opens (set_callbacks new_client)) {
      started = true;
      connected = true;
    } in
    let said = registration s.username s.public_ip port in
    let d : SignalingClient = record c { sent = c.sent ++ said ∷ [] } in
    let set : (opened w.opens (set_callbacks new_client)).has_callbacks ≡ true =
      opened-callbacks w.opens (set_callbacks new_client) ∙ callbacks_set in
    (
      start_tun w (record s { signaling = opened w.late_opens d }),
      (
        simp (
          fresh,
          known,
          h,
          connected_lem w.looks w.opens h,
          registered_lem s.username s.public_ip port c u i refl,
        ),
        ap (λ (x : SignalingClient). x.sent) (start_tun-signaling w _)
            ∙ opened-sent w.late_opens d set
            ∙ ap (λ z. (z ++ said ∷ []) ++ replicate w.late_opens greeting)
                (opened-sent w.opens (set_callbacks new_client) callbacks_set ∙ set-sent)
            ∙ append_assoc (replicate w.opens greeting) (said ∷ [])
                (replicate w.late_opens greeting),
      ),
    )

-- A binding success response: other attributes, and the masked port and address.
abbrev pub binding_response : ℕ → ℕ → Bytes → List Attribute → Bytes
binding_response ip port transaction others =
    (bytes2 0x0101 ++ bytes2 (length (all_encoded others) + 12))
    ++ (transaction
        ++ (all_encoded others ++ mapped_attribute (bit_xor port 0x2112) (bit_xor ip 0x2112A442)))

length-binding_response :
    (ip port : ℕ) (transaction : Bytes) (others : List Attribute)
    → length transaction ≡ 16
    → length (binding_response ip port transaction others) ≡ 20 + (length (all_encoded others) + 12)
length-binding_response ip port transaction others t =
    let mapped = mapped_attribute (bit_xor port 0x2112) (bit_xor ip 0x2112A442) in
    omega (
      arith,
      t,
      length-append transaction (all_encoded others ++ mapped),
      length-append (all_encoded others) mapped,
    )

-- The client reads the response as it came in.
discovered-response :
    (to_string : Bytes → Text) (x : Exchange) (c : StunClient) (ip port : ℕ) (transaction : Bytes)
    (others : List Attribute)
    → x.reaches ≡ true
    → x.answer ≡ some (binding_response ip port transaction others)
    → bit_xor port 0x2112 < 2 ^ 16
    → bit_xor ip 0x2112A442 < 2 ^ 32
    → length transaction ≡ 16
    → All IsOther others
    → length (all_encoded others) ≤ 480
    → (discover_public_address to_string x c).1 ≡ finished (some (to_string (bytes4 ip), port))
discovered-response to_string x c ip port transaction others reaches got p i t h short =
    let answer = binding_response ip port transaction others in
    let len : ℕ = 20 + (length (all_encoded others) + 12) in
    let size : length answer ≡ len = length-binding_response ip port transaction others t in
    let mapped = mapped_attribute (bit_xor port 0x2112) (bit_xor ip 0x2112A442) in
    let body : Bytes = transaction ++ (all_encoded others ++ mapped) in
    let zeros : Bytes = replicate (512 - len) 0 in
    let kind : Bytes = bytes2 0x0101 in
    discovered to_string x c answer reaches got (omega (arith, size, short))
    ∙ ap (λ n. parse_response to_string n (answer ++ replicate (512 - n) 0)) size
    ∙ ap (λ m. parse_response to_string len (((kind ++ bytes2 m) ++ body) ++ zeros))
        {x = length (all_encoded others) + 12} {y = len - 20} (omega arith)
    ∙ ap (parse_response to_string len) (
        append_assoc (kind ++ bytes2 (len - 20)) _ zeros
        ∙ ap (λ s. (kind ++ bytes2 (len - 20)) ++ s)
            (append_assoc transaction _ zeros
              ∙ ap (λ s. transaction ++ s) (append_assoc (all_encoded others) mapped zeros)))
    ∙ parse_response-others to_string ip port len p i transaction others zeros t h refl
        (omega (arith, short))

-- If the STUN server answers the start of a client with a binding success response, the connection
-- to the signaling server comes up, and the user name and the printed address are UTF-8, then the
-- start ends with a result, and what the signaling server has been sent is one registration, of
-- the user name with the port and the address that the STUN server encoded, and besides it a
-- greeting for each Open message of the socket, before the registration or after it as the
-- messages were handled. The response has a transaction of 16 bytes with the cookie, any number of
-- other attributes of together at most 480 bytes without padding, and then the XOR-MAPPED-ADDRESS;
-- the masked port and address have 16 and 32 bits.
pub initialize_system-registers :
    (w : World) (username : Text) (ip port : ℕ) (transaction : Bytes) (others : List Attribute)
    → w.stun.reaches ≡ true
    → w.stun.answer ≡ some (binding_response ip port transaction others)
    → bit_xor port 0x2112 < 2 ^ 16
    → bit_xor ip 0x2112A442 < 2 ^ 32
    → length transaction ≡ 16
    → All IsOther others
    → length (all_encoded others) ≤ 480
    → is_utf8 username ≡ true
    → is_utf8 (w.to_string (bytes4 ip)) ≡ true
    → (connect w.looks w.opens (set_callbacks new_client)).1 ≡ true
    → (r : P2PSystem × Bool) × ((initialize_system w username new_system ≡ some r)
        × (r.0.signaling.sent
            ≡ replicate w.opens greeting
              ++ registration username (w.to_string (bytes4 ip)) port
                ∷ replicate w.late_opens greeting))
unfolding initialize_system after_discovery
initialize_system-registers w username ip port transaction others reaches got p i t h short known
      printed up =
    let begun : P2PSystem =
      with_state idle (record new_system { username = username; running = true }) in
    let asked = discover_public_address w.to_string w.stun begun.stun in
    let ready : P2PSystem = record begun {
      stun = asked.0;
      public_ip = w.to_string (bytes4 ip);
      public_port = pos port;
    } in
    let (r, (started, sent)) = signaling-registers w ready port refl refl known printed up in
    (
      r,
      (
        ap (λ d. after_discovery w d (record begun { stun = asked.0 }))
              (discovered-response w.to_string w.stun begun.stun ip port transaction others reaches
                got p i t h short)
            ∙ started,
        sent,
      ),
    )
