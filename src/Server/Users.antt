-- ===== src/Server/Users.antt =====
-- The users that are registered at the signaling server, and what changes them.
use peer_bridge_cli.Common.{
  ℕ, zero, suc, true, Option, some, List, [], ◌∷◌, ◌++◌, length, get_elem?, ◌≡◌, refl, arith,
}
use peer_bridge_cli.Common.Dict.{get}
use peer_bridge_cli.Server.State.{Python, User, Server, Reply, socket_key, set_pending}

module _ {V : Type 0} (py : Python V) where
  open py use {text, is_truthy, is_hashable, key, shown, same_text}

  -- On the connection `w` the user `u` has registered, at the reference `r`.
  pub record Registered (s : Server V) (w r : ℕ) (u : User V) : Type 0 where
    pub handler : get socket_key w s.handlers ≡ some (some r)
    pub object : get_elem? s.users r ≡ some u
    pub socket : u.websocket ≡ w
    pub named : get key u.username s.username_to_user ≡ some r
    pub hashable : is_hashable u.username ≡ true
    pub truthy : is_truthy u.username ≡ true

  abbrev pub pending : Option V → User V → User V
  pending request u = record u { pending_chat_request = request }

  pub get-set_pending_self :
      (users : List (User V)) (r : ℕ) (request : Option V) (u : User V)
      → get_elem? users r ≡ some u
      → get_elem? (set_pending r request users) r ≡ some (pending request u)
  get-set_pending_self [] r request u h = cc
  get-set_pending_self (x ∷ users) zero request u h = ground arith
  get-set_pending_self (x ∷ users) (suc r) request u h = get-set_pending_self users r request u h

  pub get-set_pending :
      (users : List (User V)) (k r : ℕ) (request : Option V) (u : User V)
      → get_elem? users r ≡ some u
      → (p : Option V) × (get_elem? (set_pending k request users) r ≡ some (pending p u))
  get-set_pending [] k r request u h = cc
  get-set_pending (x ∷ users) zero zero request u h = (request, ground arith)
  get-set_pending (x ∷ users) zero (suc r) request u h = (u.pending_chat_request, ground arith)
  get-set_pending (x ∷ users) (suc k) zero request u h = (u.pending_chat_request, ground arith)
  get-set_pending (x ∷ users) (suc k) (suc r) request u h = get-set_pending users k r request u h

  -- What is sent does not matter.
  pub Registered-sent :
      (s : Server V) (w r : ℕ) (u : User V) (sent : List (ℕ × Reply V))
      → Registered s w r u
      → Registered (record s { sent = sent }) w r u
  Registered-sent s w r u sent x = record {
    handler = x.handler;
    object = x.object;
    socket = x.socket;
    named = x.named;
    hashable = x.hashable;
    truthy = x.truthy;
  }

  pub get_elem?-snoc :
      (users : List (User V)) (u : User V) → get_elem? (users ++ u ∷ []) (length users) ≡ some u
  get_elem?-snoc [] u = refl
  get_elem?-snoc (x ∷ users) u = get_elem?-snoc users u

  pub get_elem?-append :
      (users more : List (User V)) (r : ℕ) (u : User V)
      → get_elem? users r ≡ some u
      → get_elem? (users ++ more) r ≡ some u
  get_elem?-append [] more r u h = cc
  get_elem?-append (x ∷ users) more zero u h = h
  get_elem?-append (x ∷ users) more (suc r) u h = get_elem?-append users more r u h

  -- The user at `r` after another request at `k`.
  pub pended :
      (s : Server V) (w r k : ℕ) (u : User V) (request p : Option V) (sent : List (ℕ × Reply V))
      → Registered s w r u
      → get_elem? (set_pending k request s.users) r ≡ some (pending p u)
      → Registered
          (record s { users = set_pending k request s.users; sent = sent })
          w
          r
          (pending p u)
  pended s w r k u request p sent x e = record {
    handler = x.handler;
    object = e;
    socket = x.socket;
    named = x.named;
    hashable = x.hashable;
    truthy = x.truthy;
  }
