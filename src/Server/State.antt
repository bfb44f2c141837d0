-- ===== src/Server/State.antt =====
-- backend/app.py: what the signaling server keeps, and the steps that its handlers are made of.
--
-- A `User` is an object that is changed in place and that several names refer to: a reference is
-- its place in `users`. What `json.loads` gives is a value of a type `V`, read through `Python`.
use peer_bridge_cli.Common.{
  ℕ, zero, suc, Bool, true, Option, none, some, List, [], ◌∷◌, Text, text_eq, ◌==◌, ◌≡◌, arith,
}
use peer_bridge_cli.Common.Dict.{Key}

-- The values other than `None`. The test of `key` is `==`, by which the keys of a dictionary are
-- compared, where they can be hashed; `shown` is what an f-string prints.
pub record Python (V : Type 0) : Type 0 where
  pub text : Text → V
  pub is_truthy : V → Bool
  pub is_hashable : V → Bool
  pub key : Key V
  pub shown : V → Text
  pub same_text : (a b : Text) → key.same (text a) (text b) ≡ text_eq a b

pub ==-cong : (a b c : ℕ) → (a == b) ≡ true → (a == c) ≡ (b == c)
==-cong a b c h = ground arith

pub ==-refl : (a : ℕ) → (a == a) ≡ true
==-refl a = ground arith

-- A WebSocket is a number; two are equal if they are the same object.
abbrev pub socket_key : Key ℕ
socket_key = record { same = ◌==◌; same_refl = ==-refl; same_cong = ==-cong }

pub record User (V : Type 0) : Type 0 where
  pub websocket : ℕ
  pub username : V
  pub ip : V
  pub port : V
  pub pending_chat_request : Option V

-- An object that the server sends.
abbrev pub Reply : Type 0 → Type 0
Reply V = List (Text × V)

pub record Server (V : Type 0) : Type 0 where
  pub users : List (User V)
  pub connected_users : List (ℕ × ℕ)
  pub username_to_user : List (V × ℕ)
  -- The connections whose handler runs, with its variable `user`.
  pub handlers : List (ℕ × Option ℕ)
  pub sent : List (ℕ × Reply V)

abbrev pub new_server : {V : Type 0} → Server V
new_server = record {
  users = [];
  connected_users = [];
  username_to_user = [];
  handlers = [];
  sent = [];
}

-- `user.pending_chat_request = r`
abbrev pub set_pending : {V : Type 0} → ℕ → Option V → List (User V) → List (User V)
set_pending k r [] = []
set_pending zero r (u ∷ users) = record u { pending_chat_request = r } ∷ users
set_pending (suc k) r (u ∷ users) = u ∷ set_pending k r users

-- A step of a handler: `none` is an exception.
abbrev pub M : Type 0 → Type 0 → Type 0
M V A = Server V → Server V × Option A

abbrev pub resume : {V A B : Type 0} → Server V × Option A → (A → M V B) → Server V × Option B
resume (s, none) f = (s, none)
resume (s, some a) f = f a s

infixl 5 ◌>>=◌ ◌>>◌
abbrev pub ◌>>=◌ : {V A B : Type 0} → M V A → (A → M V B) → M V B
◌>>=◌ m f s = resume (m s) f

abbrev pub ◌>>◌ : {V B : Type 0} → M V (Unit {0}) → M V B → M V B
m >> k = m >>= λ _. k

abbrev pub pure : {V A : Type 0} → A → M V A
pure a s = (s, some a)

abbrev pub raise : {V A : Type 0} → M V A
raise s = (s, none)

abbrev pub recover : {V A : Type 0} → Server V × Option A → M V A → Server V × Option A
recover (s, none) h = h s
recover (s, some a) h = (s, some a)

-- `try: m except Exception: h`
abbrev pub catching : {V A : Type 0} → M V A → M V A → M V A
catching m h s = recover (m s) h
