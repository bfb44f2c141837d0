-- ===== src/Server/Values.antt =====
-- The values of the messages between the clients and the server (client/src/signaling.cpp,
-- backend/app.py): texts and integers, as Python takes them.
use peer_bridge_cli.Common.{
  Bool, true, false, not, ◌==◌, Text, text_eq, text_eq_iff, is_empty, ◌≡◌, refl,
}
use peer_bridge_cli.Common.Int.{ℤ, pos, negsuc}
use peer_bridge_cli.Common.Dict.{Key}
use peer_bridge_cli.Signaling.{JsonValue, str, int}
use peer_bridge_cli.Server.State.{Python, ==-refl, ==-cong}

abbrev int_eq : ℤ → ℤ → Bool
int_eq (pos a) (pos b) = a == b
int_eq (negsuc a) (negsuc b) = a == b
int_eq _ _ = false

-- `==` of Python.
abbrev same_value : JsonValue → JsonValue → Bool
same_value (str a) (str b) = text_eq a b
same_value (int a) (int b) = int_eq a b
same_value _ _ = false

pub text_eq_refl : (a : Text) → text_eq a a ≡ true
text_eq_refl a = (text_eq_iff a a).1 refl

pub text_eq-cong : (a b c : Text) → text_eq a b ≡ true → text_eq a c ≡ text_eq b c
text_eq-cong a b c h = rw ((text_eq_iff a b).0 h) refl

int_eq_refl : (a : ℤ) → int_eq a a ≡ true
int_eq_refl (pos a) = ==-refl a
int_eq_refl (negsuc a) = ==-refl a

int_eq-cong : (a b c : ℤ) → int_eq a b ≡ true → int_eq a c ≡ int_eq b c
int_eq-cong (pos a) (pos b) (pos c) h = ==-cong a b c h
int_eq-cong (pos a) (pos b) (negsuc c) h = refl
int_eq-cong (pos a) (negsuc b) c h = cc
int_eq-cong (negsuc a) (pos b) c h = cc
int_eq-cong (negsuc a) (negsuc b) (pos c) h = refl
int_eq-cong (negsuc a) (negsuc b) (negsuc c) h = ==-cong a b c h

pub same_value_refl : (a : JsonValue) → same_value a a ≡ true
same_value_refl (str a) = text_eq_refl a
same_value_refl (int a) = int_eq_refl a

pub same_value-cong : (a b c : JsonValue) → same_value a b ≡ true → same_value a c ≡ same_value b c
same_value-cong (str a) (str b) (str c) h = text_eq-cong a b c h
same_value-cong (str a) (str b) (int c) h = refl
same_value-cong (str a) (int b) c h = cc
same_value-cong (int a) (str b) c h = cc
same_value-cong (int a) (int b) (str c) h = refl
same_value-cong (int a) (int b) (int c) h = int_eq-cong a b c h

unfoldable pub text_key : Key Text
text_key = record { same = text_eq; same_refl = text_eq_refl; same_cong = text_eq-cong }

abbrev value_key : Key JsonValue
value_key = record { same = same_value; same_refl = same_value_refl; same_cong = same_value-cong }

abbrev is_true : JsonValue → Bool
is_true (str t) = not (is_empty t)
is_true (int (pos n)) = not (n == 0)
is_true (int (negsuc n)) = true

-- `shown` prints a value; the texts and integers can all be hashed.
abbrev pub json_values : (JsonValue → Text) → Python JsonValue
json_values shown = record {
  text = str;
  is_truthy = is_true;
  is_hashable = λ v. true;
  key = value_key;
  shown = shown;
  same_text = λ a b. refl;
}
