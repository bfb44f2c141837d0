-- ===== src/Decimal.antt =====
-- How the standard library prints and reads integers in base ten: `std::to_string`, `<<` on an
-- `int`, and `std::stoi`. The numbers are machine integers, so `n + 1` rounds print `n`.
use peer_bridge_cli.Common.{
  ℕ, zero, suc, ◌+◌, ◌-◌, ◌*◌, ◌/◌, ◌%◌, ◌^◌, Bool, true, false, ◌&&◌, ◌||◌, Option, none, some, [],
  ◌∷◌, ◌++◌, Text, ltb, leb, ◌==◌, if◌then◌else◌,
}
use peer_bridge_cli.Common.Int.{ℤ, pos, negsuc}

decimal_fuel : ℕ → ℕ → Text
decimal_fuel zero n = []
decimal_fuel (suc f) n =
    let rest = decimal_fuel f (n / 10) ++ (b'0' + n % 10) ∷ [] in
    if ltb n 10 then (b'0' + n) ∷ [] else rest

unfoldable pub decimal : ℕ → Text
unfolding decimal_fuel
decimal n = decimal_fuel (suc n) n

-- `std::to_string` of an `int`.
unfoldable pub int_text : ℤ → Text
unfolding decimal
int_text (pos n) = decimal n
int_text (negsuc n) = b'-' ∷ decimal (suc n)

abbrev is_digit : ℕ → Bool
is_digit c = leb b'0' c && leb c b'9'

-- The white space that `stoi` skips, in the "C" locale.
abbrev is_space : ℕ → Bool
is_space c = c == 32 || (leb 9 c && leb c 13)

skip_space : Text → Text
skip_space [] = []
skip_space (c ∷ s) = let rest = skip_space s in if is_space c then rest else c ∷ s

-- The digits up to the first other character, onto the value so far.
read_digits : Text → ℕ → ℕ
read_digits [] n = n
read_digits (c ∷ s) n =
    let rest = read_digits s (n * 10 + (c - b'0')) in if is_digit c then rest else n

-- `none` where there is no digit at all (`invalid_argument`).
read_number : Text → Option ℕ
read_number [] = none
read_number (c ∷ s) = if is_digit c then some (read_digits (c ∷ s) 0) else none

-- `none` stands for both exceptions of `stoi`.
to_int : Bool → Option ℕ → Option ℤ
to_int negative none = none
to_int false (some n) = if ltb n (2 ^ 31) then some (pos n) else none
to_int true (some zero) = some (pos 0)
to_int true (some (suc n)) = if ltb n (2 ^ 31) then some (negsuc n) else none

signed : Text → Option ℤ
signed [] = none
signed (c ∷ s) =
    if c == b'-'
    then to_int true (read_number s)
    else if c == b'+'
    then to_int false (read_number s)
    else to_int false (read_number (c ∷ s))

unfoldable pub stoi : Text → Option ℤ
unfolding skip_space signed read_number read_digits to_int
stoi s = signed (skip_space s)
