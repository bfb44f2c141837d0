-- ===== src/Bits.antt =====
-- Laws of `|`, `&` and `^` on the words that the client packs and unpacks.
use Prim.Native.Nat.{digits, min, max, differ, bit_or-bitwise, bit_xor-bitwise, bit_and-bitwise}
use peer_bridge_cli.Common.{
  ℕ, zero, suc, ◌+◌, ◌*◌, ◌/◌, ◌%◌, ◌^◌, ◌≤◌, ◌<◌, ◌≡◌, refl, ap, arith, bit_and, bit_or, bit_xor,
}

-- The three operations at once: `f` combines two digits, `z` takes what is left of the second word.
module _ (z : ℕ → ℕ) (f : ℕ → ℕ → ℕ) (rest : (v : ℕ) → z v ≡ z (v / 2) * 2 + f 0 (v % 2)) where
  -- Fuel beyond the first word makes no difference.
  fuel_any : (u v : ℕ) {k l : ℕ} → u ≤ k → u ≤ l → digits z f k u v ≡ digits z f l u v
  fuel_any zero v {k = zero} {l = zero} _ _ = refl
  fuel_any zero v {k = zero} {l = suc l} _ _ = refl
  fuel_any zero v {k = suc k} {l = zero} _ _ = refl
  fuel_any zero v {k = suc k} {l = suc l} _ _ = refl
  fuel_any (suc u) v {k = zero} {l = l} hk _ = absurd (omega arith)
  fuel_any (suc u) v {k = suc k} {l = zero} _ hl = absurd (omega arith)
  fuel_any (suc u) v {k = suc k} {l = suc l} hk hl =
      let halves = fuel_any (suc u / 2) (v / 2) {k = k} {l = l} (omega arith) (omega arith) in
      omega arith

  -- An operation that is defined by its digits, at its last digit.
  last_digit :
      (op : ℕ → ℕ → ℕ)
      → ((u v : ℕ) → op u v ≡ digits z f u u v)
      → (u v : ℕ) → op u v ≡ op (u / 2) (v / 2) * 2 + f (u % 2) (v % 2)
  last_digit op def zero v = omega (arith, def 0 v, def 0 (v / 2), rest v)
  last_digit op def (suc u) v =
      let halves =
        fuel_any (suc u / 2) (v / 2) {k = u} {l = suc u / 2} (omega arith) (omega arith) in
      omega (arith, def (suc u) v, def (suc u / 2) (v / 2))

pub bit_or-digit : (u v : ℕ) → bit_or u v ≡ bit_or (u / 2) (v / 2) * 2 + max (u % 2) (v % 2)
bit_or-digit = last_digit (λ v. v) max (λ v. omega arith) bit_or bit_or-bitwise

pub bit_and-digit : (u v : ℕ) → bit_and u v ≡ bit_and (u / 2) (v / 2) * 2 + min (u % 2) (v % 2)
bit_and-digit = last_digit (λ v. 0) min (λ v. omega arith) bit_and bit_and-bitwise

pub bit_xor-digit : (u v : ℕ) → bit_xor u v ≡ bit_xor (u / 2) (v / 2) * 2 + differ (u % 2) (v % 2)
bit_xor-digit = last_digit (λ v. v) differ (λ v. omega arith) bit_xor bit_xor-bitwise

-- An operation whose digits with a zero are `g`, with a word of zeros.
with_zero :
    (op g : ℕ → ℕ → ℕ) (out : ℕ → ℕ)
    → ((u : ℕ) → op u 0 ≡ op (u / 2) 0 * 2 + g (u % 2) 0)
    → ((u : ℕ) → out u ≡ out (u / 2) * 2 + g (u % 2) 0)
    → op 0 0 ≡ out 0
    → {k : ℕ} (u : ℕ) → u ≤ k
    → op u 0 ≡ out u
with_zero op g out hop hout base zero h = base
with_zero op g out hop hout base {k = zero} (suc u) h = absurd (omega arith)
with_zero op g out hop hout base {k = suc k} (suc u) h =
    let half = with_zero op g out hop hout base {k = k} (suc u / 2) (omega arith) in
    omega (arith, hop (suc u), hout (suc u))

bit_and-zero : (u : ℕ) → bit_and u 0 ≡ 0
bit_and-zero u =
    with_zero bit_and min (λ _. 0) (λ w. bit_and-digit w 0) (λ w. omega arith) refl {k = u} u
      (omega arith)

bit_or-zero : (u : ℕ) → bit_or u 0 ≡ u
bit_or-zero u =
    with_zero bit_or max (λ w. w) (λ w. bit_or-digit w 0) (λ w. omega arith) refl {k = u} u
      (omega arith)

pow2 : ℕ → ℕ
pow2 zero = 1
pow2 (suc k) = pow2 k * 2

-- A word shifted left by `k` and a word of at most `k` digits do not overlap.
bit_or-pow2 : (k x b : ℕ) → b < pow2 k → bit_or (x * pow2 k) b ≡ x * pow2 k + b
unfolding pow2
bit_or-pow2 zero x zero h = omega (arith, bit_or-zero (x * 1))
bit_or-pow2 zero x (suc b) h = absurd (omega arith)
bit_or-pow2 (suc k) x b h =
    let e : x * (pow2 k * 2) / 2 ≡ x * pow2 k = omega arith in
    omega (
      arith,
      bit_or-digit (x * (pow2 k * 2)) b,
      ap (λ t. bit_or t (b / 2)) e,
      bit_or-pow2 k x (b / 2) (omega arith),
    )

bit_and_mask : (a m : ℕ) → bit_and a (m * 2 + 1) ≡ bit_and (a / 2) m * 2 + a % 2
bit_and_mask a m =
    let e : (m * 2 + 1) / 2 ≡ m = omega arith in
    omega (arith, bit_and-digit a (m * 2 + 1), ap (bit_and (a / 2)) e)

-- The mask `0x0F` keeps the last four bits.
pub bit_and-0x0f : (a : ℕ) → bit_and a 15 ≡ a % 16
bit_and-0x0f a = omega (
  arith,
  bit_and_mask a 7,
  bit_and_mask (a / 2) 3,
  bit_and_mask (a / 2 / 2) 1,
  bit_and_mask (a / 2 / 2 / 2) 0,
  bit_and-zero (a / 2 / 2 / 2 / 2),
)

-- The mask `0xFF` keeps the last byte.
pub bit_and-0xff : (a : ℕ) → bit_and a 255 ≡ a % 256
bit_and-0xff a = omega (
  arith,
  bit_and_mask a 127,
  bit_and_mask (a / 2) 63,
  bit_and_mask (a / 2 / 2) 31,
  bit_and_mask (a / 2 / 2 / 2) 15,
  bit_and_mask (a / 2 / 2 / 2 / 2) 7,
  bit_and_mask (a / 2 / 2 / 2 / 2 / 2) 3,
  bit_and_mask (a / 2 / 2 / 2 / 2 / 2 / 2) 1,
  bit_and_mask (a / 2 / 2 / 2 / 2 / 2 / 2 / 2) 0,
  bit_and-zero (a / 2 / 2 / 2 / 2 / 2 / 2 / 2 / 2),
)

-- The three shifts that put four bytes into a word.
pub bit_or-shl_24 : (x b : ℕ) → b < 2 ^ 24 → bit_or (x * 2 ^ 24) b ≡ x * 2 ^ 24 + b
unfolding pow2
bit_or-shl_24 x b h = bit_or-pow2 24 x b h

pub bit_or-shl_16 : (x b : ℕ) → b < 2 ^ 16 → bit_or (x * 2 ^ 16) b ≡ x * 2 ^ 16 + b
unfolding pow2
bit_or-shl_16 x b h = bit_or-pow2 16 x b h

pub bit_or-shl_8 : (x b : ℕ) → b < 2 ^ 8 → bit_or (x * 2 ^ 8) b ≡ x * 2 ^ 8 + b
unfolding pow2
bit_or-shl_8 x b h = bit_or-pow2 8 x b h

differ_bits : (x y : ℕ) → x < 2 → y < 2 → (differ x y < 2) × (differ (differ x y) y ≡ x)
differ_bits zero zero p q = (omega arith, refl)
differ_bits zero (suc zero) p q = (omega arith, refl)
differ_bits (suc zero) zero p q = (omega arith, refl)
differ_bits (suc zero) (suc zero) p q = (omega arith, refl)
differ_bits zero (suc (suc y)) p q = absurd (omega arith)
differ_bits (suc zero) (suc (suc y)) p q = absurd (omega arith)
differ_bits (suc (suc x)) y p q = absurd (omega arith)

bit_xor_twice_fuel : (n a k : ℕ) → a ≤ n → k ≤ n → bit_xor (bit_xor a k) k ≡ a
bit_xor_twice_fuel zero zero zero p q = refl
bit_xor_twice_fuel zero zero (suc k) p q = absurd (omega arith)
bit_xor_twice_fuel zero (suc a) k p q = absurd (omega arith)
bit_xor_twice_fuel (suc n) a k p q =
    let (small, back) = differ_bits (a % 2) (k % 2) (omega arith) (omega arith) in
    let high : bit_xor a k / 2 ≡ bit_xor (a / 2) (k / 2) = omega (arith, bit_xor-digit a k) in
    let low : bit_xor a k % 2 ≡ differ (a % 2) (k % 2) = omega (arith, bit_xor-digit a k) in
    omega (
      arith,
      bit_xor-digit (bit_xor a k) k,
      ap (λ t. bit_xor t (k / 2)) high,
      ap (λ t. differ t (k % 2)) low,
      bit_xor_twice_fuel n (a / 2) (k / 2) (omega arith) (omega arith),
    )

-- `^` by the same word twice gives the first word back.
pub bit_xor_twice : (a k : ℕ) → bit_xor (bit_xor a k) k ≡ a
bit_xor_twice a k = bit_xor_twice_fuel (a + k) a k (omega arith) (omega arith)
