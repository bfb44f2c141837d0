-- ===== src/Ip/RoundTrip.antt =====
-- Addresses printed and read back (client/include/utils.hpp).
use native.Mathlib.Nat.{div-one}
use mathlib.Core.Option.{some-injective}
use peer_bridge_cli.Common.{
  ℕ, zero, suc, ◌+◌, ◌*◌, ◌/◌, ◌%◌, ◌^◌, ◌<◌, ◌≡◌, refl, sym, ap, ◌∙◌, Bool, true, false, ◌&&◌,
  Option, none, some, [], ◌∷◌, ◌++◌, Text, arith, bit_and, bit_or, ◌==◌, if◌then◌else◌, append-nil,
}
use peer_bridge_cli.Common.Int.{ℤ, pos, negsuc}
use peer_bridge_cli.Bits.{bit_and-0xff, bit_or-shl_8}
use peer_bridge_cli.Decimal.{decimal, stoi}
use peer_bridge_cli.Ip.{dot, cut_line, get_line, ip_read, ip_to_uint32, ip_write, uint32_to_ip}

dot_free : Text → Bool
dot_free [] = true
dot_free (c ∷ s) = (if c == dot then false else true) && dot_free s

some_pos : Option ℤ → ℕ → Bool
some_pos none n = false
some_pos (some (pos m)) n = m == n
some_pos (some (negsuc m)) n = false

some_pos_sound : (o : Option ℤ) (n : ℕ) → some_pos o n ≡ true → o ≡ some (pos n)
unfolding some_pos
some_pos_sound none n h = cc
some_pos_sound (some (pos m)) n h = ground arith
some_pos_sound (some (negsuc m)) n h = cc

nonempty : Text → Bool
nonempty [] = false
nonempty (c ∷ s) = true

good_octet : ℕ → Bool
good_octet b = nonempty (decimal b) && (dot_free (decimal b) && some_pos (stoi (decimal b)) b)

-- A test that the numbers below a bound pass.
passes : (ℕ → Bool) → ℕ → Bool
passes test zero = true
passes test (suc bound) = passes test bound && test bound

passes_sound :
    (test : ℕ → Bool) (bound : ℕ) {b : ℕ} → b < bound → passes test bound ≡ true → test b ≡ true
unfolding passes
passes_sound test zero less h = absurd (omega arith)
passes_sound test (suc bound) {b} less h = ground (arith, passes_sound test bound {b = b})

octet_table : passes good_octet 256 ≡ true
unfolding passes good_octet nonempty dot_free some_pos decimal stoi
octet_table = refl

good_octet_lem : (b : ℕ) → b < 256 → good_octet b ≡ true
good_octet_lem b h = passes_sound good_octet 256 h octet_table

record GoodOctet (b : ℕ) : Type 0 where
  shown : nonempty (decimal b) ≡ true
  apart : dot_free (decimal b) ≡ true
  parsed : stoi (decimal b) ≡ some (pos b)

GoodOctet_lem : (b : ℕ) → b < 256 → GoodOctet b
unfolding good_octet
GoodOctet_lem b h = record {
  shown = ground (arith, good_octet_lem b h);
  apart = ground (arith, good_octet_lem b h);
  parsed = some_pos_sound (stoi (decimal b)) b (ground (arith, good_octet_lem b h));
}

cut_line-dot : (t s : Text) → dot_free t ≡ true → cut_line (t ++ (dot ∷ s)) ≡ (t, s)
unfolding cut_line dot_free
cut_line-dot [] s h = refl
cut_line-dot (c ∷ t) s h = ground (arith, cut_line-dot t s)

cut_line-end : (t : Text) → dot_free t ≡ true → cut_line t ≡ (t, [])
unfolding cut_line dot_free
cut_line-end [] h = refl
cut_line-end (c ∷ t) h = ground (arith, cut_line-end t)

get_line-dot :
    (t s : Text) → nonempty t ≡ true → dot_free t ≡ true → get_line (t ++ (dot ∷ s)) ≡ some (t, s)
unfolding get_line nonempty
get_line-dot [] s e h = cc
get_line-dot (c ∷ t) s e h = ap some (cut_line-dot (c ∷ t) s h)

get_line-end : (t : Text) → nonempty t ≡ true → dot_free t ≡ true → get_line t ≡ some (t, [])
unfolding get_line nonempty
get_line-end [] e h = cc
get_line-end (c ∷ t) e h = ap some (cut_line-end (c ∷ t) h)

join_octet :
    (result b : ℕ)
    → b < 256
    → result < 2 ^ 24
    → bit_or (result * 2 ^ 8 % 2 ^ 32) (bit_and (b % 2 ^ 32) 0xff) ≡ result * 256 + b
join_octet result b h r =
    let e : result * 2 ^ 8 % 2 ^ 32 ≡ result * 2 ^ 8 = omega arith in
    let f : bit_and (b % 2 ^ 32) 0xff ≡ b = omega (arith, bit_and-0xff (b % 2 ^ 32)) in
    rw (e, f) (bit_or-shl_8 result b h)

ip_read-dot :
    (r b result : ℕ) (s : Text)
    → b < 256
    → result < 2 ^ 24
    → ip_read (suc r) (decimal b ++ (dot ∷ s)) result ≡ ip_read r s (result * 256 + b)
unfolding ip_read
ip_read-dot r b result s h small =
    let o = GoodOctet_lem b h in
    rw (get_line-dot (decimal b) s o.shown o.apart, ip_read)
      (rw (o.parsed, ip_read) (ap (ip_read r s) (join_octet result b h small)))

ip_read-end :
    (b result : ℕ)
    → b < 256
    → result < 2 ^ 24
    → ip_read 1 (decimal b) result ≡ some (result * 256 + b)
unfolding ip_read
ip_read-end b result h small =
    let o = GoodOctet_lem b h in
    rw (get_line-end (decimal b) o.shown o.apart, ip_read)
      (rw (o.parsed, ip_read) (ap some (join_octet result b h small)))

dotted :
    (x : ℕ)
    → uint32_to_ip x
      ≡ decimal (x / 2 ^ 24 % 256)
        ++ (dot
            ∷ (decimal (x / 2 ^ 16 % 256)
                ++ (dot ∷ (decimal (x / 2 ^ 8 % 256) ++ (dot ∷ decimal (x % 256))))))
unfolding uint32_to_ip ip_write
dotted x = simp (bit_and-0xff, append-nil, div-one)

-- Reading back what `uint32ToIp` prints gives the address again, for every address of 32 bits.
pub ip_to_uint32-uint32_to_ip : (x : ℕ) → x < 2 ^ 32 → ip_to_uint32 (uint32_to_ip x) ≡ some x
unfolding ip_to_uint32
ip_to_uint32-uint32_to_ip x h =
    let b₃ = x / 2 ^ 24 % 256 in
    let b₂ = x / 2 ^ 16 % 256 in
    let b₁ = x / 2 ^ 8 % 256 in
    let b₀ = x % 256 in
    let r₃ = 0 * 256 + b₃ in
    let r₂ = r₃ * 256 + b₂ in
    let r₁ = r₂ * 256 + b₁ in
    rw (dotted x) (
      ip_read-dot 3 b₃ 0 _ (omega arith) (omega arith)
      ∙ (ip_read-dot 2 b₂ r₃ _ (omega arith) (omega arith)
          ∙ (ip_read-dot 1 b₁ r₂ _ (omega arith) (omega arith)
              ∙ (ip_read-end b₀ r₁ (omega arith) (omega arith) ∙ ap some (omega arith)))))

-- Two addresses of 32 bits that `uint32ToIp` prints alike are the same address.
pub uint32_to_ip-injective :
    (x y : ℕ) → x < 2 ^ 32 → y < 2 ^ 32 → uint32_to_ip x ≡ uint32_to_ip y → x ≡ y
uint32_to_ip-injective x y hx hy e =
    some-injective x y
      (sym (ip_to_uint32-uint32_to_ip x hx) ∙ (ap ip_to_uint32 e ∙ ip_to_uint32-uint32_to_ip y hy))
