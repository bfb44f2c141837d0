-- ===== src/Stun/Attributes.antt =====
-- A response with other attributes before the XOR-MAPPED-ADDRESS (client/src/stun.cpp).
use peer_bridge_cli.Common.{
  ℕ, zero, suc, ◌+◌, ◌-◌, ◌/◌, ◌%◌, ◌^◌, ◌≤◌, ◌<◌, ◌≡◌, ◌≢◌, refl, sym, ap, ◌∙◌, some, List, [],
  ◌∷◌, ◌++◌, Bytes, Text, length, length-append, append_assoc, arith, bit_xor, get_or, All,
}
use peer_bridge_cli.Bits.{bit_or-shl_8}
use peer_bridge_cli.Wire.{word16, word32}
use peer_bridge_cli.Wire.Layout.{bytes4, split_join}
use peer_bridge_cli.Stun.{finished, parse_attributes, parse_response}
use peer_bridge_cli.Stun.Laws.{mapped-address, parse-hit}

abbrev pub bytes2 : ℕ → Bytes
bytes2 x = x / 2 ^ 8 % 256 ∷ x % 256 ∷ []

pub record Attribute : Type 0 where
  pub type : ℕ
  pub value : Bytes

-- As it lies in a response, with no padding.
abbrev pub encoded : Attribute → Bytes
encoded a = bytes2 a.type ++ (bytes2 (length a.value) ++ a.value)

abbrev pub all_encoded : List Attribute → Bytes
all_encoded [] = []
all_encoded (a ∷ rest) = encoded a ++ all_encoded rest

-- An attribute of another kind.
abbrev pub IsOther : Attribute → Type 0
IsOther a = (a.type < 2 ^ 16) × (a.type ≢ 0x0020) × (length a.value < 2 ^ 16)

-- XOR-MAPPED-ADDRESS of IPv4: the family, and the masked port and address.
abbrev pub mapped_attribute : ℕ → ℕ → Bytes
mapped_attribute xport xip = bytes2 0x0020 ++ (bytes2 8 ++ (0 ∷ 1 ∷ bytes2 xport ++ bytes4 xip))

length-all_encoded : (others : List Attribute) → length others ≤ length (all_encoded others)
length-all_encoded [] = omega arith
length-all_encoded (a ∷ rest) =
    omega (arith, length-append (encoded a) (all_encoded rest), length-all_encoded rest)

get_or-skip : (pre s : Bytes) (k j : ℕ) → j ≡ length pre + k → get_or (pre ++ s) j 0 ≡ get_or s k 0
get_or-skip [] s k j e = ap (λ i. get_or s i 0) (omega (arith, e))
get_or-skip (b ∷ pre) s k zero e = absurd (omega (arith, e))
get_or-skip (b ∷ pre) s k (suc j) e = get_or-skip pre s k j (omega (arith, e))

word16-skip : (pre s : Bytes) (k j : ℕ) → j ≡ length pre + k → word16 (pre ++ s) j ≡ word16 s k
unfolding word16
word16-skip pre s k j e =
    rw (get_or-skip pre s k j e, get_or-skip pre s (k + 1) (j + 1) (omega (arith, e))) refl

word32-skip : (pre s : Bytes) (k j : ℕ) → j ≡ length pre + k → word32 (pre ++ s) j ≡ word32 s k
unfolding word32
word32-skip pre s k j e =
    rw
      (
        get_or-skip pre s k j e,
        get_or-skip pre s (k + 1) (j + 1) (omega (arith, e)),
        get_or-skip pre s (k + 2) (j + 2) (omega (arith, e)),
        get_or-skip pre s (k + 3) (j + 3) (omega (arith, e)),
      )
      refl

word16-bytes2 : (x : ℕ) (rest : Bytes) → x < 2 ^ 16 → word16 (bytes2 x ++ rest) 0 ≡ x
unfolding word16
word16-bytes2 x rest h = omega (arith, bit_or-shl_8 (x / 2 ^ 8 % 256) (x % 256) (omega arith))

word32-bytes4 : (x : ℕ) (rest : Bytes) → x < 2 ^ 32 → word32 (bytes4 x ++ rest) 0 ≡ x
unfolding word32
word32-bytes4 x rest h = split_join x h

parse-skip :
    (to_string : Bytes → Text) (len : ℕ) (response : Bytes) (rounds i : ℕ)
    → i + 4 < len
    → word16 response i ≢ 0x0020
    → parse_attributes to_string (suc rounds) i len response
      ≡ parse_attributes to_string rounds (i + 4 + word16 response (i + 2)) len response
unfolding parse_attributes
parse-skip to_string len response rounds i before other = ground arith

module _ (to_string : Bytes → Text) (ip port : ℕ) (len : ℕ)
    (port_fits : bit_xor port 0x2112 < 2 ^ 16) (ip_fits : bit_xor ip 0x2112A442 < 2 ^ 32) where
  mapped : Bytes
  mapped = mapped_attribute (bit_xor port 0x2112) (bit_xor ip 0x2112A442)

  -- The loop at the end of `pre`, with `rest` before it.
  at_mapped :
      (pre tail : Bytes) (rounds : ℕ)
      → 0 < rounds
      → length pre + 12 ≤ len
      → parse_attributes to_string rounds (length pre) len (pre ++ (mapped ++ tail))
        ≡ finished (some (to_string (bytes4 ip), port))
  unfolding mapped word16 word32
  at_mapped pre tail rounds some_rounds fits =
      parse-hit to_string len (pre ++ (mapped ++ tail)) rounds (length pre) some_rounds
        (omega arith)
        (word16-skip pre (mapped ++ tail) 0 (length pre) (omega arith)
          ∙ word16-bytes2 0x0020 [] (omega arith))
      ∙ mapped-address to_string len (pre ++ (mapped ++ tail)) (length pre + 4) ip port
          (omega (arith, length-append pre (mapped ++ tail)))
          (word16-skip pre (mapped ++ tail) 6 (length pre + 4 + 2) (omega arith)
            ∙ word16-bytes2 (bit_xor port 0x2112) [] port_fits)
          (word32-skip pre (mapped ++ tail) 8 (length pre + 4 + 4) (omega arith)
            ∙ word32-bytes4 (bit_xor ip 0x2112A442) [] ip_fits)

  -- Attributes of other kinds before it.
  past_others :
      (others : List Attribute) (pre tail : Bytes) (rounds : ℕ)
      → All IsOther others
      → length others < rounds
      → length pre + (length (all_encoded others) + 12) ≤ len
      → parse_attributes to_string rounds
          (length pre)
          len
          (pre ++ (all_encoded others ++ (mapped ++ tail)))
        ≡ finished (some (to_string (bytes4 ip), port))
  unfolding parse_attributes word16
  past_others [] pre tail rounds h r fits =
      at_mapped pre tail rounds (omega (arith, r)) (omega (arith, fits))
  past_others (a ∷ others) pre tail zero h r fits = absurd (omega (arith, r))
  past_others (a ∷ others) pre tail (suc rounds) h r fits =
      let (small, other, short) = h.0 in
      let behind = all_encoded others ++ (mapped ++ tail) in
      let response = pre ++ ((encoded a ++ all_encoded others) ++ (mapped ++ tail)) in
      let type : word16 response (length pre) ≡ a.type =
        word16-skip pre _ 0 (length pre) (omega arith) ∙ word16-bytes2 a.type [] small in
      let size : word16 response (length pre + 2) ≡ length a.value =
        word16-skip pre _ 2 (length pre + 2) (omega arith)
        ∙ word16-bytes2 (length a.value) [] short in
      let moved : length pre + 4 + word16 response (length pre + 2) ≡ length (pre ++ encoded a) =
        omega (arith, size, length-append pre (encoded a)) in
      let parted : response ≡ (pre ++ encoded a) ++ behind =
        ap (λ s. pre ++ s) (append_assoc (encoded a) (all_encoded others) (mapped ++ tail))
        ∙ sym (append_assoc pre (encoded a) behind) in
      let total = length-append (encoded a) (all_encoded others) in
      parse-skip to_string len response rounds (length pre) (omega (arith, fits, total))
        (λ e. other (sym type ∙ e))
      ∙ ap (λ i. parse_attributes to_string rounds i len response) moved
      ∙ ap (parse_attributes to_string rounds (length (pre ++ encoded a)) len) parted
      ∙ past_others others (pre ++ encoded a) tail rounds h.1 (omega (arith, r))
          (omega (arith, fits, total, length-append pre (encoded a)))

  -- From a binding success response that has any number of attributes of other kinds, and after
  -- them an XOR-MAPPED-ADDRESS, the client reads the port and the four bytes of the address that
  -- the server encoded. The response is shorter than 2 ^ 16 bytes, of the length that its header
  -- says, with no padding in it; types and lengths have 16 bits; the masked port and address have
  -- 16 and 32 bits; anything may follow in the array.
  pub parse_response-others :
      (transaction : Bytes) (others : List Attribute) (tail : Bytes)
      → length transaction ≡ 16
      → All IsOther others
      → len ≡ 20 + (length (all_encoded others) + 12)
      → len < 2 ^ 16
      → parse_response to_string len (
          (bytes2 0x0101 ++ bytes2 (len - 20))
          ++ (transaction
              ++ (all_encoded others
                  ++ (mapped_attribute (bit_xor port 0x2112) (bit_xor ip 0x2112A442) ++ tail))))
        ≡ finished (some (to_string (bytes4 ip), port))
  unfolding parse_response mapped word16
  parse_response-others transaction others tail t h l short =
      let pre : Bytes = bytes2 0x0101 ++ (bytes2 (len - 20) ++ transaction) in
      let response : Bytes = pre ++ (all_encoded others ++ (mapped ++ tail)) in
      let start : length pre ≡ 20 = omega (arith, t) in
      let kind : word16 response 0 ≡ 0x0101 = word16-bytes2 0x0101 [] (omega arith) in
      let size : word16 response 2 ≡ len - 20 =
        word16-bytes2 (len - 20) [] (omega (arith, short)) in
      let found : parse_attributes to_string len 20 len response
          ≡ finished (some (to_string (bytes4 ip), port)) =
        ap (λ i. parse_attributes to_string len i len response) (sym start)
        ∙ past_others others pre tail len h (omega (arith, l, length-all_encoded others))
            (omega (arith, l, start)) in
      ground (arith, kind, size, found, l)
