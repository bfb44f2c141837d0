-- ===== src/Wire/Layout.antt =====
-- What the header functions write and read, byte for byte.
use peer_bridge_cli.Common.{
  ℕ, ◌+◌, ◌*◌, ◌/◌, ◌%◌, ◌^◌, ◌<◌, ◌≡◌, refl, ◌∙◌, Option, [], ◌∷◌, ◌++◌, Bytes, arith, bit_or,
  replicate, All, IsByte, get_or, get_or-All,
}
use peer_bridge_cli.Bits.{bit_and-0xff, bit_or-shl_24, bit_or-shl_16, bit_or-shl_8}
use peer_bridge_cli.Wire.{
  PacketType, to_byte, attach_custom_header, word32, word16, set_word, value_or,
}

-- The four bytes of a word, highest first.
abbrev pub bytes4 : ℕ → Bytes
bytes4 x = x / 2 ^ 24 % 256 ∷ x / 2 ^ 16 % 256 ∷ x / 2 ^ 8 % 256 ∷ x % 256 ∷ []

pub bit_or_4 :
    (a b c d : ℕ)
    → b < 256
    → c < 256
    → d < 256
    → bit_or (bit_or (bit_or (a * 2 ^ 24) (b * 2 ^ 16)) (c * 2 ^ 8)) d
      ≡ a * 2 ^ 24 + b * 2 ^ 16 + c * 2 ^ 8 + d
bit_or_4 a b c d hb hc hd =
    let e₁ : bit_or (a * 2 ^ 24) (b * 2 ^ 16) ≡ (a * 256 + b) * 2 ^ 16 =
      omega (arith, bit_or-shl_24 a (b * 2 ^ 16) (omega arith)) in
    let e₂ : bit_or ((a * 256 + b) * 2 ^ 16) (c * 2 ^ 8) ≡ ((a * 256 + b) * 256 + c) * 2 ^ 8 =
      omega (arith, bit_or-shl_16 (a * 256 + b) (c * 2 ^ 8) (omega arith)) in
    rw (e₁, e₂) (omega (arith, bit_or-shl_8 ((a * 256 + b) * 256 + c) d hd))

-- The header that every packet starts with.
abbrev pub header : PacketType → ℕ → Bytes
header t seq = 0x12 ∷ 0x34 ∷ 0x56 ∷ 0x78 ∷ 0 ∷ 1 ∷ to_byte t ∷ 0 ∷ bytes4 seq

pub attach-header :
    (next : ℕ) (t : PacketType) (o : Option ℕ) (rest : Bytes)
    → (attach_custom_header next (replicate 12 0 ++ rest) t o).packet
      ≡ header t (value_or o next) ++ rest
unfolding attach_custom_header set_word
attach-header next t o rest = simp bit_and-0xff

pub split_join :
    (x : ℕ)
    → x < 2 ^ 32
    → bit_or
        (bit_or
          (bit_or (x / 2 ^ 24 % 256 * 2 ^ 24) (x / 2 ^ 16 % 256 * 2 ^ 16))
          (x / 2 ^ 8 % 256 * 2 ^ 8))
        (x % 256)
      ≡ x
split_join x h =
    bit_or_4 (x / 2 ^ 24 % 256) (x / 2 ^ 16 % 256) (x / 2 ^ 8 % 256) (x % 256) (omega arith)
      (omega arith) (omega arith)
    ∙ omega arith

pub set_word-bytes4 :
    (t : PacketType) (seq x : ℕ) (rest : Bytes)
    → set_word (header t seq ++ replicate 4 0 ++ rest) 12 x ≡ header t seq ++ bytes4 x ++ rest
unfolding set_word
set_word-bytes4 t seq x rest = simp bit_and-0xff

-- What a reader finds in a header.
module _ (t : PacketType) (seq : ℕ) (rest : Bytes) where
  pub word32-magic : word32 (header t seq ++ rest) 0 ≡ 0x12345678
  unfolding word32
  word32-magic = refl

  pub word16-version : word16 (header t seq ++ rest) 4 ≡ 1
  unfolding word16
  word16-version = refl

  pub word32-seq : seq < 2 ^ 32 → word32 (header t seq ++ rest) 8 ≡ seq
  unfolding word32
  word32-seq h = split_join seq h

  pub word32-msg_len : (x : ℕ) → x < 2 ^ 32 → word32 (header t seq ++ bytes4 x ++ rest) 12 ≡ x
  unfolding word32
  word32-msg_len x h = split_join x h

-- A word read from bytes has 32 bits.
pub word32-lt : (b : Bytes) (i : ℕ) → All IsByte b → word32 b i < 2 ^ 32
unfolding word32
word32-lt b i h =
    rw
      (bit_or_4 (get_or b i 0) (get_or b (i + 1) 0) (get_or b (i + 2) 0) (get_or b (i + 3) 0)
        (at (i + 1)) (at (i + 2)) (at (i + 3)))
      (omega (arith, at i, at (i + 1), at (i + 2), at (i + 3)))
  where
    at : (j : ℕ) → get_or b j 0 < 256
    at j = get_or-All IsByte b j 0 h (omega arith)
