-- ===== src/Signaling/Utf8.antt =====
-- The texts that the JSON library writes: its documentation says that `dump` throws for a text that
-- is not UTF-8 (RFC 3629). A text is its bytes.
use peer_bridge_cli.Common.{
  ℕ, zero, suc, Bool, true, false, ◌&&◌, Option, none, some, [], ◌∷◌, Text, leb, ltb, if◌then◌else◌,
}

-- What follows a first byte: how many bytes, and the bounds of the next of them.
abbrev pub following : ℕ → Option (ℕ × ℕ × ℕ)
following c =
    if ltb c 0x80
    then some (0, 0x80, 0xBF)
    else if ltb c 0xC2
    then none
    else if ltb c 0xE0
    then some (1, 0x80, 0xBF)
    else if ltb c 0xE1
    then some (2, 0xA0, 0xBF)
    else if ltb c 0xED
    then some (2, 0x80, 0xBF)
    else if ltb c 0xEE
    then some (2, 0x80, 0x9F)
    else if ltb c 0xF0
    then some (2, 0x80, 0xBF)
    else if ltb c 0xF1
    then some (3, 0x90, 0xBF)
    else if ltb c 0xF4
    then some (3, 0x80, 0xBF)
    else if ltb c 0xF5
    then some (3, 0x80, 0x8F)
    else none

-- The rest of a text, with `k` bytes of a character to come.
abbrev pub goes_on : ℕ → ℕ → ℕ → Text → Bool
goes_on zero low high [] = true
goes_on (suc k) low high [] = false
goes_on zero low high (c ∷ s) = elim (following c) [
  | none ↦ false
  | some (k, low', high') ↦ goes_on k low' high' s
]
goes_on (suc k) low high (c ∷ s) = (leb low c && leb c high) && goes_on k 0x80 0xBF s

unfoldable pub is_utf8 : Text → Bool
is_utf8 s = goes_on 0 0x80 0xBF s
