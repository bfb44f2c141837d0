-- ===== src/Stun/Laws.antt =====
-- The address that is found, the reads of the array, and the rounds of the loop
-- (client/src/stun.cpp).
use peer_bridge_cli.Common.{
  ℕ, zero, suc, ◌+◌, ◌≤◌, ◌<◌, ◌≡◌, ◌≢◌, refl, true, some, Bytes, Text, length, ltb, arith, bit_xor,
}
use peer_bridge_cli.Bits.{bit_xor_twice, bit_and-0xff}
use peer_bridge_cli.Wire.{word16, word32}
use peer_bridge_cli.Wire.Layout.{bytes4}
use peer_bridge_cli.Stun.{overread, finished, mapped_address, parse_attributes, parse_response}

module _ (to_string : Bytes → Text) (len : ℕ) (response : Bytes) where
  pub mapped-address :
      (i ip port : ℕ)
      → i + 7 < length response
      → word16 response (i + 2) ≡ bit_xor port 0x2112
      → word32 response (i + 4) ≡ bit_xor ip 0x2112A442
      → mapped_address to_string response i ≡ finished (some (to_string (bytes4 ip), port))
  unfolding mapped_address
  mapped-address i ip port fits p a =
      let room : ltb (i + 7) (length response) ≡ true = ground arith in
      simp (room, p, a, bit_xor_twice, bit_and-0xff)

  pub parse-hit :
      (rounds i : ℕ)
      → 0 < rounds
      → i + 4 < len
      → word16 response i ≡ 0x0020
      → parse_attributes to_string rounds i len response ≡ mapped_address to_string response (i + 4)
  unfolding parse_attributes
  parse-hit zero i some_rounds before type = absurd (omega arith)
  parse-hit (suc rounds) i some_rounds before type = ground arith

  -- From a binding success response whose first attribute is an XOR-MAPPED-ADDRESS, the client
  -- reads the port and the four bytes of the address that the server encoded in it. The response
  -- has the length that its header says, 32 bytes at least, and lies within the array.
  discover-address :
      (ip port : ℕ)
      → 32 ≤ len
      → len ≤ length response
      → word16 response 0 ≡ 0x0101
      → word16 response 2 ≡ 12
      → word16 response 20 ≡ 0x0020
      → word16 response 26 ≡ bit_xor port 0x2112
      → word32 response 28 ≡ bit_xor ip 0x2112A442
      → parse_response to_string len response ≡ finished (some (to_string (bytes4 ip), port))
  unfolding parse_response
  discover-address ip port long fits type size attribute p a =
      let hit = parse-hit len 20 (omega arith) (omega arith) attribute in
      let read = mapped-address 24 ip port (omega arith) p a in ground arith

  mapped-inside : (i : ℕ) → i + 7 < length response → mapped_address to_string response i ≢ overread
  unfolding mapped_address
  mapped-inside i h e = ground arith

  parse-inside :
      (rounds i : ℕ)
      → len + 7 ≤ length response
      → parse_attributes to_string rounds i len response ≢ overread
  unfolding parse_attributes
  parse-inside zero i h e = cc
  parse-inside (suc rounds) i h e =
      ground (arith, mapped-inside (i + 4), parse-inside rounds (i + 4 + word16 response (i + 2)) h)

  -- No response that ends 7 bytes or more before the end of the array makes the client read beyond
  -- the array.
  pub discover-inside : len + 7 ≤ length response → parse_response to_string len response ≢ overread
  unfolding parse_response
  discover-inside h e = ground (arith, parse-inside len 20 h)

  -- Any two bounds on the rounds of the loop over attributes give the same result, if each reaches
  -- the end of the response from where the loop starts; the bound that the search takes is one of
  -- these.
  parse_attributes-enough :
      (k l i : ℕ)
      → len ≤ i + k
      → len ≤ i + l
      → parse_attributes to_string k i len response ≡ parse_attributes to_string l i len response
  unfolding parse_attributes
  parse_attributes-enough zero zero i hk hl = refl
  parse_attributes-enough zero (suc l) i hk hl = ground arith
  parse_attributes-enough (suc k) zero i hk hl = ground arith
  parse_attributes-enough (suc k) (suc l) i hk hl =
      let next = i + 4 + word16 response (i + 2) in
      ground (arith, parse_attributes-enough k l next (omega arith) (omega arith))
