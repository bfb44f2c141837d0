-- ===== src/Stun.antt =====
-- client/src/stun.cpp: the answer of the STUN server, and the public address that it names.
--
-- The socket and the timer are Boost's, and what they do is an `Exchange`. `to_string` is Boost's
-- too; it prints the four bytes of an address.
pub mod Laws
pub mod Attributes
use peer_bridge_cli.Common.{
  ℕ, zero, suc, ◌+◌, Bool, true, false, Option, none, some, List, [], ◌∷◌, ◌++◌, take, replicate,
  Bytes, Text, codes, length, ltb, ◌==◌, not, bit_and, bit_xor, if◌then◌else◌,
}
use peer_bridge_cli.Wire.{word16, word32, byte_of}

-- `overread` is a read beyond the array. Otherwise the search ends, with an address or without.
pub data Discovered : Type 0 where
  overread : Discovered
  finished : Option (Text × ℕ) → Discovered

-- The client: the server that it asks, whether it holds its socket, and what it has sent.
pub record StunClient : Type 0 where
  pub stun_server : Text
  pub stun_port : Text
  pub has_socket : Bool
  pub sent : List Bytes

abbrev pub new_stun : StunClient
new_stun = record {
  stun_server = codes "stun.l.google.com";
  stun_port = codes "19302";
  has_socket = false;
  sent = [];
}

unfoldable pub set_stun_server : Text → Text → StunClient → StunClient
set_stun_server server port c = record c { stun_server = server; stun_port = port }

-- What Boost and libsodium do: whether the server's name resolves, the socket opens and the request
-- is sent, or one of them throws; the twelve random bytes; and the answer that comes in within five
-- seconds, if one does without an error.
pub record Exchange : Type 0 where
  pub reaches : Bool
  pub random : Bytes
  pub answer : Option Bytes

-- Type, length and magic cookie, then the transaction's number.
unfoldable pub binding_request : Bytes → Bytes
binding_request random = 0x00 ∷ 0x01 ∷ 0x00 ∷ 0x00 ∷ 0x21 ∷ 0x12 ∷ 0xA4 ∷ 0x42 ∷ take 12 random

-- `getSocket` moves the socket out.
unfoldable pub get_socket : StunClient → StunClient × Bool
get_socket c = (record c { has_socket = false }, c.has_socket)

module _ (to_string : Bytes → Text) where
  -- XOR-MAPPED-ADDRESS, whose value starts at `i`.
  unfoldable pub mapped_address : Bytes → ℕ → Discovered
  mapped_address response i =
      if not (ltb (i + 7) (length response))
      then overread
      else let port = bit_xor (word16 response (i + 2)) 0x2112 in
        let ip_raw = bit_xor (word32 response (i + 4)) 0x2112A442 in
        finished (
          some (
            to_string (
                byte_of ip_raw 24
                ∷ byte_of ip_raw 16
                ∷ byte_of ip_raw 8
                ∷ bit_and ip_raw 0xff
                ∷ []),
            port,
          ))

  -- The loop over the attributes, with a bound on its rounds.
  unfoldable pub parse_attributes : ℕ → ℕ → ℕ → Bytes → Discovered
  parse_attributes zero i len response = finished none
  parse_attributes (suc rounds) i len response =
      let rest = parse_attributes rounds (i + 4 + word16 response (i + 2)) len response in
      if not (ltb (i + 4) len)
      then finished none
      else if word16 response i == 0x0020
      then mapped_address response (i + 4)
      else rest

  -- What is done with an answer of `len` bytes in the array: the checks of its header, and the loop.
  -- Each round moves on by four at least.
  unfoldable pub parse_response : ℕ → Bytes → Discovered
  parse_response len response =
      if ltb len 20
      then finished none
      else if ltb len (20 + word16 response 2)
      then finished none
      else if not (word16 response 0 == 0x0101)
      then finished none
      else parse_attributes len 20 len response

  -- The array of 512 bytes was zero before the answer came in, of which it takes no more.
  unfoldable pub discover_public_address : Exchange → StunClient → StunClient × Discovered
  discover_public_address x c =
      let made = record c { has_socket = true } in
      if not x.reaches
      then (made, finished none)
      else let asked = record made { sent = made.sent ++ binding_request x.random ∷ [] } in
        elim x.answer [
          | none ↦ (asked, finished none)
          | some answer ↦
              let response = take 512 (answer ++ replicate 512 0) in
              (asked, parse_response (length (take 512 answer)) response)
        ]
