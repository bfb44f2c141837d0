-- ===== src/Ip.antt =====
-- client/include/utils.hpp: IPv4 addresses as words and as dotted text.
pub mod RoundTrip
use peer_bridge_cli.Common.{
  ℕ, zero, suc, ◌-◌, ◌*◌, ◌/◌, ◌%◌, ◌^◌, Option, none, some, [], ◌∷◌, ◌++◌, Text, bit_and, bit_or,
  ◌==◌, if◌then◌else◌,
}
use peer_bridge_cli.Common.Int.{ℤ, pos, negsuc}
use peer_bridge_cli.Decimal.{decimal, stoi}

abbrev pub dot : ℕ
dot = b'.'

-- Up to the first dot, and what stands behind it.
unfoldable pub cut_line : Text → Text × Text
cut_line [] = ([], [])
cut_line (c ∷ s) = let (line, rest) = cut_line s in if c == dot then ([], s) else (c ∷ line, rest)

-- `std::getline(iss, octet, '.')`: it fails where nothing is left to read.
unfoldable pub get_line : Text → Option (Text × Text)
get_line [] = none
get_line (c ∷ s) = some (cut_line (c ∷ s))

-- An `int` as a `uint32_t`.
abbrev pub to_u32 : ℤ → ℕ
to_u32 (pos n) = n % 2 ^ 32
to_u32 (negsuc n) = 2 ^ 32 - 1 - n % 2 ^ 32

-- The loop of `ipToUint32`, with the rounds that are left; `none` is the exception of `stoi`.
unfoldable pub ip_read : ℕ → Text → ℕ → Option ℕ
ip_read zero s result = some result
ip_read (suc r) s result = elim (get_line s) [
  | none ↦ some result
  | some (octet, rest) ↦ elim (stoi octet) [
    | none ↦ none
    | some value ↦ ip_read r rest (bit_or (result * 2 ^ 8 % 2 ^ 32) (bit_and (to_u32 value) 0xff))
  ]
]

unfoldable pub ip_to_uint32 : Text → Option ℕ
ip_to_uint32 ip_address = ip_read 4 ip_address 0

-- The loop of `uint32ToIp`, with the rounds that are left: `i` is `3 - r`.
unfoldable pub ip_write : ℕ → ℕ → Text
ip_write zero ip_address = []
ip_write (suc r) ip_address =
    decimal (bit_and (ip_address / 2 ^ (8 * r)) 0xff)
    ++ ((if r == 0 then [] else dot ∷ []) ++ ip_write r ip_address)

unfoldable pub uint32_to_ip : ℕ → Text
uint32_to_ip ip_address = ip_write 4 ip_address
