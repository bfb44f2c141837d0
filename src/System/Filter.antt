-- ===== src/System/Filter.antt =====
-- Which packets pass between the tunnel and the link, said of the addresses as numbers.
use peer_bridge_cli.Common.{
  ℕ, ◌+◌, ◌*◌, ◌-◌, ◌^◌, ◌<◌, ◌/◌, ◌≡◌, ◌⊎◌, ◌↔◌, refl, ap, true, Bytes, codes, arith, text_eq,
  text_eq_iff,
}
use peer_bridge_cli.Ip.{uint32_to_ip, ip_write}
use peer_bridge_cli.Decimal.{decimal}
use peer_bridge_cli.Ip.RoundTrip.{uint32_to_ip-injective}
use peer_bridge_cli.Wire.{word32}
use peer_bridge_cli.System.Packets.{is_wanted, is_broadcast, is_multicast}

text_eq-address :
    (x y : ℕ)
    → x < 2 ^ 32
    → y < 2 ^ 32
    → (text_eq (uint32_to_ip x) (uint32_to_ip y) ≡ true) ↔ (x ≡ y)
text_eq-address x y hx hy =
    let l = text_eq_iff (uint32_to_ip x) (uint32_to_ip y) in
    (λ h. uint32_to_ip-injective x y hx hy (l.0 h), λ e. l.1 (ap uint32_to_ip e))

-- 10.0.0.255
abbrev pub subnet_broadcast : ℕ
subnet_broadcast = 10 * 2 ^ 24 + 255

subnet_broadcast-text : uint32_to_ip subnet_broadcast ≡ codes "10.0.0.255"
unfolding uint32_to_ip ip_write decimal
subnet_broadcast-text = refl

limited_broadcast-text : uint32_to_ip (2 ^ 32 - 1) ≡ codes "255.255.255.255"
unfolding uint32_to_ip ip_write decimal
limited_broadcast-text = refl

-- A packet passes the filter for the text of an address exactly when its destination is that
-- address, 10.0.0.255, 255.255.255.255, or has 1110 as its first four bits. The two addresses have
-- 32 bits.
pub is_wanted_iff :
    (own dst : ℕ) (packet : Bytes)
    → own < 2 ^ 32
    → dst < 2 ^ 32
    → word32 packet 16 ≡ dst
    → (is_wanted (uint32_to_ip own) packet ≡ true)
      ↔ ((dst ≡ own) ⊎ (dst ≡ subnet_broadcast) ⊎ (dst ≡ 2 ^ 32 - 1) ⊎ (dst / 2 ^ 28 ≡ 14))
unfolding is_wanted is_broadcast is_multicast
is_wanted_iff own dst packet ho hd e =
    let a = text_eq-address dst own hd ho in
    let b = text_eq-address dst subnet_broadcast hd (omega arith) in
    let c = text_eq-address dst (2 ^ 32 - 1) hd (omega arith) in
    rw (e, ← subnet_broadcast-text, ← limited_broadcast-text) (ground (arith, a, b, c))
