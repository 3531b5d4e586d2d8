-- ===== src/Egress/AddressLaws.antt =====
-- Which addresses are refused: the two forms of an address, and the two settings.

use mediaman.Prelude.{
  Bool, any, arith, false, if◌then◌else◌, true, ℕ, ◌&&◌, ◌*◌, ◌+◌, ◌<◌, ◌^◌, ◌||◌, ◌≡◌,
}
use mediaman.Egress.Blocks.{
  same_ip, blocked_v4_nets, blocked_v6_nets, strict_v4_nets, strict_v6_nets, metadata_ips,
  is_unspecified, is_link_local, in_any, v4, v6, Ip, unwrap_mapped, blocked_unwrapped,
  ip_is_blocked,
}

-- The IPv4-mapped IPv6 address `::ffff:a.b.c.d` of an IPv4 address is refused just when that address
-- is, under either setting of strict egress.
pub ip_is_blocked-mapped :
    (strict : Bool) (n : ℕ)
    → n < 2 ^ 32
    → ip_is_blocked strict (v6 (65535 * 2 ^ 32 + n)) ≡ ip_is_blocked strict (v4 n)
unfolding ip_is_blocked unwrap_mapped
ip_is_blocked-mapped strict n h = ground (arith, h)

rules-strict :
    (a b c d e : Bool)
    → (if a then true else if b then true else if c then true else d || false && e) ≡ true
    → (if a then true else if b then true else if c then true else d || true && e) ≡ true
rules-strict a b c d e h = ground (arith, h)

-- What is refused by default is refused under strict egress.
ip_is_blocked-strict : (ip : Ip) → ip_is_blocked false ip ≡ true → ip_is_blocked true ip ≡ true
unfolding ip_is_blocked
ip_is_blocked-strict ip h = go (unwrap_mapped ip) h
  where
    go : (i : Ip) → blocked_unwrapped false i ≡ true → blocked_unwrapped true i ≡ true
    go (v4 n) e =
        rules-strict (any (λ m. same_ip m (v4 n)) metadata_ips) (is_unspecified (v4 n))
          (is_link_local (v4 n)) (in_any blocked_v4_nets n) (in_any strict_v4_nets n) e
    go (v6 n) e =
        rules-strict (any (λ m. same_ip m (v6 n)) metadata_ips) (is_unspecified (v6 n))
          (is_link_local (v6 n)) (in_any blocked_v6_nets n) (in_any strict_v6_nets n) e
