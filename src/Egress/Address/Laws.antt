-- ===== src/Egress/Address/Laws.antt =====
-- About mapped addresses, backend/src/services/egress_policy.rs.
use fire_crow.Prelude.{◌+◌, ◌*◌, ◌/◌, ◌%◌, ◌<◌, ◌≡◌, refl, arith}
use fire_crow.Egress.Address.{Ipv4, Ipv6, evaluate_v4, evaluate_v6}

-- The IPv4 address as an IPv4-mapped IPv6 address.
abbrev pub mapped : Ipv4 → Ipv6
mapped ip = record {
  s0 = 0;
  s1 = 0;
  s2 = 0;
  s3 = 0;
  s4 = 0;
  s5 = 0xFFFF;
  s6 = ip.a * 256 + ip.b;
  s7 = ip.c * 256 + ip.d;
}

-- Octets, below 256 each.
pub record IsAddress (ip : Ipv4) : Type 0 where
  pub a_small : ip.a < 256
  pub b_small : ip.b < 256
  pub c_small : ip.c < 256
  pub d_small : ip.d < 256

-- An IPv4 address that is written as an IPv4-mapped IPv6 address gets the judgement, with the
-- reason, of the IPv4 address itself.
pub evaluate_v6-mapped : (ip : Ipv4) → IsAddress ip → evaluate_v6 (mapped ip) ≡ evaluate_v4 ip
unfolding evaluate_v6
evaluate_v6-mapped ip h =
    let high : (ip.a * 256 + ip.b) / 256 ≡ ip.a = omega (arith, h.b_small) in
    let low : (ip.a * 256 + ip.b) % 256 ≡ ip.b = omega (arith, h.b_small) in
    let high' : (ip.c * 256 + ip.d) / 256 ≡ ip.c = omega (arith, h.d_small) in
    let low' : (ip.c * 256 + ip.d) % 256 ≡ ip.d = omega (arith, h.d_small) in
    rw (high, low, high', low') refl
