-- ===== src/Egress/Address/Ranges.antt =====
-- About IPv4 addresses in `evaluate_ip`, backend/src/services/egress_policy.rs, by the number that
-- an address stands for.
use Prim.Native.Nat.{bit_and}
use fire_crow.Prelude.{
  ℕ, zero, suc, ◌+◌, ◌*◌, ◌<◌, ◌≤◌, ◌≡◌, refl, ◌↔◌, ◌⊎◌, inl, inr, Bool, true, ◌&&◌, ◌||◌, arith,
  leb, ltb, ◌==◌, if◌then◌else◌,
}
use fire_crow.Egress.Address.{Ipv4, allowed, evaluate_v4}
use fire_crow.Egress.Address.Laws.{IsAddress}

-- `u32::from(ip)`
abbrev pub number_of : Ipv4 → ℕ
number_of ip = ((ip.a * 256 + ip.b) * 256 + ip.c) * 256 + ip.d

-- A number of a block, its first and last included.
abbrev pub IsIn : ℕ → ℕ → ℕ → Type 0
IsIn lo hi n = (lo ≤ n) × (n ≤ hi)

-- The blocks that are kept from being a peer: 0/8, 10/8, 100.64/10, 127/8, 169.254/16, 172.16/12,
-- 192.0.2/24, 192.168/16, 198.51.100/24, 203.0.113/24, and all from 224 on.
abbrev pub IsReserved : ℕ → Type 0
IsReserved n =
    IsIn 0 0x00FFFFFF n
    ⊎ IsIn 0x0A000000 0x0AFFFFFF n
    ⊎ IsIn 0x64400000 0x647FFFFF n
    ⊎ IsIn 0x7F000000 0x7FFFFFFF n
    ⊎ IsIn 0xA9FE0000 0xA9FEFFFF n
    ⊎ IsIn 0xAC100000 0xAC1FFFFF n
    ⊎ IsIn 0xC0000200 0xC00002FF n
    ⊎ IsIn 0xC0A80000 0xC0A8FFFF n
    ⊎ IsIn 0xC6336400 0xC63364FF n
    ⊎ IsIn 0xCB007100 0xCB0071FF n
    ⊎ IsIn 0xE0000000 0xFFFFFFFF n

octet_passes : (ℕ → Bool) → ℕ → Bool
octet_passes test zero = true
octet_passes test (suc k) = octet_passes test k && test k

at_octet : (test : ℕ → Bool) (k i : ℕ) → i < k → octet_passes test k ≡ true → test i ≡ true
unfolding octet_passes
at_octet test zero i below passes = absurd (omega arith)
at_octet test (suc k) i below passes = ground (arith, at_octet test k i)

-- The mask `0xC0` of an octet is 64 exactly from 64 to 127.
masks : ℕ → Bool
masks b = if bit_and b 0xC0 == 64 then leb 64 b && ltb b 128 else ltb b 64 || leb 128 b

mask_table : octet_passes masks 256 ≡ true
unfolding octet_passes masks
mask_table = refl

mask_iff : (b : ℕ) → b < 256 → ((bit_and b 0xC0 == 64) ≡ true) ↔ ((64 ≤ b) × (b < 128))
unfolding masks
mask_iff b h = ground (arith, at_octet masks 256 b h mask_table)

-- The reserved blocks by the octets, in the same order.
abbrev IsReservedByOctets : Ipv4 → Type 0
IsReservedByOctets ip =
    (ip.a ≡ 0)
    ⊎ (ip.a ≡ 10)
    ⊎ ((ip.a ≡ 100) × (64 ≤ ip.b) × (ip.b < 128))
    ⊎ (ip.a ≡ 127)
    ⊎ ((ip.a ≡ 169) × (ip.b ≡ 254))
    ⊎ ((ip.a ≡ 172) × (16 ≤ ip.b) × (ip.b ≤ 31))
    ⊎ ((ip.a ≡ 192) × (ip.b ≡ 0) × (ip.c ≡ 2))
    ⊎ ((ip.a ≡ 192) × (ip.b ≡ 168))
    ⊎ ((ip.a ≡ 198) × (ip.b ≡ 51) × (ip.c ≡ 100))
    ⊎ ((ip.a ≡ 203) × (ip.b ≡ 0) × (ip.c ≡ 113))
    ⊎ (224 ≤ ip.a)

IsReserved-octets : (ip : Ipv4) → IsAddress ip → IsReservedByOctets ip → IsReserved (number_of ip)
IsReserved-octets ip h (inl e) =
    inl (omega (arith, e), omega (arith, e, h.a_small, h.b_small, h.c_small, h.d_small))
IsReserved-octets ip h (inr (inl e)) =
    inr (inl (omega (arith, e), omega (arith, e, h.a_small, h.b_small, h.c_small, h.d_small)))
IsReserved-octets ip h (inr (inr (inl e))) =
    inr (inr (inl (omega (arith, e), omega (arith, e, h.a_small, h.b_small, h.c_small, h.d_small))))
IsReserved-octets ip h (inr (inr (inr (inl e)))) = inr (
    inr
      (inr (inl (omega (arith, e), omega (arith, e, h.a_small, h.b_small, h.c_small, h.d_small)))))
IsReserved-octets ip h (inr (inr (inr (inr (inl e))))) = inr (
    inr (
      inr (
        inr
          (inl (omega (arith, e), omega (arith, e, h.a_small, h.b_small, h.c_small, h.d_small))))))
IsReserved-octets ip h (inr (inr (inr (inr (inr (inl e)))))) = inr (
    inr (
      inr (
        inr (
          inr (
            inl
              (omega (arith, e), omega (arith, e, h.a_small, h.b_small, h.c_small, h.d_small)))))))
IsReserved-octets ip h (inr (inr (inr (inr (inr (inr (inl e))))))) = inr (
    inr (
      inr (
        inr (
          inr (
            inr (
              inl (
                omega (arith, e),
                omega (arith, e, h.a_small, h.b_small, h.c_small, h.d_small),
              )))))))
IsReserved-octets ip h (inr (inr (inr (inr (inr (inr (inr (inl e)))))))) = inr (
    inr (
      inr (
        inr (
          inr (
            inr (
              inr (
                inl (
                  omega (arith, e),
                  omega (arith, e, h.a_small, h.b_small, h.c_small, h.d_small),
                ))))))))
IsReserved-octets ip h (inr (inr (inr (inr (inr (inr (inr (inr (inl e))))))))) = inr (
    inr (
      inr (
        inr (
          inr (
            inr (
              inr (
                inr (
                  inl (
                    omega (arith, e),
                    omega (arith, e, h.a_small, h.b_small, h.c_small, h.d_small),
                  )))))))))
IsReserved-octets ip h (inr (inr (inr (inr (inr (inr (inr (inr (inr (inl e)))))))))) = inr (
    inr (
      inr (
        inr (
          inr (
            inr (
              inr (
                inr (
                  inr (
                    inl (
                      omega (arith, e),
                      omega (arith, e, h.a_small, h.b_small, h.c_small, h.d_small),
                    ))))))))))
IsReserved-octets ip h (inr (inr (inr (inr (inr (inr (inr (inr (inr (inr (e))))))))))) = inr (
    inr (
      inr (
        inr (
          inr (
            inr (
              inr (
                inr (
                  inr (
                    inr (
                      (
                        omega (arith, e),
                        omega (arith, e, h.a_small, h.b_small, h.c_small, h.d_small),
                      )))))))))))

outside-allowed : (ip : Ipv4) → IsAddress ip → (¬ IsReservedByOctets ip) → evaluate_v4 ip ≡ allowed
unfolding evaluate_v4
outside-allowed ip h n = let mask = mask_iff ip.b h.b_small in ground (arith, n, mask)

IsReserved-blocked :
    (ip : Ipv4) → IsAddress ip → evaluate_v4 ip ≡ allowed → ¬ IsReserved (number_of ip)
unfolding evaluate_v4
IsReserved-blocked ip h e r =
    let mask = mask_iff ip.b h.b_small in
    ground (arith, mask, h.a_small, h.b_small, h.c_small, h.d_small)

-- Of the IPv4 addresses exactly those outside these eleven blocks are allowed: 0/8, 10/8, 100.64/10,
-- 127/8, 169.254/16, 172.16/12, 192.0.2/24, 192.168/16, 198.51.100/24, 203.0.113/24 and all from 224
-- on, each as a range of the number that an address stands for.
pub evaluate_v4-allowed_iff :
    (ip : Ipv4) → IsAddress ip → (evaluate_v4 ip ≡ allowed) ↔ (¬ IsReserved (number_of ip))
evaluate_v4-allowed_iff ip h =
    (IsReserved-blocked ip h, λ n. outside-allowed ip h (λ r. n (IsReserved-octets ip h r)))
