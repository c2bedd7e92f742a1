-- ===== src/Egress/Address.antt =====
-- IP addresses, and `evaluate_ip` and `parse_alt_ipv4` of backend/src/services/egress_policy.rs.
-- The tests on an address are those of Rust's `std::net`.
pub mod Laws
pub mod Ranges
pub mod Number
use Prim.Native.Nat.{bit_and}
use fire_crow.Prelude.{
  ℕ, ◌+◌, ◌*◌, ◌/◌, ◌%◌, Bool, true, false, not, ◌&&◌, ◌||◌, Option, none, some, List, [], ◌∷◌,
  String, ◌==◌, leb, ltb, if◌then◌else◌, is_empty, length, all,
}
use fire_crow.Text.{
  Str, str, has_byte, strip_prefix, starts_with, split, to_hex_digit, is_digit, is_some,
}

pub data EgressDecision : Type 0 where
  allowed : EgressDecision
  blocked : String → EgressDecision

-- `Ipv4Addr`, by its octets.
pub record Ipv4 : Type 0 where
  pub a : ℕ
  pub b : ℕ
  pub c : ℕ
  pub d : ℕ

-- `Ipv6Addr`, by its segments.
pub record Ipv6 : Type 0 where
  pub s0 : ℕ
  pub s1 : ℕ
  pub s2 : ℕ
  pub s3 : ℕ
  pub s4 : ℕ
  pub s5 : ℕ
  pub s6 : ℕ
  pub s7 : ℕ

pub data IpAddr : Type 0 where
  v4 : Ipv4 → IpAddr
  v6 : Ipv6 → IpAddr

abbrev is_link_local : Ipv4 → Bool
is_link_local ip = ip.a == 169 && ip.b == 254

abbrev is_private : Ipv4 → Bool
is_private ip =
    ip.a == 10 || (ip.a == 172 && leb 16 ip.b && leb ip.b 31) || (ip.a == 192 && ip.b == 168)

abbrev all_octets : ℕ → Ipv4 → Bool
all_octets n ip = ip.a == n && ip.b == n && ip.c == n && ip.d == n

abbrev is_documentation : Ipv4 → Bool
is_documentation ip =
    (ip.a == 192 && ip.b == 0 && ip.c == 2)
    || (ip.a == 198 && ip.b == 51 && ip.c == 100)
    || (ip.a == 203 && ip.b == 0 && ip.c == 113)

-- The arm of `IpAddr::V4`.
unfoldable pub evaluate_v4 : Ipv4 → EgressDecision
evaluate_v4 ip =
    if ip.a == 127
    then blocked "loopback blocked"
    else if is_link_local ip || (ip.a == 169 && ip.b == 254 && ip.c == 169 && ip.d == 254)
    then blocked "cloud metadata and link-local blocked"
    else if is_private ip
    then blocked "RFC1918 private network blocked"
    else if all_octets 255 ip || all_octets 0 ip
    then blocked "broadcast/unspecified blocked"
    else if ip.a == 0
    then blocked "software-scope address blocked"
    else if is_documentation ip
    then blocked "documentation range blocked"
    else if ip.a == 100 && bit_and ip.b 0xC0 == 64
    then blocked "carrier-grade NAT blocked"
    else if leb 224 ip.a
    then blocked "multicast/reserved blocked"
    else allowed

abbrev starts_zero : Ipv6 → Bool
starts_zero ip = ip.s0 == 0 && ip.s1 == 0 && ip.s2 == 0 && ip.s3 == 0 && ip.s4 == 0

-- `to_ipv4_mapped`
abbrev to_ipv4_mapped : Ipv6 → Option Ipv4
to_ipv4_mapped ip =
    if starts_zero ip && ip.s5 == 0xFFFF
    then some (record { a = ip.s6 / 256; b = ip.s6 % 256; c = ip.s7 / 256; d = ip.s7 % 256 })
    else none

-- The checks after the mapped addresses: fe80::/10, fc00::/7, ff00::/8 and 2001:db8::/32.
abbrev evaluate_scope : Ipv6 → EgressDecision
evaluate_scope ip =
    if leb 0xFE80 ip.s0 && leb ip.s0 0xFEBF
    then blocked "IPv6 link-local blocked"
    else if leb 0xFC00 ip.s0 && leb ip.s0 0xFDFF
    then blocked "IPv6 unique-local blocked"
    else if leb 0xFF00 ip.s0 || (ip.s0 == 0x2001 && ip.s1 == 0x0DB8)
    then blocked "IPv6 multicast/documentation blocked"
    else allowed

-- The arm of `IpAddr::V6`.
unfoldable pub evaluate_v6 : Ipv6 → EgressDecision
evaluate_v6 ip =
    if starts_zero ip && ip.s5 == 0 && ip.s6 == 0 && ip.s7 == 1
    then blocked "IPv6 loopback blocked"
    else if starts_zero ip && ip.s5 == 0 && ip.s6 == 0 && ip.s7 == 0
    then blocked "IPv6 unspecified blocked"
    else elim (to_ipv4_mapped ip) [ some mapped ↦ evaluate_v4 mapped | none ↦ evaluate_scope ip ]

unfoldable pub evaluate_ip : IpAddr → EgressDecision
evaluate_ip (v4 ip) = evaluate_v4 ip
evaluate_ip (v6 ip) = evaluate_v6 ip

-- The value of a digit in a base of 16 at most.
abbrev digit_in : ℕ → ℕ → Option ℕ
digit_in base c = elim (to_hex_digit c) [
  | none ↦ none
  | some v ↦ if ltb v base then some v else none
]

-- `u32::from_str_radix`, for digits only: none at another character, and past 2^32.
unfoldable pub radix_value : ℕ → ℕ → Str → Option ℕ
radix_value base n [] = if ltb n 0x100000000 then some n else none
radix_value base n (c ∷ s) = elim (digit_in base c) [
  | none ↦ none
  | some v ↦ radix_value base (n * base + v) s
]

-- `host.strip_prefix("0x").or_else(|| host.strip_prefix("0X"))`
unfoldable pub hex_prefix : Str → Option Str
hex_prefix host = elim (strip_prefix host (str "0x")) [
  | some hex ↦ some hex
  | none ↦ strip_prefix host (str "0X")
]

abbrev is_hex : Str → Bool
is_hex s = all (λ c. is_some (to_hex_digit c)) s

-- `Ipv4Addr::from(u32)`
abbrev pub from_u32 : Option ℕ → Option Ipv4
from_u32 none = none
from_u32 (some n) =
    some (record { a = n / 0x1000000; b = (n / 0x10000) % 256; c = (n / 256) % 256; d = n % 256 })

unfoldable pub part_value : Str → Option ℕ
part_value part = elim (hex_prefix part) [
  | some hex ↦ if is_empty hex || not (is_hex hex) then none else radix_value 16 0 hex
  | none ↦
      if not (all is_digit part)
      then none
      else if not (leb (length part) 1) && starts_with part (str "0")
      then radix_value 8 0 part
      else radix_value 10 0 part
]

-- One round of the loop over the parts; `value as u8` keeps the value modulo 256.
unfoldable pub octet : Str → Option ℕ
octet part = if is_empty part then none else elim (part_value part) [
  | none ↦ none
  | some v ↦ if ltb 255 v then none else some (v % 256)
]

infixl 5 ◌>>=◌
abbrev ◌>>=◌ {ℓ κ} : {A : Type ℓ} {B : Type κ} → Option A → (A → Option B) → Option B
none >>= f = none
some a >>= f = f a

abbrev pub dotted : List Str → Option Ipv4
dotted (p ∷ q ∷ r ∷ s ∷ []) = do
  a ← octet p
  b ← octet q
  c ← octet r
  d ← octet s
  some (record { a = a; b = b; c = c; d = d })
dotted _ = none

unfoldable pub parse_alt_ipv4 : Str → Option Ipv4
parse_alt_ipv4 host =
    if not (has_byte b'.' host)
    then elim (hex_prefix host) [
      | some hex ↦
          if is_empty hex || not (leb (length hex) 8) || not (is_hex hex)
          then none
          else from_u32 (radix_value 16 0 hex)
      | none ↦
          if not (is_empty host) && all is_digit host
          then from_u32 (radix_value 10 0 host)
          else none
    ]
    else dotted (split b'.' host)
