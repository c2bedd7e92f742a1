-- ===== src/Egress/Address/Number.antt =====
-- About IPv4 addresses that are written as one decimal number, `parse_alt_ipv4` of
-- backend/src/services/egress_policy.rs.
use fire_crow.Prelude.{
  ℕ, zero, suc, ◌+◌, ◌*◌, ◌/◌, ◌%◌, ◌<◌, ◌≡◌, refl, ap, ◌∙◌, inl, inr, true, false, none, some, [],
  ◌∷◌, is_empty, all, Bool-cases, arith, ltb,
}
use fire_crow.Text.{Str, str, is_digit, has_byte, strip_prefix, to_hex_digit}
use fire_crow.Text.Decimal.{digits_onto, decimal}
use fire_crow.Egress.Address.{Ipv4, from_u32, radix_value, hex_prefix, parse_alt_ipv4}
use fire_crow.Egress.Address.Laws.{IsAddress}
use fire_crow.Egress.Address.Ranges.{number_of}

digit_read :
    (n d : ℕ) (s : Str) → d < 10 → radix_value 10 n ((d + b'0') ∷ s) ≡ radix_value 10 (n * 10 + d) s
unfolding radix_value to_hex_digit is_digit
digit_read n d s h = ground arith

-- The digits of a number, read before more of them.
digits_onto-read :
    (f n : ℕ) (s : Str) → n < f → radix_value 10 0 (digits_onto f n s) ≡ radix_value 10 n s
unfolding digits_onto
digits_onto-read zero n s h = absurd (omega arith)
digits_onto-read (suc f) n s h = elim (Bool-cases (ltb n 10)) [
  | inl e ↦
      let start : 0 * 10 + n ≡ n = omega arith in
      rw e (digit_read 0 n s (ground (arith, e)) ∙ ap (λ m. radix_value 10 m s) start)
  | inr e ↦
      let value : (n / 10) * 10 + n % 10 ≡ n = omega arith in
      rw e (
        digits_onto-read f (n / 10) ((n % 10 + b'0') ∷ s) (ground (arith, h, e))
        ∙ digit_read (n / 10) (n % 10) s (omega arith)
        ∙ ap (λ m. radix_value 10 m s) value)
]

digit_lem : (d : ℕ) → d < 10 → is_digit (d + b'0') ≡ true
unfolding is_digit
digit_lem d h = ground arith

digits_onto-all :
    (f n : ℕ) (s : Str)
    → n < f
    → all is_digit s ≡ true
    → (all is_digit (digits_onto f n s) ≡ true) × (is_empty (digits_onto f n s) ≡ false)
unfolding digits_onto
digits_onto-all zero n s h k = absurd (omega arith)
digits_onto-all (suc f) n s h k = elim (Bool-cases (ltb n 10)) [
  | inl e ↦ rw e (rw (digit_lem n (ground (arith, e))) k, refl)
  | inr e ↦ rw e (
      digits_onto-all f (n / 10) ((n % 10 + b'0') ∷ s) (ground (arith, h, e))
        (rw (digit_lem (n % 10) (omega arith)) k))
]

dotless : (s : Str) → all is_digit s ≡ true → has_byte b'.' s ≡ false
unfolding has_byte is_digit
dotless [] h = refl
dotless (c ∷ s) h = ground (arith, h, dotless s)

unprefixed : (s : Str) → all is_digit s ≡ true → hex_prefix s ≡ none
unfolding hex_prefix strip_prefix str is_digit
unprefixed [] h = refl
unprefixed (c ∷ []) h = ground (arith, h)
unprefixed (c ∷ d ∷ s) h = ground (arith, h)

parse_digits :
    (s : Str)
    → all is_digit s ≡ true
    → is_empty s ≡ false
    → parse_alt_ipv4 s ≡ from_u32 (radix_value 10 0 s)
unfolding parse_alt_ipv4
parse_digits s h k = rw (parse_alt_ipv4, dotless s h, unprefixed s h, h, k) refl

small_value : (n : ℕ) → n < 0x100000000 → radix_value 10 n [] ≡ some n
unfolding radix_value
small_value n h = ground (arith, h)

number-octets : (ip : Ipv4) → IsAddress ip → from_u32 (some (number_of ip)) ≡ some ip
number-octets ip h =
    let n = number_of ip in
    let a : n / 0x1000000 ≡ ip.a = omega (arith, h.a_small, h.b_small, h.c_small, h.d_small) in
    let b : (n / 0x10000) % 256 ≡ ip.b =
      omega (arith, h.a_small, h.b_small, h.c_small, h.d_small) in
    let c : (n / 256) % 256 ≡ ip.c = omega (arith, h.a_small, h.b_small, h.c_small, h.d_small) in
    let d : n % 256 ≡ ip.d = omega (arith, h.a_small, h.b_small, h.c_small, h.d_small) in
    rw (a, b, c, d) refl

-- An IPv4 address that is written as one decimal number, its value as a `u32`, is read back as the
-- address.
pub parse_alt_ipv4-decimal :
    (ip : Ipv4) → IsAddress ip → parse_alt_ipv4 (decimal (number_of ip)) ≡ some ip
unfolding decimal
parse_alt_ipv4-decimal ip h =
    let n = number_of ip in
    let (digits, some_digit) = digits_onto-all (suc n) n [] (omega arith) refl in
    let small : n < 0x100000000 = omega (arith, h.a_small, h.b_small, h.c_small, h.d_small) in
    parse_digits (decimal n) digits some_digit
    ∙ ap from_u32 (digits_onto-read (suc n) n [] (omega arith) ∙ small_value n small)
    ∙ number-octets ip h
