-- ===== src/Authz/Base64/RoundTrip.antt =====
-- `b64_decode` of docker-authz-plugin/src/lib.rs on the output of the reference encoder.
use Prim.Native.Nat.{bit_or}
use fire_crow.Prelude.{
  ℕ, ◌<◌, ◌≤◌, ◌≡◌, ◌≢◌, refl, ◌∙◌, [], ◌∷◌, arith, All, some, is_empty, true, false, Bool, length,
  ◌%◌, ◌/◌, ◌+◌, ◌*◌, inl, inr, ◌⊎◌, Option-cases,
}
use fire_crow.Text.{Str}
use fire_crow.Authz.Base64.{
  strip_whitespace, position, padding_ok, last_sextets, quantum, quanta, b64_decode, is_whitespace,
  starts_padded,
}
use fire_crow.Authz.Base64.Encode.{
  alphabet, encode, table-alphabet, alphabet-ne-pad, alphabet-visible, first_byte, second_byte,
  third_byte,
}

abbrev pub IsByte : ℕ → Type 0
IsByte x = x < 256

byte1 : (x y : ℕ) → x < 256 → y < 16 → bit_or (((x / 4) * 4) % 256) (((x % 4) * 16 + y) / 16) ≡ x
byte1 x y h k =
    let e : ((x % 4) * 16 + y) / 16 ≡ x % 4 = omega arith in
    rw e (first_byte (x / 4) (x % 4) (omega arith) (omega arith) ∙ omega arith)

byte2 :
    (x y z : ℕ)
    → y < 256
    → z < 4
    → bit_or (((x * 16 + y / 16) * 16) % 256) (((y % 16) * 4 + z) / 4) ≡ y
byte2 x y z h k =
    let e : ((x * 16 + y / 16) * 16) % 256 ≡ ((y / 16) * 16) % 256 = omega arith in
    let f : ((y % 16) * 4 + z) / 4 ≡ y % 16 = omega arith in
    rw (e, f) (second_byte (y / 16) (y % 16) (omega arith) (omega arith) ∙ omega arith)

byte3 : (y z : ℕ) → z < 256 → bit_or (((y * 4 + z / 64) * 64) % 256) (z % 64) ≡ z
byte3 y z h =
    let e : ((y * 4 + z / 64) * 64) % 256 ≡ ((z / 64) * 64) % 256 = omega arith in
    rw e (third_byte (z / 64) (z % 64) (omega arith) (omega arith) ∙ omega arith)

quantum_one : (x : ℕ) → x < 256 → quantum (x / 4) ((x % 4) * 16) (0, 0, 1) ≡ x ∷ []
unfolding quantum
quantum_one x h =
    let e : (x % 4) * 16 ≡ (x % 4) * 16 + 0 = omega arith in rw e (rw (byte1 x 0 h (omega arith)))

quantum_two :
    (x y : ℕ)
    → x < 256
    → y < 256
    → quantum (x / 4) ((x % 4) * 16 + y / 16) ((y % 16) * 4, 0, 2) ≡ x ∷ y ∷ []
unfolding quantum
quantum_two x y h k =
    let e : (y % 16) * 4 ≡ (y % 16) * 4 + 0 = omega arith in
    rw (byte1 x (y / 16) h (omega arith)) (rw e (rw (byte2 (x % 4) y 0 k (omega arith))))

quantum_three :
    (x y z : ℕ)
    → x < 256
    → y < 256
    → z < 256
    → quantum (x / 4) ((x % 4) * 16 + y / 16) ((y % 16) * 4 + z / 64, z % 64, 3) ≡ x ∷ y ∷ z ∷ []
unfolding quantum
quantum_three x y z h k l =
    rw (
      byte1 x (y / 16) h (omega arith),
      byte2 (x % 4) y (z / 64) k (omega arith),
      byte3 (y % 16) z l,
    )

sextets_three :
    (last : Bool) (c d : ℕ)
    → c < 64
    → d < 64
    → last_sextets last (alphabet c) (alphabet d) ≡ some (c, d, 3)
unfolding last_sextets
sextets_three last c d h k =
    ground (arith, alphabet-ne-pad c, alphabet-ne-pad d, table-alphabet c h, table-alphabet d k)

sextets_two : (c : ℕ) → c < 64 → last_sextets true (alphabet c) b'=' ≡ some (c, 0, 2)
unfolding last_sextets
sextets_two c h = ground (arith, alphabet-ne-pad c, table-alphabet c h)

quanta-encode : (s : Str) → All IsByte s → quanta (encode s) ≡ some s
unfolding quanta encode
quanta-encode [] h = refl
quanta-encode (x ∷ []) (p, _) =
    let a = table-alphabet (x / 4) (omega arith) in
    let b = table-alphabet ((x % 4) * 16) (omega arith) in
    let c : last_sextets true b'=' b'=' ≡ some (0, 0, 1) = unfold last_sextets in refl in
    rw (a, b, c, quantum_one x p)
quanta-encode (x ∷ y ∷ []) (p, (q, _)) =
    let a = table-alphabet (x / 4) (omega arith) in
    let b = table-alphabet ((x % 4) * 16 + y / 16) (omega arith) in
    let c = sextets_two ((y % 16) * 4) (omega arith) in rw (a, b, c, quantum_two x y p q)
quanta-encode (x ∷ y ∷ z ∷ s) (p, (q, (r, h))) =
    let a = table-alphabet (x / 4) (omega arith) in
    let b = table-alphabet ((x % 4) * 16 + y / 16) (omega arith) in
    let c =
      sextets_three (is_empty (encode s)) ((y % 16) * 4 + z / 64) (z % 64) (omega arith)
        (omega arith) in
    rw (a, b, c, quanta-encode s h, quantum_three x y z p q r)

visible :
    (x : ℕ) (s : Str) → is_whitespace x ≡ false → strip_whitespace (x ∷ s) ≡ x ∷ strip_whitespace s
unfolding strip_whitespace
visible x s h = rw h

pad_visible : is_whitespace b'=' ≡ false
unfolding is_whitespace
pad_visible = refl

strip-encode : (s : Str) → strip_whitespace (encode s) ≡ encode s
unfolding strip_whitespace encode
strip-encode [] = refl
strip-encode (x ∷ []) = simp (alphabet-visible, pad_visible)
strip-encode (x ∷ y ∷ []) = simp (alphabet-visible, pad_visible)
strip-encode (x ∷ y ∷ z ∷ s) = simp (alphabet-visible, strip-encode s)

length-encode : (s : Str) → length (encode s) % 4 ≡ 0
unfolding encode
length-encode [] = refl
length-encode (x ∷ []) = refl
length-encode (x ∷ y ∷ []) = refl
length-encode (x ∷ y ∷ z ∷ s) = omega (arith, length-encode s)

-- Four characters that are no padding may stand before a text that is empty or longer than the
-- padding.
padding_ok-cons :
    (a b c d : ℕ) (r : Str)
    → a ≢ b'='
    → b ≢ b'='
    → c ≢ b'='
    → d ≢ b'='
    → (r ≡ []) ⊎ (2 ≤ length r)
    → padding_ok r ≡ true
    → padding_ok (a ∷ b ∷ c ∷ d ∷ r) ≡ true
unfolding padding_ok position
padding_ok-cons a b c d r na nb nc nd long h = elim (Option-cases (position b'=' r)) [
  | inl e ↦ ground arith
  | inr (p, e) ↦ ground arith
]

length_of_encode : (s : Str) → (encode s ≡ []) ⊎ (2 ≤ length (encode s))
unfolding encode
length_of_encode [] = inl refl
length_of_encode (x ∷ []) = inr (omega arith)
length_of_encode (x ∷ y ∷ []) = inr (omega arith)
length_of_encode (x ∷ y ∷ z ∷ s) = inr (omega arith)

padding_ok-encode : (s : Str) → padding_ok (encode s) ≡ true
unfolding encode
padding_ok-encode [] = unfold padding_ok position in refl
padding_ok-encode (x ∷ []) =
    let a = alphabet-ne-pad (x / 4) in
    let b = alphabet-ne-pad ((x % 4) * 16) in unfold padding_ok position in ground arith
padding_ok-encode (x ∷ y ∷ []) =
    let a = alphabet-ne-pad (x / 4) in
    let b = alphabet-ne-pad ((x % 4) * 16 + y / 16) in
    let c = alphabet-ne-pad ((y % 16) * 4) in unfold padding_ok position in ground arith
padding_ok-encode (x ∷ y ∷ z ∷ s) =
    padding_ok-cons _ _ _ _ (encode s) (alphabet-ne-pad _) (alphabet-ne-pad _) (alphabet-ne-pad _)
      (alphabet-ne-pad _) (length_of_encode s) (padding_ok-encode s)

-- An encoded text that is not empty does not begin with padding.
begins : (s : Str) → s ≢ [] → (is_empty (encode s) ≡ false) × (starts_padded (encode s) ≡ false)
unfolding encode
begins [] n = absurd (n refl)
begins (x ∷ []) n = ground (arith, alphabet-ne-pad (x / 4), alphabet-ne-pad ((x % 4) * 16))
begins (x ∷ y ∷ []) n =
    ground (arith, alphabet-ne-pad (x / 4), alphabet-ne-pad ((x % 4) * 16 + y / 16))
begins (x ∷ y ∷ z ∷ s) n =
    ground (arith, alphabet-ne-pad (x / 4), alphabet-ne-pad ((x % 4) * 16 + y / 16))

-- Decoding the base64 of RFC 4648 of any bytes, one at least, gives them back.
pub b64_decode-encode : (s : Str) → All IsByte s → s ≢ [] → b64_decode (encode s) ≡ some s
unfolding b64_decode
b64_decode-encode s h n =
    let (full, open_start) = begins s n in
    rw (strip-encode s, full, length-encode s, open_start, padding_ok-encode s, quanta-encode s h)
