-- ===== src/Text/Decimal.antt =====
-- Numbers as Rust's `{}` prints them.
use fire_crow.Prelude.{
  ◌≡◌, refl, ◌<◌, arith, Bool-cases, inl, inr, ℕ, zero, suc, ◌+◌, ◌/◌, ◌%◌, ltb, [], ◌∷◌,
  if◌then◌else◌,
}
use fire_crow.Text.{Str}

-- An `i64`: n, or -(n + 1).
pub data ℤ : Type 0 where
  pos negsuc : ℕ → ℤ

unfoldable pub digits_onto : ℕ → ℕ → Str → Str
digits_onto zero n s = s
digits_onto (suc fuel) n s =
    let rest = digits_onto fuel (n / 10) ((n % 10 + b'0') ∷ s) in
    if ltb n 10 then (n + b'0') ∷ s else rest

-- Each round takes a digit off, so that `n` rounds and one are enough.
unfoldable pub decimal : ℕ → Str
unfolding digits_onto
decimal n = digits_onto (suc n) n []

unfoldable pub show_int : ℤ → Str
show_int (pos n) = decimal n
show_int (negsuc n) = b'-' ∷ decimal (suc n)

-- More fuel than the number gives one text, whatever the fuel.
digits_onto-fuel : (f g n : ℕ) (s : Str) → n < f → n < g → digits_onto f n s ≡ digits_onto g n s
unfolding digits_onto
digits_onto-fuel zero g n s h k = absurd (omega arith)
digits_onto-fuel (suc f) zero n s h k = absurd (omega arith)
digits_onto-fuel (suc f) (suc g) n s h k = elim (Bool-cases (ltb n 10)) [
  | inl e ↦ rw e refl
  | inr e ↦ rw e (digits_onto-fuel f g (n / 10) ((n % 10 + b'0') ∷ s) (ground arith) (ground arith))
]
