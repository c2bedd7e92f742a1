-- ===== src/Prelude/Fallible.antt =====
-- Rust's `Result` and its `?`.
use fire_crow.Prelude.{
  ◌≡◌, refl, ◌⊎◌, inl, inr, Bool, true, false, Option, none, some, arith, if◌then◌else◌,
}

pub data Result {ℓ κ} (E : Type ℓ) (A : Type κ) : Type (ℓ ⊔ κ) where
  ok : A → Result E A
  err : E → Result E A

module _ {ℓ κ ι} {E : Type ℓ} {A : Type κ} {B : Type ι} where
  infixl 5 ◌>>=◌
  abbrev pub ◌>>=◌ : Result E A → (A → Result E B) → Result E B
  ok a >>= f = f a
  err e >>= f = err e

module _ {ℓ κ} {E : Type ℓ} {A : Type κ} where
  -- `o.ok_or(e)`
  abbrev pub ok_or : Option A → E → Result E A
  ok_or none e = err e
  ok_or (some a) e = ok a

  -- `r.map_err(|_| e)`
  abbrev pub or_err {ι} : {D : Type ι} → Result D A → E → Result E A
  or_err (ok a) e = ok a
  or_err (err d) e = err e

  pub result_cases : (r : Result E A) → ((a : A) × (r ≡ ok a)) ⊎ ((e : E) × (r ≡ err e))
  result_cases (ok a) = inl (a, refl)
  result_cases (err e) = inr (e, refl)

-- `()`
abbrev pub Done : Type 0
Done = Unit

-- `if b { return Err(e) }`
abbrev pub reject_if {ℓ} : {E : Type ℓ} → Bool → E → Result E Done
reject_if true e = err e
reject_if false e = ok tt

-- A chain that succeeded did so at every step.
pub bind-ok {ℓ κ ι} :
    {E : Type ℓ} {A : Type κ} {B : Type ι} (r : Result E A) (f : A → Result E B) (b : B)
    → (r >>= f) ≡ ok b
    → (a : A) × (r ≡ ok a) × (f a ≡ ok b)
bind-ok (ok a) f b h = (a, refl, h)
bind-ok (err e) f b h = absurd (ground (arith, h))

pub reject_if-ok {ℓ} : {E : Type ℓ} (b : Bool) (e : E) (u : Done) → reject_if b e ≡ ok u → b ≡ false
reject_if-ok true e u h = absurd (ground (arith, h))
reject_if-ok false e u h = refl

pub or_err-ok {ℓ κ ι} :
    {E : Type ℓ} {A : Type κ} {D : Type ι} (r : Result D A) (e : E) (a : A)
    → or_err r e ≡ ok a
    → r ≡ ok a
or_err-ok (ok b) e a h = cc h
or_err-ok (err d) e a h = absurd (ground (arith, h))

ok_or-ok {ℓ κ} :
    {E : Type ℓ} {A : Type κ} (o : Option A) (e : E) (a : A) → ok_or o e ≡ ok a → o ≡ some a
ok_or-ok none e a h = absurd (ground (arith, h))
ok_or-ok (some b) e a h = cc h

pub ok_injective {ℓ κ} :
    {E : Type ℓ} {A : Type κ} {a b : A} → Path (Result E A) (ok a) (ok b) → a ≡ b
ok_injective h = cc h

-- The two shapes of a test that may return an error.
pub choice-ok {ℓ κ} :
    {E : Type ℓ} {A : Type κ} (b : Bool) (a c : A) (e : E)
    → Path (Result E A) (if b then ok a else err e) (ok c)
    → (b ≡ true) × (a ≡ c)
choice-ok true a c e h = (refl, ok_injective h)
choice-ok false a c e h = absurd (ground (arith, h))

pub otherwise-ok {ℓ κ} :
    {E : Type ℓ} {A : Type κ} (b : Bool) (e : E) (r : Result E A) (a : A)
    → (if b then err e else r) ≡ ok a
    → (b ≡ false) × (r ≡ ok a)
otherwise-ok true e r a h = absurd (ground (arith, h))
otherwise-ok false e r a h = (refl, h)
