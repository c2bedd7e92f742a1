-- ===== src/Text/Equality.antt =====
-- Comparing strings, and membership in a list of strings.
use mathlib.Core.Bool.{false≢true}
use fire_crow.Prelude.{◌≡◌, refl, ◌↔◌, ◌⊎◌, inl, inr, true, List, [], ◌∷◌, arith, or-true}
use fire_crow.Text.{Str, str_eq, one_of}

pub str_eq_refl : (s : Str) → str_eq s s ≡ true
unfolding str_eq
str_eq_refl [] = refl
str_eq_refl (x ∷ s) = ground (arith, str_eq_refl s)

pub eq_of_str_eq : (s t : Str) → str_eq s t ≡ true → s ≡ t
unfolding str_eq
eq_of_str_eq [] [] h = refl
eq_of_str_eq (x ∷ s) (y ∷ t) h = ground (arith, eq_of_str_eq s t)
eq_of_str_eq _ _ h = absurd (false≢true h)

pub str_eq_iff : (s t : Str) → (str_eq s t ≡ true) ↔ (s ≡ t)
str_eq_iff s t = (eq_of_str_eq s t, λ e. rw e (str_eq_refl t))

-- Membership by position, with the position kept.
abbrev pub In : Str → List Str → Type 0
In s [] = ⊥
In s (t ∷ ts) = (t ≡ s) ⊎ In s ts

pub In-of_one_of : (ts : List Str) (s : Str) → one_of ts s ≡ true → In s ts
unfolding one_of
In-of_one_of [] s h = false≢true h
In-of_one_of (t ∷ ts) s h = elim (or-true _ _ h) [
  | inl e ↦ inl (eq_of_str_eq t s e)
  | inr e ↦ inr (In-of_one_of ts s e)
]

pub one_of-In : (ts : List Str) (s : Str) → In s ts → one_of ts s ≡ true
unfolding one_of
one_of-In [] s e = elim e [ ]
one_of-In (t ∷ ts) s (inl e) = ground (arith, str_eq_iff t s)
one_of-In (t ∷ ts) s (inr e) = ground (arith, one_of-In ts s e)

pub one_of_iff : (ts : List Str) (s : Str) → (one_of ts s ≡ true) ↔ In s ts
one_of_iff ts s = (In-of_one_of ts s, one_of-In ts s)
