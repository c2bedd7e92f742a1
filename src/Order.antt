-- ===== src/Order.antt =====
-- The order of texts, `sort_by` of Rust's slices, and its `BTreeMap` and `BTreeSet` by text: what
-- the code uses of Rust's standard library.
pub mod Sort
pub mod Tree
use fire_crow.Prelude.{
  ℕ, ◌≡◌, refl, ◌⊎◌, inl, inr, Bool, true, false, List, [], ◌∷◌, ltb, ◌==◌, if◌then◌else◌, arith,
  ==_iff, Bool-cases, ap, ◌∙◌, sym,
}
use fire_crow.Text.{Str}

-- `a <= b` on texts: by the first byte that differs, a beginning before what it begins.
unfoldable pub str_leb : Str → Str → Bool
str_leb [] t = true
str_leb (x ∷ s) [] = false
str_leb (x ∷ s) (y ∷ t) =
    let rest = str_leb s t in if ltb x y then true else if x == y then rest else false

str_leb_refl : (s : Str) → str_leb s s ≡ true
unfolding str_leb
str_leb_refl [] = refl
str_leb_refl (x ∷ s) = ground (arith, str_leb_refl s)

pub str_leb_total : (s t : Str) → str_leb s t ≡ false → str_leb t s ≡ true
unfolding str_leb
str_leb_total [] t h = ground arith
str_leb_total (x ∷ s) [] h = refl
str_leb_total (x ∷ s) (y ∷ t) h = ground (arith, str_leb_total s t)

pub str_leb_trans : (s t u : Str) → str_leb s t ≡ true → str_leb t u ≡ true → str_leb s u ≡ true
unfolding str_leb
str_leb_trans [] t u h k = refl
str_leb_trans (x ∷ s) [] u h k = absurd (ground arith)
str_leb_trans (x ∷ s) (y ∷ t) [] h k = absurd (ground arith)
str_leb_trans (x ∷ s) (y ∷ t) (z ∷ u) h k = ground (arith, str_leb_trans s t u)

pub str_leb_antisym : (s t : Str) → str_leb s t ≡ true → str_leb t s ≡ true → s ≡ t
unfolding str_leb
str_leb_antisym [] [] h k = refl
str_leb_antisym [] (y ∷ t) h k = absurd (ground arith)
str_leb_antisym (x ∷ s) [] h k = absurd (ground arith)
str_leb_antisym (x ∷ s) (y ∷ t) h k = ground (arith, str_leb_antisym s t)
