-- ===== src/Text/Rsplit.antt =====
-- Laws of splitting at the last separator.
use mathlib.Core.List.{reverse-append, reverse-cons, reverse-reverse, append_assoc}
use mathlib.Core.Path.{ap₂}
use fire_crow.Prelude.{
  ℕ, ◌≡◌, sym, ap, ◌∙◌, inl, inr, none, some, [], ◌∷◌, ◌++◌, reverse, arith, All, Option-cases,
}
use fire_crow.Text.{Str, split_once, rsplit_once}
use fire_crow.Text.Split.{
  Without, eq_of_split_once, Without-of_split_once, split_once-append, split_once_of_Without,
}

module _ (P : ℕ → Type 0) where
  All-snoc : (s : Str) (x : ℕ) → All P s → P x → All P (s ++ x ∷ [])
  All-snoc [] x h p = (p, tt)
  All-snoc (y ∷ s) x (q, h) p = (q, All-snoc s x h p)

  -- What holds of every byte holds of every byte of the reversed string.
  pub All-reverse : (s : Str) → All P s → All P (reverse s)
  All-reverse [] h = tt
  All-reverse (x ∷ s) (p, h) = rw reverse-cons (All-snoc (reverse s) x (All-reverse s h) p)

pub eq_of_rsplit_once :
    (c : ℕ) (s a b : Str) → rsplit_once c s ≡ some (a, b) → (s ≡ a ++ c ∷ b) × Without c b
unfolding rsplit_once
eq_of_rsplit_once c s a b h = elim (Option-cases (split_once c (reverse s))) [
  | inl e ↦ absurd (ground arith)
  | inr ((x, y), e) ↦
      let (same, clean) = eq_of_split_once c (reverse s) x y e in
      let first : reverse y ≡ a = ground arith in
      let last : reverse x ≡ b = ground arith in
      let back : reverse (x ++ c ∷ y) ≡ reverse y ++ c ∷ reverse x =
        simp (reverse-append, reverse-cons, append_assoc) in
      (
        sym (reverse-reverse s) ∙ ap reverse same ∙ back ∙ ap₂ (λ u v. u ++ c ∷ v) first last,
        rw last at (All-reverse _ x clean),
      )
]

pub Without-of_rsplit_once : (c : ℕ) (s : Str) → rsplit_once c s ≡ none → Without c s
unfolding rsplit_once
Without-of_rsplit_once c s h =
    let none_there : split_once c (reverse s) ≡ none =
      elim (Option-cases (split_once c (reverse s))) [
        | inl e ↦ e
        | inr ((x, y), e) ↦ absurd (ground arith)
      ] in
    rw reverse-reverse at
      (All-reverse _ (reverse s) (Without-of_split_once c (reverse s) none_there))

pub rsplit_once-append :
    (c : ℕ) (a b : Str) → Without c b → rsplit_once c (a ++ c ∷ b) ≡ some (a, b)
unfolding rsplit_once
rsplit_once-append c a b h =
    let turned : reverse (a ++ c ∷ b) ≡ reverse b ++ c ∷ reverse a =
      simp (reverse-append, reverse-cons, append_assoc) in
    let found : split_once c (reverse (a ++ c ∷ b)) ≡ some (reverse b, reverse a) =
      rw turned (split_once-append c (reverse b) (reverse a) (All-reverse _ b h)) in
    rw (found, rsplit_once) (simp reverse-reverse)

pub rsplit_once_of_Without : (c : ℕ) (s : Str) → Without c s → rsplit_once c s ≡ none
unfolding rsplit_once
rsplit_once_of_Without c s h =
    rw (split_once_of_Without c (reverse s) (All-reverse _ s h), rsplit_once)
