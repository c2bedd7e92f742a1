-- ===== src/Text/Split.antt =====
-- Laws of prefixes and of splitting.
use fire_crow.Prelude.{
  ℕ, ◌≡◌, ◌≢◌, refl, ap, ◌∙◌, inl, inr, true, false, Option, none, some, List, [], ◌∷◌, ◌++◌, arith,
  ◌==◌, All, Bool-cases, Option-cases,
}
use fire_crow.Text.{
  Str, strip_prefix, starts_with, has_byte, split_pieces, split, before, split_once, join,
}

pub eq_of_strip_prefix : (s p r : Str) → strip_prefix s p ≡ some r → s ≡ p ++ r
unfolding strip_prefix
eq_of_strip_prefix s [] r h = ground arith
eq_of_strip_prefix [] (y ∷ p) r h = ground arith
eq_of_strip_prefix (x ∷ s) (y ∷ p) r h = ground (arith, eq_of_strip_prefix s p r)

pub strip_prefix-append : (p r : Str) → strip_prefix (p ++ r) p ≡ some r
unfolding strip_prefix
strip_prefix-append [] r = refl
strip_prefix-append (y ∷ p) r = ground (arith, strip_prefix-append p r)

pub starts_with-append : (p r : Str) → starts_with (p ++ r) p ≡ true
unfolding starts_with
starts_with-append p r = rw strip_prefix-append

pub prefix_of_starts_with : (s p : Str) → starts_with s p ≡ true → (r : Str) × (s ≡ p ++ r)
unfolding starts_with
prefix_of_starts_with s p h = go (strip_prefix s p) refl h
  where
    go : (o : Option Str) → strip_prefix s p ≡ o → starts_with s p ≡ true → (r : Str) × (s ≡ p ++ r)
    go none e h = ground arith
    go (some r) e h = (r, eq_of_strip_prefix s p r e)

-- No byte of the string is `c`.
abbrev pub Without : ℕ → Str → Type 0
Without c = All (λ x. x ≢ c)

pub Without-of_has_byte : (c : ℕ) (s : Str) → has_byte c s ≡ false → Without c s
unfolding has_byte
Without-of_has_byte c [] h = tt
Without-of_has_byte c (x ∷ s) h = (ground arith, Without-of_has_byte c s (ground arith))

pub has_byte_of_Without : (c : ℕ) (s : Str) → Without c s → has_byte c s ≡ false
unfolding has_byte
has_byte_of_Without c [] h = refl
has_byte_of_Without c (x ∷ s) h = ground (arith, has_byte_of_Without c s h.1)

pub before-Without : (c : ℕ) (s : Str) → Without c (before c s)
unfolding before
before-Without c [] = tt
before-Without c (x ∷ s) = ground (arith, before-Without c s)

split_pieces-Without : (c : ℕ) (s : Str) → All (Without c) (split_pieces c s).1
unfolding before
split_pieces-Without c [] = tt
split_pieces-Without c (x ∷ s) = ground (arith, split_pieces-Without c s, before-Without c s)

-- No piece of a split holds the separator.
pub split-Without : (c : ℕ) (s : Str) → All (Without c) (split c s)
unfolding split before
split-Without c s = (before-Without c s, split_pieces-Without c s)

join-cons : (c x : ℕ) (p : Str) (ps : List Str) → join c ((x ∷ p) ∷ ps) ≡ x ∷ join c (p ∷ ps)
unfolding join
join-cons c x p [] = refl
join-cons c x p (q ∷ ps) = refl

-- Joining the pieces gives the string back.
join-split : (c : ℕ) (s : Str) → join c (split c s) ≡ s
unfolding split join
join-split c [] = refl
join-split c (x ∷ s) = elim (Bool-cases (x == c)) [
  | inl e ↦ rw e (ground (arith, join-split c s))
  | inr e ↦ rw e (join-cons c x _ _ ∙ ap (λ r. x ∷ r) (join-split c s))
]

pub eq_of_split_once :
    (c : ℕ) (s a b : Str) → split_once c s ≡ some (a, b) → (s ≡ a ++ c ∷ b) × Without c a
unfolding split_once
eq_of_split_once c [] a b h = ground arith
eq_of_split_once c (x ∷ s) a b h = elim (Option-cases (split_once c s)) [
  | inl e ↦ ground arith
  | inr ((a', b'), e) ↦ ground (arith, eq_of_split_once c s a' b')
]

pub split_once-append : (c : ℕ) (a b : Str) → Without c a → split_once c (a ++ c ∷ b) ≡ some (a, b)
unfolding split_once
split_once-append c [] b h = ground arith
split_once-append c (x ∷ a) b h = ground (arith, split_once-append c a b h.1)

pub Without-of_split_once : (c : ℕ) (s : Str) → split_once c s ≡ none → Without c s
unfolding split_once
Without-of_split_once c [] h = tt
Without-of_split_once c (x ∷ s) h = ground (arith, Without-of_split_once c s)

pub split_once_of_Without : (c : ℕ) (s : Str) → Without c s → split_once c s ≡ none
unfolding split_once
split_once_of_Without c [] h = refl
split_once_of_Without c (x ∷ s) h = ground (arith, split_once_of_Without c s h.1)

pub before_of_Without : (c : ℕ) (s : Str) → Without c s → before c s ≡ s
unfolding before
before_of_Without c [] h = refl
before_of_Without c (x ∷ s) h = ground (arith, before_of_Without c s h.1)
