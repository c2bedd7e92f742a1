-- ===== src/Text/Join.antt =====
-- Joining, and splitting what was joined.
use mathlib.Core.List.{append_assoc}
use mathlib.Core.Path.{ap₂}
use fire_crow.Prelude.{
  ℕ, ◌≡◌, refl, sym, ap, ◌∙◌, inl, inr, List, [], ◌∷◌, ◌++◌, arith, ◌==◌, All, Bool-cases,
}
use fire_crow.Text.{Str, split_pieces, split, join}
use fire_crow.Text.Split.{Without}

-- The pieces of a text that has the separator in it.
split_pieces-append :
    (c : ℕ) (a b : Str)
    → ((split_pieces c (a ++ c ∷ b)).0 ≡ (split_pieces c a).0)
      × ((split_pieces c (a ++ c ∷ b)).1 ≡ (split_pieces c a).1 ++ split c b)
unfolding split_pieces split
split_pieces-append c [] b = ground arith
split_pieces-append c (x ∷ a) b =
    let (p, q) = split_pieces-append c a b in
    elim (Bool-cases (x == c)) [ inl e ↦ rw e (refl, rw (p, q)) | inr e ↦ rw e (rw p, q) ]

pub split-append : (c : ℕ) (a b : Str) → split c (a ++ c ∷ b) ≡ split c a ++ split c b
unfolding split
split-append c a b = let (p, q) = split_pieces-append c a b in rw (p, q)

pub split_of_Without : (c : ℕ) (s : Str) → Without c s → split c s ≡ s ∷ []
unfolding split
split_of_Without c [] h = refl
split_of_Without c (x ∷ s) h = let ih = split_of_Without c s h.1 in ground (arith, h.0)

join-cons : (c : ℕ) (p q : Str) (ps : List Str) → join c (p ∷ q ∷ ps) ≡ p ++ c ∷ join c (q ∷ ps)
unfolding join
join-cons c p q ps = refl

pub split-join :
    (c : ℕ) (p : Str) (ps : List Str)
    → All (Without c) (p ∷ ps)
    → split c (join c (p ∷ ps)) ≡ p ∷ ps
split-join c p [] h = unfold join in split_of_Without c p h.0
split-join c p (q ∷ ps) h =
    ap (split c) (join-cons c p q ps)
    ∙ split-append c p (join c (q ∷ ps))
    ∙ ap₂ (λ u v. u ++ v) (split_of_Without c p h.0) (split-join c q ps h.1)

pub join-append :
    (c : ℕ) (p : Str) (ps : List Str) (q : Str) (qs : List Str)
    → join c ((p ∷ ps) ++ q ∷ qs) ≡ join c (p ∷ ps) ++ c ∷ join c (q ∷ qs)
unfolding join
join-append c p [] q qs = join-cons c p q qs
join-append c p (r ∷ ps) q qs =
    join-cons c p r (ps ++ q ∷ qs)
    ∙ ap (λ x. p ++ c ∷ x) (join-append c r ps q qs)
    ∙ sym (append_assoc p (c ∷ join c (r ∷ ps)) (c ∷ join c (q ∷ qs)))
    ∙ ap (λ x. x ++ c ∷ join c (q ∷ qs)) (sym (join-cons c p r ps))
