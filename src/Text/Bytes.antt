-- ===== src/Text/Bytes.antt =====
-- What holds of every byte of a string holds of every byte of its pieces.
use fire_crow.Prelude.{ℕ, [], ◌∷◌, All, ◌==◌, Bool-cases, inl, inr}
use fire_crow.Text.{Str, split_pieces, split}

module _ (P : ℕ → Type 0) where
  split_pieces-All :
      (c : ℕ) (s : Str) → All P s → All P (split_pieces c s).0 × All (All P) (split_pieces c s).1
  unfolding split_pieces
  split_pieces-All c [] h = (tt, tt)
  split_pieces-All c (x ∷ s) (p, h) =
      let (a, b) = split_pieces-All c s h in
      elim (Bool-cases (x == c)) [ inl e ↦ rw e (tt, (a, b)) | inr e ↦ rw e ((p, a), b) ]

  pub split-All : (c : ℕ) (s : Str) → All P s → All (All P) (split c s)
  unfolding split
  split-All c s h = split_pieces-All c s h
