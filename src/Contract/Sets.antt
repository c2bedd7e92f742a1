-- ===== src/Contract/Sets.antt =====
-- Lists of texts as sets.
use mathlib.Core.Bool.{true≢false}
use mathlib.Core.Path.{subst}
use fire_crow.Prelude.{
  suc, ◌≤◌, ◌≡◌, ◌≢◌, refl, sym, ap, ◌∙◌, inl, inr, false, List, [], ◌∷◌, length, arith, All,
  Bool-cases, if◌then◌else◌,
}
use fire_crow.Text.{Str, str_eq, one_of}
use fire_crow.Text.Equality.{In, one_of-In, str_eq_iff, eq_of_str_eq}

-- No text stands twice.
abbrev pub AreDifferent : List Str → Type 0
AreDifferent [] = Unit
AreDifferent (k ∷ ks) = (¬ In k ks) × AreDifferent ks

-- The list without the first `x` in it.
remove : Str → List Str → List Str
remove x [] = []
remove x (y ∷ ys) = let rest = remove x ys in if str_eq y x then ys else y ∷ rest

length-remove : (x : Str) (ys : List Str) → In x ys → length ys ≡ suc (length (remove x ys))
unfolding remove
length-remove x [] i = elim i [ ]
length-remove x (y ∷ ys) i = elim (Bool-cases (str_eq y x)) [
  | inl e ↦ rw e refl
  | inr e ↦ elim i [
    | inl same ↦ absurd (ground (arith, str_eq_iff y x))
    | inr later ↦ rw e (ap suc (length-remove x ys later))
  ]
]

In-remove : (x z : Str) (ys : List Str) → In z ys → z ≢ x → In z (remove x ys)
unfolding remove
In-remove x z [] i n = i
In-remove x z (y ∷ ys) i n = elim (Bool-cases (str_eq y x)) [
  | inl e ↦ elim i [
    | inl same ↦ absurd (n (sym same ∙ eq_of_str_eq y x e))
    | inr later ↦ rw e later
  ]
  | inr e ↦ elim i [
    | inl same ↦ rw e (inl same)
    | inr later ↦ rw e (inr (In-remove x z ys later n))
  ]
]

All-remove :
    (x : Str) (xs ys : List Str)
    → ¬ In x xs
    → All (λ z. In z ys) xs
    → All (λ z. In z (remove x ys)) xs
All-remove x [] ys n h = h
All-remove x (z ∷ xs) ys n (i, h) =
    (In-remove x z ys i (λ e. n (inl e)), All-remove x xs ys (λ j. n (inr j)) h)

pub In-covered :
    (y : Str) (xs ys : List Str)
    → AreDifferent xs
    → All (λ x. In x ys) xs
    → length ys ≤ length xs
    → In y ys
    → In y xs
In-covered y [] [] d h n i = i
In-covered y [] (_ ∷ _) d h n i = absurd (omega arith)
In-covered y (x ∷ xs) ys (fresh, d) (j, h) n i = elim (Bool-cases (str_eq x y)) [
  | inl e ↦ inl (eq_of_str_eq x y e)
  | inr e ↦ inr (
      In-covered y xs (remove x ys) d (All-remove x xs ys fresh h)
        (omega (arith, length-remove x ys j)) (In-remove x y ys i (ground (arith, str_eq_iff x y))))
]

-- What is apart from a set and one text more is apart from both.
pub split_apart :
    (x : Str) (seen ks : List Str)
    → All (λ k. ¬ In k (x ∷ seen)) ks
    → (¬ In x ks) × All (λ k. ¬ In k seen) ks
split_apart x seen [] h = (λ i. elim i [ ], tt)
split_apart x seen (k ∷ ks) (n, h) =
    let (fresh, rest) = split_apart x seen ks h in
    (λ i. elim i [ inl e ↦ n (inl (sym e)) | inr j ↦ fresh j ], (λ i. n (inr i), rest))

pub not_In : (seen : List Str) (k : Str) → one_of seen k ≡ false → ¬ In k seen
not_In seen k h i = true≢false (sym (one_of-In seen k i) ∙ h)

pub In-All : (P : Str → Type 0) (k : Str) (ks : List Str) → All P ks → In k ks → P k
In-All P k [] h i = elim i [ ]
In-All P k (j ∷ ks) (p, h) (inl e) = subst P e p
In-All P k (j ∷ ks) (p, h) (inr i) = In-All P k ks h i

pub All-weaken :
    {P Q : Str → Type 0} (ks : List Str) → ((k : Str) → P k → Q k) → All P ks → All Q ks
All-weaken [] f h = tt
All-weaken (k ∷ ks) f (p, h) = (f k p, All-weaken ks f h)
