-- ===== src/Audit/Canonical/Counts.antt =====
-- The maps of counts in the summary of a canonical audit,
-- backend/src/orchestrator/canonical_audit.rs.
use mathlib.Core.Path.{subst}
use mathlib.Core.List.{append_assoc, append-nil}
use fire_crow.Prelude.{
  ℕ, ◌+◌, ◌≡◌, refl, sym, ap, ◌∙◌, inl, inr, List, [], ◌∷◌, ◌++◌, if◌then◌else◌, map, All,
  Bool-cases, arith,
}
use fire_crow.Text.{Str, str_eq}
use fire_crow.Text.Equality.{eq_of_str_eq}
use fire_crow.Order.{str_leb}
use fire_crow.Order.Tree.{map_count, map_insert, map_of_onto, set_insert}
use fire_crow.Order.Tree.Laws.{Below, IsAscending, Below-asym, str_eq_apart, set_insert-IsAscending}
use fire_crow.Audit.Normalize.{count_onto}

-- The count that a map has of a key, 0 if it has none.
abbrev pub count_in : Str → List (Str × ℕ) → ℕ
count_in key [] = 0
count_in key ((k, n) ∷ m) = if str_eq key k then n + count_in key m else count_in key m

-- The number of the elements that have the key.
abbrev pub tally {ℓ} : {A : Type ℓ} → (A → Str) → Str → List A → ℕ
tally f key [] = 0
tally f key (x ∷ xs) = if str_eq key (f x) then 1 + tally f key xs else tally f key xs

count_in-map_count :
    (key k : Str) (m : List (Str × ℕ))
    → count_in key (map_count k m) ≡ (if str_eq key k then 1 else 0) + count_in key m
unfolding map_count
count_in-map_count key k [] = elim (Bool-cases (str_eq key k)) [
  | inl e ↦ rw e refl
  | inr e ↦ rw e refl
]
count_in-map_count key k ((l, n) ∷ m) = elim (Bool-cases (str_eq k l)) [
  | inl e ↦
      let same : str_eq key l ≡ str_eq key k = ap (str_eq key) (sym (eq_of_str_eq k l e)) in
      ground (arith, e, same)
  | inr e ↦ ground (arith, e, count_in-map_count key k m)
]

module _ {ℓ} {A : Type ℓ} (f : A → Str) where
  count_in-count_onto :
      (key : Str) (counts : List (Str × ℕ)) (xs : List A)
      → count_in key (count_onto f counts xs) ≡ count_in key counts + tally f key xs
  unfolding count_onto
  count_in-count_onto key counts [] = omega arith
  count_in-count_onto key counts (x ∷ xs) = ground (
    arith,
    count_in-count_onto key (map_count (f x) counts) xs,
    count_in-map_count key (f x) counts,
  )

abbrev keys : List (Str × ℕ) → List Str
keys m = map (λ e. e.0) m

map_count-keys : (key : Str) (m : List (Str × ℕ)) → keys (map_count key m) ≡ set_insert key (keys m)
unfolding map_count set_insert
map_count-keys key [] = refl
map_count-keys key ((k, n) ∷ m) = elim (Bool-cases (str_eq key k)) [
  | inl e ↦ rw e refl
  | inr e ↦ elim (Bool-cases (str_leb key k)) [
    | inl g ↦ rw (e, g) refl
    | inr g ↦ rw (e, g) (ap (λ l. k ∷ l) (map_count-keys key m))
  ]
]

count_onto-IsAscending {ℓ} :
    {A : Type ℓ} (f : A → Str) (counts : List (Str × ℕ)) (xs : List A)
    → IsAscending (keys counts)
    → IsAscending (keys (count_onto f counts xs))
unfolding count_onto
count_onto-IsAscending f counts [] h = h
count_onto-IsAscending f counts (x ∷ xs) h = count_onto-IsAscending f (map_count (f x) counts) xs (
    subst IsAscending (sym (map_count-keys (f x) counts))
      (set_insert-IsAscending (f x) (keys counts) h))

-- A key above all others goes to the end.
map_insert-last :
    (key : Str) (n : ℕ) (m : List (Str × ℕ))
    → All (λ k. Below k key) (keys m)
    → map_insert key n m ≡ m ++ (key, n) ∷ []
unfolding map_insert
map_insert-last key n [] h = refl
map_insert-last key n ((k, v) ∷ m) (b, h) = elim (Bool-cases (str_leb key k)) [
  | inl e ↦ absurd (Below-asym k key b (e, str_eq_apart k key b.1))
  | inr e ↦ rw (str_eq_apart k key b.1, e) (ap (λ l. (k, v) ∷ l) (map_insert-last key n m h))
]

all-Below :
    (m : List (Str × ℕ)) (key : Str) (n : ℕ) (es : List (Str × ℕ))
    → IsAscending (keys (m ++ (key, n) ∷ es))
    → All (λ k. Below k key) (keys m)
all-Below [] key n es h = tt
all-Below ((k, v) ∷ m) key n es (b, h) = (middle m b, all-Below m key n es h)
  where
    middle : (l : List (Str × ℕ)) → All (Below k) (keys (l ++ (key, n) ∷ es)) → Below k key
    middle [] (a, b) = a
    middle (e ∷ l) (a, b) = middle l b

-- A map that is read into a map again is the same map.
map_of_onto-append :
    (m es : List (Str × ℕ)) → IsAscending (keys (m ++ es)) → map_of_onto m es ≡ m ++ es
unfolding map_of_onto
map_of_onto-append m [] h = sym (append-nil m)
map_of_onto-append m ((key, n) ∷ es) h =
    let e = map_insert-last key n m (all-Below m key n es h) in
    let shape = append_assoc m ((key, n) ∷ []) es in
    ap (λ l. map_of_onto l es) e
    ∙ map_of_onto-append (m ++ (key, n) ∷ []) es (subst (λ l. IsAscending (keys l)) (sym shape) h)
    ∙ shape

pub count_onto-same {ℓ} :
    {A : Type ℓ} (f : A → Str) (xs : List A)
    → map_of_onto [] (count_onto f [] xs) ≡ count_onto f [] xs
count_onto-same f xs =
    map_of_onto-append [] (count_onto f [] xs) (count_onto-IsAscending f [] xs tt)

pub count_onto-tally {ℓ} :
    {A : Type ℓ} (f : A → Str) (xs : List A) (key : Str)
    → count_in key (count_onto f [] xs) ≡ tally f key xs
count_onto-tally f xs key = omega (arith, count_in-count_onto f key [] xs)

pub tally-map {ℓ κ} :
    {A : Type ℓ} {B : Type κ} (f : B → Str) (g : A → B) (key : Str) (xs : List A)
    → tally f key (map g xs) ≡ tally (λ x. f (g x)) key xs
tally-map f g key [] = refl
tally-map f g key (x ∷ xs) = rw (tally-map f g key xs) refl
