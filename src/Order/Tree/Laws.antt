-- ===== src/Order/Tree/Laws.antt =====
-- Keys in ascending order, each once.
use mathlib.Core.Path.{subst}
use fire_crow.Prelude.{
  ◌≡◌, refl, sym, ap, ◌∙◌, ◌↔◌, true, false, List, [], ◌∷◌, Bool-cases, inl, inr, ◌⊎◌, All, map,
  arith,
}
use fire_crow.Text.{Str, str_eq}
use fire_crow.Text.Equality.{In, eq_of_str_eq, str_eq_refl}
use fire_crow.Order.{str_leb, str_leb_total, str_leb_trans, str_leb_antisym}
use fire_crow.Order.Sort.{insert_by, sort_by}
use fire_crow.Order.Tree.{set_insert, map_push}

-- `s < t`
abbrev pub Below : Str → Str → Type 0
Below s t = (str_leb s t ≡ true) × (str_eq s t ≡ false)

abbrev pub IsAscending : List Str → Type 0
IsAscending [] = Unit
IsAscending (s ∷ ss) = All (Below s) ss × IsAscending ss

pub str_eq_apart : (s t : Str) → str_eq s t ≡ false → str_eq t s ≡ false
str_eq_apart s t h = elim (Bool-cases (str_eq t s)) [
  | inl e ↦ absurd (ground (arith, h, str_eq_refl s, ap (λ u. str_eq s u) (eq_of_str_eq t s e)))
  | inr e ↦ e
]

Below-trans : (s t u : Str) → Below s t → Below t u → Below s u
Below-trans s t u (a, b) (c, d) = (
  str_leb_trans s t u a c,
  elim (Bool-cases (str_eq s u)) [
    | inl e ↦
        let back = subst (λ v. str_leb t v ≡ true) (sym (eq_of_str_eq s u e)) c in
        let same = str_leb_antisym s t a back in
        absurd (ground (arith, b, str_eq_refl s, ap (λ v. str_eq s v) same))
    | inr e ↦ e
  ],
)

Below-irrefl : (s t : Str) → s ≡ t → Below s t → ⊥
Below-irrefl s t e (a, b) = ground (arith, b, str_eq_refl s, ap (λ v. str_eq s v) e)

pub Below-asym : (s t : Str) → Below s t → Below t s → ⊥
Below-asym s t h k = Below-irrefl s t (str_leb_antisym s t h.0 k.0) h

Below-all : (s t : Str) (us : List Str) → Below s t → All (Below t) us → All (Below s) us
Below-all s t [] h k = tt
Below-all s t (u ∷ us) h (k, ks) = (Below-trans s t u h k, Below-all s t us h ks)

set_insert-Below :
    (r s : Str) (ts : List Str) → Below r s → All (Below r) ts → All (Below r) (set_insert s ts)
unfolding set_insert
set_insert-Below r s [] h k = (h, tt)
set_insert-Below r s (t ∷ ts) h (k, ks) = elim (Bool-cases (str_eq s t)) [
  | inl e ↦ rw e (k, ks)
  | inr e ↦ elim (Bool-cases (str_leb s t)) [
    | inl f ↦ rw (e, f) (h, (k, ks))
    | inr f ↦ rw (e, f) (k, set_insert-Below r s ts h ks)
  ]
]

pub set_insert-IsAscending :
    (s : Str) (ts : List Str) → IsAscending ts → IsAscending (set_insert s ts)
unfolding set_insert
set_insert-IsAscending s [] h = (tt, tt)
set_insert-IsAscending s (t ∷ ts) (k, h) = elim (Bool-cases (str_eq s t)) [
  | inl e ↦ rw e (k, h)
  | inr e ↦ elim (Bool-cases (str_leb s t)) [
    | inl f ↦ rw (e, f) (((f, e), Below-all s t ts (f, e) k), (k, h))
    | inr f ↦
        rw (e, f)
          (
            set_insert-Below t s ts (str_leb_total s t f, str_eq_apart s t e) k,
            set_insert-IsAscending s ts h,
          )
  ]
]

module _ {A B C D : Type 0} (h : A ↔ (B ⊎ C)) where
  inner_of : D ⊎ A → B ⊎ D ⊎ C
  inner_of (inl d) = inr (inl d)
  inner_of (inr a) = elim (h.0 a) [ inl b ↦ inl b | inr c ↦ inr (inr c) ]

  inner_to : B ⊎ D ⊎ C → D ⊎ A
  inner_to (inl b) = inr (h.1 (inl b))
  inner_to (inr (inl d)) = inl d
  inner_to (inr (inr c)) = inr (h.1 (inr c))

-- A set has what was put into it, and what it had.
pub In-set_insert : (u s : Str) (ts : List Str) → In u (set_insert s ts) ↔ ((u ≡ s) ⊎ In u ts)
unfolding set_insert
In-set_insert u s [] = (
  λ h. elim h [ inl e ↦ inl (sym e) | inr e ↦ inr e ],
  λ h. elim h [ inl e ↦ inl (sym e) | inr e ↦ inr e ],
)
In-set_insert u s (t ∷ ts) = elim (Bool-cases (str_eq s t)) [
  | inl e ↦
      rw e (λ h. inr h, λ h. elim h [ inl k ↦ inl (sym (eq_of_str_eq s t e) ∙ sym k) | inr k ↦ k ])
  | inr e ↦ elim (Bool-cases (str_leb s t)) [
    | inl f ↦
        rw (e, f)
          (
            λ h. elim h [ inl k ↦ inl (sym k) | inr k ↦ inr k ],
            λ h. elim h [ inl k ↦ inl (sym k) | inr k ↦ inr k ],
          )
    | inr f ↦ let rest = In-set_insert u s ts in rw (e, f) (inner_of rest, inner_to rest)
  ]
]

-- The keys of a map are a set.
pub map_push-keys {ℓ} :
    {V : Type ℓ} (key : Str) (v : V) (m : List (Str × List V))
    → map (λ e. e.0) (map_push key v m) ≡ set_insert key (map (λ e. e.0) m)
unfolding map_push set_insert
map_push-keys key v [] = refl
map_push-keys key v ((k, vs) ∷ m) = elim (Bool-cases (str_eq key k)) [
  | inl e ↦ rw e refl
  | inr e ↦ elim (Bool-cases (str_leb key k)) [
    | inl f ↦ rw (e, f) refl
    | inr f ↦ rw (e, f) (ap (λ l. k ∷ l) (map_push-keys key v m))
  ]
]

All-In : (P : Str → Type 0) (u : Str) (ts : List Str) → All P ts → In u ts → P u
All-In P u [] h e = elim e [ ]
All-In P u (t ∷ ts) (h, hs) (inl e) = subst P e h
All-In P u (t ∷ ts) (h, hs) (inr e) = All-In P u ts hs e

module _ (s t : Str) (ss ts : List Str) where
  same_head : All (Below s) ss → All (Below t) ts → In s (t ∷ ts) → In t (s ∷ ss) → s ≡ t
  same_head h k (inl e) i = sym e
  same_head h k (inr e) (inl i) = i
  same_head h k (inr e) (inr i) =
      absurd (Below-asym s t (All-In (Below s) t ss h i) (All-In (Below t) s ts k e))

  same_tail :
      s ≡ t → All (Below s) ss → (u : Str) → (In u (s ∷ ss) → In u (t ∷ ts)) → In u ss → In u ts
  same_tail e h u f i = elim (f (inr i)) [
    | inl k ↦ absurd (Below-irrefl s u (e ∙ k) (All-In (Below s) u ss h i))
    | inr k ↦ k
  ]

-- Ascending texts with the same members are the same.
pub ascending_unique :
    (ss ts : List Str) → IsAscending ss → IsAscending ts → ((u : Str) → In u ss ↔ In u ts) → ss ≡ ts
ascending_unique [] [] h k f = refl
ascending_unique [] (t ∷ ts) h k f = elim ((f t).1 (inl refl)) [ ]
ascending_unique (s ∷ ss) [] h k f = elim ((f s).0 (inl refl)) [ ]
ascending_unique (s ∷ ss) (t ∷ ts) (a, h) (b, k) f =
    let e = same_head s t ss ts a b ((f s).0 (inl refl)) ((f t).1 (inl refl)) in
    let rest =
      ascending_unique ss ts h k
        (λ u. (same_tail s t ss ts e a u (f u).0, same_tail t s ts ss (sym e) b u (f u).1)) in
    rw (e, rest) refl

-- Ascending texts stay where they are when they are sorted.
pub sort_by-ascending {ℓ} :
    {A : Type ℓ} (key : A → Str) (xs : List A)
    → IsAscending (map key xs)
    → sort_by (λ x y. str_leb (key x) (key y)) xs ≡ xs
unfolding sort_by insert_by
sort_by-ascending key [] h = refl
sort_by-ascending key (x ∷ []) h = refl
sort_by-ascending key (x ∷ y ∷ ys) (((k, e), ks), h) = rw (sort_by-ascending key (y ∷ ys) h, k) refl
