-- ===== src/Order/Tree.antt =====
-- `BTreeMap` and `BTreeSet` with texts as keys: the list of the entries by ascending key.
pub mod Laws
use mathlib.Core.Path.{subst}
use fire_crow.Prelude.{
  ℕ, ◌+◌, ◌≡◌, refl, sym, ap, ◌∙◌, Bool, true, false, List, [], ◌∷◌, ◌++◌, if◌then◌else◌,
  Bool-cases, inl, inr, ◌⊎◌, All, Option, none, some, arith,
}
use fire_crow.Text.{Str, str_eq}
use fire_crow.Order.{str_leb, str_leb_total, str_leb_trans}

-- `set.insert(s)`
unfoldable pub set_insert : Str → List Str → List Str
set_insert s [] = s ∷ []
set_insert s (t ∷ ts) =
    let rest = set_insert s ts in
    if str_eq s t then t ∷ ts else if str_leb s t then s ∷ t ∷ ts else t ∷ rest

-- A set from the items of an iterator.
unfoldable pub set_of : List Str → List Str
set_of [] = []
set_of (s ∷ ss) = set_insert s (set_of ss)

module _ {ℓ} {V : Type ℓ} where
  -- `map.insert(key, value)`
  unfoldable pub map_insert : Str → V → List (Str × V) → List (Str × V)
  map_insert key v [] = (key, v) ∷ []
  map_insert key v ((k, w) ∷ m) =
      let rest = map_insert key v m in
      if str_eq key k
      then (key, v) ∷ m
      else if str_leb key k
      then (key, v) ∷ (k, w) ∷ m
      else (k, w) ∷ rest

  -- A map from the entries of an iterator, the last one of a key winning.
  unfoldable pub map_of_onto : List (Str × V) → List (Str × V) → List (Str × V)
  map_of_onto m [] = m
  map_of_onto m ((k, v) ∷ es) = map_of_onto (map_insert k v m) es

  -- `map.entry(key).or_default().push(value)`
  unfoldable pub map_push : Str → V → List (Str × List V) → List (Str × List V)
  map_push key v [] = (key, v ∷ []) ∷ []
  map_push key v ((k, vs) ∷ m) =
      let rest = map_push key v m in
      if str_eq key k
      then (k, vs ++ v ∷ []) ∷ m
      else if str_leb key k
      then (key, v ∷ []) ∷ (k, vs) ∷ m
      else (k, vs) ∷ rest

-- `*map.entry(key).or_insert(0) += 1`
unfoldable pub map_count : Str → List (Str × ℕ) → List (Str × ℕ)
map_count key [] = (key, 1) ∷ []
map_count key ((k, n) ∷ m) =
    let rest = map_count key m in
    if str_eq key k
    then (k, n + 1) ∷ m
    else if str_leb key k
    then (key, 1) ∷ (k, n) ∷ m
    else (k, n) ∷ rest

-- The sum of the counts of a map.
abbrev pub total_count : List (Str × ℕ) → ℕ
total_count [] = 0
total_count ((k, n) ∷ m) = n + total_count m

pub total_count-map_count :
    (key : Str) (m : List (Str × ℕ)) → total_count (map_count key m) ≡ total_count m + 1
unfolding map_count
total_count-map_count key [] = refl
total_count-map_count key ((k, n) ∷ m) = ground (arith, total_count-map_count key m)
