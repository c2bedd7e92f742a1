-- ===== src/Audit/Normalize/Groups.antt =====
-- Groups of elements by a key.
use mathlib.Core.Path.{subst}
use mathlib.Core.List.{Permᴰ}
use fire_crow.Prelude.{
  ℕ, ◌+◌, ◌≡◌, refl, sym, ap, ◌∙◌, ◌↔◌, ◌⊎◌, inl, inr, false, List, [], ◌∷◌, ◌++◌, is_empty, length,
  map, All, All-append, Bool-cases, arith,
}
use fire_crow.Text.{Str, str_eq}
use fire_crow.Text.Equality.{In, eq_of_str_eq}
use fire_crow.Order.{str_leb}
use fire_crow.Order.Tree.{map_push, map_count, total_count, total_count-map_count}
use fire_crow.Order.Tree.Laws.{IsAscending, set_insert-IsAscending, In-set_insert, map_push-keys}
use fire_crow.Audit.Normalize.{group_onto, count_onto}

module _ {ℓ} {A : Type ℓ} (key : A → Str) where
  -- A group has elements, and all of them have its key.
  abbrev pub IsGroup : Str × List A → Type 0
  IsGroup (k, xs) = (is_empty xs ≡ false) × All (λ x. key x ≡ k) xs

  abbrev pub keys : List (Str × List A) → List Str
  keys groups = map (λ g. g.0) groups

  is_empty-snoc : (xs : List A) (x : A) → is_empty (xs ++ x ∷ []) ≡ false
  is_empty-snoc [] x = refl
  is_empty-snoc (y ∷ xs) x = refl

  map_push-IsGroup :
      (x : A) (groups : List (Str × List A))
      → All IsGroup groups
      → All IsGroup (map_push (key x) x groups)
  unfolding map_push
  map_push-IsGroup x [] h = ((refl, (refl, tt)), tt)
  map_push-IsGroup x ((k, xs) ∷ groups) ((f, g), h) = elim (Bool-cases (str_eq (key x) k)) [
    | inl e ↦ rw e (
      (
        is_empty-snoc xs x,
        All-append (λ y. key y ≡ k) xs (x ∷ []) g (eq_of_str_eq (key x) k e, tt),
      ),
      h,
    )
    | inr e ↦ elim (Bool-cases (str_leb (key x) k)) [
      | inl l ↦ rw (e, l) ((refl, (refl, tt)), ((f, g), h))
      | inr l ↦ rw (e, l) ((f, g), map_push-IsGroup x groups h)
    ]
  ]

  pub group_onto-IsGroup :
      (groups : List (Str × List A)) (xs : List A)
      → All IsGroup groups
      → All IsGroup (group_onto key groups xs)
  unfolding group_onto
  group_onto-IsGroup groups [] h = h
  group_onto-IsGroup groups (x ∷ xs) h =
      group_onto-IsGroup (map_push (key x) x groups) xs (map_push-IsGroup x groups h)

  pub group_onto-IsAscending :
      (groups : List (Str × List A)) (xs : List A)
      → IsAscending (keys groups)
      → IsAscending (keys (group_onto key groups xs))
  unfolding group_onto
  group_onto-IsAscending groups [] h = h
  group_onto-IsAscending groups (x ∷ xs) h =
      group_onto-IsAscending (map_push (key x) x groups) xs
        (rw (map_push-keys (key x) x groups) (set_insert-IsAscending (key x) (keys groups) h))

  -- The keys of the groups are those of the elements.
  pub group_onto-keys :
      (u : Str) (groups : List (Str × List A)) (xs : List A)
      → In u (keys (group_onto key groups xs)) ↔ (In u (map key xs) ⊎ In u (keys groups))
  unfolding group_onto
  group_onto-keys u groups [] = (λ h. inr h, λ h. elim h [ inl e ↦ elim e [ ] | inr e ↦ e ])
  group_onto-keys u groups (x ∷ xs) =
      let rest = group_onto-keys u (map_push (key x) x groups) xs in
      let step = In-set_insert u (key x) (keys groups) in
      let e = map_push-keys (key x) x groups in
      (
        λ h. elim (rest.0 h) [
          | inl i ↦ inl (inr i)
          | inr i ↦ elim (step.0 (subst (In u) e i)) [ inl k ↦ inl (inl (sym k)) | inr k ↦ inr k ]
        ],
        λ h. rest.1 (elim h [
          | inl (inl k) ↦ inr (subst (In u) (sym e) (step.1 (inl (sym k))))
          | inl (inr i) ↦ inl i
          | inr i ↦ inr (subst (In u) (sym e) (step.1 (inr i)))
        ]),
      )

  pub In-perm : {xs ys : List A} (u : Str) → Permᴰ xs ys → In u (map key xs) → In u (map key ys)
  In-perm u Permᴰ.nil h = h
  In-perm u (Permᴰ.cons e p) (inl k) = inl (sym (ap key e) ∙ k)
  In-perm u (Permᴰ.cons e p) (inr k) = inr (In-perm u p k)
  In-perm u (Permᴰ.swap e f) (inl k) = inr (inl (sym (ap key e) ∙ k))
  In-perm u (Permᴰ.swap e f) (inr (inl k)) = inl (sym (ap key f) ∙ k)
  In-perm u (Permᴰ.swap e f) (inr (inr k)) = inr (inr k)
  In-perm u (Permᴰ.trans p q) h = In-perm u q (In-perm u p h)

  pub total_count-count_onto :
      (counts : List (Str × ℕ)) (xs : List A)
      → total_count (count_onto key counts xs) ≡ total_count counts + length xs
  unfolding count_onto
  total_count-count_onto counts [] = omega arith
  total_count-count_onto counts (x ∷ xs) = omega (
    arith,
    total_count-count_onto (map_count (key x) counts) xs,
    total_count-map_count (key x) counts,
  )
