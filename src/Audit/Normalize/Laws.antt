-- ===== src/Audit/Normalize/Laws.antt =====
-- The identities of the findings that are left once duplicates are put together.
use mathlib.Core.Path.{subst}
use std.Logic.{↔_trans}
use mathlib.Core.List.{Permᴰ}
use mathlib.Core.List.Permᴰ
use fire_crow.Prelude.{
  ℕ, ◌≡◌, refl, sym, ap, ◌∙◌, ◌↔◌, ◌⊎◌, inl, inr, false, Option, List, [], ◌∷◌, ◌++◌, is_empty,
  length, map, All, Bool-cases, arith, ltb,
}
use fire_crow.Prelude.Fallible.{Result, ok, err, result_cases, ok_injective}
use fire_crow.Text.{Str}
use fire_crow.Text.Equality.{In}
use fire_crow.Order.Sort.{sort_by, sort_by-perm, is_empty-sort_by, All-perm}
use fire_crow.Order.Tree.Laws.{IsAscending, sort_by-ascending, ascending_unique}
use fire_crow.Audit.Schema.{Finding}
use fire_crow.Audit.Services.{Services}
use fire_crow.Audit.Identity.{NormalizedFinding, normalize_finding}
use fire_crow.Audit.Normalize.{
  sift, by_canonical_id, by_storage_id, group_onto, merged, representatives, id_of, deduplicate,
  normalize_findings,
}
use fire_crow.Audit.Normalize.Groups.{
  IsGroup, keys, group_onto-IsGroup, group_onto-IsAscending, group_onto-keys, In-perm,
}

-- A finding that is normalized to this identity.
abbrev pub Identifies : Services → Option Str → Str → Finding → Type 0
Identifies services commit id finding =
    (n : NormalizedFinding) × (normalize_finding services commit finding ≡ ok n)
    × (n.canonical_id ≡ id)

-- One of the findings is normalized to this identity.
abbrev pub Yields : Services → Option Str → Str → List Finding → Type 0
Yields services commit id [] = ⊥
Yields services commit id (finding ∷ findings) =
    Identifies services commit id finding ⊎ Yields services commit id findings

module _ (services : Services) where
  merged-ids :
      (occurrences : ℕ) (k : Str) (ns : List NormalizedFinding)
      → is_empty ns ≡ false
      → All (λ n. id_of n ≡ k) ns
      → map id_of (merged services occurrences ns) ≡ k ∷ []
  unfolding merged id_of
  merged-ids occurrences k [] f h = absurd (ground (arith, f))
  merged-ids occurrences k (n ∷ ns) f (e, h) = elim (Bool-cases (ltb 1 occurrences)) [
    | inl c ↦ rw (c, e) refl
    | inr c ↦ rw (c, e) refl
  ]

  map-append :
      (xs ys : List NormalizedFinding) → map id_of (xs ++ ys) ≡ map id_of xs ++ map id_of ys
  map-append [] ys = refl
  map-append (x ∷ xs) ys = ap (λ l. id_of x ∷ l) (map-append xs ys)

  -- The representatives have the keys of their groups.
  representatives-ids :
      (groups : List (Str × List NormalizedFinding))
      → All (IsGroup id_of) groups
      → map id_of (representatives services groups) ≡ keys id_of groups
  unfolding representatives
  representatives-ids [] h = refl
  representatives-ids ((k, group) ∷ groups) ((f, g), h) =
      let sorted = sort_by by_storage_id group in
      let one =
        merged-ids (length group) k sorted (is_empty-sort_by by_storage_id group ∙ f)
          (All-perm (λ n. id_of n ≡ k) (Permᴰ.symm (sort_by-perm by_storage_id group)) g) in
      map-append (merged services (length group) sorted) (representatives services groups)
      ∙ rw (one, representatives-ids groups h) refl

  module _ (valid : List NormalizedFinding) where
    abbrev pub groups_of : List (Str × List NormalizedFinding)
    groups_of = group_onto id_of [] (sort_by by_canonical_id valid)

    pub representatives-sorted :
        sort_by by_canonical_id (representatives services groups_of)
        ≡ representatives services groups_of
    unfolding by_canonical_id id_of
    representatives-sorted = sort_by-ascending id_of (representatives services groups_of) (
        rw
          (representatives-ids groups_of
            (group_onto-IsGroup id_of [] (sort_by by_canonical_id valid) tt))
          (group_onto-IsAscending id_of [] (sort_by by_canonical_id valid) tt))

    deduplicate-keys : map id_of (deduplicate services valid) ≡ keys id_of groups_of
    unfolding deduplicate
    deduplicate-keys = rw representatives-sorted (
        representatives-ids groups_of
          (group_onto-IsGroup id_of [] (sort_by by_canonical_id valid) tt))

    pub deduplicate-IsAscending : IsAscending (map id_of (deduplicate services valid))
    deduplicate-IsAscending =
        rw deduplicate-keys (group_onto-IsAscending id_of [] (sort_by by_canonical_id valid) tt)

    pub deduplicate-In :
        (u : Str) → In u (map id_of (deduplicate services valid)) ↔ In u (map id_of valid)
    deduplicate-In u =
        let p = sort_by-perm by_canonical_id valid in
        let k = group_onto-keys id_of u [] (sort_by by_canonical_id valid) in
        rw deduplicate-keys (
          λ h. elim (k.0 h) [ inl i ↦ In-perm id_of u p i | inr i ↦ elim i [ ] ],
          λ h. k.1 (inl (In-perm id_of u (Permᴰ.symm p) h)),
        )

  module _ (commit : Option Str) where
    pub sift-ok :
        (finding : Finding) (findings : List Finding) (n : NormalizedFinding)
        → normalize_finding services commit finding ≡ ok n
        → (sift services commit (finding ∷ findings)).0 ≡ n ∷ (sift services commit findings).0
    unfolding sift
    sift-ok finding findings n e = rw (sift, e) refl

    pub sift-err :
        (finding : Finding) (findings : List Finding) (reason : Str)
        → normalize_finding services commit finding ≡ err reason
        → (sift services commit (finding ∷ findings)).0 ≡ (sift services commit findings).0
    unfolding sift
    sift-err finding findings reason e = rw (sift, e) refl

    sift_none : (u : Str) → In u (map id_of (sift services commit []).0) ↔ ⊥
    unfolding sift
    sift_none u = (λ h. h, λ h. h)

    err_not_ok :
        {reason : Str} {n : NormalizedFinding}
        → Path (Result Str NormalizedFinding) (err reason) (ok n)
        → ⊥
    err_not_ok h = ground (arith, h)

    sift-ids :
        (u : Str) (findings : List Finding)
        → In u (map id_of (sift services commit findings).0) ↔ Yields services commit u findings
    unfolding id_of
    sift-ids u [] = sift_none u
    sift-ids u (finding ∷ findings) =
        let rest = sift-ids u findings in
        elim (result_cases (normalize_finding services commit finding)) [
          | inl (n, e) ↦ rw (sift-ok finding findings n e) (
            λ h. elim h [ inl k ↦ inl (n, e, k) | inr i ↦ inr (rest.0 i) ],
            λ h. elim h [
              | inl (m, j, k) ↦ inl (ap (λ x. x.canonical_id) (ok_injective (sym e ∙ j)) ∙ k)
              | inr y ↦ inr (rest.1 y)
            ],
          )
          | inr (reason, e) ↦ rw (sift-err finding findings reason e) (
            λ h. inr (rest.0 h),
            λ h. elim h [ inl (m, j, k) ↦ absurd (err_not_ok (sym e ∙ j)) | inr y ↦ rest.1 y ],
          )
        ]

    Yields-perm :
        {xs ys : List Finding} (u : Str)
        → Permᴰ xs ys
        → Yields services commit u xs
        → Yields services commit u ys
    Yields-perm u Permᴰ.nil h = h
    Yields-perm u (Permᴰ.cons e p) (inl k) = inl (subst (Identifies services commit u) e k)
    Yields-perm u (Permᴰ.cons e p) (inr k) = inr (Yields-perm u p k)
    Yields-perm u (Permᴰ.swap e f) (inl k) = inr (inl (subst (Identifies services commit u) e k))
    Yields-perm u (Permᴰ.swap e f) (inr (inl k)) = inl (subst (Identifies services commit u) f k)
    Yields-perm u (Permᴰ.swap e f) (inr (inr k)) = inr (inr k)
    Yields-perm u (Permᴰ.trans p q) h = Yields-perm u q (Yields-perm u p h)

    -- The identities that are left are those of the findings that are normalized, ascending, each
    -- once.
    pub normalize_findings-ids :
        (findings : List Finding)
        → let ids = map id_of (normalize_findings services findings commit).valid in
          IsAscending ids × ((u : Str) → In u ids ↔ Yields services commit u findings)
    unfolding normalize_findings
    normalize_findings-ids findings =
        let valid = (sift services commit findings).0 in
        (deduplicate-IsAscending valid, λ u. ↔_trans (deduplicate-In valid u) (sift-ids u findings))

    -- They do not depend on the order of the findings.
    pub normalize_findings-perm :
        (xs ys : List Finding)
        → Permᴰ xs ys
        → map id_of (normalize_findings services xs commit).valid
          ≡ map id_of (normalize_findings services ys commit).valid
    normalize_findings-perm xs ys p =
        let (a, h) = normalize_findings-ids xs in
        let (b, k) = normalize_findings-ids ys in
        ascending_unique _ _ a b (λ u. (
          λ i. (k u).1 (Yields-perm u p ((h u).0 i)),
          λ i. (h u).1 (Yields-perm u (Permᴰ.symm p) ((k u).0 i)),
        ))
