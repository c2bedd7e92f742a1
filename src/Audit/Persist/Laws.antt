-- ===== src/Audit/Persist/Laws.antt =====
-- The rows that are persisted against the findings of the audit.
use fire_crow.Prelude.{
  ℕ, ◌≡◌, refl, sym, ap, ◌∙◌, inl, inr, Bool, none, some, List, [], ◌∷◌, ◌++◌, length, map,
  Bool-cases, ltb, arith,
}
use fire_crow.Prelude.Fallible.{ok, result_cases}
use fire_crow.Text.{Str, str_eq}
use fire_crow.Order.{str_leb}
use fire_crow.Order.Sort.{insert_by, sort_by}
use fire_crow.Order.Tree.{map_push}
use fire_crow.Audit.Schema.{Finding, InvalidFinding}
use fire_crow.Audit.Services.{Services}
use fire_crow.Audit.Identity.{NormalizedFinding, normalize_finding}
use fire_crow.Audit.Identity.Laws.{normalize_finding-Steps}
use fire_crow.Audit.Normalize.{
  sift, by_canonical_id, by_storage_id, group_onto, merged, representatives, duplicate_groups,
  id_of, deduplicate, normalize_findings, quarantine, identify, invalid_key, InvalidKey,
  invalid_before, next_occurrence, key_eq, invalid_id, record_merge, refused,
}
use fire_crow.Audit.Normalize.Laws.{groups_of, representatives-sorted}
use fire_crow.Audit.Persist.{
  persist_sift, record_occurrences, shared_groups, refusal_key, refusal_before, is_last_key,
  refusal_id, number_refusals, unnumbered, by_identity, by_row, group_identities, kept_row,
  kept_rows, normalize_findings_for_persist,
}

-- Sorting commutes with a map that keeps the order.
module _ {ℓ κ} {A : Type ℓ} {B : Type κ} (f : A → B) (p : A → A → Bool) (q : B → B → Bool)
    (same : (x y : A) → q (f x) (f y) ≡ p x y) where
  insert_by-map : (x : A) (xs : List A) → insert_by q (f x) (map f xs) ≡ map f (insert_by p x xs)
  unfolding insert_by
  insert_by-map x [] = refl
  insert_by-map x (y ∷ ys) = elim (Bool-cases (p x y)) [
    | inl e ↦ rw (same x y, e) refl
    | inr e ↦ rw (same x y, e) (ap (λ l. f y ∷ l) (insert_by-map x ys))
  ]

  sort_by-map : (xs : List A) → sort_by q (map f xs) ≡ map f (sort_by p xs)
  unfolding sort_by
  sort_by-map [] = refl
  sort_by-map (x ∷ xs) = ap (insert_by q (f x)) (sort_by-map xs) ∙ insert_by-map x (sort_by p xs)

abbrev row : NormalizedFinding → Finding
row n = n.finding

abbrev identified : NormalizedFinding → Str × Finding
identified n = (n.canonical_id, n.finding)

abbrev rows : Str × List NormalizedFinding → Str × List Finding
rows g = (g.0, map row g.1)

map-append {ℓ κ} :
    {A : Type ℓ} {B : Type κ} (f : A → B) (xs ys : List A) → map f (xs ++ ys) ≡ map f xs ++ map f ys
map-append f [] ys = refl
map-append f (x ∷ xs) ys = ap (λ l. f x ∷ l) (map-append f xs ys)

length-map {ℓ κ} :
    {A : Type ℓ} {B : Type κ} (f : A → B) (xs : List A) → length (map f xs) ≡ length xs
length-map f [] = refl
length-map f (x ∷ xs) = omega (arith, length-map f xs)

map_push-rows :
    (key : Str) (n : NormalizedFinding) (groups : List (Str × List NormalizedFinding))
    → map_push key (row n) (map rows groups) ≡ map rows (map_push key n groups)
unfolding map_push
map_push-rows key n [] = refl
map_push-rows key n ((k, ns) ∷ groups) = elim (Bool-cases (str_eq key k)) [
  | inl e ↦ rw e (ap (λ l. (k, l) ∷ map rows groups) (sym (map-append row ns (n ∷ []))))
  | inr e ↦ elim (Bool-cases (str_leb key k)) [
    | inl f ↦ rw (e, f) refl
    | inr f ↦ rw (e, f) (ap (λ l. (k, map row ns) ∷ l) (map_push-rows key n groups))
  ]
]

group_identities-rows :
    (groups : List (Str × List NormalizedFinding)) (ns : List NormalizedFinding)
    → group_identities (map rows groups) (map identified ns) ≡ map rows (group_onto id_of groups ns)
unfolding group_identities group_onto id_of
group_identities-rows groups [] = refl
group_identities-rows groups (n ∷ ns) =
    ap (λ l. group_identities l (map identified ns)) (map_push-rows n.canonical_id n groups)
    ∙ group_identities-rows (map_push n.canonical_id n groups) ns

duplicate_groups-rows :
    (groups : List (Str × List NormalizedFinding))
    → shared_groups (map rows groups) ≡ duplicate_groups groups
unfolding shared_groups duplicate_groups
duplicate_groups-rows [] = refl
duplicate_groups-rows ((k, ns) ∷ groups) = rw (length-map row ns, duplicate_groups-rows groups) refl

module _ (services : Services) where
  -- The second copies of the record of a merge and of the numbering of refusals are as the first.
  occurrences-merge :
      (occurrences : ℕ) (f : Finding)
      → record_occurrences services occurrences f ≡ record_merge services occurrences f
  unfolding record_occurrences record_merge
  occurrences-merge occurrences f = refl

  refusals-identify :
      (last : InvalidKey) (n : ℕ) (items : List InvalidFinding)
      → number_refusals services (some last) n items ≡ identify services (some (last, n)) items
  unfolding number_refusals identify refusal_key invalid_key is_last_key next_occurrence key_eq
      refusal_id invalid_id
  refusals-identify last n [] = refl
  refusals-identify last n (item ∷ items) =
      let key = invalid_key item in
      rw (refusals-identify key (next_occurrence (some (last, n)) key) items) refl

  refusals-first :
      (items : List InvalidFinding)
      → number_refusals services none 0 items ≡ identify services none items
  unfolding number_refusals identify refusal_key invalid_key is_last_key next_occurrence key_eq
      refusal_id invalid_id
  refusals-first [] = refl
  refusals-first (item ∷ items) = rw (refusals-identify (invalid_key item) 0 items) refl

  refusals-quarantine :
      (items : List InvalidFinding)
      → number_refusals services none 0 (sort_by refusal_before items) ≡ quarantine services items
  unfolding quarantine refusal_before invalid_before refusal_key invalid_key
  refusals-quarantine items = refusals-first (sort_by invalid_before items)

  kept_row-rows :
      (occurrences : ℕ) (ns : List NormalizedFinding)
      → kept_row services occurrences (map row ns) ≡ map row (merged services occurrences ns)
  unfolding kept_row merged
  kept_row-rows occurrences [] = refl
  kept_row-rows occurrences (n ∷ ns) = elim (Bool-cases (ltb 1 occurrences)) [
    | inl e ↦ rw e (ap (λ x. x ∷ []) (occurrences-merge occurrences n.finding))
    | inr e ↦ rw e refl
  ]

  row_order : (x y : NormalizedFinding) → by_row (row x) (row y) ≡ by_storage_id x y
  unfolding by_row by_storage_id
  row_order x y = refl

  kept_rows-rows :
      (groups : List (Str × List NormalizedFinding))
      → kept_rows services (map rows groups) ≡ map row (representatives services groups)
  unfolding kept_rows representatives
  kept_rows-rows [] = refl
  kept_rows-rows ((k, ns) ∷ groups) =
      rw
        (
          length-map row ns,
          sort_by-map row by_storage_id by_row row_order ns,
          kept_row-rows (length ns) (sort_by by_storage_id ns),
          kept_rows-rows groups,
        )
        (sym (
          map-append row (merged services (length ns) (sort_by by_storage_id ns))
            (representatives services groups)))

  persist_sift-ok :
      (finding : Finding) (findings : List Finding) (n : NormalizedFinding)
      → normalize_finding services none finding ≡ ok n
      → persist_sift services findings
        ≡ (map identified (sift services none findings).0, (sift services none findings).1)
      → persist_sift services (finding ∷ findings) ≡ (
        map identified (sift services none (finding ∷ findings)).0,
        (sift services none (finding ∷ findings)).1,
      )
  unfolding persist_sift sift unnumbered refused
  persist_sift-ok finding findings n e h =
      let (scanner, rule_id, native_fp, e1, e3, e4, e5, e6, e7, e8, e9, e10, e11, k, f) =
        normalize_finding-Steps services none finding n e in
      let (valid, invalid) = sift services none findings in
      rw (persist_sift, sift, e, h)
        (ap (λ x. ((n.canonical_id, x) ∷ map identified valid, invalid)) (sym f))

  persist_sift-rows :
      (findings : List Finding)
      → persist_sift services findings
        ≡ (map identified (sift services none findings).0, (sift services none findings).1)
  unfolding persist_sift sift unnumbered refused
  persist_sift-rows [] = refl
  persist_sift-rows (finding ∷ findings) =
      elim (result_cases (normalize_finding services none finding)) [
        | inl (n, e) ↦ persist_sift-ok finding findings n e (persist_sift-rows findings)
        | inr (reason, e) ↦ rw (persist_sift, sift, e, persist_sift-rows findings) refl
      ]

  identity_order :
      (x y : NormalizedFinding) → by_identity (identified x) (identified y) ≡ by_canonical_id x y
  unfolding by_identity by_canonical_id
  identity_order x y = refl

  -- The groups of the rows are those of the normalized findings.
  groups-rows :
      (ns : List NormalizedFinding)
      → group_identities [] (sort_by by_identity (map identified ns))
        ≡ map rows (groups_of services ns)
  groups-rows ns =
      ap (group_identities [])
        (sort_by-map identified by_canonical_id by_identity identity_order ns)
      ∙ group_identities-rows [] (sort_by by_canonical_id ns)

  deduplicate-rows :
      (ns : List NormalizedFinding)
      → kept_rows services (map rows (groups_of services ns)) ≡ map row (deduplicate services ns)
  unfolding deduplicate
  deduplicate-rows ns =
      kept_rows-rows (groups_of services ns)
      ∙ ap (map row) (sym (representatives-sorted services ns))

  -- The rows to persist are those of the audit's normalized findings without a snapshot, in their
  -- order, with the same refused findings and the same number of merged groups.
  pub normalize_findings_for_persist-normalize_findings :
      (findings : List Finding)
      → let persisted = normalize_findings_for_persist services findings in
        let normalized = normalize_findings services findings none in
        (persisted.valid ≡ map row normalized.valid)
        × (persisted.invalid ≡ normalized.invalid)
        × (persisted.duplicate_count ≡ normalized.correlations)
  unfolding normalize_findings_for_persist normalize_findings
  normalize_findings_for_persist-normalize_findings findings =
      let ns = (sift services none findings).0 in
      let e = persist_sift-rows findings in
      let groups = ap (λ p. group_identities [] (sort_by by_identity p.0)) e ∙ groups-rows ns in
      (
        ap (kept_rows services) groups ∙ deduplicate-rows ns,
        ap (λ p. number_refusals services none 0 (sort_by refusal_before p.1)) e
            ∙ refusals-quarantine (sift services none findings).1,
        ap shared_groups groups ∙ duplicate_groups-rows (groups_of services ns),
      )
