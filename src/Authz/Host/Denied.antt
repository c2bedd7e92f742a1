-- ===== src/Authz/Host/Denied.antt =====
-- About `host_source_denied` of docker-authz-plugin/src/lib.rs.
use mathlib.Core.List.{append-nil, append_assoc, tail}
use mathlib.Core.Path.{subst}
use mathlib.Core.Bool.{false≢true}
use fire_crow.Prelude.{
  ◌≡◌, ◌≢◌, refl, sym, ap, ◌∙◌, ◌⊎◌, inl, inr, ◌↔◌, true, false, List, [], ◌∷◌, ◌++◌, arith, All,
  Bool-cases, or-true, any, map,
}
use fire_crow.Text.{
  Str, str, str_eq, one_of, starts_with, split, split_pieces, join, trim_end_matches,
}
use fire_crow.Text.Equality.{str_eq_iff, eq_of_str_eq, In, one_of_iff}
use fire_crow.Text.Split.{Without, prefix_of_starts_with, starts_with-append}
use fire_crow.Text.Join.{split-join, split-append, join-append}
use fire_crow.Authz.Host.{
  resolve, resolve_all, canonical_host_path, denied_host_exact, denied_host_prefixes, under_prefix,
  host_source_denied,
}
use fire_crow.Authz.Host.Laws.{
  components, components-IsEntry, components_of_entries, WithoutSlash_of_IsEntry,
}

-- The sensitive directories, by their components.
abbrev pub sensitive_trees : List (List Str)
sensitive_trees =
    (str "proc" ∷ [])
    ∷ (str "sys" ∷ [])
    ∷ (str "dev" ∷ [])
    ∷ (str "etc" ∷ [])
    ∷ (str "root" ∷ [])
    ∷ (str "var" ∷ str "run" ∷ [])
    ∷ (str "run" ∷ [])
    ∷ (str "var" ∷ str "lib" ∷ str "docker" ∷ [])
    ∷ (str "boot" ∷ [])
    ∷ (str "home" ∷ [])
    ∷ []

-- A directory or something below it.
abbrev pub IsWithin : List Str → List Str → Type 0
IsWithin ps dir = (rest : List Str) × (ps ≡ dir ++ rest)

abbrev pub IsWithinAny : List Str → List (List Str) → Type 0
IsWithinAny ps [] = ⊥
IsWithinAny ps (dir ∷ dirs) = IsWithin ps dir ⊎ IsWithinAny ps dirs

abbrev pub absolute : List Str → Str
absolute ps = b'/' ∷ join b'/' ps

abbrev pub tree_prefix : List Str → Str
tree_prefix dir = absolute dir ++ b'/' ∷ []

join-injective :
    (p : Str) (ps : List Str) (q : Str) (qs : List Str)
    → All (Without b'/') (p ∷ ps)
    → All (Without b'/') (q ∷ qs)
    → join b'/' (p ∷ ps) ≡ join b'/' (q ∷ qs)
    → p ∷ ps ≡ q ∷ qs
join-injective p ps q qs h k e =
    sym (split-join b'/' p ps h) ∙ ap (split b'/') e ∙ split-join b'/' q qs k

-- The test on one prefix is the test on components.
module _ (p : Str) (ps : List Str) (d : Str) (ds : List Str) (h : All (Without b'/') (p ∷ ps))
    (k : All (Without b'/') (d ∷ ds)) where
  IsWithin-of_equal : absolute (p ∷ ps) ≡ absolute (d ∷ ds) → IsWithin (p ∷ ps) (d ∷ ds)
  IsWithin-of_equal e = ([], join-injective p ps d ds h k (ap tail e) ∙ sym (append-nil (d ∷ ds)))

  IsWithin-of_below :
      (r : Str) → absolute (p ∷ ps) ≡ tree_prefix (d ∷ ds) ++ r → IsWithin (p ∷ ps) (d ∷ ds)
  IsWithin-of_below r e =
      let joined : join b'/' (p ∷ ps) ≡ join b'/' (d ∷ ds) ++ b'/' ∷ r =
        ap tail e ∙ append_assoc (join b'/' (d ∷ ds)) (b'/' ∷ []) r in
      (
        split b'/' r,
        sym (split-join b'/' p ps h)
            ∙ ap (split b'/') joined
            ∙ split-append b'/' (join b'/' (d ∷ ds)) r
            ∙ ap (λ x. x ++ split b'/' r) (split-join b'/' d ds k),
      )

  below_of_within :
      (r : Str) (rs : List Str)
      → p ∷ ps ≡ (d ∷ ds) ++ r ∷ rs
      → absolute (p ∷ ps) ≡ tree_prefix (d ∷ ds) ++ join b'/' (r ∷ rs)
  below_of_within r rs e =
      ap absolute e
      ∙ ap (λ x. b'/' ∷ x) (join-append b'/' d ds r rs)
      ∙ sym (append_assoc (absolute (d ∷ ds)) (b'/' ∷ []) (join b'/' (r ∷ rs)))

  under_prefix_iff :
      trim_end_matches b'/' (tree_prefix (d ∷ ds)) ≡ absolute (d ∷ ds)
      → (under_prefix (absolute (p ∷ ps)) (tree_prefix (d ∷ ds)) ≡ true)
        ↔ IsWithin (p ∷ ps) (d ∷ ds)
  unfolding under_prefix
  under_prefix_iff trimmed = (
    λ t. elim (or-true _ _ t) [
      | inl e ↦ IsWithin-of_equal (eq_of_str_eq _ _ e ∙ trimmed)
      | inr e ↦ let (r, f) = prefix_of_starts_with _ _ e in IsWithin-of_below r f
    ],
    λ (rest, e). under_of_rest rest e trimmed,
  )
    where
      under_of_rest :
          (rest : List Str)
          → p ∷ ps ≡ (d ∷ ds) ++ rest
          → trim_end_matches b'/' (tree_prefix (d ∷ ds)) ≡ absolute (d ∷ ds)
          → under_prefix (absolute (p ∷ ps)) (tree_prefix (d ∷ ds)) ≡ true
      under_of_rest [] e trimmed =
          let same : absolute (p ∷ ps) ≡ trim_end_matches b'/' (tree_prefix (d ∷ ds)) =
            ap absolute (e ∙ append-nil (d ∷ ds)) ∙ sym trimmed in
          ground (arith, (str_eq_iff _ _).1 same)
      under_of_rest (r ∷ rs) e trimmed =
          let starts : starts_with (absolute (p ∷ ps)) (tree_prefix (d ∷ ds)) ≡ true =
            subst (λ x. starts_with x (tree_prefix (d ∷ ds)) ≡ true) (sym (below_of_within r rs e))
              (starts_with-append _ _) in
          ground arith

-- A tree that the code's spelling of its prefix stands for.
abbrev pub IsTree : List Str → Type 0
IsTree [] = ⊥
IsTree (d ∷ ds) =
    All (Without b'/') (d ∷ ds) × (trim_end_matches b'/' (tree_prefix (d ∷ ds)) ≡ absolute (d ∷ ds))

pub under_any_iff :
    (p : Str) (ps : List Str) (dirs : List (List Str))
    → All (Without b'/') (p ∷ ps)
    → All IsTree dirs
    → (any (under_prefix (absolute (p ∷ ps))) (map tree_prefix dirs) ≡ true)
      ↔ IsWithinAny (p ∷ ps) dirs
under_any_iff p ps [] h t = (λ e. absurd (cc), λ w. elim w [ ])
under_any_iff p ps ([] ∷ dirs) h (t, ts) = elim t [ ]
under_any_iff p ps ((d ∷ ds) ∷ dirs) h ((k, trimmed), ts) =
    let (to, from) = under_prefix_iff p ps d ds h k trimmed in
    let (all_to, all_from) = under_any_iff p ps dirs h ts in
    (
      λ e. elim (or-true _ _ e) [ inl a ↦ inl (to a) | inr b ↦ inr (all_to b) ],
      λ w. elim w [ inl a ↦ rw (from a) refl | inr b ↦ ground (arith, all_from b) ],
    )

prefixes_are_trees : denied_host_prefixes ≡ map tree_prefix sensitive_trees
unfolding str join
prefixes_are_trees = refl

words : All (All (Without b'/')) sensitive_trees
unfolding str
words = omega arith

trees : All IsTree sensitive_trees
unfolding str join trim_end_matches
trees =
    let (a, (b, (c, (d, (e, (f, (g, (h, (i, (j, _)))))))))) = words in
    (
      (a, refl),
      (
        (b, refl),
        (
          (c, refl),
          (
            (d, refl),
            ((e, refl), ((f, refl), ((g, refl), ((h, refl), ((i, refl), ((j, refl), tt)))))),
          ),
        ),
      ),
    )

-- The components of the three paths that are denied by name.
exact_components :
    (components (str "/") ≡ [])
    × (components (str "/var/run/docker.sock") ≡ str "var" ∷ str "run" ∷ str "docker.sock" ∷ [])
    × (components (str "/run/docker.sock") ≡ str "run" ∷ str "docker.sock" ∷ [])
unfolding str split split_pieces resolve_all resolve str_eq
exact_components = (refl, refl, refl)

module _ (host_path : Str) where
  same_components :
      (word : Str) → word ≡ absolute (components host_path) → components host_path ≡ components word
  same_components word e =
      sym (components_of_entries (components host_path) (components-IsEntry host_path))
      ∙ ap components (sym e)

  exact_within :
      In (absolute (components host_path)) denied_host_exact
      → (components host_path ≡ []) ⊎ IsWithinAny (components host_path) sensitive_trees
  exact_within i =
      let (root, var_sock, run_sock) = exact_components in
      elim i [
        | inl e ↦ inl (same_components _ e ∙ root)
        | inr (inl e) ↦ inr (
            inr (
              inr (inr (inr (inr (inl (str "docker.sock" ∷ [], same_components _ e ∙ var_sock)))))))
        | inr (inr (inl e)) ↦ inr (
            inr (
              inr (
                inr (
                  inr (inr (inr (inl (str "docker.sock" ∷ [], same_components _ e ∙ run_sock))))))))
        | inr (inr (inr e)) ↦ elim e [ ]
      ]

  any_within :
      any (under_prefix (absolute (components host_path))) denied_host_prefixes ≡ true
      → (components host_path ≡ []) ⊎ IsWithinAny (components host_path) sensitive_trees
  any_within h = split_components (components host_path) refl
    where
      split_components :
          (cs : List Str)
          → components host_path ≡ cs
          → (components host_path ≡ []) ⊎ IsWithinAny (components host_path) sensitive_trees
      split_components [] e = inl e
      split_components (p ∷ ps) e =
          let plain =
            subst (All (Without b'/')) e
              (WithoutSlash_of_IsEntry _ (components-IsEntry host_path)) in
          let tested : any (under_prefix (absolute (p ∷ ps))) (map tree_prefix sensitive_trees)
              ≡ true =
            ap (λ x. any (under_prefix (absolute (p ∷ ps))) x) (sym prefixes_are_trees)
            ∙ ap (λ x. any (under_prefix (absolute x)) denied_host_prefixes) (sym e)
            ∙ h in
          inr (
            subst (λ x. IsWithinAny x sensitive_trees) (sym e)
              ((under_any_iff p ps sensitive_trees plain trees).0 tested))

  denied_sound :
      host_source_denied host_path ≡ true
      → (starts_with host_path (str "/") ≡ false)
        ⊎ (components host_path ≡ [])
        ⊎ IsWithinAny (components host_path) sensitive_trees
  unfolding host_source_denied canonical_host_path
  denied_sound h = elim (Bool-cases (starts_with host_path (str "/"))) [
    | inr e ↦ inl e
    | inl e ↦ inr (elim (Bool-cases (one_of denied_host_exact (canonical_host_path host_path))) [
      | inl f ↦ exact_within ((one_of_iff _ _).0 f)
      | inr f ↦ any_within (ground arith)
    ])
  ]

  within_any :
      IsWithinAny (components host_path) sensitive_trees
      → components host_path ≢ []
      → any (under_prefix (absolute (components host_path))) denied_host_prefixes ≡ true
  within_any w n = split_components (components host_path) refl
    where
      split_components :
          (cs : List Str)
          → components host_path ≡ cs
          → any (under_prefix (absolute (components host_path))) denied_host_prefixes ≡ true
      split_components [] e = absurd (n e)
      split_components (p ∷ ps) e =
          let plain =
            subst (All (Without b'/')) e
              (WithoutSlash_of_IsEntry _ (components-IsEntry host_path)) in
          ap (λ x. any (under_prefix (absolute x)) denied_host_prefixes) e
          ∙ ap (λ x. any (under_prefix (absolute (p ∷ ps))) x) prefixes_are_trees
          ∙ (under_any_iff p ps sensitive_trees plain trees).1
              (subst (λ x. IsWithinAny x sensitive_trees) e w)

  denied_complete :
      (starts_with host_path (str "/") ≡ false)
        ⊎ (components host_path ≡ [])
        ⊎ IsWithinAny (components host_path) sensitive_trees
      → host_source_denied host_path ≡ true
  unfolding host_source_denied canonical_host_path
  denied_complete h = elim (Bool-cases (starts_with host_path (str "/"))) [
    | inr e ↦ ground arith
    | inl e ↦ elim (Bool-cases (one_of denied_host_exact (canonical_host_path host_path))) [
      | inl f ↦ ground arith
      | inr f ↦
          let not_root : components host_path ≢ [] =
            λ r. not_exact (ap absolute r ∙ (unfold join str in refl)) f in
          let below = within_any (within h e not_root) not_root in ground arith
    ]
  ]
    where
      not_exact :
          canonical_host_path host_path ≡ str "/"
          → one_of denied_host_exact (canonical_host_path host_path) ≢ false
      not_exact r f = false≢true (sym f ∙ (one_of_iff _ _).1 (inl (sym r)))

      within :
          (starts_with host_path (str "/") ≡ false)
            ⊎ (components host_path ≡ [])
            ⊎ IsWithinAny (components host_path) sensitive_trees
          → starts_with host_path (str "/") ≡ true
          → components host_path ≢ []
          → IsWithinAny (components host_path) sensitive_trees
      within (inl a) b n = absurd (false≢true (sym a ∙ b))
      within (inr (inl a)) b n = absurd (n a)
      within (inr (inr w)) b n = w

-- A host path is denied exactly if it is not absolute, or its canonical form is the root or lies
-- at or below one of the sensitive directories, component by component.
pub host_source_denied_iff :
    (host_path : Str)
    → (host_source_denied host_path ≡ true) ↔ (
        (starts_with host_path (str "/") ≡ false)
        ⊎ (components host_path ≡ [])
        ⊎ IsWithinAny (components host_path) sensitive_trees)
host_source_denied_iff host_path = (denied_sound host_path, denied_complete host_path)
