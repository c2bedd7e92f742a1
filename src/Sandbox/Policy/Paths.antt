-- ===== src/Sandbox/Policy/Paths.antt =====
-- The host paths that `reject_sensitive_host_path` accepts, backend/src/services/sandbox.rs.
use mathlib.Core.Path.{subst}
use mathlib.Core.Bool.{false≢true}
use mathlib.Core.List.{tail}
use fire_crow.Prelude.{
  ◌≡◌, ◌≢◌, refl, sym, ap, ◌∙◌, inl, inr, true, false, ◌||◌, List, [], ◌∷◌, reverse, is_empty, any,
  All, map, Bool-cases, arith,
}
use fire_crow.Prelude.Fallible.{ok}
use fire_crow.Text.{Str, str, str_eq, one_of, starts_with, split, join, trim_end_matches}
use fire_crow.Text.Split.{Without}
use fire_crow.Authz.Host.{canonical_host_path, resolve, resolve_all, under_prefix}
use fire_crow.Authz.Host.Laws.{components, components-IsEntry, WithoutSlash_of_IsEntry}
use fire_crow.Authz.Host.Denied.{IsWithinAny, IsTree, absolute, tree_prefix, under_any_iff}
use fire_crow.Sandbox.Policy.{
  host_parts, canonical_path, denied_exact, denied_prefixes, is_below, reject_sensitive_host_path,
}

host_parts-resolve_all : (parts cs : List Str) → host_parts parts cs ≡ resolve_all parts cs
unfolding host_parts resolve_all resolve
host_parts-resolve_all parts [] = refl
host_parts-resolve_all parts (c ∷ cs) = elim (Bool-cases (is_empty c || str_eq c (str "."))) [
  | inl e ↦ rw e (host_parts-resolve_all parts cs)
  | inr e ↦ elim (Bool-cases (str_eq c (str ".."))) [
    | inl f ↦ rw (e, f) (host_parts-resolve_all (tail parts) cs)
    | inr f ↦ rw (e, f) (host_parts-resolve_all (c ∷ parts) cs)
  ]
]

-- The backend and the plugin bring a host path to one form.
pub canonical_path-canonical_host_path :
    (path : Str) → canonical_path path ≡ canonical_host_path path
unfolding canonical_path canonical_host_path
canonical_path-canonical_host_path path =
    ap (λ parts. b'/' ∷ join b'/' (reverse parts)) (host_parts-resolve_all [] (split b'/' path))

-- The directories that the backend keeps out of a sandbox, by their components.
abbrev pub kept_out : List (List Str)
kept_out =
    (str "proc" ∷ [])
    ∷ (str "sys" ∷ [])
    ∷ (str "dev" ∷ [])
    ∷ (str "etc" ∷ [])
    ∷ (str "root" ∷ [])
    ∷ (str "var" ∷ str "run" ∷ [])
    ∷ (str "run" ∷ [])
    ∷ []

-- An absolute path whose components are not those of the root, and neither name a directory that is
-- kept out nor lead below one.
abbrev pub IsMountable : Str → Type 0
IsMountable path =
    (starts_with path (str "/") ≡ true)
    × (components path ≢ [])
    × (¬ IsWithinAny (components path) kept_out)

kept_out_words : All (All (Without b'/')) kept_out
unfolding str
kept_out_words = omega arith

kept_out_trees : All IsTree kept_out
unfolding str join trim_end_matches
kept_out_trees =
    let (a, (b, (c, (d, (e, (f, (g, _))))))) = kept_out_words in
    ((a, refl), ((b, refl), ((c, refl), ((d, refl), ((e, refl), ((f, refl), ((g, refl), tt)))))))

prefixes-kept_out : denied_prefixes ≡ map tree_prefix kept_out
unfolding str join
prefixes-kept_out = refl

below-under : (cleaned prefix : Str) → is_below cleaned prefix ≡ under_prefix cleaned prefix
unfolding is_below under_prefix
below-under cleaned prefix = ground arith

any_below-under :
    (cleaned : Str) (prefixes : List Str)
    → any (is_below cleaned) prefixes ≡ any (under_prefix cleaned) prefixes
any_below-under cleaned [] = refl
any_below-under cleaned (p ∷ ps) = rw (below-under cleaned p, any_below-under cleaned ps) refl

-- Components that no prefix of the list catches lie outside.
outside :
    (cs : List Str)
    → All (Without b'/') cs
    → cs ≢ []
    → any (is_below (absolute cs)) denied_prefixes ≡ false
    → ¬ IsWithinAny cs kept_out
outside [] w n h i = n refl
outside (c ∷ cs) w n h i =
    let caught = (under_any_iff c cs kept_out w kept_out_trees).1 i in
    false≢true (
      sym h
      ∙ any_below-under (absolute (c ∷ cs)) denied_prefixes
      ∙ ap (any (under_prefix (absolute (c ∷ cs)))) prefixes-kept_out
      ∙ caught)

accepted_because :
    (path : Str)
    → reject_sensitive_host_path path ≡ ok tt
    → (starts_with path (str "/") ≡ true)
      × (one_of denied_exact (canonical_path path) ≡ false)
      × (any (is_below (canonical_path path)) denied_prefixes ≡ false)
unfolding reject_sensitive_host_path
accepted_because path h = (ground (arith, h), ground (arith, h), ground (arith, h))

root_is_exact : (cs : List Str) → cs ≡ [] → one_of denied_exact (absolute cs) ≡ true
unfolding one_of str join str_eq
root_is_exact cs e = ap (λ x. one_of denied_exact (absolute x)) e

pub accepted-IsMountable : (path : Str) → reject_sensitive_host_path path ≡ ok tt → IsMountable path
unfolding canonical_host_path
accepted-IsMountable path h =
    let (s, x, b) = accepted_because path h in
    let same : canonical_path path ≡ absolute (components path) =
      canonical_path-canonical_host_path path in
    let named : components path ≢ [] =
      λ e. false≢true (sym x ∙ ap (one_of denied_exact) same ∙ root_is_exact (components path) e) in
    (
      s,
      named,
      outside (components path) (WithoutSlash_of_IsEntry _ (components-IsEntry path)) named
          (subst (λ c. any (is_below c) denied_prefixes ≡ false) same b),
    )
