-- ===== src/Sandbox/Policy/Laws.antt =====
-- The policy of executions against the Docker authorization plugin.
use mathlib.Core.Path.{subst}
use fire_crow.Prelude.{◌≡◌, ◌⊎◌, inl, inr, true, false, any, Bool-cases, arith}
use fire_crow.Prelude.Fallible.{err}
use fire_crow.Text.{Str, str, one_of, starts_with}
use fire_crow.Authz.Host.{
  canonical_host_path, host_source_denied, under_prefix, denied_host_exact, denied_host_prefixes,
}
use fire_crow.Sandbox.Spec.{SandboxError}
use fire_crow.Sandbox.Policy.{
  canonical_path, denied_exact, denied_prefixes, is_below, reject_sensitive_host_path,
}
use fire_crow.Sandbox.Policy.Paths.{canonical_path-canonical_host_path}

exact-denied :
    (cleaned : Str) → one_of denied_exact cleaned ≡ true → one_of denied_host_exact cleaned ≡ true
unfolding one_of
exact-denied cleaned h = ground arith

below-denied :
    (cleaned : Str)
    → any (is_below cleaned) denied_prefixes ≡ true
    → any (under_prefix cleaned) denied_host_prefixes ≡ true
unfolding is_below under_prefix
below-denied cleaned h = ground arith

denied_by_exact :
    (path : Str)
    → one_of denied_host_exact (canonical_host_path path) ≡ true
    → host_source_denied path ≡ true
unfolding host_source_denied
denied_by_exact path h = ground (arith, h)

denied_by_tree :
    (path : Str)
    → any (under_prefix (canonical_host_path path)) denied_host_prefixes ≡ true
    → host_source_denied path ≡ true
unfolding host_source_denied
denied_by_tree path h = ground (arith, h)

relative_denied : (path : Str) → starts_with path (str "/") ≡ false → host_source_denied path ≡ true
unfolding host_source_denied
relative_denied path h = ground (arith, h)

-- A path that is refused is relative, or its form is denied or in a tree that is.
refused_because :
    (path : Str) (e : SandboxError)
    → reject_sensitive_host_path path ≡ err e
    → (starts_with path (str "/") ≡ false)
      ⊎ (one_of denied_exact (canonical_path path) ≡ true)
      ⊎ (any (is_below (canonical_path path)) denied_prefixes ≡ true)
unfolding reject_sensitive_host_path
refused_because path e h = elim (Bool-cases (starts_with path (str "/"))) [
  | inr s ↦ inl s
  | inl s ↦ elim (Bool-cases (one_of denied_exact (canonical_path path))) [
    | inl x ↦ inr (inl x)
    | inr x ↦ inr (inr (ground (arith, h, s, x)))
  ]
]

-- Every host path that the backend refuses to mount the plugin denies.
pub reject_sensitive_host_path-host_source_denied :
    (path : Str) (e : SandboxError)
    → reject_sensitive_host_path path ≡ err e
    → host_source_denied path ≡ true
reject_sensitive_host_path-host_source_denied path e h =
    let same = canonical_path-canonical_host_path path in
    elim (refused_because path e h) [
      | inl s ↦ relative_denied path s
      | inr (inl x) ↦ denied_by_exact path (
          exact-denied (canonical_host_path path)
            (subst (λ c. one_of denied_exact c ≡ true) same x))
      | inr (inr x) ↦ denied_by_tree path (
          below-denied (canonical_host_path path)
            (subst (λ c. any (is_below c) denied_prefixes ≡ true) same x))
    ]
