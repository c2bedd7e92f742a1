-- ===== src/Sandbox/Policy.antt =====
-- The policy of executions: `reject_sensitive_host_path` and `enforce_execution_policy`.
pub mod Paths
pub mod Arguments
pub mod Laws
use mathlib.Core.List.{tail}
use fire_crow.Prelude.{
  ℕ, Bool, true, false, not, ◌&&◌, ◌||◌, Option, none, some, List, [], ◌∷◌, reverse, if◌then◌else◌,
  any, is_empty,
}
use fire_crow.Prelude.Fallible.{Result, ok, err, ◌>>=◌, Done, reject_if}
use fire_crow.Text.{Str, str, str_eq, one_of, starts_with, split, join, trim_end_matches}
use fire_crow.Sandbox.Spec.{
  SandboxError, bad_request, Check, require, check_each, SandboxMount, NetworkMode, no_network,
  bridge, filtered, SandboxSpec,
}
use fire_crow.Sandbox.Argv.{docker_argv, assert_hardened_argv}

abbrev pub same_network : NetworkMode → NetworkMode → Bool
same_network no_network no_network = true
same_network bridge bridge = true
same_network filtered filtered = true
same_network _ _ = false

abbrev pub approved_executions : List (Str × NetworkMode)
approved_executions =
    (str "ghcr.io/gitleaks/gitleaks:v8.18.4", no_network)
    ∷ (str "ghcr.io/google/osv-scanner:v2.2.4", filtered)
    ∷ (str "semgrep/semgrep:1.96.0", no_network)
    ∷ []

-- `APPROVED_SCANNER_EXECUTIONS.contains(..)`
unfoldable pub is_approved_execution : List (Str × NetworkMode) → Str → NetworkMode → Bool
is_approved_execution [] image wanted = false
is_approved_execution ((name, mode) ∷ executions) image wanted =
    (str_eq name image && same_network mode wanted) || is_approved_execution executions image wanted

-- The loop over the components; the last part stands at the head.
unfoldable pub host_parts : List Str → List Str → List Str
host_parts parts [] = parts
host_parts parts (c ∷ cs) =
    let kept = host_parts parts cs in
    let popped = host_parts (tail parts) cs in
    let pushed = host_parts (c ∷ parts) cs in
    if is_empty c || str_eq c (str ".")
    then kept
    else if str_eq c (str "..")
    then popped
    else pushed

unfoldable pub canonical_path : Str → Str
unfolding host_parts
canonical_path host_path = b'/' ∷ join b'/' (reverse (host_parts [] (split b'/' host_path)))

abbrev pub denied_exact : List Str
denied_exact = str "/" ∷ str "/var/run/docker.sock" ∷ []

abbrev pub denied_prefixes : List Str
denied_prefixes =
    str "/proc/"
    ∷ str "/sys/"
    ∷ str "/dev/"
    ∷ str "/etc/"
    ∷ str "/root/"
    ∷ str "/var/run/"
    ∷ str "/run/"
    ∷ []

unfoldable pub is_below : Str → Str → Bool
is_below cleaned prefix =
    starts_with cleaned prefix || str_eq cleaned (trim_end_matches b'/' prefix)

unfoldable pub reject_sensitive_host_path : Str → Check
unfolding canonical_path is_below
reject_sensitive_host_path host_path =
    let cleaned = canonical_path host_path in
    if not (starts_with host_path (str "/"))
    then err bad_request
    else if one_of denied_exact cleaned || any (is_below cleaned) denied_prefixes
    then err bad_request
    else ok tt

unfoldable pub check_shell : Option Str → Check
check_shell none = ok tt
check_shell (some entrypoint) = require (str_eq entrypoint (str "sh"))

unfoldable pub enforce_execution_policy : (ℕ → Str) → SandboxSpec → Check
unfolding is_approved_execution check_shell reject_sensitive_host_path
enforce_execution_policy show_float spec = do
  _ ← require (is_approved_execution approved_executions spec.image spec.network)
  _ ← check_shell spec.entrypoint
  _ ← check_each (λ m. reject_sensitive_host_path m.host_path) spec.mounts
  assert_hardened_argv (docker_argv show_float spec (str "firecrow-policy-check")) spec.network
