-- ===== src/Sandbox/Policy/Arguments.antt =====
-- The arguments that pass `assert_hardened_argv`, backend/src/services/sandbox.rs.
use mathlib.Core.Path.{subst}
use mathlib.Core.Bool.{false≢true}
use mathlib.Core.List.{append_assoc}
use fire_crow.Prelude.{
  ℕ, ◌≡◌, ◌≢◌, refl, sym, ap, ◌∙◌, inl, inr, Bool, false, not, List, [], ◌∷◌, ◌++◌, any, all, All,
  Bool-cases, arith,
}
use fire_crow.Prelude.Fallible.{ok, Done, bind-ok, reject_if, reject_if-ok}
use fire_crow.Text.{Str, str, str_eq, one_of, starts_with, contains}
use fire_crow.Text.Equality.{In, str_eq_iff}
use fire_crow.Text.Split.{starts_with-append}
use fire_crow.Sandbox.Spec.{internal, NetworkMode, SandboxSpec}
use fire_crow.Sandbox.Argv.{
  entrypoint_args, limit_args, tmpfs_args, mount_args, env_args, arguments, docker_argv,
  network_arg, required_flags, is_forbidden, begins_with_run, assert_hardened_argv,
}

module _ (show_float : ℕ → Str) (spec : SandboxSpec) where
  -- The options of `docker run` after the name of the container.
  abbrev options : List Str
  options =
      (str "--init"
        ∷ network_arg spec.network
        ∷ str "--read-only"
        ∷ str "--cap-drop=ALL"
        ∷ str "--security-opt=no-new-privileges"
        ∷ str "--user=65534:65534"
        ∷ [])
      ++ (entrypoint_args spec.entrypoint
          ++ (limit_args show_float spec.limits
              ++ ((str "--tmpfs" ∷ str "/work:rw,noexec,nosuid,nodev,size=64m" ∷ [])
                  ++ (tmpfs_args spec.extra_tmpfs
                      ++ (mount_args spec.mounts ++ env_args spec.env)))))

  arguments-options : arguments show_float spec ≡ options ++ spec.image ∷ spec.command
  unfolding arguments
  arguments-options = simp append_assoc

-- A text that is none of the flags that give a container the host's privileges, namespaces, devices
-- or volumes, is not `exec`, and does not speak of the socket of Docker.
abbrev pub IsHarmless : Str → Type 0
IsHarmless a =
    (a ≢ str "--privileged")
    × (a ≢ str "--network=host")
    × (a ≢ str "--device")
    × (a ≢ str "--volumes-from")
    × (a ≢ str "exec")
    × ((rest : Str) → a ≢ str "--pid=" ++ rest)
    × ((rest : Str) → a ≢ str "--uts=" ++ rest)
    × ((rest : Str) → a ≢ str "--ipc=" ++ rest)
    × ((rest : Str) → a ≢ str "--cap-add" ++ rest)
    × ((rest : Str) → a ≢ str "--device=" ++ rest)
    × (contains a (str "docker.sock") ≡ false)

-- `docker run --rm --name` and the name, options with every hardening flag and the declared
-- network, and then the image and its command, all of them harmless.
abbrev pub IsHardened : List Str → SandboxSpec → Str → Type 0
IsHardened argv spec name =
    (given : List Str) × (argv
      ≡ str "run" ∷ str "--rm" ∷ str "--name" ∷ name ∷ (given ++ spec.image ∷ spec.command))
    × In (str "--init") given
    × In (network_arg spec.network) given
    × In (str "--read-only") given
    × In (str "--cap-drop=ALL") given
    × In (str "--security-opt=no-new-privileges") given
    × In (str "--user=65534:65534") given
    × All IsHarmless (given ++ spec.image ∷ spec.command)

other : (a b : Str) → str_eq a b ≡ false → a ≢ b
other a b h e = false≢true (sym h ∙ (str_eq_iff a b).1 e)

no_prefix : (a p : Str) → starts_with a p ≡ false → (rest : Str) → a ≢ p ++ rest
no_prefix a p h rest e =
    false≢true (sym h ∙ ap (λ x. starts_with x p) e ∙ starts_with-append p rest)

unforbidden-IsHarmless : (a : Str) → is_forbidden a ≡ false → IsHarmless a
unfolding is_forbidden
unforbidden-IsHarmless a h = (
  other a (str "--privileged") (ground (arith, h)),
  other a (str "--network=host") (ground (arith, h)),
  other a (str "--device") (ground (arith, h)),
  other a (str "--volumes-from") (ground (arith, h)),
  other a (str "exec") (ground (arith, h)),
  no_prefix a (str "--pid=") (ground (arith, h)),
  no_prefix a (str "--uts=") (ground (arith, h)),
  no_prefix a (str "--ipc=") (ground (arith, h)),
  no_prefix a (str "--cap-add") (ground (arith, h)),
  no_prefix a (str "--device=") (ground (arith, h)),
  ground (arith, h),
)

all-IsHarmless : (argv : List Str) → any is_forbidden argv ≡ false → All IsHarmless argv
all-IsHarmless [] h = tt
all-IsHarmless (a ∷ argv) h = elim (Bool-cases (is_forbidden a)) [
  | inl e ↦ absurd (ground (arith, h, e))
  | inr e ↦ (unforbidden-IsHarmless a e, all-IsHarmless argv (ground (arith, h, e)))
]

any_after {ℓ} :
    {A : Type ℓ} (p : A → Bool) (a b c d : A) (xs : List A)
    → any p (a ∷ b ∷ c ∷ d ∷ xs) ≡ false
    → any p xs ≡ false
any_after p a b c d xs h = ground (arith, h)

assert_hardened_argv-unforbidden :
    (argv : List Str) (network : NetworkMode) (u : Done)
    → assert_hardened_argv argv network ≡ ok u
    → any is_forbidden argv ≡ false
unfolding assert_hardened_argv
assert_hardened_argv-unforbidden argv network u h =
    let (v, a, h1) = bind-ok (reject_if (not (all (one_of argv) required_flags)) internal) _ u h in
    let (w, b, h2) =
      bind-ok (reject_if (not (one_of argv (network_arg network))) internal) _ u h1 in
    let (x, c, h3) = bind-ok (reject_if (not (begins_with_run argv)) internal) _ u h2 in
    reject_if-ok (any is_forbidden argv) internal u h3

-- The name that the policy checks the arguments with.
abbrev placeholder : Str
placeholder = str "firecrow-policy-check"

pub docker_argv-IsHardened :
    (show_float : ℕ → Str) (spec : SandboxSpec) (name : Str) (u : Done)
    → assert_hardened_argv (docker_argv show_float spec placeholder) spec.network ≡ ok u
    → IsHardened (docker_argv show_float spec name) spec name
unfolding docker_argv
docker_argv-IsHardened show_float spec name u h =
    let split = arguments-options show_float spec in
    let argv = docker_argv show_float spec placeholder in
    let unforbidden =
      any_after is_forbidden (str "run") (str "--rm") (str "--name") placeholder
        (arguments show_float spec) (assert_hardened_argv-unforbidden argv spec.network u h) in
    (
      options show_float spec,
      ap (λ l. str "run" ∷ str "--rm" ∷ str "--name" ∷ name ∷ l) split,
      inl refl,
      inr (inl refl),
      inr (inr (inl refl)),
      inr (inr (inr (inl refl))),
      inr (inr (inr (inr (inl refl)))),
      inr (inr (inr (inr (inr (inl refl))))),
      subst (All IsHarmless) split (all-IsHarmless (arguments show_float spec) unforbidden),
    )
