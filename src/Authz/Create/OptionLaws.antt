-- ===== src/Authz/Create/OptionLaws.antt =====
-- About the checks of `SecurityOpt` and of the flags of `Tmpfs` in `create_policy`,
-- docker-authz-plugin/src/lib.rs.
use mathlib.Core.Path.{subst}
use fire_crow.Prelude.{
  ◌≡◌, refl, inl, inr, ◌↔◌, Option, some, List, [], ◌∷◌, arith, All, Option-cases,
}
use fire_crow.Text.{Str}
use fire_crow.Text.Equality.{one_of_iff, In}
use fire_crow.Json.{Value, string, array, cons, items}
use fire_crow.Authz.Create.Steps.{pass}
use fire_crow.Authz.Create.Options.{
  permitted_security_opts, all_strings, check_each_opt, check_security_opt,
}
use fire_crow.Authz.Create.Spec.{ForbidsNewPrivileges}

abbrev IsPermittedOpt : Value → Type 0
IsPermittedOpt v = (s : Str) × (v ≡ string s) × In s permitted_security_opts

check_each_opt-cons :
    (s : Str) (ss : List Str)
    → (check_each_opt (s ∷ ss) ≡ pass) ↔ (In s permitted_security_opts × (check_each_opt ss ≡ pass))
unfolding check_each_opt
check_each_opt-cons s ss = (
  λ h. ((one_of_iff permitted_security_opts s).0 (ground arith), ground arith),
  λ (i, h). ground (arith, (one_of_iff permitted_security_opts s).1 i),
)

opts_sound :
    (vs : List Value) (ss : List Str)
    → all_strings vs ≡ some ss
    → check_each_opt ss ≡ pass
    → All IsPermittedOpt vs
opts_sound [] ss e h = tt
opts_sound (string s ∷ vs) ss e h = elim (Option-cases (all_strings vs)) [
  | inl f ↦ absurd (ground arith)
  | inr (rest, f) ↦
      let same : ss ≡ s ∷ rest = ground arith in
      let (i, k) = (check_each_opt-cons s rest).0 (subst (λ x. check_each_opt x ≡ pass) same h) in
      ((s, refl, i), opts_sound vs rest f k)
]
opts_sound (v ∷ vs) ss e h = absurd (ground arith)

opts_complete :
    (vs : List Value)
    → All IsPermittedOpt vs
    → (ss : List Str) × (all_strings vs ≡ some ss) × (check_each_opt ss ≡ pass)
opts_complete [] t = ([], refl, unfold check_each_opt in refl)
opts_complete (v ∷ vs) ((s, e, i), t) =
    let (ss, f, g) = opts_complete vs t in
    (s ∷ ss, rw e (rw f), (check_each_opt-cons s ss).1 (i, g))

security_opt_complete :
    (v : Value) (vs : List Value)
    → All IsPermittedOpt (v ∷ vs)
    → (s : Str) × (ss : List Str) × (all_strings (v ∷ vs) ≡ some (s ∷ ss))
      × (check_each_opt (s ∷ ss) ≡ pass)
security_opt_complete v vs ((s, e, i), t) =
    let (ss, f, g) = opts_complete vs t in (s, ss, rw e (rw f), (check_each_opt-cons s ss).1 (i, g))

pub check_security_opt_iff :
    (o : Option Value) → (check_security_opt o ≡ pass) ↔ ForbidsNewPrivileges o
unfolding check_security_opt
check_security_opt_iff (some (array (cons v vs))) = (
  λ h. elim (Option-cases (all_strings (v ∷ items vs))) [
    | inl f ↦ absurd (ground arith)
    | inr (ss, f) ↦ (v, vs, refl, opts_sound (v ∷ items vs) ss f (ground arith))
  ],
  λ (w, ws, e, t).
      let same : cons w ws ≡ cons v vs = cc in
      let (s, ss, f, g) =
        security_opt_complete v (items vs) (subst (λ x. All IsPermittedOpt (items x)) same t) in
      ground arith,
)
check_security_opt_iff o = (λ h. absurd (ground arith), λ (v, vs, e, t). absurd (cc))
