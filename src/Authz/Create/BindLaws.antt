-- ===== src/Authz/Create/BindLaws.antt =====
-- About the check of `HostConfig.Binds` in `create_policy`, docker-authz-plugin/src/lib.rs.
use mathlib.Core.Path.{subst}
use fire_crow.Prelude.{
  ◌≡◌, refl, ap, sym, inl, inr, ◌↔◌, false, Option, none, some, List, [], ◌∷◌, arith, All, is_empty,
}
use fire_crow.Text.{Str, str, str_eq, one_of, split}
use fire_crow.Text.Equality.{one_of_iff, In}
use fire_crow.Json.{Value, null, string, array, items}
use fire_crow.Authz.Create.Steps.{pass}
use fire_crow.Authz.Create.FieldLaws.{>>-eq-pass}
use fire_crow.Authz.Create.Binds.{
  allowed_bind_targets, bind_parts, check_bind_parts, check_bind, check_each_bind, check_binds,
}
use fire_crow.Authz.Create.Spec.{IsStagingMount, BindsAreStaging}

no_read_only : one_of (split b',' []) (str "ro") ≡ false
unfolding one_of split str str_eq
no_read_only = refl

nonempty_target : (t : Str) → In t allowed_bind_targets → is_empty t ≡ false
unfolding str
nonempty_target t (inl e) = ap is_empty (sym e)
nonempty_target t (inr (inl e)) = ap is_empty (sym e)
nonempty_target t (inr (inr x)) = elim x [ ]

module _ (s : Str) where
  bind_parts_sound :
      (pieces : List Str)
      → split b':' s ≡ pieces
      → check_bind_parts s (bind_parts pieces) ≡ pass
      → IsStagingMount (string s)
  unfolding check_bind_parts
  bind_parts_sound (a ∷ b ∷ c ∷ []) e h = record {
    text = s;
    host = a;
    container = b;
    opts = c;
    is_text = refl;
    parts = e;
    named = ground arith;
    unprotected = ground arith;
    staging = (one_of_iff allowed_bind_targets b).0 (ground arith);
    read_only = (one_of_iff (split b',' c) (str "ro")).0 (ground arith);
  }
  bind_parts_sound [] e h = absurd (ground arith)
  bind_parts_sound (a ∷ []) e h = absurd (ground arith)
  bind_parts_sound (a ∷ b ∷ []) e h = absurd (ground (arith, no_read_only))
  bind_parts_sound (a ∷ b ∷ c ∷ d ∷ r) e h = absurd (ground arith)

check_bind_sound : (v : Value) → check_bind v ≡ pass → IsStagingMount v
unfolding check_bind
check_bind_sound (string s) h = bind_parts_sound s (split b':' s) refl h
check_bind_sound v h = absurd (ground arith)

check_bind_complete : {v : Value} → IsStagingMount v → check_bind v ≡ pass
unfolding check_bind check_bind_parts
check_bind_complete {v} m = rw m.is_text (
    rw m.parts (
      ground (
        arith,
        m.named,
        m.unprotected,
        nonempty_target m.container m.staging,
        (one_of_iff allowed_bind_targets m.container).1 m.staging,
        (one_of_iff (split b',' m.opts) (str "ro")).1 m.read_only,
      )))

check_each_bind_iff : (vs : List Value) → (check_each_bind vs ≡ pass) ↔ All IsStagingMount vs
unfolding check_each_bind
check_each_bind_iff [] = (λ h. tt, λ h. refl)
check_each_bind_iff (v ∷ vs) = (
  λ h.
      let (p, q) = (>>-eq-pass (check_bind v) _).0 h in
      (check_bind_sound v p, (check_each_bind_iff vs).0 q),
  λ (p, q). (>>-eq-pass (check_bind v) _).1 (check_bind_complete p, (check_each_bind_iff vs).1 q),
)

pub check_binds_iff : (o : Option Value) → (check_binds o ≡ pass) ↔ BindsAreStaging o
unfolding check_binds
check_binds_iff none = (λ h. inl refl, λ h. refl)
check_binds_iff (some null) = (λ h. inr (inl refl), λ h. refl)
check_binds_iff (some (array vs)) = (
  λ h. inr (inr (vs, refl, (check_each_bind_iff (items vs)).0 h)),
  λ h. elim h [
    | inl e ↦ cc
    | inr (inl e) ↦ cc
    | inr (inr (ws, e, t)) ↦
        let same : ws ≡ vs = cc in
        (check_each_bind_iff (items vs)).1 (subst (λ x. All IsStagingMount (items x)) same t)
  ],
)
check_binds_iff (some v) = (
  λ h. absurd (ground arith),
  λ h. elim h [ inl e ↦ cc | inr (inl e) ↦ cc | inr (inr (ws, e, t)) ↦ cc ],
)
