-- ===== src/Authz/Create/FieldLaws.antt =====
-- About the checks of single fields in `create_policy`, docker-authz-plugin/src/lib.rs.
use mathlib.Core.Path.{subst}
use fire_crow.Prelude.{
  String, ◌≡◌, ◌≢◌, refl, ◌⊎◌, inl, inr, ◌↔◌, true, false, Option, none, some, List, [], ◌∷◌, arith,
  All, All-of_all, all_of_All, all,
}
use fire_crow.Text.{Str, str}
use fire_crow.Text.Equality.{str_eq_iff, one_of_iff, In}
use fire_crow.Json.{Value, Values, bool, string, array, nil, cons, items}
use fire_crow.Authz.Create.Steps.{Verdict, pass, refuse, ◌>>◌}
use fire_crow.Authz.Create.Fields.{
  check_privileged, check_absent_or_empty, check_cap_drop, check_network, check_namespaces,
  check_entrypoint, check_cmd, check_user, check_readonly, allowed_networks, sandbox_user, is_text,
  is_string, is_exactly,
}
use fire_crow.Authz.Create.Spec.{HasNothing, IsBlank, StartsShell, IsText, IsCommand}

-- A sequence of two checks passes exactly if both do.
pub >>-eq-pass : (a b : Verdict) → ((a >> b) ≡ pass) ↔ ((a ≡ pass) × (b ≡ pass))
>>-eq-pass pass b = (λ h. (refl, h), λ h. h.1)
>>-eq-pass (refuse r m) b = ground arith

pub check_privileged_iff :
    (o : Option Value) → (check_privileged o ≡ pass) ↔ ((o ≡ none) ⊎ (o ≡ some (bool false)))
unfolding check_privileged
check_privileged_iff o = ground arith

pub check_absent_or_empty_iff :
    (rule msg : String) (o : Option Value)
    → (check_absent_or_empty rule msg o ≡ pass) ↔ HasNothing o
unfolding check_absent_or_empty
check_absent_or_empty_iff rule msg o = ground arith

is_string_iff : (t : Str) (v : Value) → (is_string t v ≡ true) ↔ (v ≡ string t)
is_string_iff t (string s) = ground (arith, str_eq_iff s t)
is_string_iff t v = ground arith

is_exactly_iff :
    (t : Str) (vs : Values) → (is_exactly t (items vs) ≡ true) ↔ (vs ≡ cons (string t) nil)
is_exactly_iff t (cons v nil) = ground (arith, is_string_iff t v)
is_exactly_iff t vs = ground arith

pub check_cap_drop_iff :
    (o : Option Value)
    → (check_cap_drop o ≡ pass) ↔ (o ≡ some (array (cons (string (str "ALL")) nil)))
unfolding check_cap_drop
check_cap_drop_iff (some (array vs)) = ground (arith, is_exactly_iff (str "ALL") vs)
check_cap_drop_iff o = ground arith

pub check_network_iff :
    (o : Option Value)
    → (check_network o ≡ pass) ↔ ((net : Str) × (o ≡ some (string net)) × In net allowed_networks)
unfolding check_network
check_network_iff (some (string net)) = (
  λ h. (net, refl, (one_of_iff allowed_networks net).0 (ground arith)),
  λ (net', e, i). ground (arith, (one_of_iff allowed_networks net').1 i),
)
check_network_iff o = (λ h. absurd (ground arith), λ (net, e, i). absurd (ground arith))

pub check_user_iff : (o : Option Value) → (check_user o ≡ pass) ↔ (o ≡ some (string sandbox_user))
unfolding check_user
check_user_iff none = ground arith
check_user_iff (some v) = ground (arith, is_string_iff sandbox_user v)

pub check_readonly_iff : (o : Option Value) → (check_readonly o ≡ pass) ↔ (o ≡ some (bool true))
unfolding check_readonly
check_readonly_iff o = ground arith

pub check_entrypoint_iff : (o : Option Value) → (check_entrypoint o ≡ pass) ↔ StartsShell o
unfolding check_entrypoint
check_entrypoint_iff (some (string s)) = ground (arith, str_eq_iff s (str "sh"))
check_entrypoint_iff (some (array vs)) = ground (arith, is_exactly_iff (str "sh") vs)
check_entrypoint_iff o = ground arith

is_text_iff : (v : Value) → (is_text v ≡ true) ↔ IsText v
is_text_iff (string s) = (λ h. (s, refl), λ h. refl)
is_text_iff v = (λ h. absurd (ground arith), λ (s, e). absurd (ground arith))

not-IsCommand :
    (v : Value) → ((w : Value) (ws : Values) → v ≢ array (cons w ws)) → ¬ IsCommand (some v)
not-IsCommand v other (inl e) = cc
not-IsCommand v other (inr (w, ws, e, t)) = other w ws (cc)

are_texts : (vs : Values) → (all is_text (items vs) ≡ true) ↔ All IsText (items vs)
are_texts vs =
    (All-of_all (λ v. (is_text_iff v).0) (items vs), all_of_All (λ v. (is_text_iff v).1) (items vs))

pub check_cmd_iff : (o : Option Value) → (check_cmd o ≡ pass) ↔ IsCommand o
unfolding check_cmd
check_cmd_iff none = ground arith
check_cmd_iff (some (array (cons v vs))) = (
  λ h. inr (v, vs, refl, (are_texts (cons v vs)).0 (ground arith)),
  λ h. elim h [
    | inl e ↦ cc
    | inr (w, ws, e, t) ↦
        let same : cons w ws ≡ cons v vs = cc in
        ground (arith, (are_texts (cons v vs)).1 (subst (λ x. All IsText (items x)) same t))
  ],
)
check_cmd_iff (some v) = (λ h. absurd (cc), λ h. absurd (not-IsCommand v (λ w ws e. cc) h))

pub check_namespaces_iff :
    (field : Str → Option Value) (keys : List Str)
    → (check_namespaces field keys ≡ pass) ↔ All (λ key. IsBlank (field key)) keys
unfolding check_namespaces
check_namespaces_iff field [] = (λ h. tt, λ h. refl)
check_namespaces_iff field (key ∷ keys) = ground (arith, check_namespaces_iff field keys)
