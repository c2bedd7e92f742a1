-- ===== src/Authz/Create/Fields.antt =====
-- The checks of single fields in `create_policy`, docker-authz-plugin/src/lib.rs.
use fire_crow.Prelude.{
  String, Bool, true, false, not, ◌&&◌, Option, none, some, List, [], ◌∷◌, ◌++◌, if◌then◌else◌,
  is_empty, all,
}
use fire_crow.Text.{Str, str, str_eq, one_of}
use fire_crow.Json.{Value, null, bool, string, array, items, as_array}
use fire_crow.Authz.Create.Steps.{Verdict, pass, refuse}

abbrev pub sandbox_user : Str
sandbox_user = str "65534:65534"

abbrev pub allowed_networks : List Str
allowed_networks = str "none" ∷ str "scanners-internal" ∷ []

abbrev pub is_bool : Bool → Value → Bool
is_bool want (bool b) = if want then b else not b
is_bool want _ = false

abbrev pub is_string : Str → Value → Bool
is_string t (string s) = str_eq s t
is_string t _ = false

unfoldable pub check_privileged : Option Value → Verdict
check_privileged none = pass
check_privileged (some v) =
    if is_bool false v
    then pass
    else refuse "create-privileged" (str "Privileged must be explicitly false")

-- The shape that `CapAdd`, `Mounts`, `VolumesFrom` and `Devices` share.
unfoldable pub check_absent_or_empty : String → String → Option Value → Verdict
check_absent_or_empty rule msg none = pass
check_absent_or_empty rule msg (some null) = pass
check_absent_or_empty rule msg (some v) = elim (as_array v) [
  | none ↦ refuse rule (str msg)
  | some [] ↦ pass
  | some (_ ∷ _) ↦ refuse rule (str msg)
]

abbrev pub is_exactly : Str → List Value → Bool
is_exactly t (v ∷ []) = is_string t v
is_exactly t _ = false

abbrev list_of : Option Value → Option (List Value)
list_of none = none
list_of (some v) = as_array v

unfoldable pub check_cap_drop : Option Value → Verdict
check_cap_drop o = elim (list_of o) [
  | none ↦ refuse "create-capdrop" (str "CapDrop must be exactly [ALL]")
  | some caps ↦
      if is_exactly (str "ALL") caps
      then pass
      else refuse "create-capdrop" (str "CapDrop must be exactly [ALL]")
]

unfoldable pub check_network : Option Value → Verdict
check_network (some (string net)) =
    if one_of allowed_networks net
    then pass
    else refuse "create-network" (str "network mode '" ++ net ++ str "' is not permitted")
check_network _ = refuse "create-network" (str "NetworkMode must be an explicit permitted string")

abbrev pub absent_or_blank : Option Value → Bool
absent_or_blank none = true
absent_or_blank (some (string s)) = is_empty s
absent_or_blank (some _) = false

unfoldable pub check_namespaces : (Str → Option Value) → List Str → Verdict
check_namespaces field [] = pass
check_namespaces field (key ∷ keys) =
    let rest = check_namespaces field keys in
    if absent_or_blank (field key)
    then rest
    else refuse "create-namespace"
        (key ++ str " must be absent or empty (host " ++ key ++ str " is denied)")

abbrev pub entrypoint_ok : Value → Bool
entrypoint_ok null = true
entrypoint_ok (string s) = str_eq s (str "sh")
entrypoint_ok (array vs) = is_exactly (str "sh") (items vs)
entrypoint_ok _ = false

unfoldable pub check_entrypoint : Option Value → Verdict
check_entrypoint none = pass
check_entrypoint (some v) =
    if entrypoint_ok v
    then pass
    else refuse "create-entrypoint" (str "Entrypoint override must be absent or exactly sh")

abbrev pub is_text : Value → Bool
is_text (string s) = true
is_text _ = false

abbrev pub cmd_ok : Value → Bool
cmd_ok (array vs) = not (is_empty (items vs)) && all is_text (items vs)
cmd_ok _ = false

unfoldable pub check_cmd : Option Value → Verdict
check_cmd none = pass
check_cmd (some v) =
    if cmd_ok v then pass else refuse "create-cmd" (str "Cmd must be a non-empty string array")

abbrev pub satisfies : (Value → Bool) → Option Value → Bool
satisfies p none = false
satisfies p (some v) = p v

unfoldable pub check_user : Option Value → Verdict
check_user o =
    if satisfies (is_string sandbox_user) o
    then pass
    else refuse "create-user" (str "container User must be " ++ sandbox_user)

unfoldable pub check_readonly : Option Value → Verdict
check_readonly o =
    if satisfies (is_bool true) o
    then pass
    else refuse "create-readonly" (str "HostConfig.ReadonlyRootfs must be true")
