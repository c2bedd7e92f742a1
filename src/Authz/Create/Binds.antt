-- ===== src/Authz/Create/Binds.antt =====
-- The check of `HostConfig.Binds` in `create_policy`, docker-authz-plugin/src/lib.rs.
use fire_crow.Prelude.{
  Bool, true, false, not, ◌||◌, Option, none, some, List, [], ◌∷◌, ◌++◌, if◌then◌else◌, is_empty,
}
use fire_crow.Text.{Str, str, one_of, split}
use fire_crow.Json.{Value, null, as_array, as_str}
use fire_crow.Authz.Host.{host_source_denied}
use fire_crow.Authz.Create.Steps.{Verdict, pass, refuse, ◌>>◌}

abbrev pub allowed_bind_targets : List Str
allowed_bind_targets = str "/scan" ∷ str "/config" ∷ []

-- The three calls of `parts.next().unwrap_or("")`, and whether a fourth part is there.
pub record BindParts : Type 0 where
  pub host : Str
  pub container : Str
  pub opts : Str
  pub extra : Bool

abbrev pub bind_parts : List Str → BindParts
bind_parts [] = record { host = []; container = []; opts = []; extra = false }
bind_parts (a ∷ []) = record { host = a; container = []; opts = []; extra = false }
bind_parts (a ∷ b ∷ []) = record { host = a; container = b; opts = []; extra = false }
bind_parts (a ∷ b ∷ c ∷ []) = record { host = a; container = b; opts = c; extra = false }
bind_parts (a ∷ b ∷ c ∷ _ ∷ _) = record { host = a; container = b; opts = c; extra = true }

unfoldable pub check_bind_parts : Str → BindParts → Verdict
check_bind_parts s p =
    if p.extra || is_empty p.host || is_empty p.container
    then refuse "create-binds" (str "bind '" ++ s ++ str "' has an unsupported shape")
    else if host_source_denied p.host
    then refuse "create-binds" (str "bind host source '" ++ p.host ++ str "' is not permitted")
    else if not (one_of allowed_bind_targets p.container)
        || not (one_of (split b',' p.opts) (str "ro"))
    then refuse "create-binds"
        (str "bind '" ++ s ++ str "' is not one of the read-only staging mounts")
    else pass

unfoldable pub check_bind : Value → Verdict
check_bind v = elim (as_str v) [
  | none ↦ refuse "create-binds" (str "bind entries must be strings")
  | some s ↦ check_bind_parts s (bind_parts (split b':' s))
]

unfoldable pub check_each_bind : List Value → Verdict
check_each_bind [] = pass
check_each_bind (v ∷ vs) = check_bind v >> check_each_bind vs

unfoldable pub check_binds : Option Value → Verdict
check_binds none = pass
check_binds (some null) = pass
check_binds (some v) = elim (as_array v) [
  | none ↦ refuse "create-binds" (str "Binds must be an array")
  | some binds ↦ check_each_bind binds
]
