-- ===== src/Authz/Create/Options.antt =====
-- The checks of `SecurityOpt`, `Tmpfs` and `RestartPolicy` in `create_policy`,
-- docker-authz-plugin/src/lib.rs.
use fire_crow.Prelude.{
  ℕ, Bool, true, false, not, ◌&&◌, ◌||◌, Option, none, some, List, [], ◌∷◌, ◌++◌, if◌then◌else◌,
  is_empty, ◌==◌,
}
use fire_crow.Text.{Str, str, str_eq, one_of, split, before, starts_with, contains}
use fire_crow.Json.{Value, null, object, pairs, get, as_object, as_array, as_str, as_u64}
use fire_crow.Authz.Create.Steps.{Verdict, pass, refuse, ◌>>◌, Object}

abbrev pub permitted_security_opts : List Str
permitted_security_opts =
    str "no-new-privileges" ∷ str "no-new-privileges=true" ∷ str "no-new-privileges:true" ∷ []

-- `a.iter().map(|e| e.as_str()).collect::<Option<Vec<_>>>()`
abbrev pub all_strings : List Value → Option (List Str)
all_strings [] = some []
all_strings (v ∷ vs) = elim (as_str v) [
  | none ↦ none
  | some s ↦ elim (all_strings vs) [ none ↦ none | some ss ↦ some (s ∷ ss) ]
]

abbrev pub string_list : Option Value → Option (List Str)
string_list none = none
string_list (some v) = elim (as_array v) [ none ↦ none | some vs ↦ all_strings vs ]

unfoldable pub check_each_opt : List Str → Verdict
check_each_opt [] = pass
check_each_opt (opt ∷ opts) =
    let rest = check_each_opt opts in
    if one_of permitted_security_opts opt
    then rest
    else refuse "create-securityopt"
        (str "security option '" ++ opt ++ str "' is not permitted on this channel")

unfoldable pub check_security_opt : Option Value → Verdict
check_security_opt o = elim (string_list o) [
  | none ↦
      refuse "create-securityopt"
        (str "SecurityOpt must be a non-empty string list enabling no-new-privileges")
  | some [] ↦
      refuse "create-securityopt"
        (str "SecurityOpt must be a non-empty string list enabling no-new-privileges")
  | some (s ∷ ss) ↦ check_each_opt (s ∷ ss)
]

abbrev pub tmpfs_keys : List Str
tmpfs_keys = str "rw" ∷ str "noexec" ∷ str "nosuid" ∷ str "nodev" ∷ str "size" ∷ []

-- The loop over the flags of one mount, with the keys that were seen.
unfoldable pub check_flags : Str → List Str → List Str → Verdict
check_flags o seen [] = pass
check_flags o seen (flag ∷ flags) =
    let key = before b'=' flag in
    let rest = check_flags o (key ∷ seen) flags in
    if not (one_of tmpfs_keys key)
    then refuse "create-tmpfs" (str "tmpfs option '" ++ flag ++ str "' is not permitted")
    else if one_of seen key
    then refuse "create-tmpfs" (str "duplicate tmpfs option in '" ++ o ++ str "'")
    else rest

unfoldable pub check_flag_names : Str → Verdict
check_flag_names o =
    if not (contains o (str "noexec") && contains o (str "nosuid") && contains o (str "nodev"))
    then refuse "create-tmpfs" (str "tmpfs must carry noexec,nosuid,nodev")
    else pass

unfoldable pub check_tmpfs_entry : Str → Value → Verdict
check_tmpfs_entry dest opts =
    if not (str_eq dest (str "/work") || starts_with dest (str "/work/"))
    then refuse "create-tmpfs" (str "tmpfs destination '" ++ dest ++ str "' is not under /work")
    else elim (as_str opts) [
      | none ↦ pass
      | some o ↦ check_flags o [] (split b',' o) >> check_flag_names o
    ]

unfoldable pub check_tmpfs_entries : Object → Verdict
check_tmpfs_entries [] = pass
check_tmpfs_entries ((dest, opts) ∷ rest) = check_tmpfs_entry dest opts >> check_tmpfs_entries rest

unfoldable pub check_tmpfs : Option Value → Verdict
check_tmpfs none = pass
check_tmpfs (some v) = elim (as_object v) [
  | none ↦ refuse "create-tmpfs" (str "Tmpfs must be an object")
  | some entries ↦ check_tmpfs_entries entries
]

abbrev pub text_or_empty : Option Value → Str
text_or_empty none = []
text_or_empty (some v) = elim (as_str v) [ none ↦ [] | some s ↦ s ]

abbrev pub count_or_zero : Option Value → ℕ
count_or_zero none = 0
count_or_zero (some v) = elim (as_u64 v) [ none ↦ 0 | some n ↦ n ]

unfoldable pub restart_ok : Value → Bool
restart_ok null = true
restart_ok (object es) =
    is_empty (pairs es)
    || ((let name = text_or_empty (get (pairs es) (str "Name")) in
          is_empty name || str_eq name (str "none") || str_eq name (str "no"))
        && count_or_zero (get (pairs es) (str "MaximumRetryCount")) == 0)
restart_ok _ = false

unfoldable pub check_restart : Option Value → Verdict
check_restart none = pass
check_restart (some v) =
    if restart_ok v then pass else refuse "create-restartpolicy" (str "RestartPolicy is denied")
