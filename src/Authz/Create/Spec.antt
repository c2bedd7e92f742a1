-- ===== src/Authz/Create/Spec.antt =====
-- What a container's spec must be like, said without the code of `create_policy`.
use fire_crow.Prelude.{◌≡◌, ◌≢◌, ◌⊎◌, true, false, Option, none, some, List, [], ◌∷◌, All}
use fire_crow.Text.{Str, str, split, before, starts_with, contains}
use fire_crow.Text.Equality.{In}
use fire_crow.Json.{
  Value, null, bool, string, array, object, nil, cons, Values, Entries, items, pairs, as_object,
  as_str, get,
}
use fire_crow.Authz.Host.{host_source_denied}
use fire_crow.Authz.Query.{is_scanner_name, query_param}
use fire_crow.Authz.Pull.{approved_images}
use fire_crow.Authz.Create.{host_field, host_config}
use fire_crow.Authz.Create.Steps.{Object}
use fire_crow.Authz.Create.Binds.{allowed_bind_targets}
use fire_crow.Authz.Create.Fields.{allowed_networks, sandbox_user}
use fire_crow.Authz.Create.Options.{
  permitted_security_opts, tmpfs_keys, text_or_empty, count_or_zero,
}

-- Not there, null, or a list with nothing in it.
abbrev pub HasNothing : Option Value → Type 0
HasNothing o = (o ≡ none) ⊎ (o ≡ some null) ⊎ (o ≡ some (array nil))

-- A bind `host:container:opts` of an unprotected host path, read-only, on a staging mount.
pub record IsStagingMount (v : Value) : Type 0 where
  pub text : Str
  pub host : Str
  pub container : Str
  pub opts : Str
  pub is_text : v ≡ string text
  pub parts : split b':' text ≡ host ∷ container ∷ opts ∷ []
  pub named : host ≢ []
  pub unprotected : host_source_denied host ≡ false
  pub staging : In container allowed_bind_targets
  pub read_only : In (str "ro") (split b',' opts)

abbrev pub BindsAreStaging : Option Value → Type 0
BindsAreStaging o =
    (o ≡ none)
    ⊎ (o ≡ some null)
    ⊎ ((vs : Values) × (o ≡ some (array vs)) × All IsStagingMount (items vs))

abbrev pub IsBlank : Option Value → Type 0
IsBlank o = (o ≡ none) ⊎ (o ≡ some (string []))

abbrev pub StartsShell : Option Value → Type 0
StartsShell o =
    (o ≡ none)
    ⊎ (o ≡ some null)
    ⊎ (o ≡ some (string (str "sh")))
    ⊎ (o ≡ some (array (cons (string (str "sh")) nil)))

abbrev pub IsText : Value → Type 0
IsText v = (s : Str) × (v ≡ string s)

abbrev pub IsCommand : Option Value → Type 0
IsCommand o =
    (o ≡ none)
    ⊎ ((v : Value) × (vs : Values) × (o ≡ some (array (cons v vs))) × All IsText (v ∷ items vs))

-- A list that is not empty, of options that each forbid new privileges.
abbrev pub ForbidsNewPrivileges : Option Value → Type 0
ForbidsNewPrivileges o =
    (v : Value) × (vs : Values) × (o ≡ some (array (cons v vs)))
    × All (λ w. (s : Str) × (w ≡ string s) × In s permitted_security_opts) (v ∷ items vs)

-- The keys of the flags of a mount, `size` for `size=64m`.
abbrev pub keys_of : List Str → List Str
keys_of [] = []
keys_of (flag ∷ flags) = before b'=' flag ∷ keys_of flags

abbrev pub AreDistinct : List Str → Type 0
AreDistinct [] = Unit
AreDistinct (k ∷ ks) = All (λ j. k ≢ j) ks × AreDistinct ks

-- Known flags, each once, and the text names the three that take rights away.
abbrev pub IsRestricted : Str → Type 0
IsRestricted o =
    All (λ k. In k tmpfs_keys) (keys_of (split b',' o))
    × AreDistinct (keys_of (split b',' o))
    × (contains o (str "noexec") ≡ true)
    × (contains o (str "nosuid") ≡ true)
    × (contains o (str "nodev") ≡ true)

-- A mount on `/work` or below it, by the text of its path. Options that are no text are not read.
abbrev pub IsScratch : Str × Value → Type 0
IsScratch (dest, opts) =
    ((dest ≡ str "/work") ⊎ (starts_with dest (str "/work/") ≡ true))
    × ((as_str opts ≡ none) ⊎ ((o : Str) × (as_str opts ≡ some o) × IsRestricted o))

abbrev pub MountsAreScratch : Option Value → Type 0
MountsAreScratch o =
    (o ≡ none)
    ⊎ ((v : Value) × (es : List (Str × Value)) × (o ≡ some v)
        × (as_object v ≡ some es)
        × All IsScratch es)

-- No policy, or one whose name and count, as far as they are a text and a `u64`, say never.
abbrev pub NeverRestarts : Option Value → Type 0
NeverRestarts o =
    (o ≡ none)
    ⊎ (o ≡ some null)
    ⊎ ((es : Entries) × (o ≡ some (object es))
        × ((pairs es ≡ [])
            ⊎ (In (text_or_empty (get (pairs es) (str "Name"))) ([] ∷ str "none" ∷ str "no" ∷ [])
                × (count_or_zero (get (pairs es) (str "MaximumRetryCount")) ≡ 0))))

-- All that a created container must satisfy: its name, from the query, and its spec.
pub record IsConfined (uri : Str) (spec : Object) : Type 0 where
  pub name : Str
  pub named : query_param uri (str "name") ≡ some name
  pub scanner : is_scanner_name name ≡ true
  pub image : Str
  pub has_image : get spec (str "Image") ≡ some (string image)
  pub approved : In image approved_images
  pub unprivileged :
      (host_field (host_config spec) (str "Privileged") ≡ none)
      ⊎ (host_field (host_config spec) (str "Privileged") ≡ some (bool false))
  pub no_cap_add : HasNothing (host_field (host_config spec) (str "CapAdd"))
  pub drops_all :
      host_field (host_config spec) (str "CapDrop") ≡ some (array (cons (string (str "ALL")) nil))
  pub binds : BindsAreStaging (host_field (host_config spec) (str "Binds"))
  pub no_mounts : HasNothing (host_field (host_config spec) (str "Mounts"))
  pub no_volumes : HasNothing (host_field (host_config spec) (str "VolumesFrom"))
  pub network : Str
  pub has_network : host_field (host_config spec) (str "NetworkMode") ≡ some (string network)
  pub isolated : In network allowed_networks
  pub own_pid : IsBlank (host_field (host_config spec) (str "PidMode"))
  pub own_ipc : IsBlank (host_field (host_config spec) (str "IpcMode"))
  pub own_uts : IsBlank (host_field (host_config spec) (str "UTSMode"))
  pub own_users : IsBlank (host_field (host_config spec) (str "UsernsMode"))
  pub no_devices : HasNothing (host_field (host_config spec) (str "Devices"))
  pub entrypoint : StartsShell (get spec (str "Entrypoint"))
  pub command : IsCommand (get spec (str "Cmd"))
  pub user : get spec (str "User") ≡ some (string sandbox_user)
  pub read_only : host_field (host_config spec) (str "ReadonlyRootfs") ≡ some (bool true)
  pub no_new_privileges : ForbidsNewPrivileges (host_field (host_config spec) (str "SecurityOpt"))
  pub tmpfs : MountsAreScratch (host_field (host_config spec) (str "Tmpfs"))
  pub restart : NeverRestarts (host_field (host_config spec) (str "RestartPolicy"))
