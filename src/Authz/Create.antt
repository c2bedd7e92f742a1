-- ===== src/Authz/Create.antt =====
-- `Plugin::create_policy` of docker-authz-plugin/src/lib.rs: which containers may be created. The
-- checks stand in the children, one function for each, in the order of the source.
pub mod Steps
pub mod Binds
pub mod Fields
pub mod Options
pub mod Spec
pub mod FieldLaws
pub mod BindLaws
pub mod OptionLaws
pub mod TmpfsLaws
pub mod Policy
use fire_crow.Prelude.{
  ℕ, ◌*◌, length, leb, Option, none, some, List, [], ◌∷◌, ◌++◌, if◌then◌else◌, not,
}
use fire_crow.Text.{Str, str, one_of}
use fire_crow.Json.{Value, get, as_object, string}
use fire_crow.Authz.Query.{query_param, is_scanner_name}
use fire_crow.Authz.Request.{Decision, AuthzRequest, deny}
use fire_crow.Authz.Pull.{approved_images}
use Steps.{Verdict, pass, refuse, ◌>>◌, settle, Object}
use Binds.{check_binds}
use Fields.{
  check_privileged, check_absent_or_empty, check_cap_drop, check_network, check_namespaces,
  check_entrypoint, check_cmd, check_user, check_readonly,
}
use Options.{check_security_opt, check_tmpfs, check_restart}

abbrev pub max_body_bytes : ℕ
max_body_bytes = 8 * 1024 * 1024

-- The value of a parameter, the empty text where it is absent.
abbrev pub or_default : Option Str → Str
or_default none = []
or_default (some s) = s

unfoldable pub check_name : Str → Verdict
check_name uri =
    if is_scanner_name (or_default (query_param uri (str "name")))
    then pass
    else refuse "create-name" (str "container name must be firecrow-scan-<uuid>")

unfoldable pub check_image : Option Value → Verdict
check_image (some (string image)) =
    if one_of approved_images image
    then pass
    else refuse "create-image" (str "image '" ++ image ++ str "' is not approved")
check_image _ = refuse "create-image" (str "container Image must be an approved string")

-- `hc.and_then(|h| h.get(key))`
abbrev pub host_field : Option Object → Str → Option Value
host_field none key = none
host_field (some h) key = get h key

abbrev pub host_config : Object → Option Object
host_config obj = elim (get obj (str "HostConfig")) [ none ↦ none | some v ↦ as_object v ]

abbrev pub namespace_keys : List Str
namespace_keys = str "PidMode" ∷ str "IpcMode" ∷ str "UTSMode" ∷ str "UsernsMode" ∷ []

-- The checks on `HostConfig` up to `Devices`, then those on the rest of the spec.
unfoldable pub check_host : Option Object → Verdict
check_host hc = do
  check_privileged (host_field hc (str "Privileged"))
  check_absent_or_empty "create-capadd" "capability additions are denied"
      (host_field hc (str "CapAdd"))
  check_cap_drop (host_field hc (str "CapDrop"))
  check_binds (host_field hc (str "Binds"))
  check_absent_or_empty "create-mounts" "structured Mounts are denied"
      (host_field hc (str "Mounts"))
  check_absent_or_empty "create-volumesfrom" "VolumesFrom is denied"
      (host_field hc (str "VolumesFrom"))
  check_network (host_field hc (str "NetworkMode"))
  check_namespaces (host_field hc) namespace_keys
  check_absent_or_empty "create-devices" "device passthrough is denied"
      (host_field hc (str "Devices"))

unfoldable pub check_rest : Object → Option Object → Verdict
check_rest obj hc = do
  check_entrypoint (get obj (str "Entrypoint"))
  check_cmd (get obj (str "Cmd"))
  check_user (get obj (str "User"))
  check_readonly (host_field hc (str "ReadonlyRootfs"))
  check_security_opt (host_field hc (str "SecurityOpt"))
  check_tmpfs (host_field hc (str "Tmpfs"))
  check_restart (host_field hc (str "RestartPolicy"))

unfoldable pub check_spec : Str → Object → Verdict
check_spec uri obj = do
  check_name uri
  check_image (get obj (str "Image"))
  check_host (host_config obj)
  check_rest obj (host_config obj)

-- `parse_json` is `serde_json::from_str`.
module _ (parse_json : Str → Option Value) where
  unfoldable pub create_policy : AuthzRequest → Decision
  create_policy req = elim req.body [
    | none ↦
        deny "create-body-required" (str "create spec body is required and must be visible") none
    | some body ↦
        if not (leb (length body) max_body_bytes)
        then deny "body-too-large" (str "create body exceeds cap") none
        else elim (parse_json body) [
          | none ↦ deny "create-body-unparseable" (str "create body is not valid JSON") none
          | some spec ↦ elim (as_object spec) [
            | none ↦ deny "create-body-unparseable" (str "create body is not an object") none
            | some obj ↦ settle (check_spec req.uri obj)
          ]
        ]
  ]
