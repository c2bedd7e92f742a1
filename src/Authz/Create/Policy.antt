-- ===== src/Authz/Create/Policy.antt =====
-- About `create_policy` of docker-authz-plugin/src/lib.rs as a whole.
use fire_crow.Prelude.{
  ◌≡◌, refl, ◌↔◌, ◌≤◌, inl, inr, true, false, Option, some, [], arith, length, Option-cases,
  Bool-cases, leb, leb→le, le→leb,
}
use fire_crow.Text.{Str, str, strip_prefix}
use fire_crow.Text.Equality.{one_of_iff, In}
use fire_crow.Json.{Value, string, get, as_object}
use fire_crow.Authz.Request.{AuthzRequest}
use fire_crow.Authz.Pull.{approved_images}
use fire_crow.Authz.Query.{is_scanner_name, query_param}
use fire_crow.Authz.Create.{
  check_name, check_image, check_host, check_rest, check_spec, create_policy, host_field,
  host_config, max_body_bytes, namespace_keys,
}
use fire_crow.Authz.Create.Steps.{Verdict, pass, refuse, settle, Object}
use fire_crow.Authz.Create.Fields.{
  check_privileged, check_absent_or_empty, check_cap_drop, check_network, check_namespaces,
  check_entrypoint, check_cmd, check_user, check_readonly,
}
use fire_crow.Authz.Create.Binds.{check_binds}
use fire_crow.Authz.Create.Options.{check_security_opt, check_tmpfs}
use fire_crow.Authz.Create.FieldLaws.{
  >>-eq-pass, check_privileged_iff, check_absent_or_empty_iff, check_cap_drop_iff,
  check_network_iff, check_namespaces_iff, check_entrypoint_iff, check_cmd_iff, check_user_iff,
  check_readonly_iff,
}
use fire_crow.Authz.Create.BindLaws.{check_binds_iff}
use fire_crow.Authz.Create.OptionLaws.{check_security_opt_iff}
use fire_crow.Authz.Create.TmpfsLaws.{check_tmpfs_iff, check_restart_iff}
use fire_crow.Authz.Create.Spec.{IsConfined}

no_scanner_without_name : is_scanner_name [] ≡ false
unfolding is_scanner_name strip_prefix str
no_scanner_without_name = refl

check_name_sound :
    (uri : Str)
    → check_name uri ≡ pass
    → (name : Str) × (query_param uri (str "name") ≡ some name) × (is_scanner_name name ≡ true)
unfolding check_name
check_name_sound uri h = elim (Option-cases (query_param uri (str "name"))) [
  | inl e ↦ absurd (ground (arith, no_scanner_without_name))
  | inr (name, e) ↦ (name, e, ground arith)
]

check_image_iff :
    (o : Option Value)
    → (check_image o ≡ pass)
      ↔ ((image : Str) × (o ≡ some (string image)) × In image approved_images)
unfolding check_image
check_image_iff (some (string image)) = (
  λ h. (image, refl, (one_of_iff approved_images image).0 (ground arith)),
  λ (image', e, i). ground (arith, (one_of_iff approved_images image').1 i),
)
check_image_iff o = (λ h. absurd (ground arith), λ (image, e, i). absurd (ground arith))

check_spec_sound : (uri : Str) (spec : Object) → check_spec uri spec ≡ pass → IsConfined uri spec
unfolding check_spec check_host check_rest
check_spec_sound uri spec h =
    let field = host_field (host_config spec) in
    let (p_name, h) = (>>-eq-pass (check_name uri) _).0 h in
    let (p_image, h) = (>>-eq-pass (check_image (get spec (str "Image"))) _).0 h in
    let (p_host, h) = (>>-eq-pass (check_host (host_config spec)) _).0 h in
    let (p_priv, k) = (>>-eq-pass (check_privileged (field (str "Privileged"))) _).0 p_host in
    let (p_add, k) = (>>-eq-pass (check_absent_or_empty _ _ (field (str "CapAdd"))) _).0 k in
    let (p_drop, k) = (>>-eq-pass (check_cap_drop (field (str "CapDrop"))) _).0 k in
    let (p_binds, k) = (>>-eq-pass (check_binds (field (str "Binds"))) _).0 k in
    let (p_mounts, k) = (>>-eq-pass (check_absent_or_empty _ _ (field (str "Mounts"))) _).0 k in
    let (p_vols, k) = (>>-eq-pass (check_absent_or_empty _ _ (field (str "VolumesFrom"))) _).0 k in
    let (p_net, k) = (>>-eq-pass (check_network (field (str "NetworkMode"))) _).0 k in
    let (p_spaces, p_dev) = (>>-eq-pass (check_namespaces field _) _).0 k in
    let (p_entry, h) = (>>-eq-pass (check_entrypoint (get spec (str "Entrypoint"))) _).0 h in
    let (p_cmd, h) = (>>-eq-pass (check_cmd (get spec (str "Cmd"))) _).0 h in
    let (p_user, h) = (>>-eq-pass (check_user (get spec (str "User"))) _).0 h in
    let (p_read, h) = (>>-eq-pass (check_readonly (field (str "ReadonlyRootfs"))) _).0 h in
    let (p_sec, h) = (>>-eq-pass (check_security_opt (field (str "SecurityOpt"))) _).0 h in
    let (p_tmpfs, p_restart) = (>>-eq-pass (check_tmpfs (field (str "Tmpfs"))) _).0 h in
    let (name, named, scanner) = check_name_sound uri p_name in
    let (image, has_image, approved) = (check_image_iff _).0 p_image in
    let (network, has_network, isolated) = (check_network_iff _).0 p_net in
    let (pid, (ipc, (uts, (users, _)))) = (check_namespaces_iff field _).0 p_spaces in
    record {
      name = name;
      named = named;
      scanner = scanner;
      image = image;
      has_image = has_image;
      approved = approved;
      unprivileged = (check_privileged_iff _).0 p_priv;
      no_cap_add = (check_absent_or_empty_iff _ _ _).0 p_add;
      drops_all = (check_cap_drop_iff _).0 p_drop;
      binds = (check_binds_iff _).0 p_binds;
      no_mounts = (check_absent_or_empty_iff _ _ _).0 p_mounts;
      no_volumes = (check_absent_or_empty_iff _ _ _).0 p_vols;
      network = network;
      has_network = has_network;
      isolated = isolated;
      own_pid = pid;
      own_ipc = ipc;
      own_uts = uts;
      own_users = users;
      no_devices = (check_absent_or_empty_iff _ _ _).0 p_dev;
      entrypoint = (check_entrypoint_iff _).0 p_entry;
      command = (check_cmd_iff _).0 p_cmd;
      user = (check_user_iff _).0 p_user;
      read_only = (check_readonly_iff _).0 p_read;
      no_new_privileges = (check_security_opt_iff _).0 p_sec;
      tmpfs = (check_tmpfs_iff _).0 p_tmpfs;
      restart = (check_restart_iff _).0 p_restart;
    }

check_name_complete :
    (uri name : Str)
    → query_param uri (str "name") ≡ some name
    → is_scanner_name name ≡ true
    → check_name uri ≡ pass
unfolding check_name
check_name_complete uri name e h = rw e (rw h)

check_host_complete :
    (uri : Str) (spec : Object) → IsConfined uri spec → check_host (host_config spec) ≡ pass
unfolding check_host
check_host_complete uri spec c =
    let field = host_field (host_config spec) in
    rw (
      (check_privileged_iff (field (str "Privileged"))).1 c.unprivileged,
      (check_absent_or_empty_iff _ _ (field (str "CapAdd"))).1 c.no_cap_add,
      (check_cap_drop_iff (field (str "CapDrop"))).1 c.drops_all,
      (check_binds_iff (field (str "Binds"))).1 c.binds,
      (check_absent_or_empty_iff _ _ (field (str "Mounts"))).1 c.no_mounts,
      (check_absent_or_empty_iff _ _ (field (str "VolumesFrom"))).1 c.no_volumes,
      (check_network_iff (field (str "NetworkMode"))).1 (c.network, c.has_network, c.isolated),
      (check_namespaces_iff field namespace_keys).1
          (c.own_pid, (c.own_ipc, (c.own_uts, (c.own_users, tt)))),
      (check_absent_or_empty_iff _ _ (field (str "Devices"))).1 c.no_devices,
    )

check_rest_complete :
    (uri : Str) (spec : Object) → IsConfined uri spec → check_rest spec (host_config spec) ≡ pass
unfolding check_rest
check_rest_complete uri spec c =
    let field = host_field (host_config spec) in
    rw (
      (check_entrypoint_iff (get spec (str "Entrypoint"))).1 c.entrypoint,
      (check_cmd_iff (get spec (str "Cmd"))).1 c.command,
      (check_user_iff (get spec (str "User"))).1 c.user,
      (check_readonly_iff (field (str "ReadonlyRootfs"))).1 c.read_only,
      (check_security_opt_iff (field (str "SecurityOpt"))).1 c.no_new_privileges,
      (check_tmpfs_iff (field (str "Tmpfs"))).1 c.tmpfs,
      (check_restart_iff (field (str "RestartPolicy"))).1 c.restart,
    )

check_spec_complete : (uri : Str) (spec : Object) → IsConfined uri spec → check_spec uri spec ≡ pass
unfolding check_spec
check_spec_complete uri spec c = rw (
  check_name_complete uri c.name c.named c.scanner,
  (check_image_iff (get spec (str "Image"))).1 (c.image, c.has_image, c.approved),
  check_host_complete uri spec c,
  check_rest_complete uri spec c,
)

settle-allow_iff : (v : Verdict) → ((settle v).allow ≡ true) ↔ (v ≡ pass)
settle-allow_iff pass = (λ h. refl, λ h. refl)
settle-allow_iff (refuse rule msg) = ground arith

-- A create request that the policy is to let through.
pub record IsCreatable (parse_json : Str → Option Value) (req : AuthzRequest) : Type 0 where
  pub body : Str
  pub visible : req.body ≡ some body
  pub bounded : length body ≤ max_body_bytes
  pub parsed : Value
  pub is_json : parse_json body ≡ some parsed
  pub spec : Object
  pub is_object : as_object parsed ≡ some spec
  pub confined : IsConfined req.uri spec

module _ (parse_json : Str → Option Value) (req : AuthzRequest) where
  create_policy_sound : (create_policy parse_json req).allow ≡ true → IsCreatable parse_json req
  unfolding create_policy
  create_policy_sound h = elim (Option-cases req.body) [
    | inl e ↦ absurd (ground arith)
    | inr (body, e) ↦ elim (Bool-cases (leb (length body) max_body_bytes)) [
      | inr f ↦ absurd (ground arith)
      | inl f ↦ elim (Option-cases (parse_json body)) [
        | inl g ↦ absurd (ground arith)
        | inr (v, g) ↦ elim (Option-cases (as_object v)) [
          | inl k ↦ absurd (ground arith)
          | inr (spec, k) ↦ record {
            body = body;
            visible = e;
            bounded = leb→le _ _ f;
            parsed = v;
            is_json = g;
            spec = spec;
            is_object = k;
            confined = check_spec_sound req.uri spec ((settle-allow_iff _).0 (ground arith));
          }
        ]
      ]
    ]
  ]

  create_policy_complete : IsCreatable parse_json req → (create_policy parse_json req).allow ≡ true
  unfolding create_policy
  create_policy_complete c = rw (
    c.visible,
    le→leb _ _ c.bounded,
    c.is_json,
    c.is_object,
    check_spec_complete req.uri c.spec c.confined,
  )

-- `create_policy` allows a request exactly if its body is visible, not above 8 MiB, and parses
-- to an object that, with the name in the query, is confined: a scanner's name, an approved
-- image, no privileges and no added capabilities, all capabilities dropped, binds that are
-- read-only staging mounts of unprotected host paths, no other mounts or devices, a permitted
-- network, no shared namespaces, `sh` at most as entrypoint, the unprivileged user, a read-only
-- root, no new privileges, tmpfs mounts at `/work` or at a path whose text begins with `/work/`,
-- whose options, where they are a text, are known flags, each once, that name noexec, nosuid and
-- nodev, and no restart policy but one whose name and count, where they are readable, say never.
pub create_policy-allow_iff :
    (parse_json : Str → Option Value) (req : AuthzRequest)
    → ((create_policy parse_json req).allow ≡ true) ↔ IsCreatable parse_json req
create_policy-allow_iff parse_json req =
    (create_policy_sound parse_json req, create_policy_complete parse_json req)
