-- ===== src/Sandbox/Tests.antt =====
-- Concrete executions for backend/src/services/sandbox.rs.
use fire_crow.Prelude.{ℕ, ◌≡◌, refl, true, some, [], ◌∷◌}
use fire_crow.Prelude.Fallible.{ok, err}
use fire_crow.Text.{Str, str, one_of}
use fire_crow.Authz.Host.{host_source_denied}
use fire_crow.Sandbox.Spec.{
  SandboxError, bad_request, no_network, SandboxMount, SandboxSpec, validate_spec,
}
use fire_crow.Sandbox.Argv.{docker_argv}
use fire_crow.Sandbox.Policy.{reject_sensitive_host_path, enforce_execution_policy}
use fire_crow.Sandbox.Policy.Laws.{reject_sensitive_host_path-host_source_denied}

-- The names that the policy computes through.
unfoldable sandbox_runs : ℕ
unfolding fire_crow.Sandbox.Argv.mount_spec fire_crow.Sandbox.Argv.network_arg
    fire_crow.Sandbox.Argv.entrypoint_args fire_crow.Sandbox.Argv.tmpfs_args
    fire_crow.Sandbox.Argv.mount_args fire_crow.Sandbox.Argv.env_args
    fire_crow.Sandbox.Argv.limit_args fire_crow.Sandbox.Argv.arguments
    fire_crow.Sandbox.Argv.docker_argv fire_crow.Sandbox.Argv.begins_with_run
    fire_crow.Sandbox.Argv.is_forbidden fire_crow.Sandbox.Argv.assert_hardened_argv
    fire_crow.Sandbox.Policy.is_approved_execution fire_crow.Sandbox.Policy.host_parts
    fire_crow.Sandbox.Policy.canonical_path fire_crow.Sandbox.Policy.is_below
    fire_crow.Sandbox.Policy.reject_sensitive_host_path fire_crow.Sandbox.Policy.check_shell
    fire_crow.Sandbox.Policy.enforce_execution_policy fire_crow.Sandbox.Spec.value_from
    fire_crow.Sandbox.Spec.is_positive_u64 fire_crow.Sandbox.Spec.valid_memory
    fire_crow.Sandbox.Spec.is_cpus fire_crow.Sandbox.Spec.validate_limits
    fire_crow.Sandbox.Spec.validate_mount fire_crow.Sandbox.Spec.validate_tmpfs_path
    fire_crow.Sandbox.Spec.is_name_byte fire_crow.Sandbox.Spec.is_env_name
    fire_crow.Sandbox.Spec.validate_env fire_crow.Sandbox.Spec.split_image_ref
    fire_crow.Sandbox.Spec.check_reference fire_crow.Sandbox.Spec.validate_pinned_image
    fire_crow.Sandbox.Spec.validate_entrypoint fire_crow.Sandbox.Spec.validate_spec
    fire_crow.Text.str fire_crow.Text.str_eq fire_crow.Text.one_of fire_crow.Text.strip_prefix
    fire_crow.Text.starts_with fire_crow.Text.ends_with fire_crow.Text.contains
    fire_crow.Text.has_byte fire_crow.Text.split_pieces fire_crow.Text.split fire_crow.Text.before
    fire_crow.Text.split_once fire_crow.Text.rsplit_once fire_crow.Text.join
    fire_crow.Text.trim_end_matches fire_crow.Text.is_digit fire_crow.Text.to_hex_digit
    fire_crow.Text.Control.has_control fire_crow.Text.Control.char_count
    fire_crow.Text.Decimal.decimal fire_crow.Text.Decimal.show_int fire_crow.Text.Replace.replace
    fire_crow.Text.Trim.trim_start fire_crow.Text.Trim.trim_end fire_crow.Text.Trim.trim
    fire_crow.Text.Trim.has_whitespace fire_crow.Text.Utf8.is_utf8
    fire_crow.Text.Utf8.from_utf8_lossy fire_crow.Text.Words.before_blank
    fire_crow.Text.Words.first_word fire_crow.Text.Words.continues fire_crow.Text.Words.chars_from
    fire_crow.Text.Words.chars fire_crow.Text.Words.find_text fire_crow.Text.Words.begins_char
    fire_crow.Text.Words.slice fire_crow.Text.Words.blank_out fire_crow.Text.Words.filled
    fire_crow.Text.Words.words fire_crow.Authz.Host.resolve fire_crow.Authz.Host.resolve_all
    fire_crow.Authz.Host.canonical_host_path fire_crow.Authz.Host.under_prefix
    fire_crow.Authz.Host.host_source_denied
sandbox_runs = 0

abbrev snapshot_mount : SandboxMount
snapshot_mount = record {
  host_path = str "/srv/scans/42";
  container_path = str "/scan";
  read_only = true;
}

abbrev gitleaks_spec : SandboxSpec
gitleaks_spec = record {
  image = str "ghcr.io/gitleaks/gitleaks:v8.18.4";
  entrypoint = some (str "sh");
  network = no_network;
  command = str "-c" ∷ str "gitleaks detect" ∷ [];
  mounts = snapshot_mount ∷ [];
  extra_tmpfs = str "/tmp" ∷ [];
  env = (str "HOME", str "/tmp") ∷ [];
  timeout_secs = 300;
  limits = record { cpus = 0x3FF0000000000000; memory = str "512m"; pids_limit = 256 };
  max_stdout_bytes = 1048576;
  max_stderr_bytes = 65536;
}

-- One processor.
abbrev print_one : ℕ → Str
print_one bits = str "1"

gitleaks_valid : validate_spec gitleaks_spec ≡ ok tt
unfolding sandbox_runs
gitleaks_valid = refl

shadow_refused : reject_sensitive_host_path (str "/srv/../etc/shadow") ≡ err bad_request
unfolding sandbox_runs
shadow_refused = refl

reject_sensitive_host_path-host_source_denied_example :
    host_source_denied (str "/srv/../etc/shadow") ≡ true
reject_sensitive_host_path-host_source_denied_example =
    reject_sensitive_host_path-host_source_denied (str "/srv/../etc/shadow") bad_request
      shadow_refused

-- A home directory passes here, and the plugin denies it.
home_unrefused :
    (reject_sensitive_host_path (str "/home/u/.ssh") ≡ ok tt)
    × (host_source_denied (str "/home/u/.ssh") ≡ true)
unfolding sandbox_runs
home_unrefused = (refl, refl)
