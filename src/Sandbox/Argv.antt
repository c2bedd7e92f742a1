-- ===== src/Sandbox/Argv.antt =====
-- The arguments of `docker run`: `docker_argv` and `assert_hardened_argv`.
use fire_crow.Prelude.{
  ℕ, Bool, false, not, ◌||◌, Option, none, some, List, [], ◌∷◌, ◌++◌, if◌then◌else◌, all, any,
}
use fire_crow.Prelude.Fallible.{◌>>=◌, reject_if}
use fire_crow.Text.{Str, str, str_eq, one_of, starts_with, contains}
use fire_crow.Text.Decimal.{decimal}
use fire_crow.Sandbox.Spec.{
  internal, Check, SandboxMount, ResourceLimits, NetworkMode, no_network, bridge, filtered,
  SandboxSpec,
}

-- `SandboxMount::as_docker_spec`
unfoldable pub mount_spec : SandboxMount → Str
mount_spec mount =
    mount.host_path
    ++ str ":"
    ++ mount.container_path
    ++ (if mount.read_only then str ":ro" else [])

-- `NetworkMode::as_docker_arg`
unfoldable pub network_arg : NetworkMode → Str
network_arg no_network = str "--network=none"
network_arg bridge = str "--network=bridge"
network_arg filtered = str "--network=scanners-internal"

unfoldable pub entrypoint_args : Option Str → List Str
entrypoint_args none = []
entrypoint_args (some entrypoint) = (str "--entrypoint=" ++ entrypoint) ∷ []

unfoldable pub tmpfs_args : List Str → List Str
tmpfs_args [] = []
tmpfs_args (path ∷ paths) =
    str "--tmpfs" ∷ (path ++ str ":rw,noexec,nosuid,nodev,size=32m") ∷ tmpfs_args paths

unfoldable pub mount_args : List SandboxMount → List Str
unfolding mount_spec
mount_args [] = []
mount_args (mount ∷ mounts) = str "-v" ∷ mount_spec mount ∷ mount_args mounts

unfoldable pub env_args : List (Str × Str) → List Str
env_args [] = []
env_args ((name, value) ∷ env) = str "-e" ∷ (name ++ str "=" ++ value) ∷ env_args env

-- `show_float` is how a float is printed.
module _ (show_float : ℕ → Str) where
  -- `ResourceLimits::as_docker_args`
  unfoldable pub limit_args : ResourceLimits → List Str
  limit_args limits =
      (str "--cpus=" ++ show_float limits.cpus)
      ∷ (str "-m=" ++ limits.memory)
      ∷ (str "--memory-swap=" ++ limits.memory)
      ∷ (str "--pids-limit=" ++ decimal limits.pids_limit)
      ∷ []

  -- What follows the name of the container.
  unfoldable pub arguments : SandboxSpec → List Str
  unfolding network_arg entrypoint_args limit_args tmpfs_args mount_args env_args
  arguments spec =
      (str "--init"
        ∷ network_arg spec.network
        ∷ str "--read-only"
        ∷ str "--cap-drop=ALL"
        ∷ str "--security-opt=no-new-privileges"
        ∷ str "--user=65534:65534"
        ∷ [])
      ++ (entrypoint_args spec.entrypoint
          ++ (limit_args spec.limits
              ++ ((str "--tmpfs" ∷ str "/work:rw,noexec,nosuid,nodev,size=64m" ∷ [])
                  ++ (tmpfs_args spec.extra_tmpfs
                      ++ (mount_args spec.mounts
                          ++ (env_args spec.env ++ (spec.image ∷ spec.command)))))))

  unfoldable pub docker_argv : SandboxSpec → Str → List Str
  unfolding arguments
  docker_argv spec name = str "run" ∷ str "--rm" ∷ str "--name" ∷ name ∷ arguments spec

abbrev pub required_flags : List Str
required_flags =
    str "run"
    ∷ str "--rm"
    ∷ str "--init"
    ∷ str "--read-only"
    ∷ str "--cap-drop=ALL"
    ∷ str "--security-opt=no-new-privileges"
    ∷ str "--user=65534:65534"
    ∷ []

-- `argv.first() == Some("run")`
unfoldable pub begins_with_run : List Str → Bool
begins_with_run [] = false
begins_with_run (a ∷ argv) = str_eq a (str "run")

unfoldable pub is_forbidden : Str → Bool
is_forbidden a =
    str_eq a (str "--privileged")
    || (starts_with a (str "--pid=")
        || (str_eq a (str "--network=host")
            || (starts_with a (str "--uts=")
                || (starts_with a (str "--ipc=")
                    || (starts_with a (str "--cap-add")
                        || (str_eq a (str "--device")
                            || (starts_with a (str "--device=")
                                || (str_eq a (str "--volumes-from")
                                    || (str_eq a (str "exec")
                                        || contains a (str "docker.sock"))))))))))

unfoldable pub assert_hardened_argv : List Str → NetworkMode → Check
unfolding begins_with_run is_forbidden
assert_hardened_argv argv network = do
  _ ← reject_if (not (all (one_of argv) required_flags)) internal
  _ ← reject_if (not (one_of argv (network_arg network))) internal
  _ ← reject_if (not (begins_with_run argv)) internal
  reject_if (any is_forbidden argv) internal
