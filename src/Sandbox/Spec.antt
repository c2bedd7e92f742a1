-- ===== src/Sandbox/Spec.antt =====
-- A specification of a container and its validation. Messages of errors are left out.
use fire_crow.Prelude.{
  ℕ, ◌+◌, ◌*◌, ◌-◌, ◌^◌, Bool, true, false, not, ◌&&◌, ◌||◌, Option, none, some, List, [], ◌∷◌,
  if◌then◌else◌, length, is_empty, all, leb, ltb, ◌==◌, reverse,
}
use fire_crow.Prelude.Fallible.{Result, ok, err, ◌>>=◌, Done}
use fire_crow.Text.{
  Str, str, str_eq, one_of, has_byte, starts_with, strip_prefix, rsplit_once, is_digit,
  to_hex_digit, is_some,
}
use fire_crow.Text.Trim.{trim, has_whitespace}
use fire_crow.Text.Control.{has_control}

-- The two of `AppError` that the sandbox returns here.
pub data SandboxError : Type 0 where
  bad_request internal : SandboxError

abbrev pub Check : Type 0
Check = Result SandboxError Done

abbrev pub require : Bool → Check
require true = ok tt
require false = err bad_request

-- `for x in xs { check(x)?; }`
abbrev pub check_each {ℓ} : {A : Type ℓ} → (A → Check) → List A → Check
check_each check [] = ok tt
check_each check (x ∷ xs) = check x >>= λ _. check_each check xs

pub record SandboxMount : Type 0 where
  pub host_path : Str
  pub container_path : Str
  pub read_only : Bool

-- The processors are the bits of an `f64`.
pub record ResourceLimits : Type 0 where
  pub cpus : ℕ
  pub memory : Str
  pub pids_limit : ℕ

pub data NetworkMode : Type 0 where
  no_network bridge filtered : NetworkMode

pub record SandboxSpec : Type 0 where
  pub image : Str
  pub entrypoint : Option Str
  pub network : NetworkMode
  pub command : List Str
  pub mounts : List SandboxMount
  pub extra_tmpfs : List Str
  pub env : List (Str × Str)
  pub timeout_secs : ℕ
  pub limits : ResourceLimits
  pub max_stdout_bytes : ℕ
  pub max_stderr_bytes : ℕ

-- The value of digits, after those that `n` stands for.
unfoldable pub value_from : ℕ → Str → ℕ
value_from n [] = n
value_from n (x ∷ s) = value_from (n * 10 + (x - b'0')) s

-- `num.parse::<u64>()` gives a number above 0; a plus sign may stand before the digits.
unfoldable pub is_positive_u64 : Str → Bool
unfolding value_from
is_positive_u64 num =
    let digits = elim (strip_prefix num (str "+")) as (λ _. Str) [
      | none ↦ num
      | some rest ↦ rest
    ] in
    not (is_empty digits)
    && (all is_digit digits && (ltb 0 (value_from 0 digits) && ltb (value_from 0 digits) (2 ^ 64)))

unfoldable pub valid_memory : Str → Bool
unfolding is_positive_u64
valid_memory memory = elim (reverse memory) [
  | [] ↦ false
  | unit ∷ num ↦ has_byte unit (str "mMgGkK") && is_positive_u64 (reverse num)
]

-- Finite, above 0 and at most 8: the bits of such floats are ordered as they are.
unfoldable pub is_cpus : ℕ → Bool
is_cpus bits = ltb 0 bits && leb bits 0x4020000000000000

-- `ResourceLimits::validate`
unfoldable pub validate_limits : ResourceLimits → Check
unfolding is_cpus valid_memory
validate_limits limits = do
  _ ← require (is_cpus limits.cpus)
  _ ← require (valid_memory limits.memory)
  require (ltb 0 limits.pids_limit && leb limits.pids_limit 2048)

abbrev pub scan_mount : Str
scan_mount = str "/scan"

abbrev pub allowed_container_paths : List Str
allowed_container_paths = scan_mount ∷ str "/config" ∷ []

unfoldable pub validate_mount : SandboxMount → Check
validate_mount mount = do
  _ ← require (not (is_empty (trim mount.host_path) || is_empty (trim mount.container_path)))
  _ ← require (starts_with mount.container_path (str "/"))
  _ ← require (one_of allowed_container_paths mount.container_path)
  _ ← require mount.read_only
  require (
      not (
        has_byte b':' mount.host_path
        || (has_byte 10 mount.host_path
            || (has_byte 13 mount.host_path || has_byte 0 mount.host_path))))

unfoldable pub validate_tmpfs_path : Str → Check
validate_tmpfs_path path = do
  _ ← require (starts_with path (str "/") && leb 2 (length path))
  _ ← require (
      not (
        has_whitespace path
        || (has_control path
            || (has_byte b':' path || (has_byte b',' path || has_byte b'=' path)))))
  require (not (str_eq path scan_mount))

unfoldable pub is_name_byte : ℕ → Bool
is_name_byte x =
    is_digit x || ((leb b'a' x && leb x b'z') || ((leb b'A' x && leb x b'Z') || x == b'_'))

unfoldable pub is_env_name : Str → Bool
unfolding is_name_byte
is_env_name [] = false
is_env_name (x ∷ s) = all is_name_byte (x ∷ s) && not (is_digit x)

unfoldable pub validate_env : Str × Str → Check
unfolding is_env_name
validate_env (name, value) = do
  _ ← require (is_env_name name)
  require (not (has_byte 10 value || (has_byte 13 value || has_byte 0 value)))

-- The name of an image, and its digest or tag.
unfoldable pub split_image_ref : Str → Str × Option Str
split_image_ref image = elim (rsplit_once b'@' image) [
  | some (name, digest) ↦ (name, some digest)
  | none ↦ elim (rsplit_once b':' image) [
    | none ↦ (image, none)
    | some (name, tag) ↦ if has_byte b'/' tag then (image, none) else (name, some tag)
  ]
]

unfoldable pub check_reference : Option Str → Check
check_reference none = err bad_request
check_reference (some reference) = elim (strip_prefix reference (str "sha256:")) [
  | some hex ↦ require (length hex == 64 && all (λ x. is_some (to_hex_digit x)) hex)
  | none ↦ require (not (is_empty reference || str_eq reference (str "latest")))
]

unfoldable pub validate_pinned_image : Str → Check
unfolding split_image_ref check_reference
validate_pinned_image image = do
  let img = trim image
  let (name, reference) = split_image_ref img
  _ ← require (not (is_empty img))
  _ ← require (not (starts_with img (str "-") || (has_whitespace img || has_control img)))
  _ ← require (not (is_empty name))
  check_reference reference

unfoldable pub validate_entrypoint : Option Str → Check
validate_entrypoint none = ok tt
validate_entrypoint (some entrypoint) = require (
    not (
      is_empty (trim entrypoint)
      || (starts_with entrypoint (str "-")
          || (has_whitespace entrypoint || has_control entrypoint))))

unfoldable pub validate_spec : SandboxSpec → Check
unfolding validate_pinned_image validate_limits validate_entrypoint validate_mount
    validate_tmpfs_path validate_env
validate_spec spec = do
  _ ← validate_pinned_image spec.image
  _ ← validate_limits spec.limits
  _ ← require (ltb 0 spec.timeout_secs && leb spec.timeout_secs 3600)
  _ ← require (not (is_empty spec.command))
  _ ← validate_entrypoint spec.entrypoint
  _ ← check_each validate_mount spec.mounts
  _ ← check_each validate_tmpfs_path spec.extra_tmpfs
  check_each validate_env spec.env
