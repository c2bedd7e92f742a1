-- ===== src/Contract/Result.antt =====
-- `validate_scan_result` of backend/src/schemas/scan_contract.rs.
pub mod Laws
use fire_crow.Prelude.{
  ℕ, Bool, true, false, not, ◌&&◌, ◌||◌, Option, none, some, List, [], ◌∷◌, ◌++◌, if◌then◌else◌,
  is_empty, ◌==◌, any, all,
}
use fire_crow.Text.{Str, str, str_eq, contains}
use fire_crow.Contract.State.{PipelineState, completed, partial, failed}
use fire_crow.Contract.Types.{
  ScannerStatus, succeeded, errored, timed_out, ScannerRun, kind_name, ScanResult, CanonicalFinding,
  Checked, valid, invalid, ◌>>=◌, unsupported_version, inconsistent_result, partial_without_cause,
}
use fire_crow.Contract.Target.{normalize_repository_url, validate_snapshot}
use fire_crow.Contract.Findings.{is_vacant, validate_canonical_finding}

abbrev pub contract_version : ℕ
contract_version = 1

-- `matches!(status, Failed | TimedOut)`
abbrev pub is_failure : ScannerStatus → Bool
is_failure errored = true
is_failure timed_out = true
is_failure _ = false

abbrev pub is_success : ScannerStatus → Bool
is_success succeeded = true
is_success _ = false

unfoldable pub failed_scanners : List ScannerRun → List Str
failed_scanners [] = []
failed_scanners (run ∷ runs) =
    let rest = failed_scanners runs in
    if is_failure run.status then kind_name run.scanner ∷ rest else rest

unfoldable pub any_success : List ScannerRun → Bool
any_success runs = any (λ run. is_success run.status) runs

unfoldable pub check_completed : List ScannerRun → Checked
check_completed runs =
    if not (is_empty (failed_scanners runs))
    then invalid (inconsistent_result (str "completed scan must not contain failed scanners"))
    else if is_empty runs
    then invalid
        (inconsistent_result (str "completed scan requires at least one successful scanner run"))
    else if any (λ run. not (is_success run.status)) runs
    then invalid (inconsistent_result (str "completed scan requires every scanner run to succeed"))
    else valid tt

-- `error.as_deref().unwrap_or_default()`
abbrev pub text_of : Option Str → Str
text_of none = []
text_of (some s) = s

unfoldable pub check_partial : List ScannerRun → Option Str → Checked
check_partial runs error =
    if is_empty (failed_scanners runs) || not (any_success runs)
    then invalid
        (inconsistent_result (str "partial scan requires one success and one scanner failure"))
    else if not (all (λ name. contains (text_of error) name) (failed_scanners runs))
    then invalid partial_without_cause
    else valid tt

-- The match on the pipeline state.
unfoldable pub check_state : PipelineState → List ScannerRun → Option Str → Checked
check_state completed runs error = check_completed runs
check_state partial runs error = check_partial runs error
check_state failed runs error =
    if is_vacant (text_of error)
    then invalid (inconsistent_result (str "failed scan must carry an error"))
    else valid tt
check_state _ runs error = valid tt

unfoldable pub validate_each : List CanonicalFinding → Checked
validate_each [] = valid tt
validate_each (f ∷ fs) = validate_canonical_finding f >>= λ _. validate_each fs

unfoldable pub validate_scan_result : ScanResult → Checked
validate_scan_result result =
    if not (result.contract_version == contract_version)
    then invalid (unsupported_version result.contract_version)
    else do
      _ ← normalize_repository_url result.repository.repository_url
      _ ← validate_snapshot result.snapshot
      if not (str_eq result.repository.repository_url result.snapshot.repository_url)
            || not (str_eq result.repository.branch result.snapshot.branch)
          then invalid (inconsistent_result (str "repository target and snapshot disagree"))
          else do
            _ ← check_state result.pipeline_state result.scanner_runs result.error
            validate_each result.findings
