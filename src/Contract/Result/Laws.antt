-- ===== src/Contract/Result/Laws.antt =====
-- About `validate_scan_result` of backend/src/schemas/scan_contract.rs.
use fire_crow.Prelude.{◌≡◌, ◌≢◌, ◌⊎◌, true, false, Option, List, [], ◌∷◌, All}
use fire_crow.Text.{Str, contains}
use fire_crow.Contract.State.{PipelineState, completed, partial, failed}
use fire_crow.Contract.Types.{
  succeeded, errored, timed_out, ScannerRun, kind_name, ScanResult, valid,
}
use fire_crow.Contract.Target.{validate_snapshot}
use fire_crow.Contract.Findings.{is_vacant, validate_canonical_finding}
use fire_crow.Contract.Result.{contract_version, text_of}

-- A run that left its coverage unknown.
abbrev pub HasFailed : ScannerRun → Type 0
HasFailed run = (run.status ≡ errored) ⊎ (run.status ≡ timed_out)

abbrev pub SomeRun : (ScannerRun → Type 0) → List ScannerRun → Type 0
SomeRun P [] = ⊥
SomeRun P (run ∷ runs) = P run ⊎ SomeRun P runs

-- What the runs and the error say, by the state of the pipeline.
abbrev pub Agrees : PipelineState → List ScannerRun → Option Str → Type 0
Agrees completed runs error = (runs ≢ []) × All (λ run. run.status ≡ succeeded) runs
Agrees partial runs error =
    SomeRun (λ run. run.status ≡ succeeded) runs
    × SomeRun HasFailed runs
    × All (λ run. HasFailed run → contains (text_of error) (kind_name run.scanner) ≡ true) runs
Agrees failed runs error = is_vacant (text_of error) ≡ false
Agrees _ runs error = Unit

-- What a scan result must be like, said without the checks' order.
pub record IsConsistent (result : ScanResult) : Type 0 where
  pub current : result.contract_version ≡ contract_version
  pub same_url : result.repository.repository_url ≡ result.snapshot.repository_url
  pub same_branch : result.repository.branch ≡ result.snapshot.branch
  pub sound_snapshot : validate_snapshot result.snapshot ≡ valid tt
  pub agrees : Agrees result.pipeline_state result.scanner_runs result.error
  pub sound_findings : All (λ f. validate_canonical_finding f ≡ valid tt) result.findings
