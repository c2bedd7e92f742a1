-- ===== src/Audit/Runs/Laws.antt =====
-- Coverage against the outcomes of the scanners.
use std.Logic.{↔_trans}
use mathlib.Core.List.Permᴰ
use fire_crow.Prelude.{
  ◌≡◌, ◌≤◌, refl, sym, ◌∙◌, ◌↔◌, Bool, true, false, List, [], ◌∷◌, is_empty, length, map, All,
  Bool-cases, inl, inr, arith,
}
use fire_crow.Json.{Value}
use fire_crow.Order.Sort.{sort_by-perm, is_empty-sort_by, All-perm}
use fire_crow.Audit.Schema.{
  CanonicalScannerRun, complete, absent, partial, is_known, CoverageStatus,
}
use fire_crow.Audit.Scanner.{ScannerResult, ScannerOutcome, analyzed, has_succeeded}
use fire_crow.Audit.Runs.{
  canonical_status, outcome_status, scanner_run, canonical_scanner_runs, successful,
  status_complete, aggregate_scan_results, coverage_status, canonical_coverage, run_before,
}

outcome_known :
    (entry : Value) (outcome : ScannerOutcome)
    → is_known (outcome_status entry outcome) ≡ has_succeeded outcome
unfolding outcome_status is_known has_succeeded
outcome_known entry (ScannerOutcome.success n) = ground arith
outcome_known entry (ScannerOutcome.failed reason) = ground arith
outcome_known entry (ScannerOutcome.timeout n) = refl
outcome_known entry ScannerOutcome.cancelled = refl

-- A run covers the repository exactly if its scanner succeeded.
is_known-canonical_status :
    (result : ScannerResult) → is_known (canonical_status result) ≡ analyzed result
unfolding canonical_status analyzed
is_known-canonical_status result = outcome_known result.execution_record result.outcome

length-successful : (runs : List CanonicalScannerRun) → length (successful runs) ≤ length runs
unfolding successful
length-successful [] = omega arith
length-successful (run ∷ runs) = ground (arith, length-successful runs)

abbrev pub Covers : CanonicalScannerRun → Type 0
Covers run = run.coverage_known ≡ true

abbrev Misses : CanonicalScannerRun → Type 0
Misses run = run.coverage_known ≡ false

All-successful :
    (runs : List CanonicalScannerRun) → length (successful runs) ≡ length runs → All Covers runs
unfolding successful
All-successful [] h = tt
All-successful (run ∷ runs) h = elim (Bool-cases run.coverage_known) [
  | inl e ↦ (e, All-successful runs (ground (arith, e)))
  | inr e ↦ absurd (ground (arith, e, length-successful runs))
]

successful-All :
    (runs : List CanonicalScannerRun) → All Covers runs → length (successful runs) ≡ length runs
unfolding successful
successful-All [] h = refl
successful-All (run ∷ runs) (e, h) = rw e (omega (arith, successful-All runs h))

All-missed : (runs : List CanonicalScannerRun) → is_empty (successful runs) ≡ true → All Misses runs
unfolding successful
All-missed [] h = tt
All-missed (run ∷ runs) h = elim (Bool-cases run.coverage_known) [
  | inl e ↦ absurd (ground (arith, e))
  | inr e ↦ (e, All-missed runs (ground (arith, e)))
]

missed-All : (runs : List CanonicalScannerRun) → All Misses runs → is_empty (successful runs) ≡ true
unfolding successful
missed-All [] h = refl
missed-All (run ∷ runs) (e, h) = rw e (missed-All runs h)

-- The scanner ran to its end and reported.
abbrev pub Succeeded : ScannerResult → Type 0
Succeeded result = analyzed result ≡ true

abbrev pub Unreported : ScannerResult → Type 0
Unreported result = analyzed result ≡ false

-- The runs of the results cover the repository, or miss it, as the results do.
scanner_runs-All :
    (b : Bool) (results : List ScannerResult)
    → All (λ result. analyzed result ≡ b) results
    → All (λ run. run.coverage_known ≡ b) (map scanner_run results)
unfolding scanner_run
scanner_runs-All b [] h = tt
scanner_runs-All b (result ∷ results) (e, h) =
    (is_known-canonical_status result ∙ e, scanner_runs-All b results h)

All-scanner_runs :
    (b : Bool) (results : List ScannerResult)
    → All (λ run. run.coverage_known ≡ b) (map scanner_run results)
    → All (λ result. analyzed result ≡ b) results
unfolding scanner_run
All-scanner_runs b [] h = tt
All-scanner_runs b (result ∷ results) (e, h) =
    (sym (is_known-canonical_status result) ∙ e, All-scanner_runs b results h)

pub canonical_scanner_runs-All :
    (b : Bool) (results : List ScannerResult)
    → All (λ run. run.coverage_known ≡ b) (canonical_scanner_runs results)
      ↔ All (λ result. analyzed result ≡ b) results
unfolding canonical_scanner_runs
canonical_scanner_runs-All b results =
    let p = sort_by-perm run_before (map scanner_run results) in
    (
      λ h. All-scanner_runs b results (All-perm (λ run. run.coverage_known ≡ b) p h),
      λ h. All-perm (λ run. run.coverage_known ≡ b) (Permᴰ.symm p) (scanner_runs-All b results h),
    )

coverage_status-complete_iff :
    (runs : List CanonicalScannerRun) → (coverage_status runs ≡ complete) ↔ All Covers runs
unfolding coverage_status
coverage_status-complete_iff runs = (
  λ h. All-successful runs (ground arith),
  λ h. let e = successful-All runs h in ground (arith, e),
)

length-is_empty {ℓ} : {A : Type ℓ} (xs : List A) → is_empty xs ≡ true → length xs ≡ 0
length-is_empty [] h = refl
length-is_empty (x ∷ xs) h = absurd (ground (arith, h))

coverage_status-absent_iff :
    (runs : List CanonicalScannerRun)
    → is_empty runs ≡ false
    → (coverage_status runs ≡ absent) ↔ All Misses runs
unfolding coverage_status
coverage_status-absent_iff [] f = absurd (ground (arith, f))
coverage_status-absent_iff (run ∷ runs) f = (
  λ h. All-missed (run ∷ runs) (ground arith),
  λ h.
      let e = missed-All (run ∷ runs) h in
      let n = length-is_empty (successful (run ∷ runs)) e in ground (arith, e, n),
)

is_empty-canonical_scanner_runs :
    (results : List ScannerResult) → is_empty (canonical_scanner_runs results) ≡ is_empty results
unfolding canonical_scanner_runs
is_empty-canonical_scanner_runs [] = is_empty-sort_by run_before []
is_empty-canonical_scanner_runs (result ∷ results) =
    is_empty-sort_by run_before (map scanner_run (result ∷ results))

status_complete_iff :
    (status : CoverageStatus) → (status_complete status ≡ true) ↔ (status ≡ complete)
status_complete_iff complete = (λ h. refl, λ h. refl)
status_complete_iff partial = (λ h. absurd (ground (arith, h)), λ h. ground (arith, h))
status_complete_iff absent = (λ h. absurd (ground (arith, h)), λ h. ground (arith, h))

-- Of results that are not empty, the coverage is complete, and flagged complete, exactly if every
-- scanner succeeded, and absent exactly if none did.
pub aggregate_scan_results-coverage :
    (results : List ScannerResult)
    → is_empty results ≡ false
    → let coverage = (aggregate_scan_results results).1 in
      ((coverage.status ≡ complete) ↔ All Succeeded results)
      × ((coverage.status ≡ absent) ↔ All Unreported results)
      × ((coverage.is_complete ≡ true) ↔ All Succeeded results)
unfolding aggregate_scan_results canonical_coverage
aggregate_scan_results-coverage results f =
    let runs = canonical_scanner_runs results in
    let nonempty = is_empty-canonical_scanner_runs results ∙ f in
    let known = canonical_scanner_runs-All true results in
    let missed = canonical_scanner_runs-All false results in
    let done = coverage_status-complete_iff runs in
    (
      ↔_trans done known,
      ↔_trans (coverage_status-absent_iff runs nonempty) missed,
      ↔_trans (status_complete_iff (coverage_status runs)) (↔_trans done known),
    )
