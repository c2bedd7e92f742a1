-- ===== src/Audit/Runs.antt =====
-- The scanners' runs and their coverage: `canonical_status`, `canonical_scanner_runs`,
-- `canonical_coverage` and `aggregate_scan_results` of backend/src/orchestrator/canonical_audit.rs.
pub mod Laws
use fire_crow.Prelude.{
  ℕ, Bool, true, false, not, ◌&&◌, ◌||◌, Option, none, some, List, [], ◌∷◌, ◌++◌, if◌then◌else◌,
  is_empty, length, map, ◌==◌,
}
use fire_crow.Text.{Str, str, str_eq}
use fire_crow.Text.Decimal.{decimal}
use fire_crow.Json.{Value, as_object, as_str, as_u64, get}
use fire_crow.Order.{str_leb}
use fire_crow.Order.Sort.{sort_by}
use fire_crow.Order.Tree.{map_insert, set_insert}
use fire_crow.Audit.Schema.{
  Finding, CanonicalScannerStatus, success_clean, success_findings, failed, timeout, cancelled,
  no_files_analyzed, status_name, is_known, count_of, CanonicalScannerRun, CanonicalCoverage,
  CoverageStatus, complete, partial, absent,
}
use fire_crow.Audit.Scanner.{ScannerOutcome, ScannerResult, analyzed}
use fire_crow.Audit.Services.{unwrap_or}

-- `value.get(key)`, none of a value that is no object.
unfoldable pub value_get : Value → Str → Option Value
value_get v key = elim (as_object v) [ none ↦ none | some m ↦ get m key ]

-- `record.get(key).and_then(|value| value.as_str()).unwrap_or("")`
unfoldable pub record_text : Value → Str → Str
unfolding value_get
record_text v key = elim (value_get v key) [ none ↦ [] | some w ↦ unwrap_or (as_str w) [] ]

unfoldable pub outcome_status : Value → ScannerOutcome → CanonicalScannerStatus
unfolding record_text
outcome_status entry (ScannerOutcome.success n) =
    if n == 0 then success_clean else success_findings n
outcome_status entry (ScannerOutcome.failed reason) =
    if str_eq (record_text entry (str "detail")) (str "no_files_analyzed")
    then no_files_analyzed reason
    else CanonicalScannerStatus.failed reason
outcome_status entry (ScannerOutcome.timeout n) = CanonicalScannerStatus.timeout n
outcome_status entry ScannerOutcome.cancelled = CanonicalScannerStatus.cancelled

unfoldable pub canonical_status : ScannerResult → CanonicalScannerStatus
unfolding outcome_status
canonical_status result = outcome_status result.execution_record result.outcome

-- The limitation of a run that did not cover the repository.
unfoldable pub coverage_limitation : Str → CanonicalScannerStatus → List Str
coverage_limitation scanner status =
    if is_known status
    then []
    else (str "scanner "
        ++ scanner
        ++ str " did not analyze the repository ("
        ++ status_name status
        ++ str ")")
      ∷ []

-- The limitation of a semgrep run that left detections out.
unfoldable pub rejected_limitation : ScannerResult → List Str
unfolding value_get
rejected_limitation result =
    if str_eq result.scanner (str "semgrep")
    then elim (value_get result.execution_record (str "rejected_count")) [
      | none ↦ []
      | some v ↦ elim (as_u64 v) [
        | none ↦ []
        | some ℕ.zero ↦ []
        | some (ℕ.suc n) ↦
            (str "scanner semgrep excluded "
              ++ decimal (ℕ.suc n)
              ++ str " detections with invalid locations")
            ∷ []
      ]
    ]
    else []

unfoldable pub status_detail : CanonicalScannerStatus → Option Str
status_detail (CanonicalScannerStatus.failed reason) = some reason
status_detail (no_files_analyzed reason) = some reason
status_detail (CanonicalScannerStatus.timeout n) =
    some (str "timeout after " ++ decimal n ++ str "s")
status_detail CanonicalScannerStatus.cancelled = some (str "cancelled")
status_detail _ = none

unfoldable pub scanner_run : ScannerResult → CanonicalScannerRun
unfolding coverage_limitation rejected_limitation status_detail
scanner_run result =
    let status = canonical_status result in
    record {
      scanner = result.scanner;
      version = result.version;
      parser = record_text result.execution_record (str "parser");
      mode = record_text result.execution_record (str "mode");
      image = record_text result.execution_record (str "image");
      status = status;
      finding_count = count_of status;
      coverage_known = is_known status;
      detail = status_detail status;
      limitations = coverage_limitation result.scanner status ++ rejected_limitation result;
    }

-- The order of runs by scanner.
unfoldable pub run_before : CanonicalScannerRun → CanonicalScannerRun → Bool
run_before a b = str_leb a.scanner b.scanner

unfoldable pub canonical_scanner_runs : List ScannerResult → List CanonicalScannerRun
unfolding scanner_run run_before
canonical_scanner_runs results = sort_by run_before (map scanner_run results)

-- What the loop of `canonical_coverage` collects.
unfoldable pub successful : List CanonicalScannerRun → List Str
successful [] = []
successful (run ∷ runs) =
    let rest = successful runs in if run.coverage_known then run.scanner ∷ rest else rest

unfoldable pub unsuccessful : List (Str × Str) → List CanonicalScannerRun → List (Str × Str)
unsuccessful m [] = m
unsuccessful m (run ∷ runs) =
    let skipped = unsuccessful m runs in
    let noted = unsuccessful (map_insert run.scanner (status_name run.status) m) runs in
    if run.coverage_known then skipped else noted

unfoldable pub insert_all : List Str → List Str → List Str
insert_all [] set = set
insert_all (s ∷ ss) set = insert_all ss (set_insert s set)

unfoldable pub run_limitations : List Str → List CanonicalScannerRun → List Str
unfolding insert_all
run_limitations set [] = set
run_limitations set (run ∷ runs) = run_limitations (insert_all run.limitations set) runs

unfoldable pub coverage_status : List CanonicalScannerRun → CoverageStatus
unfolding successful
coverage_status runs =
    if length (successful runs) == length runs
    then complete
    else if is_empty (successful runs)
    then absent
    else partial

abbrev pub status_complete : CoverageStatus → Bool
status_complete complete = true
status_complete partial = false
status_complete absent = false

unfoldable pub canonical_coverage : List CanonicalScannerRun → CanonicalCoverage
unfolding coverage_status unsuccessful run_limitations
canonical_coverage runs = record {
  status = coverage_status runs;
  is_complete = status_complete (coverage_status runs);
  successful_scanners = sort_by str_leb (successful runs);
  unsuccessful_scanners = unsuccessful [] runs;
  limitations = run_limitations [] runs;
}

-- The findings of the results that are usable.
unfoldable pub usable_findings : List ScannerResult → List Finding
unfolding analyzed
usable_findings [] = []
usable_findings (result ∷ results) =
    let rest = usable_findings results in if analyzed result then result.findings ++ rest else rest

-- `parts.join(", ")`
unfoldable pub join_comma : List Str → Str
join_comma [] = []
join_comma (s ∷ []) = s
join_comma (s ∷ t ∷ ss) = s ++ str ", " ++ join_comma (t ∷ ss)

-- A scanner and its status, as `{scanner} ({status})`.
unfoldable pub scanner_status : Str × Str → Str
scanner_status (scanner, status) = scanner ++ str " (" ++ status ++ str ")"

unfoldable pub coverage_detail : CanonicalCoverage → Option Str
unfolding join_comma scanner_status
coverage_detail coverage = elim coverage.status [
  | complete ↦ none
  | absent ↦ none
  | partial ↦
      if coverage.is_complete
      then none
      else some (
          str "partial coverage: "
          ++ join_comma (map scanner_status coverage.unsuccessful_scanners))
]

unfoldable pub aggregate_scan_results :
    List ScannerResult → List Finding × CanonicalCoverage × Option Str
unfolding canonical_coverage coverage_detail canonical_scanner_runs usable_findings
aggregate_scan_results results =
    let coverage = canonical_coverage (canonical_scanner_runs results) in
    (usable_findings results, coverage, coverage_detail coverage)
