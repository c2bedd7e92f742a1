-- ===== src/Audit/Report.antt =====
-- The report of a canonical audit, backend/src/schemas/report.rs.
pub mod Order
pub mod Laws
pub mod State
use fire_crow.Prelude.{
  ℕ, Bool, true, false, not, ◌&&◌, ◌||◌, Option, none, some, List, [], ◌∷◌, ◌++◌, if◌then◌else◌,
  is_empty, map, length, any, all, ltb, leb, ◌==◌,
}
use fire_crow.Prelude.Fallible.{Result, ok, err}
use fire_crow.Text.{Str, str, str_eq}
use fire_crow.Text.Decimal.{ℤ, decimal}
use fire_crow.Order.{str_leb}
use fire_crow.Order.Sort.{sort_by}
use fire_crow.Audit.Schema.{
  Severity, critical, high, medium, low, info, unknown, CanonicalScannerStatus, CanonicalScannerRun,
  CoverageStatus, CanonicalAudit, CanonicalAuditFinding, FindingCorrelation, InvalidFinding,
}
use fire_crow.Audit.Path.{validate_repo_path}
use fire_crow.Audit.Runs.{join_comma, scanner_status}
use fire_crow.Audit.Identity.{canonical_audit_version}

abbrev pub report_schema_version : ℕ
report_schema_version = 1

pub data CoverageState : Type 0 where
  success_clean success_findings failed timeout cancelled no_files_analyzed : CoverageState

-- `CoverageState::coverage_known`
unfoldable pub state_known : CoverageState → Bool
state_known success_clean = true
state_known success_findings = true
state_known _ = false

pub record ReportIdentity : Type 0 where
  pub audit_id : Str
  pub execution_id : Str
  pub attempt_number : ℤ
  pub repository_url : Str
  pub repo_branch : Str
  pub repo_owner : Str
  pub repo_name : Str
  pub snapshot_commit : Option Str
  pub snapshot_file_count : ℕ
  pub snapshot_total_size : ℕ
  pub canonical_schema_version : ℕ
  pub report_version : ℕ

pub record ExecutionIdentity : Type 0 where
  pub execution_id : Str
  pub attempt_number : ℤ

pub record ReportCoverage : Type 0 where
  pub state : CoverageState
  pub status : CoverageStatus
  pub is_complete : Bool
  pub scanner_runs : List CanonicalScannerRun
  pub successful_scanners : List Str
  pub unsuccessful_scanners : List (Str × Str)
  pub limitations : List Str

pub record ReportSummary : Type 0 where
  pub headline : Str
  pub finding_count : ℕ
  pub findings_by_severity : List (Str × ℕ)
  pub findings_by_scanner : List (Str × ℕ)
  pub invalid_finding_count : ℕ
  pub duplicate_group_count : ℕ
  pub security_score : Option ℕ

pub record CanonicalAuditReport : Type 0 where
  pub report_version : ℕ
  pub identity : ReportIdentity
  pub coverage : ReportCoverage
  pub summary : ReportSummary
  pub findings : List CanonicalAuditFinding
  pub correlations : List FindingCorrelation
  pub invalid_findings : List InvalidFinding
  pub limitations : List Str
  pub disclaimers : List Str

-- `ReportError`: the version that was found, and the one that was expected.
pub data ReportError : Type 0 where
  unsupported_canonical_version : ℕ → ℕ → ReportError

unfoldable pub severity_rank : Severity → ℕ
severity_rank critical = 0
severity_rank high = 1
severity_rank medium = 2
severity_rank low = 3
severity_rank info = 4
severity_rank unknown = 5

unfoldable pub was_cancelled : CanonicalScannerRun → Bool
was_cancelled run = elim run.status [ CanonicalScannerStatus.cancelled ↦ true | _ ↦ false ]

unfoldable pub timed_out : CanonicalScannerRun → Bool
timed_out run = elim run.status [ CanonicalScannerStatus.timeout n ↦ true | _ ↦ false ]

unfoldable pub saw_no_files : CanonicalScannerRun → Bool
saw_no_files run = elim run.status [
  | CanonicalScannerStatus.no_files_analyzed reason ↦ true
  | _ ↦ false
]

-- The runs that did not cover the repository.
unfoldable pub uncovered : List CanonicalScannerRun → List CanonicalScannerRun
uncovered [] = []
uncovered (run ∷ runs) =
    let rest = uncovered runs in if run.coverage_known then rest else run ∷ rest

unfoldable pub derive_coverage_state : CanonicalAudit → CoverageState
unfolding was_cancelled timed_out saw_no_files uncovered
derive_coverage_state audit =
    let missed = uncovered audit.scanner_runs in
    if any was_cancelled audit.scanner_runs
    then cancelled
    else if any timed_out audit.scanner_runs
    then timeout
    else if audit.coverage.is_complete
    then if audit.summary.finding_count == 0 then success_clean else success_findings
    else if not (is_empty missed) && all saw_no_files missed
    then no_files_analyzed
    else failed

unfoldable pub headline : CanonicalAudit → CoverageState → Str
headline audit success_clean =
    str "All "
    ++ decimal (length audit.coverage.successful_scanners)
    ++ str " scanner(s) completed and reported no findings."
headline audit success_findings =
    decimal audit.summary.finding_count
    ++ str " finding(s) reported across "
    ++ decimal (length audit.coverage.successful_scanners)
    ++ str " scanner(s)."
headline audit cancelled = str "The audit was cancelled before coverage could be established."
headline audit timeout = str "At least one scanner exceeded its time limit."
headline audit no_files_analyzed =
    str "No files were analyzed, so coverage is unknown rather than clean."
headline audit failed =
    let names = map scanner_status audit.coverage.unsuccessful_scanners in
    if is_empty names
    then str "Coverage is incomplete; the result cannot be treated as clean."
    else str "Coverage is incomplete: " ++ join_comma names ++ str "."

unfoldable pub disclaimers : List Str
disclaimers =
    (str "This report presents a frozen canonical audit. Generating it ran no scanners, "
      ++ str "accessed no repository, and called no AI service.")
    ∷ (str "A missing or \"unknown\" value means the scanner did not report it; it is never "
        ++ str "inferred or defaulted here.")
    ∷ (str "Remediation text is guidance suggested by the scanner or platform; it is not a "
        ++ str "verified fact about the repository.")
    ∷ []

unfoldable pub report_identity : CanonicalAudit → ExecutionIdentity → ReportIdentity
report_identity audit execution = record {
  audit_id = audit.scan_id;
  execution_id = execution.execution_id;
  attempt_number = execution.attempt_number;
  repository_url = audit.repository_url;
  repo_branch = audit.repo_branch;
  repo_owner = audit.repo_owner;
  repo_name = audit.repo_name;
  snapshot_commit = audit.snapshot_commit;
  snapshot_file_count = audit.snapshot_file_count;
  snapshot_total_size = audit.snapshot_total_size;
  canonical_schema_version = audit.schema_version;
  report_version = report_schema_version;
}

-- By severity, then by id.
unfoldable pub finding_before : CanonicalAuditFinding → CanonicalAuditFinding → Bool
unfolding severity_rank
finding_before a b =
    let m = severity_rank a.severity in
    let n = severity_rank b.severity in if m == n then str_leb a.id b.id else ltb m n

-- A path that is refused is left out.
unfoldable pub conceal : InvalidFinding → InvalidFinding
conceal item = elim item.file [
  | none ↦ item
  | some file ↦ elim (validate_repo_path file) [
    | ok path ↦ item
    | err reason ↦ record item { file = none }
  ]
]

-- `dedup`: of equal neighbours the first one stays.
unfoldable pub dedup_texts : List Str → List Str
dedup_texts [] = []
dedup_texts (s ∷ ss) = s ∷ dedup_from_text s ss
  where
    dedup_from_text : Str → List Str → List Str
    dedup_from_text s [] = []
    dedup_from_text s (t ∷ ts) =
        let without = dedup_from_text s ts in
        let others = dedup_from_text t ts in if str_eq t s then without else t ∷ others

unfoldable pub run_order : CanonicalScannerRun → CanonicalScannerRun → Bool
run_order a b = str_leb a.scanner b.scanner

unfoldable pub correlation_before : FindingCorrelation → FindingCorrelation → Bool
correlation_before a b = str_leb a.correlation_id b.correlation_id

unfoldable pub invalid_order : InvalidFinding → InvalidFinding → Bool
invalid_order a b = str_leb a.id b.id

-- The report of an audit whose version is known.
unfoldable pub report_of : CanonicalAudit → ExecutionIdentity → CanonicalAuditReport
unfolding derive_coverage_state headline disclaimers report_identity finding_before conceal
    dedup_texts run_order correlation_before invalid_order
report_of audit execution =
    let state = derive_coverage_state audit in
    record {
      report_version = report_schema_version;
      identity = report_identity audit execution;
      coverage = record {
        state = state;
        status = audit.coverage.status;
        is_complete = audit.coverage.is_complete;
        scanner_runs = sort_by run_order audit.scanner_runs;
        successful_scanners = audit.coverage.successful_scanners;
        unsuccessful_scanners = audit.coverage.unsuccessful_scanners;
        limitations = audit.coverage.limitations;
      };
      summary = record {
        headline = headline audit state;
        finding_count = audit.summary.finding_count;
        findings_by_severity = audit.summary.findings_by_severity;
        findings_by_scanner = audit.summary.findings_by_scanner;
        invalid_finding_count = audit.summary.invalid_finding_count;
        duplicate_group_count = audit.summary.duplicate_group_count;
        security_score = audit.summary.security_score;
      };
      findings = sort_by finding_before audit.findings;
      correlations = sort_by correlation_before audit.correlations;
      invalid_findings = sort_by invalid_order (map conceal audit.invalid_findings);
      limitations = dedup_texts (sort_by str_leb audit.limitations);
      disclaimers = disclaimers;
    }

unfoldable pub build_report :
    CanonicalAudit → ExecutionIdentity → Result ReportError CanonicalAuditReport
unfolding report_of
build_report audit execution =
    if not (audit.schema_version == canonical_audit_version)
    then err (unsupported_canonical_version audit.schema_version canonical_audit_version)
    else ok (report_of audit execution)
