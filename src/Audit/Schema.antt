-- ===== src/Audit/Schema.antt =====
-- The documents of the canonical audit, backend/src/schemas/canonical_audit.rs, with `Finding` of
-- backend/src/schemas/audit_state.rs and `Severity` of backend/src/models/user.rs.
use fire_crow.Prelude.{ℕ, Bool, true, false, Option, none, some, List}
use fire_crow.Text.{Str, str}
use fire_crow.Text.Decimal.{ℤ}
use fire_crow.Json.{Value}

pub data Severity : Type 0 where
  critical high medium low info unknown : Severity

-- `Severity::as_str`
unfoldable pub severity_name : Severity → Str
severity_name critical = str "critical"
severity_name high = str "high"
severity_name medium = str "medium"
severity_name low = str "low"
severity_name info = str "info"
severity_name unknown = str "unknown"

-- A score is the bits of its `f64`.
pub record Finding : Type 0 where
  pub id : Str
  pub agent_source : Str
  pub title : Str
  pub description : Str
  pub severity : Severity
  pub cvss_vector : Option Str
  pub cvss_score : Option ℕ
  pub evidence : Option Str
  pub remediation : Option Str
  pub cwe_id : Option Str
  pub owasp_category : Option Str
  pub confidence : Option Str
  pub scanner_name : Option Str
  pub scanner_mode : Option Str
  pub file_path : Option Str
  pub line_number : Option ℤ
  pub route : Option Str
  pub metadata_json : Option Str

pub data CanonicalScannerStatus : Type 0 where
  success_clean : CanonicalScannerStatus
  success_findings : ℕ → CanonicalScannerStatus
  failed : Str → CanonicalScannerStatus
  timeout : ℕ → CanonicalScannerStatus
  cancelled : CanonicalScannerStatus
  no_files_analyzed : Str → CanonicalScannerStatus

-- `CanonicalScannerStatus::as_str`
unfoldable pub status_name : CanonicalScannerStatus → Str
status_name success_clean = str "success_clean"
status_name (success_findings n) = str "success_findings"
status_name (failed reason) = str "failed"
status_name (timeout n) = str "timeout"
status_name cancelled = str "cancelled"
status_name (no_files_analyzed reason) = str "no_files_analyzed"

-- `CanonicalScannerStatus::coverage_known`
unfoldable pub is_known : CanonicalScannerStatus → Bool
is_known success_clean = true
is_known (success_findings n) = true
is_known _ = false

-- `CanonicalScannerStatus::finding_count`
unfoldable pub count_of : CanonicalScannerStatus → Option ℕ
count_of success_clean = some 0
count_of (success_findings n) = some n
count_of _ = none

pub data CoverageStatus : Type 0 where
  complete partial absent : CoverageStatus

-- `CoverageStatus::as_str`
unfoldable pub coverage_name : CoverageStatus → Str
coverage_name complete = str "complete"
coverage_name partial = str "partial"
coverage_name absent = str "absent"

pub record CanonicalProvenance : Type 0 where
  pub scanner : Str
  pub scanner_version : Str
  pub parser : Str
  pub scanner_image : Str
  pub rule_id : Str
  pub native_fingerprint : Str
  pub snapshot_commit : Option Str

pub record CanonicalLocation : Type 0 where
  pub file : Str
  pub line : ℤ
  pub start_column : Option ℤ
  pub end_line : Option ℤ
  pub end_column : Option ℤ

pub record CanonicalReference : Type 0 where
  pub reference_type : Str
  pub url : Str

pub data ConfidenceSource : Type 0 where
  measured adapter_default missing : ConfidenceSource

pub data EvidenceKind : Type 0 where
  secret dependency source unclassified : EvidenceKind

pub record CanonicalAuditFinding : Type 0 where
  pub id : Str
  pub agent_source : Str
  pub title : Str
  pub description : Str
  pub severity : Severity
  pub confidence : Option Str
  pub confidence_source : ConfidenceSource
  pub cwe_id : Option Str
  pub owasp_category : Option Str
  pub remediation : Option Str
  pub provenance : CanonicalProvenance
  pub native_id : Str
  pub location : CanonicalLocation
  pub evidence : Str
  pub evidence_kind : EvidenceKind
  pub evidence_truncated : Bool
  pub references : List CanonicalReference
  pub scanner_metadata : List (Str × Value)

pub data CorrelationBasis : Type 0 where
  exact_canonical_identity : CorrelationBasis

pub record FindingCorrelation : Type 0 where
  pub correlation_id : Str
  pub canonical_id : Str
  pub basis : CorrelationBasis
  pub occurrences : ℕ
  pub provenance : List CanonicalProvenance

pub record InvalidFinding : Type 0 where
  pub id : Str
  pub scanner : Option Str
  pub file : Option Str
  pub reason : Str
  pub evidence_chars : Option ℕ

pub record CanonicalScannerRun : Type 0 where
  pub scanner : Str
  pub version : Str
  pub parser : Str
  pub mode : Str
  pub image : Str
  pub status : CanonicalScannerStatus
  pub finding_count : Option ℕ
  pub coverage_known : Bool
  pub detail : Option Str
  pub limitations : List Str

pub record CanonicalCoverage : Type 0 where
  pub status : CoverageStatus
  pub is_complete : Bool
  pub successful_scanners : List Str
  pub unsuccessful_scanners : List (Str × Str)
  pub limitations : List Str

pub record CanonicalSummary : Type 0 where
  pub finding_count : ℕ
  pub valid_finding_count : ℕ
  pub invalid_finding_count : ℕ
  pub duplicate_group_count : ℕ
  pub findings_by_scanner : List (Str × ℕ)
  pub findings_by_severity : List (Str × ℕ)
  pub security_score : Option ℕ

pub record CanonicalAudit : Type 0 where
  pub schema_version : ℕ
  pub scan_id : Str
  pub repository_url : Str
  pub repo_branch : Str
  pub repo_owner : Str
  pub repo_name : Str
  pub snapshot_commit : Option Str
  pub snapshot_file_count : ℕ
  pub snapshot_total_size : ℕ
  pub scanner_runs : List CanonicalScannerRun
  pub coverage : CanonicalCoverage
  pub findings : List CanonicalAuditFinding
  pub correlations : List FindingCorrelation
  pub invalid_findings : List InvalidFinding
  pub limitations : List Str
  pub summary : CanonicalSummary

pub data CanonicalAuditError : Type 0 where
  missing_scan_id missing_repository missing_scanner_runs : CanonicalAuditError
  inconsistent_score : Option ℕ → Str → CanonicalAuditError
  missing_snapshot : CanonicalAuditError
