-- ===== src/Contract/Findings.antt =====
-- From raw scanner output to canonical findings, backend/src/schemas/scan_contract.rs.
pub mod Laws
pub mod Normalize
use fire_crow.Prelude.{
  ℕ, Bool, true, false, not, ◌&&◌, ◌||◌, Option, none, some, List, [], ◌∷◌, ◌++◌, if◌then◌else◌,
  is_empty,
}
use fire_crow.Text.{Str, str, str_eq, one_of, starts_with, contains}
use fire_crow.Text.Trim.{trim}
use fire_crow.Text.Decimal.{ℤ, pos, negsuc, show_int}
use fire_crow.Text.Replace.{replace}
use fire_crow.Contract.Types.{
  ScannerKind, gitleaks, osv, semgrep, other, kind_name, RawFinding, Evidence, CanonicalFinding,
  RepositorySnapshot, ContractError, ContractResult, Checked, valid, invalid, ◌>>=◌,
  invalid_raw_finding, missing_provenance, missing_evidence, unredacted_evidence,
}
use fire_crow.Contract.Target.{validate_snapshot}

-- `x <= 0`
unfoldable pub is_at_most_zero : ℤ → Bool
is_at_most_zero (pos ℕ.zero) = true
is_at_most_zero (pos (ℕ.suc n)) = false
is_at_most_zero (negsuc n) = true

-- `s.trim().is_empty()`
abbrev pub is_vacant : Str → Bool
is_vacant s = is_empty (trim s)

abbrev raw_error : RawFinding → Str → ContractError
raw_error raw reason = invalid_raw_finding (kind_name raw.scanner) reason

unfoldable pub raw_location_valid : RawFinding → Checked
raw_location_valid raw =
    let file = trim raw.file in
    if is_empty file || starts_with file (str "/") || contains file (str "..")
    then invalid (raw_error raw (str "file must be a repository-relative path"))
    else if is_at_most_zero raw.line
    then invalid (raw_error raw (str "line must be positive"))
    else if is_vacant raw.snippet
    then invalid (raw_error raw (str "snippet must be non-empty"))
    else valid tt

-- The key of a detection: its scanner, rule, file and line.
unfoldable pub detection_key : ScannerKind → Str → Str → ℤ → Str
detection_key scanner rule_id file line =
    kind_name scanner ++ str "|" ++ rule_id ++ str "|" ++ file ++ str "|" ++ show_int line

unfoldable pub canonical_finding_id : RawFinding → Str
canonical_finding_id raw = detection_key raw.scanner raw.rule_id raw.file raw.line

unfoldable pub scanner_severity : ScannerKind → Str → Str
scanner_severity gitleaks rule_id = str "high"
scanner_severity semgrep rule_id =
    if contains rule_id (str "critical") then str "critical" else str "medium"
scanner_severity osv rule_id = str "high"
scanner_severity other rule_id = str "medium"

unfoldable pub scanner_title : ScannerKind → Str → Str
scanner_title gitleaks rule_id = str "Exposed secret: " ++ rule_id
scanner_title osv rule_id = str "Vulnerable dependency: " ++ rule_id
scanner_title semgrep rule_id = str "Static analysis finding: " ++ rule_id
scanner_title other rule_id = str "Scanner finding: " ++ rule_id

unfoldable pub scanner_description : ScannerKind → Str → Str
scanner_description gitleaks rule_id = str "gitleaks rule " ++ rule_id
scanner_description osv rule_id = str "osv package " ++ rule_id
scanner_description semgrep rule_id = str "semgrep rule " ++ rule_id
scanner_description other rule_id = str "scanner rule " ++ rule_id

unfoldable pub scanner_cwe : ScannerKind → Str → Option Str
scanner_cwe gitleaks rule_id = some (str "CWE-798")
scanner_cwe osv rule_id = some (str "CWE-1104")
scanner_cwe semgrep rule_id = some (replace (str "CWE-" ++ rule_id) (str "CWE-CWE-") (str "CWE-"))
scanner_cwe other rule_id = none

unfoldable pub scanner_owasp : ScannerKind → Option Str
scanner_owasp gitleaks = some (str "A07:2021")
scanner_owasp osv = some (str "A06:2021")
scanner_owasp semgrep = some (str "A03:2021")
scanner_owasp other = none

-- The finding that `normalize_raw_finding` builds once its checks have passed.
unfoldable pub canonical_finding : RawFinding → RepositorySnapshot → Str → CanonicalFinding
canonical_finding raw snapshot scanner_version = record {
  id = canonical_finding_id raw;
  scanner = raw.scanner;
  severity = scanner_severity raw.scanner raw.rule_id;
  title = scanner_title raw.scanner raw.rule_id;
  description = scanner_description raw.scanner raw.rule_id;
  provenance = record {
    scanner = raw.scanner;
    scanner_version = scanner_version;
    snapshot = snapshot.tree_sha256;
    rule_id = raw.rule_id;
  };
  evidence = record {
    file_path = raw.file;
    line_number = raw.line;
    snippet = raw.snippet;
    redacted = false;
  };
  cwe_id = scanner_cwe raw.scanner raw.rule_id;
  owasp_category = scanner_owasp raw.scanner;
  cvss_score = none;
}

unfoldable pub normalize_raw_finding :
    RawFinding → RepositorySnapshot → Str → ContractResult CanonicalFinding
normalize_raw_finding raw snapshot scanner_version = do
  _ ← raw_location_valid raw
  _ ← validate_snapshot snapshot
  if is_vacant raw.rule_id
      then invalid (raw_error raw (str "rule_id must be non-empty"))
      else if is_vacant scanner_version
      then invalid (raw_error raw (str "scanner_version must be non-empty"))
      else valid (canonical_finding raw snapshot scanner_version)

-- The key of `dedupe_canonical_findings`.
abbrev pub finding_key : CanonicalFinding → Str
finding_key f =
    detection_key f.scanner f.provenance.rule_id f.evidence.file_path f.evidence.line_number

-- The filter with the keys that were seen.
unfoldable pub dedupe_from : List Str → List CanonicalFinding → List CanonicalFinding
dedupe_from seen [] = []
dedupe_from seen (f ∷ fs) =
    let again = dedupe_from seen fs in
    let first = dedupe_from (finding_key f ∷ seen) fs in
    if one_of seen (finding_key f) then again else f ∷ first

unfoldable pub dedupe_canonical_findings : List CanonicalFinding → List CanonicalFinding
dedupe_canonical_findings findings = dedupe_from [] findings

unfoldable pub validate_canonical_finding : CanonicalFinding → Checked
validate_canonical_finding f =
    if is_vacant f.id || is_vacant f.title || is_vacant f.description || is_vacant f.severity
    then invalid missing_evidence
    else if is_vacant f.provenance.rule_id
        || is_vacant f.provenance.snapshot
        || is_vacant f.provenance.scanner_version
    then invalid missing_provenance
    else if is_vacant f.evidence.file_path
        || is_at_most_zero f.evidence.line_number
        || is_vacant f.evidence.snippet
    then invalid missing_evidence
    else if not f.evidence.redacted
    then invalid unredacted_evidence
    else valid tt

unfoldable pub require_redacted_evidence : Evidence → Checked
require_redacted_evidence e =
    if is_vacant e.snippet
    then invalid missing_evidence
    else if not e.redacted
    then invalid unredacted_evidence
    else valid tt
