-- ===== src/Audit/Canonical.antt =====
-- `canonical_finding`, `correlate_findings`, `canonical_summary` and `canonical_audit` of
-- backend/src/orchestrator/canonical_audit.rs.
pub mod Counts
pub mod Laws
pub mod Safety
use fire_crow.Prelude.{
  ℕ, ◌+◌, ◌-◌, Bool, true, false, not, ◌&&◌, ◌||◌, Option, none, some, List, [], ◌∷◌, ◌++◌,
  if◌then◌else◌, is_empty, map, length, ltb, leb, ◌==◌,
}
use fire_crow.Prelude.Fallible.{Result, ok, err, ◌>>=◌, or_err}
use fire_crow.Text.{Str, str, str_eq, is_some}
use fire_crow.Json.{Value, as_u64, get}
use fire_crow.Order.Tree.{map_insert, map_of_onto, set_insert, total_count}
use fire_crow.Audit.Schema.{
  Finding, ConfidenceSource, measured, adapter_default, missing, CanonicalAuditFinding,
  CanonicalReference, FindingCorrelation, exact_canonical_identity, CanonicalProvenance,
  CanonicalCoverage, complete, partial, absent, coverage_name, CanonicalSummary, CanonicalAudit,
  CanonicalAuditError, missing_scan_id, missing_repository, missing_scanner_runs,
  inconsistent_score, missing_snapshot,
}
use fire_crow.Audit.Services.{Services, unwrap_or}
use fire_crow.Audit.Metadata.{Metadata, parse_metadata, sort_json, is_vacant}
use fire_crow.Audit.Path.{validate_snapshot_commit}
use fire_crow.Audit.Scanner.{ScannerResult}
use fire_crow.Audit.Runs.{canonical_scanner_runs, canonical_coverage, status_complete}
use fire_crow.Audit.Evidence.{canonical_references}
use fire_crow.Audit.Identity.{NormalizedFinding, canonical_audit_version}
use fire_crow.Audit.Normalize.{normalize_findings, group_onto}

-- `r.unwrap_or_default()`, on lists
abbrev pub or_empty {ℓ κ} : {E : Type ℓ} {A : Type κ} → Result E (List A) → List A
or_empty (ok xs) = xs
or_empty (err e) = []

unfoldable pub confidence_source : Finding → ConfidenceSource
confidence_source finding = elim finding.scanner_name [
  | none ↦ missing
  | some scanner ↦
      if str_eq scanner (str "gitleaks")
      then adapter_default
      else if is_some finding.confidence
      then measured
      else missing
]

unfoldable pub sorted_values : Metadata → Metadata → Metadata
sorted_values sorted [] = sorted
sorted_values sorted ((key, value) ∷ m) = sorted_values (map_insert key (sort_json value) sorted) m

unfoldable pub canonical_finding : Services → NormalizedFinding → CanonicalAuditFinding
unfolding confidence_source sorted_values
canonical_finding services n =
    let m = or_empty (parse_metadata services n.finding) in
    record {
      id = n.canonical_id;
      agent_source = n.finding.agent_source;
      title = n.finding.title;
      description = n.finding.description;
      severity = n.finding.severity;
      confidence = n.finding.confidence;
      confidence_source = confidence_source n.finding;
      cwe_id = n.finding.cwe_id;
      owasp_category = n.finding.owasp_category;
      remediation = n.finding.remediation;
      provenance = n.provenance;
      native_id = n.native_id;
      location = n.location;
      evidence = n.evidence_text;
      evidence_kind = n.evidence_kind;
      evidence_truncated = n.evidence_truncated;
      references = or_empty (canonical_references m);
      scanner_metadata = sorted_values [] m;
    }

-- `a.max(b)`
abbrev max : ℕ → ℕ → ℕ
max a b = if leb a b then b else a

-- The number of merges that the first finding of a group carries in its metadata.
unfoldable pub persisted_occurrences : List CanonicalAuditFinding → ℕ
persisted_occurrences [] = 0
persisted_occurrences (f ∷ fs) = elim (get f.scanner_metadata (str "duplicate_occurrences")) [
  | none ↦ 0
  | some v ↦ unwrap_or (as_u64 v) 0
]

-- The texts of the provenances of a group, as a set.
unfoldable pub provenance_texts : Services → List Str → List CanonicalAuditFinding → List Str
provenance_texts services set [] = set
provenance_texts services set (f ∷ fs) =
    provenance_texts services
      (set_insert (unwrap_or (services.print_provenance f.provenance) []) set) fs

unfoldable pub parse_provenances : Services → List Str → List CanonicalProvenance
parse_provenances services [] = []
parse_provenances services (s ∷ ss) =
    let rest = parse_provenances services ss in
    elim (services.parse_provenance s) [ none ↦ rest | some p ↦ p ∷ rest ]

-- The correlation of one group, if it stands for more than one finding.
unfoldable pub correlate_group :
    Services → Str → List CanonicalAuditFinding → List FindingCorrelation
unfolding persisted_occurrences provenance_texts parse_provenances
correlate_group services id group =
    let occurrences = max (max (length group) (persisted_occurrences group)) 1 in
    if ltb 1 occurrences || ltb 1 (length group)
    then record {
      correlation_id = id;
      canonical_id = id;
      basis = exact_canonical_identity;
      occurrences = occurrences;
      provenance = parse_provenances services (provenance_texts services [] group);
    }
      ∷ []
    else []

unfoldable pub correlate_groups :
    Services → List (Str × List CanonicalAuditFinding) → List FindingCorrelation
unfolding correlate_group
correlate_groups services [] = []
correlate_groups services ((id, group) ∷ groups) =
    correlate_group services id group ++ correlate_groups services groups

unfoldable pub correlate_findings : Services → List CanonicalAuditFinding → List FindingCorrelation
unfolding correlate_groups group_onto
correlate_findings services findings =
    correlate_groups services (group_onto (λ f. f.id) [] findings)

unfoldable pub canonical_summary :
    CanonicalCoverage → List (Str × ℕ) → List (Str × ℕ) → ℕ → ℕ → Option ℕ → CanonicalSummary
canonical_summary coverage by_scanner by_severity invalid_count duplicate_groups score = record {
  finding_count = total_count by_scanner;
  valid_finding_count = total_count by_scanner;
  invalid_finding_count = invalid_count;
  duplicate_group_count = duplicate_groups;
  findings_by_scanner = map_of_onto [] by_scanner;
  findings_by_severity = by_severity;
  security_score = if coverage.is_complete then score else none;
}

pub record CanonicalAuditRequest : Type 0 where
  pub scan_id : Str
  pub repository_url : Str
  pub repo_branch : Str
  pub repo_owner : Str
  pub repo_name : Str
  pub snapshot_commit : Option Str
  pub snapshot_file_count : ℕ
  pub snapshot_total_size : ℕ
  pub results : List ScannerResult
  pub findings : List Finding
  pub security_score : Option ℕ

-- The audit that is built once the checks have passed.
unfoldable pub build_audit : Services → CanonicalAuditRequest → Option Str → CanonicalAudit
unfolding canonical_finding correlate_findings canonical_summary
build_audit services request commit =
    let runs = canonical_scanner_runs request.results in
    let coverage = canonical_coverage runs in
    let normalized = normalize_findings services request.findings commit in
    let findings = map (canonical_finding services) normalized.valid in
    record {
      schema_version = canonical_audit_version;
      scan_id = request.scan_id;
      repository_url = request.repository_url;
      repo_branch = request.repo_branch;
      repo_owner = request.repo_owner;
      repo_name = request.repo_name;
      snapshot_commit = commit;
      snapshot_file_count = request.snapshot_file_count;
      snapshot_total_size = request.snapshot_total_size;
      scanner_runs = runs;
      coverage = coverage;
      findings = findings;
      correlations = correlate_findings services findings;
      invalid_findings = normalized.invalid;
      limitations = coverage.limitations;
      summary =
          canonical_summary coverage normalized.valid_count_by_scanner
            normalized.valid_count_by_severity (length normalized.invalid) normalized.correlations
            request.security_score;
    }

unfoldable pub canonical_audit :
    Services → CanonicalAuditRequest → Result CanonicalAuditError CanonicalAudit
unfolding build_audit
canonical_audit services request =
    if is_vacant request.scan_id
    then err missing_scan_id
    else if is_vacant request.repository_url
    then err missing_repository
    else if is_empty request.results
    then err missing_scanner_runs
    else do
      commit ← or_err (validate_snapshot_commit request.snapshot_commit) missing_snapshot
      let coverage = canonical_coverage (canonical_scanner_runs request.results)
      if not (status_complete coverage.status) && is_some request.security_score
          then err (inconsistent_score request.security_score (coverage_name coverage.status))
          else ok (build_audit services request commit)
