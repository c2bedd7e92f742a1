-- ===== src/Audit/Tests.antt =====
-- Concrete scans for the canonical audit, its report and its narrative.
use mathlib.Core.List.{Permᴰ}
use fire_crow.Prelude.{
  ℕ, ◌≡◌, refl, leb, ◌||◌, ◌↔◌, true, false, Option, none, some, List, [], ◌∷◌, ◌++◌, All, map, all,
  if◌then◌else◌, returns, panics,
}
use fire_crow.Prelude.Fallible.{Result, ok, err}
use fire_crow.Text.{Str, str, str_eq, contains, starts_with}
use fire_crow.Text.Trim.{trim}
use fire_crow.Text.Equality.{In}
use fire_crow.Text.Decimal.{ℤ, pos}
use fire_crow.Json.{Value, Entries, null, string, object, entry, end}
use fire_crow.Order.Sort.{IsSortedBy}
use fire_crow.Order.Tree.Laws.{IsAscending}
use fire_crow.Audit.Schema.{
  Finding, high, CanonicalAudit, complete, absent, CanonicalProvenance, secret,
}
use fire_crow.Audit.Services.{Services}
use fire_crow.Audit.Metadata.{metadata_strings, is_vacant}
use fire_crow.Audit.Path.{validate_repo_path, validate_snapshot_commit}
use fire_crow.Audit.Path.Laws.{IsRepoPath, validate_repo_path-IsRepoPath}
use fire_crow.Audit.Scanner.{ScannerResult, ScannerOutcome}
use fire_crow.Audit.Runs.{aggregate_scan_results}
use fire_crow.Audit.Runs.Laws.{Succeeded, Unreported, aggregate_scan_results-coverage}
use fire_crow.Audit.Identity.{NormalizedFinding, normalize_finding, canonical_identity}
use fire_crow.Audit.Identity.Laws.{normalize_finding-canonical_identity}
use fire_crow.Audit.Identity.Safety.{IsSafe, normalize_finding-IsSafe}
use fire_crow.Audit.Normalize.{normalize_findings, id_of}
use fire_crow.Audit.Normalize.Laws.{Yields, normalize_findings-ids, normalize_findings-perm}
use fire_crow.Audit.Canonical.{CanonicalAuditRequest, build_audit, canonical_audit}
use fire_crow.Audit.Canonical.Laws.{
  HasCounts, HasIds, canonical_audit-ok_iff, canonical_audit-score, canonical_audit-counts,
  canonical_audit-ids,
}
use fire_crow.Audit.Persist.{normalize_findings_for_persist}
use fire_crow.Audit.Persist.Laws.{normalize_findings_for_persist-normalize_findings}
use fire_crow.Audit.Report.{
  ExecutionIdentity, CanonicalAuditReport, build_report, report_of, finding_before,
}
use fire_crow.Audit.Report.Order.{IsOrdered}
use fire_crow.Audit.Report.Laws.{build_report-findings}
use fire_crow.Audit.Report.State.{IsTruthful, canonical_audit-build_report}
use fire_crow.Audit.Narrative.Prose.{lower_byte, is_token_byte, find_location, prose_identifiers}
use fire_crow.Audit.Narrative.Types.{ReportNarrative, Casing}
use fire_crow.Audit.Narrative.{ExplainedReport, explain_report}

-- The names that an audit computes through.
unfoldable audit_runs : ℕ
unfolding fire_crow.Text.str fire_crow.Text.str_eq fire_crow.Text.one_of fire_crow.Text.strip_prefix
    fire_crow.Text.starts_with fire_crow.Text.ends_with fire_crow.Text.contains
    fire_crow.Text.has_byte fire_crow.Text.split_pieces fire_crow.Text.split fire_crow.Text.before
    fire_crow.Text.split_once fire_crow.Text.rsplit_once fire_crow.Text.join
    fire_crow.Text.trim_end_matches fire_crow.Text.is_digit fire_crow.Text.to_hex_digit
    fire_crow.Text.Control.has_control fire_crow.Text.Control.char_count
    fire_crow.Text.Decimal.digits_onto fire_crow.Text.Decimal.decimal
    fire_crow.Text.Decimal.show_int fire_crow.Text.Replace.replace fire_crow.Text.Trim.trim_start
    fire_crow.Text.Trim.trim_end fire_crow.Text.Trim.trim fire_crow.Text.Trim.has_whitespace
    fire_crow.Text.Utf8.is_utf8 fire_crow.Text.Utf8.from_utf8_lossy
    fire_crow.Text.Words.before_blank fire_crow.Text.Words.first_word fire_crow.Text.Words.continues
    fire_crow.Text.Words.chars_from fire_crow.Text.Words.chars fire_crow.Text.Words.find_text
    fire_crow.Text.Words.begins_char fire_crow.Text.Words.slice fire_crow.Text.Words.blank_out
    fire_crow.Text.Words.filled fire_crow.Text.Words.words fire_crow.Order.str_leb
    fire_crow.Order.Sort.insert_by fire_crow.Order.Sort.sort_by fire_crow.Order.Tree.set_insert
    fire_crow.Order.Tree.set_of fire_crow.Order.Tree.map_insert fire_crow.Order.Tree.map_of_onto
    fire_crow.Order.Tree.map_push fire_crow.Order.Tree.map_count fire_crow.Json.get
    fire_crow.Json.as_i64 fire_crow.Json.json_int fire_crow.Audit.Canonical.confidence_source
    fire_crow.Audit.Canonical.sorted_values fire_crow.Audit.Canonical.canonical_finding
    fire_crow.Audit.Canonical.persisted_occurrences fire_crow.Audit.Canonical.provenance_texts
    fire_crow.Audit.Canonical.parse_provenances fire_crow.Audit.Canonical.correlate_group
    fire_crow.Audit.Canonical.correlate_groups fire_crow.Audit.Canonical.correlate_findings
    fire_crow.Audit.Canonical.canonical_summary fire_crow.Audit.Canonical.build_audit
    fire_crow.Audit.Canonical.canonical_audit fire_crow.Audit.Evidence.is_redacted
    fire_crow.Audit.Evidence.check_evidence fire_crow.Audit.Evidence.check_text
    fire_crow.Audit.Evidence.reference_text fire_crow.Audit.Evidence.parse_reference
    fire_crow.Audit.Evidence.parse_references fire_crow.Audit.Evidence.reference_before
    fire_crow.Audit.Evidence.dedup_after fire_crow.Audit.Evidence.dedup
    fire_crow.Audit.Evidence.canonical_references fire_crow.Audit.Identity.is_known_scanner
    fire_crow.Audit.Identity.insert_keys fire_crow.Audit.Identity.identity_payload
    fire_crow.Audit.Identity.canonical_finding_id fire_crow.Audit.Identity.named_scanner
    fire_crow.Audit.Identity.canonical_identity fire_crow.Audit.Identity.scanner_of
    fire_crow.Audit.Identity.check_remediation fire_crow.Audit.Identity.kind_of
    fire_crow.Audit.Identity.evidence_of fire_crow.Audit.Identity.check_texts
    fire_crow.Audit.Identity.normalize_finding fire_crow.Audit.Location.int_ltb
    fire_crow.Audit.Location.int_eq fire_crow.Audit.Location.int_of
    fire_crow.Audit.Location.positive_line fire_crow.Audit.Location.is_negative
    fire_crow.Audit.Location.columns_precede fire_crow.Audit.Location.check_range
    fire_crow.Audit.Location.finding_location fire_crow.Audit.Location.required_text
    fire_crow.Audit.Location.finding_provenance fire_crow.Audit.Metadata.parse_metadata
    fire_crow.Audit.Metadata.rule_of fire_crow.Audit.Metadata.native_rule_id
    fire_crow.Audit.Metadata.native_fingerprint fire_crow.Audit.Metadata.entries_of
    fire_crow.Audit.Metadata.sort_json fire_crow.Audit.Metadata.metadata_strings
    fire_crow.Audit.Metadata.check_metadata_size fire_crow.Audit.Narrative.severity_of
    fire_crow.Audit.Narrative.check_severity fire_crow.Audit.Narrative.check_explanations
    fire_crow.Audit.Narrative.check_guidance fire_crow.Audit.Narrative.check_limitation
    fire_crow.Audit.Narrative.check_shape fire_crow.Audit.Narrative.judge
    fire_crow.Audit.Narrative.validate_narrative fire_crow.Audit.Narrative.explain_report
    fire_crow.Audit.Narrative.Prose.lower_byte fire_crow.Audit.Narrative.Prose.equal_ignoring_case
    fire_crow.Audit.Narrative.Prose.first_contained fire_crow.Audit.Narrative.Prose.contains_any
    fire_crow.Audit.Narrative.Prose.inner_byte fire_crow.Audit.Narrative.Prose.leading
    fire_crow.Audit.Narrative.Prose.is_name_char fire_crow.Audit.Narrative.Prose.invented_package
    fire_crow.Audit.Narrative.Prose.invented_line fire_crow.Audit.Narrative.Prose.find_location
    fire_crow.Audit.Narrative.Prose.insert_option fire_crow.Audit.Narrative.Prose.insert_references
    fire_crow.Audit.Narrative.Prose.identifiers_onto
    fire_crow.Audit.Narrative.Prose.canonical_identifiers
    fire_crow.Audit.Narrative.Prose.is_token_byte
    fire_crow.Audit.Narrative.Prose.looks_like_identifier
    fire_crow.Audit.Narrative.Prose.tokens_from fire_crow.Audit.Narrative.Prose.prose_identifiers
    fire_crow.Audit.Narrative.Prose.prose_of fire_crow.Audit.Narrative.Prose.check_location
    fire_crow.Audit.Narrative.Prose.found_something fire_crow.Audit.Narrative.Prose.check_coverage
    fire_crow.Audit.Narrative.Prose.check_prose fire_crow.Audit.Narrative.Prose.check_fact
    fire_crow.Audit.Narrative.Prose.join_space fire_crow.Audit.Narrative.Prose.check_scanner
    fire_crow.Audit.Narrative.Prose.check_confidence fire_crow.Audit.Narrative.Prose.validate_prose
    fire_crow.Audit.Normalize.refused fire_crow.Audit.Normalize.sift
    fire_crow.Audit.Normalize.by_canonical_id fire_crow.Audit.Normalize.group_onto
    fire_crow.Audit.Normalize.record_merge fire_crow.Audit.Normalize.by_storage_id
    fire_crow.Audit.Normalize.merged fire_crow.Audit.Normalize.representatives
    fire_crow.Audit.Normalize.duplicate_groups fire_crow.Audit.Normalize.count_onto
    fire_crow.Audit.Normalize.invalid_key fire_crow.Audit.Normalize.key_eq
    fire_crow.Audit.Normalize.invalid_before fire_crow.Audit.Normalize.invalid_id
    fire_crow.Audit.Normalize.next_occurrence fire_crow.Audit.Normalize.identify
    fire_crow.Audit.Normalize.quarantine fire_crow.Audit.Normalize.id_of
    fire_crow.Audit.Normalize.deduplicate fire_crow.Audit.Normalize.normalize_findings
    fire_crow.Audit.Path.validate_repo_path fire_crow.Audit.Path.is_lower_hex_digit
    fire_crow.Audit.Path.validate_snapshot_commit fire_crow.Audit.Persist.unnumbered
    fire_crow.Audit.Persist.persist_sift fire_crow.Audit.Persist.by_identity
    fire_crow.Audit.Persist.group_identities fire_crow.Audit.Persist.by_row
    fire_crow.Audit.Persist.record_occurrences fire_crow.Audit.Persist.kept_row
    fire_crow.Audit.Persist.kept_rows fire_crow.Audit.Persist.shared_groups
    fire_crow.Audit.Persist.refusal_key fire_crow.Audit.Persist.refusal_before
    fire_crow.Audit.Persist.is_last_key fire_crow.Audit.Persist.refusal_id
    fire_crow.Audit.Persist.number_refusals fire_crow.Audit.Persist.normalize_findings_for_persist
    fire_crow.Audit.Report.state_known fire_crow.Audit.Report.severity_rank
    fire_crow.Audit.Report.was_cancelled fire_crow.Audit.Report.timed_out
    fire_crow.Audit.Report.saw_no_files fire_crow.Audit.Report.uncovered
    fire_crow.Audit.Report.derive_coverage_state fire_crow.Audit.Report.headline
    fire_crow.Audit.Report.disclaimers fire_crow.Audit.Report.report_identity
    fire_crow.Audit.Report.finding_before fire_crow.Audit.Report.conceal
    fire_crow.Audit.Report.dedup_texts fire_crow.Audit.Report.run_order
    fire_crow.Audit.Report.correlation_before fire_crow.Audit.Report.invalid_order
    fire_crow.Audit.Report.report_of fire_crow.Audit.Report.build_report
    fire_crow.Audit.Runs.value_get fire_crow.Audit.Runs.record_text
    fire_crow.Audit.Runs.outcome_status fire_crow.Audit.Runs.canonical_status
    fire_crow.Audit.Runs.coverage_limitation fire_crow.Audit.Runs.rejected_limitation
    fire_crow.Audit.Runs.status_detail fire_crow.Audit.Runs.scanner_run
    fire_crow.Audit.Runs.run_before fire_crow.Audit.Runs.canonical_scanner_runs
    fire_crow.Audit.Runs.successful fire_crow.Audit.Runs.unsuccessful
    fire_crow.Audit.Runs.insert_all fire_crow.Audit.Runs.run_limitations
    fire_crow.Audit.Runs.coverage_status fire_crow.Audit.Runs.canonical_coverage
    fire_crow.Audit.Runs.usable_findings fire_crow.Audit.Runs.join_comma
    fire_crow.Audit.Runs.scanner_status fire_crow.Audit.Runs.coverage_detail
    fire_crow.Audit.Runs.aggregate_scan_results fire_crow.Audit.Scanner.has_succeeded
    fire_crow.Audit.Scanner.analyzed fire_crow.Audit.Schema.severity_name
    fire_crow.Audit.Schema.status_name fire_crow.Audit.Schema.is_known
    fire_crow.Audit.Schema.count_of fire_crow.Audit.Schema.coverage_name
    fire_crow.Audit.Services.contains_known_credential_assignment
audit_runs = 0

abbrev leak_metadata : Entries
leak_metadata = entry (str "rule_id") (string (str "aws-key")) (
    entry (str "fingerprint") (string (str "fp1")) (
      entry (str "scanner_version") (string (str "8.18")) (
        entry (str "parser") (string (str "gitleaks-json"))
          (entry (str "scanner_image") (string (str "gitleaks:8")) end))))

-- A JSON parser that knows one text, a printer that writes the strings of a value, a digest that
-- is the text itself, and patterns that look for one word.
abbrev parse_sample : Str → Option Value
parse_sample s = if str_eq s (str "{leak}") then some (object leak_metadata) else none

abbrev concat_all : List Str → Str
concat_all [] = []
concat_all (s ∷ ss) = s ++ concat_all ss

abbrev sample_services : Services
sample_services = record {
  parse_json = parse_sample;
  print_json = λ v. some (concat_all (metadata_strings v []));
  show_json = λ v. str "{leak}";
  print_provenance = λ p. some p.rule_id;
  parse_provenance = λ s. none;
  sha256_hex = λ s. s;
  is_match = λ pattern text. some (contains text (str "password="));
}

abbrev leak : Str → Str → Finding
leak id file = record {
  id = id;
  agent_source = str "gitleaks";
  title = str "Exposed key";
  description = str "A key is in the repository";
  severity = high;
  cvss_vector = none;
  cvss_score = none;
  evidence = some (str "key = [REDACTED]");
  remediation = none;
  cwe_id = some (str "CWE-798");
  owasp_category = none;
  confidence = some (str "high");
  scanner_name = some (str "gitleaks");
  scanner_mode = some (str "secret");
  file_path = some file;
  line_number = some (pos 7);
  route = none;
  metadata_json = some (str "{leak}");
}

abbrev leaks : List Finding
leaks =
    leak (str "b") (str "src/b.env")
    ∷ leak (str "c") (str "src/b.env")
    ∷ leak (str "a") (str "../a.env")
    ∷ leak (str "d") (str "a.env")
    ∷ []

abbrev scan : ScannerOutcome → ScannerResult
scan outcome = record {
  scanner = str "gitleaks";
  version = str "8.18";
  mode = str "secret";
  outcome = outcome;
  findings = leaks;
  execution_record = object end;
}

abbrev sample_request : CanonicalAuditRequest
sample_request = record {
  scan_id = str "scan-1";
  repository_url = str "https://github.com/o/r";
  repo_branch = str "main";
  repo_owner = str "o";
  repo_name = str "r";
  snapshot_commit = none;
  snapshot_file_count = 3;
  snapshot_total_size = 120;
  results = scan (ScannerOutcome.success 4) ∷ [];
  findings = leaks;
  security_score = some 80;
}

abbrev sample_audit : CanonicalAudit
sample_audit = build_audit sample_services sample_request none

sample_audit-built : canonical_audit sample_services sample_request ≡ ok sample_audit
unfolding audit_runs
sample_audit-built = refl

sample_findings :
    map (λ f. f.location.file) sample_audit.findings ≡ str "a.env" ∷ str "src/b.env" ∷ []
unfolding audit_runs
sample_findings = refl

src_path-valid : validate_repo_path (str " src/./b.env") ≡ ok (str "src/./b.env")
unfolding audit_runs
src_path-valid = refl

validate_repo_path-IsRepoPath_example :
    (str "src/./b.env" ≡ trim (str " src/./b.env")) × IsRepoPath (str "src/./b.env")
validate_repo_path-IsRepoPath_example =
    validate_repo_path-IsRepoPath (str " src/./b.env") (str "src/./b.env") src_path-valid

abbrev outcomes : List ScannerResult
outcomes = scan (ScannerOutcome.success 4) ∷ scan (ScannerOutcome.timeout 60) ∷ []

aggregate_scan_results-coverage_example :
    let coverage = (aggregate_scan_results outcomes).1 in
    ((coverage.status ≡ complete) ↔ All Succeeded outcomes)
    × ((coverage.status ≡ absent) ↔ All Unreported outcomes)
    × ((coverage.is_complete ≡ true) ↔ All Succeeded outcomes)
aggregate_scan_results-coverage_example = aggregate_scan_results-coverage outcomes refl

abbrev normal_or : NormalizedFinding → Result Str NormalizedFinding → NormalizedFinding
normal_or n (ok m) = m
normal_or n (err e) = n

abbrev provenance_of_leak : CanonicalProvenance
provenance_of_leak = record {
  scanner = str "gitleaks";
  scanner_version = str "8.18";
  parser = str "gitleaks-json";
  scanner_image = str "gitleaks:8";
  rule_id = str "aws-key";
  native_fingerprint = str "fp1";
  snapshot_commit = none;
}

abbrev normal_leak : NormalizedFinding
normal_leak = record {
  finding = leak (str "d") (str "a.env");
  metadata =
      (str "fingerprint", string (str "fp1"))
      ∷ (str "parser", string (str "gitleaks-json"))
      ∷ (str "rule_id", string (str "aws-key"))
      ∷ (str "scanner_image", string (str "gitleaks:8"))
      ∷ (str "scanner_version", string (str "8.18"))
      ∷ [];
  canonical_id = str "canonical-v1:key = [REDACTED]a.envfp1aws-keygitleaks";
  native_id = str "gitleaks:fp1";
  provenance = provenance_of_leak;
  location = record {
    file = str "a.env";
    line = pos 7;
    start_column = none;
    end_line = none;
    end_column = none;
  };
  evidence_kind = secret;
  evidence_text = str "key = [REDACTED]";
  evidence_truncated = false;
}

leak-normalized :
    normalize_finding sample_services none (leak (str "d") (str "a.env")) ≡ ok normal_leak
unfolding audit_runs
leak-normalized = refl

normalize_finding-IsSafe_example : IsSafe sample_services normal_leak
normalize_finding-IsSafe_example =
    normalize_finding-IsSafe sample_services none (leak (str "d") (str "a.env")) normal_leak
      leak-normalized

normalize_finding-canonical_identity_example :
    canonical_identity sample_services (leak (str "d") (str "a.env"))
    ≡ ok (str "canonical-v1:key = [REDACTED]a.envfp1aws-keygitleaks")
normalize_finding-canonical_identity_example =
    normalize_finding-canonical_identity sample_services none (leak (str "d") (str "a.env"))
      normal_leak leak-normalized

normalize_findings-ids_example :
    let ids = map id_of (normalize_findings sample_services leaks none).valid in
    IsAscending ids × ((u : Str) → In u ids ↔ Yields sample_services none u leaks)
normalize_findings-ids_example = normalize_findings-ids sample_services none leaks

abbrev swapped_leaks : List Finding
swapped_leaks =
    leak (str "c") (str "src/b.env")
    ∷ leak (str "b") (str "src/b.env")
    ∷ leak (str "a") (str "../a.env")
    ∷ leak (str "d") (str "a.env")
    ∷ []

swapped : Permᴰ leaks swapped_leaks
swapped = Permᴰ.swap refl refl

normalize_findings-perm_example :
    map id_of (normalize_findings sample_services leaks none).valid
    ≡ map id_of (normalize_findings sample_services swapped_leaks none).valid
normalize_findings-perm_example =
    normalize_findings-perm sample_services none leaks swapped_leaks swapped

canonical_audit-ok_iff_example :
    ((a : CanonicalAudit) × (canonical_audit sample_services sample_request ≡ ok a)) ↔ (
      (is_vacant (str "scan-1") ≡ false)
      × (is_vacant (str "https://github.com/o/r") ≡ false)
      × (false ≡ false)
      × ((commit : Option Str) × (validate_snapshot_commit none ≡ ok commit))
      × (true ≡ true → All Succeeded (scan (ScannerOutcome.success 4) ∷ [])))
canonical_audit-ok_iff_example = canonical_audit-ok_iff sample_services sample_request

sample_score : sample_audit.summary.security_score ≡ some 80
unfolding audit_runs
sample_score = refl

canonical_audit-score_example : All Succeeded (scan (ScannerOutcome.success 4) ∷ [])
canonical_audit-score_example =
    canonical_audit-score sample_services sample_request sample_audit sample_audit-built 80
      sample_score

canonical_audit-counts_example : HasCounts sample_audit
canonical_audit-counts_example =
    canonical_audit-counts sample_services sample_request sample_audit sample_audit-built

canonical_audit-ids_example : HasIds sample_services leaks sample_audit
canonical_audit-ids_example =
    canonical_audit-ids sample_services sample_request sample_audit sample_audit-built

abbrev attempt : ExecutionIdentity
attempt = record { execution_id = str "e1"; attempt_number = pos 1 }

abbrev sample_report : CanonicalAuditReport
sample_report = report_of sample_audit attempt

sample_report-built : build_report sample_audit attempt ≡ ok sample_report
unfolding audit_runs
sample_report-built = refl

canonical_audit-build_report_example :
    build_report sample_audit attempt ≡ ok sample_report
    × IsTruthful (scan (ScannerOutcome.success 4) ∷ []) sample_audit sample_report.coverage.state
canonical_audit-build_report_example =
    canonical_audit-build_report sample_services sample_request sample_audit sample_audit-built
      attempt

build_report-findings_example :
    Permᴰ sample_report.findings sample_audit.findings × IsOrdered sample_report.findings
build_report-findings_example =
    build_report-findings sample_audit attempt sample_report sample_report-built

abbrev plain_casing : Casing
plain_casing = record {
  lowercase = λ s. map lower_byte s;
  uppercase = λ s. s;
  is_alphanumeric = λ c. all is_token_byte c;
}

abbrev leak_id : Str
leak_id = str "canonical-v1:key = [REDACTED]a.envfp1aws-keygitleaks"

abbrev sample_narrative : ReportNarrative
sample_narrative = record {
  schema_version = 1;
  executive_summary = str "Two secrets were committed, see CWE-798.";
  finding_explanations =
      record {
        finding_id = leak_id;
        severity = some (str "HIGH");
        explanation = str "A key in the history stays readable.";
      }
      ∷ [];
  remediation_guidance =
      record { finding_id = leak_id; guidance = str "Rotate the key."; verified = false } ∷ [];
  limitations = [];
}

abbrev sample_explained : ExplainedReport
sample_explained = record { deterministic_report = sample_report; narrative = sample_narrative }

-- Letters outside ASCII count as letters.
abbrev letter_casing : Casing
letter_casing = record {
  lowercase = λ s. map lower_byte s;
  uppercase = λ s. s;
  is_alphanumeric = λ c. all (λ x. leb 0x80 x || is_token_byte x) c;
}

-- A name of one letter of two bytes before `@1.2.3`.
accented_package_panics : find_location letter_casing (0xC3 ∷ 0xA9 ∷ str "@1.2.3") ≡ panics
unfolding audit_runs
accented_package_panics = refl

second_line_unseen :
    find_location plain_casing (str "In line with the audit, see line 42") ≡ returns none
unfolding audit_runs
second_line_unseen = refl

category_cut : prose_identifiers plain_casing (str "see A07:2021") ≡ str "A07" ∷ []
unfolding audit_runs
category_cut = refl

normalize_findings_for_persist-normalize_findings_example :
    let persisted = normalize_findings_for_persist sample_services leaks in
    let normalized = normalize_findings sample_services leaks none in
    (persisted.valid ≡ map (λ n. n.finding) normalized.valid)
    × (persisted.invalid ≡ normalized.invalid)
    × (persisted.duplicate_count ≡ normalized.correlations)
normalize_findings_for_persist-normalize_findings_example =
    normalize_findings_for_persist-normalize_findings sample_services leaks

kept_ids :
    map (λ f. f.id) (normalize_findings_for_persist sample_services leaks).valid
    ≡ str "d" ∷ str "b" ∷ []
unfolding audit_runs
kept_ids = refl
