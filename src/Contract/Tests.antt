-- ===== src/Contract/Tests.antt =====
-- Concrete documents of the pipeline of backend/src/schemas/scan_contract.rs.
use fire_crow.Prelude.{◌++◌, ℕ, ◌≤◌, ◌≡◌, refl, ◌↔◌, true, false, some, List, [], ◌∷◌, All}
use fire_crow.Text.{ends_with, Str, str}
use fire_crow.Text.Equality.{In}
use fire_crow.Text.Decimal.{ℤ, pos}
use fire_crow.Json.{null}
use fire_crow.Contract.State.{
  PipelineState, queued, fetching, scanning, normalizing, reporting, delivering, completed, partial,
  failed, cancelled, is_terminal, can_transition,
}
use fire_crow.Contract.State.Lifecycle.{Leads, here, ahead, lifecycle-bounded}
use fire_crow.Contract.Types.{
  ScannerKind, gitleaks, osv, succeeded, timed_out, RawFinding, RepositorySnapshot,
  RepositoryTarget, CanonicalFinding, ReportFinding, ScanResult, ScannerRun, valid, invalid,
  unredacted_evidence, severity_changed,
}
use fire_crow.Contract.Target.{normalize_repository_url, github, valid_segment}
use fire_crow.Contract.Target.Laws.{normalize_repository_url_spellings}
use fire_crow.Contract.Sets.{AreDifferent}
use fire_crow.Contract.Findings.{
  is_vacant, canonical_finding, dedupe_canonical_findings, normalize_raw_finding,
  validate_canonical_finding,
}
use fire_crow.Contract.Findings.Laws.{keys, IsKeptFrom, dedupe-exact}
use fire_crow.Contract.Findings.Normalize.{marked_redacted, normalize_raw_finding-awaits_redaction}
use fire_crow.Contract.Result.{validate_scan_result}
use fire_crow.Contract.Report.{validate_report_input, check_report_severity_unchanged}
use fire_crow.Contract.Report.Laws.{ids, report_ids, validate_report_input-exact}

-- The names that a check of a document computes through.
unfoldable contract_runs : ℕ
unfolding fire_crow.Contract.Findings.is_at_most_zero fire_crow.Contract.Findings.raw_location_valid
    fire_crow.Contract.Findings.detection_key fire_crow.Contract.Findings.canonical_finding_id
    fire_crow.Contract.Findings.scanner_severity fire_crow.Contract.Findings.scanner_title
    fire_crow.Contract.Findings.scanner_description fire_crow.Contract.Findings.scanner_cwe
    fire_crow.Contract.Findings.scanner_owasp fire_crow.Contract.Findings.canonical_finding
    fire_crow.Contract.Findings.normalize_raw_finding fire_crow.Contract.Findings.dedupe_from
    fire_crow.Contract.Findings.dedupe_canonical_findings
    fire_crow.Contract.Findings.validate_canonical_finding
    fire_crow.Contract.Findings.require_redacted_evidence fire_crow.Contract.Report.expect_all
    fire_crow.Contract.Report.cover_all fire_crow.Contract.Report.validate_report_input
    fire_crow.Contract.Report.check_report_severity_unchanged
    fire_crow.Contract.Result.failed_scanners fire_crow.Contract.Result.any_success
    fire_crow.Contract.Result.check_completed fire_crow.Contract.Result.check_partial
    fire_crow.Contract.Result.check_state fire_crow.Contract.Result.validate_each
    fire_crow.Contract.Result.validate_scan_result fire_crow.Contract.State.state_name
    fire_crow.Contract.State.is_terminal fire_crow.Contract.State.can_transition
    fire_crow.Contract.Target.valid_segment fire_crow.Contract.Target.is_lower_hex_digest
    fire_crow.Contract.Target.strip_git fire_crow.Contract.Target.owner_and_repo
    fire_crow.Contract.Target.normalize_repository_url
    fire_crow.Contract.Target.parse_repository_target fire_crow.Contract.Target.validate_snapshot
    fire_crow.Contract.Types.kind_name fire_crow.Text.str fire_crow.Text.str_eq
    fire_crow.Text.one_of fire_crow.Text.strip_prefix fire_crow.Text.starts_with
    fire_crow.Text.ends_with fire_crow.Text.contains fire_crow.Text.has_byte
    fire_crow.Text.split_pieces fire_crow.Text.split fire_crow.Text.before fire_crow.Text.split_once
    fire_crow.Text.rsplit_once fire_crow.Text.join fire_crow.Text.trim_end_matches
    fire_crow.Text.is_digit fire_crow.Text.to_hex_digit fire_crow.Text.Decimal.decimal
    fire_crow.Text.Decimal.show_int fire_crow.Text.Replace.replace fire_crow.Text.Trim.trim_start
    fire_crow.Text.Trim.trim_end fire_crow.Text.Trim.trim fire_crow.Text.Trim.has_whitespace
    fire_crow.Text.Utf8.is_utf8 fire_crow.Text.Utf8.from_utf8_lossy
contract_runs = 0

abbrev steps : ℕ
steps = 6

whole_run : Leads queued completed steps
unfolding contract_runs
whole_run = ahead {t = fetching} refl (
    ahead {t = scanning} refl (
      ahead {t = normalizing} refl (
        ahead {t = reporting} refl
          (ahead {t = delivering} refl (ahead {t = completed} refl here)))))

lifecycle-bounded_example : (steps ≤ 6) × (completed ≡ completed → steps ≡ 6)
lifecycle-bounded_example = lifecycle-bounded completed steps whole_run

abbrev given_url : Str
given_url = str " https://github.com/acme/web-app.git/ "

abbrev repository_url : Str
repository_url = str "https://github.com/acme/web-app"

normalized_url : normalize_repository_url given_url ≡ valid repository_url
unfolding contract_runs
normalized_url = refl

is_plain :
    (valid_segment (str "acme") ≡ true)
    × (valid_segment (str "web-app") ≡ true)
    × (ends_with (str "acme" ++ b'/' ∷ str "web-app") (str ".git") ≡ false)
unfolding contract_runs
is_plain = (refl, refl, refl)

abbrev web_app : Str
web_app = str "acme" ++ b'/' ∷ str "web-app"

normalize_repository_url_spellings_example :
    (normalize_repository_url (github ++ web_app) ≡ valid (github ++ web_app))
    × (normalize_repository_url (github ++ (web_app ++ str ".git")) ≡ valid (github ++ web_app))
    × (normalize_repository_url (github ++ (web_app ++ b'/' ∷ [])) ≡ valid (github ++ web_app))
normalize_repository_url_spellings_example =
    normalize_repository_url_spellings (str "acme") (str "web-app") is_plain.0 is_plain.1 is_plain.2

-- A second `.git` is taken off the second time.
stripped_once :
    normalize_repository_url (str "https://github.com/acme/web.git.git")
    ≡ valid (str "https://github.com/acme/web.git")
unfolding contract_runs
stripped_once = refl

abbrev raw_finding : RawFinding
raw_finding = record {
  scanner = gitleaks;
  rule_id = str "aws-key";
  file = str "src/app.py";
  line = pos 12;
  snippet = str "key = AKIA";
}

abbrev snapshot : RepositorySnapshot
snapshot = record {
  repository_url = repository_url;
  branch = str "main";
  archive_sha256 = str "00ff";
  tree_sha256 = str "ab12";
  file_count = 3;
  total_bytes = 700;
}

abbrev finding : CanonicalFinding
finding = canonical_finding raw_finding snapshot (str "8.18.4")

found : normalize_raw_finding raw_finding snapshot (str "8.18.4") ≡ valid finding
unfolding contract_runs
found = refl

normalize_raw_finding-awaits_redaction_example :
    (validate_canonical_finding finding ≡ invalid unredacted_evidence)
    × (validate_canonical_finding (marked_redacted finding) ≡ valid tt)
normalize_raw_finding-awaits_redaction_example =
    normalize_raw_finding-awaits_redaction raw_finding snapshot (str "8.18.4") finding found

dedupe-exact_example :
    IsKeptFrom (dedupe_canonical_findings (finding ∷ finding ∷ [])) (finding ∷ finding ∷ [])
    × AreDifferent (keys (dedupe_canonical_findings (finding ∷ finding ∷ [])))
    × ((k : Str)
        → In k (keys (finding ∷ finding ∷ []))
        → In k (keys (dedupe_canonical_findings (finding ∷ finding ∷ []))))
dedupe-exact_example = dedupe-exact (finding ∷ finding ∷ [])

abbrev scan_result : ScanResult
scan_result = record {
  contract_version = 1;
  scan_id = str "7";
  repository = record { repository_url = repository_url; branch = str "main" };
  snapshot = snapshot;
  pipeline_state = partial;
  scanner_runs =
      record { scanner = gitleaks; status = succeeded; detail = null; raw_finding_count = 1 }
      ∷ record { scanner = osv; status = timed_out; detail = null; raw_finding_count = 0 }
      ∷ [];
  findings = marked_redacted finding ∷ [];
  dependencies = [];
  error = some (str "osv timed out");
}

abbrev report_findings : List ReportFinding
report_findings =
    record {
      finding_id = str "gitleaks|aws-key|src/app.py|12";
      summary = str "A key.";
      priority = 1;
    }
    ∷ []

covered : validate_report_input (marked_redacted finding ∷ []) report_findings ≡ valid tt
unfolding contract_runs
covered = refl

validate_report_input-exact_example :
    All (λ f. validate_canonical_finding f ≡ valid tt) (marked_redacted finding ∷ [])
    × All (λ r. is_vacant r.summary ≡ false) report_findings
    × AreDifferent (ids (marked_redacted finding ∷ []))
    × AreDifferent (report_ids report_findings)
    × ((k : Str) → In k (report_ids report_findings) ↔ In k (ids (marked_redacted finding ∷ [])))
validate_report_input-exact_example =
    validate_report_input-exact (marked_redacted finding ∷ []) report_findings covered
