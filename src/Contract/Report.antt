-- ===== src/Contract/Report.antt =====
-- `validate_report_input` and `check_report_severity_unchanged` of
-- backend/src/schemas/scan_contract.rs.
pub mod Laws
use fire_crow.Prelude.{
  ℕ, Bool, true, false, not, ◌&&◌, ◌||◌, List, [], ◌∷◌, ◌++◌, if◌then◌else◌, is_empty, ◌==◌, length,
}
use fire_crow.Text.{Str, str, str_eq, one_of}
use fire_crow.Contract.Types.{
  ReportFinding, CanonicalFinding, ContractResult, Checked, valid, invalid, ◌>>=◌,
  invalid_report_input, severity_changed,
}
use fire_crow.Contract.Findings.{is_vacant, validate_canonical_finding}

-- The loop that fills the map `expected`; its keys, the last one at the head.
unfoldable pub expect_all : List Str → List CanonicalFinding → ContractResult (List Str)
expect_all expected [] = valid expected
expect_all expected (f ∷ fs) = do
  _ ← validate_canonical_finding f
  let rest = expect_all (f.id ∷ expected) fs
  if one_of expected f.id
      then invalid (invalid_report_input (str "duplicate finding id " ++ f.id))
      else rest

-- The loop over the report's findings, with the ids that were seen.
unfoldable pub cover_all : List Str → List Str → List ReportFinding → Checked
cover_all expected seen [] = valid tt
cover_all expected seen (r ∷ rs) =
    let rest = cover_all expected (r.finding_id ∷ seen) rs in
    if is_vacant r.summary
    then invalid (invalid_report_input (str "empty summary for " ++ r.finding_id))
    else if one_of seen r.finding_id
    then invalid (invalid_report_input (str "duplicate report finding " ++ r.finding_id))
    else if not (one_of expected r.finding_id)
    then invalid (invalid_report_input (str "unknown finding " ++ r.finding_id))
    else rest

unfoldable pub validate_report_input : List CanonicalFinding → List ReportFinding → Checked
validate_report_input findings report_findings =
    if is_empty findings
    then invalid (invalid_report_input (str "report requires at least one canonical finding"))
    else do
      expected ← expect_all [] findings
      if not (length report_findings == length findings)
          then invalid
              (invalid_report_input (str "report must cover every canonical finding exactly once"))
          else cover_all expected [] report_findings

unfoldable pub check_report_severity_unchanged : Str → Str → Checked
check_report_severity_unchanged from to =
    if is_vacant from || is_vacant to
    then invalid (invalid_report_input (str "severity must be non-empty"))
    else if not (str_eq from to)
    then invalid (severity_changed from to)
    else valid tt
