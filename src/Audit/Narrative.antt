-- ===== src/Audit/Narrative.antt =====
-- The narrative of a report and its validation, backend/src/schemas/ai_narrative.rs.
pub mod Types
pub mod Prose
pub mod Laws
pub mod Faithful
use fire_crow.Prelude.{
  ℕ, Bool, true, false, not, ◌&&◌, ◌||◌, Option, none, some, List, [], ◌∷◌, ◌++◌, if◌then◌else◌,
  length, ltb, ◌==◌, map, Run, returns, panics,
}
use fire_crow.Prelude.Fallible.{Result, ok, err}
use fire_crow.Text.{Str, str, str_eq, one_of}
use fire_crow.Text.Control.{char_count}
use fire_crow.Audit.Schema.{Severity, severity_name, CanonicalAuditFinding}
use fire_crow.Audit.Services.{Services}
use fire_crow.Audit.Metadata.{is_vacant}
use fire_crow.Audit.Identity.{canonical_audit_version}
use fire_crow.Audit.Report.{CanonicalAuditReport}
use fire_crow.Audit.Narrative.Types.{
  FindingExplanation, RemediationGuidance, ReportNarrative, NarrativeViolation,
  unsupported_narrative_version, unsupported_canonical, empty_executive_summary, empty_explanation,
  empty_guidance, executive_summary_too_long, unknown_finding_reference, duplicate_explanation,
  duplicate_guidance, severity_mismatch, verified_remediation_claim, invented_limitation,
  field_too_long, Ruling, accepted, refused, panicked, ◌>>◌, refuse_if, each, Casing,
}
use fire_crow.Audit.Narrative.Prose.{validate_prose, equal_ignoring_case}

abbrev pub narrative_version : ℕ
narrative_version = 1

abbrev pub max_prose_chars : ℕ
max_prose_chars = 2000

-- The ids of the report's findings.
abbrev pub finding_ids : List CanonicalAuditFinding → List Str
finding_ids findings = map (λ f. f.id) findings

-- `severity_of`: the severity of the first finding with the id.
unfoldable pub severity_of : List CanonicalAuditFinding → Str → Option Severity
severity_of [] id = none
severity_of (f ∷ fs) id =
    let rest = severity_of fs id in if str_eq f.id id then some f.severity else rest

unfoldable pub check_severity : List CanonicalAuditFinding → FindingExplanation → Ruling
unfolding severity_of
check_severity findings e = elim e.severity [
  | none ↦ accepted
  | some claimed ↦ elim (severity_of findings e.finding_id) [
    | none ↦ refused (unknown_finding_reference e.finding_id)
    | some canonical ↦
        refuse_if (not (equal_ignoring_case claimed (severity_name canonical)))
          (severity_mismatch e.finding_id claimed (severity_name canonical))
  ]
]

-- The loop over the explanations, with the ids that were explained.
unfoldable pub check_explanations :
    List CanonicalAuditFinding → List Str → List FindingExplanation → Ruling
unfolding check_severity
check_explanations findings explained [] = accepted
check_explanations findings explained (e ∷ es) =
    refuse_if (not (one_of (finding_ids findings) e.finding_id))
      (unknown_finding_reference e.finding_id)
    >> refuse_if (one_of explained e.finding_id) (duplicate_explanation e.finding_id)
    >> refuse_if (is_vacant e.explanation) (empty_explanation e.finding_id)
    >> refuse_if (ltb max_prose_chars (char_count e.explanation))
        (field_too_long (str "an explanation"))
    >> check_severity findings e
    >> check_explanations findings (e.finding_id ∷ explained) es

-- The loop over the guidance, with the ids that were guided.
unfoldable pub check_guidance :
    List CanonicalAuditFinding → List Str → List RemediationGuidance → Ruling
check_guidance findings guided [] = accepted
check_guidance findings guided (g ∷ gs) =
    refuse_if (not (one_of (finding_ids findings) g.finding_id))
      (unknown_finding_reference g.finding_id)
    >> refuse_if (one_of guided g.finding_id) (duplicate_guidance g.finding_id)
    >> refuse_if g.verified (verified_remediation_claim g.finding_id)
    >> refuse_if (is_vacant g.guidance) (empty_guidance g.finding_id)
    >> refuse_if (ltb max_prose_chars (char_count g.guidance))
        (field_too_long (str "a remediation guidance"))
    >> check_guidance findings (g.finding_id ∷ guided) gs

unfoldable pub check_limitation : List Str → Str → Ruling
check_limitation limitations limitation =
    refuse_if (not (one_of limitations limitation)) (invented_limitation limitation)

-- The versions of the narrative and of the report, and the shape of the summary.
unfoldable pub check_shape : CanonicalAuditReport → ReportNarrative → Ruling
check_shape report narrative =
    refuse_if (not (narrative.schema_version == narrative_version))
      (unsupported_narrative_version narrative.schema_version narrative_version)
    >> refuse_if (not (report.identity.canonical_schema_version == canonical_audit_version))
        (unsupported_canonical report.identity.canonical_schema_version canonical_audit_version)
    >> refuse_if (is_vacant narrative.executive_summary) empty_executive_summary
    >> refuse_if (ltb max_prose_chars (char_count narrative.executive_summary))
        executive_summary_too_long

-- What `validate_narrative` answers of a narrative.
unfoldable pub judge : Services → Casing → CanonicalAuditReport → ReportNarrative → Ruling
unfolding check_shape check_explanations check_guidance check_limitation
judge services casing report narrative =
    check_shape report narrative
    >> check_explanations report.findings [] narrative.finding_explanations
    >> check_guidance report.findings [] narrative.remediation_guidance
    >> each (check_limitation report.limitations) narrative.limitations
    >> validate_prose services casing report narrative

unfoldable pub validate_narrative :
    Services
    → Casing
    → CanonicalAuditReport
    → ReportNarrative
    → Run (Result NarrativeViolation ReportNarrative)
unfolding judge
validate_narrative services casing report narrative =
    elim (judge services casing report narrative) [
      | accepted ↦ returns (ok narrative)
      | refused violation ↦ returns (err violation)
      | panicked ↦ panics
    ]

pub record ExplainedReport : Type 0 where
  pub deterministic_report : CanonicalAuditReport
  pub narrative : ReportNarrative

unfoldable pub explain_report :
    Services
    → Casing
    → CanonicalAuditReport
    → ReportNarrative
    → Run (Result NarrativeViolation ExplainedReport)
unfolding validate_narrative
explain_report services casing report candidate =
    elim (validate_narrative services casing report candidate) [
      | panics ↦ panics
      | returns (err violation) ↦ returns (err violation)
      | returns (ok narrative) ↦
          returns (ok (record { deterministic_report = report; narrative = narrative }))
    ]
