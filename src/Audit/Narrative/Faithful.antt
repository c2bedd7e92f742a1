-- ===== src/Audit/Narrative/Faithful.antt =====
-- What a narrative that is accepted says of the report.
use fire_crow.Prelude.{◌≡◌, true, false, none, All, map}
use fire_crow.Text.{Str}
use fire_crow.Text.Equality.{In}
use fire_crow.Audit.Services.{Services, contains_known_credential_assignment}
use fire_crow.Audit.Report.{CanonicalAuditReport}
use fire_crow.Audit.Narrative.Types.{ReportNarrative, Casing}
use fire_crow.Audit.Narrative.Prose.{
  contains_any, canonical_identifiers, prose_identifiers, found_something,
  complete_coverage_phrases, all_clear_phrases,
}
use fire_crow.Audit.Narrative.Laws.{IsTraceable, IsSuggestion, IsDistinct}

module _ (services : Services) (casing : Casing) (report : CanonicalAuditReport) where
  -- A text has no credential; where the audit found something, no all-clear; where coverage is not
  -- complete, no claim that it is; and no identifier that the report does not have.
  abbrev pub IsCandid : Str → Type 0
  IsCandid text =
      (contains_known_credential_assignment services text ≡ false)
      × (found_something report ≡ true → contains_any casing text all_clear_phrases ≡ none)
      × (report.coverage.is_complete ≡ false
          → contains_any casing text complete_coverage_phrases ≡ none)
      × All (λ id. In id (canonical_identifiers casing report)) (prose_identifiers casing text)

  abbrev pub IsFaithful : ReportNarrative → Type 0
  IsFaithful n =
      All (IsTraceable report.findings) n.finding_explanations
      × IsDistinct (map (λ e. e.finding_id) n.finding_explanations)
      × All (IsSuggestion report.findings) n.remediation_guidance
      × IsDistinct (map (λ g. g.finding_id) n.remediation_guidance)
      × All (λ limitation. In limitation report.limitations) n.limitations
      × IsCandid n.executive_summary
      × All (λ e. IsCandid e.explanation) n.finding_explanations
      × All (λ g. IsCandid g.guidance) n.remediation_guidance
