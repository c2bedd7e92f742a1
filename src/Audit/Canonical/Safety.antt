-- ===== src/Audit/Canonical/Safety.antt =====
-- What a canonical audit may show of the findings.
use mathlib.Core.List.Permᴰ
use fire_crow.Prelude.{◌≤◌, List}
use fire_crow.Text.Control.{char_count}
use fire_crow.Audit.Schema.{CanonicalAuditFinding}
use fire_crow.Audit.Services.{Services}
use fire_crow.Audit.Location.Laws.{IsLocation}
use fire_crow.Audit.Identity.{NormalizedFinding}
use fire_crow.Audit.Identity.Safety.{IsClean}

module _ (services : Services) where
  -- The location and the evidence of a finding, as they are shown.
  abbrev IsFit : NormalizedFinding → Type 0
  IsFit n =
      IsLocation n.location
      × (char_count n.evidence_text ≤ 512)
      × IsClean services n.evidence_kind n.evidence_text

  -- A finding of the audit shows a location within the repository, and evidence of at most 512
  -- characters that is clean for its kind.
  abbrev pub IsPublishable : CanonicalAuditFinding → Type 0
  IsPublishable f =
      IsLocation f.location
      × (char_count f.evidence ≤ 512)
      × IsClean services f.evidence_kind f.evidence
