-- ===== src/Audit/Report/Order.antt =====
-- The order of the findings in a report, backend/src/schemas/report.rs.
use fire_crow.Prelude.{
  ◌≡◌, refl, ap, ◌⊎◌, inl, inr, true, false, List, [], ◌∷◌, All, All-weaken, Bool-cases, arith, ltb,
  ◌==◌,
}
use fire_crow.Order.{str_leb, str_leb_total, str_leb_trans}
use fire_crow.Order.Sort.{IsSortedBy}
use fire_crow.Audit.Schema.{
  Severity, critical, high, medium, low, info, unknown, CanonicalAuditFinding,
}
use fire_crow.Audit.Report.{severity_rank, finding_before}

pub finding_before_total :
    (a b : CanonicalAuditFinding) → finding_before a b ≡ false → finding_before b a ≡ true
unfolding finding_before
finding_before_total a b h = ground (arith, str_leb_total a.id b.id)

pub finding_before_trans :
    (a b c : CanonicalAuditFinding)
    → finding_before a b ≡ true
    → finding_before b c ≡ true
    → finding_before a c ≡ true
unfolding finding_before
finding_before_trans a b c h k = ground (arith, str_leb_trans a.id b.id c.id)

-- The severities from the gravest: a severity is graver than each below it.
pub data IsGraver : Severity → Severity → Type 0 where
  critical_high : IsGraver critical high
  high_medium : IsGraver high medium
  medium_low : IsGraver medium low
  low_info : IsGraver low info
  info_unknown : IsGraver info unknown
  through : {r s t : Severity} → IsGraver r s → IsGraver s t → IsGraver r t

-- A finding stands before another if it is graver, or as grave and its id is not after.
abbrev pub StandsBefore : CanonicalAuditFinding → CanonicalAuditFinding → Type 0
StandsBefore a b =
    IsGraver a.severity b.severity ⊎ ((a.severity ≡ b.severity) × (str_leb a.id b.id ≡ true))

-- Each finding stands before all later ones.
abbrev pub IsOrdered : List CanonicalAuditFinding → Type 0
IsOrdered [] = Unit
IsOrdered (f ∷ fs) = All (StandsBefore f) fs × IsOrdered fs

below_critical : (t : Severity) → (IsGraver critical t) ⊎ (critical ≡ t)
below_critical critical = inr refl
below_critical high = inl critical_high
below_critical medium = inl (through critical_high high_medium)
below_critical low = inl (through critical_high (through high_medium medium_low))
below_critical info =
    inl (through critical_high (through high_medium (through medium_low low_info)))
below_critical unknown = inl (
    through critical_high
      (through high_medium (through medium_low (through low_info info_unknown))))

ranked : (s t : Severity) → ltb (severity_rank s) (severity_rank t) ≡ true → IsGraver s t
unfolding severity_rank
ranked critical t h = elim (below_critical t) [
  | inl g ↦ g
  | inr e ↦ absurd (ground (arith, ap (λ x. ltb 0 (severity_rank x)) e, h))
]
ranked high medium h = high_medium
ranked high low h = through high_medium medium_low
ranked high info h = through high_medium (through medium_low low_info)
ranked high unknown h = through high_medium (through medium_low (through low_info info_unknown))
ranked medium low h = medium_low
ranked medium info h = through medium_low low_info
ranked medium unknown h = through medium_low (through low_info info_unknown)
ranked low info h = low_info
ranked low unknown h = through low_info info_unknown
ranked info unknown h = info_unknown
ranked s t h = absurd (ground (arith, h))

same_rank : (s t : Severity) → (severity_rank s == severity_rank t) ≡ true → s ≡ t
unfolding severity_rank
same_rank s t h = ground (arith, h)

before-StandsBefore : (a b : CanonicalAuditFinding) → finding_before a b ≡ true → StandsBefore a b
unfolding finding_before
before-StandsBefore a b h =
    elim (Bool-cases (severity_rank a.severity == severity_rank b.severity)) [
      | inl e ↦ inr (same_rank a.severity b.severity e, ground (arith, h, e))
      | inr e ↦ inl (ranked a.severity b.severity (ground (arith, h, e)))
    ]

pub sorted-IsOrdered :
    (fs : List CanonicalAuditFinding) → IsSortedBy finding_before fs → IsOrdered fs
sorted-IsOrdered [] h = tt
sorted-IsOrdered (f ∷ fs) (a, h) = (All-weaken (before-StandsBefore f) fs a, sorted-IsOrdered fs h)
