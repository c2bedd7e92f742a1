-- ===== src/Audit/Narrative/Types.antt =====
-- The types of backend/src/schemas/ai_narrative.rs, and the ruling that its checks return.
use fire_crow.Prelude.{ℕ, ◌≡◌, refl, Bool, true, false, Option, List, [], ◌∷◌, All, arith}
use fire_crow.Text.{Str}
use fire_crow.Audit.Report.{CoverageState}

pub record FindingExplanation : Type 0 where
  pub finding_id : Str
  pub severity : Option Str
  pub explanation : Str

pub record RemediationGuidance : Type 0 where
  pub finding_id : Str
  pub guidance : Str
  pub verified : Bool

pub record ReportNarrative : Type 0 where
  pub schema_version : ℕ
  pub executive_summary : Str
  pub finding_explanations : List FindingExplanation
  pub remediation_guidance : List RemediationGuidance
  pub limitations : List Str

pub data NarrativeViolation : Type 0 where
  unsupported_narrative_version unsupported_canonical : ℕ → ℕ → NarrativeViolation
  empty_executive_summary : NarrativeViolation
  empty_explanation empty_guidance : Str → NarrativeViolation
  executive_summary_too_long : NarrativeViolation
  unknown_finding_reference duplicate_explanation duplicate_guidance : Str → NarrativeViolation
  severity_mismatch : Str → Str → Str → NarrativeViolation
  confidence_restated invented_classification : Str → NarrativeViolation
  verified_remediation_claim remediation_stated_as_fact : Str → NarrativeViolation
  coverage_overclaim : CoverageState → NarrativeViolation
  scanner_success_overclaim : Str → Str → NarrativeViolation
  false_all_clear : ℕ → NarrativeViolation
  secret_material : NarrativeViolation
  invented_location prohibited_claim invented_limitation : Str → NarrativeViolation
  malformed_response field_too_long : Str → NarrativeViolation

-- Unicode's letters: `str::to_lowercase`, `str::to_uppercase` and `char::is_alphanumeric`, the last
-- one on the bytes of a character.
pub record Casing : Type 0 where
  pub lowercase : Str → Str
  pub uppercase : Str → Str
  pub is_alphanumeric : Str → Bool

-- What a run of checks comes to: the first violation ends it, and so does a panic.
pub data Ruling : Type 0 where
  accepted : Ruling
  refused : NarrativeViolation → Ruling
  panicked : Ruling

infixr 4 ◌>>◌
abbrev pub ◌>>◌ : Ruling → Ruling → Ruling
accepted >> v = v
refused violation >> v = refused violation
panicked >> v = panicked

abbrev pub refuse_if : Bool → NarrativeViolation → Ruling
refuse_if true violation = refused violation
refuse_if false violation = accepted

-- A loop of checks.
abbrev pub each {ℓ} : {A : Type ℓ} → (A → Ruling) → List A → Ruling
each check [] = accepted
each check (x ∷ xs) = check x >> each check xs

pub then-accepted : (v w : Ruling) → (v >> w) ≡ accepted → (v ≡ accepted) × (w ≡ accepted)
then-accepted accepted w h = (refl, h)
then-accepted (refused violation) w h = absurd (ground (arith, h))
then-accepted panicked w h = absurd (ground (arith, h))

pub refuse_if-accepted :
    (b : Bool) (violation : NarrativeViolation) → refuse_if b violation ≡ accepted → b ≡ false
refuse_if-accepted true violation h = absurd (ground (arith, h))
refuse_if-accepted false violation h = refl

pub each-accepted {ℓ} :
    {A : Type ℓ} (check : A → Ruling) (xs : List A)
    → each check xs ≡ accepted
    → All (λ x. check x ≡ accepted) xs
each-accepted check [] h = tt
each-accepted check (x ∷ xs) h =
    let (e, k) = then-accepted (check x) (each check xs) h in (e, each-accepted check xs k)
