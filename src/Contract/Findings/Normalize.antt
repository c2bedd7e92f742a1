-- ===== src/Contract/Findings/Normalize.antt =====
-- About `normalize_raw_finding` of backend/src/schemas/scan_contract.rs.
use fire_crow.Prelude.{◌≡◌, refl, inl, inr, true, false, [], ◌∷◌, arith, Bool-cases}
use mathlib.Core.Path.{subst}
use fire_crow.Text.{Str, str, is_digit, contains}
use fire_crow.Text.Decimal.{ℤ}
use fire_crow.Text.Trim.{is_empty-trim}
use fire_crow.Contract.Types.{
  ScannerKind, gitleaks, osv, semgrep, other, kind_name, RawFinding, RepositorySnapshot,
  CanonicalFinding, valid, invalid, result_cases, unredacted_evidence,
}
use fire_crow.Contract.Target.{normalize_repository_url, is_lower_hex_digest, validate_snapshot}
use fire_crow.Contract.Findings.{
  is_vacant, is_at_most_zero, raw_location_valid, detection_key, canonical_finding_id,
  scanner_severity, scanner_title, scanner_description, normalize_raw_finding, canonical_finding,
  validate_canonical_finding,
}

-- What `normalize_raw_finding` has checked where it returns a finding.
record IsNormal (raw : RawFinding) (snapshot : RepositorySnapshot) (version : Str) : Type 0 where
  located : is_vacant raw.file ≡ false
  positive : is_at_most_zero raw.line ≡ false
  shown : is_vacant raw.snippet ≡ false
  hashed : is_lower_hex_digest snapshot.tree_sha256 ≡ true
  ruled : is_vacant raw.rule_id ≡ false
  versioned : is_vacant version ≡ false

validate_snapshot-digest :
    (snapshot : RepositorySnapshot)
    → validate_snapshot snapshot ≡ valid tt
    → is_lower_hex_digest snapshot.tree_sha256 ≡ true
unfolding validate_snapshot
validate_snapshot-digest snapshot h =
    elim (result_cases (normalize_repository_url snapshot.repository_url)) [
      | inr (e, g) ↦ absurd (ground arith)
      | inl (_, g) ↦ ground arith
    ]

normalize_raw_finding-IsNormal :
    (raw : RawFinding) (snapshot : RepositorySnapshot) (version : Str) (f : CanonicalFinding)
    → normalize_raw_finding raw snapshot version ≡ valid f
    → IsNormal raw snapshot version × (canonical_finding raw snapshot version ≡ f)
unfolding normalize_raw_finding raw_location_valid
normalize_raw_finding-IsNormal raw snapshot version f h =
    elim (result_cases (raw_location_valid raw)) [
      | inr (e, g) ↦ absurd (ground arith)
      | inl (_, g) ↦ elim (result_cases (validate_snapshot snapshot)) [
        | inr (e, k) ↦ absurd (ground arith)
        | inl (_, k) ↦ (
          record {
            located = ground arith;
            positive = ground arith;
            shown = ground arith;
            hashed = validate_snapshot-digest snapshot k;
            ruled = ground arith;
            versioned = ground arith;
          },
          ground arith,
        )
      ]
    ]

detection_key_lem :
    (kind : ScannerKind) (rule_id file : Str) (line : ℤ)
    → is_vacant (detection_key kind rule_id file line) ≡ false
unfolding detection_key kind_name str
detection_key_lem gitleaks rule_id file line = is_empty-trim _ _ (ground arith)
detection_key_lem osv rule_id file line = is_empty-trim _ _ (ground arith)
detection_key_lem semgrep rule_id file line = is_empty-trim _ _ (ground arith)
detection_key_lem other rule_id file line = is_empty-trim _ _ (ground arith)

canonical_finding_id_lem : (raw : RawFinding) → is_vacant (canonical_finding_id raw) ≡ false
unfolding canonical_finding_id
canonical_finding_id_lem raw = detection_key_lem raw.scanner raw.rule_id raw.file raw.line

title_lem : (kind : ScannerKind) (rule_id : Str) → is_vacant (scanner_title kind rule_id) ≡ false
unfolding scanner_title str
title_lem gitleaks rule_id = is_empty-trim _ _ (ground arith)
title_lem osv rule_id = is_empty-trim _ _ (ground arith)
title_lem semgrep rule_id = is_empty-trim _ _ (ground arith)
title_lem other rule_id = is_empty-trim _ _ (ground arith)

description_lem :
    (kind : ScannerKind) (rule_id : Str) → is_vacant (scanner_description kind rule_id) ≡ false
unfolding scanner_description str
description_lem gitleaks rule_id = is_empty-trim _ _ (ground arith)
description_lem osv rule_id = is_empty-trim _ _ (ground arith)
description_lem semgrep rule_id = is_empty-trim _ _ (ground arith)
description_lem other rule_id = is_empty-trim _ _ (ground arith)

severity_lem :
    (kind : ScannerKind) (rule_id : Str) → is_vacant (scanner_severity kind rule_id) ≡ false
unfolding scanner_severity str
severity_lem gitleaks rule_id = is_empty-trim _ _ (ground arith)
severity_lem osv rule_id = is_empty-trim _ _ (ground arith)
severity_lem semgrep rule_id = elim (Bool-cases (contains rule_id (str "critical"))) [
  | inl e ↦ rw e (is_empty-trim _ _ (ground arith))
  | inr e ↦ rw e (is_empty-trim _ _ (ground arith))
]
severity_lem other rule_id = is_empty-trim _ _ (ground arith)

digest_lem : (s : Str) → is_lower_hex_digest s ≡ true → is_vacant s ≡ false
unfolding is_lower_hex_digest is_digit
digest_lem [] h = absurd (ground arith)
digest_lem (x ∷ s) h = is_empty-trim x s (ground arith)

-- The finding with its evidence marked as redacted.
abbrev pub marked_redacted : CanonicalFinding → CanonicalFinding
marked_redacted f = record f { evidence = record f.evidence { redacted = true } }

canonical_finding_lem :
    (raw : RawFinding) (snapshot : RepositorySnapshot) (version : Str)
    → IsNormal raw snapshot version
    → (validate_canonical_finding (canonical_finding raw snapshot version)
        ≡ invalid unredacted_evidence)
      × (validate_canonical_finding (marked_redacted (canonical_finding raw snapshot version))
          ≡ valid tt)
unfolding validate_canonical_finding canonical_finding
canonical_finding_lem raw snapshot version n =
    let id_ok = canonical_finding_id_lem raw in
    let title_ok = title_lem raw.scanner raw.rule_id in
    let description_ok = description_lem raw.scanner raw.rule_id in
    let severity_ok = severity_lem raw.scanner raw.rule_id in
    let digest_ok = digest_lem snapshot.tree_sha256 n.hashed in
    (
      rw
          (
            id_ok, title_ok, description_ok, severity_ok, n.ruled, digest_ok, n.versioned,
            n.located, n.positive, n.shown,
          )
          refl,
      rw
          (
            id_ok, title_ok, description_ok, severity_ok, n.ruled, digest_ok, n.versioned,
            n.located, n.positive, n.shown,
          )
          refl,
    )

-- A normalized finding is not valid yet, for nothing but its evidence, which is not redacted:
-- marked as redacted, it is valid.
pub normalize_raw_finding-awaits_redaction :
    (raw : RawFinding) (snapshot : RepositorySnapshot) (version : Str) (f : CanonicalFinding)
    → normalize_raw_finding raw snapshot version ≡ valid f
    → (validate_canonical_finding f ≡ invalid unredacted_evidence)
      × (validate_canonical_finding (marked_redacted f) ≡ valid tt)
normalize_raw_finding-awaits_redaction raw snapshot version f h =
    let (n, same) = normalize_raw_finding-IsNormal raw snapshot version f h in
    subst
      (λ f.
        (validate_canonical_finding f ≡ invalid unredacted_evidence)
        × (validate_canonical_finding (marked_redacted f) ≡ valid tt))
      same (canonical_finding_lem raw snapshot version n)
