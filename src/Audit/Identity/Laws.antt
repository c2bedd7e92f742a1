-- ===== src/Audit/Identity/Laws.antt =====
-- What a normalized finding is like.
use mathlib.Core.Path.{subst}
use fire_crow.Prelude.{
  ℕ, ◌≡◌, refl, inl, inr, true, false, Option, ◌∷◌, ltb, not, ◌&&◌, arith, Bool-cases, Option-cases,
}
use fire_crow.Prelude.Fallible.{ok, bind-ok, ok_injective}
use fire_crow.Text.{Str, str, str_eq}
use fire_crow.Text.Equality.{eq_of_str_eq}
use fire_crow.Text.Trim.{is_blank, is_empty-trim}
use fire_crow.Audit.Schema.{Finding}
use fire_crow.Audit.Services.{Services}
use fire_crow.Audit.Metadata.{
  is_vacant, parse_metadata, native_rule_id, native_fingerprint, check_metadata_size,
}
use fire_crow.Audit.Location.{finding_location, finding_provenance}
use fire_crow.Audit.Evidence.{check_evidence}
use fire_crow.Audit.Identity.{
  check_texts, evidence_of, kind_of, known_scanners, is_known_scanner, scanner_of, named_scanner,
  canonical_finding_id, canonical_identity, NormalizedFinding, normalize_finding,
}

literal_named :
    (x : ℕ) (s : Str) → (ltb x 0x80 && not (is_blank x)) ≡ true → is_vacant (x ∷ s) ≡ false
literal_named x s h = is_empty-trim x s (ground (arith, h), ground (arith, h))

named_by :
    (name scanner : Str)
    → str_eq name scanner ≡ true
    → is_vacant name ≡ false
    → is_vacant scanner ≡ false
named_by name scanner e h = subst (λ s. is_vacant s ≡ false) (eq_of_str_eq name scanner e) h

-- The scanners that are known have names.
is_known_scanner-named :
    (scanner mode : Str)
    → is_known_scanner known_scanners scanner mode ≡ true
    → is_vacant scanner ≡ false
unfolding is_known_scanner str
is_known_scanner-named scanner mode h = elim (Bool-cases (str_eq (str "gitleaks") scanner)) [
  | inl e ↦ named_by (str "gitleaks") scanner e (literal_named _ _ refl)
  | inr e ↦ elim (Bool-cases (str_eq (str "osv") scanner)) [
    | inl f ↦ named_by (str "osv") scanner f (literal_named _ _ refl)
    | inr f ↦ named_by (str "semgrep") scanner (ground (arith, e, f, h)) (literal_named _ _ refl)
  ]
]

scanner_of-named :
    (finding : Finding) (scanner : Str)
    → scanner_of finding ≡ ok scanner
    → named_scanner finding ≡ ok scanner
unfolding scanner_of named_scanner
scanner_of-named finding scanner h = elim (Option-cases finding.scanner_name) [
  | inl e ↦ absurd (ground (arith, e, h))
  | inr (name, e) ↦ elim (Option-cases finding.scanner_mode) [
    | inl f ↦ absurd (ground (arith, e, f, h))
    | inr (mode, f) ↦ elim (Bool-cases (is_known_scanner known_scanners name mode)) [
      | inl k ↦ let v = is_known_scanner-named name mode k in ground (arith, e, f, h, k, v)
      | inr k ↦ absurd (ground (arith, e, f, h, k))
    ]
  ]
]

-- The steps that made a normalized finding.
abbrev pub Steps : Services → Option Str → Finding → NormalizedFinding → Type 0
Steps services commit finding n =
    (scanner : Str) × (rule_id : Str) × (native_fp : Str) × (scanner_of finding ≡ ok scanner)
    × (parse_metadata services finding ≡ ok n.metadata)
    × (check_metadata_size services n.metadata ≡ ok tt)
    × (native_rule_id n.metadata ≡ ok rule_id)
    × (native_fingerprint n.metadata ≡ ok native_fp)
    × (finding_provenance finding n.metadata commit ≡ ok n.provenance)
    × (finding_location finding n.metadata ≡ ok n.location)
    × (evidence_of finding.evidence ≡ ok n.evidence_text)
    × (check_evidence services n.evidence_kind n.evidence_text ≡ ok tt)
    × (canonical_finding_id services scanner rule_id native_fp n.location n.metadata finding
        ≡ ok n.canonical_id)
    × (n.evidence_kind ≡ kind_of scanner)
    × (n.finding ≡ finding)

pub normalize_finding-Steps :
    (services : Services) (commit : Option Str) (finding : Finding) (n : NormalizedFinding)
    → normalize_finding services commit finding ≡ ok n
    → Steps services commit finding n
unfolding normalize_finding
normalize_finding-Steps services commit finding n h =
    let (scanner, e1, h1) = bind-ok (scanner_of finding) _ n h in
    let (u, e2, h2) = bind-ok (check_texts finding scanner) _ n h1 in
    let (m, e3, h3) = bind-ok (parse_metadata services finding) _ n h2 in
    let (v, e4, h4) = bind-ok (check_metadata_size services m) _ n h3 in
    let (rule_id, e5, h5) = bind-ok (native_rule_id m) _ n h4 in
    let (native_fp, e6, h6) = bind-ok (native_fingerprint m) _ n h5 in
    let (provenance, e7, h7) = bind-ok (finding_provenance finding m commit) _ n h6 in
    let (location, e8, h8) = bind-ok (finding_location finding m) _ n h7 in
    let (evidence, e9, h9) = bind-ok (evidence_of finding.evidence) _ n h8 in
    let (w, e10, h10) = bind-ok (check_evidence services (kind_of scanner) evidence) _ n h9 in
    let (id, e11, h11) =
      bind-ok (canonical_finding_id services scanner rule_id native_fp location m finding) _ n
        h10 in
    subst (Steps services commit finding) (ok_injective h11)
      (scanner, rule_id, native_fp, e1, e3, e4, e5, e6, e7, e8, e9, e10, e11, refl, refl)

-- A finding that is normalized, under whatever snapshot, keeps the identity it has by itself.
pub normalize_finding-canonical_identity :
    (services : Services) (commit : Option Str) (finding : Finding) (n : NormalizedFinding)
    → normalize_finding services commit finding ≡ ok n
    → canonical_identity services finding ≡ ok n.canonical_id
unfolding canonical_identity
normalize_finding-canonical_identity services commit finding n h =
    let (scanner, rule_id, native_fp, e1, e3, e4, e5, e6, e7, e8, e9, e10, e11, k, f) =
      normalize_finding-Steps services commit finding n h in
    rw (e3, e5, e6, scanner_of-named finding scanner e1, e8) e11
