-- ===== src/Audit/Identity.antt =====
-- The identity of a finding and its normal form: `canonical_finding_id`, `canonical_identity` and
-- `normalize_finding` of backend/src/orchestrator/canonical_audit.rs.
pub mod Laws
pub mod Safety
use fire_crow.Prelude.{
  ℕ, Bool, true, false, not, ◌&&◌, ◌||◌, Option, none, some, List, [], ◌∷◌, ◌++◌, if◌then◌else◌,
  is_empty, map,
}
use fire_crow.Prelude.Fallible.{Result, ok, err, ◌>>=◌, reject_if, ok_or, Done}
use fire_crow.Text.{Str, str, str_eq, contains}
use fire_crow.Text.Trim.{trim}
use fire_crow.Text.Decimal.{ℤ, pos}
use fire_crow.Json.{Value, null, string, object, get, json_int}
use fire_crow.Order.Tree.{map_insert}
use fire_crow.Audit.Schema.{
  Finding, CanonicalLocation, CanonicalProvenance, EvidenceKind, secret, dependency, source,
  unclassified,
}
use fire_crow.Audit.Services.{Services, unwrap_or}
use fire_crow.Audit.Metadata.{
  Metadata, is_vacant, parse_metadata, native_rule_id, native_fingerprint, entries_of,
  check_metadata_size,
}
use fire_crow.Audit.Location.{finding_location, finding_provenance}
use fire_crow.Audit.Evidence.{check_evidence, check_text}

abbrev pub canonical_audit_version : ℕ
canonical_audit_version = 1

abbrev pub known_scanners : List (Str × Str)
known_scanners =
    (str "gitleaks", str "secret")
    ∷ (str "osv", str "dependency")
    ∷ (str "semgrep", str "sast")
    ∷ []

-- `KNOWN_SCANNERS.iter().any(..)`
unfoldable pub is_known_scanner : List (Str × Str) → Str → Str → Bool
is_known_scanner [] scanner mode = false
is_known_scanner ((name, scanner_mode) ∷ known) scanner mode =
    str_eq name scanner && str_eq scanner_mode mode || is_known_scanner known scanner mode

abbrev pub or_null : Option Value → Value
or_null none = null
or_null (some v) = v

-- A column or a line of the payload.
abbrev pub int_or_null : Option ℤ → Value
int_or_null none = null
int_or_null (some n) = json_int n

-- `payload.insert(key, metadata.get(key).cloned().unwrap_or(Null))` for each key.
unfoldable pub insert_keys : List Str → Metadata → Metadata → Metadata
insert_keys [] m payload = payload
insert_keys (key ∷ keys) m payload =
    insert_keys keys m (map_insert key (or_null (get m key)) payload)

-- What the identity of a finding is the digest of.
unfoldable pub identity_payload :
    Services → Str → Str → Str → CanonicalLocation → Metadata → Option Str → Metadata
unfolding insert_keys
identity_payload services scanner rule_id native_fp location m evidence =
    let own = map_insert (str "end_column") (int_or_null location.end_column) (
      map_insert (str "end_line") (int_or_null location.end_line) (
        map_insert (str "start_column") (int_or_null location.start_column) (
          map_insert (str "line") (json_int location.line) (
            map_insert (str "file") (string location.file) (
              map_insert (str "native_fingerprint") (string native_fp) (
                map_insert (str "rule_id") (string rule_id) (
                  map_insert (str "scanner") (string scanner)
                    (map_insert (str "v") (json_int (pos canonical_audit_version)) [])))))))) in
    let given =
      insert_keys
        (str "package"
          ∷ str "installed_version"
          ∷ str "ecosystem"
          ∷ str "manifest"
          ∷ str "advisory"
          ∷ str "direct"
          ∷ [])
        m own in
    map_insert (str "evidence_sha256") (string (services.sha256_hex (unwrap_or evidence []))) given

unfoldable pub canonical_finding_id :
    Services → Str → Str → Str → CanonicalLocation → Metadata → Finding → Result Str Str
unfolding identity_payload
canonical_finding_id services scanner rule_id native_fp location m finding = do
  let payload = identity_payload services scanner rule_id native_fp location m finding.evidence
  serialized ←
      ok_or (services.print_json (object (entries_of payload)))
        (str "finding identity cannot be serialized")
  ok (str "canonical-v1:" ++ services.sha256_hex serialized)

-- `finding.scanner_name`, if it is not blank.
unfoldable pub named_scanner : Finding → Result Str Str
named_scanner finding = elim finding.scanner_name [
  | none ↦ err (str "finding has no scanner identity")
  | some scanner ↦
      if is_vacant scanner then err (str "finding has no scanner identity") else ok scanner
]

unfoldable pub canonical_identity : Services → Finding → Result Str Str
unfolding named_scanner
canonical_identity services finding = do
  m ← parse_metadata services finding
  rule_id ← native_rule_id m
  native_fp ← native_fingerprint m
  scanner ← named_scanner finding
  location ← finding_location finding m
  canonical_finding_id services scanner rule_id native_fp location m finding

pub record NormalizedFinding : Type 0 where
  pub finding : Finding
  pub metadata : Metadata
  pub canonical_id : Str
  pub native_id : Str
  pub provenance : CanonicalProvenance
  pub location : CanonicalLocation
  pub evidence_kind : EvidenceKind
  pub evidence_text : Str
  pub evidence_truncated : Bool

-- `finding.scanner_name` and `finding.scanner_mode`, if both are there and belong together.
unfoldable pub scanner_of : Finding → Result Str Str
unfolding is_known_scanner
scanner_of finding = elim finding.scanner_name [
  | none ↦ err (str "finding has no scanner identity")
  | some scanner ↦ elim finding.scanner_mode [
    | none ↦ err (str "finding has no scanner identity")
    | some mode ↦
        if is_known_scanner known_scanners scanner mode
        then ok scanner
        else err (str "finding has an unknown scanner identity")
  ]
]

unfoldable pub check_remediation : Option Str → Result Str Done
check_remediation none = ok tt
check_remediation (some remediation) = check_text (str "remediation") remediation

unfoldable pub kind_of : Str → EvidenceKind
kind_of scanner =
    if str_eq scanner (str "gitleaks")
    then secret
    else if str_eq scanner (str "osv")
    then dependency
    else if str_eq scanner (str "semgrep")
    then source
    else unclassified

-- The evidence, trimmed and not empty.
unfoldable pub evidence_of : Option Str → Result Str Str
evidence_of none = err (str "finding evidence is empty")
evidence_of (some evidence) =
    if is_empty (trim evidence) then err (str "finding evidence is empty") else ok (trim evidence)

-- The checks of the texts of a finding from `scanner`.
unfoldable pub check_texts : Finding → Str → Result Str Done
unfolding check_remediation
check_texts finding scanner = do
  _ ←
      reject_if (not (str_eq finding.agent_source scanner))
        (str "finding scanner identity mismatch")
  _ ← reject_if (is_vacant finding.title) (str "finding title is empty")
  _ ← reject_if (is_vacant finding.description) (str "finding description is empty")
  _ ← check_text (str "title") finding.title
  _ ← check_text (str "description") finding.description
  check_remediation finding.remediation

unfoldable pub normalize_finding : Services → Option Str → Finding → Result Str NormalizedFinding
unfolding scanner_of check_texts kind_of evidence_of
normalize_finding services snapshot_commit finding = do
  scanner ← scanner_of finding
  _ ← check_texts finding scanner
  m ← parse_metadata services finding
  _ ← check_metadata_size services m
  rule_id ← native_rule_id m
  native_fp ← native_fingerprint m
  provenance ← finding_provenance finding m snapshot_commit
  location ← finding_location finding m
  evidence ← evidence_of finding.evidence
  _ ← check_evidence services (kind_of scanner) evidence
  canonical_id ← canonical_finding_id services scanner rule_id native_fp location m finding
  ok (record {
    finding = finding;
    metadata = m;
    canonical_id = canonical_id;
    native_id = scanner ++ str ":" ++ native_fp;
    provenance = provenance;
    location = location;
    evidence_kind = kind_of scanner;
    evidence_text = evidence;
    evidence_truncated = contains evidence (str "... [truncated]");
  })
