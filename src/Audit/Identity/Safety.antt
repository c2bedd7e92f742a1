-- ===== src/Audit/Identity/Safety.antt =====
-- What a normalized finding may show.
use fire_crow.Prelude.{◌≡◌, ◌≤◌, true, false, not, Option, [], length, any, arith, ltb}
use fire_crow.Prelude.Fallible.{ok, Done, bind-ok, reject_if, reject_if-ok, ok_or, otherwise-ok}
use fire_crow.Text.{Str, str}
use fire_crow.Text.Control.{char_count}
use fire_crow.Json.{object}
use fire_crow.Audit.Schema.{Finding, EvidenceKind, secret, dependency, source, unclassified}
use fire_crow.Audit.Services.{Services, contains_known_credential_assignment}
use fire_crow.Audit.Metadata.{
  Metadata, entries_of, sort_json, metadata_strings, check_metadata_size, max_metadata_bytes,
}
use fire_crow.Audit.Location.Laws.{IsLocation, finding_location-IsLocation}
use fire_crow.Audit.Evidence.{check_evidence, is_redacted}
use fire_crow.Audit.Identity.{NormalizedFinding, normalize_finding}
use fire_crow.Audit.Identity.Laws.{normalize_finding-Steps}

-- The evidence of a secret carries a mark of what was taken out; any other evidence has no shape
-- of a credential.
abbrev pub IsClean : Services → EvidenceKind → Str → Type 0
IsClean services secret evidence = is_redacted evidence ≡ true
IsClean services dependency evidence =
    contains_known_credential_assignment services evidence ≡ false
IsClean services source evidence = contains_known_credential_assignment services evidence ≡ false
IsClean services unclassified evidence =
    contains_known_credential_assignment services evidence ≡ false

check_evidence-IsClean :
    (services : Services) (kind : EvidenceKind) (evidence : Str) (u : Done)
    → check_evidence services kind evidence ≡ ok u
    → (char_count evidence ≤ 512) × IsClean services kind evidence
unfolding check_evidence
check_evidence-IsClean services secret evidence u h =
    let (e, k) = otherwise-ok (ltb 512 (char_count evidence)) _ _ u h in
    (ground (arith, e), ground (arith, reject_if-ok (not (is_redacted evidence)) _ u k))
check_evidence-IsClean services dependency evidence u h =
    let (e, k) = otherwise-ok (ltb 512 (char_count evidence)) _ _ u h in
    (ground (arith, e), reject_if-ok _ _ u k)
check_evidence-IsClean services source evidence u h =
    let (e, k) = otherwise-ok (ltb 512 (char_count evidence)) _ _ u h in
    (ground (arith, e), reject_if-ok _ _ u k)
check_evidence-IsClean services unclassified evidence u h =
    let (e, k) = otherwise-ok (ltb 512 (char_count evidence)) _ _ u h in
    (ground (arith, e), reject_if-ok _ _ u k)

-- No text in the metadata has the shape of a credential.
abbrev pub HasCleanMetadata : Services → Metadata → Type 0
HasCleanMetadata services m =
    any (contains_known_credential_assignment services)
      (metadata_strings (sort_json (object (entries_of m))) [])
    ≡ false

check_metadata_size-clean :
    (services : Services) (m : Metadata) (u : Done)
    → check_metadata_size services m ≡ ok u
    → HasCleanMetadata services m
unfolding check_metadata_size
check_metadata_size-clean services m u h =
    let (serialized, e1, h1) =
      bind-ok (ok_or (services.print_json (sort_json (object (entries_of m)))) _) _ u h in
    let (v, e2, h2) =
      bind-ok
        (reject_if (ltb max_metadata_bytes (length serialized))
          (str "finding metadata exceeds the canonical bound"))
        _ u h1 in
    reject_if-ok
      (any (contains_known_credential_assignment services)
        (metadata_strings (sort_json (object (entries_of m))) []))
      _ u h2

-- A normalized finding has a location within the repository, evidence of at most 512 characters
-- that is clean for its kind, and clean metadata.
abbrev pub IsSafe : Services → NormalizedFinding → Type 0
IsSafe services n =
    IsLocation n.location
    × (char_count n.evidence_text ≤ 512)
    × IsClean services n.evidence_kind n.evidence_text
    × HasCleanMetadata services n.metadata

-- A finding that is normalized is safe.
pub normalize_finding-IsSafe :
    (services : Services) (commit : Option Str) (finding : Finding) (n : NormalizedFinding)
    → normalize_finding services commit finding ≡ ok n
    → IsSafe services n
normalize_finding-IsSafe services commit finding n h =
    let (scanner, rule_id, native_fp, e1, e3, e4, e5, e6, e7, e8, e9, e10, e11, k, f) =
      normalize_finding-Steps services commit finding n h in
    let (bounded, clean) = check_evidence-IsClean services n.evidence_kind n.evidence_text tt e10 in
    (
      finding_location-IsLocation finding n.metadata n.location e8,
      bounded,
      clean,
      check_metadata_size-clean services n.metadata tt e4,
    )
