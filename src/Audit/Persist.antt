-- ===== src/Audit/Persist.antt =====
-- `normalize_findings_for_persist` and `NormalizedPersisted` of
-- backend/src/orchestrator/canonical_audit.rs.
pub mod Laws
use fire_crow.Prelude.{
  ℕ, ◌+◌, ◌-◌, Bool, false, not, ◌&&◌, Option, none, some, List, [], ◌∷◌, ◌++◌, if◌then◌else◌,
  length, ltb, leb, ◌==◌,
}
use fire_crow.Prelude.Fallible.{ok, err}
use fire_crow.Text.{Str, str, str_eq}
use fire_crow.Text.Control.{char_count}
use fire_crow.Text.Decimal.{decimal}
use fire_crow.Json.{Value, object, number, pos_int, pairs}
use fire_crow.Order.{str_leb}
use fire_crow.Order.Sort.{sort_by}
use fire_crow.Order.Tree.{map_insert, map_push}
use fire_crow.Audit.Schema.{Finding, InvalidFinding}
use fire_crow.Audit.Services.{Services, unwrap_or}
use fire_crow.Audit.Metadata.{entries_of}
use fire_crow.Audit.Identity.{normalize_finding}

pub record NormalizedPersisted : Type 0 where
  pub raw_count : ℕ
  pub dropped_count : ℕ
  pub valid : List Finding
  pub invalid : List InvalidFinding
  pub duplicate_count : ℕ

-- A finding that was refused, before it has its id.
unfoldable pub unnumbered : Finding → Str → InvalidFinding
unnumbered finding reason = record {
  id = [];
  scanner = finding.scanner_name;
  file = finding.file_path;
  reason = reason;
  evidence_chars = elim finding.evidence [ none ↦ none | some text ↦ some (char_count text) ];
}

-- The loop over the findings: those that are normalized, with their identities, and the others.
unfoldable pub persist_sift : Services → List Finding → List (Str × Finding) × List InvalidFinding
unfolding unnumbered
persist_sift services [] = ([], [])
persist_sift services (finding ∷ findings) =
    let (valid, invalid) = persist_sift services findings in
    elim (normalize_finding services none finding) [
      | ok n ↦ ((n.canonical_id, finding) ∷ valid, invalid)
      | err reason ↦ (valid, unnumbered finding reason ∷ invalid)
    ]

unfoldable pub by_identity : Str × Finding → Str × Finding → Bool
by_identity (a, f) (b, g) = str_leb a b

unfoldable pub group_identities :
    List (Str × List Finding) → List (Str × Finding) → List (Str × List Finding)
group_identities groups [] = groups
group_identities groups ((identity, finding) ∷ valid) =
    group_identities (map_push identity finding groups) valid

unfoldable pub by_row : Finding → Finding → Bool
by_row a b = str_leb a.id b.id

-- The metadata of a row, with the number of the rows it stands for.
unfoldable pub record_occurrences : Services → ℕ → Finding → Finding
record_occurrences services occurrences row = elim row.metadata_json [
  | none ↦ row
  | some raw ↦ elim (services.parse_json raw) [
    | some (object es) ↦
        let metadata =
          map_insert (str "duplicate_occurrences") (number (pos_int occurrences)) (pairs es) in
        record row { metadata_json = some (services.show_json (object (entries_of metadata))) }
    | _ ↦ row
  ]
]

-- The row that is kept of a group once it is ordered.
unfoldable pub kept_row : Services → ℕ → List Finding → List Finding
unfolding record_occurrences
kept_row services occurrences [] = []
kept_row services occurrences (row ∷ rows) =
    (if ltb 1 occurrences then record_occurrences services occurrences row else row) ∷ []

unfoldable pub kept_rows : Services → List (Str × List Finding) → List Finding
unfolding kept_row by_row
kept_rows services [] = []
kept_rows services ((identity, group) ∷ groups) =
    kept_row services (length group) (sort_by by_row group) ++ kept_rows services groups

-- The number of the groups with more than one row.
unfoldable pub shared_groups : List (Str × List Finding) → ℕ
shared_groups [] = 0
shared_groups ((identity, group) ∷ groups) =
    let rest = shared_groups groups in if ltb 1 (length group) then rest + 1 else rest

-- The scanner, the file, the reason and the number of characters of a refused finding.
abbrev pub RefusalKey : Type 0
RefusalKey = Str × Str × Str × ℕ

unfoldable pub refusal_key : InvalidFinding → RefusalKey
refusal_key item = (
  unwrap_or item.scanner [],
  unwrap_or item.file [],
  item.reason,
  unwrap_or item.evidence_chars 0,
)

-- The order of tuples: the first parts that differ decide.
unfoldable pub refusal_before : InvalidFinding → InvalidFinding → Bool
unfolding refusal_key
refusal_before x y =
    let (scanner, file, reason, chars) = refusal_key x in
    let (scanner', file', reason', chars') = refusal_key y in
    if not (str_eq scanner scanner')
    then str_leb scanner scanner'
    else if not (str_eq file file')
    then str_leb file file'
    else if not (str_eq reason reason')
    then str_leb reason reason'
    else leb chars chars'

-- `last_key.as_ref() == Some(&key)`
unfoldable pub is_last_key : Option RefusalKey → RefusalKey → Bool
is_last_key none key = false
is_last_key (some (scanner, file, reason, chars)) (scanner', file', reason', chars') =
    str_eq scanner scanner' && (str_eq file file' && (str_eq reason reason' && chars == chars'))

unfoldable pub refusal_id : Services → RefusalKey → ℕ → Str
refusal_id services (scanner, file, reason, chars) occurrence =
    str "invalid-v1:"
    ++ services.sha256_hex (
        scanner
        ++ str "|"
        ++ file
        ++ str "|"
        ++ reason
        ++ str "|"
        ++ decimal chars
        ++ str "|"
        ++ decimal occurrence)

-- The loop over the refused findings, with its variables `last_key` and `occurrence`.
unfoldable pub number_refusals :
    Services → Option RefusalKey → ℕ → List InvalidFinding → List InvalidFinding
unfolding refusal_key is_last_key refusal_id
number_refusals services last_key occurrence [] = []
number_refusals services last_key occurrence (item ∷ items) =
    let key = refusal_key item in
    let occurrence' = if is_last_key last_key key then occurrence + 1 else 0 in
    record item { id = refusal_id services key occurrence' }
    ∷ number_refusals services (some key) occurrence' items

unfoldable pub normalize_findings_for_persist : Services → List Finding → NormalizedPersisted
unfolding persist_sift by_identity group_identities kept_rows shared_groups refusal_before
    number_refusals
normalize_findings_for_persist services findings =
    let (valid, invalid) = persist_sift services findings in
    let groups = group_identities [] (sort_by by_identity valid) in
    let deduplicated = kept_rows services groups in
    record {
      raw_count = length findings;
      dropped_count = length findings - length deduplicated;
      valid = deduplicated;
      invalid = number_refusals services none 0 (sort_by refusal_before invalid);
      duplicate_count = shared_groups groups;
    }
