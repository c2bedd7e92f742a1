-- ===== src/Audit/Normalize.antt =====
-- `normalize_findings` and `normalize_findings_for_persist` of
-- backend/src/orchestrator/canonical_audit.rs.
pub mod Groups
pub mod Laws
use fire_crow.Prelude.{
  ℕ, ◌+◌, ◌-◌, Bool, true, false, not, ◌&&◌, ◌||◌, Option, none, some, List, [], ◌∷◌, ◌++◌,
  if◌then◌else◌, is_empty, map, length, ltb, leb, ◌==◌,
}
use fire_crow.Prelude.Fallible.{Result, ok, err}
use fire_crow.Text.{Str, str, str_eq}
use fire_crow.Text.Control.{char_count}
use fire_crow.Text.Decimal.{decimal}
use fire_crow.Json.{Value, object, number, pos_int, pairs}
use fire_crow.Order.{str_leb}
use fire_crow.Order.Sort.{sort_by}
use fire_crow.Order.Tree.{map_insert, map_push, map_count}
use fire_crow.Audit.Schema.{Finding, InvalidFinding, severity_name}
use fire_crow.Audit.Services.{Services, unwrap_or}
use fire_crow.Audit.Metadata.{entries_of}
use fire_crow.Audit.Identity.{NormalizedFinding, normalize_finding}

pub record NormalizedFindings : Type 0 where
  pub valid : List NormalizedFinding
  pub invalid : List InvalidFinding
  pub correlations : ℕ
  pub valid_count_by_scanner : List (Str × ℕ)
  pub valid_count_by_severity : List (Str × ℕ)

-- A finding that was refused, before it has its id.
unfoldable pub refused : Finding → Str → InvalidFinding
refused finding reason = record {
  id = [];
  scanner = finding.scanner_name;
  file = finding.file_path;
  reason = reason;
  evidence_chars = elim finding.evidence [ none ↦ none | some text ↦ some (char_count text) ];
}

-- The loop over the findings: those that are normalized and those that are not.
unfoldable pub sift :
    Services → Option Str → List Finding → List NormalizedFinding × List InvalidFinding
unfolding refused
sift services commit [] = ([], [])
sift services commit (finding ∷ findings) =
    let (valid, invalid) = sift services commit findings in
    elim (normalize_finding services commit finding) [
      | ok n ↦ (n ∷ valid, invalid)
      | err reason ↦ (valid, refused finding reason ∷ invalid)
    ]

unfoldable pub by_canonical_id : NormalizedFinding → NormalizedFinding → Bool
by_canonical_id a b = str_leb a.canonical_id b.canonical_id

-- Groups by key, in the order of the keys, each in the order of the list.
module _ {ℓ} {A : Type ℓ} (key : A → Str) where
  unfoldable pub group_onto : List (Str × List A) → List A → List (Str × List A)
  group_onto groups [] = groups
  group_onto groups (x ∷ xs) = group_onto (map_push (key x) x groups) xs

-- The metadata of a representative, with the number of the findings it stands for.
unfoldable pub record_merge : Services → ℕ → Finding → Finding
record_merge services occurrences finding = elim finding.metadata_json [
  | none ↦ finding
  | some raw ↦ elim (services.parse_json raw) [
    | some (object es) ↦
        let m =
          map_insert (str "duplicate_occurrences") (number (pos_int occurrences)) (pairs es) in
        record finding { metadata_json = some (services.show_json (object (entries_of m))) }
    | _ ↦ finding
  ]
]

unfoldable pub by_storage_id : NormalizedFinding → NormalizedFinding → Bool
by_storage_id a b = str_leb a.finding.id b.finding.id

-- The first of a group once it is ordered.
unfoldable pub merged : Services → ℕ → List NormalizedFinding → List NormalizedFinding
unfolding record_merge
merged services occurrences [] = []
merged services occurrences (n ∷ ns) =
    if ltb 1 occurrences
    then record n { finding = record_merge services occurrences n.finding } ∷ []
    else n ∷ []

-- The representatives of the groups.
unfoldable pub representatives :
    Services → List (Str × List NormalizedFinding) → List NormalizedFinding
unfolding merged by_storage_id
representatives services [] = []
representatives services ((id, group) ∷ groups) =
    merged services (length group) (sort_by by_storage_id group) ++ representatives services groups

-- The number of the groups with more than one finding.
unfoldable pub duplicate_groups : {A : Type 0} → List (Str × List A) → ℕ
duplicate_groups [] = 0
duplicate_groups ((id, group) ∷ groups) =
    let rest = duplicate_groups groups in if ltb 1 (length group) then rest + 1 else rest

-- `*counts.entry(key).or_insert(0) += 1` for each element.
module _ {ℓ} {A : Type ℓ} (key : A → Str) where
  unfoldable pub count_onto : List (Str × ℕ) → List A → List (Str × ℕ)
  count_onto counts [] = counts
  count_onto counts (x ∷ xs) = count_onto (map_count (key x) counts) xs

-- The key of a finding that was refused, and the order of such keys.
abbrev pub InvalidKey : Type 0
InvalidKey = Str × Str × Str × ℕ

unfoldable pub invalid_key : InvalidFinding → InvalidKey
invalid_key item = (
  unwrap_or item.scanner [],
  unwrap_or item.file [],
  item.reason,
  unwrap_or item.evidence_chars 0,
)

unfoldable pub key_eq : InvalidKey → InvalidKey → Bool
key_eq (a, b, c, n) (a2, b2, c2, n2) = str_eq a a2 && (str_eq b b2 && (str_eq c c2 && n == n2))

unfoldable pub invalid_before : InvalidFinding → InvalidFinding → Bool
unfolding invalid_key
invalid_before x y =
    let (a, b, c, n) = invalid_key x in
    let (a2, b2, c2, n2) = invalid_key y in
    if not (str_eq a a2)
    then str_leb a a2
    else if not (str_eq b b2)
    then str_leb b b2
    else if not (str_eq c c2)
    then str_leb c c2
    else leb n n2

unfoldable pub invalid_id : Services → InvalidKey → ℕ → Str
invalid_id services (scanner, file, reason, chars) occurrence =
    str "invalid-v1:"
    ++ services.sha256_hex (
        scanner
        ++ str "|"
        ++ file
        ++ str "|"
        ++ reason
        ++ str "|"
        ++ decimal chars
        ++ str "|"
        ++ decimal occurrence)

-- The number of the key, after `last` with its number.
unfoldable pub next_occurrence : Option (InvalidKey × ℕ) → InvalidKey → ℕ
unfolding key_eq
next_occurrence none key = 0
next_occurrence (some (last, n)) key = if key_eq last key then n + 1 else 0

-- The loop that numbers the refused findings of one key.
unfoldable pub identify :
    Services → Option (InvalidKey × ℕ) → List InvalidFinding → List InvalidFinding
unfolding next_occurrence invalid_id
identify services last [] = []
identify services last (item ∷ items) =
    let key = invalid_key item in
    let n = next_occurrence last key in
    record item { id = invalid_id services key n } ∷ identify services (some (key, n)) items

unfoldable pub quarantine : Services → List InvalidFinding → List InvalidFinding
unfolding identify invalid_before
quarantine services invalid = identify services none (sort_by invalid_before invalid)

unfoldable pub id_of : NormalizedFinding → Str
id_of n = n.canonical_id

unfoldable pub deduplicate : Services → List NormalizedFinding → List NormalizedFinding
unfolding representatives group_onto by_canonical_id id_of
deduplicate services valid =
    sort_by by_canonical_id
      (representatives services (group_onto id_of [] (sort_by by_canonical_id valid)))

unfoldable pub normalize_findings : Services → List Finding → Option Str → NormalizedFindings
unfolding sift deduplicate duplicate_groups count_onto quarantine
normalize_findings services findings commit =
    let (valid, invalid) = sift services commit findings in
    let deduplicated = deduplicate services valid in
    record {
      valid = deduplicated;
      invalid = quarantine services invalid;
      correlations = duplicate_groups (group_onto id_of [] (sort_by by_canonical_id valid));
      valid_count_by_scanner = count_onto (λ n. n.provenance.scanner) [] deduplicated;
      valid_count_by_severity = count_onto (λ n. severity_name n.finding.severity) [] deduplicated;
    }
