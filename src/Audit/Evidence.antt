-- ===== src/Audit/Evidence.antt =====
-- `check_evidence`, `check_text` and `canonical_references` of
-- backend/src/orchestrator/canonical_audit.rs.
use fire_crow.Prelude.{
  ℕ, Bool, not, ◌&&◌, ◌||◌, none, some, List, [], ◌∷◌, ◌++◌, if◌then◌else◌, length, ltb,
}
use fire_crow.Prelude.Fallible.{Result, ok, err, ◌>>=◌, reject_if, Done}
use fire_crow.Text.{Str, str, str_eq, contains, starts_with}
use fire_crow.Text.Trim.{trim}
use fire_crow.Text.Control.{char_count}
use fire_crow.Json.{Value, get, as_str, as_array}
use fire_crow.Order.{str_leb}
use fire_crow.Order.Sort.{sort_by}
use fire_crow.Audit.Schema.{EvidenceKind, secret, CanonicalReference}
use fire_crow.Audit.Services.{Services, contains_known_credential_assignment}
use fire_crow.Audit.Metadata.{Metadata, is_vacant}
use fire_crow.Audit.Runs.{value_get}

abbrev pub max_evidence_chars : ℕ
max_evidence_chars = 512

abbrev pub max_text_chars : ℕ
max_text_chars = 4096

abbrev pub max_references : ℕ
max_references = 64

abbrev pub max_reference_url_chars : ℕ
max_reference_url_chars = 2048

-- A text in which a secret was replaced.
unfoldable pub is_redacted : Str → Bool
is_redacted evidence =
    contains evidence (str "[REDACTED]") || contains evidence (str "[BASE64_REDACTED]")

unfoldable pub check_evidence : Services → EvidenceKind → Str → Result Str Done
unfolding is_redacted
check_evidence services kind evidence =
    if ltb max_evidence_chars (char_count evidence)
    then err (str "finding evidence exceeds the canonical bound")
    else elim kind [
      | secret ↦
          reject_if (not (is_redacted evidence)) (str "secret evidence has no redaction marker")
      | _ ↦
          reject_if (contains_known_credential_assignment services evidence)
            (str "evidence contains an unredacted credential shape")
    ]

unfoldable pub check_text : Str → Str → Result Str Done
check_text field value =
    if is_vacant value
    then err (str "finding " ++ field ++ str " is empty")
    else if ltb max_text_chars (char_count value)
    then err (str "finding " ++ field ++ str " exceeds the canonical bound")
    else ok tt

-- A text of an object under a key, trimmed and not blank.
unfoldable pub reference_text : Value → Str → Str → Result Str Str
reference_text v key error = elim (value_get v key) [
  | none ↦ err error
  | some w ↦ elim (as_str w) [
    | none ↦ err error
    | some text ↦ if is_vacant text then err error else ok (trim text)
  ]
]

unfoldable pub parse_reference : Value → Result Str CanonicalReference
unfolding reference_text
parse_reference v = do
  reference_type ← reference_text v (str "type") (str "finding reference type is invalid")
  _ ← reject_if (ltb 32 (char_count reference_type)) (str "finding reference type is too long")
  url ← reference_text v (str "url") (str "finding reference URL is invalid")
  _ ←
      reject_if (ltb max_reference_url_chars (char_count url))
        (str "finding reference URL is too long")
  _ ←
      reject_if (not (starts_with url (str "http://") || starts_with url (str "https://")))
        (str "finding reference URL is invalid")
  ok (record { reference_type = reference_type; url = url })

unfoldable pub parse_references : List Value → Result Str (List CanonicalReference)
unfolding parse_reference
parse_references [] = ok []
parse_references (v ∷ vs) = do
  reference ← parse_reference v
  references ← parse_references vs
  ok (reference ∷ references)

-- By URL, then by type.
unfoldable pub reference_before : CanonicalReference → CanonicalReference → Bool
reference_before a b =
    if str_eq a.url b.url then str_leb a.reference_type b.reference_type else str_leb a.url b.url

-- `dedup_by`: of equal neighbours the first one stays.
unfoldable pub dedup_after : CanonicalReference → List CanonicalReference → List CanonicalReference
dedup_after a [] = []
dedup_after a (b ∷ rs) =
    let without = dedup_after a rs in
    let others = dedup_after b rs in
    if str_eq b.url a.url && str_eq b.reference_type a.reference_type then without else b ∷ others

unfoldable pub dedup : List CanonicalReference → List CanonicalReference
unfolding dedup_after
dedup [] = []
dedup (r ∷ rs) = r ∷ dedup_after r rs

unfoldable pub canonical_references : Metadata → Result Str (List CanonicalReference)
unfolding parse_references dedup reference_before
canonical_references m = elim (get m (str "references")) [
  | none ↦ ok []
  | some v ↦ elim (as_array v) [
    | none ↦ err (str "finding references are invalid")
    | some vs ↦
        if ltb max_references (length vs)
        then err (str "finding has too many references")
        else parse_references vs >>= λ references. ok (dedup (sort_by reference_before references))
  ]
]
