-- ===== src/Audit/Metadata.antt =====
-- The metadata of a finding: `parse_metadata`, `native_rule_id`, `native_fingerprint`, `sort_json`
-- and `metadata_strings` of backend/src/schemas/canonical_audit.rs, and `check_metadata_size` of
-- backend/src/orchestrator/canonical_audit.rs.
use fire_crow.Prelude.{
  ℕ, Bool, Option, none, some, List, [], ◌∷◌, ◌++◌, if◌then◌else◌, is_empty, length, any, ltb,
}
use fire_crow.Prelude.Fallible.{Result, ok, err, ◌>>=◌, reject_if, ok_or, Done}
use fire_crow.Text.{Str, str}
use fire_crow.Text.Trim.{trim}
use fire_crow.Json.{
  Value, Values, Entries, null, bool, number, string, array, object, nil, cons, end, entry, pairs,
  get, as_str,
}
use fire_crow.Order.Tree.{map_of_onto}
use fire_crow.Audit.Schema.{Finding}
use fire_crow.Audit.Services.{Services, unwrap_or, contains_known_credential_assignment}

-- A `BTreeMap<String, serde_json::Value>`
abbrev pub Metadata : Type 0
Metadata = List (Str × Value)

-- `map.get(key).and_then(|value| value.as_str())`
abbrev pub get_str : Metadata → Str → Option Str
get_str m key = elim (get m key) [ none ↦ none | some v ↦ as_str v ]

-- `s.trim().is_empty()`
abbrev pub is_vacant : Str → Bool
is_vacant s = is_empty (trim s)

abbrev pub max_metadata_bytes : ℕ
max_metadata_bytes = 8192

unfoldable pub parse_metadata : Services → Finding → Result Str Metadata
unfolding map_of_onto
parse_metadata services finding =
    elim (services.parse_json (unwrap_or finding.metadata_json (str "{}"))) [
      | none ↦ err (str "metadata is not valid JSON")
      | some (object es) ↦ ok (map_of_onto [] (pairs es))
      | some _ ↦ err (str "metadata is not a JSON object")
    ]

-- The first of the keys that has a text that is not blank.
unfoldable pub rule_of : List Str → Metadata → Result Str Str
rule_of [] m = err (str "finding has no rule identity")
rule_of (key ∷ keys) m =
    let rest = rule_of keys m in
    elim (get_str m key) [ none ↦ rest | some rule ↦ if is_vacant rule then rest else ok rule ]

unfoldable pub native_rule_id : Metadata → Result Str Str
unfolding rule_of
native_rule_id m = rule_of (str "rule_id" ∷ str "check_id" ∷ str "advisory" ∷ []) m

unfoldable pub native_fingerprint : Metadata → Result Str Str
native_fingerprint m = elim (get_str m (str "fingerprint")) [
  | none ↦ err (str "finding has no native fingerprint")
  | some fingerprint ↦
      if is_vacant fingerprint
      then err (str "finding has no native fingerprint")
      else ok fingerprint
]

-- The object with the entries of a sorted map.
unfoldable pub entries_of : Metadata → Entries
entries_of [] = end
entries_of ((k, v) ∷ m) = entry k v (entries_of m)

unfoldable mutual
  pub sort_json : Value → Value
  sort_json (object es) = object (entries_of (map_of_onto [] (sort_entries es)))
  sort_json (array vs) = array (sort_values vs)
  sort_json null = null
  sort_json (bool b) = bool b
  sort_json (number n) = number n
  sort_json (string s) = string s

  pub sort_values : Values → Values
  sort_values nil = nil
  sort_values (cons v vs) = cons (sort_json v) (sort_values vs)

  -- The entries of an object, each with its value sorted.
  pub sort_entries : Entries → Metadata
  sort_entries end = []
  sort_entries (entry k v es) = (k, sort_json v) ∷ sort_entries es

unfoldable mutual
  pub metadata_strings : Value → List Str → List Str
  metadata_strings (string s) out = out ++ s ∷ []
  metadata_strings (array vs) out = array_strings vs out
  metadata_strings (object es) out = object_strings es out
  metadata_strings null out = out
  metadata_strings (bool b) out = out
  metadata_strings (number n) out = out

  pub array_strings : Values → List Str → List Str
  array_strings nil out = out
  array_strings (cons v vs) out = array_strings vs (metadata_strings v out)

  pub object_strings : Entries → List Str → List Str
  object_strings end out = out
  object_strings (entry k v es) out = object_strings es (metadata_strings v out)

unfoldable pub check_metadata_size : Services → Metadata → Result Str Done
unfolding sort_json entries_of metadata_strings
check_metadata_size services m = do
  let sorted = sort_json (object (entries_of m))
  serialized ← ok_or (services.print_json sorted) (str "finding metadata cannot be serialized")
  _ ←
      reject_if (ltb max_metadata_bytes (length serialized))
        (str "finding metadata exceeds the canonical bound")
  reject_if (any (contains_known_credential_assignment services) (metadata_strings sorted []))
      (str "finding metadata contains an unredacted credential shape")
