-- ===== src/Audit/Location.antt =====
-- `finding_location` and `finding_provenance` of backend/src/orchestrator/canonical_audit.rs.
pub mod Laws
use fire_crow.Prelude.{
  ℕ, Bool, true, false, not, ◌&&◌, ◌||◌, Option, none, some, List, [], ◌∷◌, ◌++◌, if◌then◌else◌,
  is_empty, leb, ltb, ◌==◌,
}
use fire_crow.Prelude.Fallible.{Result, ok, err, ◌>>=◌, reject_if, ok_or, or_err, Done}
use fire_crow.Text.{Str, str}
use fire_crow.Text.Trim.{trim}
use fire_crow.Text.Decimal.{ℤ, pos, negsuc}
use fire_crow.Json.{Value, null, get, as_str, as_i64}
use fire_crow.Audit.Schema.{Finding, CanonicalLocation, CanonicalProvenance}
use fire_crow.Audit.Services.{unwrap_or}
use fire_crow.Audit.Metadata.{Metadata, get_str, native_rule_id, native_fingerprint}
use fire_crow.Audit.Path.{validate_repo_path, validate_snapshot_commit}

-- `a < b` on `i64`
unfoldable pub int_ltb : ℤ → ℤ → Bool
int_ltb (pos a) (pos b) = ltb a b
int_ltb (pos a) (negsuc b) = false
int_ltb (negsuc a) (pos b) = true
int_ltb (negsuc a) (negsuc b) = ltb b a

-- `a == b` on `i64`
unfoldable pub int_eq : ℤ → ℤ → Bool
int_eq (pos a) (pos b) = a == b
int_eq (negsuc a) (negsuc b) = a == b
int_eq _ _ = false

-- The closure `number` of `finding_location`.
unfoldable pub int_of : Metadata → Str → Result Str (Option ℤ)
int_of m key = elim (get m key) [
  | none ↦ ok none
  | some null ↦ ok none
  | some v ↦ elim (as_i64 v) [
    | none ↦ err (str "finding metadata " ++ key ++ str " is not an integer")
    | some n ↦ ok (some n)
  ]
]

-- The first line of the finding, which is above 0.
unfoldable pub positive_line : Option ℤ → Result Str ℤ
unfolding int_ltb
positive_line none = err (str "finding line is invalid")
positive_line (some line) =
    if int_ltb (pos 0) line then ok line else err (str "finding line is invalid")

unfoldable pub is_negative : Option ℤ → Bool
is_negative none = false
is_negative (some n) = int_ltb n (pos 0)

-- Both columns are given, neither is 0, and the last one is below the first one.
unfoldable pub columns_precede : Option ℤ → Option ℤ → Bool
unfolding int_eq
columns_precede (some start) (some end) =
    not (int_eq end (pos 0)) && (not (int_eq start (pos 0)) && int_ltb end start)
columns_precede _ _ = false

unfoldable pub check_range : ℤ → Option ℤ → Option ℤ → Option ℤ → Result Str Done
unfolding int_ltb columns_precede
check_range line start_column none end_column = ok tt
check_range line start_column (some end) end_column =
    if int_ltb end line
    then err (str "finding end line precedes start line")
    else if int_eq end line && columns_precede start_column end_column
    then err (str "finding end column precedes start column")
    else ok tt

unfoldable pub finding_location : Finding → Metadata → Result Str CanonicalLocation
unfolding int_of positive_line is_negative check_range
finding_location finding m = do
  path ← ok_or finding.file_path (str "finding file is missing")
  file ← or_err (validate_repo_path path) (str "finding file is invalid")
  line ← positive_line finding.line_number
  start_column ← int_of m (str "start_column")
  end_line ← int_of m (str "end_line")
  end_column ← int_of m (str "end_column")
  _ ← reject_if (is_negative start_column) (str "finding start column is invalid")
  _ ← reject_if (is_negative end_column) (str "finding end column is invalid")
  _ ← check_range line start_column end_line end_column
  ok (record {
    file = file;
    line = line;
    start_column = start_column;
    end_line = end_line;
    end_column = end_column;
  })

-- The closure `string` of `finding_provenance`.
unfoldable pub required_text : Metadata → Str → Result Str Str
required_text m key = elim (get_str m key) [
  | none ↦ err (str "finding metadata has no " ++ key)
  | some value ↦
      if is_empty (trim value) then err (str "finding metadata has no " ++ key) else ok (trim value)
]

-- `a.or(b)`
abbrev pub or_else {ℓ} : {A : Type ℓ} → Option A → Option A → Option A
or_else none b = b
or_else (some a) b = some a

unfoldable pub finding_provenance : Finding → Metadata → Option Str → Result Str CanonicalProvenance
unfolding required_text
finding_provenance finding m snapshot_commit = do
  scanner_version ← required_text m (str "scanner_version")
  parser ← required_text m (str "parser")
  scanner_image ← required_text m (str "scanner_image")
  rule_id ← native_rule_id m
  fingerprint ← native_fingerprint m
  commit ←
      or_err
        (validate_snapshot_commit (or_else (get_str m (str "snapshot_commit")) snapshot_commit))
        (str "finding snapshot commit is invalid")
  ok (record {
    scanner = unwrap_or finding.scanner_name [];
    scanner_version = scanner_version;
    parser = parser;
    scanner_image = scanner_image;
    rule_id = rule_id;
    native_fingerprint = fingerprint;
    snapshot_commit = commit;
  })
