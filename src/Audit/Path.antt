-- ===== src/Audit/Path.antt =====
-- `validate_repo_path` and `validate_snapshot_commit` of backend/src/schemas/canonical_audit.rs.
pub mod Laws
use fire_crow.Prelude.{
  ℕ, Bool, true, false, not, ◌&&◌, ◌||◌, Option, none, some, List, [], ◌∷◌, if◌then◌else◌, is_empty,
  length, all, ltb, leb, ◌==◌,
}
use fire_crow.Prelude.Fallible.{Result, ok, err}
use fire_crow.Text.{Str, str, one_of, split, has_byte, starts_with, is_digit}
use fire_crow.Text.Trim.{trim}
use fire_crow.Text.Control.{has_control}

unfoldable pub validate_repo_path : Str → Result Str Str
validate_repo_path path =
    let trimmed = trim path in
    if is_empty trimmed
    then err (str "file path is empty")
    else if ltb 1024 (length trimmed)
    then err (str "file path is too long")
    else if starts_with trimmed (str "/") || has_byte b'\\' trimmed || has_byte 0 trimmed
    then err (str "file path is not repository-relative")
    else if one_of (split b'/' trimmed) (str "..")
    then err (str "file path escapes the repository")
    else if has_control trimmed
    then err (str "file path contains control characters")
    else ok trimmed

-- An ASCII hexadecimal digit, no letter of it upper case.
unfoldable pub is_lower_hex_digit : ℕ → Bool
unfolding is_digit
is_lower_hex_digit x = is_digit x || (leb b'a' x && leb x b'f')

unfoldable pub validate_snapshot_commit : Option Str → Result Str (Option Str)
validate_snapshot_commit none = ok none
validate_snapshot_commit (some value) =
    if is_empty (trim value)
    then ok none
    else if length value == 40 && all is_lower_hex_digit value
    then ok (some value)
    else err (str "snapshot commit is not a 40-character lowercase hex digest")
