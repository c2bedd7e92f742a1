-- ===== src/Contract/Target.antt =====
-- Repository targets and snapshots, backend/src/schemas/scan_contract.rs.
pub mod Laws
use fire_crow.Prelude.{
  ℕ, ◌%◌, Bool, true, false, not, ◌&&◌, ◌||◌, Option, none, some, List, [], ◌∷◌, ◌++◌, reverse, leb,
  ◌==◌, length, if◌then◌else◌, is_empty, all,
}
use fire_crow.Text.{Str, str, str_eq, strip_prefix, trim_end_matches, split, has_byte, is_digit}
use fire_crow.Text.Trim.{trim, has_whitespace}
use fire_crow.Contract.Types.{
  RepositorySnapshot, RepositoryTarget, ContractError, ContractResult, Checked, valid, invalid,
  ◌>>=◌, invalid_repository_url, invalid_snapshot_digest,
}

abbrev pub is_alphanumeric : ℕ → Bool
is_alphanumeric c = is_digit c || (leb b'A' c && leb c b'Z') || (leb b'a' c && leb c b'z')

abbrev pub is_segment_byte : ℕ → Bool
is_segment_byte c = is_alphanumeric c || c == b'.' || c == b'_' || c == b'-'

unfoldable pub valid_segment : Str → Bool
valid_segment segment =
    not (is_empty segment)
    && not (str_eq segment (str "."))
    && not (str_eq segment (str ".."))
    && all is_segment_byte segment

unfoldable pub is_lower_hex_digest : Str → Bool
is_lower_hex_digest value =
    not (is_empty value)
    && length value % 2 == 0
    && all (λ c. is_digit c || (leb b'a' c && leb c b'f')) value

-- `rest.strip_suffix(".git").unwrap_or(rest)`
unfoldable pub strip_git : Str → Str
strip_git rest = elim (strip_prefix (reverse rest) (reverse (str ".git"))) [
  | none ↦ rest
  | some kept ↦ reverse kept
]

abbrev pub github : Str
github = str "https://github.com/"

-- The parts of what follows the host: an owner and a repository, and no third part.
unfoldable pub owner_and_repo : List Str → ContractResult Str
owner_and_repo (owner ∷ repo ∷ []) =
    if not (valid_segment owner) || not (valid_segment repo)
    then invalid invalid_repository_url
    else valid (github ++ (owner ++ b'/' ∷ repo))
owner_and_repo _ = invalid invalid_repository_url

unfoldable pub normalize_repository_url : Str → ContractResult Str
normalize_repository_url url = elim (strip_prefix (trim url) github) [
  | none ↦ invalid invalid_repository_url
  | some rest ↦ owner_and_repo (split b'/' (strip_git (trim_end_matches b'/' rest)))
]

unfoldable pub parse_repository_target : Str → Str → ContractResult RepositoryTarget
parse_repository_target repository_url branch = do
  normalized ← normalize_repository_url repository_url
  let branch' = trim branch
  if is_empty branch' || has_whitespace branch' || has_byte b'/' branch'
      then invalid invalid_repository_url
      else valid (record { repository_url = normalized; branch = branch' })

unfoldable pub validate_snapshot : RepositorySnapshot → Checked
validate_snapshot snapshot = do
  _ ← normalize_repository_url snapshot.repository_url
  if is_empty (trim snapshot.branch)
      then invalid invalid_repository_url
      else if not (is_lower_hex_digest snapshot.archive_sha256)
          || not (is_lower_hex_digest snapshot.tree_sha256)
      then invalid invalid_snapshot_digest
      else valid tt
