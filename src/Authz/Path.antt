-- ===== src/Authz/Path.antt =====
-- The paths of requests: `normalize_path`, `container_target`, `is_lifecycle_op` and
-- `Plugin::is_container_delete` of docker-authz-plugin/src/lib.rs.
pub mod Laws
pub mod Panics
pub mod Targets
use fire_crow.Prelude.{
  ℕ, Bool, false, not, ◌&&◌, ◌||◌, Option, none, some, List, [], ◌∷◌, ◌==◌, leb, ltb, if◌then◌else◌,
  all, is_empty, Run, returns, panics,
}
use fire_crow.Text.{
  Str, str, str_eq, starts_with, ends_with, strip_prefix, contains, has_byte, before, split,
  split_once, join, is_digit,
}

-- `uri.split(['?', '#']).next()`
unfoldable pub raw_path : Str → Str
raw_path [] = []
raw_path (x ∷ s) = if x == b'?' || x == b'#' then [] else x ∷ raw_path s

-- The loop over the segments; `none` where a segment is `.` or `..`.
unfoldable pub path_segments : List Str → Option (List Str)
path_segments [] = some []
path_segments (seg ∷ segs) =
    let rest = path_segments segs in
    if is_empty seg
    then rest
    else if str_eq seg (str ".") || str_eq seg (str "..")
    then none
    else elim rest [ none ↦ none | some kept ↦ some (seg ∷ kept) ]

-- `&ver[1..]` is a panic where the byte at 1 is inside a character.
unfoldable pub tail_of_ver : Str → Run Str
tail_of_ver [] = panics
tail_of_ver (v ∷ []) = returns []
tail_of_ver (v ∷ x ∷ s) = if leb 0x80 x && ltb x 0xC0 then panics else returns (x ∷ s)

abbrev is_version_byte : ℕ → Bool
is_version_byte c = is_digit c || c == b'.'

-- Dropping the `/vX.Y` in front, if the path has one.
unfoldable pub strip_version : Str → Run Str
strip_version rest = elim (split_once b'/' rest) [
  | none ↦ returns (b'/' ∷ rest)
  | some (ver, tail) ↦ elim (tail_of_ver ver) [
    | panics ↦ panics
    | returns digits ↦
        if not (is_empty tail)
          && starts_with ver (str "v")
          && not (is_empty digits)
          && all is_version_byte digits
        then returns (b'/' ∷ tail)
        else returns (b'/' ∷ rest)
  ]
]

abbrev has_encoded_separator : Str → Bool
has_encoded_separator raw =
    contains raw (str "%2f") || contains raw (str "%2F") || contains raw (str "%00")

-- `joined` is `/` and the segments joined, so that its prefix `/` is always there.
unfoldable pub normalize_path : Str → Run Str
normalize_path uri =
    let raw = raw_path uri in
    if is_empty raw || not (starts_with raw (str "/"))
    then returns []
    else if has_encoded_separator raw
    then returns []
    else elim (path_segments (split b'/' raw)) [
      | none ↦ returns []
      | some [] ↦ returns []
      | some (seg ∷ segs) ↦ strip_version (join b'/' (seg ∷ segs))
    ]

abbrev nonempty : Str → Option Str
nonempty [] = none
nonempty (x ∷ s) = some (x ∷ s)

unfoldable pub container_target : Str → Option Str
container_target path = elim (strip_prefix path (str "/containers/")) [
  | none ↦ none
  | some rest ↦ nonempty (before b'/' rest)
]

unfoldable pub is_lifecycle_op : Str → Bool
is_lifecycle_op path =
    ends_with path (str "/start")
    || ends_with path (str "/attach")
    || ends_with path (str "/wait")
    || ends_with path (str "/stop")
    || ends_with path (str "/kill")

unfoldable pub is_container_delete : Str → Bool
is_container_delete path = elim (strip_prefix path (str "/containers/")) [
  | none ↦ false
  | some rest ↦ not (is_empty rest) && not (has_byte b'/' rest)
]
