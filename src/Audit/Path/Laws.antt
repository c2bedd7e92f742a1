-- ===== src/Audit/Path/Laws.antt =====
-- What the paths that `validate_repo_path` accepts are like.
use mathlib.Core.List.{append_assoc}
use fire_crow.Prelude.{
  ◌≤◌, ◌≡◌, refl, sym, ◌∙◌, false, ◌||◌, List, [], ◌∷◌, ◌++◌, if◌then◌else◌, is_empty, length,
  Bool-cases, inl, inr, arith,
}
use fire_crow.Prelude.Fallible.{ok}
use fire_crow.Text.{Str, str, str_eq, one_of, split, has_byte, starts_with}
use fire_crow.Text.Trim.{trim}
use fire_crow.Text.Control.{has_control}
use fire_crow.Audit.Path.{validate_repo_path}

-- The directory above, the root being its own.
abbrev parent : List Str → List Str
parent [] = []
parent (name ∷ dir) = dir

-- The directory that the parts of a path lead to from another one, the innermost name first.
abbrev pub descend : List Str → List Str → List Str
descend dir [] = dir
descend dir (part ∷ parts) =
    if str_eq part (str "..")
    then descend (parent dir) parts
    else if str_eq part (str ".") || is_empty part
    then descend dir parts
    else descend (part ∷ dir) parts

-- A path that stays below the directory it is taken from.
abbrev pub IsConfined : Str → Type 0
IsConfined path =
    (dir : List Str) → (names : List Str) × (descend dir (split b'/' path) ≡ names ++ dir)

abbrev pub IsRepoPath : Str → Type 0
IsRepoPath path =
    (is_empty path ≡ false)
    × (length path ≤ 1024)
    × (starts_with path (str "/") ≡ false)
    × (has_byte b'\\' path ≡ false)
    × (has_byte 0 path ≡ false)
    × (has_control path ≡ false)
    × IsConfined path

descend-confined :
    (parts : List Str) (dir : List Str)
    → one_of parts (str "..") ≡ false
    → (names : List Str) × (descend dir parts ≡ names ++ dir)
unfolding one_of
descend-confined [] dir h = ([], refl)
descend-confined (part ∷ parts) dir h = elim (Bool-cases (str_eq part (str ".."))) [
  | inl e ↦ absurd (ground (arith, e, h))
  | inr e ↦ elim (Bool-cases (str_eq part (str ".") || is_empty part)) [
    | inl f ↦ rw (e, f) (descend-confined parts dir (ground (arith, e, h)))
    | inr f ↦
        let (names, k) = descend-confined parts (part ∷ dir) (ground (arith, e, h)) in
        (names ++ part ∷ [], rw (e, f) (k ∙ sym (append_assoc names (part ∷ []) dir)))
  ]
]

module _ (path p : Str) (h : validate_repo_path path ≡ ok p) where
  validate_repo_path-trim : p ≡ trim path
  unfolding validate_repo_path
  validate_repo_path-trim = ground arith

  checks_passed :
      (is_empty (trim path) ≡ false)
      × (length (trim path) ≤ 1024)
      × (starts_with (trim path) (str "/") ≡ false)
      × (has_byte b'\\' (trim path) ≡ false)
      × (has_byte 0 (trim path) ≡ false)
      × (has_control (trim path) ≡ false)
      × (one_of (split b'/' (trim path)) (str "..") ≡ false)
  unfolding validate_repo_path
  checks_passed = (
    ground arith,
    ground arith,
    ground arith,
    ground arith,
    ground arith,
    ground arith,
    ground arith,
  )

-- A path that is accepted is the given one without white space around it. It is relative, has at
-- most 1024 bytes, no backslash, NUL or control character, and leads below every directory that it
-- is taken from.
pub validate_repo_path-IsRepoPath :
    (path p : Str) → validate_repo_path path ≡ ok p → (p ≡ trim path) × IsRepoPath p
unfolding validate_repo_path
validate_repo_path-IsRepoPath path p h =
    let e = validate_repo_path-trim path p h in
    let (a, b, c, d, z, k, r) = checks_passed path p h in
    (e, rw e (a, b, c, d, z, k, λ dir. descend-confined (split b'/' (trim path)) dir r))
