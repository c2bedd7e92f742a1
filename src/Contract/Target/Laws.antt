-- ===== src/Contract/Target/Laws.antt =====
-- About `normalize_repository_url` of backend/src/schemas/scan_contract.rs.
use mathlib.Core.Path.{subst}
use mathlib.Core.List.{append_assoc, reverse-append, reverse-reverse}
use fire_crow.Prelude.{
  ℕ, ◌≡◌, refl, sym, ap, ◌∙◌, inl, inr, true, false, [], ◌∷◌, ◌++◌, reverse, arith, Option-cases,
  All-of_all, all,
}
use fire_crow.Text.{
  Str, str, strip_prefix, starts_with, ends_with, split, trim_end_matches, is_digit,
}
use fire_crow.Text.Split.{Without, strip_prefix-append}
use fire_crow.Text.Join.{split-append, split_of_Without}
use fire_crow.Text.Trim.{trim, trim-ink, trim_end_matches-snoc, trim_end_matches-same, IsInk}
use fire_crow.Contract.Types.{valid}
use fire_crow.Contract.Target.{
  is_segment_byte, valid_segment, strip_git, github, owner_and_repo, normalize_repository_url,
}

segment-Without : (s : Str) → valid_segment s ≡ true → Without b'/' s
unfolding valid_segment is_digit
segment-Without s h = All-of_all {p = is_segment_byte} (λ c k. ground arith) s (ground arith)

-- The last byte of a list that is not empty.
snoc : (x : ℕ) (s : Str) → (t : Str) × (y : ℕ) × (x ∷ s ≡ t ++ y ∷ [])
snoc x [] = ([], x, refl)
snoc x (z ∷ s) = let (t, y, e) = snoc z s in (x ∷ t, y, ap (λ l. x ∷ l) e)

segment_byte-IsInk : (c : ℕ) → is_segment_byte c ≡ true → IsInk c
unfolding is_digit
segment_byte-IsInk c h = ground arith

last_passes :
    (t : Str) (y : ℕ) → all is_segment_byte (t ++ y ∷ []) ≡ true → is_segment_byte y ≡ true
last_passes [] y h = ground arith
last_passes (x ∷ t) y h = last_passes t y (ground arith)

-- The last byte of a segment, which is no slash and no white space.
segment_end :
    (s : Str)
    → valid_segment s ≡ true
    → (t : Str) × (y : ℕ) × (s ≡ t ++ y ∷ []) × (is_segment_byte y ≡ true)
unfolding valid_segment
segment_end [] h = absurd (ground arith)
segment_end (x ∷ s) h =
    let (t, y, e) = snoc x s in
    (t, y, e, last_passes t y (subst (λ l. all is_segment_byte l ≡ true) e (ground arith)))

parts_of_url :
    (owner repo : Str)
    → valid_segment owner ≡ true
    → valid_segment repo ≡ true
    → split b'/' (owner ++ b'/' ∷ repo) ≡ owner ∷ repo ∷ []
parts_of_url owner repo h k =
    rw
      (
        split-append b'/' owner repo,
        split_of_Without b'/' owner (segment-Without owner h),
        split_of_Without b'/' repo (segment-Without repo k),
      )
      refl

-- What follows the host ends in a segment's byte.
url_end :
    (owner repo : Str)
    → valid_segment repo ≡ true
    → (t : Str) × (y : ℕ) × (owner ++ b'/' ∷ repo ≡ t ++ y ∷ []) × (is_segment_byte y ≡ true)
url_end owner repo h =
    let (t, y, e, k) = segment_end repo h in
    (
      owner ++ b'/' ∷ t,
      y,
      ap (λ r. owner ++ b'/' ∷ r) e ∙ sym (append_assoc owner (b'/' ∷ t) (y ∷ [])),
      k,
    )

trimmed_url :
    (owner repo : Str)
    → valid_segment repo ≡ true
    → trim (github ++ (owner ++ b'/' ∷ repo)) ≡ github ++ (owner ++ b'/' ∷ repo)
unfolding str
trimmed_url owner repo h =
    let (t, y, e, k) = url_end owner repo h in
    subst (λ s. trim (github ++ s) ≡ github ++ s) (sym e)
      (trim-ink b'h' y (str "ttps://github.com/" ++ t) (ground arith) (segment_byte-IsInk y k))

kept_url :
    (owner repo : Str)
    → valid_segment repo ≡ true
    → trim_end_matches b'/' (owner ++ b'/' ∷ repo) ≡ owner ++ b'/' ∷ repo
unfolding is_digit
kept_url owner repo h =
    let (t, y, e, k) = url_end owner repo h in
    subst (λ s. trim_end_matches b'/' s ≡ s) (sym e) (trim_end_matches-snoc b'/' y t (ground arith))

kept_suffix : (s : Str) → ends_with s (str ".git") ≡ false → strip_git s ≡ s
unfolding strip_git ends_with starts_with
kept_suffix s h = elim (Option-cases (strip_prefix (reverse s) (reverse (str ".git")))) [
  | inl e ↦ rw (e, strip_git) refl
  | inr (kept, e) ↦ absurd (ground arith)
]

-- The address of a repository whose name does not end in `.git` is left as it is.
normalize_repository_url_fixed :
    (owner repo : Str)
    → valid_segment owner ≡ true
    → valid_segment repo ≡ true
    → ends_with (owner ++ b'/' ∷ repo) (str ".git") ≡ false
    → normalize_repository_url (github ++ (owner ++ b'/' ∷ repo))
      ≡ valid (github ++ (owner ++ b'/' ∷ repo))
unfolding normalize_repository_url owner_and_repo str
normalize_repository_url_fixed owner repo h k n =
    rw
      (
        normalize_repository_url,
        trimmed_url owner repo k,
        strip_prefix-append github (owner ++ b'/' ∷ repo),
        kept_url owner repo k,
        kept_suffix (owner ++ b'/' ∷ repo) n,
        parts_of_url owner repo h k,
        owner_and_repo,
        h,
        k,
      )
      refl

strip_git-append : (s : Str) → strip_git (s ++ str ".git") ≡ s
unfolding strip_git
strip_git-append s =
    rw
      (
        strip_git,
        reverse-append s (str ".git"),
        strip_prefix-append (reverse (str ".git")) (reverse s),
      )
      (reverse-reverse s)

-- What follows the host leads to one result, once the decoration is off.
module _ (owner repo : Str) (h : valid_segment owner ≡ true) (k : valid_segment repo ≡ true) where
  abbrev place : Str
  place = owner ++ b'/' ∷ repo

  normalize_of :
      (decorated : Str)
      → trim (github ++ decorated) ≡ github ++ decorated
      → strip_git (trim_end_matches b'/' decorated) ≡ place
      → normalize_repository_url (github ++ decorated) ≡ valid (github ++ place)
  unfolding normalize_repository_url owner_and_repo str
  normalize_of decorated e f =
      rw
        (
          normalize_repository_url,
          e,
          strip_prefix-append github decorated,
          f,
          parts_of_url owner repo h k,
          owner_and_repo,
          h,
          k,
        )
        refl

  trim_decorated :
      (y : ℕ) (t : Str) → IsInk y → trim (github ++ (t ++ y ∷ [])) ≡ github ++ (t ++ y ∷ [])
  unfolding str
  trim_decorated y t i = trim-ink b'h' y (str "ttps://github.com/" ++ t) (ground arith) i

  -- `.git` at the end.
  git_url : normalize_repository_url (github ++ (place ++ str ".git")) ≡ valid (github ++ place)
  unfolding str
  git_url =
      let shape : (place ++ str ".gi") ++ b't' ∷ [] ≡ place ++ str ".git" =
        append_assoc place (str ".gi") (b't' ∷ []) in
      normalize_of (place ++ str ".git")
        (subst (λ s. trim (github ++ s) ≡ github ++ s) shape
          (trim_decorated b't' (place ++ str ".gi") (ground arith)))
        (ap strip_git (
            subst (λ s. trim_end_matches b'/' s ≡ s) shape
              (trim_end_matches-snoc b'/' b't' (place ++ str ".gi") refl))
          ∙ strip_git-append place)

  -- A slash at the end.
  slash_url :
      ends_with place (str ".git") ≡ false
      → normalize_repository_url (github ++ (place ++ b'/' ∷ [])) ≡ valid (github ++ place)
  slash_url n = normalize_of (place ++ b'/' ∷ []) (trim_decorated b'/' place (ground arith)) (
      ap strip_git (trim_end_matches-same b'/' place ∙ kept_url owner repo k) ∙ kept_suffix place n)

-- The address of a repository, named by plain segments and not ending in `.git`, is normalized to
-- itself, and so are its spellings with `.git` and with a slash at the end.
pub normalize_repository_url_spellings :
    (owner repo : Str)
    → valid_segment owner ≡ true
    → valid_segment repo ≡ true
    → ends_with (owner ++ b'/' ∷ repo) (str ".git") ≡ false
    → let normal = github ++ (owner ++ b'/' ∷ repo) in
      (normalize_repository_url normal ≡ valid normal)
      × (normalize_repository_url (github ++ ((owner ++ b'/' ∷ repo) ++ str ".git")) ≡ valid normal)
      × (normalize_repository_url (github ++ ((owner ++ b'/' ∷ repo) ++ b'/' ∷ [])) ≡ valid normal)
normalize_repository_url_spellings owner repo h k n = (
  normalize_repository_url_fixed owner repo h k n,
  git_url owner repo h k,
  slash_url owner repo h k n,
)
