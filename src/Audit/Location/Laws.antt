-- ===== src/Audit/Location/Laws.antt =====
-- What a normalized location is like.
use mathlib.Core.Path.{subst}
use fire_crow.Prelude.{◌≡◌, true, false, Option, none, some, arith}
use fire_crow.Prelude.Fallible.{
  ok, Done, bind-ok, reject_if-ok, or_err-ok, ok_injective, ok_or, reject_if, or_err, choice-ok,
  otherwise-ok,
}
use fire_crow.Text.{str}
use fire_crow.Text.Decimal.{ℤ, pos}
use fire_crow.Audit.Schema.{Finding, CanonicalLocation}
use fire_crow.Audit.Metadata.{Metadata}
use fire_crow.Audit.Path.{validate_repo_path}
use fire_crow.Audit.Path.Laws.{IsRepoPath, validate_repo_path-IsRepoPath}
use fire_crow.Audit.Location.{
  int_ltb, int_of, positive_line, is_negative, check_range, finding_location,
}

-- A path of the repository, a line above 0, columns that are not negative, and a last line that
-- is not before the first one.
abbrev pub IsLocation : CanonicalLocation → Type 0
IsLocation l =
    IsRepoPath l.file
    × (int_ltb (pos 0) l.line ≡ true)
    × (is_negative l.start_column ≡ false)
    × (is_negative l.end_column ≡ false)
    × ((end : ℤ) → l.end_line ≡ some end → int_ltb end l.line ≡ false)

some_injective {ℓ} : {A : Type ℓ} {a b : A} → some a ≡ some b → a ≡ b
some_injective h = cc h

positive_line-positive :
    (o : Option ℤ) (line : ℤ) → positive_line o ≡ ok line → int_ltb (pos 0) line ≡ true
unfolding positive_line
positive_line-positive none line h = absurd (ground (arith, h))
positive_line-positive (some n) line h =
    let (e, k) = choice-ok (int_ltb (pos 0) n) n line _ h in
    subst (λ l. int_ltb (pos 0) l ≡ true) k e

check_range-ends :
    (line : ℤ) (start end_column : Option ℤ) (last : Option ℤ) (u : Done)
    → check_range line start last end_column ≡ ok u
    → (end : ℤ) → last ≡ some end
    → int_ltb end line ≡ false
unfolding check_range
check_range-ends line start end_column none u h end e = absurd (ground (arith, e))
check_range-ends line start end_column (some n) u h end e =
    subst (λ o. int_ltb o line ≡ false) (some_injective e) (otherwise-ok (int_ltb n line) _ _ u h).0

pub finding_location-IsLocation :
    (finding : Finding) (m : Metadata) (l : CanonicalLocation)
    → finding_location finding m ≡ ok l
    → IsLocation l
unfolding finding_location
finding_location-IsLocation finding m l h =
    let (path, e1, h1) = bind-ok (ok_or finding.file_path (str "finding file is missing")) _ l h in
    let (file, e2, h2) = bind-ok (or_err (validate_repo_path path) _) _ l h1 in
    let (line, e3, h3) = bind-ok (positive_line finding.line_number) _ l h2 in
    let (start, e4, h4) = bind-ok (int_of m (str "start_column")) _ l h3 in
    let (last, e5, h5) = bind-ok (int_of m (str "end_line")) _ l h4 in
    let (column, e6, h6) = bind-ok (int_of m (str "end_column")) _ l h5 in
    let (u, e7, h7) = bind-ok (reject_if (is_negative start) _) _ l h6 in
    let (v, e8, h8) = bind-ok (reject_if (is_negative column) _) _ l h7 in
    let (w, e9, h9) = bind-ok (check_range line start last column) _ l h8 in
    let valid = validate_repo_path-IsRepoPath path file (or_err-ok _ _ file e2) in
    subst IsLocation (ok_injective h9) (
      valid.1,
      positive_line-positive finding.line_number line e3,
      reject_if-ok (is_negative start) _ u e7,
      reject_if-ok (is_negative column) _ v e8,
      check_range-ends line start column last w e9,
    )
