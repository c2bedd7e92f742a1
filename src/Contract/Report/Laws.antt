-- ===== src/Contract/Report/Laws.antt =====
-- About `validate_report_input` and `check_report_severity_unchanged` of
-- backend/src/schemas/scan_contract.rs.
use mathlib.Core.Path.{subst}
use fire_crow.Prelude.{
  suc, ◌≤◌, ◌≡◌, refl, sym, ap, ◌↔◌, ◌⊎◌, inl, inr, false, List, [], ◌∷◌, length, arith, All,
  Bool-cases, ==_iff,
}
use fire_crow.Text.{Str, one_of}
use fire_crow.Text.Equality.{In, one_of_iff, str_eq_iff}
use fire_crow.Contract.Sets.{AreDifferent, In-covered, split_apart, not_In, In-All, All-weaken}
use fire_crow.Contract.Types.{
  ReportFinding, CanonicalFinding, ContractResult, Nothing, valid, result_cases,
}
use fire_crow.Contract.Findings.{is_vacant, validate_canonical_finding}
use fire_crow.Contract.Report.{
  expect_all, cover_all, validate_report_input, check_report_severity_unchanged,
}

abbrev pub ids : List CanonicalFinding → List Str
ids [] = []
ids (f ∷ fs) = f.id ∷ ids fs

abbrev pub report_ids : List ReportFinding → List Str
report_ids [] = []
report_ids (r ∷ rs) = r.finding_id ∷ report_ids rs

seen_lem : (seen ks : List Str) → ContractResult.valid seen ≡ valid ks → seen ≡ ks
seen_lem seen ks h = cc

validated :
    (f : CanonicalFinding) {x : Nothing}
    → validate_canonical_finding f ≡ valid x
    → validate_canonical_finding f ≡ valid tt
validated f {x} h = h

-- What the loop over the findings has checked, where it ends with the ids `ks`.
expect_all_sound :
    (seen : List Str) (fs : List CanonicalFinding) (ks : List Str)
    → expect_all seen fs ≡ valid ks
    → All (λ f. validate_canonical_finding f ≡ valid tt) fs
      × AreDifferent (ids fs)
      × All (λ k. ¬ In k seen) (ids fs)
      × ((k : Str) → In k ks → In k seen ⊎ In k (ids fs))
unfolding expect_all
expect_all_sound seen [] ks h =
    (tt, tt, tt, λ k i. inl (subst (λ l. In k l) (sym (seen_lem seen ks h)) i))
expect_all_sound seen (f ∷ fs) ks h = elim (result_cases (validate_canonical_finding f)) [
  | inr (e, g) ↦ absurd (ground arith)
  | inl (_, g) ↦ elim (Bool-cases (one_of seen f.id)) [
    | inl twice ↦ absurd (ground arith)
    | inr fresh ↦
        let rest : expect_all (f.id ∷ seen) fs ≡ valid ks = ground arith in
        let (each, different, apart, found) = expect_all_sound (f.id ∷ seen) fs ks rest in
        let (own, others) = split_apart f.id seen (ids fs) apart in
        (
          (validated f g, each),
          (own, different),
          (not_In seen f.id fresh, others),
          λ k i. elim (found k i) [
            | inl (inl e) ↦ inr (inl e)
            | inl (inr j) ↦ inl j
            | inr j ↦ inr (inr j)
          ],
        )
  ]
]

-- What the loop over the report's findings has checked.
cover_all_sound :
    (ks seen : List Str) (rs : List ReportFinding)
    → cover_all ks seen rs ≡ valid tt
    → All (λ r. is_vacant r.summary ≡ false) rs
      × AreDifferent (report_ids rs)
      × All (λ k. ¬ In k seen) (report_ids rs)
      × All (λ k. In k ks) (report_ids rs)
unfolding cover_all
cover_all_sound ks seen [] h = (tt, tt, tt, tt)
cover_all_sound ks seen (r ∷ rs) h =
    let rest : cover_all ks (r.finding_id ∷ seen) rs ≡ valid tt = ground arith in
    let (summaries, different, apart, known) = cover_all_sound ks (r.finding_id ∷ seen) rs rest in
    let (own, others) = split_apart r.finding_id seen (report_ids rs) apart in
    (
      (ground arith, summaries),
      (own, different),
      (not_In seen r.finding_id (ground arith), others),
      ((one_of_iff ks r.finding_id).0 (ground arith), known),
    )

not_seen : (k : Str) (ks : List Str) → In k [] ⊎ In k ks → In k ks
not_seen k ks (inl i) = elim i [ ]
not_seen k ks (inr i) = i

length-ids : (fs : List CanonicalFinding) → length (ids fs) ≡ length fs
length-ids [] = refl
length-ids (f ∷ fs) = ap suc (length-ids fs)

length-report_ids : (rs : List ReportFinding) → length (report_ids rs) ≡ length rs
length-report_ids [] = refl
length-report_ids (r ∷ rs) = ap suc (length-report_ids rs)

-- Where `validate_report_input` accepts, each finding is valid, no summary is blank, no id stands
-- twice among the findings or in the report, and the report's ids are exactly those of the
-- findings: none is invented and none is dropped.
pub validate_report_input-exact :
    (fs : List CanonicalFinding) (rs : List ReportFinding)
    → validate_report_input fs rs ≡ valid tt
    → All (λ f. validate_canonical_finding f ≡ valid tt) fs
      × All (λ r. is_vacant r.summary ≡ false) rs
      × AreDifferent (ids fs)
      × AreDifferent (report_ids rs)
      × ((k : Str) → In k (report_ids rs) ↔ In k (ids fs))
unfolding validate_report_input
validate_report_input-exact fs rs h = elim (result_cases (expect_all [] fs)) [
  | inr (e, g) ↦ absurd (ground arith)
  | inl (ks, g) ↦
      let (each, different, _, found) = expect_all_sound [] fs ks g in
      let covered : cover_all ks [] rs ≡ valid tt = ground arith in
      let same : length rs ≡ length fs = ground (arith, ==_iff (length rs) (length fs)) in
      let (summaries, different', _, known) = cover_all_sound ks [] rs covered in
      let within = All-weaken (report_ids rs) (λ k i. not_seen k (ids fs) (found k i)) known in
      let lengths : length (ids fs) ≤ length (report_ids rs) =
        omega (arith, same, length-ids fs, length-report_ids rs) in
      (
        each,
        summaries,
        different,
        different',
        λ k. (
          λ i. In-All (λ j. In j (ids fs)) k (report_ids rs) within i,
          λ i. In-covered k (report_ids rs) (ids fs) different' within lengths i,
        ),
      )
]

-- A severity may stand in a report exactly if it is the scanner's, to the letter, and not blank.
check_report_severity_unchanged_iff :
    (from to : Str)
    → (check_report_severity_unchanged from to ≡ valid tt)
      ↔ ((from ≡ to) × (is_vacant from ≡ false))
unfolding check_report_severity_unchanged
check_report_severity_unchanged_iff from to = (
  λ h. (ground (arith, str_eq_iff from to), ground arith),
  λ (e, v). ground (arith, str_eq_iff from to),
)
