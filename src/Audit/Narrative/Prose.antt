-- ===== src/Audit/Narrative/Prose.antt =====
-- The checks of the prose of a narrative: `validate_prose`, `invented_location`,
-- `prose_identifiers`, `canonical_identifiers` and `contains_any` of
-- backend/src/schemas/ai_narrative.rs.
use fire_crow.Prelude.{
  ℕ, ◌+◌, ◌-◌, Bool, not, ◌&&◌, ◌||◌, Option, none, some, List, [], ◌∷◌, ◌++◌, if◌then◌else◌,
  length, ltb, leb, ◌==◌, map, any, all, drop, is_empty, reverse, Run, returns, panics,
}
use fire_crow.Text.{Str, str, str_eq, one_of, contains, starts_with, split_once, is_digit, is_some}
use fire_crow.Text.Trim.{trim}
use fire_crow.Text.Words.{first_word, chars, find_text, slice}
use fire_crow.Order.Tree.{set_insert}
use fire_crow.Audit.Schema.{CanonicalAuditFinding, CanonicalReference}
use fire_crow.Audit.Services.{Services, contains_known_credential_assignment}
use fire_crow.Audit.Report.{CanonicalAuditReport}
use fire_crow.Audit.Narrative.Types.{
  RemediationGuidance, ReportNarrative, confidence_restated, invented_classification,
  remediation_stated_as_fact, scanner_success_overclaim, false_all_clear, secret_material,
  invented_location, prohibited_claim, Ruling, accepted, refused, panicked, ◌>>◌, refuse_if, each,
  Casing,
}

abbrev pub all_clear_phrases : List Str
all_clear_phrases =
    str "no vulnerabilities"
    ∷ str "no security issues"
    ∷ str "no known vulnerabilities"
    ∷ str "completely secure"
    ∷ str "entirely secure"
    ∷ str "no threats"
    ∷ str "nothing to fix"
    ∷ str "fully secure"
    ∷ []

abbrev pub complete_coverage_phrases : List Str
complete_coverage_phrases =
    str "fully scanned"
    ∷ str "complete coverage"
    ∷ str "comprehensive scan"
    ∷ str "every file was scanned"
    ∷ str "all files were analyzed"
    ∷ str "no files were skipped"
    ∷ []

abbrev pub verified_remediation_phrases : List Str
verified_remediation_phrases =
    str "this fixes"
    ∷ str "this will fix"
    ∷ str "guarantees"
    ∷ str "is now secure"
    ∷ str "has been remediated"
    ∷ str "verified fixed"
    ∷ []

abbrev pub confidence_claim_phrases : List Str
confidence_claim_phrases =
    str "confidence: high"
    ∷ str "confidence: medium"
    ∷ str "confidence: low"
    ∷ str "confidence is high"
    ∷ str "confidence is low"
    ∷ str "high confidence"
    ∷ []

-- `b.to_ascii_lowercase()`
unfoldable pub lower_byte : ℕ → ℕ
lower_byte x = if leb b'A' x && leb x b'Z' then x + 32 else x

-- `s.eq_ignore_ascii_case(t)`
unfoldable pub equal_ignoring_case : Str → Str → Bool
unfolding lower_byte
equal_ignoring_case s t = str_eq (map lower_byte s) (map lower_byte t)

-- The first of the texts that `haystack` contains.
unfoldable pub first_contained : List Str → Str → Option Str
first_contained [] haystack = none
first_contained (needle ∷ needles) haystack =
    let rest = first_contained needles haystack in
    if contains haystack needle then some needle else rest

unfoldable pub contains_any : Casing → Str → List Str → Option Str
unfolding first_contained
contains_any casing haystack needles = first_contained needles (casing.lowercase haystack)

-- The first place above 0 of a byte: what stands before it, and after it.
unfoldable pub inner_byte : ℕ → Str → Option (Str × Str)
inner_byte c [] = none
inner_byte c (x ∷ s) = elim (split_once c s) [ none ↦ none | some (a, b) ↦ some (x ∷ a, b) ]

unfoldable pub leading : {A : Type 0} → (A → Bool) → List A → List A
leading p [] = []
leading p (x ∷ xs) = let rest = leading p xs in if p x then x ∷ rest else []

-- A character of a package's name.
unfoldable pub is_name_char : Casing → Str → Bool
is_name_char casing c =
    casing.is_alphanumeric c || (str_eq c (str "-") || (str_eq c (str "_") || str_eq c (str ".")))

-- The third shape: `name@version`, the place of the name counted in characters.
unfoldable pub invented_package : Casing → Str → Run (Option Str)
unfolding inner_byte leading is_name_char
invented_package casing text = elim (inner_byte b'@' text) [
  | none ↦ returns none
  | some (a, b) ↦
      let before = length (leading (is_name_char casing) (reverse (chars a))) in
      let after = length (leading (λ x. is_digit x || x == b'.') b) in
      if ltb 0 before && leb 3 after
      then elim (slice (length a - before) (length a + 1 + after) text) [
        | panics ↦ panics
        | returns detail ↦ returns (some detail)
      ]
      else returns none
]

-- The second shape: `line ` and a number, at the place where the text in lower case has `line `.
unfoldable pub invented_line : Casing → Str → Run (Option Str)
unfolding find_text leading
invented_line casing text = elim (find_text (casing.lowercase text) (str "line ")) [
  | none ↦ returns none
  | some position ↦ elim (slice (position + 5) (length text) text) [
    | panics ↦ panics
    | returns rest ↦
        let digits = leading is_digit rest in
        if is_empty digits then returns none else returns (some (str "line " ++ digits))
  ]
]

unfoldable pub find_location : Casing → Str → Run (Option Str)
unfolding invented_package invented_line
find_location casing text = elim (inner_byte b'/' text) [
  | some (a, b) ↦ returns (some (first_word (b'/' ∷ b)))
  | none ↦ elim (invented_line casing text) [
    | panics ↦ panics
    | returns (some detail) ↦ returns (some detail)
    | returns none ↦ invented_package casing text
  ]
]

unfoldable pub insert_option : Casing → Option Str → List Str → List Str
insert_option casing none set = set
insert_option casing (some s) set = set_insert (casing.uppercase (trim s)) set

unfoldable pub insert_references : Casing → List CanonicalReference → List Str → List Str
insert_references casing [] set = set
insert_references casing (r ∷ rs) set =
    insert_references casing rs (set_insert (casing.uppercase (trim r.url)) set)

unfoldable pub identifiers_onto : Casing → List Str → List CanonicalAuditFinding → List Str
unfolding insert_option insert_references
identifiers_onto casing set [] = set
identifiers_onto casing set (f ∷ fs) =
    let own = insert_option casing f.owasp_category (insert_option casing f.cwe_id set) in
    identifiers_onto casing (insert_references casing f.references own) fs

unfoldable pub canonical_identifiers : Casing → CanonicalAuditReport → List Str
unfolding identifiers_onto
canonical_identifiers casing report = identifiers_onto casing [] report.findings

-- A byte of an identifier: an ASCII letter or digit, or a dash.
unfoldable pub is_token_byte : ℕ → Bool
is_token_byte x =
    is_digit x || (leb b'a' x && leb x b'z') || (leb b'A' x && leb x b'Z') || x == b'-'

unfoldable pub looks_like_identifier : Str → Bool
looks_like_identifier upper =
    starts_with upper (str "CWE-")
    || (starts_with upper (str "CVE-")
        || (length upper == 3 && (starts_with upper (str "A") && all is_digit (drop 1 upper))))

-- The loop over the text, with the token that is being read, and the space that is put after it.
unfoldable pub tokens_from : Casing → Str → Str → List Str
unfolding is_token_byte looks_like_identifier
tokens_from casing current [] =
    let upper = casing.uppercase current in if looks_like_identifier upper then upper ∷ [] else []
tokens_from casing current (x ∷ s) =
    let longer = tokens_from casing (current ++ x ∷ []) s in
    let rest = tokens_from casing [] s in
    let upper = casing.uppercase current in
    if is_token_byte x then longer else if looks_like_identifier upper then upper ∷ rest else rest

unfoldable pub prose_identifiers : Casing → Str → List Str
unfolding tokens_from
prose_identifiers casing text = tokens_from casing [] text

-- Every text that the model wrote.
unfoldable pub prose_of : ReportNarrative → List Str
prose_of narrative =
    narrative.executive_summary ∷ map (λ e. e.explanation) narrative.finding_explanations
    ++ map (λ g. g.guidance) narrative.remediation_guidance

unfoldable pub check_location : Casing → Str → Ruling
unfolding find_location
check_location casing text = elim (find_location casing text) [
  | panics ↦ panicked
  | returns none ↦ accepted
  | returns (some detail) ↦ refused (invented_location detail)
]

unfoldable pub found_something : CanonicalAuditReport → Bool
found_something report =
    ltb 0 report.summary.finding_count || ltb 0 report.summary.invalid_finding_count

unfoldable pub check_coverage : Casing → CanonicalAuditReport → Str → Ruling
unfolding contains_any
check_coverage casing report text =
    if report.coverage.is_complete
    then accepted
    else elim (contains_any casing text complete_coverage_phrases) [
      | none ↦ accepted
      | some phrase ↦ refused (prohibited_claim phrase)
    ]

-- One round of the loop over the texts.
unfoldable pub check_prose : Services → Casing → CanonicalAuditReport → Str → Ruling
unfolding check_location found_something check_coverage canonical_identifiers prose_identifiers
    contains_any
check_prose services casing report text =
    refuse_if (contains_known_credential_assignment services text) secret_material
    >> check_location casing text
    >> refuse_if (found_something report && is_some (contains_any casing text all_clear_phrases))
        (false_all_clear report.summary.finding_count)
    >> check_coverage casing report text
    >> each
        (λ identifier.
          refuse_if (not (one_of (canonical_identifiers casing report) identifier))
            (invented_classification identifier))
        (prose_identifiers casing text)

unfoldable pub check_fact : Casing → RemediationGuidance → Ruling
unfolding contains_any
check_fact casing g =
    refuse_if (is_some (contains_any casing g.guidance verified_remediation_phrases))
      (remediation_stated_as_fact g.finding_id)

-- `texts.join(" ")`
unfoldable pub join_space : List Str → Str
join_space [] = []
join_space (s ∷ []) = s
join_space (s ∷ t ∷ ss) = s ++ str " " ++ join_space (t ∷ ss)

unfoldable pub check_scanner : Casing → Str → Str × Str → Ruling
check_scanner casing joined (scanner, status) =
    let name = casing.lowercase scanner in
    refuse_if
      (contains joined (name ++ str " succeeded")
        || (contains joined (name ++ str " passed")
            || contains joined (name ++ str " completed successfully")))
      (scanner_success_overclaim scanner status)

unfoldable pub check_confidence : Casing → Str → Ruling
check_confidence casing text =
    refuse_if (any (contains (casing.lowercase text)) confidence_claim_phrases)
      (confidence_restated (str "unspecified"))

unfoldable pub validate_prose : Services → Casing → CanonicalAuditReport → ReportNarrative → Ruling
unfolding prose_of check_prose check_fact join_space check_scanner check_confidence
validate_prose services casing report narrative =
    let texts = prose_of narrative in
    each (check_prose services casing report) texts
    >> each (check_fact casing) narrative.remediation_guidance
    >> each (check_scanner casing (casing.lowercase (join_space texts)))
        report.coverage.unsuccessful_scanners
    >> each (check_confidence casing) texts
