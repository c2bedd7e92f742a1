-- ===== src/Audit/Narrative/Laws.antt =====
-- What a narrative that is accepted says.
use fire_crow.Prelude.{
  ◌≡◌, true, false, not, inl, inr, some, List, [], ◌∷◌, All, map, Option-cases, arith,
}
use fire_crow.Text.{Str, str_eq, one_of}
use fire_crow.Text.Equality.{In, In-of_one_of}
use fire_crow.Audit.Schema.{Severity, severity_name, CanonicalAuditFinding}
use fire_crow.Audit.Narrative.Types.{
  FindingExplanation, RemediationGuidance, accepted, then-accepted, refuse_if-accepted,
}
use fire_crow.Audit.Narrative.Prose.{equal_ignoring_case}
use fire_crow.Audit.Narrative.{
  finding_ids, severity_of, check_severity, check_explanations, check_guidance,
}

-- Each text is another one than those after it.
abbrev pub IsDistinct : List Str → Type 0
IsDistinct [] = Unit
IsDistinct (s ∷ ss) = All (λ t. str_eq s t ≡ false) ss × IsDistinct ss

-- A severity that is claimed is that of the finding.
abbrev pub KeepsSeverity : List CanonicalAuditFinding → FindingExplanation → Type 0
KeepsSeverity findings e =
    (claimed : Str)
    → e.severity ≡ some claimed
    → (severity : Severity) × (severity_of findings e.finding_id ≡ some severity)
      × (equal_ignoring_case claimed (severity_name severity) ≡ true)

abbrev pub IsTraceable : List CanonicalAuditFinding → FindingExplanation → Type 0
IsTraceable findings e = In e.finding_id (finding_ids findings) × KeepsSeverity findings e

abbrev pub IsSuggestion : List CanonicalAuditFinding → RemediationGuidance → Type 0
IsSuggestion findings g = In g.finding_id (finding_ids findings) × (g.verified ≡ false)

pub known_id : (ids : List Str) (id : Str) → not (one_of ids id) ≡ false → In id ids
known_id ids id h = In-of_one_of ids id (ground (arith, h))

check_severity-KeepsSeverity :
    (findings : List CanonicalAuditFinding) (e : FindingExplanation)
    → check_severity findings e ≡ accepted
    → KeepsSeverity findings e
unfolding check_severity
check_severity-KeepsSeverity findings e h claimed k =
    elim (Option-cases (severity_of findings e.finding_id)) [
      | inl n ↦ absurd (ground (arith, h, k, n))
      | inr (severity, n) ↦ (severity, n, ground (arith, h, k, n))
    ]

fresh :
    (s t : Str) (ss : List Str)
    → one_of (s ∷ ss) t ≡ false
    → (str_eq s t ≡ false) × (one_of ss t ≡ false)
unfolding one_of
fresh s t ss h = (ground (arith, h), ground (arith, h))

module _ {A : Type 0} (id_of : A → Str) where
  -- What the set of the ids that were seen keeps apart.
  abbrev IsFresh : List Str → List A → Type 0
  IsFresh seen xs = All (λ x. one_of seen (id_of x) ≡ false) xs × IsDistinct (map id_of xs)

  fresh_apart :
      (s : Str) (seen : List Str) (xs : List A)
      → All (λ x. one_of (s ∷ seen) (id_of x) ≡ false) xs
      → All (λ t. str_eq s t ≡ false) (map id_of xs) × All (λ x. one_of seen (id_of x) ≡ false) xs
  fresh_apart s seen [] h = (tt, tt)
  fresh_apart s seen (x ∷ xs) (a, h) =
      let (b, c) = fresh s (id_of x) seen a in
      let (d, e) = fresh_apart s seen xs h in ((b, d), (c, e))

  IsFresh-cons :
      (x : A) (seen : List Str) (xs : List A)
      → one_of seen (id_of x) ≡ false
      → IsFresh (id_of x ∷ seen) xs
      → IsFresh seen (x ∷ xs)
  IsFresh-cons x seen xs h (a, d) =
      let (apart, b) = fresh_apart (id_of x) seen xs a in ((h, b), (apart, d))

pub check_explanations-accepted :
    (findings : List CanonicalAuditFinding) (seen : List Str) (es : List FindingExplanation)
    → check_explanations findings seen es ≡ accepted
    → All (IsTraceable findings) es × IsFresh (λ e. e.finding_id) seen es
unfolding check_explanations
check_explanations-accepted findings seen [] h = (tt, (tt, tt))
check_explanations-accepted findings seen (e ∷ es) h =
    let (a, h1) = then-accepted _ _ h in
    let (b, h2) = then-accepted _ _ h1 in
    let (c, h3) = then-accepted _ _ h2 in
    let (d, h4) = then-accepted _ _ h3 in
    let (k, h5) = then-accepted _ _ h4 in
    let (t, f) = check_explanations-accepted findings (e.finding_id ∷ seen) es h5 in
    (
      ((known_id _ _ (refuse_if-accepted _ _ a), check_severity-KeepsSeverity findings e k), t),
      IsFresh-cons (λ x. x.finding_id) e seen es (refuse_if-accepted _ _ b) f,
    )

pub check_guidance-accepted :
    (findings : List CanonicalAuditFinding) (seen : List Str) (gs : List RemediationGuidance)
    → check_guidance findings seen gs ≡ accepted
    → All (IsSuggestion findings) gs × IsFresh (λ g. g.finding_id) seen gs
unfolding check_guidance
check_guidance-accepted findings seen [] h = (tt, (tt, tt))
check_guidance-accepted findings seen (g ∷ gs) h =
    let (a, h1) = then-accepted _ _ h in
    let (b, h2) = then-accepted _ _ h1 in
    let (c, h3) = then-accepted _ _ h2 in
    let (d, h4) = then-accepted _ _ h3 in
    let (k, h5) = then-accepted _ _ h4 in
    let (t, f) = check_guidance-accepted findings (g.finding_id ∷ seen) gs h5 in
    (
      ((known_id _ _ (refuse_if-accepted _ _ a), refuse_if-accepted _ _ c), t),
      IsFresh-cons (λ x. x.finding_id) g seen gs (refuse_if-accepted _ _ b) f,
    )
