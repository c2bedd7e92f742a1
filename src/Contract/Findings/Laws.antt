-- ===== src/Contract/Findings/Laws.antt =====
-- About `dedupe_canonical_findings` of backend/src/schemas/scan_contract.rs.
use mathlib.Core.Path.{subst}
use fire_crow.Prelude.{◌⊎◌, inl, inr, List, [], ◌∷◌, All, Bool-cases}
use fire_crow.Text.{Str, one_of}
use fire_crow.Text.Equality.{In, one_of_iff}
use fire_crow.Contract.Sets.{AreDifferent, split_apart, not_In}
use fire_crow.Contract.Types.{CanonicalFinding}
use fire_crow.Contract.Findings.{finding_key, dedupe_from, dedupe_canonical_findings}

abbrev pub keys : List CanonicalFinding → List Str
keys [] = []
keys (f ∷ fs) = finding_key f ∷ keys fs

-- A list that is left when findings are taken out of another one.
pub data IsKeptFrom : List CanonicalFinding → List CanonicalFinding → Type 0 where
  done : IsKeptFrom [] []
  drop :
      {f : CanonicalFinding} {fs gs : List CanonicalFinding}
      → IsKeptFrom gs fs
      → IsKeptFrom gs (f ∷ fs)
  keep :
      {f : CanonicalFinding} {fs gs : List CanonicalFinding}
      → IsKeptFrom gs fs
      → IsKeptFrom (f ∷ gs) (f ∷ fs)

dedupe_from-kept :
    (seen : List Str) (fs : List CanonicalFinding) → IsKeptFrom (dedupe_from seen fs) fs
unfolding dedupe_from
dedupe_from-kept seen [] = done
dedupe_from-kept seen (f ∷ fs) = elim (Bool-cases (one_of seen (finding_key f))) [
  | inl e ↦ rw e (drop (dedupe_from-kept seen fs))
  | inr e ↦ rw e (keep (dedupe_from-kept (finding_key f ∷ seen) fs))
]

dedupe_from-apart :
    (seen : List Str) (fs : List CanonicalFinding)
    → AreDifferent (keys (dedupe_from seen fs))
      × All (λ k. ¬ In k seen) (keys (dedupe_from seen fs))
unfolding dedupe_from
dedupe_from-apart seen [] = (tt, tt)
dedupe_from-apart seen (f ∷ fs) = elim (Bool-cases (one_of seen (finding_key f))) [
  | inl e ↦ rw e (dedupe_from-apart seen fs)
  | inr e ↦
      let (different, apart) = dedupe_from-apart (finding_key f ∷ seen) fs in
      let (own, others) = split_apart (finding_key f) seen _ apart in
      rw e ((own, different), (not_In seen (finding_key f) e, others))
]

dedupe_from-covers :
    (seen : List Str) (fs : List CanonicalFinding) (k : Str)
    → In k (keys fs)
    → In k seen ⊎ In k (keys (dedupe_from seen fs))
unfolding dedupe_from
dedupe_from-covers seen [] k i = inr i
dedupe_from-covers seen (f ∷ fs) k i = elim (Bool-cases (one_of seen (finding_key f))) [
  | inl e ↦ rw e (elim i [
    | inl same ↦ inl (subst (λ j. In j seen) same ((one_of_iff seen (finding_key f)).0 e))
    | inr later ↦ dedupe_from-covers seen fs k later
  ])
  | inr e ↦ rw e (elim i [
    | inl same ↦ inr (inl same)
    | inr later ↦ elim (dedupe_from-covers (finding_key f ∷ seen) fs k later) [
      | inl (inl same) ↦ inr (inl same)
      | inl (inr old) ↦ inl old
      | inr kept ↦ inr (inr kept)
    ]
  ])
]

-- Deduplication takes findings out and changes none and no order; no key stands twice in what it
-- leaves, and every key of the input is left.
pub dedupe-exact :
    (fs : List CanonicalFinding)
    → IsKeptFrom (dedupe_canonical_findings fs) fs
      × AreDifferent (keys (dedupe_canonical_findings fs))
      × ((k : Str) → In k (keys fs) → In k (keys (dedupe_canonical_findings fs)))
unfolding dedupe_canonical_findings
dedupe-exact fs = (
  dedupe_from-kept [] fs,
  (dedupe_from-apart [] fs).0,
  λ k i. elim (dedupe_from-covers [] fs k i) [ inl j ↦ elim j [ ] | inr j ↦ j ],
)
