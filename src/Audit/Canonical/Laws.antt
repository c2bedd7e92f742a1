-- ===== src/Audit/Canonical/Laws.antt =====
-- What a canonical audit says of the scanners' results and findings.
use mathlib.Core.Path.{subst}
use fire_crow.Prelude.{
  ℕ, ◌≡◌, refl, sym, ap, ◌∙◌, ◌↔◌, inl, inr, Bool, true, false, not, ◌&&◌, Option, none, some, List,
  [], ◌∷◌, if◌then◌else◌, is_empty, length, map, All, Bool-cases, arith,
}
use fire_crow.Prelude.Fallible.{ok, bind-ok, or_err, or_err-ok, ok_injective, otherwise-ok}
use fire_crow.Text.{Str, is_some}
use fire_crow.Text.Equality.{In}
use fire_crow.Order.Tree.Laws.{IsAscending}
use fire_crow.Audit.Schema.{Finding, CanonicalAudit, missing_snapshot, severity_name}
use fire_crow.Audit.Services.{Services}
use fire_crow.Audit.Metadata.{is_vacant}
use fire_crow.Audit.Path.{validate_snapshot_commit}
use fire_crow.Audit.Runs.{
  canonical_scanner_runs, canonical_coverage, status_complete, aggregate_scan_results,
}
use fire_crow.Audit.Runs.Laws.{Succeeded, aggregate_scan_results-coverage}
use fire_crow.Audit.Identity.{NormalizedFinding}
use fire_crow.Audit.Normalize.{normalize_findings, id_of}
use fire_crow.Audit.Normalize.Groups.{total_count-count_onto}
use fire_crow.Audit.Normalize.Laws.{Yields, normalize_findings-ids}
use fire_crow.Audit.Canonical.Counts.{count_in, tally, count_onto-same, count_onto-tally, tally-map}
use fire_crow.Audit.Canonical.{
  CanonicalAuditRequest, build_audit, canonical_audit, canonical_finding, canonical_summary,
}

-- The counts of findings in the summary are those of the lists, in all, for each severity and for
-- each scanner.
abbrev pub HasCounts : CanonicalAudit → Type 0
HasCounts a =
    (a.summary.finding_count ≡ length a.findings)
    × (a.summary.valid_finding_count ≡ length a.findings)
    × (a.summary.invalid_finding_count ≡ length a.invalid_findings)
    × ((severity : Str)
        → count_in severity a.summary.findings_by_severity
          ≡ tally (λ f. severity_name f.severity) severity a.findings)
    × ((scanner : Str)
        → count_in scanner a.summary.findings_by_scanner
          ≡ tally (λ f. f.provenance.scanner) scanner a.findings)

-- The ids of the audit's findings ascend, each once, and are those of the given findings that are
-- normalized.
abbrev pub HasIds : Services → List Finding → CanonicalAudit → Type 0
HasIds services findings a =
    let ids = map (λ f. f.id) a.findings in
    IsAscending ids × ((id : Str) → In id ids ↔ Yields services a.snapshot_commit id findings)

score_if : (b : Bool) (o : Option ℕ) (score : ℕ) → (if b then o else none) ≡ some score → b ≡ true
score_if true o score h = refl
score_if false o score h = absurd (ground (arith, h))

module _ (services : Services) (request : CanonicalAuditRequest) where
  abbrev is_covered : Bool
  is_covered = status_complete (canonical_coverage (canonical_scanner_runs request.results)).status

  -- What the checks of `canonical_audit` have let through.
  abbrev pub IsAccepted : Option Str → Type 0
  IsAccepted commit =
      (is_vacant request.scan_id ≡ false)
      × (is_vacant request.repository_url ≡ false)
      × (is_empty request.results ≡ false)
      × (validate_snapshot_commit request.snapshot_commit ≡ ok commit)
      × ((not is_covered && is_some request.security_score) ≡ false)

  pub canonical_audit-build :
      (a : CanonicalAudit)
      → canonical_audit services request ≡ ok a
      → (commit : Option Str) × IsAccepted commit × (build_audit services request commit ≡ a)
  unfolding canonical_audit
  canonical_audit-build a h =
      let (e1, h1) = otherwise-ok (is_vacant request.scan_id) _ _ a h in
      let (e2, h2) = otherwise-ok (is_vacant request.repository_url) _ _ a h1 in
      let (e3, h3) = otherwise-ok (is_empty request.results) _ _ a h2 in
      let (commit, e4, h4) =
        bind-ok (or_err (validate_snapshot_commit request.snapshot_commit) missing_snapshot) _ a
          h3 in
      let (e5, h5) = otherwise-ok (not is_covered && is_some request.security_score) _ _ a h4 in
      (commit, (e1, e2, e3, or_err-ok _ missing_snapshot commit e4, e5), ok_injective h5)

  build_audit-ok :
      (commit : Option Str)
      → IsAccepted commit
      → canonical_audit services request ≡ ok (build_audit services request commit)
  unfolding canonical_audit
  build_audit-ok commit (e1, e2, e3, e4, e5) = rw (e1, e2, e3, e4, e5) refl

  covered_iff :
      is_empty request.results ≡ false → (is_covered ≡ true) ↔ All Succeeded request.results
  unfolding canonical_coverage aggregate_scan_results
  covered_iff h = (aggregate_scan_results-coverage request.results h).2

  -- An audit is built exactly if the scan and the repository are named, there are results, the
  -- snapshot's commit is absent, blank or a digest, and a score comes only with success of every
  -- scanner.
  pub canonical_audit-ok_iff :
      ((a : CanonicalAudit) × (canonical_audit services request ≡ ok a)) ↔ (
        (is_vacant request.scan_id ≡ false)
        × (is_vacant request.repository_url ≡ false)
        × (is_empty request.results ≡ false)
        × ((commit : Option Str) × (validate_snapshot_commit request.snapshot_commit ≡ ok commit))
        × (is_some request.security_score ≡ true → All Succeeded request.results))
  canonical_audit-ok_iff = (
    λ (a, h).
        let (commit, (e1, e2, e3, e4, e5), e) = canonical_audit-build a h in
        (e1, e2, e3, (commit, e4), λ s. (covered_iff e3).0 (ground (arith, e5, s))),
    λ (e1, e2, e3, (commit, e4), f). (
      build_audit services request commit,
      build_audit-ok commit (e1, e2, e3, e4, score_covered e3 f),
    ),
  )
    where
      score_covered :
          is_empty request.results ≡ false
          → (is_some request.security_score ≡ true → All Succeeded request.results)
          → (not is_covered && is_some request.security_score) ≡ false
      score_covered e f = elim (Bool-cases (is_some request.security_score)) [
        | inl s ↦ let c = (covered_iff e).1 (f s) in ground (arith, c, s)
        | inr s ↦ ground (arith, s)
      ]

  module _ (commit : Option Str) where
    abbrev built : CanonicalAudit
    built = build_audit services request commit

    built-score : (score : ℕ) → built.summary.security_score ≡ some score → is_covered ≡ true
    unfolding build_audit canonical_summary canonical_coverage
    built-score score h = score_if is_covered request.security_score score h

    length-map {ℓ κ} :
        {A : Type ℓ} {B : Type κ} (f : A → B) (xs : List A) → length (map f xs) ≡ length xs
    length-map f [] = refl
    length-map f (x ∷ xs) = omega (arith, length-map f xs)

    built-counts : HasCounts built
    unfolding build_audit canonical_summary normalize_findings canonical_finding
    built-counts =
        let valid = (normalize_findings services request.findings commit).valid in
        let l = length-map (canonical_finding services) valid in
        let a = total_count-count_onto (λ n. n.provenance.scanner) [] valid in
        (
          omega (arith, a, l),
          omega (arith, a, l),
          refl,
          λ severity.
              count_onto-tally (λ n. severity_name n.finding.severity) valid severity
              ∙ sym (
                  tally-map (λ f. severity_name f.severity) (canonical_finding services) severity
                    valid),
          λ scanner.
              ap (count_in scanner) (count_onto-same (λ n. n.provenance.scanner) valid)
              ∙ count_onto-tally (λ n. n.provenance.scanner) valid scanner
              ∙ sym (
                  tally-map (λ f. f.provenance.scanner) (canonical_finding services) scanner valid),
        )

    ids-map :
        (ns : List NormalizedFinding)
        → map (λ f. f.id) (map (canonical_finding services) ns) ≡ map id_of ns
    unfolding canonical_finding id_of
    ids-map [] = refl
    ids-map (n ∷ ns) = ap (λ l. n.canonical_id ∷ l) (ids-map ns)

    built-ids : HasIds services request.findings built
    unfolding build_audit
    built-ids =
        rw (ids-map (normalize_findings services request.findings commit).valid)
          (normalize_findings-ids services commit request.findings)

  module _ (a : CanonicalAudit) (h : canonical_audit services request ≡ ok a) where
    -- A score stands in an audit only if every scanner succeeded.
    pub canonical_audit-score :
        (score : ℕ) → a.summary.security_score ≡ some score → All Succeeded request.results
    canonical_audit-score score e =
        let (commit, (e1, e2, e3, e4, e5), b) = canonical_audit-build a h in
        (covered_iff e3).0 (built-score commit score (ap (λ x. x.summary.security_score) b ∙ e))

    -- The counts of findings in the summary are those of the lists: all findings, the valid and the
    -- refused ones, those of each severity and those of each scanner. The number of duplicate groups
    -- is not among them.
    pub canonical_audit-counts : HasCounts a
    canonical_audit-counts =
        let (commit, accepted, b) = canonical_audit-build a h in
        subst HasCounts b (built-counts commit)

    -- The ids of the findings ascend, each once, and are those of the findings of the request that
    -- are normalized.
    pub canonical_audit-ids : HasIds services request.findings a
    canonical_audit-ids =
        let (commit, accepted, b) = canonical_audit-build a h in
        subst (HasIds services request.findings) b (built-ids commit)
