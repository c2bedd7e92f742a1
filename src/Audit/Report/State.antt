-- ===== src/Audit/Report/State.antt =====
-- The state of the report of a canonical audit against the outcomes of the scanners.
use mathlib.Core.Path.{subst}
use mathlib.Core.List.Permᴰ
use fire_crow.Prelude.{
  ◌≡◌, refl, sym, ap, ◌∙◌, ◌↔◌, Bool, true, false, List, [], ◌∷◌, if◌then◌else◌, is_empty, length,
  map, any, All, arith, ◌==◌,
}
use fire_crow.Prelude.Fallible.{ok}
use fire_crow.Order.Sort.{sort_by-perm, All-perm}
use fire_crow.Audit.Schema.{CanonicalAudit, CanonicalScannerRun, CanonicalScannerStatus, is_known}
use fire_crow.Audit.Services.{Services}
use fire_crow.Audit.Scanner.{ScannerResult}
use fire_crow.Audit.Runs.{canonical_scanner_runs, scanner_run, run_before, aggregate_scan_results}
use fire_crow.Audit.Runs.Laws.{
  Succeeded, Covers, canonical_scanner_runs-All, aggregate_scan_results-coverage,
}
use fire_crow.Audit.Canonical.{CanonicalAuditRequest, canonical_audit, build_audit}
use fire_crow.Audit.Canonical.Laws.{canonical_audit-build, canonical_audit-counts}
use fire_crow.Audit.Report.{
  CoverageState, success_clean, success_findings, state_known, was_cancelled, timed_out,
  derive_coverage_state, ExecutionIdentity, build_report, report_of,
}

-- The flag of a run is that of its status.
abbrev IsHonest : CanonicalScannerRun → Type 0
IsHonest run = run.coverage_known ≡ is_known run.status

scanner_run-IsHonest : (results : List ScannerResult) → All IsHonest (map scanner_run results)
unfolding scanner_run
scanner_run-IsHonest [] = tt
scanner_run-IsHonest (result ∷ results) = (refl, scanner_run-IsHonest results)

canonical_scanner_runs-IsHonest :
    (results : List ScannerResult) → All IsHonest (canonical_scanner_runs results)
unfolding canonical_scanner_runs
canonical_scanner_runs-IsHonest results =
    All-perm IsHonest (Permᴰ.symm (sort_by-perm run_before (map scanner_run results)))
      (scanner_run-IsHonest results)

status_uninterrupted :
    (status : CanonicalScannerStatus)
    → is_known status ≡ true
    → ((elim status [ CanonicalScannerStatus.cancelled ↦ true | _ ↦ false ]) ≡ false)
      × ((elim status [ CanonicalScannerStatus.timeout n ↦ true | _ ↦ false ]) ≡ false)
unfolding is_known
status_uninterrupted CanonicalScannerStatus.success_clean h = (refl, refl)
status_uninterrupted (CanonicalScannerStatus.success_findings n) h = (refl, refl)
status_uninterrupted (CanonicalScannerStatus.failed reason) h = (refl, refl)
status_uninterrupted (CanonicalScannerStatus.timeout n) h = absurd (ground (arith, h))
status_uninterrupted CanonicalScannerStatus.cancelled h = absurd (ground (arith, h))
status_uninterrupted (CanonicalScannerStatus.no_files_analyzed reason) h = (refl, refl)

uninterrupted :
    (runs : List CanonicalScannerRun)
    → All IsHonest runs
    → All Covers runs
    → (any was_cancelled runs ≡ false) × (any timed_out runs ≡ false)
unfolding was_cancelled timed_out
uninterrupted [] h k = (refl, refl)
uninterrupted (run ∷ runs) (e, h) (f, k) =
    let (a, b) = status_uninterrupted run.status (sym e ∙ f) in
    let (c, d) = uninterrupted runs h k in (rw (a, c) refl, rw (b, d) refl)

-- The state of an audit that covers everything is known, and clean exactly without findings.
derive-covered :
    (a : CanonicalAudit)
    → any was_cancelled a.scanner_runs ≡ false
    → any timed_out a.scanner_runs ≡ false
    → a.coverage.is_complete ≡ true
    → derive_coverage_state a
      ≡ (if a.summary.finding_count == 0 then success_clean else success_findings)
unfolding derive_coverage_state
derive-covered a h k c = rw (h, k, c) refl

-- Only an audit that covers everything has a known state.
derive-known :
    (a : CanonicalAudit)
    → state_known (derive_coverage_state a) ≡ true
    → a.coverage.is_complete ≡ true
unfolding derive_coverage_state state_known
derive-known a h = ground arith

length_empty {ℓ} : {A : Type ℓ} (xs : List A) → (length xs == 0) ≡ is_empty xs
length_empty [] = refl
length_empty (x ∷ xs) = ground arith

known_if : (b : Bool) → state_known (if b then success_clean else success_findings) ≡ true
unfolding state_known
known_if true = refl
known_if false = refl

clean_if : (b : Bool) → (if b then success_clean else success_findings) ≡ success_clean → b ≡ true
clean_if true h = refl
clean_if false h = absurd (ground (arith, h))

-- What the report of an audit of these results says.
abbrev pub IsTruthful : List ScannerResult → CanonicalAudit → CoverageState → Type 0
IsTruthful results a state =
    ((state_known state ≡ true) ↔ All Succeeded results)
    × ((state ≡ success_clean) ↔ (All Succeeded results × (is_empty a.findings ≡ true)))

module _ (services : Services) (request : CanonicalAuditRequest) (a : CanonicalAudit)
    (h : canonical_audit services request ≡ ok a) where
  audit_runs :
      (a.scanner_runs ≡ canonical_scanner_runs request.results)
      × ((a.coverage.is_complete ≡ true) ↔ All Succeeded request.results)
  unfolding build_audit aggregate_scan_results
  audit_runs =
      let (commit, (e1, e2, e3, e4, e5), b) = canonical_audit-build services request a h in
      subst
        (λ x.
          (x.scanner_runs ≡ canonical_scanner_runs request.results)
          × ((x.coverage.is_complete ≡ true) ↔ All Succeeded request.results))
        b (refl, (aggregate_scan_results-coverage request.results e3).2)

  covered_state :
      All Succeeded request.results
      → derive_coverage_state a ≡ (if is_empty a.findings then success_clean else success_findings)
  covered_state s =
      let (runs, complete) = audit_runs in
      let known = (canonical_scanner_runs-All true request.results).1 s in
      let (c, t) =
        uninterrupted (canonical_scanner_runs request.results)
          (canonical_scanner_runs-IsHonest request.results) known in
      let count = (canonical_audit-counts services request a h).0 in
      derive-covered a (ap (any was_cancelled) runs ∙ c) (ap (any timed_out) runs ∙ t)
        (complete.1 s)
      ∙ ap (λ b. if b then success_clean else success_findings)
          (ap (λ n. n == 0) count ∙ length_empty a.findings)

  succeeded : state_known (derive_coverage_state a) ≡ true → All Succeeded request.results
  succeeded k = audit_runs.1.0 (derive-known a k)

  state-IsTruthful : IsTruthful request.results a (derive_coverage_state a)
  unfolding state_known
  state-IsTruthful = (
    (succeeded, λ s. ap state_known (covered_state s) ∙ known_if (is_empty a.findings)),
    (
      λ e.
          let s = succeeded (ap state_known e) in
          (s, clean_if (is_empty a.findings) (sym (covered_state s) ∙ e)),
      λ (s, e). covered_state s ∙ rw e refl,
    ),
  )

  version : a.schema_version ≡ 1
  unfolding build_audit
  version =
      let (commit, accepted, b) = canonical_audit-build services request a h in
      sym (ap (λ x. x.schema_version) b)

  -- The report of a canonical audit can be built. Its state is known exactly if every scanner
  -- succeeded, and clean exactly if besides the audit's list of findings is empty, whatever findings
  -- were refused.
  pub canonical_audit-build_report :
      (execution : ExecutionIdentity)
      → build_report a execution ≡ ok (report_of a execution)
        × IsTruthful request.results a (report_of a execution).coverage.state
  unfolding build_report report_of
  canonical_audit-build_report execution = (rw (build_report, version) refl, state-IsTruthful)
