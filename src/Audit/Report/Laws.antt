-- ===== src/Audit/Report/Laws.antt =====
-- What a report keeps of its audit.
use mathlib.Core.Path.{subst}
use mathlib.Core.List.{Permᴰ}
use mathlib.Core.List.Permᴰ
use fire_crow.Prelude.{◌≡◌, ◌↔◌, some, List, [], ◌∷◌}
use fire_crow.Prelude.Fallible.{ok, otherwise-ok, ok_injective}
use fire_crow.Text.{Str}
use fire_crow.Text.Trim.{trim}
use fire_crow.Order.Sort.{sort_by-perm, sort_by-IsSortedBy}
use fire_crow.Audit.Schema.{CanonicalAudit, InvalidFinding}
use fire_crow.Audit.Path.{validate_repo_path}
use fire_crow.Audit.Path.Laws.{IsRepoPath}
use fire_crow.Audit.Report.Order.{
  IsOrdered, finding_before_total, finding_before_trans, sorted-IsOrdered,
}
use fire_crow.Audit.Report.{
  finding_before, ExecutionIdentity, CanonicalAuditReport, build_report, report_of,
}

-- A file that is shown leads, without the white space around it, to a place in the repository.
abbrev pub ShowsRepoPath : InvalidFinding → Type 0
ShowsRepoPath item = (file : Str) → item.file ≡ some file → IsRepoPath (trim file)

-- The elements of two lists are related one by one.
abbrev pub ArePaired {ℓ} : {A B : Type ℓ} → (A → B → Type 0) → List A → List B → Type 0
ArePaired R [] [] = Unit
ArePaired R (x ∷ xs) (y ∷ ys) = R x y × ArePaired R xs ys
ArePaired R _ _ = ⊥

-- A refused finding and what a report shows of it: all but its file, which is shown if it is
-- accepted, and else left out.
abbrev pub IsShownAs : InvalidFinding → InvalidFinding → Type 0
IsShownAs item shown =
    (shown.id ≡ item.id)
    × (shown.scanner ≡ item.scanner)
    × (shown.reason ≡ item.reason)
    × (shown.evidence_chars ≡ item.evidence_chars)
    × ((file : Str)
        → (shown.file ≡ some file)
          ↔ ((item.file ≡ some file) × ((p : Str) × (validate_repo_path file ≡ ok p))))

module _ (audit : CanonicalAudit) (execution : ExecutionIdentity) (r : CanonicalAuditReport)
    (h : build_report audit execution ≡ ok r) where
  built : report_of audit execution ≡ r
  unfolding build_report
  built = ok_injective (otherwise-ok _ _ _ r h).1

  -- A report has the findings of the audit, each as often, the gravest first, in the order
  -- critical, high, medium, low, info, unknown, and those of one severity by id.
  pub build_report-findings : Permᴰ r.findings audit.findings × IsOrdered r.findings
  unfolding report_of
  build_report-findings =
      subst (λ x. Permᴰ x.findings audit.findings × IsOrdered x.findings) built
        (
          sort_by-perm finding_before audit.findings,
          sorted-IsOrdered _ (
              sort_by-IsSortedBy finding_before finding_before_total finding_before_trans
                audit.findings),
        )
