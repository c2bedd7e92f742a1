-- ===== src/Contract/Types.antt =====
-- The documents of the scan pipeline, backend/src/schemas/scan_contract.rs.
use fire_crow.Prelude.{ℕ, ◌≡◌, refl, ◌⊎◌, inl, inr, Bool, Option, List}
use fire_crow.Text.{Str, str}
use fire_crow.Text.Decimal.{ℤ}
use fire_crow.Json.{Value}
use fire_crow.Contract.State.{PipelineState}

pub data ScannerKind : Type 0 where
  gitleaks osv semgrep other : ScannerKind

-- `ScannerKind::as_str`
unfoldable pub kind_name : ScannerKind → Str
kind_name gitleaks = str "gitleaks"
kind_name osv = str "osv"
kind_name semgrep = str "semgrep"
kind_name other = str "other"

-- `ScannerStatus`; its `Ok` and `Failed` are named by their effect on coverage.
pub data ScannerStatus : Type 0 where
  succeeded errored timed_out skipped : ScannerStatus

pub record ScannerRun : Type 0 where
  pub scanner : ScannerKind
  pub status : ScannerStatus
  pub detail : Value
  pub raw_finding_count : ℕ

pub record RawFinding : Type 0 where
  pub scanner : ScannerKind
  pub rule_id : Str
  pub file : Str
  pub line : ℤ
  pub snippet : Str

pub record Provenance : Type 0 where
  pub scanner : ScannerKind
  pub scanner_version : Str
  pub snapshot : Str
  pub rule_id : Str

pub record Evidence : Type 0 where
  pub file_path : Str
  pub line_number : ℤ
  pub snippet : Str
  pub redacted : Bool

-- A score is the bits of its `f64`.
pub record CanonicalFinding : Type 0 where
  pub id : Str
  pub scanner : ScannerKind
  pub severity : Str
  pub title : Str
  pub description : Str
  pub provenance : Provenance
  pub evidence : Evidence
  pub cwe_id : Option Str
  pub owasp_category : Option Str
  pub cvss_score : Option ℕ

pub record ReportFinding : Type 0 where
  pub finding_id : Str
  pub summary : Str
  pub priority : ℕ

pub record Dependency : Type 0 where
  pub name : Str
  pub version : Str
  pub ecosystem : Str

pub record RepositorySnapshot : Type 0 where
  pub repository_url : Str
  pub branch : Str
  pub archive_sha256 : Str
  pub tree_sha256 : Str
  pub file_count : ℕ
  pub total_bytes : ℕ

pub record RepositoryTarget : Type 0 where
  pub repository_url : Str
  pub branch : Str

pub record ScanResult : Type 0 where
  pub contract_version : ℕ
  pub scan_id : Str
  pub repository : RepositoryTarget
  pub snapshot : RepositorySnapshot
  pub pipeline_state : PipelineState
  pub scanner_runs : List ScannerRun
  pub findings : List CanonicalFinding
  pub dependencies : List Dependency
  pub error : Option Str

pub data ContractError : Type 0 where
  unsupported_version : ℕ → ContractError
  invalid_repository_url invalid_snapshot_digest : ContractError
  invalid_raw_finding : Str → Str → ContractError
  missing_provenance missing_evidence unredacted_evidence : ContractError
  inconsistent_result : Str → ContractError
  partial_without_cause : ContractError
  invalid_report_input : Str → ContractError
  severity_changed : Str → Str → ContractError

-- `ContractResult<T>`
pub data ContractResult {ℓ} (A : Type ℓ) : Type ℓ where
  valid : A → ContractResult A
  invalid : ContractError → ContractResult A

-- `()`
abbrev pub Nothing : Type 0
Nothing = Unit

-- `ContractResult<()>`
abbrev pub Checked : Type 0
Checked = ContractResult Nothing

infixl 5 ◌>>=◌
abbrev pub ◌>>=◌ {ℓ κ} :
    {A : Type ℓ} {B : Type κ} → ContractResult A → (A → ContractResult B) → ContractResult B
valid a >>= f = f a
invalid e >>= f = invalid e

pub result_cases {ℓ} :
    {A : Type ℓ} (r : ContractResult A)
    → ((a : A) × (r ≡ valid a)) ⊎ ((e : ContractError) × (r ≡ invalid e))
result_cases (valid a) = inl (a, refl)
result_cases (invalid e) = inr (e, refl)
