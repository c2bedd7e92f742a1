-- ===== src/Audit/Scanner.antt =====
-- `ScannerOutcome` and `ScannerResult` of backend/src/agents/scanner.rs.
use fire_crow.Prelude.{ℕ, Bool, true, false, List}
use fire_crow.Text.{Str}
use fire_crow.Json.{Value}
use fire_crow.Audit.Schema.{Finding}

pub data ScannerOutcome : Type 0 where
  success : ℕ → ScannerOutcome
  failed : Str → ScannerOutcome
  timeout : ℕ → ScannerOutcome
  cancelled : ScannerOutcome

pub record ScannerResult : Type 0 where
  pub scanner : Str
  pub version : Str
  pub mode : Str
  pub outcome : ScannerOutcome
  pub findings : List Finding
  pub execution_record : Value

-- `ScannerOutcome::has_succeeded`
unfoldable pub has_succeeded : ScannerOutcome → Bool
has_succeeded (success n) = true
has_succeeded _ = false

-- `ScannerResult::analyzed`, and `usable`, which is the same.
unfoldable pub analyzed : ScannerResult → Bool
unfolding has_succeeded
analyzed result = has_succeeded result.outcome
