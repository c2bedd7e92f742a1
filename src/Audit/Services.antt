-- ===== src/Audit/Services.antt =====
-- What the canonical audit uses of other crates (serde_json, sha2 with hex, regex), and
-- `contains_known_credential_assignment` of backend/src/services/redaction.rs, which is a choice of
-- patterns for the last one.
use fire_crow.Prelude.{Bool, false, Option, none, some, List, [], ◌∷◌, any}
use fire_crow.Text.{Str, str}
use fire_crow.Json.{Value}
use fire_crow.Audit.Schema.{CanonicalProvenance}

-- `parse_json` is `serde_json::from_str`, `print_json` its `to_string` on a value or a map of them,
-- `show_json` the `Display` of a value, `print_provenance` and `parse_provenance` the two that
-- serde derives for a provenance, `sha256_hex` the hexadecimal digest of a text, and
-- `is_match pattern text` what the pattern answers, none if it does not compile.
pub record Services : Type 0 where
  pub parse_json : Str → Option Value
  pub print_json : Value → Option Str
  pub show_json : Value → Str
  pub print_provenance : CanonicalProvenance → Option Str
  pub parse_provenance : Str → Option CanonicalProvenance
  pub sha256_hex : Str → Str
  pub is_match : Str → Str → Option Bool

abbrev pub credential_assignment_patterns : List Str
credential_assignment_patterns =
    str "(?i)password\\s*[=:]\\s*\\S+"
    ∷ str "(?i)token\\s*[=:]\\s*\\S+"
    ∷ str "(?i)secret\\s*[=:]\\s*\\S+"
    ∷ str "(?i)api[_-]?key\\s*[=:]\\s*\\S+"
    ∷ str "(?i)authorization:\\s*\\S+"
    ∷ str "(?i)bearer\\s+\\S+"
    ∷ str "AKIA[0-9A-Z]{16}"
    ∷ str "ASIA[0-9A-Z]{16}"
    ∷ str "gh[pousr]_[A-Za-z0-9]{36}"
    ∷ str "github_pat_[A-Za-z0-9_]{22}"
    ∷ []

-- `o.unwrap_or(default)`
abbrev pub unwrap_or {ℓ} : {A : Type ℓ} → Option A → A → A
unwrap_or none default = default
unwrap_or (some a) default = a

unfoldable pub contains_known_credential_assignment : Services → Str → Bool
contains_known_credential_assignment services text =
    any (λ pattern. unwrap_or (services.is_match pattern text) false) credential_assignment_patterns
