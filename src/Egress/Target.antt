-- ===== src/Egress/Target.antt =====
-- `evaluate_egress_target`, `validate_osv_proxy_url` and `resolve_osv_egress_proxy` of
-- backend/src/services/egress_policy.rs.
pub mod Laws
use fire_crow.Prelude.{
  ℕ, Bool, true, false, not, ◌&&◌, ◌||◌, Option, none, some, List, [], ◌∷◌, ◌++◌, String, ◌==◌, leb,
  if◌then◌else◌, is_empty, length, any, reverse,
}
use fire_crow.Text.{Str, str, str_eq, ends_with, has_byte, strip_prefix}
use fire_crow.Text.Trim.{trim, has_whitespace}
use fire_crow.Text.Control.{has_control}
use fire_crow.Text.Decimal.{decimal}
use fire_crow.Egress.Address.{
  EgressDecision, allowed, blocked, IpAddr, v4, evaluate_ip, parse_alt_ipv4,
}

abbrev pub osv_approved_domains : List Str
osv_approved_domains = str "api.osv.dev" ∷ str "osv.dev" ∷ []

-- A single trailing dot is dropped.
unfoldable pub strip_dot : Str → Str
strip_dot host = elim (strip_prefix (reverse host) (str ".")) [
  | none ↦ host
  | some kept ↦ reverse kept
]

-- What is answered to an address that was written out.
unfoldable pub direct : EgressDecision → EgressDecision
direct allowed = blocked "direct IP connect not permitted; must match approved OSV domain"
direct (blocked reason) = blocked reason

unfoldable pub is_smuggled : Str → Bool
is_smuggled host =
    has_byte b'@' host
    || has_byte b'/' host
    || has_byte b':' host
    || has_byte b'[' host
    || has_byte b']' host
    || has_whitespace host
    || has_control host

unfoldable pub is_approved : Str → Bool
is_approved host =
    any (λ domain. str_eq host domain || ends_with host (str "." ++ domain)) osv_approved_domains

-- The host that is judged; `lowercase` is `str::to_lowercase`.
unfoldable pub host_text : (Str → Str) → Str → Str
host_text lowercase host = strip_dot (lowercase (trim host))

-- `parse_ip` is `str::parse::<IpAddr>`.
module _ (lowercase : Str → Str) (parse_ip : Str → Option IpAddr) where
  unfoldable pub evaluate_egress_target : Str → ℕ → EgressDecision
  evaluate_egress_target host port =
      if not (port == 443) && not (port == 53)
      then blocked "non-standard port blocked; only 443 and 53 permitted"
      else elim (parse_ip (host_text lowercase host)) [
        | some ip ↦ direct (evaluate_ip ip)
        | none ↦ elim (parse_alt_ipv4 (host_text lowercase host)) [
          | some alt ↦ direct (evaluate_ip (v4 alt))
          | none ↦
              if is_smuggled (host_text lowercase host)
              then blocked "malformed host: authority smuggling blocked"
              else if is_approved (host_text lowercase host)
              then allowed
              else blocked "domain not in approved OSV allowlist"
        ]
      ]

-- What `url::Url` answers of a parsed URL.
pub record Url : Type 0 where
  pub scheme : Str
  pub username : Str
  pub password : Option Str
  pub host_str : Option Str
  pub port : Option ℕ
  pub path : Str
  pub query : Option Str
  pub fragment : Option Str

pub data Proxy : Type 0 where
  proxy : Str → Proxy
  refused : Str → Proxy

abbrev is_given {ℓ} : {A : Type ℓ} → Option A → Bool
is_given none = false
is_given (some a) = true

abbrev text_or_empty : Option Str → Str
text_or_empty none = []
text_or_empty (some s) = s

abbrev is_zero_port : Option ℕ → Bool
is_zero_port none = false
is_zero_port (some p) = p == 0

abbrev pub port_part : Option ℕ → Str
port_part none = []
port_part (some p) = b':' ∷ decimal p

unfoldable pub check_url : Url → Proxy
check_url url =
    if not (str_eq url.scheme (str "http") || str_eq url.scheme (str "https"))
    then refused (str "proxy scheme must be http or https")
    else if not (is_empty url.username) || is_given url.password
    then refused (str "proxy URL must not embed credentials")
    else if is_empty (text_or_empty url.host_str)
    then refused (str "proxy URL has no host")
    else if is_zero_port url.port
    then refused (str "proxy port is invalid")
    else if (not (str_eq url.path (str "/")) && not (is_empty url.path))
        || is_given url.query
        || is_given url.fragment
    then refused (str "proxy URL must be scheme://host[:port] with no path")
    else proxy (url.scheme ++ (str "://" ++ (text_or_empty url.host_str ++ port_part url.port)))

-- `parse_url` is `url::Url::parse`.
module _ (parse_url : Str → Option Url) where
  unfoldable pub validate_osv_proxy_url : Str → Proxy
  validate_osv_proxy_url raw =
      let value = trim raw in
      if is_empty value
      then refused (str "proxy URL is empty")
      else if not (leb (length value) 512)
      then refused (str "proxy URL exceeds 512 characters")
      else if has_control value || has_whitespace value
      then refused (str "proxy URL contains control characters or whitespace")
      else elim (parse_url value) [
        | none ↦ refused (str "proxy URL is unparseable")
        | some url ↦ check_url url
      ]

  -- The value of the variable `OSV_EGRESS_PROXY`, if it is set.
  unfoldable pub resolve_osv_egress_proxy : Option Str → Proxy
  resolve_osv_egress_proxy variable =
      if is_empty (trim (text_or_empty variable))
      then refused (
          str
            "OSV egress proxy is not configured (OSV_EGRESS_PROXY): refusing unfettered bridge egress; dependency coverage is unknown until a filtering proxy is provided")
      else elim (validate_osv_proxy_url (text_or_empty variable)) [
        | proxy url ↦ proxy url
        | refused reason ↦ refused (
            str "OSV egress proxy is misconfigured ("
            ++ reason
            ++ str "): refusing to run the dependency scanner without a valid filtering proxy")
      ]
