-- ===== src/Egress/Target/Laws.antt =====
-- About `evaluate_egress_target` and `validate_osv_proxy_url` of
-- backend/src/services/egress_policy.rs.
use fire_crow.Prelude.{
  ℕ, ◌≤◌, ◌≡◌, ◌≢◌, ◌↔◌, ◌⊎◌, inl, inr, true, false, Option, none, some, [], ◌++◌, arith,
  Option-cases, ==_iff, leb→le, length,
}
use fire_crow.Text.Control.{has_control}
use fire_crow.Text.{Str, str, ends_with}
use fire_crow.Text.Equality.{str_eq_iff}
use fire_crow.Text.Trim.{trim, has_whitespace}
use fire_crow.Egress.Address.{
  EgressDecision, allowed, blocked, IpAddr, v4, evaluate_ip, parse_alt_ipv4,
}
use fire_crow.Egress.Target.{
  direct, is_smuggled, is_approved, host_text, evaluate_egress_target, Url, proxy, check_url,
  port_part, validate_osv_proxy_url,
}

-- An approved domain or a name below it.
abbrev pub IsOsv : Str → Type 0
IsOsv host =
    (host ≡ str "api.osv.dev")
    ⊎ (ends_with host (str ".api.osv.dev") ≡ true)
    ⊎ (host ≡ str "osv.dev")
    ⊎ (ends_with host (str ".osv.dev") ≡ true)

is_approved_iff : (host : Str) → (is_approved host ≡ true) ↔ IsOsv host
unfolding is_approved str
is_approved_iff host =
    ground (arith, str_eq_iff host (str "api.osv.dev"), str_eq_iff host (str "osv.dev"))

direct_lem : (d : EgressDecision) → direct d ≢ allowed
unfolding direct
direct_lem allowed h = ground arith
direct_lem (blocked reason) h = ground arith

-- A target is allowed exactly if its port is 443 or 53 and its host, trimmed, in lower case and
-- without a trailing dot, is no address in any spelling, holds no separator, white space or control
-- character, and is an OSV domain or a name below one.
pub evaluate_egress_target-allowed_iff :
    (lowercase : Str → Str) (parse_ip : Str → Option IpAddr) (host : Str) (port : ℕ)
    → (evaluate_egress_target lowercase parse_ip host port ≡ allowed) ↔ (
        ((port ≡ 443) ⊎ (port ≡ 53))
        × (parse_ip (host_text lowercase host) ≡ none)
        × (parse_alt_ipv4 (host_text lowercase host) ≡ none)
        × (is_smuggled (host_text lowercase host) ≡ false)
        × IsOsv (host_text lowercase host))
unfolding evaluate_egress_target
evaluate_egress_target-allowed_iff lowercase parse_ip host port =
    let text = host_text lowercase host in
    (
      λ h. elim (Option-cases (parse_ip text)) [
        | inr (ip, e) ↦ absurd (ground (arith, direct_lem (evaluate_ip ip)))
        | inl e ↦ elim (Option-cases (parse_alt_ipv4 text)) [
          | inr (alt, f) ↦ absurd (ground (arith, direct_lem (evaluate_ip (v4 alt))))
          | inl f ↦ (
            ground (arith, ==_iff port 443, ==_iff port 53),
            e,
            f,
            ground arith,
            (is_approved_iff text).0 (ground arith),
          )
        ]
      ],
      λ (p, e, f, g, a).
          ground (arith, ==_iff port 443, ==_iff port 53, (is_approved_iff text).1 a),
    )

-- A proxy that is accepted is `scheme://host[:port]` for a URL that `url::Url` parses from the
-- trimmed value: its scheme is http or https, its host is not empty, its port is not 0, and it
-- carries no credentials, path, query or fragment.
pub record IsProxy (url : Url) (text : Str) : Type 0 where
  pub host : Str
  pub scheme : (url.scheme ≡ str "http") ⊎ (url.scheme ≡ str "https")
  pub has_host : url.host_str ≡ some host
  pub named : host ≢ []
  pub real_port : url.port ≢ some 0
  pub no_user : url.username ≡ []
  pub no_password : url.password ≡ none
  pub no_path : (url.path ≡ []) ⊎ (url.path ≡ str "/")
  pub no_query : url.query ≡ none
  pub no_fragment : url.fragment ≡ none
  pub normal : text ≡ url.scheme ++ (str "://" ++ (host ++ port_part url.port))

check_url-IsProxy : (url : Url) (text : Str) → check_url url ≡ proxy text → IsProxy url text
unfolding check_url
check_url-IsProxy url text h = elim (Option-cases url.host_str) [
  | inl e ↦ absurd (ground arith)
  | inr (host, e) ↦ record {
    host = host;
    scheme =
        ground (arith, str_eq_iff url.scheme (str "http"), str_eq_iff url.scheme (str "https"));
    has_host = e;
    named = ground arith;
    real_port = ground arith;
    no_user = ground arith;
    no_password = ground arith;
    no_path = ground (arith, str_eq_iff url.path (str "/"));
    no_query = ground arith;
    no_fragment = ground arith;
    normal = ground arith;
  }
]

-- A proxy URL that is accepted is not above 512 bytes and holds no white space or control
-- character, and what is returned is the scheme, the host and the port of what `url::Url` parses:
-- a URL with scheme http or https, a host, no port 0, and no credentials, path, query or fragment.
pub validate_osv_proxy_url-IsProxy :
    (parse_url : Str → Option Url) (raw text : Str)
    → validate_osv_proxy_url parse_url raw ≡ proxy text
    → (length (trim raw) ≤ 512)
      × (has_whitespace (trim raw) ≡ false)
      × (has_control (trim raw) ≡ false)
      × ((url : Url) × (parse_url (trim raw) ≡ some url) × IsProxy url text)
unfolding validate_osv_proxy_url
validate_osv_proxy_url-IsProxy parse_url raw text h = elim (Option-cases (parse_url (trim raw))) [
  | inl e ↦ absurd (ground arith)
  | inr (url, e) ↦ (
    leb→le _ _ (ground arith),
    ground arith,
    ground arith,
    (url, e, check_url-IsProxy url text (ground arith)),
  )
]
