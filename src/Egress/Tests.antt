-- ===== src/Egress/Tests.antt =====
-- Concrete targets and proxies for backend/src/services/egress_policy.rs.
use fire_crow.Prelude.{
  ℕ, ◌≤◌, ◌≡◌, refl, ◌↔◌, ◌⊎◌, Bool, false, Option, none, some, List, [], ◌∷◌, ◌++◌, All, ◌==◌,
  arith, length,
}
use fire_crow.Prelude.Fallible.{ok}
use fire_crow.Text.Control.{has_control}
use fire_crow.Text.{Str, str}
use fire_crow.Text.Trim.{trim, has_whitespace}
use fire_crow.Egress.Address.{
  Ipv4, IpAddr, v4, v6, allowed, blocked, evaluate_v4, evaluate_v6, parse_alt_ipv4,
}
use fire_crow.Text.Decimal.{decimal}
use fire_crow.Egress.Address.Number.{parse_alt_ipv4-decimal}
use fire_crow.Egress.Address.Laws.{IsAddress, mapped, evaluate_v6-mapped}
use fire_crow.Egress.Address.Ranges.{IsReserved, number_of, evaluate_v4-allowed_iff}
use fire_crow.Egress.Target.{
  evaluate_egress_target, host_text, is_smuggled, Url, proxy, validate_osv_proxy_url,
}
use fire_crow.Egress.Target.Laws.{
  IsOsv, IsProxy, evaluate_egress_target-allowed_iff, validate_osv_proxy_url-IsProxy,
}
use fire_crow.Egress.Proxy.{
  Effect, query, dial, answer, tunnel, read_head, parse_connect_line, serve_connection,
  handle_accept,
}
use fire_crow.Egress.Proxy.Laws.{
  IsAuthorized, IsAnswered, serve_connection-IsAuthorized, handle_accept-IsAnswered,
}

-- The names that a judgement computes through.
unfoldable egress_runs : ℕ
unfolding fire_crow.Egress.Address.evaluate_v4 fire_crow.Egress.Address.evaluate_v6
    fire_crow.Egress.Address.evaluate_ip fire_crow.Egress.Address.radix_value
    fire_crow.Egress.Address.hex_prefix fire_crow.Egress.Address.part_value
    fire_crow.Egress.Address.octet fire_crow.Egress.Address.parse_alt_ipv4
    fire_crow.Egress.Proxy.digits_value fire_crow.Egress.Proxy.unsigned
    fire_crow.Egress.Proxy.parse_u16 fire_crow.Egress.Proxy.split_bracket
    fire_crow.Egress.Proxy.proxy_port fire_crow.Egress.Proxy.parse_bracketed
    fire_crow.Egress.Proxy.parse_plain fire_crow.Egress.Proxy.parse_authority
    fire_crow.Egress.Proxy.parse_words fire_crow.Egress.Proxy.parse_connect_line
    fire_crow.Egress.Proxy.first_blocked fire_crow.Egress.Proxy.check_candidates
    fire_crow.Egress.Proxy.read_head fire_crow.Egress.Proxy.connect_pinned
    fire_crow.Egress.Proxy.check_target fire_crow.Egress.Proxy.serve_target
    fire_crow.Egress.Proxy.serve_connection fire_crow.Egress.Proxy.handle_accept
    fire_crow.Egress.Target.strip_dot fire_crow.Egress.Target.direct
    fire_crow.Egress.Target.is_smuggled fire_crow.Egress.Target.is_approved
    fire_crow.Egress.Target.host_text fire_crow.Egress.Target.evaluate_egress_target
    fire_crow.Egress.Target.check_url fire_crow.Egress.Target.validate_osv_proxy_url
    fire_crow.Egress.Target.resolve_osv_egress_proxy fire_crow.Text.str fire_crow.Text.str_eq
    fire_crow.Text.one_of fire_crow.Text.strip_prefix fire_crow.Text.starts_with
    fire_crow.Text.ends_with fire_crow.Text.contains fire_crow.Text.has_byte
    fire_crow.Text.split_pieces fire_crow.Text.split fire_crow.Text.before fire_crow.Text.split_once
    fire_crow.Text.rsplit_once fire_crow.Text.join fire_crow.Text.trim_end_matches
    fire_crow.Text.is_digit fire_crow.Text.to_hex_digit fire_crow.Text.Control.has_control
    fire_crow.Text.Control.char_count fire_crow.Text.Decimal.decimal fire_crow.Text.Decimal.show_int
    fire_crow.Text.Replace.replace fire_crow.Text.Trim.trim_start fire_crow.Text.Trim.trim_end
    fire_crow.Text.Trim.trim fire_crow.Text.Trim.has_whitespace fire_crow.Text.Utf8.is_utf8
    fire_crow.Text.Utf8.from_utf8_lossy fire_crow.Text.Words.before_blank
    fire_crow.Text.Words.first_word fire_crow.Text.Words.continues fire_crow.Text.Words.chars_from
    fire_crow.Text.Words.chars fire_crow.Text.Words.find_text fire_crow.Text.Words.begins_char
    fire_crow.Text.Words.slice fire_crow.Text.Words.blank_out fire_crow.Text.Words.filled
    fire_crow.Text.Words.words
egress_runs = 0

abbrev gateway : Ipv4
gateway = record { a = 192; b = 168; c = 1; d = 1 }

gateway-IsAddress : IsAddress gateway
gateway-IsAddress = record {
  a_small = omega arith;
  b_small = omega arith;
  c_small = omega arith;
  d_small = omega arith;
}

evaluate_v4-allowed_iff_example :
    (evaluate_v4 gateway ≡ allowed) ↔ (¬ IsReserved (number_of gateway))
evaluate_v4-allowed_iff_example = evaluate_v4-allowed_iff gateway gateway-IsAddress

abbrev loopback : Ipv4
loopback = record { a = 127; b = 0; c = 0; d = 1 }

-- A host that is 127.0.0.1 in hexadecimal and octal parts.
abbrev odd_host : Str
odd_host = str "0x7F.0.00.01"

odd_parsed : parse_alt_ipv4 odd_host ≡ some loopback
unfolding egress_runs
odd_parsed = refl

whole_number_parsed : parse_alt_ipv4 (str "2130706433") ≡ some loopback
unfolding egress_runs
whole_number_parsed = refl

loopback-IsAddress : IsAddress loopback
loopback-IsAddress = record {
  a_small = omega arith;
  b_small = omega arith;
  c_small = omega arith;
  d_small = omega arith;
}

parse_alt_ipv4-decimal_example : parse_alt_ipv4 (decimal (number_of loopback)) ≡ some loopback
parse_alt_ipv4-decimal_example = parse_alt_ipv4-decimal loopback loopback-IsAddress

evaluate_v6-mapped_example : evaluate_v6 (mapped loopback) ≡ evaluate_v4 loopback
evaluate_v6-mapped_example = evaluate_v6-mapped loopback loopback-IsAddress

-- A text that is in lower case already, and a parser that knows no address.
abbrev same_case : Str → Str
same_case s = s

abbrev no_address : Str → Option IpAddr
no_address _ = none

abbrev osv_host : Str
osv_host = str " api.osv.dev. "

osv_allowed : evaluate_egress_target same_case no_address osv_host 443 ≡ allowed
unfolding egress_runs
osv_allowed = refl

abbrev https_port : ℕ
https_port = 443

evaluate_egress_target-allowed_iff_example :
    ((https_port ≡ 443) ⊎ (https_port ≡ 53))
    × (no_address (host_text same_case osv_host) ≡ none)
    × (parse_alt_ipv4 (host_text same_case osv_host) ≡ none)
    × (is_smuggled (host_text same_case osv_host) ≡ false)
    × IsOsv (host_text same_case osv_host)
evaluate_egress_target-allowed_iff_example =
    (evaluate_egress_target-allowed_iff same_case no_address osv_host https_port).0 osv_allowed

abbrev proxy_url : Url
proxy_url = record {
  scheme = str "http";
  username = [];
  password = none;
  host_str = some (str "osv-proxy");
  port = some 3128;
  path = str "/";
  query = none;
  fragment = none;
}

-- A parser that knows one URL.
abbrev proxy_parser : Str → Option Url
proxy_parser _ = some proxy_url

abbrev proxy_text : Str
proxy_text = str "http://osv-proxy:3128"

proxy_accepted :
    validate_osv_proxy_url proxy_parser (str "http://osv-proxy:3128/") ≡ proxy proxy_text
unfolding egress_runs
proxy_accepted = refl

validate_osv_proxy_url-IsProxy_example :
    (length (trim (str "http://osv-proxy:3128/")) ≤ 512)
    × (has_whitespace (trim (str "http://osv-proxy:3128/")) ≡ false)
    × (has_control (trim (str "http://osv-proxy:3128/")) ≡ false)
    × ((url : Url) × (proxy_parser (trim (str "http://osv-proxy:3128/")) ≡ some url)
        × IsProxy url proxy_text)
validate_osv_proxy_url-IsProxy_example =
    validate_osv_proxy_url-IsProxy proxy_parser (str "http://osv-proxy:3128/") proxy_text
      proxy_accepted

abbrev osv_lines : List Str
osv_lines =
    (str "CONNECT api.osv.dev:443 HTTP/1.1" ++ 13 ∷ 10 ∷ [])
    ∷ (str "Host: api.osv.dev" ++ 13 ∷ 10 ∷ [])
    ∷ (13 ∷ 10 ∷ [])
    ∷ []

abbrev public_address : IpAddr
public_address = v4 (record { a = 34; b = 120; c = 64; d = 1 })

abbrev other_address : IpAddr
other_address = v4 (record { a = 34; b = 120; c = 64; d = 2 })

abbrev two_addresses : Str → Option (List IpAddr)
two_addresses host = some (public_address ∷ other_address ∷ [])

-- Only the second address is reached.
abbrev reaches_other : IpAddr → ℕ → Bool
reaches_other (v4 ip) port = ip.d == 2
reaches_other (v6 ip) port = false

abbrev no_literal : Str → Option IpAddr
no_literal s = none

abbrev osv_effects : List Effect
osv_effects =
    query (str "api.osv.dev")
    ∷ dial public_address 443
    ∷ dial other_address 443
    ∷ answer "HTTP/1.1 200 Connection established"
    ∷ tunnel other_address
    ∷ []

osv_served : handle_accept (λ s. s) no_literal two_addresses reaches_other 1 osv_lines ≡ osv_effects
unfolding egress_runs
osv_served = refl

mixed_answer_denied :
    handle_accept
      (λ s. s)
      no_literal
      (λ s. some (public_address ∷ v4 gateway ∷ []))
      reaches_other
      1
      osv_lines
    ≡ query (str "api.osv.dev") ∷ answer "HTTP/1.1 403 Forbidden" ∷ []
unfolding egress_runs
mixed_answer_denied = refl

other_host_unasked :
    handle_accept
      (λ s. s)
      no_literal
      two_addresses
      reaches_other
      1
      ((str "CONNECT example.org:443 HTTP/1.1" ++ 10 ∷ []) ∷ (10 ∷ []) ∷ [])
    ≡ answer "HTTP/1.1 403 Forbidden" ∷ []
unfolding egress_runs
other_host_unasked = refl

serve_connection-IsAuthorized_example :
    let effects = serve_connection (λ s. s) no_literal two_addresses reaches_other osv_lines in
    (effects ≡ answer "HTTP/1.1 400 Bad Request" ∷ [])
    ⊎ ((line : Str) × (host : Str) × (port : ℕ) × (read_head 0 none osv_lines ≡ some line)
        × (parse_connect_line line ≡ ok (host, port))
        × All (IsAuthorized (λ s. s) no_literal two_addresses reaches_other host port) effects)
serve_connection-IsAuthorized_example =
    serve_connection-IsAuthorized (λ s. s) no_literal two_addresses reaches_other osv_lines

handle_accept-IsAnswered_example :
    IsAnswered (handle_accept (λ s. s) no_literal two_addresses reaches_other 1 osv_lines)
handle_accept-IsAnswered_example =
    handle_accept-IsAnswered (λ s. s) no_literal two_addresses reaches_other 1 osv_lines
