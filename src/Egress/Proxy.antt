-- ===== src/Egress/Proxy.antt =====
-- The filtering forward proxy, backend/src/bin/egress_proxy.rs.
pub mod Laws
use fire_crow.Prelude.{
  ℕ, suc, ◌+◌, ◌*◌, ◌-◌, Bool, true, false, not, ◌&&◌, ◌||◌, Option, none, some, List, [], ◌∷◌,
  ◌++◌, String, if◌then◌else◌, length, is_empty, all, leb, ltb, ◌==◌, drop, take,
}
use fire_crow.Prelude.Fallible.{Result, ok, err, ◌>>=◌, Done, reject_if, ok_or}
use fire_crow.Text.{Str, str, str_eq, has_byte, strip_prefix, rsplit_once, is_digit}
use fire_crow.Text.Trim.{trim, trim_end, has_whitespace}
use fire_crow.Text.Control.{has_control}
use fire_crow.Text.Words.{words, find_text}
use fire_crow.Egress.Address.{EgressDecision, allowed, blocked, IpAddr, evaluate_ip}
use fire_crow.Egress.Target.{evaluate_egress_target}

abbrev pub default_port : ℕ
default_port = 3128

abbrev pub max_head_bytes : ℕ
max_head_bytes = 8192

-- `DenyReason`
pub data DenyReason : Type 0 where
  target : String → DenyReason
  dns empty : DenyReason
  denied_candidate : String → DenyReason

-- The value of decimal digits after those that `n` stands for.
unfoldable pub digits_value : ℕ → Str → ℕ
digits_value n [] = n
digits_value n (x ∷ s) = digits_value (n * 10 + (x - b'0')) s

-- The digits after a plus sign, if there is one.
unfoldable pub unsigned : Str → Str
unsigned s = elim (strip_prefix s (str "+")) [ none ↦ s | some rest ↦ rest ]

-- `s.parse::<u16>()`
unfoldable pub parse_u16 : Str → Option ℕ
unfolding digits_value unsigned
parse_u16 s =
    let digits = unsigned s in
    if not (is_empty digits) && (all is_digit digits && leb (digits_value 0 digits) 65535)
    then some (digits_value 0 digits)
    else none

-- `s.split_once("]:")`
unfoldable pub split_bracket : Str → Option (Str × Str)
split_bracket s = elim (find_text s (str "]:")) [
  | none ↦ none
  | some n ↦ some (take n s, drop (n + 2) s)
]

-- The messages leave out how the value is quoted.
unfoldable pub proxy_port : Option Str → Result Str ℕ
unfolding parse_u16
proxy_port none = ok default_port
proxy_port (some value) = elim (parse_u16 (trim value)) [
  | none ↦ err (str "EGRESS_PROXY_PORT is not a valid port")
  | some ℕ.zero ↦ err (str "EGRESS_PROXY_PORT must not be 0")
  | some (ℕ.suc n) ↦ ok (suc n)
]

unfoldable pub parse_bracketed : Str → Result String (Str × ℕ)
unfolding split_bracket parse_u16
parse_bracketed rest = do
  (host, port) ← ok_or (split_bracket rest) "malformed bracketed authority"
  _ ←
      reject_if (is_empty host || (has_byte b'[' host || has_byte b']' host))
        "malformed bracketed authority"
  number ← ok_or (parse_u16 port) "malformed port"
  ok (host, number)

unfoldable pub parse_plain : Str → Result String (Str × ℕ)
unfolding parse_u16
parse_plain authority = do
  _ ←
      reject_if
        (has_byte b'@' authority
          || (has_byte b'/' authority
              || (has_byte b'[' authority
                  || (has_byte b']' authority
                      || (has_whitespace authority || has_control authority)))))
        "malformed authority"
  (host, port) ← ok_or (rsplit_once b':' authority) "authority has no port"
  _ ← reject_if (is_empty host || has_byte b':' host) "malformed authority"
  number ← ok_or (parse_u16 port) "malformed port"
  ok (host, number)

unfoldable pub parse_authority : Str → Result String (Str × ℕ)
unfolding parse_bracketed parse_plain
parse_authority authority =
    if is_empty authority || ltb 253 (length authority)
    then err "malformed authority"
    else elim (strip_prefix authority (str "[")) [
      | some rest ↦ parse_bracketed rest
      | none ↦ parse_plain authority
    ]

unfoldable pub parse_words : List Str → Result String (Str × ℕ)
unfolding parse_authority
parse_words (method ∷ authority ∷ version ∷ []) =
    if not (str_eq method (str "CONNECT"))
    then err "only CONNECT is supported"
    else if not (str_eq version (str "HTTP/1.1")) && not (str_eq version (str "HTTP/1.0"))
    then err "unsupported HTTP version"
    else parse_authority authority
parse_words _ = err "malformed CONNECT line"

unfoldable pub parse_connect_line : Str → Result String (Str × ℕ)
unfolding parse_words
parse_connect_line line = parse_words (words line)

-- The blocks of the candidates, the first one.
unfoldable pub first_blocked : List IpAddr → Option String
first_blocked [] = none
first_blocked (ip ∷ ips) =
    let rest = first_blocked ips in
    elim (evaluate_ip ip) [ blocked reason ↦ some reason | allowed ↦ rest ]

-- A failed resolution is none.
unfoldable pub check_candidates : Option (List IpAddr) → Result DenyReason (List IpAddr)
unfolding first_blocked
check_candidates none = err dns
check_candidates (some []) = err empty
check_candidates (some (ip ∷ ips)) = elim (first_blocked (ip ∷ ips)) [
  | some reason ↦ err (denied_candidate reason)
  | none ↦ ok (ip ∷ ips)
]

-- What the proxy does for a connection, in order: a query to the resolver, an attempt to connect to
-- an address and a port, the status line that is answered, and the copying to and from an address.
pub data Effect : Type 0 where
  query : Str → Effect
  dial : IpAddr → ℕ → Effect
  answer : String → Effect
  tunnel : IpAddr → Effect

-- The head of a request, from the lines that arrive in time, with the bytes that were read and the
-- first line. None is a failed read, an end before the blank line, a late one, or too many bytes.
unfoldable pub read_head : ℕ → Option Str → List Str → Option Str
read_head total first [] = none
read_head total first (line ∷ lines) =
    let kept = elim first as (λ _. Str) [ none ↦ trim_end line | some text ↦ text ] in
    let rest = read_head (total + length line) (some kept) lines in
    if is_empty line
    then none
    else if ltb max_head_bytes (total + length line)
    then none
    else if str_eq line (13 ∷ 10 ∷ []) || str_eq line (10 ∷ [])
    then some kept
    else rest

-- `connects` says to which addresses a connection succeeds in time.
module _ (connects : IpAddr → ℕ → Bool) where
  -- `connect_pinned` and what follows it.
  unfoldable pub connect_pinned : ℕ → List IpAddr → List Effect
  connect_pinned port [] = answer "HTTP/1.1 502 Bad Gateway" ∷ []
  connect_pinned port (ip ∷ ips) =
      let rest = connect_pinned port ips in
      if connects ip port
      then dial ip port ∷ answer "HTTP/1.1 200 Connection established" ∷ tunnel ip ∷ []
      else dial ip port ∷ rest

-- `lowercase` and `parse_ip` are those of the policy.
module _ (lowercase : Str → Str) (parse_ip : Str → Option IpAddr) where
  unfoldable pub check_target : Str → ℕ → Result DenyReason Done
  check_target host port = elim (evaluate_egress_target lowercase parse_ip host port) [
    | blocked reason ↦ err (target reason)
    | allowed ↦ ok tt
  ]

-- `resolve` is the resolver.
module _ (lowercase : Str → Str) (parse_ip : Str → Option IpAddr)
    (resolve : Str → Option (List IpAddr)) (connects : IpAddr → ℕ → Bool) where
  unfoldable pub serve_target : Str → ℕ → List Effect
  unfolding check_target connect_pinned
  serve_target host port = elim (check_target lowercase parse_ip host port) [
    | err reason ↦ answer "HTTP/1.1 403 Forbidden" ∷ []
    | ok u ↦ query host ∷ elim (check_candidates (resolve host)) as (λ _. List Effect) [
      | err reason ↦ answer "HTTP/1.1 403 Forbidden" ∷ []
      | ok ips ↦ connect_pinned connects port ips
    ]
  ]

  unfoldable pub serve_connection : List Str → List Effect
  unfolding read_head serve_target
  serve_connection lines = elim (read_head 0 none lines) [
    | none ↦ answer "HTTP/1.1 400 Bad Request" ∷ []
    | some line ↦ elim (parse_connect_line line) [
      | err reason ↦ answer "HTTP/1.1 400 Bad Request" ∷ []
      | ok (host, port) ↦ serve_target host port
    ]
  ]

  -- A connection that is accepted while so many permits are free.
  unfoldable pub handle_accept : ℕ → List Str → List Effect
  unfolding serve_connection
  handle_accept ℕ.zero lines = answer "HTTP/1.1 503 Service Unavailable" ∷ []
  handle_accept (ℕ.suc permits) lines = serve_connection lines
