-- ===== src/Authz/Query.antt =====
-- The query of a request, and the names of scanner containers: `percent_decode`, `query_param` and
-- `is_scanner_name` of docker-authz-plugin/src/lib.rs.
pub mod Names
use fire_crow.Prelude.{
  ℕ, suc, ◌+◌, ◌*◌, ◌%◌, Bool, false, not, ◌&&◌, ◌||◌, Option, none, some, List, [], ◌∷◌, ◌==◌,
  if◌then◌else◌, leb, length, any,
}
use fire_crow.Text.{Str, str, str_eq, strip_prefix, split, split_once, to_hex_digit, is_digit}
use fire_crow.Text.Utf8.{from_utf8_lossy}

-- The loop of `percent_decode`, which reads three bytes at an escape.
unfoldable pub percent_bytes : Str → Str
percent_bytes (p ∷ a ∷ b ∷ s) =
    let escaped = percent_bytes s in
    let plain = percent_bytes (a ∷ b ∷ s) in
    if p == b'%'
    then elim (to_hex_digit a) [
      | none ↦ p ∷ plain
      | some h ↦ elim (to_hex_digit b) [
        | none ↦ p ∷ plain
        | some l ↦ ((h * 16 + l) % 256) ∷ escaped
      ]
    ]
    else p ∷ plain
percent_bytes s = s

unfoldable pub percent_decode : Str → Str
percent_decode s = from_utf8_lossy (percent_bytes s)

-- The loop of `find_map` over the pairs of the query.
unfoldable pub find_param : Str → List Str → Option Str
find_param key [] = none
find_param key (pair ∷ pairs) =
    let rest = find_param key pairs in
    elim (split_once b'=' pair) [
      | none ↦ rest
      | some (k, v) ↦ if str_eq k key then some (percent_decode v) else rest
    ]

unfoldable pub query_param : Str → Str → Option Str
query_param uri key = elim (split_once b'?' uri) [
  | none ↦ none
  | some (_, q) ↦ find_param key (split b'&' q)
]

abbrev pub is_dash_place : ℕ → Bool
is_dash_place i = i == 8 || i == 13 || i == 18 || i == 23

-- The loop over the bytes of the suffix; `dash` lists the places that are set to true.
unfoldable pub uuid_loop : ℕ → List ℕ → Str → Option (List ℕ)
uuid_loop i dash [] = some dash
uuid_loop i dash (b ∷ s) =
    let digit = uuid_loop (suc i) dash s in
    let dashed = uuid_loop (suc i) (i ∷ dash) s in
    if is_digit b || (leb b'a' b && leb b b'f')
    then digit
    else if b == b'-' && is_dash_place i
    then dashed
    else none

abbrev pub is_set : ℕ → List ℕ → Bool
is_set i dash = any (λ j. j == i) dash

unfoldable pub is_scanner_name : Str → Bool
is_scanner_name name = elim (strip_prefix name (str "firecrow-scan-")) [
  | none ↦ false
  | some suffix ↦ if not (length suffix == 36) then false else elim (uuid_loop 0 [] suffix) [
    | none ↦ false
    | some dash ↦ is_set 8 dash && is_set 13 dash && is_set 18 dash && is_set 23 dash
  ]
]
