-- ===== src/Authz/Request.antt =====
-- `Decision`, `AuthzRequest` and `parse_request` of docker-authz-plugin/src/lib.rs.
use fire_crow.Prelude.{
  Bool, true, false, Option, none, some, List, [], if◌then◌else◌, is_empty, String, ◌≡◌, refl, ◌⊎◌,
  inl, inr,
}
use fire_crow.Text.{Str, str}
use fire_crow.Text.Utf8.{is_utf8}
use fire_crow.Json.{Value, get, as_object, as_str, string}
use fire_crow.Authz.Base64.{b64_decode}

pub record Decision : Type 0 where
  pub allow : Bool
  pub rule : String
  pub msg : Str
  pub target : Option Str

-- `Decision::allow` and `Decision::deny`
abbrev pub allow : String → Option Str → Decision
allow rule target = record { allow = true; rule = rule; msg = []; target = target }

abbrev pub deny : String → Str → Option Str → Decision
deny rule msg target = record { allow = false; rule = rule; msg = msg; target = target }

pub record AuthzRequest : Type 0 where
  pub method : Str
  pub uri : Str
  pub user : Option Str
  pub user_authn : Option Str
  pub body : Option Str

pub data Parsed {ℓ} (A : Type ℓ) : Type ℓ where
  ok : A → Parsed A
  err : String → Parsed A

infixl 5 ◌>>=◌
abbrev pub ◌>>=◌ {ℓ κ} : {A : Type ℓ} {B : Type κ} → Parsed A → (A → Parsed B) → Parsed B
ok a >>= f = f a
err e >>= f = err e

abbrev ok_or {ℓ} : {A : Type ℓ} → Option A → String → Parsed A
ok_or none e = err e
ok_or (some a) e = ok a

abbrev get_str : List (Str × Value) → Str → Option Str
get_str obj key = elim (get obj key) [ none ↦ none | some v ↦ as_str v ]

abbrev or_else : Option Str → Option Str → Option Str
or_else none b = b
or_else (some a) b = some a

abbrev filter_nonempty : Option Str → Option Str
filter_nonempty none = none
filter_nonempty (some s) = if is_empty s then none else some s

-- The match on `obj.get("RequestBody")`.
unfoldable pub parse_body : Option Value → Parsed (Option Str)
parse_body (some (string s)) = elim (b64_decode s) [
  | none ↦ err "body-undecodable"
  | some raw ↦ if is_utf8 raw then ok (some raw) else err "body-undecodable"
]
parse_body _ = ok none

unfoldable pub parse_request : Value → Parsed AuthzRequest
parse_request v = do
  obj ← ok_or (as_object v) "payload-not-object"
  uri ←
      ok_or
        (filter_nonempty
          (or_else (get_str obj (str "RequestUri")) (get_str obj (str "RequestURI"))))
        "uri-missing"
  method ← ok_or (filter_nonempty (get_str obj (str "RequestMethod"))) "method-missing"
  body ← parse_body (get obj (str "RequestBody"))
  ok (record {
    method = method;
    uri = uri;
    user = get_str obj (str "User");
    user_authn = get_str obj (str "UserAuthNMethod");
    body = body;
  })

pub Parsed-cases {ℓ} :
    {A : Type ℓ} (p : Parsed A) → ((a : A) × (p ≡ ok a)) ⊎ ((e : String) × (p ≡ err e))
Parsed-cases (ok a) = inl (a, refl)
Parsed-cases (err e) = inr (e, refl)
