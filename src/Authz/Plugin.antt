-- ===== src/Authz/Plugin.antt =====
-- `Plugin` of docker-authz-plugin/src/lib.rs, and `dispatch` of docker-authz-plugin/src/main.rs.
pub mod Words
pub mod Decide
pub mod Trace
use fire_crow.Prelude.{
  ℕ, Bool, true, false, not, ◌&&◌, ◌||◌, Option, none, some, List, [], ◌∷◌, ◌++◌, if◌then◌else◌,
  is_empty, Run, returns, panics,
}
use fire_crow.Text.{Str, str, str_eq, one_of}
use fire_crow.Text.Utf8.{is_utf8}
use fire_crow.Json.{Value, null, get, as_object, as_str}
use fire_crow.Authz.Base64.{b64_decode}
use fire_crow.Authz.Path.{normalize_path, container_target, is_lifecycle_op, is_container_delete}
use fire_crow.Authz.Query.{is_scanner_name}
use fire_crow.Authz.Request.{Decision, allow, deny, AuthzRequest, ok, err, parse_request}
use fire_crow.Authz.Pull.{pull_policy}
use fire_crow.Authz.Create.{create_policy}

-- One line of the decision log.
pub record LogRecord : Type 0 where
  pub ts : ℕ
  pub decision : Decision
  pub method : Str
  pub uri : Str
  pub user : Option Str
  pub user_authn : Option Str
  pub duration_ms : ℕ

-- The sets are lists without repetitions; the log has its last line at the head.
pub record Plugin : Type 0 where
  pub allowed_cns : List Str
  pub registry : List Str
  pub log : List LogRecord

unfoldable pub insert : Str → List Str → List Str
insert s set = if one_of set s then set else s ∷ set

unfoldable pub target_policy : List Str → Str → Decision
target_policy registry target =
    if one_of registry target
    then allow "target-registered" (some target)
    else if is_scanner_name target
    then allow "target-name" (some target)
    else deny "target-unknown" (str "container '" ++ target ++ str "' is not owned by this channel")
        (some target)

-- The identity that the mTLS layer has verified, if there is one.
abbrev pub identity_of : AuthzRequest → Option Str
identity_of req = elim req.user_authn [
  | none ↦ none
  | some authn ↦
      if str_eq authn (str "TLS")
      then elim req.user [ none ↦ none | some cn ↦ if is_empty cn then none else some cn ]
      else none
]

abbrev some_or_else : Option Str → Decision → (Str → Decision) → Decision
some_or_else none d f = d
some_or_else (some t) d f = f t

-- `object.get(key).and_then(|v| v.as_str())`
abbrev pub field_text : Option (List (Str × Value)) → Str → Option Str
field_text none key = none
field_text (some m) key = elim (get m key) [ none ↦ none | some v ↦ as_str v ]

abbrev pub nonempty_text : Option Str → Option Str
nonempty_text none = none
nonempty_text (some s) = if is_empty s then none else some s

-- `serde_json::from_slice(…).unwrap_or(Value::Null)`
abbrev pub value_or_null : Option Value → Value
value_or_null none = null
value_or_null (some v) = v

abbrev pub blank_request : AuthzRequest
blank_request = record { method = []; uri = []; user = none; user_authn = none; body = none }

-- `stored` says whether the lock of the log is taken and the line written; else the line is lost.
unfoldable pub log_decision : Plugin → Decision → AuthzRequest → ℕ → ℕ → Bool → Plugin
log_decision plugin d req now elapsed stored =
    let line : LogRecord = record {
      ts = now;
      decision = d;
      method = req.method;
      uri = req.uri;
      user = req.user;
      user_authn = req.user_authn;
      duration_ms = elapsed;
    } in
    record plugin { log = if stored then line ∷ plugin.log else plugin.log }

module _ (parse_json : Str → Option Value) where
  -- The match on the method and the path.
  unfoldable pub route : List Str → AuthzRequest → Str → Option Str → Decision
  route registry req path target =
      let denied =
        deny "endpoint-denied"
          (req.method ++ str " " ++ path ++ str " is not permitted on this channel") target in
      if ((str_eq req.method (str "HEAD") || str_eq req.method (str "GET"))
          && str_eq path (str "/_ping"))
        || (str_eq req.method (str "GET") && str_eq path (str "/version"))
      then allow "negotiation" target
      else if str_eq req.method (str "POST") && str_eq path (str "/containers/create")
      then create_policy parse_json req
      else if str_eq req.method (str "POST") && str_eq path (str "/images/create")
      then pull_policy req
      else if str_eq req.method (str "POST") && str_eq path (str "/grpc")
      then deny "grpc-door" (str "gRPC denied on this channel (O-3)") target
      else if (str_eq req.method (str "POST") && is_lifecycle_op path)
          || (str_eq req.method (str "DELETE") && is_container_delete path)
      then some_or_else target denied (target_policy registry)
      else denied

  unfoldable pub decide : Plugin → AuthzRequest → Run Decision
  decide plugin req = elim (identity_of req) [
    | none ↦
        returns (deny "identity-required" (str "TLS client identity required on this channel") none)
    | some identity ↦
        if not (one_of plugin.allowed_cns identity)
        then returns (
            deny "identity-not-allowed"
              (str "identity '" ++ identity ++ str "' is not on the allowlist") none)
        else elim (normalize_path req.uri) [
          | panics ↦ panics
          | returns path ↦ returns (route plugin.registry req path (container_target path))
        ]
  ]

  -- The `Id` of a response body that is an object, if it is a text that is not empty.
  unfoldable pub created_id : Value → Option Str
  created_id res = elim (field_text (as_object res) (str "ResponseBody")) [
    | none ↦ none
    | some body ↦ elim (b64_decode body) [
      | none ↦ none
      | some raw ↦ if not (is_utf8 raw) then none else elim (parse_json raw) [
        | none ↦ none
        | some v ↦ nonempty_text (field_text (as_object v) (str "Id"))
      ]
    ]
  ]

  unfoldable pub observe : Plugin → Value → Plugin × Bool
  observe plugin res = elim (created_id res) [
    | none ↦ (plugin, false)
    | some id ↦ (record plugin { registry = insert id plugin.registry }, true)
  ]

  -- `dispatch` on `/AuthZPlugin.AuthZReq`: the decision that is answered and logged. `now` and
  -- `elapsed` are the readings of the two clocks, and `stored` says whether the log takes the line.
  unfoldable pub authz_req : Plugin → Option Value → ℕ → ℕ → Bool → Run (Plugin × Decision)
  authz_req plugin payload now elapsed stored = elim (parse_request (value_or_null payload)) [
    | ok parsed ↦ elim (decide plugin parsed) [
      | panics ↦ panics
      | returns d ↦ returns (log_decision plugin d parsed now elapsed stored, d)
    ]
    | err reason ↦
        let d = deny reason (str "unusable authorization request: " ++ str reason) none in
        returns (log_decision plugin d blank_request now elapsed stored, d)
  ]

-- What the daemon posts to the plugin: a request to decide, with the readings of the two clocks and
-- the fate of its line in the log, or the response to an allowed request.
pub data Event : Type 0 where
  asked : Option Value → ℕ → ℕ → Bool → Event
  answered : Option Value → Event

module _ (parse_json : Str → Option Value) where
  -- `dispatch` on the two endpoints. A panic ends the thread of its connection, before anything is
  -- written and while no lock is held.
  unfoldable pub handle : Plugin → Event → Plugin
  handle plugin (asked payload now elapsed stored) =
      elim (authz_req parse_json plugin payload now elapsed stored) [
        | panics ↦ plugin
        | returns (plugin', _) ↦ plugin'
      ]
  handle plugin (answered payload) = (observe parse_json plugin (value_or_null payload)).0

  unfoldable pub handle_all : Plugin → List Event → Plugin
  handle_all plugin [] = plugin
  handle_all plugin (e ∷ es) = handle_all (handle plugin e) es
