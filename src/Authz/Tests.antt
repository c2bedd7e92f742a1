-- ===== src/Authz/Tests.antt =====
-- Concrete requests to the plugin of docker-authz-plugin.
use fire_crow.Prelude.{
  ℕ, ◌≡◌, refl, ◌↔◌, ◌⊎◌, true, false, Option, none, some, List, [], ◌∷◌, ◌++◌, arith, returns,
  panics, length,
}
use fire_crow.Text.{Str, str, starts_with, split}
use fire_crow.Text.Equality.{In}
use fire_crow.Json.{
  Value, null, bool, number, string, array, object, nil, cons, end, entry, pos_int, Entries, get,
}
use fire_crow.Authz.Request.{AuthzRequest, Decision, parse_request, ok}
use fire_crow.Authz.Base64.{b64_decode}
use fire_crow.Authz.Base64.Encode.{encode}
use fire_crow.Authz.Base64.RoundTrip.{b64_decode-encode}
use fire_crow.Authz.Path.{normalize_path, raw_path, path_segments}
use fire_crow.Authz.Path.Laws.{IsClean, normalize_path-IsClean}
use fire_crow.Authz.Path.Panics.{normalize_path-panics_iff, PassesGuards, FirstIsWide}
use fire_crow.Authz.Query.{is_scanner_name}
use fire_crow.Authz.Query.Names.{is_scanner_name_iff, FitsUuid}
use fire_crow.Authz.Host.{canonical_host_path, host_source_denied}
use fire_crow.Authz.Host.Laws.{components}
use fire_crow.Authz.Host.Denied.{host_source_denied_iff, IsWithinAny, sensitive_trees}
use fire_crow.Authz.Pull.{pull_policy}
use fire_crow.Authz.Pull.Laws.{IsPullable, pull_policy-allow_iff}
use fire_crow.Authz.Create.{create_policy}
use fire_crow.Authz.Create.Policy.{IsCreatable, create_policy-allow_iff}
use fire_crow.Authz.Plugin.{
  Plugin, LogRecord, decide, authz_req, log_decision, value_or_null, Event, asked, answered,
  handle_all,
}
use fire_crow.Authz.Plugin.Decide.{IsAuthorized, decide-allow_iff}
use fire_crow.Authz.Plugin.Trace.{
  TellsOf, authz_req-allow, authz_req-logs, registry-handle_all, reported,
}

-- The names that a run of the plugin computes through.
unfoldable plugin_runs : ℕ
unfolding fire_crow.Authz.Base64.is_whitespace fire_crow.Authz.Base64.table
    fire_crow.Authz.Base64.strip_whitespace fire_crow.Authz.Base64.position
    fire_crow.Authz.Base64.padding_ok fire_crow.Authz.Base64.last_sextets
    fire_crow.Authz.Base64.quantum fire_crow.Authz.Base64.quanta fire_crow.Authz.Base64.b64_decode
    fire_crow.Authz.Create.check_name fire_crow.Authz.Create.check_image
    fire_crow.Authz.Create.check_host fire_crow.Authz.Create.check_rest
    fire_crow.Authz.Create.check_spec fire_crow.Authz.Create.create_policy
    fire_crow.Authz.Create.Binds.check_bind_parts fire_crow.Authz.Create.Binds.check_bind
    fire_crow.Authz.Create.Binds.check_each_bind fire_crow.Authz.Create.Binds.check_binds
    fire_crow.Authz.Create.Fields.check_privileged
    fire_crow.Authz.Create.Fields.check_absent_or_empty fire_crow.Authz.Create.Fields.check_cap_drop
    fire_crow.Authz.Create.Fields.check_network fire_crow.Authz.Create.Fields.check_namespaces
    fire_crow.Authz.Create.Fields.check_entrypoint fire_crow.Authz.Create.Fields.check_cmd
    fire_crow.Authz.Create.Fields.check_user fire_crow.Authz.Create.Fields.check_readonly
    fire_crow.Authz.Create.Options.check_each_opt fire_crow.Authz.Create.Options.check_security_opt
    fire_crow.Authz.Create.Options.check_flags fire_crow.Authz.Create.Options.check_flag_names
    fire_crow.Authz.Create.Options.check_tmpfs_entry
    fire_crow.Authz.Create.Options.check_tmpfs_entries fire_crow.Authz.Create.Options.check_tmpfs
    fire_crow.Authz.Create.Options.restart_ok fire_crow.Authz.Create.Options.check_restart
    fire_crow.Authz.Host.resolve fire_crow.Authz.Host.resolve_all
    fire_crow.Authz.Host.canonical_host_path fire_crow.Authz.Host.under_prefix
    fire_crow.Authz.Host.host_source_denied fire_crow.Authz.Path.raw_path
    fire_crow.Authz.Path.path_segments fire_crow.Authz.Path.tail_of_ver
    fire_crow.Authz.Path.strip_version fire_crow.Authz.Path.normalize_path
    fire_crow.Authz.Path.container_target fire_crow.Authz.Path.is_lifecycle_op
    fire_crow.Authz.Path.is_container_delete fire_crow.Authz.Plugin.insert
    fire_crow.Authz.Plugin.target_policy fire_crow.Authz.Plugin.log_decision
    fire_crow.Authz.Plugin.route fire_crow.Authz.Plugin.decide fire_crow.Authz.Plugin.created_id
    fire_crow.Authz.Plugin.observe fire_crow.Authz.Plugin.authz_req fire_crow.Authz.Plugin.handle
    fire_crow.Authz.Plugin.handle_all fire_crow.Authz.Pull.values_of fire_crow.Authz.Pull.recombine
    fire_crow.Authz.Pull.candidate fire_crow.Authz.Pull.decide_candidate
    fire_crow.Authz.Pull.pull_from fire_crow.Authz.Pull.pull_policy
    fire_crow.Authz.Query.percent_bytes fire_crow.Authz.Query.percent_decode
    fire_crow.Authz.Query.find_param fire_crow.Authz.Query.query_param
    fire_crow.Authz.Query.uuid_loop fire_crow.Authz.Query.is_scanner_name
    fire_crow.Authz.Request.parse_body fire_crow.Authz.Request.parse_request fire_crow.Json.get
    fire_crow.Text.str fire_crow.Text.str_eq fire_crow.Text.one_of fire_crow.Text.strip_prefix
    fire_crow.Text.starts_with fire_crow.Text.ends_with fire_crow.Text.contains
    fire_crow.Text.has_byte fire_crow.Text.split_pieces fire_crow.Text.split fire_crow.Text.before
    fire_crow.Text.split_once fire_crow.Text.rsplit_once fire_crow.Text.join
    fire_crow.Text.trim_end_matches fire_crow.Text.is_digit fire_crow.Text.to_hex_digit
    fire_crow.Text.Utf8.is_utf8 fire_crow.Text.Utf8.from_utf8_lossy
plugin_runs = 0

b64_decode-encode_example :
    b64_decode (encode (0x66 ∷ 0x6F ∷ 0xFF ∷ 0 ∷ [])) ≡ some (0x66 ∷ 0x6F ∷ 0xFF ∷ 0 ∷ [])
b64_decode-encode_example =
    b64_decode-encode (0x66 ∷ 0x6F ∷ 0xFF ∷ 0 ∷ []) (ground arith) (ground arith)

abbrev scanner_name : Str
scanner_name = str "firecrow-scan-0f8fad5b-d9cb-469f-a165-70867728950e"

abbrev versioned_uri : Str
versioned_uri = str "/v1.43/containers//" ++ scanner_name ++ str "/start?t=5"

normalized :
    normalize_path versioned_uri ≡ returns (str "/containers/" ++ scanner_name ++ str "/start")
unfolding plugin_runs
normalized = refl

normalize_path-IsClean_example :
    (str "/containers/" ++ scanner_name ++ str "/start" ≡ [])
    ⊎ IsClean (str "/containers/" ++ scanner_name ++ str "/start")
normalize_path-IsClean_example = normalize_path-IsClean versioned_uri _ normalized

-- `/é/x`
abbrev wide_uri : Str
wide_uri = b'/' ∷ 0xC3 ∷ 0xA9 ∷ str "/x"

panicked : normalize_path wide_uri ≡ panics
unfolding plugin_runs
panicked = refl

normalize_path-panics_iff_example :
    PassesGuards (raw_path wide_uri)
    × ((segs : List Str) × (path_segments (split b'/' (raw_path wide_uri)) ≡ some segs)
        × FirstIsWide segs)
normalize_path-panics_iff_example = (normalize_path-panics_iff wide_uri).0 panicked

scanner_name_accepted : is_scanner_name scanner_name ≡ true
unfolding plugin_runs
scanner_name_accepted = refl

is_scanner_name_iff_example :
    (suffix : Str) × (scanner_name ≡ str "firecrow-scan-" ++ suffix)
    × (length suffix ≡ 36)
    × FitsUuid 0 suffix
is_scanner_name_iff_example = (is_scanner_name_iff scanner_name).0 scanner_name_accepted

shadow_denied : host_source_denied (str "/srv/../etc//shadow") ≡ true
unfolding plugin_runs
shadow_denied = refl

host_source_denied_iff_example :
    (starts_with (str "/srv/../etc//shadow") (str "/") ≡ false)
    ⊎ (components (str "/srv/../etc//shadow") ≡ [])
    ⊎ IsWithinAny (components (str "/srv/../etc//shadow")) sensitive_trees
host_source_denied_iff_example =
    (host_source_denied_iff (str "/srv/../etc//shadow")).0 shadow_denied

abbrev request : Str → Str → Option Str → AuthzRequest
request method uri body = record {
  method = method;
  uri = uri;
  user = some (str "scan-worker");
  user_authn = some (str "TLS");
  body = body;
}

abbrev pull_request : AuthzRequest
pull_request =
    request (str "POST") (str "/images/create?fromImage=semgrep%2Fsemgrep&tag=1.96.0") none

pull_allowed : (pull_policy pull_request).allow ≡ true
unfolding plugin_runs
pull_allowed = refl

pull_policy-allow_iff_example : IsPullable pull_request
pull_policy-allow_iff_example = (pull_policy-allow_iff pull_request).0 pull_allowed

abbrev host_config_value : Value
host_config_value = object (
    entry (str "CapDrop") (array (cons (string (str "ALL")) nil)) (
      entry (str "Binds") (array (cons (string (str "/srv/scans/1:/scan:ro")) nil)) (
        entry (str "NetworkMode") (string (str "none")) (
          entry (str "ReadonlyRootfs") (bool true) (
            entry (str "SecurityOpt") (array (cons (string (str "no-new-privileges")) nil)) (
              entry (str "Tmpfs")
                (object (entry (str "/work") (string (str "rw,noexec,nosuid,nodev,size=64m")) end))
                end))))))

abbrev container_value : Value
container_value = object (
    entry (str "Image") (string (str "semgrep/semgrep:1.96.0")) (
      entry (str "User") (string (str "65534:65534")) (
        entry (str "Cmd") (array (cons (string (str "semgrep")) nil))
          (entry (str "HostConfig") host_config_value end))))

-- A parser that knows one text.
abbrev container_parser : Str → Option Value
container_parser [] = none
container_parser (_ ∷ _) = some container_value

abbrev create_request : AuthzRequest
create_request =
    request (str "POST") (str "/containers/create?name=" ++ scanner_name) (some (str "{}"))

create_allowed : (create_policy container_parser create_request).allow ≡ true
unfolding plugin_runs
create_allowed = refl

create_policy-allow_iff_example : IsCreatable container_parser create_request
create_policy-allow_iff_example =
    (create_policy-allow_iff container_parser create_request).0 create_allowed

abbrev plugin : Plugin
plugin = record { allowed_cns = str "scan-worker" ∷ []; registry = str "c0ffee" ∷ []; log = [] }

abbrev stop_request : AuthzRequest
stop_request = request (str "POST") (str "/v1.43/containers/c0ffee/stop") none

abbrev stop_decision : Decision
stop_decision = record {
  allow = true;
  rule = "target-registered";
  msg = [];
  target = some (str "c0ffee");
}

stop_allowed : decide container_parser plugin stop_request ≡ returns stop_decision
unfolding plugin_runs
stop_allowed = refl

decide-allow_iff_example : IsAuthorized container_parser plugin stop_request
decide-allow_iff_example =
    (decide-allow_iff container_parser plugin stop_request).0 (stop_decision, stop_allowed, refl)

abbrev stop_payload : Option Value
stop_payload = some (
    object (
      entry (str "User") (string (str "scan-worker")) (
        entry (str "UserAuthNMethod") (string (str "TLS")) (
          entry (str "RequestMethod") (string (str "POST"))
            (entry (str "RequestUri") (string (str "/v1.43/containers/c0ffee/stop")) end)))))

stop_answered :
    authz_req container_parser plugin stop_payload 7 3 true
    ≡ returns (log_decision plugin stop_decision stop_request 7 3 true, stop_decision)
unfolding plugin_runs
stop_answered = refl

authz_req-allow_example :
    (req : AuthzRequest) × (parse_request (value_or_null stop_payload) ≡ ok req)
    × IsAuthorized container_parser plugin req
authz_req-allow_example =
    authz_req-allow container_parser plugin stop_payload 7 3 true _ stop_decision stop_answered refl

authz_req-logs_example :
    ((line : LogRecord) × ((log_decision plugin stop_decision stop_request 7 3 true).log
        ≡ line ∷ plugin.log)
      × (line.decision ≡ stop_decision)
      × TellsOf container_parser plugin stop_payload line)
    × ((log_decision plugin stop_decision stop_request 7 3 true).allowed_cns ≡ plugin.allowed_cns)
    × ((log_decision plugin stop_decision stop_request 7 3 true).registry ≡ plugin.registry)
authz_req-logs_example =
    authz_req-logs container_parser plugin stop_payload 7 3 true _ stop_decision stop_answered

-- The base64 of `{}`, which the parser below reads as the response that reports an id.
abbrev created_payload : Option Value
created_payload = some (object (entry (str "ResponseBody") (string (str "e30=")) end))

abbrev id_parser : Str → Option Value
id_parser _ = some (object (entry (str "Id") (string (str "beef")) end))

abbrev events : List Event
events = asked stop_payload 7 3 true ∷ answered created_payload ∷ answered none ∷ []

registry-handle_all_example :
    In (str "beef") (handle_all id_parser plugin events).registry
    ↔ (In (str "beef") plugin.registry ⊎ In (str "beef") (reported id_parser events))
registry-handle_all_example = registry-handle_all id_parser plugin events (str "beef")

reported_ids : reported id_parser events ≡ str "beef" ∷ []
unfolding plugin_runs
reported_ids = refl
