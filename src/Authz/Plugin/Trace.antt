-- ===== src/Authz/Plugin/Trace.antt =====
-- About `dispatch` of docker-authz-plugin/src/main.rs, once and over a sequence of calls.
use mathlib.Core.Path.{subst}
use mathlib.Core.Bool.{false≢true}
use fire_crow.Prelude.{
  String, ℕ, ◌≡◌, refl, sym, ap, ◌∙◌, ◌↔◌, ◌⊎◌, inl, inr, true, false, Option, none, some, List, [],
  ◌∷◌, arith, Bool, if◌then◌else◌, Bool-cases, Run-cases, returns,
}
use fire_crow.Text.{Str, one_of}
use fire_crow.Text.Equality.{In, one_of_iff}
use fire_crow.Json.{Value}
use fire_crow.Authz.Request.{Decision, AuthzRequest, ok, err, Parsed-cases, parse_request}
use fire_crow.Authz.Plugin.{
  Plugin, LogRecord, insert, created_id, observe, log_decision, authz_req, decide, Event, asked,
  answered, handle, handle_all, value_or_null, blank_request,
}
use fire_crow.Authz.Plugin.Decide.{IsAuthorized, decide-allow_iff}

In-insert : (s t : Str) (set : List Str) → In s (insert t set) ↔ (In s set ⊎ (t ≡ s))
unfolding insert
In-insert s t set = elim (Bool-cases (one_of set t)) [
  | inl e ↦
      rw e
        (inl, λ h. elim h [ inl i ↦ i | inr f ↦ subst (λ x. In x set) f ((one_of_iff set t).0 e) ])
  | inr e ↦
      rw e (
        λ h. elim h [ inl f ↦ inr f | inr i ↦ inl i ],
        λ h. elim h [ inl i ↦ inr i | inr f ↦ inl f ],
      )
]

-- One id more at the head, if there is one.
abbrev with_id : Option Str → List Str → List Str
with_id none more = more
with_id (some id) more = id ∷ more

-- The set with one id more, if there is one.
abbrev inserted : Option Str → List Str → List Str
inserted none set = set
inserted (some id) set = insert id set

-- The ids that the responses among the events report.
abbrev pub reported : (Str → Option Value) → List Event → List Str
reported parse_json [] = []
reported parse_json (asked _ _ _ _ ∷ es) = reported parse_json es
reported parse_json (answered v ∷ es) =
    with_id (created_id parse_json (value_or_null v)) (reported parse_json es)

In-inserted :
    (s : Str) (o : Option Str) (set more : List Str) {P : Type 0}
    → (P ↔ (In s (inserted o set) ⊎ In s more))
    → P ↔ (In s set ⊎ In s (with_id o more))
In-inserted s none set more h = h
In-inserted s (some t) set more (to, from) =
    let (split, merge) = In-insert s t set in
    (
      λ p. elim (to p) [
        | inr m ↦ inr (inr m)
        | inl i ↦ elim (split i) [ inl old ↦ inl old | inr new ↦ inr (inl new) ]
      ],
      λ h. elim h [
        | inl old ↦ from (inl (merge (inl old)))
        | inr (inl new) ↦ from (inl (merge (inr new)))
        | inr (inr m) ↦ from (inr m)
      ],
    )

-- What an answer to a request rests on: the parsed request and the decision on it, or a denial of
-- a payload that does not parse.
abbrev RestsOn : (Str → Option Value) → Plugin → Option Value → AuthzRequest → Decision → Type 0
RestsOn parse_json plugin payload req d =
    ((parse_request (value_or_null payload) ≡ ok req) × (decide parse_json plugin req ≡ returns d))
    ⊎ ((reason : String) × (parse_request (value_or_null payload) ≡ err reason)
        × (req ≡ blank_request)
        × (d.allow ≡ false))

authz_req_cases :
    (parse_json : Str → Option Value) (plugin : Plugin) (payload : Option Value) (now elapsed : ℕ)
    (stored : Bool) (plugin' : Plugin) (d : Decision)
    → authz_req parse_json plugin payload now elapsed stored ≡ returns (plugin', d)
    → (req : AuthzRequest) × (plugin' ≡ log_decision plugin d req now elapsed stored)
      × RestsOn parse_json plugin payload req d
unfolding authz_req
authz_req_cases parse_json plugin payload now elapsed stored plugin' d h =
    elim (Parsed-cases (parse_request (value_or_null payload))) [
      | inr (reason, e) ↦ (blank_request, ground arith, inr (reason, e, refl, ground arith))
      | inl (req, e) ↦ elim (Run-cases (decide parse_json plugin req)) [
        | inl f ↦ absurd (ground arith)
        | inr (d', f) ↦
            let same : d' ≡ d = ground arith in (req, ground arith, inl (e, f ∙ ap returns same))
      ]
    ]

-- A request that is answered with an allowance was authorized, by the registry of that moment.
pub authz_req-allow :
    (parse_json : Str → Option Value) (plugin : Plugin) (payload : Option Value) (now elapsed : ℕ)
    (stored : Bool) (plugin' : Plugin) (d : Decision)
    → authz_req parse_json plugin payload now elapsed stored ≡ returns (plugin', d)
    → d.allow ≡ true
    → (req : AuthzRequest) × (parse_request (value_or_null payload) ≡ ok req)
      × IsAuthorized parse_json plugin req
authz_req-allow parse_json plugin payload now elapsed stored plugin' d h a =
    let (req, _, from) = authz_req_cases parse_json plugin payload now elapsed stored plugin' d h in
    elim from [
      | inl (e, f) ↦ (req, e, (decide-allow_iff parse_json plugin req).0 (d, f, a))
      | inr (reason, e, blank, denied) ↦ absurd (false≢true (sym denied ∙ a))
    ]

-- A line of the log has the method, the URI and the identity of a request.
abbrev pub IsOf : LogRecord → AuthzRequest → Type 0
IsOf line req =
    (line.method ≡ req.method)
    × (line.uri ≡ req.uri)
    × (line.user ≡ req.user)
    × (line.user_authn ≡ req.user_authn)

-- A line of the log tells of what was asked: the request that the payload parses to, with the
-- decision on it, or no request at all, with a denial, where the payload does not parse.
abbrev pub TellsOf : (Str → Option Value) → Plugin → Option Value → LogRecord → Type 0
TellsOf parse_json plugin payload line =
    ((req : AuthzRequest) × (parse_request (value_or_null payload) ≡ ok req)
      × (decide parse_json plugin req ≡ returns line.decision)
      × IsOf line req)
    ⊎ ((reason : String) × (parse_request (value_or_null payload) ≡ err reason)
        × (line.decision.allow ≡ false)
        × (line.method ≡ [])
        × (line.uri ≡ [])
        × (line.user ≡ none)
        × (line.user_authn ≡ none))

line_tells :
    (parse_json : Str → Option Value) (plugin : Plugin) (payload : Option Value)
    (req : AuthzRequest) (line : LogRecord)
    → RestsOn parse_json plugin payload req line.decision
    → IsOf line req
    → TellsOf parse_json plugin payload line
line_tells parse_json plugin payload req line (inl (e, f)) same = inl (req, e, f, same)
line_tells parse_json plugin payload req line (inr (reason, e, blank, f)) (m, u, n, a) = inr (
  reason,
  e,
  f,
  m ∙ ap (λ r. r.method) blank,
  u ∙ ap (λ r. r.uri) blank,
  n ∙ ap (λ r. r.user) blank,
  a ∙ ap (λ r. r.user_authn) blank,
)

-- Where the log takes its line, an answer to a request adds exactly one, and else none. The line
-- has the decision that is answered, with the method, the URI and the identity of the request that
-- was parsed, or, of a payload that does not parse, a denial and no method, URI or identity. The
-- allowlist and the registry stay as they are.
pub authz_req-logs :
    (parse_json : Str → Option Value) (plugin : Plugin) (payload : Option Value) (now elapsed : ℕ)
    (stored : Bool) (plugin' : Plugin) (d : Decision)
    → authz_req parse_json plugin payload now elapsed stored ≡ returns (plugin', d)
    → ((line : LogRecord) × (plugin'.log ≡ (if stored then line ∷ plugin.log else plugin.log))
        × (line.decision ≡ d)
        × TellsOf parse_json plugin payload line)
      × (plugin'.allowed_cns ≡ plugin.allowed_cns)
      × (plugin'.registry ≡ plugin.registry)
unfolding log_decision
authz_req-logs parse_json plugin payload now elapsed stored plugin' d h =
    let (req, e, from) = authz_req_cases parse_json plugin payload now elapsed stored plugin' d h in
    let line : LogRecord = record {
      ts = now;
      decision = d;
      method = req.method;
      uri = req.uri;
      user = req.user;
      user_authn = req.user_authn;
      duration_ms = elapsed;
    } in
    (
      (
        line,
        ap (λ p. p.log) e,
        refl,
        line_tells parse_json plugin payload req line from (refl, refl, refl, refl),
      ),
      ap (λ p. p.allowed_cns) e,
      ap (λ p. p.registry) e,
    )

module _ (parse_json : Str → Option Value) where
  registry-asked :
      (plugin : Plugin) (payload : Option Value) (now elapsed : ℕ) (stored : Bool)
      → (handle parse_json plugin (asked payload now elapsed stored)).registry ≡ plugin.registry
  unfolding handle
  registry-asked plugin payload now elapsed stored =
      elim (Run-cases (authz_req parse_json plugin payload now elapsed stored)) [
        | inl e ↦ rw (e, handle) refl
        | inr ((plugin', d), e) ↦
            rw (e, handle)
              ((authz_req-logs parse_json plugin payload now elapsed stored plugin' d e).2)
      ]

  registry-answered :
      (plugin : Plugin) (payload : Option Value)
      → (handle parse_json plugin (answered payload)).registry
        ≡ inserted (created_id parse_json (value_or_null payload)) plugin.registry
  unfolding handle observe
  registry-answered plugin payload = ground arith

-- Over any sequence of requests and responses, a container is in the registry exactly if it was
-- there before or a response of the sequence reported its id. Requests add nothing.
pub registry-handle_all :
    (parse_json : Str → Option Value) (plugin : Plugin) (es : List Event) (id : Str)
    → In id (handle_all parse_json plugin es).registry
      ↔ (In id plugin.registry ⊎ In id (reported parse_json es))
unfolding handle_all
registry-handle_all parse_json plugin [] id = (inl, λ h. elim h [ inl i ↦ i | inr i ↦ elim i [ ] ])
registry-handle_all parse_json plugin (asked payload now elapsed stored ∷ es) id =
    subst
      (λ r.
        In id
          (handle_all parse_json (handle parse_json plugin (asked payload now elapsed stored))
            es).registry
        ↔ (In id r ⊎ In id (reported parse_json es)))
      (registry-asked parse_json plugin payload now elapsed stored)
      (registry-handle_all parse_json (handle parse_json plugin (asked payload now elapsed stored))
        es id)
registry-handle_all parse_json plugin (answered payload ∷ es) id =
    let next = handle parse_json plugin (answered payload) in
    In-inserted id (created_id parse_json (value_or_null payload)) plugin.registry
      (reported parse_json es)
      (subst
        (λ r.
          In id (handle_all parse_json next es).registry
          ↔ (In id r ⊎ In id (reported parse_json es)))
        (registry-answered parse_json plugin payload) (registry-handle_all parse_json next es id))
