-- ===== src/Authz/Plugin/Decide.antt =====
-- About `decide` and `target_policy` of docker-authz-plugin/src/lib.rs.
use mathlib.Core.Path.{subst}
use fire_crow.Prelude.{
  ◌≡◌, ◌≢◌, ◌↔◌, ◌⊎◌, inl, inr, true, false, ◌||◌, ◌&&◌, Option, some, List, [], arith,
  Option-cases, Bool-cases, Run-cases, returns,
}
use fire_crow.Text.{Str, str, str_eq, one_of}
use fire_crow.Text.Equality.{In, one_of_iff, str_eq_iff}
use fire_crow.Json.{Value}
use fire_crow.Authz.Path.{normalize_path, container_target, is_lifecycle_op, is_container_delete}
use fire_crow.Authz.Path.Targets.{
  Addresses, is_container_delete_iff, container_target_of_Addresses, target_unique,
}
use fire_crow.Authz.Query.{is_scanner_name}
use fire_crow.Authz.Request.{Decision, AuthzRequest}
use fire_crow.Authz.Pull.Laws.{IsPullable, pull_policy-allow_iff}
use fire_crow.Authz.Create.Policy.{IsCreatable, create_policy-allow_iff}
use fire_crow.Authz.Plugin.Words.{post_lem, delete_lem, lifecycle_away, images_path_lem}
use fire_crow.Authz.Plugin.{Plugin, target_policy, identity_of, route, decide}

-- A container of this channel: one that it created, or one with a scanner's name.
abbrev pub Owned : List Str → Str → Type 0
Owned registry target = In target registry ⊎ (is_scanner_name target ≡ true)

target_policy-allow_iff :
    (registry : List Str) (target : Str)
    → ((target_policy registry target).allow ≡ true) ↔ Owned registry target
unfolding target_policy
target_policy-allow_iff registry target = (
  λ h. elim (Bool-cases (one_of registry target)) [
    | inl e ↦ inl ((one_of_iff registry target).0 e)
    | inr e ↦ inr (ground arith)
  ],
  λ o. elim o [ inl i ↦ rw ((one_of_iff registry target).1 i) | inr e ↦ ground arith ],
)

-- The operations of the frozen matrix.
pub data Permitted (parse_json : Str → Option Value) (registry : List Str) (req : AuthzRequest)
    (path : Str) : Type 0 where
  ping :
      (req.method ≡ str "HEAD") ⊎ (req.method ≡ str "GET")
      → path ≡ str "/_ping"
      → Permitted parse_json registry req path
  version : req.method ≡ str "GET" → path ≡ str "/version" → Permitted parse_json registry req path
  create :
      req.method ≡ str "POST"
      → path ≡ str "/containers/create"
      → IsCreatable parse_json req
      → Permitted parse_json registry req path
  pull :
      req.method ≡ str "POST"
      → path ≡ str "/images/create"
      → IsPullable req
      → Permitted parse_json registry req path
  drive :
      (target : Str)
      → req.method ≡ str "POST"
      → is_lifecycle_op path ≡ true
      → container_target path ≡ some target
      → Owned registry target
      → Permitted parse_json registry req path
  remove :
      (target : Str)
      → req.method ≡ str "DELETE"
      → Addresses path target
      → Owned registry target
      → Permitted parse_json registry req path

module _ (parse_json : Str → Option Value) (registry : List Str) (req : AuthzRequest)
    (path : Str) where
  -- The branches of `route` for a container, once the others are past.
  abbrev Elsewhere : Type 0
  Elsewhere =
      (((str_eq req.method (str "HEAD") || str_eq req.method (str "GET"))
          && str_eq path (str "/_ping"))
        ≡ false)
      × ((str_eq req.method (str "GET") && str_eq path (str "/version")) ≡ false)
      × ((str_eq req.method (str "POST") && str_eq path (str "/containers/create")) ≡ false)
      × ((str_eq req.method (str "POST") && str_eq path (str "/images/create")) ≡ false)

  route_driven :
      (target : Str)
      → Elsewhere
      → container_target path ≡ some target
      → (route parse_json registry req path (container_target path)).allow ≡ true
      → Permitted parse_json registry req path
  unfolding route
  route_driven t (a, b, c, d) e h =
      elim (Bool-cases (str_eq req.method (str "POST") && is_lifecycle_op path)) [
        | inl f ↦
            drive t (ground (arith, str_eq_iff req.method (str "POST"))) (ground arith) e
              ((target_policy-allow_iff registry t).0 (ground arith))
        | inr f ↦
            let deleted : is_container_delete path ≡ true = ground arith in
            let (t', there) = (is_container_delete_iff path).0 deleted in
            let same = target_unique path t t' e there in
            remove t' (ground (arith, str_eq_iff req.method (str "DELETE"))) there
              (subst (Owned registry) same ((target_policy-allow_iff registry t).0 (ground arith)))
      ]

  route_elsewhere :
      Elsewhere
      → (route parse_json registry req path (container_target path)).allow ≡ true
      → Permitted parse_json registry req path
  route_elsewhere away h = elim (Option-cases (container_target path)) [
    | inl e ↦ absurd (unfold route in ground arith)
    | inr (t, e) ↦ route_driven t away e h
  ]

  route_sound :
      (route parse_json registry req path (container_target path)).allow ≡ true
      → Permitted parse_json registry req path
  unfolding route
  route_sound h =
      let m = req.method in
      elim (Bool-cases
        ((str_eq m (str "HEAD") || str_eq m (str "GET")) && str_eq path (str "/_ping"))) [
          | inl a ↦
              ping (ground (arith, str_eq_iff m (str "HEAD"), str_eq_iff m (str "GET")))
                (ground (arith, str_eq_iff path (str "/_ping")))
          | inr a ↦ elim (Bool-cases (str_eq m (str "GET") && str_eq path (str "/version"))) [
            | inl b ↦
                version (ground (arith, str_eq_iff m (str "GET")))
                  (ground (arith, str_eq_iff path (str "/version")))
            | inr b ↦
                elim (Bool-cases
                  (str_eq m (str "POST") && str_eq path (str "/containers/create"))) [
                    | inl c ↦
                        create (ground (arith, str_eq_iff m (str "POST")))
                          (ground (arith, str_eq_iff path (str "/containers/create")))
                          ((create_policy-allow_iff parse_json req).0 (ground arith))
                    | inr c ↦
                        elim (Bool-cases
                          (str_eq m (str "POST") && str_eq path (str "/images/create"))) [
                            | inl d ↦
                                pull (ground (arith, str_eq_iff m (str "POST")))
                                  (ground (arith, str_eq_iff path (str "/images/create")))
                                  ((pull_policy-allow_iff req).0 (ground arith))
                            | inr d ↦ route_elsewhere (a, b, c, d) h
                          ]
                  ]
          ]
        ]

  route_complete :
      Permitted parse_json registry req path
      → (route parse_json registry req path (container_target path)).allow ≡ true
  unfolding route
  route_complete (ping (inl m) p) = ground (arith, (str_eq_iff _ _).1 m, (str_eq_iff _ _).1 p)
  route_complete (ping (inr m) p) = ground (arith, (str_eq_iff _ _).1 m, (str_eq_iff _ _).1 p)
  route_complete (version m p) = ground (arith, (str_eq_iff _ _).1 m, (str_eq_iff _ _).1 p)
  route_complete (create m p c) =
      let allowed = (create_policy-allow_iff parse_json req).1 c in
      ground (arith, post_lem _ m, (str_eq_iff _ _).1 p, allowed)
  route_complete (pull m p c) =
      let allowed = (pull_policy-allow_iff req).1 c in
      ground (arith, post_lem _ m, images_path_lem _ p, allowed)
  route_complete (drive t m l e o) =
      let allowed = (target_policy-allow_iff registry t).1 o in
      ground (arith, post_lem _ m, lifecycle_away path l, l, e, allowed)
  route_complete (remove t m a o) =
      let allowed = (target_policy-allow_iff registry t).1 o in
      let deleted = (is_container_delete_iff path).1 (t, a) in
      let addressed = container_target_of_Addresses path t a in
      ground (arith, delete_lem _ m, deleted, addressed, allowed)

-- An allowed identity, and a path that `normalize_path` returns at which the operation is
-- permitted.
pub record IsAuthorized (parse_json : Str → Option Value) (plugin : Plugin) (req : AuthzRequest)
    : Type 0 where
  pub identity : Str
  pub tls : req.user_authn ≡ some (str "TLS")
  pub verified : req.user ≡ some identity
  pub named : identity ≢ []
  pub known : In identity plugin.allowed_cns
  pub path : Str
  pub normal : normalize_path req.uri ≡ returns path
  pub permitted : Permitted parse_json plugin.registry req path

-- The identity is the common name that came with the TLS method, if it is not empty.
identity_of_iff :
    (req : AuthzRequest) (cn : Str)
    → (identity_of req ≡ some cn)
      ↔ ((req.user_authn ≡ some (str "TLS")) × (req.user ≡ some cn) × (cn ≢ []))
identity_of_iff req cn = elim (Option-cases req.user_authn) [
  | inl e ↦ ground arith
  | inr (authn, e) ↦ ground (arith, str_eq_iff authn (str "TLS"))
]

module _ (parse_json : Str → Option Value) (plugin : Plugin) (req : AuthzRequest) where
  decide_sound :
      (d : Decision)
      → decide parse_json plugin req ≡ returns d
      → d.allow ≡ true
      → IsAuthorized parse_json plugin req
  unfolding decide
  decide_sound d e a = elim (Option-cases (identity_of req)) [
    | inl f ↦ absurd (ground arith)
    | inr (cn, f) ↦ elim (Bool-cases (one_of plugin.allowed_cns cn)) [
      | inr g ↦ absurd (ground arith)
      | inl g ↦ elim (Run-cases (normalize_path req.uri)) [
        | inl k ↦ absurd (ground arith)
        | inr (path, k) ↦
            let (tls, verified, named) = (identity_of_iff req cn).0 f in
            record {
              identity = cn;
              tls = tls;
              verified = verified;
              named = named;
              known = (one_of_iff plugin.allowed_cns cn).0 g;
              path = path;
              normal = k;
              permitted = route_sound parse_json plugin.registry req path (ground arith);
            }
      ]
    ]
  ]

  decide_complete :
      (a : IsAuthorized parse_json plugin req)
      → decide parse_json plugin req
        ≡ returns (route parse_json plugin.registry req a.path (container_target a.path))
  unfolding decide
  decide_complete a =
      let who = (identity_of_iff req a.identity).1 (a.tls, a.verified, a.named) in
      ground (arith, who, a.normal, (one_of_iff plugin.allowed_cns a.identity).1 a.known)

-- The plugin decides to allow a request exactly if it is authorized: the request carries a
-- common name that TLS verified and that is on the allowlist, and the operation, at the normal
-- form of its path, is a ping, a version query, the creation of a confined container, the pull
-- of an approved image, or a lifecycle operation or removal of a container that this channel
-- created or that has a scanner's name.
pub decide-allow_iff :
    (parse_json : Str → Option Value) (plugin : Plugin) (req : AuthzRequest)
    → ((d : Decision) × (decide parse_json plugin req ≡ returns d) × (d.allow ≡ true))
      ↔ IsAuthorized parse_json plugin req
decide-allow_iff parse_json plugin req = (
  λ (d, e, a). decide_sound parse_json plugin req d e a,
  λ a. (
    route parse_json plugin.registry req a.path (container_target a.path),
    decide_complete parse_json plugin req a,
    route_complete parse_json plugin.registry req a.path a.permitted,
  ),
)
