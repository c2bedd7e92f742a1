-- ===== src/Egress/Proxy/Laws.antt =====
-- What the proxy does for a connection, against the policy.
use mathlib.Core.Path.{subst}
use fire_crow.Prelude.{
  ℕ, ◌+◌, ◌≡◌, ◌≤◌, refl, ap, ◌⊎◌, inl, inr, Bool, true, Option, none, some, List, [], ◌∷◌, String,
  All, All-weaken, Bool-cases, Option-cases, arith,
}
use fire_crow.Prelude.Fallible.{ok, result_cases}
use fire_crow.Text.{Str}
use fire_crow.Egress.Address.{EgressDecision, allowed, blocked, IpAddr, evaluate_ip}
use fire_crow.Egress.Target.{evaluate_egress_target}
use fire_crow.Egress.Proxy.{
  parse_connect_line, first_blocked, check_candidates, Effect, query, dial, answer, tunnel,
  read_head, check_target, connect_pinned, serve_target, serve_connection, handle_accept,
}

abbrev pub IsAllowed : IpAddr → Type 0
IsAllowed ip = evaluate_ip ip ≡ allowed

decision_cases : (d : EgressDecision) → (d ≡ allowed) ⊎ ((reason : String) × (d ≡ blocked reason))
decision_cases allowed = inl refl
decision_cases (blocked reason) = inr (reason, refl)

-- Membership in a list of addresses.
abbrev pub Among : IpAddr → List IpAddr → Type 0
Among ip [] = ⊥
Among ip (i ∷ is) = (i ≡ ip) ⊎ Among ip is

Among-all : (ips : List IpAddr) → All (λ ip. Among ip ips) ips
Among-all [] = tt
Among-all (ip ∷ ips) = (inl refl, All-weaken (λ x h. inr h) ips (Among-all ips))

first_blocked-none : (ips : List IpAddr) → first_blocked ips ≡ none → All IsAllowed ips
unfolding first_blocked
first_blocked-none [] h = tt
first_blocked-none (ip ∷ ips) h = elim (decision_cases (evaluate_ip ip)) [
  | inl e ↦ (e, first_blocked-none ips (ground (arith, e, h)))
  | inr (reason, e) ↦ absurd (ground (arith, e, h))
]

-- The candidates that pass are those of the resolver, and every one of them is allowed.
check_candidates-IsAllowed :
    (resolved : Option (List IpAddr)) (ips : List IpAddr)
    → check_candidates resolved ≡ ok ips
    → (resolved ≡ some ips) × All IsAllowed ips
unfolding check_candidates
check_candidates-IsAllowed none ips h = absurd (ground (arith, h))
check_candidates-IsAllowed (some []) ips h = absurd (ground (arith, h))
check_candidates-IsAllowed (some (i ∷ is)) ips h = elim (Option-cases (first_blocked (i ∷ is))) [
  | inl e ↦
      let same = passed e in
      (ap some same, subst (All IsAllowed) same (first_blocked-none (i ∷ is) e))
  | inr (reason, e) ↦ absurd (ground (arith, e, h))
]
  where
    passed : first_blocked (i ∷ is) ≡ none → i ∷ is ≡ ips
    passed e = ground (arith, e, h)

module _ (lowercase : Str → Str) (parse_ip : Str → Option IpAddr)
    (resolve : Str → Option (List IpAddr)) (connects : IpAddr → ℕ → Bool) where
  -- The address is one that the resolver answered for a host, and the policy allows the host at this
  -- port and every address of that answer.
  abbrev pub IsPinned : Str → IpAddr → Type 0
  IsPinned host ip =
      (ips : List IpAddr) × (resolve host ≡ some ips) × All IsAllowed ips × Among ip ips

  -- What the effects of a request for a host and a port may be: the resolver is asked for this host
  -- only, and only if the policy allows it, and no address is dialled but at this port and pinned.
  abbrev pub IsAuthorized : Str → ℕ → Effect → Type 0
  IsAuthorized host port (query name) =
      (name ≡ host) × (evaluate_egress_target lowercase parse_ip host port ≡ allowed)
  IsAuthorized host port (dial ip number) =
      (number ≡ port)
      × (evaluate_egress_target lowercase parse_ip host port ≡ allowed)
      × IsPinned host ip
  IsAuthorized host port (tunnel ip) =
      (connects ip port ≡ true)
      × (evaluate_egress_target lowercase parse_ip host port ≡ allowed)
      × IsPinned host ip
  IsAuthorized host port (answer status) = Unit

  module _ (host : Str) (port : ℕ)
      (allowed_target : evaluate_egress_target lowercase parse_ip host port ≡ allowed)
      (all_ips : List IpAddr) (resolved : resolve host ≡ some all_ips)
      (safe : All IsAllowed all_ips) where
    connect_pinned-IsAuthorized :
        (ips : List IpAddr)
        → All (λ ip. Among ip all_ips) ips
        → All (IsAuthorized host port) (connect_pinned connects port ips)
    unfolding connect_pinned
    connect_pinned-IsAuthorized [] h = (tt, tt)
    connect_pinned-IsAuthorized (ip ∷ ips) (a, h) =
        let pinned : IsPinned host ip = (all_ips, resolved, safe, a) in
        elim (Bool-cases (connects ip port)) [
          | inl e ↦ rw e ((refl, allowed_target, pinned), (tt, ((e, allowed_target, pinned), tt)))
          | inr e ↦ rw e ((refl, allowed_target, pinned), connect_pinned-IsAuthorized ips h)
        ]

  -- The section's effects, named once.
  abbrev serve : Str → ℕ → List Effect
  serve host port = serve_target lowercase parse_ip resolve connects host port

  serve_target-IsAuthorized :
      (host : Str) (port : ℕ) → All (IsAuthorized host port) (serve host port)
  unfolding serve_target check_target
  serve_target-IsAuthorized host port =
      elim (decision_cases (evaluate_egress_target lowercase parse_ip host port)) [
        | inr (reason, e) ↦ rw (serve_target, check_target, e) (tt, tt)
        | inl e ↦ elim (result_cases (check_candidates (resolve host))) [
          | inr (reason, f) ↦ rw (serve_target, check_target, e, f) ((refl, e), (tt, tt))
          | inl (ips, f) ↦
              let (r, safe) = check_candidates-IsAllowed (resolve host) ips f in
              rw (serve_target, check_target, e, f)
                ((refl, e), connect_pinned-IsAuthorized host port e ips r safe ips (Among-all ips))
        ]
      ]

  -- A connection is refused as malformed without any other effect, or its head asks for a host and a
  -- port, and all that is done for it is authorized for these.
  pub serve_connection-IsAuthorized :
      (lines : List Str)
      → let effects = serve_connection lowercase parse_ip resolve connects lines in
        (effects ≡ answer "HTTP/1.1 400 Bad Request" ∷ [])
        ⊎ ((line : Str) × (host : Str) × (port : ℕ) × (read_head 0 none lines ≡ some line)
            × (parse_connect_line line ≡ ok (host, port))
            × All (IsAuthorized host port) effects)
  unfolding serve_connection
  serve_connection-IsAuthorized lines = elim (Option-cases (read_head 0 none lines)) [
    | inl e ↦ inl (rw (serve_connection, e) refl)
    | inr (line, e) ↦ elim (result_cases (parse_connect_line line)) [
      | inr (reason, f) ↦ inl (rw (serve_connection, e, f) refl)
      | inl ((host, port), f) ↦ inr (
        line,
        host,
        port,
        e,
        f,
        rw (serve_connection, e, f) (serve_target-IsAuthorized host port),
      )
    ]
  ]

-- How often a list of effects answers the client, and asks the resolver.
abbrev pub answers : List Effect → ℕ
answers [] = 0
answers (answer status ∷ es) = 1 + answers es
answers (_ ∷ es) = answers es

abbrev pub queries : List Effect → ℕ
queries [] = 0
queries (query host ∷ es) = 1 + queries es
queries (_ ∷ es) = queries es

-- One answer, and one query at most.
abbrev pub IsAnswered : List Effect → Type 0
IsAnswered es = (answers es ≡ 1) × (queries es ≤ 1)

connect_pinned-answers :
    (connects : IpAddr → ℕ → Bool) (port : ℕ) (ips : List IpAddr)
    → (answers (connect_pinned connects port ips) ≡ 1)
      × (queries (connect_pinned connects port ips) ≡ 0)
unfolding connect_pinned
connect_pinned-answers connects port [] = (refl, refl)
connect_pinned-answers connects port (ip ∷ ips) = elim (Bool-cases (connects ip port)) [
  | inl e ↦ rw e (refl, refl)
  | inr e ↦ rw e (connect_pinned-answers connects port ips)
]

module _ (lowercase : Str → Str) (parse_ip : Str → Option IpAddr)
    (resolve : Str → Option (List IpAddr)) (connects : IpAddr → ℕ → Bool) where
  serve_target-IsAnswered :
      (host : Str) (port : ℕ) → IsAnswered (serve lowercase parse_ip resolve connects host port)
  unfolding serve_target check_target
  serve_target-IsAnswered host port =
      elim (decision_cases (evaluate_egress_target lowercase parse_ip host port)) [
        | inr (reason, e) ↦ rw (serve_target, check_target, e) (refl, omega arith)
        | inl e ↦ elim (result_cases (check_candidates (resolve host))) [
          | inr (reason, f) ↦ rw (serve_target, check_target, e, f) (refl, omega arith)
          | inl (ips, f) ↦
              let (one, quiet) = connect_pinned-answers connects port ips in
              rw (serve_target, check_target, e, f) (one, omega (arith, quiet))
        ]
      ]

  -- Every connection is answered, once, whatever is sent, resolved and reached, and the resolver is
  -- asked once at most.
  pub handle_accept-IsAnswered :
      (permits : ℕ) (lines : List Str)
      → IsAnswered (handle_accept lowercase parse_ip resolve connects permits lines)
  unfolding handle_accept serve_connection
  handle_accept-IsAnswered ℕ.zero lines = (refl, omega arith)
  handle_accept-IsAnswered (ℕ.suc permits) lines = elim (Option-cases (read_head 0 none lines)) [
    | inl e ↦ rw (handle_accept, serve_connection, e) (refl, omega arith)
    | inr (line, e) ↦ elim (result_cases (parse_connect_line line)) [
      | inr (reason, f) ↦ rw (handle_accept, serve_connection, e, f) (refl, omega arith)
      | inl ((host, port), f) ↦
          rw (handle_accept, serve_connection, e, f) (serve_target-IsAnswered host port)
    ]
  ]
