-- ===== src/Lib.antt =====
-- FireCrow runs third-party scanners on untrusted repositories. This library models the parts of
-- it that stand between a scan and the machine that runs it.
--
-- The Docker authorization plugin, docker-authz-plugin/src/lib.rs and src/main.rs, under Authz. The
-- daemon asks it before each API call and tells it of each response. `parse_request` reads the
-- question (Authz/Request, with `b64_decode` in Authz/Base64), `decide` checks the identity and
-- sends the call by its method and normalized path (`normalize_path`, Authz/Path) to a policy: the
-- creation of a container (`create_policy`, Authz/Create, whose checks stand in the children in the
-- order of the source, with binds resting on `host_source_denied`, Authz/Host), the pull of an
-- image (`pull_policy`, Authz/Pull), and the calls on a container, by its name (`is_scanner_name`,
-- Authz/Query) or by the registry that `observe` fills from responses (Authz/Plugin). A Plugin is
-- the allowlist, the registry as a list without repetitions, and the log; an Event is one call of
-- `dispatch`, and `handle` is its effect, so that a sequence of events is a run of the daemon.
--
-- The contract of the scan pipeline, backend/src/schemas/scan_contract.rs, under Contract: the
-- lifecycle of a scan (`PipelineState`, Contract/State, with its runs as the type Leads of
-- Contract/State/Lifecycle), the documents that its stages hand on (Contract/Types), repository
-- URLs and snapshots (Contract/Target), findings from raw output to canonical form and without
-- duplicates (Contract/Findings), and the checks on a scan result (Contract/Result) and on a report
-- (Contract/Report). The statuses `Ok` and `Failed` of a scanner are named succeeded and errored.
--
-- The egress policy of the dependency scanner, backend/src/services/egress_policy.rs, under Egress:
-- the judgement of addresses and their alternative spellings (`evaluate_ip`, `parse_alt_ipv4`,
-- Egress/Address), and of targets and of the proxy's URL (`evaluate_egress_target`,
-- `validate_osv_proxy_url`, `resolve_osv_egress_proxy`, Egress/Target). Parameters stand for
-- `str::to_lowercase`, for the parser of `IpAddr` and for `url::Url::parse`, whose answer is the
-- record Url; nothing is assumed of them. The proxy that holds to this policy,
-- backend/src/bin/egress_proxy.rs, is Egress/Proxy: what `handle_accept` and `serve_connection` do
-- for a connection is a list of Effects (a query to the resolver, an attempt to connect, an answer,
-- a tunnel), and the lines that arrive in time, the resolver and the reachability of addresses are
-- arguments.
--
-- The canonical audit, under Audit: what the backend makes of the results of its scanners.
-- backend/src/schemas/canonical_audit.rs holds its types (Audit/Schema, with `Finding` and
-- `Severity` of backend/src/schemas/audit_state.rs and backend/src/models/user.rs), the reading of
-- a finding's metadata (Audit/Metadata) and `validate_repo_path` (Audit/Path). Of
-- backend/src/orchestrator/canonical_audit.rs, the runs of the scanners and their coverage stand in
-- Audit/Runs (on the results of backend/src/agents/scanner.rs, Audit/Scanner), the location and
-- provenance of a finding in Audit/Location, the checks of texts, evidence and references in
-- Audit/Evidence, `normalize_finding` and the identities in Audit/Identity, the merging of
-- duplicates and the numbering of refused findings in Audit/Normalize, their second copy for the
-- rows to persist (`normalize_findings_for_persist`) in Audit/Persist, and `canonical_audit` in
-- Audit/Canonical. `build_report` of backend/src/schemas/report.rs is in Audit/Report, and the
-- validation of a narrative, backend/src/schemas/ai_narrative.rs, in Audit/Narrative, whose checks
-- return a Ruling: accepted, refused with the first violation, or panicked. The record Services
-- holds what other crates do (serde_json, sha2 with hex, regex), the record Casing Unicode's
-- letters; nothing is assumed of them. A score is the bits of its `f64`.
--
-- The sandbox, backend/src/services/sandbox.rs, under Sandbox: the specification of a container and
-- its validation (`validate_spec`, Sandbox/Spec), the arguments of `docker run` (`docker_argv`,
-- `assert_hardened_argv`, Sandbox/Argv), and the policy of executions (`enforce_execution_policy`,
-- Sandbox/Policy), which is laid beside that of the authorization plugin. The printing of a float is
-- an argument, and the messages of errors are left out.
--
-- Order has the order of texts, the stable sort of slices, and `BTreeMap` and `BTreeSet` by text,
-- as lists by ascending key.
--
-- Text is Rust's `str`: a text is the list of its UTF-8 bytes (Text), with the methods of `str`
-- that the code calls. Json is the type of `serde_json::Value`; its parser is third-party code and
-- a parameter `parse_json` of what calls it, and nothing is assumed of it. Prelude passes on the
-- library's names and holds the type Run of a computation that returns or panics.
--
-- All loops are structural recursion, but for two that run on fuel: the reading of UTF-8, with the
-- length of the text and one, where each round takes a byte at least (Text/Utf8), and the printing
-- of a number, with the number and one, where each round takes a digit off (Text/Decimal).
--
-- Not modelled: sockets, HTTP framing and threads of the plugin, which serve each connection and
-- hold no other state; the file of the log, whose lock and writes are a flag of the event that says
-- whether the line is stored; the readings of the clocks, which are arguments. Of the contract, the
-- encodings of serde and the types Scanner, Rule and Report, which no function of the file reads.
-- Of the backend, the handlers of HTTP requests, the database, the running of the containers and
-- everything else that is named above by no file.
pub mod Audit
pub mod Authz
pub mod Contract
pub mod Egress
pub mod Json
pub mod Order
pub mod Prelude
pub mod Sandbox
pub mod Text
