-- ===== src/Authz/Pull.antt =====
-- `Plugin::pull_policy` of docker-authz-plugin/src/lib.rs: which images may be pulled.
pub mod Laws
use fire_crow.Prelude.{String, not, none, some, List, [], ◌∷◌, ◌++◌, if◌then◌else◌, is_empty}
use fire_crow.Text.{Str, str, str_eq, one_of, has_byte, split, split_once, rsplit_once}
use fire_crow.Authz.Query.{percent_decode}
use fire_crow.Authz.Request.{Decision, AuthzRequest, allow, deny}

abbrev pub approved_images : List Str
approved_images =
    str "ghcr.io/gitleaks/gitleaks:v8.18.4"
    ∷ str "ghcr.io/google/osv-scanner:v2.2.4"
    ∷ str "semgrep/semgrep:1.96.0"
    ∷ []

-- The values of one key, in order, as the loop over the pairs collects them.
unfoldable pub values_of : Str → List Str → List Str
values_of key [] = []
values_of key (pair ∷ pairs) =
    let rest = values_of key pairs in
    elim (split_once b'=' pair) [
      | none ↦ rest
      | some (k, v) ↦ if str_eq k key then percent_decode v ∷ rest else rest
    ]

abbrev pub query_of : Str → Str
query_of uri = elim (split_once b'?' uri) [ none ↦ [] | some (_, q) ↦ q ]

-- The reference that `fromImage` and the tags make together, or the message of the refusal.
pub data Candidate : Type 0 where
  refused : String → Candidate
  reference : Str → Candidate

unfoldable pub recombine : Str → Str → Candidate
recombine from tag =
    if has_byte b'@' from
    then refused "digest image ref must not carry a tag parameter"
    else elim (rsplit_once b':' from) [
      | none ↦ reference (from ++ b':' ∷ tag)
      | some (_, embedded) ↦
          if not (str_eq embedded tag)
          then refused "image fromImage/tag conflict is denied"
          else reference from
    ]

unfoldable pub candidate : Str → List Str → Candidate
candidate from [] = reference from
candidate from (tag ∷ []) =
    if is_empty tag
    then refused "image tag must be a single non-empty value"
    else recombine from tag
candidate from (tag ∷ _ ∷ _) = refused "image tag must be a single non-empty value"

unfoldable pub decide_candidate : Candidate → Decision
decide_candidate (refused why) = deny "pull-image" (str why) none
decide_candidate (reference image) =
    if one_of approved_images image
    then allow "pull-allowed" none
    else deny "pull-image" (str "image ref '" ++ image ++ str "' is not approved") none

unfoldable pub pull_from : List Str → List Str → Decision
pull_from (from ∷ []) tags =
    if is_empty from
    then deny "pull-image" (str "image ref is missing") none
    else decide_candidate (candidate from tags)
pull_from _ tags = deny "pull-image" (str "image ref must carry exactly one fromImage") none

unfoldable pub pull_policy : AuthzRequest → Decision
pull_policy req =
    let pairs = split b'&' (query_of req.uri) in
    pull_from (values_of (str "fromImage") pairs) (values_of (str "tag") pairs)
