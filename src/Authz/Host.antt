-- ===== src/Authz/Host.antt =====
-- Host paths behind binds: `canonical_host_path` and `host_source_denied` of
-- docker-authz-plugin/src/lib.rs.
pub mod Laws
pub mod Denied
use mathlib.Core.List.{tail}
use fire_crow.Prelude.{Bool, true, not, ◌||◌, List, [], ◌∷◌, reverse, if◌then◌else◌, is_empty, any}
use fire_crow.Text.{Str, str, str_eq, one_of, starts_with, split, join, trim_end_matches}

-- One round of the loop over the components; the last part stands at the head.
unfoldable pub resolve : List Str → Str → List Str
resolve parts component =
    if is_empty component || str_eq component (str ".")
    then parts
    else if str_eq component (str "..")
    then tail parts
    else component ∷ parts

unfoldable pub resolve_all : List Str → List Str → List Str
resolve_all parts [] = parts
resolve_all parts (c ∷ cs) = resolve_all (resolve parts c) cs

unfoldable pub canonical_host_path : Str → Str
canonical_host_path host_path = b'/' ∷ join b'/' (reverse (resolve_all [] (split b'/' host_path)))

abbrev pub denied_host_exact : List Str
denied_host_exact = str "/" ∷ str "/var/run/docker.sock" ∷ str "/run/docker.sock" ∷ []

abbrev pub denied_host_prefixes : List Str
denied_host_prefixes =
    str "/proc/"
    ∷ str "/sys/"
    ∷ str "/dev/"
    ∷ str "/etc/"
    ∷ str "/root/"
    ∷ str "/var/run/"
    ∷ str "/run/"
    ∷ str "/var/lib/docker/"
    ∷ str "/boot/"
    ∷ str "/home/"
    ∷ []

unfoldable pub under_prefix : Str → Str → Bool
under_prefix cleaned prefix =
    str_eq cleaned (trim_end_matches b'/' prefix) || starts_with cleaned prefix

unfoldable pub host_source_denied : Str → Bool
host_source_denied host_path =
    if not (starts_with host_path (str "/"))
    then true
    else let cleaned = canonical_host_path host_path in
      if one_of denied_host_exact cleaned
      then true
      else any (under_prefix cleaned) denied_host_prefixes
