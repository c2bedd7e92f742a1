-- ===== src/Authz/Host/Laws.antt =====
-- About `canonical_host_path` of docker-authz-plugin/src/lib.rs.
use mathlib.Core.List.{reverse-cons, append_assoc, append-nil, reverse-reverse}
use fire_crow.Prelude.{◌≡◌, ◌≢◌, refl, ap, ◌∙◌, List, [], ◌∷◌, ◌++◌, reverse, arith, All}
use fire_crow.Text.{Str, str, str_eq, split, split_pieces, join}
use fire_crow.Text.Equality.{str_eq_iff}
use fire_crow.Text.Split.{Without, split-Without}
use fire_crow.Text.Join.{split-join, split-append}
use fire_crow.Authz.Host.{resolve, resolve_all, canonical_host_path}

-- A component that names an entry of a directory.
abbrev pub IsEntry : Str → Type 0
IsEntry part = (part ≢ []) × (part ≢ str ".") × (part ≢ str "..") × Without b'/' part

resolve-IsEntry :
    (parts : List Str) (c : Str)
    → All IsEntry parts
    → Without b'/' c
    → All IsEntry (resolve parts c)
unfolding resolve
resolve-IsEntry [] c h w = ground (arith, str_eq_iff c (str "."), str_eq_iff c (str ".."))
resolve-IsEntry (p ∷ ps) c h w = ground (arith, str_eq_iff c (str "."), str_eq_iff c (str ".."))

resolve_all-IsEntry :
    (parts cs : List Str)
    → All IsEntry parts
    → All (Without b'/') cs
    → All IsEntry (resolve_all parts cs)
unfolding resolve_all
resolve_all-IsEntry parts [] h w = h
resolve_all-IsEntry parts (c ∷ cs) h (w, ws) =
    resolve_all-IsEntry (resolve parts c) cs (resolve-IsEntry parts c h w) ws

module _ (Q : Str → Type 0) where
  All-snoc : (ps : List Str) (p : Str) → All Q ps → Q p → All Q (ps ++ p ∷ [])
  All-snoc [] p h q = (q, tt)
  All-snoc (r ∷ ps) p (a, h) q = (a, All-snoc ps p h q)

  All-reverse : (ps : List Str) → All Q ps → All Q (reverse ps)
  All-reverse [] h = tt
  All-reverse (p ∷ ps) (a, h) = rw reverse-cons (All-snoc (reverse ps) p (All-reverse ps h) a)

-- The components of the canonical form, from the root on.
abbrev pub components : Str → List Str
components host_path = reverse (resolve_all [] (split b'/' host_path))

pub components-IsEntry : (host_path : Str) → All IsEntry (components host_path)
components-IsEntry host_path =
    All-reverse IsEntry _ (resolve_all-IsEntry [] _ tt (split-Without b'/' host_path))

resolve_of_IsEntry : (parts : List Str) (c : Str) → IsEntry c → resolve parts c ≡ c ∷ parts
unfolding resolve
resolve_of_IsEntry parts c h = ground (arith, h, str_eq_iff c (str "."), str_eq_iff c (str ".."))

resolve_all_of_IsEntry :
    (parts cs : List Str) → All IsEntry cs → resolve_all parts cs ≡ reverse cs ++ parts
unfolding resolve_all
resolve_all_of_IsEntry parts [] h = refl
resolve_all_of_IsEntry parts (c ∷ cs) (e, h) =
    ap (λ x. resolve_all x cs) (resolve_of_IsEntry parts c e)
    ∙ resolve_all_of_IsEntry (c ∷ parts) cs h
    ∙ (simp (reverse-cons, append_assoc))

pub WithoutSlash_of_IsEntry : (ps : List Str) → All IsEntry ps → All (Without b'/') ps
WithoutSlash_of_IsEntry [] h = tt
WithoutSlash_of_IsEntry (p ∷ ps) (e, h) = (e.3, WithoutSlash_of_IsEntry ps h)

pub components_of_entries : (ps : List Str) → All IsEntry ps → components (b'/' ∷ join b'/' ps) ≡ ps
components_of_entries [] h = unfold join split split_pieces resolve_all resolve str_eq in refl
components_of_entries (p ∷ ps) h =
    let before_it : split b'/' [] ≡ [] ∷ [] = unfold split split_pieces in refl in
    let pieces : split b'/' (b'/' ∷ join b'/' (p ∷ ps)) ≡ [] ∷ p ∷ ps =
      split-append b'/' [] (join b'/' (p ∷ ps))
      ∙ ap (λ x. x ++ split b'/' (join b'/' (p ∷ ps))) before_it
      ∙ ap (λ x. [] ∷ x) (split-join b'/' p ps (WithoutSlash_of_IsEntry (p ∷ ps) h)) in
    let skipped : resolve_all [] ([] ∷ p ∷ ps) ≡ resolve_all [] (p ∷ ps) =
      unfold resolve_all resolve in refl in
    let resolved = resolve_all_of_IsEntry [] (p ∷ ps) h in
    ap (λ x. reverse (resolve_all [] x)) pieces
    ∙ ap reverse (skipped ∙ resolved ∙ append-nil _)
    ∙ reverse-reverse (p ∷ ps)

-- The canonical form of a host path is canonical already.
canonical_host_path_idempotent :
    (host_path : Str)
    → canonical_host_path (canonical_host_path host_path) ≡ canonical_host_path host_path
unfolding canonical_host_path
canonical_host_path_idempotent host_path =
    ap (λ ps. b'/' ∷ join b'/' ps)
      (components_of_entries (components host_path) (components-IsEntry host_path))
