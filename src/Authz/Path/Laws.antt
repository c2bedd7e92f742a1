-- ===== src/Authz/Path/Laws.antt =====
-- About the paths that `normalize_path` of docker-authz-plugin/src/lib.rs returns.
use fire_crow.Prelude.{
  ℕ, ◌≡◌, ◌≢◌, ◌⊎◌, inl, inr, Bool, not, ◌||◌, some, List, [], ◌∷◌, arith, All, Option-cases,
  Bool-cases, is_empty, Run-cases, returns,
}
use fire_crow.Text.{Str, str, split, split_once, join, starts_with}
use fire_crow.Text.Equality.{str_eq_iff}
use fire_crow.Text.Split.{Without, split-Without, split_once-append, split_once_of_Without}
use fire_crow.Authz.Path.{
  raw_path, path_segments, tail_of_ver, strip_version, normalize_path, has_encoded_separator,
}

-- A segment that can be joined with `/` and read back, and that does not move up.
abbrev pub IsPlain : Str → Type 0
IsPlain seg = (seg ≢ []) × (seg ≢ str ".") × (seg ≢ str "..") × Without b'/' seg

pub path_segments-IsPlain :
    (segs kept : List Str)
    → All (Without b'/') segs
    → path_segments segs ≡ some kept
    → All IsPlain kept
unfolding path_segments
path_segments-IsPlain [] kept w h = ground arith
path_segments-IsPlain (seg ∷ segs) kept (w, ws) h = elim (Option-cases (path_segments segs)) [
  | inl e ↦ absurd (ground arith)
  | inr (rest, e) ↦
      let ih = path_segments-IsPlain segs rest ws e in
      ground (arith, ih, w, str_eq_iff seg (str "."), str_eq_iff seg (str ".."))
]

-- A path that is `/` and plain segments, one at least.
abbrev pub IsClean : Str → Type 0
IsClean path =
    (seg : Str) × (segs : List Str) × (path ≡ b'/' ∷ join b'/' (seg ∷ segs))
    × All IsPlain (seg ∷ segs)

pub split_once-join :
    (c : ℕ) (p q : Str) (ps : List Str)
    → Without c p
    → split_once c (join c (p ∷ q ∷ ps)) ≡ some (p, join c (q ∷ ps))
unfolding join
split_once-join c p q ps h = split_once-append c p (join c (q ∷ ps)) h

-- The version is dropped, or it is kept.
strip_version_cases :
    (rest ver tail path : Str)
    → split_once b'/' rest ≡ some (ver, tail)
    → strip_version rest ≡ returns path
    → (path ≡ b'/' ∷ tail) ⊎ (path ≡ b'/' ∷ rest)
unfolding strip_version
strip_version_cases rest ver tail path f e = elim (Run-cases (tail_of_ver ver)) [
  | inl p ↦ absurd (ground arith)
  | inr (digits, p) ↦ ground arith
]

strip_version-IsClean :
    (seg : Str) (segs : List Str) (path : Str)
    → All IsPlain (seg ∷ segs)
    → strip_version (join b'/' (seg ∷ segs)) ≡ returns path
    → IsClean path
strip_version-IsClean seg [] path h e =
    let found = split_once_of_Without b'/' seg h.0.3 in
    (seg, [], unfold strip_version join in ground arith, h)
strip_version-IsClean seg (next ∷ segs) path h e =
    let found = split_once-join b'/' seg next segs h.0.3 in
    elim (strip_version_cases _ _ _ _ found e) [
      | inl dropped ↦ (next, segs, dropped, h.1)
      | inr kept ↦ (seg, next ∷ segs, kept, h)
    ]

-- Whatever the URI, a path that `normalize_path` returns is empty, or it is `/` and plain
-- segments: none empty, none `.` or `..`, and no slash in any.
pub normalize_path-IsClean :
    (uri path : Str) → normalize_path uri ≡ returns path → (path ≡ []) ⊎ IsClean path
unfolding normalize_path
normalize_path-IsClean uri path h =
    elim (Option-cases (path_segments (split b'/' (raw_path uri)))) [
      | inl e ↦ inl (ground arith)
      | inr ([], e) ↦ inl (ground arith)
      | inr (seg ∷ segs, e) ↦
          let plain = path_segments-IsPlain _ (seg ∷ segs) (split-Without b'/' (raw_path uri)) e in
          let early : Bool =
            is_empty (raw_path uri)
            || not (starts_with (raw_path uri) (str "/"))
            || has_encoded_separator (raw_path uri) in
          elim (Bool-cases early) [
            | inl t ↦ inl (ground arith)
            | inr f ↦ inr (strip_version-IsClean seg segs path plain (ground arith))
          ]
    ]
