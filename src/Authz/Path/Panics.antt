-- ===== src/Authz/Path/Panics.antt =====
-- About the slice `&ver[1..]` in `normalize_path`, docker-authz-plugin/src/lib.rs.
use mathlib.Core.Path.{subst}
use fire_crow.Prelude.{
  ◌<◌, ◌≤◌, ◌≡◌, ◌≢◌, refl, ◌↔◌, ◌⊎◌, inl, inr, true, false, none, some, List, [], ◌∷◌, arith, All,
  Option-cases, Run-cases, returns, panics,
}
use fire_crow.Text.{Str, str, split, split_once, join, starts_with}
use fire_crow.Text.Split.{split-Without, split_once_of_Without}
use fire_crow.Authz.Path.{
  raw_path, path_segments, tail_of_ver, strip_version, normalize_path, has_encoded_separator,
}
use fire_crow.Authz.Path.Laws.{IsPlain, path_segments-IsPlain, split_once-join}

-- A string whose second byte continues the character that its first byte begins.
abbrev pub BeginsWide : Str → Type 0
BeginsWide [] = ⊥
BeginsWide (v ∷ []) = ⊥
BeginsWide (v ∷ x ∷ s) = (0x80 ≤ x) × (x < 0xC0)

tail_of_ver-panics_iff : (ver : Str) → ver ≢ [] → (tail_of_ver ver ≡ panics) ↔ BeginsWide ver
unfolding tail_of_ver
tail_of_ver-panics_iff [] h = absurd (h refl)
tail_of_ver-panics_iff (v ∷ []) h = ground arith
tail_of_ver-panics_iff (v ∷ x ∷ s) h = ground arith

strip_version-panics :
    (rest ver tail : Str)
    → split_once b'/' rest ≡ some (ver, tail)
    → (strip_version rest ≡ panics) ↔ (tail_of_ver ver ≡ panics)
unfolding strip_version
strip_version-panics rest ver tail f = elim (Run-cases (tail_of_ver ver)) [
  | inl p ↦ ground arith
  | inr (digits, p) ↦ ground arith
]

strip_version-returns : (rest : Str) → split_once b'/' rest ≡ none → strip_version rest ≢ panics
unfolding strip_version
strip_version-returns rest f = ground arith

-- The guards of `normalize_path` before it reads the segments.
abbrev pub PassesGuards : Str → Type 0
PassesGuards raw =
    (raw ≢ []) × (starts_with raw (str "/") ≡ true) × (has_encoded_separator raw ≡ false)

-- Two segments at least, of which the first begins with a character that is not ASCII.
abbrev pub FirstIsWide : List Str → Type 0
FirstIsWide [] = ⊥
FirstIsWide (seg ∷ []) = ⊥
FirstIsWide (seg ∷ _ ∷ _) = BeginsWide seg

segments-panics_iff :
    (seg : Str) (segs : List Str)
    → All IsPlain (seg ∷ segs)
    → (strip_version (join b'/' (seg ∷ segs)) ≡ panics) ↔ FirstIsWide (seg ∷ segs)
segments-panics_iff seg [] h =
    (strip_version-returns _ (unfold join in split_once_of_Without b'/' seg h.0.3), λ w. elim w [ ])
segments-panics_iff seg (next ∷ segs) h =
    let (to, from) = strip_version-panics _ _ _ (split_once-join b'/' seg next segs h.0.3) in
    let (wide, back) = tail_of_ver-panics_iff seg h.0.0 in (λ p. wide (to p), λ w. from (back w))

normalize_path-guarded :
    (uri : Str)
    → PassesGuards (raw_path uri)
      ⊎ ((¬ PassesGuards (raw_path uri)) × (normalize_path uri ≡ returns []))
unfolding normalize_path
normalize_path-guarded uri = ground arith

module _ (uri : Str) (ok : PassesGuards (raw_path uri)) where
  guarded-panics_iff : (normalize_path uri ≡ panics) ↔ (
      (segs : List Str) × (path_segments (split b'/' (raw_path uri)) ≡ some segs)
      × FirstIsWide segs)
  unfolding normalize_path
  guarded-panics_iff = elim (Option-cases (path_segments (split b'/' (raw_path uri)))) [
    | inl e ↦ (λ p. absurd (ground arith), λ (segs, f, w). absurd (ground arith))
    | inr ([], e) ↦ (
      λ p. absurd (ground arith),
      λ (segs, f, w). let same : segs ≡ [] = ground arith in absurd (subst FirstIsWide same w),
    )
    | inr (seg ∷ segs, e) ↦
        let plain = path_segments-IsPlain _ (seg ∷ segs) (split-Without b'/' (raw_path uri)) e in
        let (to, from) = segments-panics_iff seg segs plain in
        (
          λ p. (seg ∷ segs, e, to (ground arith)),
          λ (segs', f, w).
              let same : segs' ≡ seg ∷ segs = ground arith in
              let stripped = from (subst FirstIsWide same w) in ground arith,
        )
  ]

-- `normalize_path` panics exactly if the path is not refused before its segments are read and
-- keeps two segments at least, of which the first begins with a character outside ASCII.
pub normalize_path-panics_iff :
    (uri : Str)
    → (normalize_path uri ≡ panics) ↔ (
        PassesGuards (raw_path uri)
        × ((segs : List Str) × (path_segments (split b'/' (raw_path uri)) ≡ some segs)
            × FirstIsWide segs))
normalize_path-panics_iff uri = elim (normalize_path-guarded uri) [
  | inl ok ↦ let (to, from) = guarded-panics_iff uri ok in (λ p. (ok, to p), λ (_, w). from w)
  | inr (refused, e) ↦ (λ p. absurd (cc), λ (ok, w). absurd (refused ok))
]
