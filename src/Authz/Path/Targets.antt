-- ===== src/Authz/Path/Targets.antt =====
-- About `container_target` and `is_container_delete` of docker-authz-plugin/src/lib.rs.
use mathlib.Core.Path.{subst}
use fire_crow.Prelude.{◌≡◌, ◌≢◌, ◌↔◌, inl, inr, true, some, [], ◌++◌, arith, Option-cases}
use fire_crow.Text.{Str, str, strip_prefix, before}
use fire_crow.Text.Split.{
  Without, before_of_Without, eq_of_strip_prefix, strip_prefix-append, Without-of_has_byte,
  has_byte_of_Without, before-Without,
}
use fire_crow.Authz.Path.{container_target, is_container_delete}

-- The path of a container, with nothing after its id or name.
abbrev pub Addresses : Str → Str → Type 0
Addresses path target = (path ≡ str "/containers/" ++ target) × (target ≢ []) × Without b'/' target

pub is_container_delete_iff :
    (path : Str) → (is_container_delete path ≡ true) ↔ ((target : Str) × Addresses path target)
unfolding is_container_delete
is_container_delete_iff path = elim (Option-cases (strip_prefix path (str "/containers/"))) [
  | inl e ↦ (
    λ h. absurd (ground arith),
    λ (t, (same, n, w)).
        let found = strip_prefix-append (str "/containers/") t in absurd (ground arith),
  )
  | inr (rest, e) ↦ (
    λ h. (
      rest,
      (eq_of_strip_prefix _ _ _ e, ground arith, Without-of_has_byte b'/' rest (ground arith)),
    ),
    λ (t, (same, n, w)).
        let found = strip_prefix-append (str "/containers/") t in
        ground (arith, n, has_byte_of_Without b'/' t w),
  )
]

pub container_target_of_Addresses :
    (path target : Str) → Addresses path target → container_target path ≡ some target
unfolding container_target
container_target_of_Addresses path target (e, n, w) =
    let found = strip_prefix-append (str "/containers/") target in
    ground (arith, found, before_of_Without b'/' target w, n)

-- A target stands behind `/containers/`, and the path goes on with a slash, if it goes on.
container_target_sound :
    (path target : Str)
    → container_target path ≡ some target
    → (target ≢ [])
      × Without b'/' target
      × ((rest : Str) × (path ≡ str "/containers/" ++ rest) × (before b'/' rest ≡ target))
unfolding container_target
container_target_sound path target h =
    elim (Option-cases (strip_prefix path (str "/containers/"))) [
      | inl e ↦ absurd (ground arith)
      | inr (rest, e) ↦
          let same : before b'/' rest ≡ target = ground arith in
          (
            ground arith,
            subst (Without b'/') same (before-Without b'/' rest),
            (rest, eq_of_strip_prefix _ _ _ e, same),
          )
    ]

pub target_unique : (path t t' : Str) → container_target path ≡ some t → Addresses path t' → t ≡ t'
target_unique path t t' e a = let found = container_target_of_Addresses path t' a in ground arith
