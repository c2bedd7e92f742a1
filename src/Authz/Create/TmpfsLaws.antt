-- ===== src/Authz/Create/TmpfsLaws.antt =====
-- About the checks of `Tmpfs` and `RestartPolicy` in `create_policy`,
-- docker-authz-plugin/src/lib.rs.
use mathlib.Core.Path.{subst}
use mathlib.Core.Bool.{false≢true}
use fire_crow.Prelude.{
  ◌≡◌, ◌≢◌, refl, sym, ◌∙◌, ◌⊎◌, inl, inr, ◌↔◌, true, false, Option, none, some, List, [], ◌∷◌,
  arith, All, is_empty, Option-cases, Bool-cases, ◌||◌,
}
use fire_crow.Text.{Str, str, str_eq, one_of, split, before, starts_with, contains}
use fire_crow.Text.Equality.{one_of_iff, In, str_eq_iff}
use fire_crow.Json.{Value, Entries, null, object, pairs, as_object, as_str, get}
use fire_crow.Authz.Create.Steps.{pass, ◌>>◌, Object}
use fire_crow.Authz.Create.FieldLaws.{>>-eq-pass}
use fire_crow.Authz.Create.Options.{
  tmpfs_keys, check_flags, check_flag_names, check_tmpfs_entry, check_tmpfs_entries, check_tmpfs,
  restart_ok, check_restart, text_or_empty, count_or_zero,
}
use fire_crow.Authz.Create.Spec.{
  keys_of, AreDistinct, IsRestricted, IsScratch, MountsAreScratch, NeverRestarts,
}

not-In_of_one_of : (ts : List Str) (s : Str) → one_of ts s ≡ false → ¬ In s ts
not-In_of_one_of ts s h i = false≢true (sym h ∙ (one_of_iff ts s).1 i)

one_of_of_not-In : (ts : List Str) (s : Str) → ¬ In s ts → one_of ts s ≡ false
one_of_of_not-In ts s h = elim (Bool-cases (one_of ts s)) [
  | inl e ↦ absurd (h ((one_of_iff ts s).0 e))
  | inr e ↦ e
]

check_flags-cons :
    (o flag : Str) (seen flags : List Str)
    → (check_flags o seen (flag ∷ flags) ≡ pass) ↔ (
        In (before b'=' flag) tmpfs_keys
        × (¬ In (before b'=' flag) seen)
        × (check_flags o (before b'=' flag ∷ seen) flags ≡ pass))
unfolding check_flags
check_flags-cons o flag seen flags = (
  λ h. (
    (one_of_iff tmpfs_keys (before b'=' flag)).0 (ground arith),
    not-In_of_one_of seen (before b'=' flag) (ground arith),
    ground arith,
  ),
  λ (k, n, h). ground (
    arith,
    (one_of_iff tmpfs_keys (before b'=' flag)).1 k,
    one_of_of_not-In seen (before b'=' flag) n,
  ),
)

-- To be new to `k ∷ seen` is to differ from `k` and to be new to `seen`.
new_to-cons :
    (k : Str) (seen ks : List Str)
    → All (λ j. ¬ In j (k ∷ seen)) ks ↔ (All (λ j. k ≢ j) ks × All (λ j. ¬ In j seen) ks)
new_to-cons k seen [] = (λ h. (tt, tt), λ h. tt)
new_to-cons k seen (j ∷ ks) = (
  λ (n, h). let (p, q) = (new_to-cons k seen ks).0 h in ((λ e. n (inl e), p), (λ i. n (inr i), q)),
  λ ((a, p), (b, q)). (λ i. elim i [ inl e ↦ a e | inr m ↦ b m ], (new_to-cons k seen ks).1 (p, q)),
)

check_flags_iff :
    (o : Str) (seen flags : List Str)
    → (check_flags o seen flags ≡ pass) ↔ (
        All (λ k. In k tmpfs_keys) (keys_of flags)
        × All (λ k. ¬ In k seen) (keys_of flags)
        × AreDistinct (keys_of flags))
check_flags_iff o seen [] = (λ h. (tt, tt, tt), λ h. unfold check_flags in refl)
check_flags_iff o seen (flag ∷ flags) =
    let k = before b'=' flag in
    let (to, from) = check_flags_iff o (k ∷ seen) flags in
    let (split_new, join_new) = new_to-cons k seen (keys_of flags) in
    (
      λ h.
          let (known, new, rest) = (check_flags-cons o flag seen flags).0 h in
          let (ks, ns, ds) = to rest in
          let (differ, old) = split_new ns in ((known, ks), (new, old), (differ, ds)),
      λ ((known, ks), (new, old), (differ, ds)).
          (check_flags-cons o flag seen flags).1
            (known, new, from (ks, join_new (differ, old), ds)),
    )

not-In-nil : (ks : List Str) → All (λ k. ¬ In k []) ks
not-In-nil [] = tt
not-In-nil (k ∷ ks) = (λ i. i, not-In-nil ks)

check_flag_names_iff :
    (o : Str)
    → (check_flag_names o ≡ pass) ↔ (
        (contains o (str "noexec") ≡ true)
        × (contains o (str "nosuid") ≡ true)
        × (contains o (str "nodev") ≡ true))
unfolding check_flag_names
check_flag_names_iff o = ground arith

IsRestricted-iff :
    (o : Str) → ((check_flags o [] (split b',' o) >> check_flag_names o) ≡ pass) ↔ IsRestricted o
IsRestricted-iff o = (
  λ h.
      let (p, q) = (>>-eq-pass (check_flags o [] (split b',' o)) _).0 h in
      let (known, new, distinct) = (check_flags_iff o [] (split b',' o)).0 p in
      let (a, b, c) = (check_flag_names_iff o).0 q in (known, distinct, a, b, c),
  λ (known, distinct, a, b, c). (>>-eq-pass (check_flags o [] (split b',' o)) _).1 (
    (check_flags_iff o [] (split b',' o)).1 (known, not-In-nil (keys_of (split b',' o)), distinct),
    (check_flag_names_iff o).1 (a, b, c),
  ),
)

under_work_iff :
    (dest : Str)
    → ((str_eq dest (str "/work") || starts_with dest (str "/work/")) ≡ true)
      ↔ ((dest ≡ str "/work") ⊎ (starts_with dest (str "/work/") ≡ true))
under_work_iff dest = ground (arith, str_eq_iff dest (str "/work"))

check_tmpfs_entry_iff :
    (dest : Str) (opts : Value) → (check_tmpfs_entry dest opts ≡ pass) ↔ IsScratch (dest, opts)
unfolding check_tmpfs_entry
check_tmpfs_entry_iff dest opts = elim (Option-cases (as_str opts)) [
  | inl e ↦ (
    λ h. ((under_work_iff dest).0 (ground arith), inl e),
    λ (w, r). ground (arith, (under_work_iff dest).1 w),
  )
  | inr (o, e) ↦ (
    λ h.
        ((under_work_iff dest).0 (ground arith), inr (o, e, (IsRestricted-iff o).0 (ground arith))),
    λ (w, r). elim r [
      | inl f ↦ absurd (ground arith)
      | inr (o', f, i) ↦
          let same : o' ≡ o = ground arith in
          ground
            (arith, (under_work_iff dest).1 w, (IsRestricted-iff o).1 (subst IsRestricted same i))
    ],
  )
]

check_tmpfs_entries_iff : (es : Object) → (check_tmpfs_entries es ≡ pass) ↔ All IsScratch es
unfolding check_tmpfs_entries
check_tmpfs_entries_iff [] = (λ h. tt, λ h. refl)
check_tmpfs_entries_iff ((dest, opts) ∷ rest) = (
  λ h.
      let (p, q) = (>>-eq-pass (check_tmpfs_entry dest opts) (check_tmpfs_entries rest)).0 h in
      ((check_tmpfs_entry_iff dest opts).0 p, (check_tmpfs_entries_iff rest).0 q),
  λ (p, q).
      (>>-eq-pass (check_tmpfs_entry dest opts) (check_tmpfs_entries rest)).1
        ((check_tmpfs_entry_iff dest opts).1 p, (check_tmpfs_entries_iff rest).1 q),
)

pub check_tmpfs_iff : (o : Option Value) → (check_tmpfs o ≡ pass) ↔ MountsAreScratch o
unfolding check_tmpfs
check_tmpfs_iff none = (λ h. inl refl, λ h. refl)
check_tmpfs_iff (some v) = elim (Option-cases (as_object v)) [
  | inl e ↦ (
    λ h. absurd (ground arith),
    λ h. elim h [ inl f ↦ cc | inr (w, es, f, g, t) ↦ absurd (ground arith) ],
  )
  | inr (es, e) ↦ (
    λ h. inr (v, es, refl, e, (check_tmpfs_entries_iff es).0 (ground arith)),
    λ h. elim h [
      | inl f ↦ cc
      | inr (w, es', f, g, t) ↦
          let same : es' ≡ es = ground arith in
          ground (arith, (check_tmpfs_entries_iff es).1 (subst (All IsScratch) same t))
    ],
  )
]

is_never_iff :
    (name : Str)
    → ((is_empty name || str_eq name (str "none") || str_eq name (str "no")) ≡ true)
      ↔ In name ([] ∷ str "none" ∷ str "no" ∷ [])
is_never_iff name = ground (arith, str_eq_iff name (str "none"), str_eq_iff name (str "no"))

restart_object_iff :
    (es : Entries)
    → (restart_ok (object es) ≡ true) ↔ (
        (pairs es ≡ [])
        ⊎ (In (text_or_empty (get (pairs es) (str "Name"))) ([] ∷ str "none" ∷ str "no" ∷ [])
            × (count_or_zero (get (pairs es) (str "MaximumRetryCount")) ≡ 0)))
unfolding restart_ok
restart_object_iff es = ground (arith, is_never_iff (text_or_empty (get (pairs es) (str "Name"))))

pub check_restart_iff : (o : Option Value) → (check_restart o ≡ pass) ↔ NeverRestarts o
unfolding check_restart
check_restart_iff none = (λ h. inl refl, λ h. refl)
check_restart_iff (some null) = (λ h. inr (inl refl), λ h. unfold restart_ok in refl)
check_restart_iff (some (object es)) = (
  λ h. inr (inr (es, refl, (restart_object_iff es).0 (ground arith))),
  λ h. elim h [
    | inl e ↦ cc
    | inr (inl e) ↦ cc
    | inr (inr (es', e, t)) ↦
        let same : es' ≡ es = cc in
        ground
          (arith, subst (λ x. restart_ok (object x) ≡ true) same ((restart_object_iff es').1 t))
  ],
)
check_restart_iff (some v) = (
  λ h. absurd (unfold restart_ok in ground arith),
  λ h. elim h [ inl e ↦ cc | inr (inl e) ↦ cc | inr (inr (es, e, t)) ↦ cc ],
)
