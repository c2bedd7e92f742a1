-- ===== src/Authz/Query/Names.antt =====
-- About `is_scanner_name` of docker-authz-plugin/src/lib.rs.
use mathlib.Core.Path.{subst}
use fire_crow.Prelude.{
  ℕ, suc, ◌+◌, ◌<◌, ◌≤◌, ◌≡◌, refl, ◌∙◌, ◌↔◌, ◌⊎◌, inl, inr, Bool, true, false, ◌||◌, ◌&&◌, some,
  List, [], ◌∷◌, ◌++◌, ◌==◌, leb, arith, length, Bool-cases, Option-cases,
}
use fire_crow.Text.{Str, str, strip_prefix, is_digit}
use fire_crow.Text.Split.{eq_of_strip_prefix, strip_prefix-append}
use fire_crow.Authz.Query.{uuid_loop, is_dash_place, is_set, is_scanner_name}

abbrev pub IsLowerHex : ℕ → Type 0
IsLowerHex b = ((b'0' ≤ b) × (b ≤ b'9')) ⊎ ((b'a' ≤ b) × (b ≤ b'f'))

abbrev is_lower_hex : ℕ → Bool
is_lower_hex b = is_digit b || (leb b'a' b && leb b b'f')

is_lower_hex_iff : (b : ℕ) → (is_lower_hex b ≡ true) ↔ IsLowerHex b
unfolding is_digit
is_lower_hex_iff b = ground arith

-- The bytes from the place `i` on are as in a UUID: a dash at 8, 13, 18 and 23, and a lowercase
-- hexadecimal digit at every other place.
abbrev pub FitsUuid : ℕ → Str → Type 0
FitsUuid i [] = Unit
FitsUuid i (b ∷ s) =
    (((is_dash_place i ≡ true) × (b ≡ b'-')) ⊎ ((is_dash_place i ≡ false) × IsLowerHex b))
    × FitsUuid (suc i) s

-- One round of the loop.
uuid_loop-cons :
    (i : ℕ) (dash : List ℕ) (b : ℕ) (s : Str) (r : List ℕ)
    → uuid_loop i dash (b ∷ s) ≡ some r
    → (IsLowerHex b × (uuid_loop (suc i) dash s ≡ some r))
      ⊎ ((b ≡ b'-') × (is_dash_place i ≡ true) × (uuid_loop (suc i) (i ∷ dash) s ≡ some r))
uuid_loop-cons i dash b s r h = elim (Bool-cases (is_lower_hex b)) [
  | inl e ↦ inl ((is_lower_hex_iff b).0 e, unfold uuid_loop in ground arith)
  | inr e ↦ elim (Bool-cases (b == b'-' && is_dash_place i)) [
    | inl f ↦ inr (ground arith, ground arith, unfold uuid_loop in ground arith)
    | inr f ↦ absurd (unfold uuid_loop in ground arith)
  ]
]

-- The loop sets places from `i` on only.
uuid_loop_later :
    (i : ℕ) (dash : List ℕ) (s : Str) (r : List ℕ) (j : ℕ)
    → uuid_loop i dash s ≡ some r
    → is_set j r ≡ true
    → (is_set j dash ≡ true) ⊎ (i ≤ j)
uuid_loop_later i dash [] r j h k = unfold uuid_loop in ground arith
uuid_loop_later i dash (b ∷ s) r j h k = elim (uuid_loop-cons i dash b s r h) [
  | inl (x, e) ↦ elim (uuid_loop_later (suc i) dash s r j e k) [
    | inl f ↦ inl f
    | inr f ↦ inr (omega arith)
  ]
  | inr (x, y, e) ↦ elim (uuid_loop_later (suc i) (i ∷ dash) s r j e k) [
    | inl f ↦ ground arith
    | inr f ↦ inr (omega arith)
  ]
]

abbrev AllDashesSet : List ℕ → Type 0
AllDashesSet r = (j : ℕ) → is_dash_place j ≡ true → is_set j r ≡ true

abbrev SetBelow : ℕ → List ℕ → Type 0
SetBelow i dash = (j : ℕ) → is_set j dash ≡ true → j < i

uuid_loop_sound :
    (i : ℕ) (dash : List ℕ) (s : Str) (r : List ℕ)
    → uuid_loop i dash s ≡ some r
    → SetBelow i dash
    → AllDashesSet r
    → FitsUuid i s
uuid_loop_sound i dash [] r h below every = tt
uuid_loop_sound i dash (b ∷ s) r h below every = elim (uuid_loop-cons i dash b s r h) [
  | inl (x, e) ↦ (
    elim (Bool-cases (is_dash_place i)) [
      | inl f ↦ absurd (elim (uuid_loop_later (suc i) dash s r i e (every i f)) [
        | inl g ↦ omega (arith, below i g)
        | inr g ↦ omega arith
      ])
      | inr f ↦ inr (f, x)
    ],
    uuid_loop_sound (suc i) dash s r e (λ j k. omega (arith, below j k)) every,
  )
  | inr (x, y, e) ↦
      (inl (y, x), uuid_loop_sound (suc i) (i ∷ dash) s r e (λ j k. ground (arith, below j)) every)
]

uuid_loop-dash :
    (i : ℕ) (dash : List ℕ) (b : ℕ) (s : Str)
    → b ≡ b'-'
    → is_dash_place i ≡ true
    → uuid_loop i dash (b ∷ s) ≡ uuid_loop (suc i) (i ∷ dash) s
unfolding uuid_loop is_digit
uuid_loop-dash i dash b s e d = rw e (rw d)

uuid_loop-hex :
    (i : ℕ) (dash : List ℕ) (b : ℕ) (s : Str)
    → IsLowerHex b
    → uuid_loop i dash (b ∷ s) ≡ uuid_loop (suc i) dash s
unfolding uuid_loop
uuid_loop-hex i dash b s x = ground (arith, (is_lower_hex_iff b).1 x)

uuid_loop_complete :
    (i : ℕ) (dash : List ℕ) (s : Str)
    → FitsUuid i s
    → (r : List ℕ) × (uuid_loop i dash s ≡ some r)
      × ((j : ℕ) → is_set j dash ≡ true → is_set j r ≡ true)
      × ((j : ℕ) → i ≤ j → j < i + length s → is_dash_place j ≡ true → is_set j r ≡ true)
uuid_loop_complete i dash [] h =
    (dash, unfold uuid_loop in refl, λ j k. k, λ j a b c. absurd (omega arith))
uuid_loop_complete i dash (b ∷ s) (inl (d, e), h) =
    let (r, f, old, new) = uuid_loop_complete (suc i) (i ∷ dash) s h in
    (
      r,
      uuid_loop-dash i dash b s e d ∙ f,
      λ j k. old j (ground arith),
      λ j a c g. elim (Bool-cases (i == j)) [
        | inl same ↦ old j (ground arith)
        | inr other ↦ new j (ground arith) (omega arith) g
      ],
    )
uuid_loop_complete i dash (b ∷ s) (inr (d, x), h) =
    let (r, f, old, new) = uuid_loop_complete (suc i) dash s h in
    (
      r,
      uuid_loop-hex i dash b s x ∙ f,
      old,
      λ j a c g. elim (Bool-cases (i == j)) [
        | inl same ↦ absurd (ground arith)
        | inr other ↦ new j (ground arith) (omega arith) g
      ],
    )

dash_place_bound : (j : ℕ) → is_dash_place j ≡ true → j < 36
dash_place_bound j h = ground arith

dash_places : (j : ℕ) → is_dash_place j ≡ true → (8 ≡ j) ⊎ (13 ≡ j) ⊎ (18 ≡ j) ⊎ (23 ≡ j)
dash_places j h = ground arith

abbrev four_set : List ℕ → Bool
four_set r = is_set 8 r && is_set 13 r && is_set 18 r && is_set 23 r

AllDashesSet-of_four : (r : List ℕ) → four_set r ≡ true → AllDashesSet r
AllDashesSet-of_four r h j d = elim (dash_places j d) [
  | inl e ↦ subst (λ x. is_set x r ≡ true) e (ground arith)
  | inr (inl e) ↦ subst (λ x. is_set x r ≡ true) e (ground arith)
  | inr (inr (inl e)) ↦ subst (λ x. is_set x r ≡ true) e (ground arith)
  | inr (inr (inr e)) ↦ subst (λ x. is_set x r ≡ true) e (ground arith)
]

module _ (name suffix : Str) (found : strip_prefix name (str "firecrow-scan-") ≡ some suffix) where
  name_sound : is_scanner_name name ≡ true → (length suffix ≡ 36) × FitsUuid 0 suffix
  unfolding is_scanner_name
  name_sound h = elim (Option-cases (uuid_loop 0 [] suffix)) [
    | inl e ↦ absurd (ground arith)
    | inr (r, e) ↦
        let four : four_set r ≡ true = ground arith in
        (
          ground arith,
          uuid_loop_sound 0 [] suffix r e (λ j k. absurd (cc)) (AllDashesSet-of_four r four),
        )
  ]

  name_complete : length suffix ≡ 36 → FitsUuid 0 suffix → is_scanner_name name ≡ true
  unfolding is_scanner_name
  name_complete n f =
      let (r, e, _, new) = uuid_loop_complete 0 [] suffix f in
      let at : (j : ℕ) → is_dash_place j ≡ true → is_set j r ≡ true =
        λ j d. new j (omega arith) (omega (arith, dash_place_bound j d)) d in
      let a8 = at 8 refl in
      let a13 = at 13 refl in
      let a18 = at 18 refl in let a23 = at 23 refl in rw (found, is_scanner_name) (ground arith)

-- A name is a scanner's name exactly if it is `firecrow-scan-` and 36 bytes that fit a UUID: a
-- dash at the places 8, 13, 18 and 23, and a lowercase hexadecimal digit at every other place.
pub is_scanner_name_iff :
    (name : Str)
    → (is_scanner_name name ≡ true) ↔ (
        (suffix : Str) × (name ≡ str "firecrow-scan-" ++ suffix)
        × (length suffix ≡ 36)
        × FitsUuid 0 suffix)
is_scanner_name_iff name = (
  λ h. elim (Option-cases (strip_prefix name (str "firecrow-scan-"))) [
    | inl e ↦ absurd (unfold is_scanner_name in ground arith)
    | inr (suffix, e) ↦
        let (n, f) = name_sound name suffix e h in (suffix, eq_of_strip_prefix _ _ _ e, n, f)
  ],
  λ (suffix, e, n, f).
      name_complete name suffix (rw e (strip_prefix-append (str "firecrow-scan-") suffix)) n f,
)
