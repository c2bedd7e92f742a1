-- ===== src/Text/Trim.antt =====
-- Unicode white space in UTF-8, `trim` and `contains(char::is_whitespace)` of Rust's `str`.
use fire_crow.Prelude.{
  ℕ, ◌≡◌, refl, Bool, false, ◌&&◌, ◌||◌, [], ◌∷◌, ◌++◌, reverse, ◌==◌, leb, if◌then◌else◌, arith,
  ◌<◌, ap, ◌∙◌, is_empty,
}
use mathlib.Core.List.{reverse-reverse, reverse-append, reverse-cons}
use fire_crow.Text.{Str, trim_end_matches}

abbrev pub is_blank : ℕ → Bool
is_blank x = (leb 9 x && leb x 13) || x == 32

-- The characters of two bytes, and of three bytes, that are white space.
abbrev pub is_blank_pair : ℕ → ℕ → Bool
is_blank_pair x y = x == 0xC2 && (y == 0x85 || y == 0xA0)

abbrev pub is_blank_triple : ℕ → ℕ → ℕ → Bool
is_blank_triple x y z =
    (x == 0xE1 && (y == 0x9A && z == 0x80))
    || (x == 0xE2
        && ((y == 0x80 && ((leb 0x80 z && leb z 0x8A) || (z == 0xA8 || (z == 0xA9 || z == 0xAF))))
            || (y == 0x81 && z == 0x9F)))
    || (x == 0xE3 && (y == 0x80 && z == 0x80))

-- White space taken off the front, by the tests on its first bytes.
peel : (ℕ → ℕ → Bool) → (ℕ → ℕ → ℕ → Bool) → Str → Str
peel pair triple [] = []
peel pair triple (x ∷ []) = if is_blank x then [] else x ∷ []
peel pair triple (x ∷ y ∷ []) =
    let next = peel pair triple (y ∷ []) in
    if is_blank x then next else if pair x y then [] else x ∷ y ∷ []
peel pair triple (x ∷ y ∷ z ∷ s) =
    let one = peel pair triple (y ∷ z ∷ s) in
    let two = peel pair triple (z ∷ s) in
    let three = peel pair triple s in
    if is_blank x
    then one
    else if pair x y
    then two
    else if triple x y z
    then three
    else x ∷ y ∷ z ∷ s

-- `s.trim_start()`
unfoldable pub trim_start : Str → Str
unfolding peel
trim_start s = peel is_blank_pair is_blank_triple s

-- `s.trim_end()`
unfoldable pub trim_end : Str → Str
unfolding peel
trim_end s = reverse (peel (λ y x. is_blank_pair x y) (λ z y x. is_blank_triple x y z) (reverse s))

-- `s.trim()`
unfoldable pub trim : Str → Str
unfolding trim_start trim_end
trim s = trim_end (trim_start s)

-- `s.contains(char::is_whitespace)`
unfoldable pub has_whitespace : Str → Bool
has_whitespace [] = false
has_whitespace (x ∷ []) = is_blank x
has_whitespace (x ∷ y ∷ []) = is_blank x || is_blank_pair x y || has_whitespace (y ∷ [])
has_whitespace (x ∷ y ∷ z ∷ s) =
    is_blank x || is_blank_pair x y || is_blank_triple x y z || has_whitespace (y ∷ z ∷ s)

-- A byte that is an ASCII character and no white space.
abbrev pub IsInk : ℕ → Type 0
IsInk x = (x < 0x80) × (is_blank x ≡ false)

trim_start-ink : (x : ℕ) (s : Str) → IsInk x → trim_start (x ∷ s) ≡ x ∷ s
unfolding trim_start peel
trim_start-ink x [] h = ground arith
trim_start-ink x (y ∷ []) h = ground arith
trim_start-ink x (y ∷ z ∷ s) h = ground arith

peel_back-ink :
    (x : ℕ) (s : Str)
    → IsInk x
    → peel (λ y x. is_blank_pair x y) (λ z y x. is_blank_triple x y z) (x ∷ s) ≡ x ∷ s
unfolding peel
peel_back-ink x [] h = ground arith
peel_back-ink x (y ∷ []) h = ground arith
peel_back-ink x (y ∷ z ∷ s) h = ground arith

-- A text whose first and last bytes are ink stays as it is.
pub trim-ink : (x y : ℕ) (s : Str) → IsInk x → IsInk y → trim (x ∷ s ++ y ∷ []) ≡ x ∷ s ++ y ∷ []
unfolding trim trim_end
trim-ink x y s h k =
    rw
      (
        trim_start-ink x (s ++ y ∷ []) h,
        reverse-append (x ∷ s) (y ∷ []),
        peel_back-ink y (reverse (x ∷ s)) k,
      )
      (reverse-cons y (reverse (x ∷ s)) ∙ ap (λ t. t ++ y ∷ []) (reverse-reverse (x ∷ s)))

peel_back-keeps :
    (x : ℕ) (t : Str)
    → IsInk x
    → is_empty (peel (λ y x. is_blank_pair x y) (λ z y x. is_blank_triple x y z) (t ++ x ∷ []))
      ≡ false
unfolding peel
peel_back-keeps x [] h = ground arith
peel_back-keeps x (y ∷ []) h = ground (arith, peel_back-keeps x [] h)
peel_back-keeps x (y ∷ z ∷ []) h =
    ground (arith, peel_back-keeps x [] h, peel_back-keeps x (z ∷ []) h)
peel_back-keeps x (y ∷ z ∷ w ∷ t) h =
    ground
      (arith, peel_back-keeps x t h, peel_back-keeps x (w ∷ t) h, peel_back-keeps x (z ∷ w ∷ t) h)

is_empty-snoc : (s : Str) (y : ℕ) → is_empty (s ++ y ∷ []) ≡ false
is_empty-snoc [] y = refl
is_empty-snoc (x ∷ s) y = refl

is_empty-reverse : (s : Str) → is_empty s ≡ false → is_empty (reverse s) ≡ false
is_empty-reverse [] h = h
is_empty-reverse (y ∷ s) h = rw (reverse-cons y s) (is_empty-snoc (reverse s) y)

-- A text that begins with ink is not blank.
pub is_empty-trim : (x : ℕ) (s : Str) → IsInk x → is_empty (trim (x ∷ s)) ≡ false
unfolding trim trim_end
is_empty-trim x s h =
    rw (trim_start-ink x s h, reverse-cons x s)
      (is_empty-reverse _ (peel_back-keeps x (reverse s) h))

-- A text that does not end in the byte stays as it is.
pub trim_end_matches-snoc :
    (c y : ℕ) (t : Str) → (y == c) ≡ false → trim_end_matches c (t ++ y ∷ []) ≡ t ++ y ∷ []
unfolding trim_end_matches
trim_end_matches-snoc c y t h =
    rw (reverse-append t (y ∷ []), h)
      (reverse-cons y (reverse t) ∙ ap (λ l. l ++ y ∷ []) (reverse-reverse t))

-- The byte at the end is taken off.
pub trim_end_matches-same :
    (c : ℕ) (s : Str) → trim_end_matches c (s ++ c ∷ []) ≡ trim_end_matches c s
unfolding trim_end_matches
trim_end_matches-same c s = rw (reverse-append s (c ∷ [])) (ground arith)
