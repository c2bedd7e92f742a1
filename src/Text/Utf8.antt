-- ===== src/Text/Utf8.antt =====
-- `String::from_utf8` and `String::from_utf8_lossy` of Rust's standard library.
use fire_crow.Prelude.{
  ℕ, zero, suc, ◌≡◌, ◌≤◌, ◌<◌, ap, arith, refl, Bool, true, false, ◌&&◌, [], ◌∷◌, ◌++◌, leb, ltb,
  ◌==◌, if◌then◌else◌, length, take, drop,
}
use fire_crow.Text.{Str}

abbrev between : ℕ → ℕ → ℕ → Bool
between lo hi x = leb lo x && leb x hi

-- A continuation byte.
is_continuation : ℕ → Bool
is_continuation x = between 0x80 0xBF x

-- Whether a byte may follow the leading byte of a character of three or of four bytes.
may_follow : ℕ → ℕ → Bool
may_follow lead x =
    if lead == 0xE0
    then between 0xA0 0xBF x
    else if lead == 0xED
    then between 0x80 0x9F x
    else if lead == 0xF0
    then between 0x90 0xBF x
    else if lead == 0xF4
    then between 0x80 0x8F x
    else between 0x80 0xBF x

-- The byte at a place, 0 past the end.
get_or_zero : ℕ → Str → ℕ
get_or_zero i [] = 0
get_or_zero zero (x ∷ s) = x
get_or_zero (suc i) (x ∷ s) = get_or_zero i s

-- The number of bytes of the first character, or of the ill-formed bytes that stand there, and
-- whether it is a character; `rest` is what stands after the first byte.
char_width : ℕ → Str → ℕ × Bool
unfolding is_continuation may_follow get_or_zero
char_width lead rest =
    if ltb lead 0x80
    then (1, true)
    else if between 0xC2 0xDF lead
    then (if is_continuation (get_or_zero 0 rest) then (2, true) else (1, false))
    else if between 0xE0 0xEF lead
    then (if may_follow lead (get_or_zero 0 rest)
        then (if is_continuation (get_or_zero 1 rest) then (3, true) else (2, false))
        else (1, false))
    else if between 0xF0 0xF4 lead
    then (if may_follow lead (get_or_zero 0 rest)
        then (if is_continuation (get_or_zero 1 rest)
            then (if is_continuation (get_or_zero 2 rest) then (4, true) else (3, false))
            else (2, false))
        else (1, false))
    else (1, false)

is_utf8_from : ℕ → Str → Bool
is_utf8_from zero s = false
is_utf8_from (suc fuel) [] = true
is_utf8_from (suc fuel) (x ∷ s) =
    let (n, fits) = char_width x s in
    let rest = is_utf8_from fuel (drop n (x ∷ s)) in if fits then rest else false

-- Whether `String::from_utf8` accepts the bytes. Each round takes a byte at least.
unfoldable pub is_utf8 : Str → Bool
unfolding is_utf8_from char_width
is_utf8 s = is_utf8_from (suc (length s)) s

-- U+FFFD
abbrev replacement : Str
replacement = 0xEF ∷ 0xBF ∷ 0xBD ∷ []

lossy_from : ℕ → Str → Str
lossy_from zero s = []
lossy_from (suc fuel) [] = []
lossy_from (suc fuel) (x ∷ s) =
    let (n, fits) = char_width x s in
    (if fits then take n (x ∷ s) else replacement) ++ lossy_from fuel (drop n (x ∷ s))

-- `String::from_utf8_lossy`
unfoldable pub from_utf8_lossy : Str → Str
unfolding lossy_from char_width
from_utf8_lossy s = lossy_from (suc (length s)) s

-- A character of two bytes after an ASCII one.
accepted_text : is_utf8 (0x61 ∷ 0xC3 ∷ 0xA9 ∷ []) ≡ true
unfolding is_utf8
accepted_text = refl

lossy_test :
    from_utf8_lossy (0x61 ∷ 0xC3 ∷ 0xE2 ∷ 0x82 ∷ 0x62 ∷ [])
    ≡ 0x61 ∷ replacement ++ replacement ++ 0x62 ∷ []
unfolding from_utf8_lossy
lossy_test = refl

char_width-positive : (lead : ℕ) (rest : Str) → 1 ≤ (char_width lead rest).0
unfolding char_width
char_width-positive lead rest = ground arith

length-drop : (n : ℕ) (s : Str) → length (drop n s) ≤ length s
length-drop zero s = omega arith
length-drop (suc n) [] = omega arith
length-drop (suc n) (x ∷ s) = omega (arith, length-drop n s)

length-drop_cons : (n x : ℕ) (s : Str) → 1 ≤ n → length (drop n (x ∷ s)) ≤ length s
length-drop_cons zero x s h = absurd (omega arith)
length-drop_cons (suc n) x s h = length-drop n s

-- More fuel than bytes gives one answer, whatever the fuel.
is_utf8_from-fuel :
    (f g : ℕ) (s : Str) → length s < f → length s < g → is_utf8_from f s ≡ is_utf8_from g s
unfolding is_utf8_from
is_utf8_from-fuel zero g s h k = absurd (omega arith)
is_utf8_from-fuel (suc f) zero s h k = absurd (omega arith)
is_utf8_from-fuel (suc f) (suc g) [] h k = refl
is_utf8_from-fuel (suc f) (suc g) (x ∷ s) h k =
    let fewer = length-drop_cons (char_width x s).0 x s (char_width-positive x s) in
    ap (λ rest. if (char_width x s).1 then rest else false)
      (is_utf8_from-fuel f g (drop (char_width x s).0 (x ∷ s)) (omega (arith, fewer))
        (omega (arith, fewer)))

lossy_from-fuel :
    (f g : ℕ) (s : Str) → length s < f → length s < g → lossy_from f s ≡ lossy_from g s
unfolding lossy_from
lossy_from-fuel zero g s h k = absurd (omega arith)
lossy_from-fuel (suc f) zero s h k = absurd (omega arith)
lossy_from-fuel (suc f) (suc g) [] h k = refl
lossy_from-fuel (suc f) (suc g) (x ∷ s) h k =
    let fewer = length-drop_cons (char_width x s).0 x s (char_width-positive x s) in
    ap
      (λ rest.
        (if (char_width x s).1 then take (char_width x s).0 (x ∷ s) else replacement) ++ rest)
      (lossy_from-fuel f g (drop (char_width x s).0 (x ∷ s)) (omega (arith, fewer))
        (omega (arith, fewer)))
