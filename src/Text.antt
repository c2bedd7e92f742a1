-- ===== src/Text.antt =====
-- Rust's `str`, as the list of its UTF-8 bytes, and the methods of `str` that the code calls.
-- All separators and affixes in the code are ASCII, so that a split of the bytes is a split of
-- the text.
pub mod Equality
pub mod Split
pub mod Rsplit
pub mod Bytes
pub mod Join
pub mod Utf8
pub mod Decimal
pub mod Replace
pub mod Trim
pub mod Control
pub mod Words
use Prim.Native.Char.{code}
use fire_crow.Prelude.{
  ℕ, ◌+◌, ◌-◌, String, Bool, true, false, ◌&&◌, ◌||◌, Option, none, some, List, [], ◌∷◌, ◌++◌,
  reverse, ◌==◌, leb, if◌then◌else◌,
}

abbrev pub Str : Type 0
Str = List ℕ

-- An ASCII literal.
unfoldable pub str : String → Str
str String.[] = []
str (String.◌∷◌ c s) = code c ∷ str s

-- `a == b` on strings.
unfoldable pub str_eq : Str → Str → Bool
str_eq [] [] = true
str_eq (x ∷ s) (y ∷ t) = x == y && str_eq s t
str_eq _ _ = false

-- `list.contains(&s)`, for a slice or a set of strings.
unfoldable pub one_of : List Str → Str → Bool
one_of [] s = false
one_of (t ∷ ts) s = str_eq t s || one_of ts s

-- `s.strip_prefix(p)`
unfoldable pub strip_prefix : Str → Str → Option Str
strip_prefix s [] = some s
strip_prefix [] (y ∷ p) = none
strip_prefix (x ∷ s) (y ∷ p) = if x == y then strip_prefix s p else none

abbrev pub is_some {ℓ} : {A : Type ℓ} → Option A → Bool
is_some none = false
is_some (some a) = true

-- `s.starts_with(p)`
unfoldable pub starts_with : Str → Str → Bool
unfolding strip_prefix
starts_with s p = is_some (strip_prefix s p)

-- `s.ends_with(p)`
unfoldable pub ends_with : Str → Str → Bool
unfolding starts_with
ends_with s p = starts_with (reverse s) (reverse p)

-- `s.contains(p)`, for a pattern that is a string
unfoldable pub contains : Str → Str → Bool
unfolding starts_with
contains [] p = starts_with [] p
contains (x ∷ s) p = starts_with (x ∷ s) p || contains s p

-- `s.contains(c)`, for a pattern that is one character
unfoldable pub has_byte : ℕ → Str → Bool
has_byte c [] = false
has_byte c (x ∷ s) = x == c || has_byte c s

-- The first piece of `s.split(c)`, and the pieces after it.
unfoldable pub split_pieces : ℕ → Str → Str × List Str
split_pieces c [] = ([], [])
split_pieces c (x ∷ s) =
    let (first, others) = split_pieces c s in
    if x == c then ([], first ∷ others) else (x ∷ first, others)

-- `s.split(c)`
unfoldable pub split : ℕ → Str → List Str
unfolding split_pieces
split c s = let (first, others) = split_pieces c s in first ∷ others

-- `s.split(c).next()`, which is always there
unfoldable pub before : ℕ → Str → Str
unfolding split_pieces
before c s = (split_pieces c s).0

-- `s.split_once(c)`
unfoldable pub split_once : ℕ → Str → Option (Str × Str)
split_once c [] = none
split_once c (x ∷ s) =
    if x == c
    then some ([], s)
    else elim (split_once c s) [ none ↦ none | some (a, b) ↦ some (x ∷ a, b) ]

-- `s.rsplit_once(c)`
unfoldable pub rsplit_once : ℕ → Str → Option (Str × Str)
unfolding split_once
rsplit_once c s = elim (split_once c (reverse s)) [
  | none ↦ none
  | some (a, b) ↦ some (reverse b, reverse a)
]

-- `parts.join(sep)`, for a separator of one byte
unfoldable pub join : ℕ → List Str → Str
join c [] = []
join c (p ∷ []) = p
join c (p ∷ q ∷ ps) = p ++ c ∷ join c (q ∷ ps)

-- `s.trim_end_matches(c)`
drop_while : ℕ → Str → Str
drop_while c [] = []
drop_while c (x ∷ s) = if x == c then drop_while c s else x ∷ s

unfoldable pub trim_end_matches : ℕ → Str → Str
unfolding drop_while
trim_end_matches c s = reverse (drop_while c (reverse s))

-- `c.is_ascii_digit()`
unfoldable pub is_digit : ℕ → Bool
is_digit c = leb b'0' c && leb c b'9'

-- `c.is_ascii_hexdigit()`, and the digit's value, `c.to_digit(16)`
unfoldable pub to_hex_digit : ℕ → Option ℕ
unfolding is_digit
to_hex_digit c =
    if is_digit c
    then some (c - b'0')
    else if leb b'a' c && leb c b'f'
    then some (c - b'a' + 10)
    else if leb b'A' c && leb c b'F'
    then some (c - b'A' + 10)
    else none
