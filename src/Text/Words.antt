-- ===== src/Text/Words.antt =====
-- Words, characters and places of a text in UTF-8.
use fire_crow.Prelude.{
  ℕ, suc, Bool, true, ◌&&◌, ◌||◌, not, Option, none, some, List, [], ◌∷◌, ◌++◌, if◌then◌else◌, leb,
  length, is_empty, take, drop, Run, returns, panics, ltb,
}
use fire_crow.Text.{Str, starts_with, split}
use fire_crow.Text.Trim.{is_blank, is_blank_pair, is_blank_triple, trim_start}

-- What stands before the first white space.
unfoldable pub before_blank : Str → Str
before_blank [] = []
before_blank (x ∷ []) = if is_blank x then [] else x ∷ []
before_blank (x ∷ y ∷ []) =
    let rest = before_blank (y ∷ []) in if is_blank x || is_blank_pair x y then [] else x ∷ rest
before_blank (x ∷ y ∷ z ∷ s) =
    let rest = before_blank (y ∷ z ∷ s) in
    if is_blank x || is_blank_pair x y || is_blank_triple x y z then [] else x ∷ rest

-- `s.split_whitespace().next().unwrap_or("")`
unfoldable pub first_word : Str → Str
unfolding before_blank
first_word s = before_blank (trim_start s)

-- A byte that continues a character.
unfoldable pub continues : ℕ → Bool
continues x = leb 0x80 x && leb x 0xBF

-- The characters of a text, each by its bytes, after the first byte of one.
unfoldable pub chars_from : Str → Str → List Str
unfolding continues
chars_from c [] = c ∷ []
chars_from c (x ∷ s) =
    let same = chars_from (c ++ x ∷ []) s in
    let next = chars_from (x ∷ []) s in if continues x then same else c ∷ next

-- `s.chars()`
unfoldable pub chars : Str → List Str
unfolding chars_from
chars [] = []
chars (x ∷ s) = chars_from (x ∷ []) s

abbrev one_on : Option ℕ → Option ℕ
one_on none = none
one_on (some n) = some (suc n)

-- `s.find(p)`
unfoldable pub find_text : Str → Str → Option ℕ
find_text [] p = if starts_with [] p then some 0 else none
find_text (x ∷ s) p =
    let rest = find_text s p in if starts_with (x ∷ s) p then some 0 else one_on rest

-- No character is split before this text.
unfoldable pub begins_char : Str → Bool
unfolding continues
begins_char [] = true
begins_char (x ∷ s) = not (continues x)

-- `&s[start..end]`, a panic where the start or the end is out of the text or within a character.
unfoldable pub slice : ℕ → ℕ → Str → Run Str
unfolding begins_char
slice start end s =
    if ltb end start || ltb (length s) end
    then panics
    else if begins_char (drop start s) && begins_char (drop end s)
    then returns (drop start (take end s))
    else panics

-- Every white space made one space.
unfoldable pub blank_out : Str → Str
blank_out [] = []
blank_out (x ∷ []) = if is_blank x then b' ' ∷ [] else x ∷ []
blank_out (x ∷ y ∷ []) =
    let rest = blank_out (y ∷ []) in
    if is_blank x then b' ' ∷ rest else if is_blank_pair x y then b' ' ∷ [] else x ∷ rest
blank_out (x ∷ y ∷ z ∷ s) =
    let one = blank_out (y ∷ z ∷ s) in
    let two = blank_out (z ∷ s) in
    let three = blank_out s in
    if is_blank x
    then b' ' ∷ one
    else if is_blank_pair x y
    then b' ' ∷ two
    else if is_blank_triple x y z
    then b' ' ∷ three
    else x ∷ one

unfoldable pub filled : List Str → List Str
filled [] = []
filled (s ∷ ss) = let rest = filled ss in if is_empty s then rest else s ∷ rest

-- `s.split_whitespace()`
unfoldable pub words : Str → List Str
unfolding blank_out filled
words s = filled (split b' ' (blank_out s))
