-- ===== src/Text/Control.antt =====
-- Control characters, and the number of characters, of a text in UTF-8.
use fire_crow.Prelude.{ℕ, suc, Bool, false, ◌&&◌, ◌||◌, [], ◌∷◌, ◌==◌, leb, if◌then◌else◌}
use fire_crow.Text.{Str}

-- `c.is_control()` at some character: below 32, 127, or from U+0080 to U+009F.
unfoldable pub has_control : Str → Bool
has_control [] = false
has_control (x ∷ []) = leb x 31 || x == 127
has_control (x ∷ y ∷ s) =
    leb x 31 || x == 127 || (x == 0xC2 && leb 0x80 y && leb y 0x9F) || has_control (y ∷ s)

-- `s.chars().count()`: every byte that does not continue a character begins one.
unfoldable pub char_count : Str → ℕ
char_count [] = 0
char_count (x ∷ s) = let rest = char_count s in if leb 0x80 x && leb x 0xBF then rest else suc rest
