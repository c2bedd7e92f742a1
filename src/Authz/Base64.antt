-- ===== src/Authz/Base64.antt =====
-- `b64_decode` of docker-authz-plugin/src/lib.rs: strict base64.
pub mod Encode
pub mod RoundTrip
use Prim.Native.Nat.{bit_or}
use fire_crow.Prelude.{
  ℕ, ◌+◌, ◌-◌, ◌*◌, ◌/◌, ◌%◌, suc, Bool, true, false, not, ◌&&◌, ◌||◌, Option, none, some, [], ◌∷◌,
  ◌++◌, ◌==◌, leb, ltb, if◌then◌else◌, length, drop, all, is_empty, ◌>>=◌,
}
use fire_crow.Text.{Str}

-- `u8::is_ascii_whitespace`
unfoldable pub is_whitespace : ℕ → Bool
is_whitespace c = c == 0x20 || c == 0x09 || c == 0x0A || c == 0x0C || c == 0x0D

-- `table`
unfoldable pub table : ℕ → Option ℕ
table c =
    if leb b'A' c && leb c b'Z'
    then some (c - b'A')
    else if leb b'a' c && leb c b'z'
    then some (c - b'a' + 26)
    else if leb b'0' c && leb c b'9'
    then some (c - b'0' + 52)
    else if c == b'+'
    then some 62
    else if c == b'/'
    then some 63
    else none

unfoldable pub strip_whitespace : Str → Str
strip_whitespace [] = []
strip_whitespace (x ∷ s) =
    let rest = strip_whitespace s in if is_whitespace x then rest else x ∷ rest

-- `bytes.iter().position(|&b| b == b'=')`
unfoldable pub position : ℕ → Str → Option ℕ
position c [] = none
position c (x ∷ s) =
    if x == c then some 0 else elim (position c s) [ none ↦ none | some i ↦ some (suc i) ]

-- The checks on where the padding stands, for the bytes from the first `=` on.
unfoldable pub padding_ok : Str → Bool
padding_ok bytes = elim (position b'=' bytes) [
  | none ↦ true
  | some pos ↦
      not (ltb pos (length bytes - 2))
      && all (λ b. b == b'=') (drop pos bytes)
      && not (ltb 2 (length bytes - pos))
]

abbrev pub starts_padded : Str → Bool
starts_padded (a ∷ b ∷ s) = a == b'=' || b == b'='
starts_padded _ = false

-- `(c, d, n)`: the last two sextets of a quantum, and the number of bytes that it holds.
unfoldable pub last_sextets : Bool → ℕ → ℕ → Option (ℕ × ℕ × ℕ)
last_sextets last c d =
    if last && c == b'=' && d == b'='
    then some (0, 0, 1)
    else if last && d == b'='
    then (do x ← table c; some (x, 0, 2))
    else if not (c == b'=') && not (d == b'=')
    then (do x ← table c; y ← table d; some (x, y, 3))
    else none

-- The bytes of a quantum; a shift of a `u8` to the left drops the bits that fall out.
unfoldable pub quantum : ℕ → ℕ → ℕ × ℕ × ℕ → Str
quantum a b (c, d, n) =
    bit_or ((a * 4) % 256) (b / 16)
    ∷ ((if leb 2 n then bit_or ((b * 16) % 256) (c / 4) ∷ [] else [])
        ++ (if leb 3 n then bit_or ((c * 64) % 256) d ∷ [] else []))

-- The loop over `bytes.chunks(4)`; the length is a multiple of 4 here.
unfoldable pub quanta : Str → Option Str
quanta (a ∷ b ∷ c ∷ d ∷ rest) = do
  x ← table a
  y ← table b
  others ← last_sextets (is_empty rest) c d
  more ← quanta rest
  some (quantum x y others ++ more)
quanta [] = some []
quanta _ = none

unfoldable pub b64_decode : Str → Option Str
b64_decode s =
    let bytes = strip_whitespace s in
    if is_empty bytes || not (length bytes % 4 == 0)
    then none
    else if starts_padded bytes
    then none
    else if padding_ok bytes
    then quanta bytes
    else none
