-- ===== src/Authz/Base64/Encode.antt =====
-- Base64 as RFC 4648 defines it: the reference that the decoder is held to.
use fire_crow.Prelude.{
  ℕ, zero, suc, ◌+◌, ◌-◌, ◌*◌, ◌/◌, ◌%◌, ◌<◌, ◌≡◌, ◌≢◌, refl, Bool, true, false, ◌&&◌, [], ◌∷◌, ltb,
  ==_iff, ◌==◌, if◌then◌else◌, arith, some,
}
use fire_crow.Text.{Str}
use fire_crow.Authz.Base64.{table, is_whitespace}
use Prim.Native.Nat.{bit_or}

-- The character of a sextet.
unfoldable pub alphabet : ℕ → ℕ
alphabet n =
    if ltb n 26
    then n + b'A'
    else if ltb n 52
    then n - 26 + b'a'
    else if ltb n 62
    then n - 52 + b'0'
    else if n == 62
    then b'+'
    else b'/'

unfoldable pub encode : Str → Str
encode [] = []
encode (x ∷ []) = alphabet (x / 4) ∷ alphabet ((x % 4) * 16) ∷ b'=' ∷ b'=' ∷ []
encode (x ∷ y ∷ []) =
    alphabet (x / 4) ∷ alphabet ((x % 4) * 16 + y / 16) ∷ alphabet ((y % 16) * 4) ∷ b'=' ∷ []
encode (x ∷ y ∷ z ∷ s) =
    alphabet (x / 4)
    ∷ alphabet ((x % 4) * 16 + y / 16)
    ∷ alphabet ((y % 16) * 4 + z / 64)
    ∷ alphabet (z % 64)
    ∷ encode s

pub table-alphabet : (n : ℕ) → n < 64 → table (alphabet n) ≡ some n
unfolding table alphabet
table-alphabet n h = ground arith

pub alphabet-ne-pad : (n : ℕ) → alphabet n ≢ b'='
unfolding alphabet
alphabet-ne-pad n = ground arith

pub alphabet-visible : (n : ℕ) → is_whitespace (alphabet n) ≡ false
unfolding alphabet is_whitespace
alphabet-visible n = ground arith

-- Whether a test passes at each pair of a number below `m` and one below `n`.
row_passes : (ℕ → Bool) → ℕ → Bool
row_passes test zero = true
row_passes test (suc k) = row_passes test k && test k

grid_passes : (ℕ → ℕ → Bool) → ℕ → ℕ → Bool
grid_passes test zero n = true
grid_passes test (suc m) n = grid_passes test m n && row_passes (test m) n

at_row : (test : ℕ → Bool) (k i : ℕ) → i < k → row_passes test k ≡ true → test i ≡ true
unfolding row_passes
at_row test zero i below passes = absurd (omega arith)
at_row test (suc k) i below passes = ground (arith, at_row test k i)

at_grid :
    (test : ℕ → ℕ → Bool) (m n i j : ℕ)
    → i < m
    → j < n
    → grid_passes test m n ≡ true
    → test i j ≡ true
unfolding grid_passes
at_grid test zero n i j i_below j_below passes = absurd (omega arith)
at_grid test (suc m) n i j i_below j_below passes =
    ground (arith, at_grid test m n i j, at_row (test i) n j)

first_table : grid_passes (λ a b. bit_or ((a * 4) % 256) b == a * 4 + b) 64 4 ≡ true
unfolding grid_passes row_passes
first_table = refl

second_table : grid_passes (λ a b. bit_or ((a * 16) % 256) b == a * 16 + b) 16 16 ≡ true
unfolding grid_passes row_passes
second_table = refl

third_table : grid_passes (λ a b. bit_or ((a * 64) % 256) b == a * 64 + b) 4 64 ≡ true
unfolding grid_passes row_passes
third_table = refl

-- The three pairs of bit fields that a byte is put together from.
pub first_byte : (a b : ℕ) → a < 64 → b < 4 → bit_or ((a * 4) % 256) b ≡ a * 4 + b
first_byte a b h k = (==_iff _ _).0 (at_grid _ 64 4 a b h k first_table)

pub second_byte : (a b : ℕ) → a < 16 → b < 16 → bit_or ((a * 16) % 256) b ≡ a * 16 + b
second_byte a b h k = (==_iff _ _).0 (at_grid _ 16 16 a b h k second_table)

pub third_byte : (a b : ℕ) → a < 4 → b < 64 → bit_or ((a * 64) % 256) b ≡ a * 64 + b
third_byte a b h k = (==_iff _ _).0 (at_grid _ 4 64 a b h k third_table)
