-- ===== src/Json.antt =====
-- `serde_json::Value`, as its documentation gives it: the type that `serde_json` parses a text
-- into. An object is the list of its entries, in the order of iteration, each key once. The parser
-- itself is a parameter of what calls it.
use fire_crow.Prelude.{ℕ, ◌^◌, ltb, Bool, Option, none, some, List, [], ◌∷◌, if◌then◌else◌}
use fire_crow.Text.Decimal.{ℤ, pos, negsuc}
use fire_crow.Text.{Str, str_eq}

-- `serde_json::Number`: a `u64`, a negative `i64`, -(n + 1), or a float by its bits.
pub data Number : Type 0 where
  pos_int neg_int float : ℕ → Number

mutual
  pub data Value : Type 0 where
    null : Value
    bool : Bool → Value
    number : Number → Value
    string : Str → Value
    array : Values → Value
    object : Entries → Value

  pub data Values : Type 0 where
    nil : Values
    cons : Value → Values → Values

  pub data Entries : Type 0 where
    end : Entries
    entry : Str → Value → Entries → Entries

abbrev pub items : Values → List Value
items nil = []
items (cons v vs) = v ∷ items vs

abbrev pub pairs : Entries → List (Str × Value)
pairs end = []
pairs (entry k v es) = (k, v) ∷ pairs es

-- `object.get(key)`
unfoldable pub get : List (Str × Value) → Str → Option Value
get [] key = none
get ((k, v) ∷ m) key = if str_eq k key then some v else get m key

abbrev pub as_object : Value → Option (List (Str × Value))
as_object (object es) = some (pairs es)
as_object _ = none

abbrev pub as_array : Value → Option (List Value)
as_array (array vs) = some (items vs)
as_array _ = none

abbrev pub as_str : Value → Option Str
as_str (string s) = some s
as_str _ = none

abbrev pub as_bool : Value → Option Bool
as_bool (bool b) = some b
as_bool _ = none

abbrev pub as_u64 : Value → Option ℕ
as_u64 (number (pos_int n)) = some n
as_u64 _ = none

-- `value.as_i64()`: a `u64` above the largest `i64` has none.
unfoldable pub as_i64 : Value → Option ℤ
as_i64 (number (pos_int n)) = if ltb n (2 ^ 63) then some (pos n) else none
as_i64 (number (neg_int n)) = some (negsuc n)
as_i64 _ = none

-- `json!(n)`
unfoldable pub json_int : ℤ → Value
json_int (pos n) = number (pos_int n)
json_int (negsuc n) = number (neg_int n)
