-- ===== src/Json.antt =====
-- `serde_json::Value`, as its documentation describes the type: the six kinds of JSON value, and
-- the accessors the crates call. An object is its entries in the order of the map's iteration.
-- Parsing and printing are not defined here: they are the parameter `Codec`.
use mcptracer.Common.{
  ℕ, ℤ, pos, negsuc, String, Bool, true, false, Option, none, some, str_eq, leb, if◌then◌else◌,
}

-- An integer, or a float by its 64-bit pattern.
pub data Number : Type 0 where
  int : ℤ → Number
  float : ℕ → Number

mutual
  pub data Value : Type 0 where
    null : Value
    bool : Bool → Value
    number : Number → Value
    string : String → Value
    array : Items → Value
    object : Fields → Value

  pub data Items : Type 0 where
    nil : Items
    cons : Value → Items → Items

  pub data Fields : Type 0 where
    end : Fields
    field : String → Value → Fields → Fields

-- The text of a payload and its value: `serde_json::from_str` and `to_string`.
pub record Codec : Type 0 where
  pub parse : String → Option Value
  pub print : Value → String

unfoldable pub lookup : String → Fields → Option Value
lookup k end = none
lookup k (field j v fs) = if str_eq j k then some v else lookup k fs

unfoldable pub get : Value → String → Option Value
unfolding lookup
get (object fs) k = lookup k fs
get v k = none

-- `o?.get(k)`; also the next token of a JSON pointer whose tokens are no array index.
abbrev pub get? : Option Value → String → Option Value
get? none k = none
get? (some v) k = get v k

abbrev pub as_str : Value → Option String
as_str (string s) = some s
as_str _ = none

abbrev pub as_str? : Option Value → Option String
as_str? none = none
as_str? (some v) = as_str v

abbrev pub as_bool? : Option Value → Option Bool
as_bool? none = none
as_bool? (some (bool b)) = some b
as_bool? (some _) = none

-- An integer that fits `i64`.
abbrev pub as_i64 : Value → Option ℤ
as_i64 (number (int (pos n))) = if leb n 9223372036854775807 then some (pos n) else none
as_i64 (number (int (negsuc n))) = some (negsuc n)
as_i64 _ = none

abbrev pub as_i64? : Option Value → Option ℤ
as_i64? none = none
as_i64? (some v) = as_i64 v

abbrev pub is_string : Value → Bool
is_string (string s) = true
is_string _ = false

abbrev pub is_number : Value → Bool
is_number (number n) = true
is_number _ = false

abbrev pub is_object : Value → Bool
is_object (object fs) = true
is_object _ = false

abbrev pub is_boolean : Value → Bool
is_boolean (bool b) = true
is_boolean _ = false

abbrev pub is_array : Value → Bool
is_array (array xs) = true
is_array _ = false

abbrev pub is_some {ℓ} : {A : Type ℓ} → Option A → Bool
is_some none = false
is_some (some a) = true

-- `== Some(true)`
abbrev pub is_true : Option Bool → Bool
is_true none = false
is_true (some b) = b
