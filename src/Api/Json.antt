-- ===== src/Api/Json.antt =====
-- `serde_json::Value`, as the handlers look into it (client/src/api/handlers.rs). An object is the
-- list of its fields; a parsed one has no key twice.
use segmented_memory_storage.Common.{ℕ, Bool, Option, none, some, List, [], ◌∷◌, if◌then◌else◌}
use segmented_memory_storage.Common.Texts.{Text, text_eq}

-- A number is one of 64 bits without a sign, a negative one, or a float by its bits.
pub data Number : Type 0 where
  pos_int neg_int float : ℕ → Number

mutual
  pub data Value : Type 0 where
    null : Value
    bool : Bool → Value
    number : Number → Value
    string : Text → Value
    array : Items → Value
    object : Fields → Value

  pub data Items : Type 0 where
    nil : Items
    item : Value → Items → Items

  pub data Fields : Type 0 where
    end : Fields
    field : Text → Value → Fields → Fields

unfoldable pub get_field : Text → Fields → Option Value
get_field key end = none
get_field key (field k v fields) = if text_eq key k then some v else get_field key fields

-- `Value::get`, of a key.
unfoldable pub get : Text → Value → Option Value
get key (object fields) = get_field key fields
get key null = none
get key (bool b) = none
get key (number n) = none
get key (string s) = none
get key (array items) = none

unfoldable pub as_u64 : Value → Option ℕ
as_u64 (number (pos_int n)) = some n
as_u64 (number (neg_int n)) = none
as_u64 (number (float n)) = none
as_u64 null = none
as_u64 (bool b) = none
as_u64 (string s) = none
as_u64 (array items) = none
as_u64 (object fields) = none

unfoldable pub as_str : Value → Option Text
as_str (string s) = some s
as_str null = none
as_str (bool b) = none
as_str (number n) = none
as_str (array items) = none
as_str (object fields) = none

-- `serde_json::from_value::<Vec<String>>`
unfoldable pub strings_in : Items → Option (List Text)
strings_in nil = some []
strings_in (item v items) = elim (as_str v) [
  | none ↦ none
  | some s ↦ elim (strings_in items) [ none ↦ none | some ss ↦ some (s ∷ ss) ]
]

unfoldable pub as_strings : Value → Option (List Text)
as_strings (array items) = strings_in items
as_strings null = none
as_strings (bool b) = none
as_strings (number n) = none
as_strings (string s) = none
as_strings (object fields) = none

-- What `json!` makes of a number and of a list.
abbrev pub num : ℕ → Value
num n = number (pos_int n)

unfoldable pub values : List Value → Items
values [] = nil
values (v ∷ vs) = item v (values vs)

-- `json!({key: v})`
abbrev pub one : Text → Value → Value
one key v = object (field key v end)
