-- ===== src/Json.antt =====
-- `serde_json::Value`, the data that the canonicalizer walks. The type belongs to the serde_json
-- crate; these are its documented cases. A map is its list of members in the order in which the
-- map yields them.
use hammurabi_handoff.Prelude.{
  ℕ, String, Bool, Option, none, some, List, [], ◌∷◌, str_eq, if◌then◌else◌,
}
use hammurabi_handoff.Prelude.Int.{ℤ, pos, negsuc}

-- `serde_json::Number`: an unsigned integer, a negative integer -(n + 1), or a float, here by the
-- text that its `Display` prints.
pub data Number : Type 0 where
  pos_int : ℕ → Number
  neg_int : ℕ → Number
  float : String → Number

mutual
  pub data Value : Type 0 where
    null : Value
    bool : Bool → Value
    number : Number → Value
    string : String → Value
    array : Items → Value
    object : Fields → Value

  pub data Items : Type 0 where
    nil : Items
    cons : Value → Items → Items

  pub data Fields : Type 0 where
    end : Fields
    field : String → Value → Fields → Fields

-- The fields of an object, in the order in which they are written.
abbrev pub fields : List (String × Value) → Fields
fields [] = end
fields ((k, v) ∷ m) = field k v (fields m)

-- `map.insert(k, v)`: the value of a key that is there is replaced.
unfoldable pub insert_field : String → Value → Fields → Fields
insert_field k v end = field k v end
insert_field k v (field j w fs) =
    if str_eq j k then field k v fs else field j w (insert_field k v fs)

-- `Value::from(i64)`: serde_json holds a negative integer apart.
abbrev pub integer : ℤ → Value
integer (pos n) = number (pos_int n)
integer (negsuc n) = number (neg_int n)

-- `Value::from(u64)`.
abbrev pub natural : ℕ → Value
natural n = number (pos_int n)

-- A list of values as an array's items.
abbrev pub items : List Value → Items
items [] = nil
items (v ∷ vs) = cons v (items vs)

-- `value.get(key)`, which looks only into an object, and `Value::as_str`.
unfoldable pub find_field : String → Fields → Option Value
find_field k end = none
find_field k (field j v fs) = if str_eq j k then some v else find_field k fs

unfoldable pub get_field : String → Value → Option Value
unfolding find_field
get_field k (object fs) = find_field k fs
get_field k _ = none

abbrev pub as_str : Value → Option String
as_str (string s) = some s
as_str _ = none
