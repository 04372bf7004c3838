-- ===== src/Json.antt =====
-- Values of `serde_json`. An object is a map with its keys in order; a number is kept as its text.
use previously_on.Prelude.{Bool, String, Option, none, some, List, [], ◌∷◌, Ordering, text_cmp}

mutual
  pub data Value : Type 0 where
    null : Value
    boolean : Bool → Value
    number : String → Value
    string : String → Value
    array : Items → Value
    object : Fields → Value

  pub data Items : Type 0 where
    nil : Items
    item : Value → Items → Items

  pub data Fields : Type 0 where
    end : Fields
    field : String → Value → Fields → Fields

-- The keys of an object, in order.
abbrev pub keys : Fields → List String
keys end = []
keys (field k v rest) = k ∷ keys rest

-- `Map::get`.
unfoldable pub get : String → Fields → Option Value
get key end = none
get key (field k v rest) =
    let later = get key rest in elim (text_cmp key k) [ Ordering.eq ↦ some v | _ ↦ later ]

-- `Map::insert`.
unfoldable pub insert : String → Value → Fields → Fields
insert key value end = field key value end
insert key value (field k v rest) =
    let later = insert key value rest in
    elim (text_cmp key k) [
      | Ordering.lt ↦ field key value (field k v rest)
      | Ordering.eq ↦ field key value rest
      | Ordering.gt ↦ field k v later
    ]

-- `Value::as_str`.
abbrev pub as_str : Value → Option String
as_str (string s) = some s
as_str _ = none

-- `value.get(key)`: only an object has fields.
abbrev pub get_field : String → Value → Option Value
get_field key (object fields) = get key fields
get_field key _ = none

-- `value.get(key).and_then(Value::as_str)`.
abbrev pub get_str : String → Value → Option String
get_str key value = elim (get_field key value) [ none ↦ none | some v ↦ as_str v ]
