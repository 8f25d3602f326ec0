-- ===== src/Json.antt =====
-- JSON values as `serde_json::Value` has them. An object's fields are a list of the block; `fields`
-- and `to_fields` take them to and from a dictionary.
use topdesk_mcp_rs.Shared.{ℕ, String, Bool, Option, none, some, List, [], ◌∷◌}
use topdesk_mcp_rs.Shared.{◌≡◌, refl, ap}
use topdesk_mcp_rs.Shared.Dict
use topdesk_mcp_rs.Shared.Dict.{Dict}

-- A number is a u64, a negative i64 (its magnitude), or a float (its text).
pub data Number : Type 0 where
  pos_int : ℕ → Number
  neg_int : ℕ → Number
  float : String → Number

mutual
  pub data Value : Type 0 where
    null : Value
    bool : Bool → Value
    number : Number → Value
    string : String → Value
    array : Items → Value
    object : Fields → Value

  pub data Items : Type 0 where
    nil : Items
    cons : Value → Items → Items

  pub data Fields : Type 0 where
    end : Fields
    field : String → Value → Fields → Fields

abbrev pub items : Items → List Value
items nil = []
items (cons v vs) = v ∷ items vs

abbrev pub fields : Fields → Dict Value
fields end = []
fields (field k v fs) = (k, v) ∷ fields fs

abbrev pub to_items : List Value → Items
to_items [] = nil
to_items (v ∷ vs) = cons v (to_items vs)

abbrev pub to_fields : Dict Value → Fields
to_fields [] = end
to_fields ((k, v) ∷ m) = field k v (to_fields m)

abbrev pub as_str : Value → Option String
as_str (string s) = some s
as_str _ = none

abbrev pub as_array : Value → Option (List Value)
as_array (array vs) = some (items vs)
as_array _ = none

abbrev pub as_object : Value → Option (Dict Value)
as_object (object fs) = some (fields fs)
as_object _ = none

-- `value.get(key)`: none unless the value is an object.
abbrev pub member : String → Value → Option Value
member k (object fs) = Dict.get k (fields fs)
member k _ = none

-- `{}`
abbrev pub empty_object : Value
empty_object = object end

pub items-to_items : (vs : List Value) → items (to_items vs) ≡ vs
items-to_items [] = refl
items-to_items (v ∷ vs) = ap (◌∷◌ v) (items-to_items vs)

pub fields-to_fields : (m : Dict Value) → fields (to_fields m) ≡ m
fields-to_fields [] = refl
fields-to_fields ((k, v) ∷ m) = ap (◌∷◌ (k, v)) (fields-to_fields m)
