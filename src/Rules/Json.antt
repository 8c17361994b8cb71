-- ===== src/Rules/Json.antt =====
-- The values of serde_json: what the engine reads of a payload. An object is its fields in order.
use flo.Base.{Bool, Option, none, some, Str, str_eq, if◌then◌else◌}
use flo.Rules.Floats.{Floats}

mutual
  pub data Value (F : Floats) : Type 0 where
    null : Value F
    bool : Bool → Value F
    number : F.Number → Value F
    string : Str → Value F
    array : Items F → Value F
    object : Fields F → Value F

  pub data Items (F : Floats) : Type 0 where
    nil : Items F
    cons : Value F → Items F → Items F

  pub data Fields (F : Floats) : Type 0 where
    end : Fields F
    field : Str → Value F → Fields F → Fields F

module _ {F : Floats} where
  unfoldable pub find_field : Str → Fields F → Option (Value F)
  find_field name end = none
  find_field name (field k v fs) = if str_eq k name then some v else find_field name fs

  -- `get(name)`: a field of an object, and nothing of another value.
  unfoldable pub get : Str → Value F → Option (Value F)
  unfolding find_field
  get name (object fs) = find_field name fs
  get name _ = none

  unfoldable pub as_str : Value F → Option Str
  as_str (string s) = some s
  as_str _ = none
