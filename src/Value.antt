-- ===== src/Value.antt =====
-- The JSON values that the Python code passes around, as `json.loads` gives them. A float is finite
-- and is the number of quanta of 2 ^ -1074 in it, of which every finite double is a whole number.
-- A `dict` is the list of its entries in insertion order.
pub mod Access
pub mod Show
use underlying_analyzer_rebo.Base.{String, Bool}
use underlying_analyzer_rebo.Base.Int.{ℤ}

mutual
  pub data Value : Type 0 where
    null : Value
    bool : Bool → Value
    int : ℤ → Value
    float : ℤ → Value
    str : String → Value
    arr : Items → Value
    obj : Fields → Value

  -- The entries of a `dict`, and the elements of a `list`.
  pub data Fields : Type 0 where
    no_fields : Fields
    field : (key : String) (value : Value) (rest : Fields) → Fields

  pub data Items : Type 0 where
    no_items : Items
    item : (value : Value) (rest : Items) → Items
