-- ===== src/Registry/Typed.antt =====
-- What the coercion of app/tool_registry.py makes of one argument, and of all.
use underlying_analyzer_rebo.Base.{
  String, ◌≡◌, Bool, true, false, not, ◌||◌, ◌==◌, if◌then◌else◌, arith, eq_iff,
}
use underlying_analyzer_rebo.Base.Text.{blank}
use underlying_analyzer_rebo.Base.Result.{ok}
use underlying_analyzer_rebo.Value.{Value, null, int, float, str, Fields}
use underlying_analyzer_rebo.Value.Access.{get_value, is_null}
use underlying_analyzer_rebo.Value.Show.{Python}
use underlying_analyzer_rebo.Registry.Coerce.{coerce, is_bool}

abbrev is_int : Value → Bool
is_int (int n) = true
is_int _ = false

abbrev is_float : Value → Bool
is_float (float q) = true
is_float _ = false

-- A text with something in it.
abbrev is_written : Value → Bool
is_written (str s) = not (blank s)
is_written _ = false

-- The Python types that a value of a declared type may have after the coercion.
abbrev pub fits_scalar : String → Value → Bool
fits_scalar kind v =
    if kind == "integer"
    then is_int v || is_bool v
    else if kind == "number"
    then is_float v || is_bool v
    else if kind == "boolean"
    then is_bool v
    else if kind == "string"
    then is_written v
    else true

module _ (py : Python) where
  coerce_integer :
      (schema : Fields) (v w : Value)
      → get_value "type" schema ≡ str "integer"
      → coerce py schema v ≡ ok w
      → is_null w ≡ false
      → (is_int w || is_bool w) ≡ true
  unfolding coerce
  coerce_integer schema null w t p n = ground arith
  coerce_integer schema v w t p n = ground arith

  coerce_number :
      (schema : Fields) (v w : Value)
      → get_value "type" schema ≡ str "number"
      → coerce py schema v ≡ ok w
      → is_null w ≡ false
      → (is_float w || is_bool w) ≡ true
  unfolding coerce
  coerce_number schema null w t p n = ground arith
  coerce_number schema v w t p n = ground arith

  coerce_boolean :
      (schema : Fields) (v w : Value)
      → get_value "type" schema ≡ str "boolean"
      → coerce py schema v ≡ ok w
      → is_null w ≡ false
      → (is_bool w) ≡ true
  unfolding coerce
  coerce_boolean schema null w t p n = ground arith
  coerce_boolean schema v w t p n = ground arith

  coerce_string :
      (schema : Fields) (v w : Value)
      → get_value "type" schema ≡ str "string"
      → coerce py schema v ≡ ok w
      → is_null w ≡ false
      → (is_written w) ≡ true
  unfolding coerce
  coerce_string schema null w t p n = ground arith
  coerce_string schema v w t p n = ground arith

  -- An argument that is kept has a type that fits the declared one: a declared integer is an integer
  -- or a bool, a number is a float or a bool, a boolean is a bool, and a string is a text with
  -- something in it.
  pub coerce-fits :
      (schema : Fields) (kind : String) (v w : Value)
      → get_value "type" schema ≡ str kind
      → coerce py schema v ≡ ok w
      → is_null w ≡ false
      → fits_scalar kind w ≡ true
  coerce-fits schema kind v w t p n = ground (
    arith,
    eq_iff kind "integer",
    eq_iff kind "number",
    eq_iff kind "boolean",
    eq_iff kind "string",
    coerce_integer schema v w,
    coerce_number schema v w,
    coerce_boolean schema v w,
    coerce_string schema v w,
  )
