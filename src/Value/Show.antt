-- ===== src/Value/Show.antt =====
-- Python's `str` of a value.
use underlying_analyzer_rebo.Base.{String, true, false, Option}
use underlying_analyzer_rebo.Base.Int.{ℤ, show_int}
use underlying_analyzer_rebo.Value.{Value, null, bool, int, str}

-- What Python's runtime does for floats and for the text of containers.
pub record Python : Type 0 where
  -- `str(v)` of a float, a list or a dict
  pub show : Value → String
  -- `repr(v)`
  pub repr : Value → String
  -- `float(n)`; `none` is `OverflowError`
  pub float_of_int : ℤ → Option ℤ
  -- `float(s)`; `none` is `ValueError`
  pub float_of_text : String → Option ℤ

module _ (py : Python) where
  unfoldable pub str_of : Value → String
  unfolding show_int
  str_of null = "None"
  str_of (bool true) = "True"
  str_of (bool false) = "False"
  str_of (int n) = show_int n
  str_of (str s) = s
  str_of v = py.show v
