-- ===== src/Registry/Coerce.antt =====
-- `_coerce` and `coerce_arguments` of app/tool_registry.py. The schemas in `TOOLS` are dicts.
use underlying_analyzer_rebo.Base.{
  ℕ, String, ◌^◌, Bool, true, false, not, ◌&&◌, Option, none, some, List, [], ◌∷◌, ◌==◌,
  if◌then◌else◌, any_in, keep_if, is_empty,
}
use underlying_analyzer_rebo.Base.Text.{strip, lower, blank, text_in, split}
use underlying_analyzer_rebo.Base.Int.{ℤ, truncate, parse_int, eq_ℤ}
use underlying_analyzer_rebo.Base.Result.{Result, ok, err, ◌>>=◌}
use underlying_analyzer_rebo.Value.{
  Value, null, bool, int, float, str, arr, obj, Fields, no_fields, field,
}
use underlying_analyzer_rebo.Value.Access.{
  get, get_value, put, has_key, truthy, texts, items, as_dict, is_null,
}
use underlying_analyzer_rebo.Value.Show.{Python, str_of}
use underlying_analyzer_rebo.Registry.Spec.{
  ToolSpec, ToolFault, unreadable, missing, not_allowed, not_an_object, crash, required, properties,
}

-- The quanta of 1.0.
unit : ℕ
unit = 2 ^ 1074

-- `int(v)` of a value that is no bool; `none` is `TypeError` or `ValueError`.
unfoldable pub int_of : Value → Option ℤ
unfolding unit
int_of (int n) = some n
int_of (float q) = some (truncate q unit)
int_of (str s) = parse_int s
int_of _ = none

abbrev or_unreadable : Value → Option ℤ → Result ToolFault ℤ
or_unreadable v none = err (unreadable v)
or_unreadable v (some n) = ok n

abbrev or_crash : Option ℤ → Result ToolFault ℤ
or_crash none = err crash
or_crash (some q) = ok q

abbrev pub is_bool : Value → Bool
is_bool (bool b) = true
is_bool _ = false

abbrev pub is_kind : String → Value → Bool
is_kind kind (str s) = s == kind
is_kind kind _ = false

-- `[part.strip() for part in value.split(",")]` without the empty ones.
unfoldable pub parts_of : List String → List String
parts_of [] = []
parts_of (part ∷ parts) =
    let rest = parts_of parts in if blank (strip part) then rest else strip part ∷ rest

module _ (py : Python) where
  -- `float(v)` of a value that is no bool; `OverflowError` is not caught.
  unfoldable pub float_of : Value → Result ToolFault ℤ
  float_of (int n) = or_crash (py.float_of_int n)
  float_of (float q) = ok q
  float_of (str s) = or_unreadable (str s) (py.float_of_text s)
  float_of v = err (unreadable v)

  unfoldable pub as_boolean : Value → Bool
  as_boolean (str s) = text_in (lower (strip s)) ("1" ∷ "true" ∷ "yes" ∷ "on" ∷ [])
  as_boolean v = truthy v

  unfoldable pub as_string : Value → Value
  as_string v = let text = strip (str_of py v) in if blank text then null else str text

  unfoldable pub as_array : Value → Value
  as_array (str s) = arr (texts (parts_of (split b',' s)))
  as_array v = v

  -- `_coerce`
  unfoldable pub coerce : Fields → Value → Result ToolFault Value
  unfolding int_of float_of as_boolean as_string as_array parts_of
  coerce schema null = ok null
  coerce schema v =
      let kind = get_value "type" schema in
      if is_kind "integer" kind && not (is_bool v)
      then (do n ← or_unreadable v (int_of v); ok (int n))
      else if is_kind "number" kind && not (is_bool v)
      then (do q ← float_of v; ok (float q))
      else if is_kind "boolean" kind
      then ok (bool (as_boolean v))
      else if is_kind "string" kind
      then ok (as_string v)
      else if is_kind "array" kind
      then ok (as_array v)
      else ok v

  -- The loop over the arguments: unknown keys and empty values are dropped.
  unfoldable pub clean_from : Fields → Fields → Fields → Result ToolFault Fields
  clean_from props acc no_fields = ok acc
  clean_from props acc (field key raw rest) = elim (get key props) [
    | none ↦ clean_from props acc rest
    | some schema ↦ elim (coerce (as_dict schema) raw) [
      | err fault ↦ err fault
      | ok v ↦ elim (is_null v) [
        | true ↦ clean_from props acc rest
        | false ↦ clean_from props (put key v acc) rest
      ]
    ]
  ]

-- `a == b` where one side stands in an `enum`, which holds texts and integers.
unfoldable pub same_value : Value → Value → Bool
same_value (str s) (str t) = s == t
same_value (int m) (int n) = eq_ℤ m n
same_value _ _ = false

abbrev pub enum_of : String → Fields → List Value
enum_of key props = elim (get_value "enum" (as_dict (get_value key props))) [
  | arr vs ↦ items vs
  | _ ↦ []
]

-- Each path parameter that has an `enum` and a value takes one of its entries.
unfoldable pub check_enums : String → Fields → Fields → List String → Result ToolFault Fields
unfolding same_value
check_enums tool props cleaned [] = ok cleaned
check_enums tool props cleaned (key ∷ path_params) =
    let allowed = enum_of key props in
    let v = get_value key cleaned in
    let rest = check_enums tool props cleaned path_params in
    if not (is_empty allowed) && has_key key cleaned && not (any_in (same_value v) allowed)
    then err (not_allowed tool key allowed v)
    else rest

unfoldable pub check_required : ToolSpec → Fields → Result ToolFault Fields
unfolding check_enums required properties
check_required spec cleaned =
    let absent = keep_if (λ key. not (has_key key cleaned)) (required spec) in
    if is_empty absent
    then check_enums spec.name (properties spec) cleaned spec.path_params
    else err (missing spec.name absent)

unfoldable pub coerce_arguments : Python → ToolSpec → Value → Result ToolFault Fields
unfolding clean_from coerce check_required
coerce_arguments py spec (obj arguments) = do
  cleaned ← clean_from py (properties spec) no_fields arguments
  check_required spec cleaned
coerce_arguments py spec _ = err (not_an_object spec.name)
