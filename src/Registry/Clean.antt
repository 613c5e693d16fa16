-- ===== src/Registry/Clean.antt =====
-- What `coerce_arguments` and `build_request` of app/tool_registry.py let through.
use underlying_analyzer_rebo.Base.{String, ◌≡◌, true, false, not, ◌||◌, some, All, is_empty, any_in}
use underlying_analyzer_rebo.Value.{Value, str, Fields}
use underlying_analyzer_rebo.Value.Access.{get, get_value, has_key, is_null, as_dict}
use underlying_analyzer_rebo.Registry.Spec.{ToolSpec, required, properties}
use underlying_analyzer_rebo.Registry.Coerce.{enum_of, same_value}
use underlying_analyzer_rebo.Registry.Typed.{fits_scalar}

-- A value that the schema of its key declares.
pub record IsDeclared (props : Fields) (key : String) (v : Value) : Type 0 where
  pub schema : Value
  pub listed : get key props ≡ some schema
  pub given : is_null v ≡ false
  pub typed :
      (kind : String) → get_value "type" (as_dict schema) ≡ str kind → fits_scalar kind v ≡ true

abbrev Declares : Fields → Fields → Type 0
Declares props cleaned =
    (key : String) (v : Value) → get key cleaned ≡ some v → IsDeclared props key v

-- A path parameter with an `enum` takes one of its entries.
abbrev IsAllowed : Fields → Fields → String → Type 0
IsAllowed props cleaned key =
    (is_empty (enum_of key props)
      || not (has_key key cleaned)
      || any_in (same_value (get_value key cleaned)) (enum_of key props))
    ≡ true

pub record IsClean (spec : ToolSpec) (cleaned : Fields) : Type 0 where
  pub declared : Declares (properties spec) cleaned
  pub complete : All (λ key. has_key key cleaned ≡ true) (required spec)
  pub allowed : All (IsAllowed (properties spec) cleaned) spec.path_params
