-- ===== src/Registry/Request.antt =====
-- `build_request` of app/tool_registry.py.
use underlying_analyzer_rebo.Base.{String, Option, none, some, List, [], ◌∷◌, ◌==◌, if◌then◌else◌}
use underlying_analyzer_rebo.Base.Text.{strip, replace, ◌⧺◌}
use underlying_analyzer_rebo.Base.Result.{Result, ok, err, ◌>>=◌}
use underlying_analyzer_rebo.Value.{Value, Fields, no_fields}
use underlying_analyzer_rebo.Value.Access.{get, without}
use underlying_analyzer_rebo.Value.Show.{Python, str_of}
use underlying_analyzer_rebo.Registry.Spec.{ToolSpec, ToolFault, requires}
use underlying_analyzer_rebo.Registry.Coerce.{coerce_arguments}

pub record Request : Type 0 where
  pub method : String
  pub path : String
  pub body : Option Fields
  pub query : Fields

module _ (py : Python) where
  -- The path parameters leave the arguments and enter the path.
  unfoldable pub fill_path :
      String → List String → String → Fields → Result ToolFault (String × Fields)
  fill_path tool [] path remaining = ok (path, remaining)
  fill_path tool (key ∷ keys) path remaining = elim (get key remaining) [
    | none ↦ err (requires tool key)
    | some v ↦
        fill_path tool keys (replace path ("{" ⧺ key ⧺ "}") (strip (str_of py v)))
          (without key remaining)
  ]

  unfoldable pub build_request : ToolSpec → Value → Result ToolFault Request
  unfolding coerce_arguments fill_path
  build_request spec arguments = do
    cleaned ← coerce_arguments py spec arguments
    filled ← fill_path spec.name spec.path_params spec.path cleaned
    ok (
        if spec.method == "GET"
        then record { method = spec.method; path = filled.0; body = none; query = filled.1 }
        else record {
          method = spec.method;
          path = filled.0;
          body = some filled.1;
          query = no_fields;
        })
