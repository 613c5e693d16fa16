-- ===== src/Registry/Examples.antt =====
-- Calls of a tool of app/tool_registry.py that takes a path parameter.
use underlying_analyzer_rebo.Base.{String, ◌≡◌, refl, true, none, some, [], ◌∷◌}
use underlying_analyzer_rebo.Base.Text.{strip, replace, parse_digits}
use underlying_analyzer_rebo.Base.Int.{pos, parse_int}
use underlying_analyzer_rebo.Base.Result.{ok}
use underlying_analyzer_rebo.Value.{Value, int, str, arr, obj, Fields, no_fields, field}
use underlying_analyzer_rebo.Value.Access.{get, put, without, texts}
use underlying_analyzer_rebo.Value.Show.{Python, str_of}
use underlying_analyzer_rebo.Registry.Spec.{ToolSpec}
use underlying_analyzer_rebo.Registry.Coerce.{coerce, coerce_arguments}
use underlying_analyzer_rebo.Registry.Request.{Request, build_request}
use underlying_analyzer_rebo.Registry.Routing.{IsRouted, build_request-IsRouted}
use underlying_analyzer_rebo.Registry.Typed.{fits_scalar, coerce-fits}

abbrev runtime : Python
runtime = record {
  show = λ v. "";
  repr = λ v. "";
  float_of_int = λ n. some n;
  float_of_text = λ s. none;
}

abbrev typed : String → Value
typed kind = obj (field "type" (str kind) no_fields)

abbrev chart_type : Value
chart_type =
    obj (
      field "type" (str "string") (field "enum" (arr (texts ("auction" ∷ "ridge" ∷ []))) no_fields))

abbrev render_chart : ToolSpec
render_chart = record {
  name = "render_chart";
  title = "Chart";
  group = "charts";
  summary = "Renders a chart.";
  when_to_use = "For one ticker.";
  method = "POST";
  path = "/api/charts/{chart_type}";
  input_schema =
      field "properties"
        (obj (
          field "chart_type" chart_type
            (field "ticker" (typed "string") (field "max_results" (typed "integer") no_fields))))
        (field "required" (arr (texts ("chart_type" ∷ "ticker" ∷ []))) no_fields);
  returns = "A chart.";
  path_params = "chart_type" ∷ [];
  produces_images = true;
  cost = "slow";
  agent = true;
  mcp = true;
  aliases = [];
}

abbrev asked : Value
asked = obj (
    field "ticker" (str " AAPL ") (
      field "chart_type" (str "ridge")
        (field "max_results" (str "5") (field "color" (str "red") no_fields))))

abbrev cleaned : Fields
cleaned =
    field "ticker" (str "AAPL")
      (field "chart_type" (str "ridge") (field "max_results" (int (pos 5)) no_fields))

abbrev built : Request
built = record {
  method = "POST";
  path = "/api/charts/ridge";
  body = some (field "ticker" (str "AAPL") (field "max_results" (int (pos 5)) no_fields));
  query = no_fields;
}

build_result : build_request runtime render_chart asked ≡ ok built
unfolding build_request coerce_arguments strip get put without str_of parse_int parse_digits replace
build_result = refl

build_request-IsRouted_example :
    (given : Fields) × (coerce_arguments runtime render_chart asked ≡ ok given)
    × IsRouted runtime render_chart given built
build_request-IsRouted_example =
    build_request-IsRouted runtime render_chart asked built build_result

five : coerce runtime (field "type" (str "integer") no_fields) (str "5") ≡ ok (int (pos 5))
unfolding coerce strip get parse_int parse_digits
five = refl

coerce-fits_example : fits_scalar "integer" (int (pos 5)) ≡ true
unfolding get
coerce-fits_example =
    coerce-fits runtime (field "type" (str "integer") no_fields) "integer" (str "5") (int (pos 5))
      refl five refl
