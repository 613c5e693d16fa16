-- ===== src/Executor/Examples.antt =====
-- A call of a tool whose route answers with an image, as app/tool_executor.py handles it.
use underlying_analyzer_rebo.Base.{String, ◌≡◌, refl, true, false, none, some, [], ◌∷◌, arith}
use underlying_analyzer_rebo.Base.Text.{◌⧺◌, show_nat, text_in}
use underlying_analyzer_rebo.Base.Result.{ok}
use underlying_analyzer_rebo.Value.{Value, str, arr, obj, no_items, item, no_fields, field}
use underlying_analyzer_rebo.Value.Access.{get, put}
use underlying_analyzer_rebo.Value.Show.{Python}
use underlying_analyzer_rebo.Registry.Spec.{ToolSpec}
use underlying_analyzer_rebo.Executor.Compact.{compact}
use underlying_analyzer_rebo.Executor.Compact.Bounds.{IsWithin, compact-IsWithin}
use underlying_analyzer_rebo.Executor.Artifacts.{extract, image_key, is_dropped, artifact_of}
use underlying_analyzer_rebo.Executor.Artifacts.NoImage.{HasNoImage, extract-HasNoImage}
use underlying_analyzer_rebo.Executor.Artifacts.Numbers.{AreNumbered, extract-AreNumbered}
use underlying_analyzer_rebo.Executor.Runtime.{Runtime}
use underlying_analyzer_rebo.Executor.View.{agent}
use underlying_analyzer_rebo.Executor.Run.{execute_tool}
use underlying_analyzer_rebo.Executor.Run.Outcome.{IsHandled, execute_tool-IsHandled}

-- A text of 640 characters.
abbrev pub image : String
image =
    let ten : String = "iVBORw0KGg" in
    let eighty = ten ⧺ ten ⧺ ten ⧺ ten ⧺ ten ⧺ ten ⧺ ten ⧺ ten in
    eighty ⧺ eighty ⧺ eighty ⧺ eighty ⧺ eighty ⧺ eighty ⧺ eighty ⧺ eighty

abbrev answer : Value
answer = obj (
    field "ticker" (str "AAPL") (
      field "chart" (obj (field "mime" (str "image/png") (field "data" (str image) no_fields)))
        no_fields))

abbrev python : Python
python = record {
  show = λ v. "";
  repr = λ v. "";
  float_of_int = λ n. some n;
  float_of_text = λ s. none;
}

abbrev pub runtime : Runtime
runtime = record {
  python = python;
  open_route = λ method url body. ok (record { json = some answer; text = ""; status = 200 });
  urlencode = λ query. "";
  dumps = λ v. "";
  conversion_error = λ v. "";
}

abbrev pub get_chart : ToolSpec
get_chart = record {
  name = "get_chart";
  title = "Chart";
  group = "charts";
  summary = "Renders a chart.";
  when_to_use = "For one ticker.";
  method = "GET";
  path = "/api/chart";
  input_schema = no_fields;
  returns = "A chart.";
  path_params = [];
  produces_images = true;
  cost = "slow";
  agent = true;
  mcp = true;
  aliases = [];
}

stripped :
    (extract python "Chart" answer none []).0
    ≡ obj (
        field "ticker"
          (str "AAPL")
          (field "chart" (obj (field "image_ref" (str "img_1") no_fields)) no_fields))
unfolding extract put get image_key is_dropped artifact_of text_in show_nat
stripped = refl

extract-HasNoImage_example : HasNoImage (extract python "Chart" answer none []).0
extract-HasNoImage_example = extract-HasNoImage python "Chart" answer none []

extract-AreNumbered_example : AreNumbered 0 (extract python "Chart" answer none []).1
extract-AreNumbered_example = extract-AreNumbered python "Chart" answer none

execute_tool-IsHandled_example :
    IsHandled runtime
      (get_chart ∷ [])
      "get_chart"
      (obj no_fields)
      false
      (execute_tool runtime (get_chart ∷ []) "get_chart" (obj no_fields) false agent 12)
execute_tool-IsHandled_example =
    execute_tool-IsHandled runtime (get_chart ∷ []) "get_chart" (obj no_fields) false agent 12

abbrev long : Value
long = arr (item (str (image ⧺ image ⧺ image ⧺ image)) (item (str "short") no_items))

compact-IsWithin_example : IsWithin 2422 41 (compact long)
compact-IsWithin_example =
    compact-IsWithin 3 9000 long (omega arith) (omega arith, (omega arith, (omega arith, tt)))
