-- ===== src/Mcp/Examples.antt =====
-- A server of app/mcp_http.py with one tool.
use underlying_analyzer_rebo.Base.{String, ◌≡◌, refl, true, false, some, [], ◌∷◌}
use underlying_analyzer_rebo.Base.Text.{strip, text_in, show_nat, take_text}
use underlying_analyzer_rebo.Base.Int.{pos, negsuc}
use underlying_analyzer_rebo.Base.Result.{ok}
use underlying_analyzer_rebo.Value.{
  Value, null, bool, int, str, arr, obj, no_items, item, Fields, no_fields, field,
}
use underlying_analyzer_rebo.Value.Access.{get_value, truthy, get, put, without}
use underlying_analyzer_rebo.Value.Show.{str_of}
use underlying_analyzer_rebo.Registry.Spec.{ToolSpec, get_tool, by_name, required}
use underlying_analyzer_rebo.Registry.Coerce.{
  coerce_arguments, check_required, check_enums, clean_from,
}
use underlying_analyzer_rebo.Registry.Request.{build_request, fill_path}
use underlying_analyzer_rebo.Executor.Artifacts.{extract, image_key, artifact_of, is_dropped}
use underlying_analyzer_rebo.Executor.Compact.{compact, compact_text}
use underlying_analyzer_rebo.Executor.Runtime.{dispatch}
use underlying_analyzer_rebo.Executor.View.{result_for_view}
use underlying_analyzer_rebo.Executor.Run.{
  ToolResult, execute_tool, answered, run_request, model_text,
}
use underlying_analyzer_rebo.Executor.Examples.{runtime, get_chart, image}
use underlying_analyzer_rebo.Mcp.Tools.{
  Server, named, given_arguments, tools_call, content_of, images_of, call_result, run_tool,
}
use underlying_analyzer_rebo.Mcp.Protocol.{handle_payload, mcp_endpoint}
use underlying_analyzer_rebo.Mcp.Replies.{IsAnswered, handle_payload-IsAnswered}
use underlying_analyzer_rebo.Mcp.Route.{IsHttpReply, mcp_endpoint-IsHttpReply}
use underlying_analyzer_rebo.Mcp.Valid.{tools_call-valid}
use underlying_analyzer_rebo.Mcp.Content.{answer_of, IsToolAnswer, outcome, tools_call-IsToolAnswer}

abbrev server : Server
server = record {
  runtime = runtime;
  tools = get_chart ∷ [];
  instructions = "Call a tool.";
  catalog = ok "{}";
  openapi = ok "{}";
  crash_text = λ v. "int too large to convert to float";
  duration = 3;
}

abbrev request : Value → String → Value
request id method =
    obj (field "jsonrpc" (str "2.0") (field "id" id (field "method" (str method) no_fields)))

abbrev notification : Value
notification = obj (field "method" (str "notifications/initialized") no_fields)

abbrev batch : Value
batch =
    arr (item notification (item (request (int (pos 7)) "ping") (item (str "no request") no_items)))

batch_result :
    handle_payload server batch
    ≡ some (
        arr (
          item
            (obj (
              field "jsonrpc"
                (str "2.0")
                (field "id" (int (pos 7)) (field "result" (obj no_fields) no_fields))))
            (item
              (obj (
                field "jsonrpc" (str "2.0") (
                  field "id" null (
                    field "error"
                      (obj (
                        field "code"
                          (int (negsuc 32599))
                          (field "message" (str "Request must be a JSON object") no_fields)))
                      no_fields))))
              no_items)))
unfolding handle_payload get take_text
batch_result = refl

handle_payload-IsAnswered_example : IsAnswered batch (handle_payload server batch)
handle_payload-IsAnswered_example = handle_payload-IsAnswered server batch

mcp_endpoint-IsHttpReply_example :
    IsHttpReply server notification true (mcp_endpoint server notification true)
mcp_endpoint-IsHttpReply_example = mcp_endpoint-IsHttpReply server notification true

abbrev params : Fields
params =
    field "name" (str " get_chart ")
      (field "arguments" (obj (field "include_images" (bool true) no_fields)) no_fields)

abbrev given : Fields
given = field "include_images" (bool true) no_fields

tools_call-valid_example :
    (r : ToolResult) × (v : Value) × (outcome server get_chart (without "include_images" given) true
      ≡ some r)
    × (tools_call server params ≡ ok v)
    × IsToolAnswer true r v
unfolding get_tool named given_arguments coerce_arguments get strip without clean_from
    check_required required text_in by_name
tools_call-valid_example =
    tools_call-valid server params "get_chart" given get_chart no_fields refl refl refl refl

abbrev shown : Value
shown =
    answer_of ""
      (item
        (obj (
          field "type" (str "image")
            (field "data" (str image) (field "mimeType" (str "image/png") no_fields))))
        no_items)
      false
      (obj (
        field "result"
          (obj (
            field "ticker" (str "AAPL")
              (field "chart" (obj (field "image_ref" (str "img_1") no_fields)) no_fields)))
          no_fields))

call : tools_call server params ≡ ok shown
unfolding tools_call get_tool named given_arguments coerce_arguments get strip without clean_from
    check_required required text_in by_name check_enums run_tool execute_tool build_request
    fill_path run_request answered extract image_key is_dropped artifact_of show_nat put
    result_for_view compact compact_text model_text call_result content_of images_of dispatch str_of
call = refl

tools_call-IsToolAnswer_example :
    (name : String) × (asked : Fields) × (spec : ToolSpec) × (r : ToolResult) × (named
        (get_value "name" params)
      ≡ ok name)
    × (given_arguments (get_value "arguments" params) ≡ ok asked)
    × (get_tool server.tools name ≡ ok spec)
    × (outcome server spec
          (without "include_images" asked)
          (truthy (get_value "include_images" asked))
        ≡ some r)
    × IsToolAnswer (truthy (get_value "include_images" asked)) r shown
tools_call-IsToolAnswer_example = tools_call-IsToolAnswer server params shown call
