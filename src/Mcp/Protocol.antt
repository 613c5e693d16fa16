-- ===== src/Mcp/Protocol.antt =====
-- The JSON-RPC layer of app/mcp_http.py, and its route `/api/mcp` of app/main.py.
use underlying_analyzer_rebo.Base.{
  String, count, Bool, true, false, ◌||◌, Option, none, some, List, [], ◌∷◌, ◌==◌, if◌then◌else◌,
}
use underlying_analyzer_rebo.Base.Text.{take_text, text_in, ◌⧺◌}
use underlying_analyzer_rebo.Base.Int.{ℤ, negsuc}
use underlying_analyzer_rebo.Base.Result.{Result, ok, err}
use underlying_analyzer_rebo.Value.{
  Value, null, bool, int, str, arr, obj, Items, no_items, item, Fields, no_fields, field,
}
use underlying_analyzer_rebo.Value.Access.{get_value, or_else, has_key, is_nil, is_null}
use underlying_analyzer_rebo.Value.Show.{str_of}
use underlying_analyzer_rebo.Mcp.Tools.{
  Server, Fault, bad_params, not_found, internal, mcp_tool_definitions, tools_call,
}

abbrev pub parse_error_code : ℤ
parse_error_code = negsuc 32699

abbrev pub invalid_request : ℤ
invalid_request = negsuc 32599

abbrev pub method_not_found : ℤ
method_not_found = negsuc 32600

abbrev pub invalid_params : ℤ
invalid_params = negsuc 32601

abbrev pub internal_error : ℤ
internal_error = negsuc 32602

abbrev pub protocol_version : String
protocol_version = "2025-06-18"

abbrev pub supported_protocol_versions : List String
supported_protocol_versions = "2025-06-18" ∷ "2025-03-26" ∷ "2024-11-05" ∷ []

-- `_error`
abbrev pub error_response : Value → ℤ → String → Value
error_response id code message = obj (
    field "jsonrpc" (str "2.0") (
      field "id" id (
        field "error" (obj (field "code" (int code) (field "message" (str message) no_fields)))
          no_fields)))

abbrev pub result_response : Value → Value → Value
result_response id result =
    obj (field "jsonrpc" (str "2.0") (field "id" id (field "result" result no_fields)))

abbrev one_key : String → Value → Value
one_key key v = obj (field key v no_fields)

abbrev resource : String → String → String → Value
resource uri name description = obj (
    field "uri" (str uri) (
      field "name" (str name) (
        field "title" (str name) (
          field "description" (str description)
            (field "mimeType" (str "application/json") no_fields)))))

abbrev tools_uri : String
tools_uri = "underlying://catalog/tools"

abbrev openapi_uri : String
openapi_uri = "underlying://catalog/openapi"

abbrev pub resources : Value
resources = arr (
    item
      (resource tools_uri "Tool catalog" "Every tool with arguments, routing guidance, and cost.")
      (item
        (resource openapi_uri "OpenAPI document" "OpenAPI 3.1 description of the public HTTP API.")
        no_items))

abbrev pub starts_with : String → String → Bool
starts_with start s = take_text (count start) s == start

-- What the route sends: the status, and the body, as an event stream where the client reads one.
pub data HttpReply : Type 0 where
  bad_request : Value → HttpReply
  accepted : HttpReply
  json_reply : Value → HttpReply
  event_stream : String → HttpReply

unfoldable pub contents : String → Result String String → Result Fault Value
contents uri (err message) = err (internal message)
contents uri (ok text) = ok (
    one_key "contents" (
      arr (
        item
          (obj (
            field "uri" (str uri)
              (field "mimeType" (str "application/json") (field "text" (str text) no_fields))))
          no_items)))

unfoldable pub respond : Value → Result Fault Value → Value
respond id (ok result) = result_response id result
respond id (err (bad_params message)) = error_response id invalid_params message
respond id (err (not_found message)) = error_response id method_not_found message
respond id (err (internal message)) =
    error_response id internal_error ("Internal error: " ⧺ message)

abbrev pub unless_nil : Items → Option Value
unless_nil vs = if is_nil vs then none else some (arr vs)

abbrev pub prepend : Option Value → Items → Items
prepend none vs = vs
prepend (some v) vs = item v vs

module _ (server : Server) where
  unfoldable pub negotiate : Fields → String
  unfolding text_in str_of
  negotiate params =
      let requested =
        str_of server.runtime.python
          (or_else (get_value "protocolVersion" params) (str protocol_version)) in
      if text_in requested supported_protocol_versions then requested else protocol_version

  -- `_initialize`
  unfoldable pub initialize : Fields → Value
  unfolding negotiate
  initialize params = obj (
      field "protocolVersion" (str (negotiate params)) (
        field "capabilities"
          (obj (
            field "tools" (one_key "listChanged" (bool false)) (
              field "resources"
                (obj (field "listChanged" (bool false) (field "subscribe" (bool false) no_fields)))
                no_fields)))
          (field "serverInfo"
            (obj (
              field "name" (str "underlying-analyzer") (
                field "title" (str "The Underlying Analyzer")
                  (field "version" (str "1.0.0") no_fields))))
            (field "instructions" (str server.instructions) no_fields))))

  -- `_resources_read`
  unfoldable pub resources_read : Fields → Result Fault Value
  unfolding contents str_of
  resources_read params =
      let uri = str_of server.runtime.python (or_else (get_value "uri" params) (str "")) in
      if uri == tools_uri
      then contents uri server.catalog
      else if uri == openapi_uri
      then contents uri server.openapi
      else err (bad_params ("Unknown resource '" ⧺ uri ⧺ "'"))

  -- `_dispatch`
  unfoldable pub dispatch_method : String → Fields → Result Fault Value
  unfolding initialize mcp_tool_definitions tools_call resources_read
  dispatch_method method params =
      if method == "initialize"
      then ok (initialize params)
      else if (method == "ping") || starts_with "notifications/" method
      then ok (obj no_fields)
      else if method == "tools/list"
      then ok (one_key "tools" (mcp_tool_definitions server.tools))
      else if method == "tools/call"
      then tools_call server params
      else if method == "resources/list"
      then ok (one_key "resources" resources)
      else if method == "resources/read"
      then resources_read params
      else if method == "prompts/list"
      then ok (one_key "prompts" (arr no_items))
      else if method == "resources/templates/list"
      then ok (one_key "resourceTemplates" (arr no_items))
      else err (not_found ("Unknown method '" ⧺ method ⧺ "'"))

  -- A request with a method; `none` is no response.
  unfoldable pub handle_params : Fields → String → Value → Option Value
  unfolding respond dispatch_method
  handle_params request method (obj params) =
      let reply = respond (get_value "id" request) (dispatch_method method params) in
      if has_key "id" request then some reply else none
  handle_params request method null =
      let reply = respond (get_value "id" request) (dispatch_method method no_fields) in
      if has_key "id" request then some reply else none
  handle_params request method v =
      some (error_response (get_value "id" request) invalid_params "params must be an object")

  unfoldable pub handle_method : Fields → Value → Option Value
  unfolding handle_params
  handle_method request (str method) = handle_params request method (get_value "params" request)
  handle_method request v =
      some (error_response (get_value "id" request) invalid_request "Missing method")

  unfoldable pub handle_request : Fields → Option Value
  unfolding handle_method
  handle_request request = handle_method request (get_value "method" request)

  unfoldable mutual
    unfolding handle_request

    -- `handle_mcp_payload`
    pub handle_payload : Value → Option Value
    handle_payload (obj request) = handle_request request
    handle_payload (arr no_items) =
        some (error_response null invalid_request "Batch must not be empty")
    handle_payload (arr (item v vs)) = unless_nil (handle_batch (item v vs))
    handle_payload v = some (error_response null invalid_request "Request must be a JSON object")

    pub handle_batch : Items → Items
    handle_batch no_items = no_items
    handle_batch (item v vs) = prepend (handle_payload v) (handle_batch vs)

  unfoldable pub reply_with : Bool → Option Value → HttpReply
  reply_with streams none = accepted
  reply_with true (some v) =
      event_stream ("event: message\ndata: " ⧺ server.runtime.dumps v ⧺ "\n\n")
  reply_with false (some v) = json_reply v

  -- `mcp_endpoint`; a body that is no JSON reads as null.
  unfoldable pub mcp_endpoint : Value → Bool → HttpReply
  unfolding handle_payload reply_with
  mcp_endpoint payload streams =
      if is_null payload
      then bad_request (error_response null parse_error_code "Request body is not valid JSON")
      else reply_with streams (handle_payload payload)
