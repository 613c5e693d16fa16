-- ===== src/Mcp/Tools.antt =====
-- The `tools/call` method of app/mcp_http.py, and the list of tools of app/tool_registry.py.
use underlying_analyzer_rebo.Base.{
  ℕ, String, Bool, true, false, not, Option, none, some, List, [], ◌∷◌, ◌==◌, if◌then◌else◌,
}
use underlying_analyzer_rebo.Base.Text.{strip, blank, ◌⧺◌}
use underlying_analyzer_rebo.Base.Result.{Result, ok, err, ◌>>=◌}
use underlying_analyzer_rebo.Value.{
  Value, null, bool, str, arr, obj, Items, no_items, item, Fields, no_fields, field,
}
use underlying_analyzer_rebo.Value.Access.{get_value, or_else, truthy, without}
use underlying_analyzer_rebo.Registry.Spec.{
  ToolSpec, ToolFault, crash, get_tool, describe, mcp_tools,
}
use underlying_analyzer_rebo.Registry.Coerce.{coerce_arguments}
use underlying_analyzer_rebo.Executor.Artifacts.{ToolArtifact}
use underlying_analyzer_rebo.Executor.Runtime.{Runtime, fault_text}
use underlying_analyzer_rebo.Executor.View.{agent, full, ticker_research_tool}
use underlying_analyzer_rebo.Executor.Run.{
  ToolResult, execute_tool, model_text, max_result_chars, or_text,
}

-- What a request is answered from. The routes behind the tools answer as they do while the request is
-- handled; `crash_text` is the text of the exception that reading the arguments raises, `duration` the
-- time that a tool takes, and `catalog` and `openapi` the texts of the two resources, or of the
-- exception that making them raises.
pub record Server : Type 0 where
  pub runtime : Runtime
  pub tools : List ToolSpec
  pub instructions : String
  pub catalog : Result String String
  pub openapi : Result String String
  pub crash_text : Value → String
  pub duration : ℕ

-- The exceptions that answer a request: `ToolArgumentError`, `_MethodNotFound` and any other.
pub data Fault : Type 0 where
  bad_params not_found internal : String → Fault

abbrev pub read_only : String → Value
read_only title = obj (
    field "title" (str title) (
      field "readOnlyHint" (bool true)
        (field "destructiveHint" (bool false) (field "openWorldHint" (bool true) no_fields))))

-- The loop of `mcp_tool_definitions` over the tools that MCP clients see.
unfoldable pub definitions_of : List ToolSpec → Items
definitions_of [] = no_items
definitions_of (spec ∷ specs) =
    item
      (obj (
        field "name" (str spec.name) (
          field "title" (str spec.title) (
            field "description" (str (describe spec)) (
              field "inputSchema" (obj spec.input_schema)
                (field "annotations" (read_only spec.title) no_fields))))))
      (definitions_of specs)

unfoldable pub mcp_tool_definitions : List ToolSpec → Value
unfolding definitions_of mcp_tools
mcp_tool_definitions tools = arr (definitions_of (mcp_tools tools))

abbrev pub text_content : String → Value
text_content text = obj (field "type" (str "text") (field "text" (str text) no_fields))

abbrev pub image_content : ToolArtifact → Value
image_content a = obj (
    field "type" (str "image")
      (field "data" (str a.payload) (field "mimeType" (str a.mime) no_fields)))

unfoldable pub images_of : List ToolArtifact → Items
images_of [] = no_items
images_of (a ∷ rest) =
    if blank a.payload then images_of rest else item (image_content a) (images_of rest)

abbrev unnamed : Fault
unnamed = bad_params "tools/call requires a tool name"

-- A tool's name as a client gives it.
unfoldable pub named : Value → Result Fault String
named (str s) = if blank (strip s) then err unnamed else ok (strip s)
named _ = err unnamed

unfoldable pub given_arguments : Value → Result Fault Fields
given_arguments v = elim (or_else v (obj no_fields)) [
  | obj fs ↦ ok fs
  | _ ↦ err (bad_params "tools/call arguments must be an object")
]

module _ (server : Server) where
  -- What an exception of the tool registry becomes.
  unfoldable pub of_tool_fault {ℓ} : {A : Type ℓ} → Value → Result ToolFault A → Result Fault A
  of_tool_fault v (ok a) = ok a
  of_tool_fault v (err crash) = err (internal (server.crash_text v))
  of_tool_fault v (err fault) = err (bad_params (fault_text server.runtime fault))

  abbrev pub result_text : ToolSpec → ToolResult → String
  result_text spec r =
      model_text server.runtime r
        (if spec.name == ticker_research_tool then none else some max_result_chars)

  abbrev pub failure_text : ToolSpec → ToolResult → String
  failure_text spec r = or_text r.error (spec.title ⧺ " failed")

  unfoldable pub content_of : ToolSpec → Bool → ToolResult → Items
  unfolding images_of model_text
  content_of spec include_images r =
      if r.ok_flag
      then item (text_content (result_text spec r))
          (if include_images then images_of r.artifacts else no_items)
      else item (text_content (failure_text spec r)) no_items

  unfoldable pub call_result : ToolSpec → Bool → ToolResult → Value
  unfolding content_of
  call_result spec include_images r = obj (
      field "content" (arr (content_of spec include_images r)) (
        field "isError" (bool (not r.ok_flag)) (
          field "structuredContent"
            (if r.ok_flag then obj (field "result" r.result no_fields) else null) no_fields)))

  -- What a call comes to, `none` for an exception.
  unfoldable pub finish : ToolSpec → Fields → Bool → Option ToolResult → Result Fault Value
  unfolding call_result
  finish spec arguments include_images none = err (internal (server.crash_text (obj arguments)))
  finish spec arguments include_images (some r) = ok (call_result spec include_images r)

  unfoldable pub run_tool : ToolSpec → Fields → Bool → Result Fault Value
  unfolding execute_tool finish
  run_tool spec arguments include_images = finish spec arguments include_images (
      execute_tool server.runtime server.tools spec.name (obj arguments) include_images
        (if spec.name == ticker_research_tool then full else agent) server.duration)

  -- `_tools_call`
  unfoldable pub tools_call : Fields → Result Fault Value
  unfolding named given_arguments of_tool_fault run_tool get_tool coerce_arguments
  tools_call params = do
    name ← named (get_value "name" params)
    given ← given_arguments (get_value "arguments" params)
    spec ← of_tool_fault (obj given) (get_tool server.tools name)
    let include_images = truthy (get_value "include_images" given)
    let arguments = without "include_images" given
    checked ←
        of_tool_fault (obj arguments) (coerce_arguments server.runtime.python spec (obj arguments))
    run_tool spec arguments include_images
