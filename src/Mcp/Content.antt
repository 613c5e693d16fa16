-- ===== src/Mcp/Content.antt =====
-- What `_tools_call` of app/mcp_http.py answers, and which calls are protocol errors.
use underlying_analyzer_rebo.Base.{
  String, ◌≡◌, refl, sym, inl, inr, Bool, true, false, not, ◌≢◌, ap, Option, none, some,
  if◌then◌else◌, ◌==◌, Bool-cases, arith,
}
use underlying_analyzer_rebo.Base.Result.{Result, ok, err, Result-cases}
use underlying_analyzer_rebo.Value.{
  Value, null, bool, arr, obj, Items, no_items, item, Fields, no_fields, field,
}
use underlying_analyzer_rebo.Value.Access.{get_value, truthy, without}
use underlying_analyzer_rebo.Registry.Spec.{ToolSpec, ToolFault, crash, get_tool}
use underlying_analyzer_rebo.Executor.Artifacts.NoImage.{HasNoImage}
use underlying_analyzer_rebo.Executor.View.{ResultView, agent, full, ticker_research_tool}
use underlying_analyzer_rebo.Executor.Run.{ToolResult, execute_tool}
use underlying_analyzer_rebo.Executor.Run.Outcome.{IsOutcome, IsHandled, execute_tool-IsHandled}
use underlying_analyzer_rebo.Mcp.Tools.{
  Server, text_content, images_of, named, given_arguments, of_tool_fault, content_of, call_result,
  result_text, failure_text, finish, run_tool, tools_call,
}

abbrev pub answer_of : String → Items → Bool → Value → Value
answer_of text images failed structured = obj (
    field "content" (arr (item (text_content text) images))
      (field "isError" (bool failed) (field "structuredContent" structured no_fields)))

-- The answer for the result of a tool: a text, then images where they are asked for. It says whether the
-- tool has failed. A failure has no structured content and no images, a success has the tool's own
-- result, without embedded images.
pub record IsToolAnswer (include_images : Bool) (r : ToolResult) (v : Value) : Type 0 where
  pub text : String
  pub images : Items
  pub structured : Value
  pub shape : v ≡ answer_of text images (not r.ok_flag) structured
  pub failure : r.ok_flag ≡ false → (images ≡ no_items) × (structured ≡ null)
  pub success :
      r.ok_flag ≡ true
      → (structured ≡ obj (field "result" r.result no_fields)) × HasNoImage r.result
  pub unasked : include_images ≡ false → images ≡ no_items

-- The view of a tool's result that an MCP client gets.
abbrev pub view_of : ToolSpec → ResultView
view_of spec = if spec.name == ticker_research_tool then full else agent

module _ (server : Server) where
  -- What the executor gives for a tool and arguments.
  abbrev pub outcome : ToolSpec → Fields → Bool → Option ToolResult
  outcome spec arguments include_images =
      execute_tool server.runtime server.tools spec.name (obj arguments) include_images
        (view_of spec) server.duration

  pub call_result-IsToolAnswer :
      (spec : ToolSpec) (include_images : Bool) (r : ToolResult)
      → IsOutcome include_images r
      → IsToolAnswer include_images r (call_result server spec include_images r)
  unfolding call_result content_of
  call_result-IsToolAnswer spec include_images r h = elim (Bool-cases r.ok_flag) [
    | inl good ↦ record {
      text = result_text server spec r;
      images = if include_images then images_of r.artifacts else no_items;
      structured = obj (field "result" r.result no_fields);
      shape = rw good refl;
      failure = λ p. absurd (ground (arith, good, p));
      success = λ p. (refl, h.no_image);
      unasked = λ p. rw p refl;
    }
    | inr bad ↦ record {
      text = failure_text server spec r;
      images = no_items;
      structured = null;
      shape = rw bad refl;
      failure = λ p. (refl, refl);
      success = λ p. absurd (ground (arith, bad, p));
      unasked = λ p. refl;
    }
  ]

  finish-IsToolAnswer :
      (spec : ToolSpec) (arguments : Fields) (include_images : Bool) (o : Option ToolResult)
      (v : Value)
      → IsHandled server.runtime server.tools spec.name (obj arguments) include_images o
      → finish server spec arguments include_images o ≡ ok v
      → (r : ToolResult) × (o ≡ some r) × IsToolAnswer include_images r v
  unfolding finish
  finish-IsToolAnswer spec arguments include_images none v handled h = absurd (ground arith)
  finish-IsToolAnswer spec arguments include_images (some r) v handled h =
      let same : call_result server spec include_images r ≡ v = ground arith in
      (r, refl, rw (sym same) (call_result-IsToolAnswer spec include_images r handled))

  run_tool-IsToolAnswer :
      (spec : ToolSpec) (arguments : Fields) (include_images : Bool) (v : Value)
      → run_tool server spec arguments include_images ≡ ok v
      → (r : ToolResult) × (outcome spec arguments include_images ≡ some r)
        × IsToolAnswer include_images r v
  unfolding run_tool
  run_tool-IsToolAnswer spec arguments include_images v h =
      finish-IsToolAnswer spec arguments include_images (outcome spec arguments include_images) v
        (execute_tool-IsHandled server.runtime server.tools spec.name (obj arguments) include_images
          (view_of spec) server.duration)
        h

  fault_refused :
      (v : Value) (fault : ToolFault) (spec : ToolSpec)
      → of_tool_fault server v (err fault) ≢ ok spec
  unfolding of_tool_fault
  fault_refused v crash spec h = ground arith
  fault_refused v fault spec h = ground arith

  of_tool_fault-ok :
      (v : Value) (found : Result ToolFault ToolSpec) (spec : ToolSpec)
      → of_tool_fault server v found ≡ ok spec
      → found ≡ ok spec
  unfolding of_tool_fault
  of_tool_fault-ok v (ok a) spec h = ap (λ b. ok b) (ground arith)
  of_tool_fault-ok v (err fault) spec h = absurd (fault_refused v fault spec h)

  -- A `tools/call` that is answered names a tool that is known, which has given a result. The answer says
  -- that it is an error exactly where that result is not ok. It has a text first; images follow only
  -- where the arguments ask for them and the result is ok. A failure has no structured content, and a
  -- success has the tool's result in it, without embedded images.
  pub tools_call-IsToolAnswer :
      (params : Fields) (v : Value)
      → tools_call server params ≡ ok v
      → (name : String) × (given : Fields) × (spec : ToolSpec) × (r : ToolResult) × (named
            (get_value "name" params)
          ≡ ok name)
        × (given_arguments (get_value "arguments" params) ≡ ok given)
        × (get_tool server.tools name ≡ ok spec)
        × (outcome spec (without "include_images" given) (truthy (get_value "include_images" given))
            ≡ some r)
        × IsToolAnswer (truthy (get_value "include_images" given)) r v
  unfolding tools_call
  tools_call-IsToolAnswer params v h = elim (Result-cases (named (get_value "name" params))) [
    | inr (fault, bad) ↦ absurd (ground arith)
    | inl (name, is_named) ↦ elim (Result-cases (given_arguments (get_value "arguments" params))) [
      | inr (fault, bad) ↦ absurd (ground arith)
      | inl (given, are_given) ↦
          elim (Result-cases (of_tool_fault server (obj given) (get_tool server.tools name))) [
            | inr (fault, bad) ↦ absurd (ground arith)
            | inl (spec, found) ↦
                let include_images = truthy (get_value "include_images" given) in
                let arguments = without "include_images" given in
                let runs : run_tool server spec arguments include_images ≡ ok v = ground arith in
                let (r, ran, answer) = run_tool-IsToolAnswer spec arguments include_images v runs in
                (
                  name,
                  given,
                  spec,
                  r,
                  is_named,
                  are_given,
                  of_tool_fault-ok (obj given) (get_tool server.tools name) spec found,
                  ran,
                  answer,
                )
          ]
    ]
  ]
