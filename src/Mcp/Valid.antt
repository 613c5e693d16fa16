-- ===== src/Mcp/Valid.antt =====
-- Which calls `_tools_call` of app/mcp_http.py answers with a result.
use underlying_analyzer_rebo.Base.{
  String, ◌≡◌, ◌≢◌, refl, ap, ◌∙◌, inl, inr, Bool, Option, none, some, List, [], ◌∷◌, Option-cases,
  arith, eq_iff,
}
use underlying_analyzer_rebo.Base.Result.{ok, err, Result-cases}
use underlying_analyzer_rebo.Value.{Value, obj, Fields, no_fields, field}
use underlying_analyzer_rebo.Value.Access.{get, get_value, truthy, without, or_else}
use underlying_analyzer_rebo.Value.Show.{Python}
use underlying_analyzer_rebo.Registry.Spec.{
  ToolSpec, crash, by_name, alias_from, or_blank, get_tool,
}
use underlying_analyzer_rebo.Registry.Coerce.{coerce_arguments}
use underlying_analyzer_rebo.Registry.Request.{fill_path, build_request}
use underlying_analyzer_rebo.Executor.Run.{ToolResult}
use underlying_analyzer_rebo.Executor.Run.Outcome.{IsHandled, execute_tool-IsHandled}
use underlying_analyzer_rebo.Mcp.Tools.{
  Server, named, given_arguments, of_tool_fault, call_result, finish, run_tool, tools_call,
}
use underlying_analyzer_rebo.Mcp.Content.{IsToolAnswer, view_of, outcome, call_result-IsToolAnswer}

by_name-name :
    (tools : List ToolSpec) (name : String) (spec : ToolSpec)
    → by_name tools name ≡ some spec
    → spec.name ≡ name
unfolding by_name
by_name-name [] name spec h = absurd (ground arith)
by_name-name (first ∷ tools) name spec h = elim (Option-cases (by_name tools name)) [
  | inr (found, there) ↦ by_name-name tools name spec (there ∙ ground (arith, there, h))
  | inl absent ↦ ground (arith, absent, h, eq_iff first.name name)
]

-- A tool that is found is found again under its own name.
by_name-own :
    (tools : List ToolSpec) (name : String) (spec : ToolSpec)
    → by_name tools name ≡ some spec
    → get_tool tools spec.name ≡ ok spec
unfolding get_tool
by_name-own tools name spec h =
    let same = by_name-name tools name spec h in
    let own : by_name tools spec.name ≡ some spec = ap (by_name tools) same ∙ h in
    rw (get_tool, own) refl

get_tool-own :
    (tools : List ToolSpec) (name : String) (spec : ToolSpec)
    → get_tool tools name ≡ ok spec
    → get_tool tools spec.name ≡ ok spec
unfolding get_tool
get_tool-own tools name spec h =
    let alias = or_blank (alias_from tools tools name) in
    elim (Option-cases (by_name tools name)) [
      | inr (found, there) ↦ by_name-own tools name spec (there ∙ ground (arith, there, h))
      | inl absent ↦ elim (Option-cases (by_name tools alias)) [
        | inr (found, there) ↦
            by_name-own tools alias spec (there ∙ ground (arith, absent, there, h))
        | inl unknown ↦ absurd (ground (arith, absent, unknown, h))
      ]
    ]

fill_path_never_crashes :
    (py : Python) (tool : String) (keys : List String) (path : String) (given : Fields)
    → fill_path py tool keys path given ≢ err crash
unfolding fill_path
fill_path_never_crashes py tool [] path given h = absurd (ground arith)
fill_path_never_crashes py tool (key ∷ keys) path given h = elim (Option-cases (get key given)) [
  | inl lacking ↦ ground (arith, lacking, h)
  | inr (v, there) ↦
      fill_path_never_crashes py tool keys _ (without key given) (rw (there, fill_path) at h)
]

build_request_never_crashes :
    (py : Python) (spec : ToolSpec) (arguments : Value) (cleaned : Fields)
    → coerce_arguments py spec arguments ≡ ok cleaned
    → build_request py spec arguments ≢ err crash
unfolding build_request
build_request_never_crashes py spec arguments cleaned valid h =
    elim (Result-cases (fill_path py spec.name spec.path_params spec.path cleaned)) [
      | inl (filled, there) ↦ ground (arith, valid, there, h)
      | inr (fault, lacking) ↦
          fill_path_never_crashes py spec.name spec.path_params spec.path cleaned
            (lacking ∙ ground (arith, valid, lacking, h))
    ]

or_empty : (arguments : Fields) → or_else (obj arguments) (obj no_fields) ≡ obj arguments
or_empty no_fields = refl
or_empty (field key v rest) = refl

module _ (server : Server) where
  outcome-some :
      (spec : ToolSpec) (arguments cleaned : Fields) (include_images : Bool)
      → get_tool server.tools spec.name ≡ ok spec
      → coerce_arguments server.runtime.python spec (obj arguments) ≡ ok cleaned
      → (o : Option ToolResult) → outcome server spec arguments include_images ≡ o
      → IsHandled server.runtime server.tools spec.name (obj arguments) include_images o
      → (r : ToolResult) × (outcome server spec arguments include_images ≡ some r)
        × IsHandled server.runtime server.tools spec.name (obj arguments) include_images (some r)
  outcome-some spec arguments cleaned include_images own valid (some r) same handled =
      (r, same, handled)
  outcome-some spec arguments cleaned include_images own valid none same (other, found, crashed) =
      let equal : other ≡ spec = ground (arith, own, found) in
      absurd (
        build_request_never_crashes server.runtime.python spec (obj arguments) cleaned valid
          (rw (equal, or_empty arguments) at crashed))

  run_tool-some :
      (spec : ToolSpec) (arguments : Fields) (include_images : Bool) (r : ToolResult)
      → outcome server spec arguments include_images ≡ some r
      → run_tool server spec arguments include_images
        ≡ ok (call_result server spec include_images r)
  unfolding run_tool finish
  run_tool-some spec arguments include_images r ran = rw ran refl

  -- A `tools/call` that names a known tool and has valid arguments is never a protocol error: the tool
  -- gives a result, and the call is answered with it, as an error or not as the result says, and with
  -- images and structured content as `IsToolAnswer` has them.
  pub tools_call-valid :
      (params : Fields) (name : String) (given : Fields) (spec : ToolSpec) (cleaned : Fields)
      → named (get_value "name" params) ≡ ok name
      → given_arguments (get_value "arguments" params) ≡ ok given
      → get_tool server.tools name ≡ ok spec
      → coerce_arguments server.runtime.python spec (obj (without "include_images" given))
        ≡ ok cleaned
      → (r : ToolResult) × (v : Value) × (outcome server spec
            (without "include_images" given)
            (truthy (get_value "include_images" given))
          ≡ some r)
        × (tools_call server params ≡ ok v)
        × IsToolAnswer (truthy (get_value "include_images" given)) r v
  unfolding tools_call of_tool_fault
  tools_call-valid params name given spec cleaned is_named are_given found valid =
      let arguments = without "include_images" given in
      let include_images = truthy (get_value "include_images" given) in
      let (r, ran, handled) =
        outcome-some spec arguments cleaned include_images
          (get_tool-own server.tools name spec found) valid
          (outcome server spec arguments include_images) refl
          (execute_tool-IsHandled server.runtime server.tools spec.name (obj arguments)
            include_images (view_of spec) server.duration) in
      (
        r,
        call_result server spec include_images r,
        ran,
        rw (is_named, are_given, found, valid) (run_tool-some spec arguments include_images r ran),
        call_result-IsToolAnswer server spec include_images r handled,
      )
