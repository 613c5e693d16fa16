-- ===== src/Executor/Run.antt =====
-- `execute_tool` of app/tool_executor.py, and the text that a model reads.
pub mod Outcome
use underlying_analyzer_rebo.Base.{
  ℕ, ◌+◌, String, count, Bool, true, false, not, ◌&&◌, Option, none, some, List, [], ◌∷◌, ◌==◌, ltb,
  leb, length, if◌then◌else◌, map,
}
use underlying_analyzer_rebo.Base.Text.{strip, blank, show_nat, take_text, join, ◌⧺◌}
use underlying_analyzer_rebo.Base.Int.{ℤ, pos}
use underlying_analyzer_rebo.Base.Result.{Result, ok, err}
use underlying_analyzer_rebo.Value.{
  Value, null, bool, int, str, arr, obj, Items, no_items, item, Fields, no_fields, field,
}
use underlying_analyzer_rebo.Value.Access.{get_value, or_else, as_dict, is_end, or_null, texts}
use underlying_analyzer_rebo.Value.Show.{Python, str_of}
use underlying_analyzer_rebo.Registry.Spec.{
  ToolSpec, ToolFault, unknown_tool, not_an_object, unreadable, missing, not_allowed, requires,
  crash, get_tool,
}
use underlying_analyzer_rebo.Registry.Request.{Request, build_request}
use underlying_analyzer_rebo.Executor.Compact.{compact}
use underlying_analyzer_rebo.Executor.Artifacts.{ToolArtifact, optional_str, extract}
use underlying_analyzer_rebo.Executor.Runtime.{Runtime, Response, dispatch, error_text, fault_text}
use underlying_analyzer_rebo.Executor.View.{
  ResultView, agent, full, result_for_view, ticker_research_tool,
}
use underlying_analyzer_rebo.Executor.Artifacts.{either_text}
use underlying_analyzer_rebo.Base.{is_empty}

abbrev pub max_result_chars : ℕ
max_result_chars = 20000

pub record ToolResult : Type 0 where
  pub name : String
  pub ok_flag : Bool
  pub status : ℕ
  pub url : String
  pub result : Value
  pub artifacts : List ToolArtifact
  pub error : Option String
  pub duration_ms : ℕ

drop_images : List ToolArtifact → List ToolArtifact
drop_images [] = []
drop_images (a ∷ rest) = record a { payload = "" } ∷ drop_images rest

abbrev failed : String → ℕ → String → String → ℕ → ToolResult
failed name status url error duration = record {
  name = name;
  ok_flag = false;
  status = status;
  url = url;
  result = null;
  artifacts = [];
  error = some error;
  duration_ms = duration;
}

abbrev pub is_success : ℕ → Bool
is_success status = leb 200 status && ltb status 300

abbrev url_of : Runtime → Request → String
url_of rt r = r.path ⧺ (if is_end r.query then "" else "?" ⧺ rt.urlencode r.query)

-- `text or t`
abbrev pub or_text : Option String → String → String
or_text none t = t
or_text (some s) t = if blank s then t else s

-- The result of a call that the route has answered.
unfoldable pub answered :
    Runtime → ToolSpec → String → String → Value → ℕ → Bool → ResultView → ℕ → ToolResult
unfolding drop_images error_text
answered rt spec name url payload status keep_images view duration =
    let (stripped, found) = extract rt.python spec.title payload none [] in
    let success = is_success status in
    record {
      name = name;
      ok_flag = success;
      status = status;
      url = url;
      result = if success then result_for_view name stripped view else null;
      artifacts = if keep_images then found else drop_images found;
      error =
          if success
          then none
          else some (
              or_text (error_text payload) (spec.title ⧺ " failed with status " ⧺ show_nat status));
      duration_ms = duration;
    }

-- The call of the route.
unfoldable pub run_request :
    Runtime → ToolSpec → String → Request → Bool → ResultView → ℕ → ToolResult
unfolding answered
run_request rt spec name r keep_images view duration =
    elim (dispatch rt r.method (url_of rt r) r.body) [
      | err message ↦ failed name 500 (url_of rt r) (spec.title ⧺ " failed: " ⧺ message) duration
      | ok answer ↦ answered rt spec name (url_of rt r) answer.0 answer.1 keep_images view duration
    ]

-- `none` is an exception that is no `ToolArgumentError`.
unfoldable pub refused : Runtime → String → ToolFault → Option ToolResult
refused rt name crash = none
refused rt name fault = some (failed name 400 "" (fault_text rt fault) 0)

-- The two clock readings differ by `duration` milliseconds.
unfoldable pub execute_tool :
    Runtime → List ToolSpec → String → Value → Bool → ResultView → ℕ → Option ToolResult
unfolding run_request refused
execute_tool rt tools name arguments keep_images view duration = elim (get_tool tools name) [
  | err fault ↦ refused rt name fault
  | ok spec ↦ elim (build_request rt.python spec (or_else arguments (obj no_fields))) [
    | err fault ↦ refused rt name fault
    | ok r ↦ some (run_request rt spec name r keep_images view duration)
  ]
]

optional_value : Option String → Value
optional_value none = null
optional_value (some s) = str s

refs : List ToolArtifact → Items
unfolding optional_value
refs [] = no_items
refs (a ∷ rest) =
    item
      (obj (
        field "ref" (str a.id) (
          field "title" (optional_value (either_text a.title a.filename))
            (field "mime" (str a.mime) no_fields))))
      (refs rest)

abbrev images_note : String
images_note =
    "Images are already displayed to the user. Reference them by title in prose; do not attempt to reproduce them."

-- The result with its references to images.
unfoldable pub payload_of : ToolResult → Value
unfolding refs
payload_of r = obj (
    field "result" r.result (
      if is_empty r.artifacts
      then no_fields
      else field "artifacts" (arr (refs r.artifacts)) (field "note" (str images_note) no_fields)))

abbrev exceeds : ℕ → Option ℕ → Bool
exceeds n none = false
exceeds n (some most) = ltb most n

abbrev cut_to : Option ℕ → String → String
cut_to none s = s
cut_to (some most) s = take_text most s

-- `ToolResult.model_text`; `none` is no limit.
unfoldable pub model_text : Runtime → ToolResult → Option ℕ → String
unfolding payload_of
model_text rt r most =
    let text = rt.dumps (payload_of r) in
    if not r.ok_flag
    then rt.dumps (obj (field "error" (str (or_text r.error "Tool call failed")) no_fields))
    else if exceeds (count text) most
    then rt.dumps (
        obj (
          field "truncated" (bool true) (
            field "total_chars" (int (pos (count text)))
              (field "preview" (str (cut_to most text)) no_fields))))
    else text
