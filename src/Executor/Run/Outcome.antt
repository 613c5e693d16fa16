-- ===== src/Executor/Run/Outcome.antt =====
-- What a caller of `execute_tool` of app/tool_executor.py can count on.
use underlying_analyzer_rebo.Base.{
  ℕ, ◌≤◌, ◌<◌, String, ◌≡◌, refl, inl, inr, Bool, true, false, Option, none, some, List, [], ◌∷◌,
  Bool-cases, arith, All,
}
use underlying_analyzer_rebo.Base.Text.{show_nat, sort_texts, ◌⧺◌}
use underlying_analyzer_rebo.Base.Result.{ok, err, Result-cases}
use underlying_analyzer_rebo.Value.{Value, null, obj, no_fields}
use underlying_analyzer_rebo.Value.Access.{or_else}
use underlying_analyzer_rebo.Registry.Spec.{
  ToolSpec, ToolFault, unknown_tool, crash, get_tool, tool_names,
}
use underlying_analyzer_rebo.Registry.Request.{Request, build_request}
use underlying_analyzer_rebo.Executor.Artifacts.{ToolArtifact, extract}
use underlying_analyzer_rebo.Executor.Artifacts.NoImage.{HasNoImage, extract-HasNoImage}
use underlying_analyzer_rebo.Executor.Runtime.{Runtime, dispatch, fault_text, error_text}
use underlying_analyzer_rebo.Executor.View.{ResultView}
use underlying_analyzer_rebo.Executor.View.NoImage.{result_for_view-HasNoImage}
use underlying_analyzer_rebo.Executor.Run.{
  ToolResult, or_text, drop_images, answered, execute_tool, failed, url_of, is_success, run_request,
  refused,
}

-- A result has a 2xx status and no error, or no content and an error text.
pub record IsOutcome (keep_images : Bool) (r : ToolResult) : Type 0 where
  pub success : r.ok_flag ≡ true → (200 ≤ r.status) × (r.status < 300) × (r.error ≡ none)
  pub failure :
      r.ok_flag ≡ false → (r.result ≡ null) × (message : String) × (r.error ≡ some message)
  pub no_image : HasNoImage r.result
  pub payloads : keep_images ≡ false → All (λ a. a.payload ≡ "") r.artifacts

-- What `execute_tool` gives: a result, or an exception that building the request has raised.
abbrev pub IsHandled : Runtime → List ToolSpec → String → Value → Bool → Option ToolResult → Type 0
IsHandled rt tools name arguments keep_images none =
    (spec : ToolSpec) × (get_tool tools name ≡ ok spec)
    × (build_request rt.python spec (or_else arguments (obj no_fields)) ≡ err crash)
IsHandled rt tools name arguments keep_images (some r) = IsOutcome keep_images r

failed-IsOutcome :
    (name : String) (status : ℕ) (url error : String) (duration : ℕ) (keep_images : Bool)
    → IsOutcome keep_images (failed name status url error duration)
failed-IsOutcome name status url error duration keep_images = record {
  success = λ h. absurd (ground arith);
  failure = λ h. (refl, error, refl);
  no_image = tt;
  payloads = λ h. tt;
}

drop_images-payload : (found : List ToolArtifact) → All (λ a. a.payload ≡ "") (drop_images found)
unfolding drop_images
drop_images-payload [] = tt
drop_images-payload (a ∷ rest) = (refl, drop_images-payload rest)

answered-IsOutcome :
    (rt : Runtime) (spec : ToolSpec) (name url : String) (payload : Value) (status : ℕ)
    (keep_images : Bool) (view : ResultView) (duration : ℕ)
    → IsOutcome keep_images (answered rt spec name url payload status keep_images view duration)
unfolding answered
answered-IsOutcome rt spec name url payload status keep_images view duration = record {
  success = λ h. ground arith;
  failure = λ h. (
    rw h refl,
    or_text (error_text payload) (spec.title ⧺ " failed with status " ⧺ show_nat status),
    rw h refl,
  );
  no_image = elim (Bool-cases (is_success status)) [
    | inl good ↦ rw good (
        result_for_view-HasNoImage name (extract rt.python spec.title payload none []).0 view
          (extract-HasNoImage rt.python spec.title payload none []))
    | inr bad ↦ rw bad tt
  ];
  payloads = λ h. rw h (drop_images-payload (extract rt.python spec.title payload none []).1);
}

run_request-IsOutcome :
    (rt : Runtime) (spec : ToolSpec) (name : String) (r : Request) (keep_images : Bool)
    (view : ResultView) (duration : ℕ)
    → IsOutcome keep_images (run_request rt spec name r keep_images view duration)
unfolding run_request
run_request-IsOutcome rt spec name r keep_images view duration =
    elim (Result-cases (dispatch rt r.method (url_of rt r) r.body)) [
      | inl (answer, sent) ↦
          rw (sent, run_request)
            (answered-IsOutcome rt spec name (url_of rt r) answer.0 answer.1 keep_images view
              duration)
      | inr (message, broken) ↦
          rw (broken, run_request)
            (failed-IsOutcome name 500 (url_of rt r) (spec.title ⧺ " failed: " ⧺ message) duration
              keep_images)
    ]

get_tool-fault :
    (tools : List ToolSpec) (name : String) (fault : ToolFault)
    → get_tool tools name ≡ err fault
    → fault ≡ unknown_tool name (sort_texts (tool_names tools))
unfolding get_tool
get_tool-fault tools name fault h = ground arith

refused-IsHandled :
    (rt : Runtime) (tools : List ToolSpec) (name : String) (arguments : Value) (keep_images : Bool)
    (spec : ToolSpec) (fault : ToolFault)
    → get_tool tools name ≡ ok spec
    → build_request rt.python spec (or_else arguments (obj no_fields)) ≡ err fault
    → IsHandled rt tools name arguments keep_images (refused rt name fault)
unfolding refused
refused-IsHandled rt tools name arguments keep_images spec crash found wrong = (spec, found, wrong)
refused-IsHandled rt tools name arguments keep_images spec fault found wrong =
    failed-IsOutcome name 400 "" (fault_text rt fault) 0 keep_images

-- Every call gives a result, except where reading an argument raises an exception that is no
-- `ToolArgumentError`. A result that is ok has a status from 200 to 299 and no error; another has no
-- content and an error text. No content holds an embedded image, and where images are not kept, no
-- artifact has a payload.
pub execute_tool-IsHandled :
    (rt : Runtime) (tools : List ToolSpec) (name : String) (arguments : Value) (keep_images : Bool)
    (view : ResultView) (duration : ℕ)
    → IsHandled rt tools name arguments keep_images
        (execute_tool rt tools name arguments keep_images view duration)
unfolding execute_tool
execute_tool-IsHandled rt tools name arguments keep_images view duration =
    elim (Result-cases (get_tool tools name)) [
      | inr (fault, unknown) ↦
          rw (unknown, execute_tool)
            (rw (get_tool-fault tools name fault unknown) (
              failed-IsOutcome name 400 ""
                (fault_text rt (unknown_tool name (sort_texts (tool_names tools)))) 0 keep_images))
      | inl (spec, found) ↦
          elim (Result-cases (build_request rt.python spec (or_else arguments (obj no_fields)))) [
            | inl (r, built) ↦
                rw (found, built, execute_tool)
                  (run_request-IsOutcome rt spec name r keep_images view duration)
            | inr (fault, wrong) ↦
                rw (found, wrong, execute_tool)
                  (refused-IsHandled rt tools name arguments keep_images spec fault found wrong)
          ]
    ]

-- A result carries the name under which the tool was called.
pub execute_tool-name :
    (rt : Runtime) (tools : List ToolSpec) (name : String) (arguments : Value) (keep_images : Bool)
    (view : ResultView) (duration : ℕ) (r : ToolResult)
    → execute_tool rt tools name arguments keep_images view duration ≡ some r
    → r.name ≡ name
unfolding execute_tool run_request refused answered
execute_tool-name rt tools name arguments keep_images view duration r h = ground arith
