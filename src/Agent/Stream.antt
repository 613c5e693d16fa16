-- ===== src/Agent/Stream.antt =====
-- `run_agent_stream` of app/agent.py, from the tools of the turn on: what it keeps, what it emits,
-- and one call of a tool. An event that is emitted is added to the events of the state.
pub mod Events
pub mod Progress
use underlying_analyzer_rebo.Base.{
  ℕ, zero, suc, String, count, Bool, true, false, not, ◌&&◌, ◌||◌, Option, none, some, List, [],
  ◌∷◌, ◌++◌, ◌-◌, ◌==◌, ltb, leb, if◌then◌else◌, take,
}
use underlying_analyzer_rebo.Base.Text.{strip, blank, take_text, join, ◌⧺◌}
use underlying_analyzer_rebo.Base.Result.{Result, ok, err, ◌>>=◌, ◌>>◌}
use underlying_analyzer_rebo.Value.{
  Value, null, bool, int, str, arr, obj, Items, no_items, item, Fields, no_fields, field,
}
use underlying_analyzer_rebo.Value.Access.{get_value}
use underlying_analyzer_rebo.Value.Show.{Python, str_of}
use underlying_analyzer_rebo.Registry.Spec.{ToolSpec, by_name}
use underlying_analyzer_rebo.Executor.Runtime.{Runtime}
use underlying_analyzer_rebo.Executor.View.{ResultView, agent}
use underlying_analyzer_rebo.Executor.Run.{
  ToolResult, execute_tool, model_text, max_result_chars, or_text,
}
use underlying_analyzer_rebo.Agent.History.{Message}

abbrev pub max_tool_calls : ℕ
max_tool_calls = 16

-- A tool call of the model, its arguments in `input`.
pub record ToolCall : Type 0 where
  pub id : String
  pub name : String
  pub input : Fields

-- What the client of the model yields.
pub data ModelEvent : Type 0 where
  text_delta : String → ModelEvent
  tool_use : ToolCall → ModelEvent
  stop : String → ModelEvent
  other_event : ModelEvent

pub record ResultBlock : Type 0 where
  pub tool_use_id : String
  pub content : String
  pub is_error : Bool

-- A message of the conversation: plain, the assistant's text and calls, or the results of calls.
pub data Turn : Type 0 where
  said : Message → Turn
  asked : Option String → List ToolCall → Turn
  answers : List ResultBlock → Turn

pub record ToolCallEvent : Type 0 where
  pub id : String
  pub name : String
  pub title : String
  pub group : String
  pub cost : String
  pub input : Fields

pub data AgentEvent : Type 0 where
  start : String → List String → AgentEvent
  text : String → AgentEvent
  tool_call : ToolCallEvent → AgentEvent
  tool_result : String → ToolResult → AgentEvent
  article : Fields → Value → AgentEvent
  error : String → AgentEvent
  done : String → String → List String → AgentEvent

-- The arguments of a run. `stream` gives what the client yields for a conversation, with the
-- message of the exception that ends it, if one does; `tools` is the whole registry and
-- `specs` the tools of this run.
pub record Session : Type 0 where
  pub runtime : Runtime
  pub tools : List ToolSpec
  pub specs : List ToolSpec
  pub stream : List Turn → List ModelEvent × Option String
  pub crash_text : Value → String
  pub duration : ℕ
  pub model : String
  pub suppress_refused_tool_events : Bool
  pub required_first_tool : Option String
  pub max_iterations : ℕ

pub record State : Type 0 where
  pub conversation : List Turn
  pub assistant_text_parts : List String
  pub tool_trace : List String
  pub tool_budget : ℕ
  pub first_tool_called : Bool
  pub required_first_result_pending : Bool
  pub events : List AgentEvent

-- A run that ends with an error, after the events of the state.
pub record Failure : Type 0 where
  pub state : State
  pub message : String

abbrev pub emit : AgentEvent → State → State
emit e s = record s { events = s.events ++ e ∷ [] }

abbrev pub is_first : Option String → String → Bool
is_first none name = false
is_first (some first) name = name == first

abbrev shown_error : Option String → String
shown_error none = "None"
shown_error (some message) = message

shown_args : Python → ℕ → Fields → List String
shown_args py zero fs = []
shown_args py (suc n) no_fields = []
shown_args py (suc n) (field key v fs) =
    let shown = str_of py v in
    (key ⧺ "=" ⧺ (if ltb 40 (count shown) then take_text 37 shown ⧺ "..." else shown))
    ∷ shown_args py n fs

-- `_trace_args`
unfoldable pub trace_args : Python → Fields → String
unfolding shown_args
trace_args py fs = join ", " (shown_args py 3 fs)

abbrev pub article_of : Value → Value → Option AgentEvent
article_of (obj fields) markdown = some (article fields markdown)
article_of _ markdown = none

-- `_article_event`
unfoldable pub article_event : Value → Option AgentEvent
article_event (obj result) = article_of (get_value "article" result) (get_value "markdown" result)
article_event _ = none

abbrev pub unavailable : String → String
unavailable name = "Tool " ⧺ name ⧺ " is not available for this turn."

-- The budget and the trace after one more call.
abbrev pub spend : String → State → State
spend line s = record s { tool_budget = s.tool_budget - 1; tool_trace = s.tool_trace ++ line ∷ [] }

abbrev pub refused_result : String → ToolResult
refused_result name = record {
  name = name;
  ok_flag = false;
  status = 403;
  url = "";
  result = null;
  artifacts = [];
  error = some (unavailable name);
  duration_ms = 0;
}

abbrev pub call_event : ToolCall → String → String → String → ToolCallEvent
call_event call title group cost = record {
  id = call.id;
  name = call.name;
  title = title;
  group = group;
  cost = cost;
  input = call.input;
}

abbrev pub status_of : ToolResult → String
status_of r = if r.ok_flag then "ok" else "error: " ⧺ shown_error r.error

-- The article that a result publishes.
unfoldable pub emit_article : String → ToolResult → State → State
unfolding article_event
emit_article name r s =
    if r.ok_flag && (name == "compose_research_article")
    then elim (article_event r.result) [ none ↦ s | some e ↦ emit e s ]
    else s

abbrev pub exhausted_block : ToolCall → ResultBlock
exhausted_block call = record {
  tool_use_id = call.id;
  content = "Tool budget for this turn is exhausted. Answer with what you already have.";
  is_error = true;
}

module _ (session : Session) where
  abbrev pub trace_line : ToolCall → String → String
  trace_line call status =
      call.name ⧺ "(" ⧺ trace_args session.runtime.python call.input ⧺ ") -> " ⧺ status

  -- A call of a tool that the turn does not have.
  unfoldable pub refuse : State → ToolCall → State × ResultBlock
  refuse s call =
      let spent = spend (trace_line call ("error: " ⧺ unavailable call.name)) s in
      (
        if session.suppress_refused_tool_events
            then spent
            else emit (tool_result call.id (refused_result call.name))
                (emit (tool_call (call_event call call.name "meta" "fast")) spent),
        record { tool_use_id = call.id; content = unavailable call.name; is_error = true },
      )

  abbrev pub result_block : ToolCall → ToolResult → ResultBlock
  result_block call r = record {
    tool_use_id = call.id;
    content = model_text session.runtime r (some max_result_chars);
    is_error = not r.ok_flag;
  }

  -- The result of the required first tool: a failure ends the run.
  unfoldable pub settle : State → ToolCall → ToolResult → Result Failure (State × ResultBlock)
  settle s call r =
      if r.ok_flag
      then ok (emit_article call.name r s, result_block call r)
      else err (record {
        state = s;
        message =
            "Required first tool " ⧺ call.name ⧺ " failed: " ⧺ or_text r.error "unknown error";
      })

  -- What follows the result of a tool.
  unfoldable pub receive : State → ToolCall → ToolResult → Result Failure (State × ResultBlock)
  unfolding settle
  receive s call r =
      let traced = emit (tool_result call.id r) (spend (trace_line call (status_of r)) s) in
      if s.required_first_result_pending && is_first session.required_first_tool call.name
      then settle (record traced { required_first_result_pending = false }) call r
      else ok (emit_article call.name r traced, result_block call r)

  -- A call of a tool of the turn.
  unfoldable pub call_tool : State → ToolCall → ToolSpec → Result Failure (State × ResultBlock)
  unfolding receive execute_tool
  call_tool s call spec =
      let announced = emit (tool_call (call_event call spec.title spec.group spec.cost)) s in
      elim (execute_tool session.runtime session.tools call.name (obj call.input) true agent
        session.duration) [
          | some r ↦ receive announced call r
          | none ↦ err (record {
            state = record announced { tool_budget = s.tool_budget - 1 };
            message = "Agent run failed: " ⧺ session.crash_text (obj call.input);
          })
        ]

  -- One call that the model asks for.
  unfoldable pub run_call : State → ToolCall → Result Failure (State × ResultBlock)
  unfolding refuse call_tool by_name
  run_call s call =
      if leb s.tool_budget 0
      then ok (s, exhausted_block call)
      else elim (by_name session.specs call.name) [
        | none ↦ ok (refuse s call)
        | some spec ↦ call_tool s call spec
      ]

  unfoldable pub run_calls : State → List ToolCall → Result Failure (State × List ResultBlock)
  unfolding run_call
  run_calls s [] = ok (s, [])
  run_calls s (call ∷ calls) = do
    first ← run_call s call
    rest ← run_calls first.0 calls
    ok (rest.0, first.1 ∷ rest.1)
