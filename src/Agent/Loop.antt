-- ===== src/Agent/Loop.antt =====
-- `run_agent_stream` of app/agent.py: the loop over the model's turns.
pub mod Steps
pub mod Order
pub mod First
use underlying_analyzer_rebo.Base.{
  ℕ, zero, suc, String, Bool, true, false, not, ◌&&◌, ◌||◌, Option, none, some, List, [], ◌∷◌, ◌++◌,
  ◌==◌, leb, if◌then◌else◌, is_empty, map, keep_if,
}
use underlying_analyzer_rebo.Base.Text.{strip, blank, join, ◌⧺◌}
use underlying_analyzer_rebo.Base.Result.{Result, ok, err, ◌>>=◌, ◌>>◌}
use underlying_analyzer_rebo.Registry.Spec.{ToolSpec}
use underlying_analyzer_rebo.Agent.History.{Message}
use underlying_analyzer_rebo.Agent.Stream.{
  ToolCall, ModelEvent, text_delta, tool_use, stop, other_event, ResultBlock, Turn, said, asked,
  answers, AgentEvent, start, text, error, done, Session, State, Failure, emit, run_calls,
  max_tool_calls,
}

-- The first `required_first_tool` of a run, `none` where Python's is falsy.
abbrev pub required_of : Option String → Option String
required_of none = none
required_of (some name) = if blank name then none else some name

-- What one turn of the model has yielded.
pub record Yield : Type 0 where
  pub turn_text : List String
  pub pending : List ToolCall
  pub stop_reason : String

abbrev pub or_end_turn : String → String
or_end_turn reason = if blank reason then "end_turn" else reason

-- The loop over the client's events.
unfoldable pub read_events : List ModelEvent → State → Yield → State × Yield
read_events [] s y = (s, y)
read_events (text_delta t ∷ es) s y =
    read_events es (emit (text t) s) (record y { turn_text = y.turn_text ++ t ∷ [] })
read_events (tool_use call ∷ es) s y =
    read_events es s (record y { pending = y.pending ++ call ∷ [] })
read_events (stop reason ∷ es) s y =
    read_events es s (record y { stop_reason = or_end_turn reason })
read_events (other_event ∷ es) s y = read_events es s y

abbrev pub fresh : Yield
fresh = record { turn_text = []; pending = []; stop_reason = "end_turn" }

abbrev pub stop_with : State → String → Result Failure (State × Option String)
stop_with s message = err (record { state = s; message = message })

module _ (session : Session) where
  -- The calls of a turn are run and their results join the conversation.
  unfoldable pub answer_calls :
      State → String → List ToolCall → Result Failure (State × Option String)
  unfolding run_calls
  answer_calls s joined calls = do
    let blocks = asked (if blank joined then none else some joined) calls
    ran ← run_calls session (record s { conversation = s.conversation ++ blocks ∷ [] }) calls
    ok (record ran.0 { conversation = ran.0.conversation ++ answers ran.1 ∷ [] }, none)

  -- The tool that is still to be called first.
  unfoldable pub due : State → Option String
  due s = if s.first_tool_called then none else required_of session.required_first_tool

  -- The first call is the tool that is due, or the run ends.
  unfoldable pub check_first :
      State
      → String
      → ToolCall
      → List ToolCall
      → Option String
      → Result Failure (State × Option String)
  unfolding answer_calls
  check_first s joined call calls none = answer_calls s joined (call ∷ calls)
  check_first s joined call calls (some first) =
      if call.name == first
      then answer_calls
          (record s { first_tool_called = true; required_first_result_pending = true }) joined
          (call ∷ calls)
      else stop_with s (
          "Agent must call "
          ⧺ first
          ⧺ " first; "
          ⧺ (if blank call.name then "an unnamed tool" else call.name)
          ⧺ " was refused.")

  unfoldable pub finish_turn :
      State → String → Option String → Result Failure (State × Option String)
  finish_turn s reason none = ok (s, some reason)
  finish_turn s reason (some first) =
      stop_with s ("Agent must call " ⧺ first ⧺ " before answering.")

  unfoldable pub take_calls :
      State → String → String → List ToolCall → Result Failure (State × Option String)
  unfolding check_first finish_turn due
  take_calls s joined reason [] = finish_turn s reason (due s)
  take_calls s joined reason (call ∷ calls) =
      if reason == "tool_use"
      then check_first s joined call calls (due s)
      else finish_turn s reason (due s)

  abbrev pub keep_text : State → String → State
  keep_text s joined = record s {
    assistant_text_parts =
        if blank joined then s.assistant_text_parts else s.assistant_text_parts ++ joined ∷ [];
  }

  -- What the loop does with a turn; `some reason` ends the run.
  unfoldable pub take_turn : State → Yield → Result Failure (State × Option String)
  unfolding take_calls
  take_turn s y =
      let joined = strip (join "" y.turn_text) in
      take_calls (keep_text s joined) joined y.stop_reason y.pending

  -- One turn of the loop; an exception of the client ends the run.
  unfoldable pub hear :
      State → List ModelEvent × Option String → Result Failure (State × Option String)
  unfolding read_events take_turn
  hear s (yielded, none) = take_turn (read_events yielded s fresh).0 (read_events yielded s fresh).1
  hear s (yielded, some message) = stop_with (read_events yielded s fresh).0 message

  unfoldable pub run_turn : State → Result Failure (State × Option String)
  unfolding hear
  run_turn s = hear s (session.stream s.conversation)

  -- The turns of a run, and the reason why they stop.
  unfoldable pub run_turns : ℕ → State → Result Failure (State × String)
  unfolding run_turn
  run_turns zero s = ok (s, "max_iterations")
  run_turns (suc n) s = do
    turn ← run_turn s
    let rest = run_turns n turn.0
    elim turn.1 [ some reason ↦ ok (turn.0, reason) | none ↦ rest ]

  abbrev pub initial : List Message → State
  initial messages = record {
    conversation = map said messages;
    assistant_text_parts = [];
    tool_trace = [];
    tool_budget = max_tool_calls;
    first_tool_called = false;
    required_first_result_pending = false;
    events = start session.model (map (λ spec. spec.name) session.specs) ∷ [];
  }

  abbrev pub closing : Result Failure (State × String) → State × AgentEvent
  closing (err failure) = (failure.state, error failure.message)
  closing (ok (s, reason)) =
      (s, done reason (strip (join "\n\n" s.assistant_text_parts)) s.tool_trace)

  -- The events of a run.
  unfoldable pub run_agent_stream : List Message → List AgentEvent
  unfolding run_turns
  run_agent_stream messages =
      let turns = if leb session.max_iterations 1 then 1 else session.max_iterations in
      let (s, last) = closing (run_turns turns (initial messages)) in s.events ++ last ∷ []
