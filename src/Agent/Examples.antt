-- ===== src/Agent/Examples.antt =====
-- A run of app/agent.py in which the model calls one tool and then answers.
use underlying_analyzer_rebo.Base.{
  ◌+◌, String, ◌≡◌, refl, false, Option, none, some, List, [], ◌∷◌, length,
}
use underlying_analyzer_rebo.Base.Text.{strip, show_nat, join, text_in}
use underlying_analyzer_rebo.Base.Result.{Result, ok, err}
use underlying_analyzer_rebo.Value.{no_fields}
use underlying_analyzer_rebo.Value.Access.{get, put, without}
use underlying_analyzer_rebo.Value.Show.{str_of}
use underlying_analyzer_rebo.Registry.Spec.{get_tool, by_name, required}
use underlying_analyzer_rebo.Registry.Coerce.{
  coerce_arguments, check_required, check_enums, clean_from,
}
use underlying_analyzer_rebo.Registry.Request.{build_request, fill_path}
use underlying_analyzer_rebo.Executor.Artifacts.{extract, image_key, artifact_of, is_dropped}
use underlying_analyzer_rebo.Executor.Compact.{compact, compact_text}
use underlying_analyzer_rebo.Executor.Runtime.{dispatch}
use underlying_analyzer_rebo.Executor.View.{result_for_view}
use underlying_analyzer_rebo.Executor.Run.{execute_tool, answered, run_request, model_text}
use underlying_analyzer_rebo.Executor.Examples.{runtime, get_chart}
use underlying_analyzer_rebo.Agent.History.{Message, user}
use underlying_analyzer_rebo.Agent.Stream.{
  ToolCall, ModelEvent, text_delta, tool_use, stop, Turn, said, Session, State, Failure,
  max_tool_calls, emit_article, article_event, trace_args, run_calls, run_call, call_tool, receive,
  settle,
}
use underlying_analyzer_rebo.Agent.Loop.{
  run_turn, run_turns, finish_turn, initial, run_agent_stream, hear, read_events, take_turn,
  take_calls, check_first, due, answer_calls,
}
use underlying_analyzer_rebo.Agent.Collect.{
  IsReport, collect_agent_turn, collect_agent_turn-IsReport,
}
use underlying_analyzer_rebo.Agent.Loop.First.{IsServed, run_turns-IsServed}
use underlying_analyzer_rebo.Agent.Loop.Steps.{AreAnswered}
use underlying_analyzer_rebo.Agent.Loop.Order.{
  begun, went_on, IsRun, Reaches-AreAnswered, run_agent_stream-IsRun,
}

abbrev call : ToolCall
call = record { id = "toolu_1"; name = "get_chart"; input = no_fields }

abbrev script : List Turn → List ModelEvent × Option String
script (said m ∷ []) = (text_delta "Looking." ∷ tool_use call ∷ stop "tool_use" ∷ [], none)
script _ = (text_delta "Done." ∷ stop "end_turn" ∷ [], none)

abbrev pub session : Session
session = record {
  runtime = runtime;
  tools = get_chart ∷ [];
  specs = get_chart ∷ [];
  stream = script;
  crash_text = λ v. "int too large to convert to float";
  duration = 3;
  model = "a model";
  suppress_refused_tool_events = false;
  required_first_tool = some "get_chart";
  max_iterations = 8;
}

abbrev question : List Message
question = record { role = user; content = "Chart AAPL" } ∷ []

abbrev state_after : Result Failure (State × Option String) → State
state_after (ok (t, reason)) = t
state_after (err failure) = failure.state

abbrev pub settled_state : Result Failure (State × String) → State
settled_state (ok (t, reason)) = t
settled_state (err failure) = failure.state

abbrev second : State
second = state_after (run_turn session (initial session question))

called : run_turn session (initial session question) ≡ ok (second, none)
unfolding run_turn hear read_events take_turn take_calls check_first due answer_calls run_calls
    run_call call_tool receive settle emit_article article_event trace_args by_name get_tool
    coerce_arguments get strip without clean_from check_required required text_in check_enums
    execute_tool build_request fill_path run_request answered extract image_key is_dropped
    artifact_of show_nat put result_for_view compact compact_text model_text dispatch str_of join
called = refl

Reaches-AreAnswered_example :
    AreAnswered second.conversation
    × (length second.tool_trace + second.tool_budget ≡ max_tool_calls)
Reaches-AreAnswered_example = Reaches-AreAnswered session question second (went_on begun called)

run_agent_stream-IsRun_example : IsRun session (run_agent_stream session question)
run_agent_stream-IsRun_example = run_agent_stream-IsRun session question

abbrev finished : State
finished = settled_state (run_turns session 2 (initial session question))

ended : run_turns session 2 (initial session question) ≡ ok (finished, "end_turn")
unfolding run_turns run_turn hear read_events take_turn take_calls check_first due finish_turn
    answer_calls run_calls run_call call_tool receive settle emit_article article_event trace_args
    by_name get_tool coerce_arguments get strip without clean_from check_required required text_in
    check_enums execute_tool build_request fill_path run_request answered extract image_key
    is_dropped artifact_of show_nat put result_for_view compact compact_text model_text dispatch
    str_of join
ended = refl

run_turns-IsServed_example : IsServed "get_chart" finished.events
unfolding by_name
run_turns-IsServed_example =
    run_turns-IsServed session "get_chart" get_chart refl refl question 1 finished "end_turn" ended

collect_agent_turn-IsReport_example :
    IsReport
      (run_agent_stream session question)
      (collect_agent_turn (run_agent_stream session question))
collect_agent_turn-IsReport_example = collect_agent_turn-IsReport session question
