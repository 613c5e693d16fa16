-- ===== src/Agent/Options/Examples.antt =====
-- A chat request to app/main.py that requires its one tool first.
use underlying_analyzer_rebo.Base.{◌≡◌, refl, true, none, some, List, [], ◌∷◌}
use underlying_analyzer_rebo.Base.Text.{strip, show_nat, join, text_in, take_text}
use underlying_analyzer_rebo.Base.Result.{ok, err}
use underlying_analyzer_rebo.Value.{str, arr, obj, Fields, no_fields, field, item, no_items}
use underlying_analyzer_rebo.Value.Access.{get, put, without}
use underlying_analyzer_rebo.Value.Show.{str_of}
use underlying_analyzer_rebo.Registry.Spec.{get_tool, by_name, required, agent_tools}
use underlying_analyzer_rebo.Registry.Coerce.{
  coerce_arguments, check_required, check_enums, clean_from,
}
use underlying_analyzer_rebo.Registry.Request.{build_request, fill_path}
use underlying_analyzer_rebo.Executor.Artifacts.{extract, image_key, artifact_of, is_dropped}
use underlying_analyzer_rebo.Executor.Compact.{compact, compact_text}
use underlying_analyzer_rebo.Executor.Runtime.{dispatch}
use underlying_analyzer_rebo.Executor.View.{result_for_view}
use underlying_analyzer_rebo.Executor.Run.{execute_tool, answered, run_request, model_text}
use underlying_analyzer_rebo.Executor.Examples.{get_chart}
use underlying_analyzer_rebo.Agent.History.{
  user, usable, add, add_entry, last_role, normalize_history, trace_lines, with_trace,
}
use underlying_analyzer_rebo.Agent.Stream.{
  AgentEvent, Session, State, emit_article, article_event, trace_args, run_calls, run_call,
  call_tool, receive, settle,
}
use underlying_analyzer_rebo.Agent.Loop.{
  run_turn, run_turns, finish_turn, initial, hear, read_events, take_turn, take_calls, check_first,
  due, answer_calls,
}
use underlying_analyzer_rebo.Agent.Loop.First.{IsServed}
use underlying_analyzer_rebo.Agent.Select.{select_tools, select_exact, exact_names}
use underlying_analyzer_rebo.Agent.Examples.{session, settled_state}
use underlying_analyzer_rebo.Agent.Narrow.Examples.{python, wire, client}
use underlying_analyzer_rebo.Agent.Options.{
  AgentConfig, RunOptions, configured, not_exact, get_agent_client, policy_of, required_name,
  agent_run_options, session_of, stream_with,
}
use underlying_analyzer_rebo.Agent.Options.Served.{agent_chat-IsServed}

abbrev config : AgentConfig
config = record {
  agent_client = some (some "a model");
  anthropic_api_key = "";
  anthropic_agent_model = "";
  anthropic_text_model = "";
}

abbrev messages : Fields → Fields
messages rest =
    field "messages"
      (arr (
        item (obj (field "role" (str "user") (field "content" (str "Chart AAPL") no_fields)))
          no_items))
      rest

abbrev payload : Fields
payload = messages (
    field "tools" (arr (item (str "get_chart") no_items)) (
      field "tool_policy" (str "exact") (field "required_first_tool" (str " get_chart") no_fields)))

abbrev options : RunOptions
options = record {
  client = configured (some "a model");
  messages = record { role = user; content = "Chart AAPL" } ∷ [];
  model = some "a model";
  tool_specs = get_chart ∷ [];
  suppress_refused_tool_events = true;
  required_first_tool = some "get_chart";
  system_extra = none;
}

accepted : agent_run_options python (get_chart ∷ []) "" config payload ≡ ok options
unfolding agent_run_options get_agent_client normalize_history add_entry add usable with_trace
    trace_lines last_role policy_of required_name select_tools select_exact exact_names agent_tools
    get str_of strip take_text text_in join
accepted = refl

loose :
    agent_run_options python
      (get_chart ∷ [])
      ""
      config
      (messages (field "tool_policy" (str "loose") no_fields))
    ≡ err not_exact
unfolding agent_run_options get_agent_client normalize_history add_entry add usable with_trace
    trace_lines last_role policy_of get str_of strip take_text join
loose = refl

abbrev run : Session
run = session_of session options (get_chart ∷ [])

abbrev finished : State
finished = settled_state (run_turns run 8 (initial run options.messages))

ended : run_turns run 8 (initial run options.messages) ≡ ok (finished, "end_turn")
unfolding run_turns run_turn hear read_events take_turn take_calls check_first due finish_turn
    answer_calls run_calls run_call call_tool receive settle emit_article article_event trace_args
    by_name get_tool coerce_arguments get strip without clean_from check_required required text_in
    check_enums execute_tool build_request fill_path run_request answered extract image_key
    is_dropped artifact_of show_nat put result_for_view compact compact_text model_text dispatch
    str_of join
ended = refl

agent_chat-IsServed_example :
    (es : List AgentEvent) × (stream_with wire client no_fields session options ≡ ok es)
    × IsServed "get_chart" es
agent_chat-IsServed_example =
    agent_chat-IsServed python "" config payload options wire client no_fields session "get_chart"
      finished "end_turn" accepted refl ended
