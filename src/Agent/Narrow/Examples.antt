-- ===== src/Agent/Narrow/Examples.antt =====
-- A question to app/agent.py that Jev places in one of two groups of tools.
use underlying_analyzer_rebo.Base.{◌≡◌, refl, ◌⊎◌, true, String, Option, none, some, List, [], ◌∷◌}
use underlying_analyzer_rebo.Base.Text.{strip, text_in, sort_texts, take_text}
use underlying_analyzer_rebo.Base.Result.{ok}
use underlying_analyzer_rebo.Value.{float, str, obj, Fields, no_fields, field}
use underlying_analyzer_rebo.Value.Access.{get}
use underlying_analyzer_rebo.Value.Show.{Python, str_of}
use underlying_analyzer_rebo.Registry.Spec.{ToolSpec, agent_tools}
use underlying_analyzer_rebo.Alerts.Rules.{float_or_bool, threshold_most}
use underlying_analyzer_rebo.Jev.Answers.{safe_float, parse_choice_answer, choice_of}
use underlying_analyzer_rebo.Jev.Ask.{
  JevClient, Reply, Wire, settled, attempts, read_json, answers_in, listed_in, all_answered, ask,
  choice,
}
use underlying_analyzer_rebo.Executor.Examples.{get_chart}
use underlying_analyzer_rebo.Agent.History.{Message, user}
use underlying_analyzer_rebo.Agent.Narrow.{
  last_user_text, distinct, groups_present, criteria_from, secondary_groups, trim,
  preclassify_tool_groups, all_kept, or_agent_tools, same_names, narrowed, turn_specs,
}
use underlying_analyzer_rebo.Agent.Narrow.Safe.{IsNarrowing, turn_specs-IsNarrowing}

abbrev pub python : Python
python = record {
  show = λ v. "";
  repr = λ v. "";
  float_of_int = λ n. some n;
  float_of_text = λ s. none;
}

abbrev answers : Fields
answers =
    field "q"
      (obj (
        field "type" (str "choice") (
          field "choice" (str get_chart.group)
            (field "confidence" (float threshold_most) no_fields))))
      no_fields

abbrev good_reply : Reply
good_reply = record {
  status = 200;
  json = ok (obj (field "answers" (obj answers) no_fields));
  text = "";
}

abbrev pub wire : Wire
wire = record { py = python; post = λ n payload. ok good_reply; uniform = λ n most. 0 }

abbrev pub client : JevClient
client = record { api_key = some "key"; model = "jev-latest"; max_retries = 3 }

abbrev list_alerts : ToolSpec
list_alerts = record get_chart { name = "list_alerts"; group = "alerts" }

abbrev tools : List ToolSpec
tools = get_chart ∷ list_alerts ∷ []

abbrev messages : List Message
messages = record { role = user; content = "Chart AAPL" } ∷ []

abbrev no_tool : Option String
no_tool = none

turn_specs_run :
    (turn_specs wire client no_fields tools none no_tool messages).result ≡ ok (get_chart ∷ [])
unfolding turn_specs narrowed agent_tools last_user_text strip preclassify_tool_groups trim
    groups_present distinct criteria_from sort_texts secondary_groups text_in take_text choice ask
    attempts settled read_json answers_in listed_in all_answered get str_of parse_choice_answer
    choice_of safe_float float_or_bool
turn_specs_run = refl

turn_specs-IsNarrowing_example :
    (turn_specs wire client no_fields tools none no_tool messages
      ≡ all_kept (or_agent_tools tools none))
    ⊎ ((no_tool ≡ none)
        × (same_names (or_agent_tools tools none) (agent_tools tools) ≡ true)
        × IsNarrowing wire client no_fields
            (or_agent_tools tools none)
            (last_user_text messages)
            (turn_specs wire client no_fields tools none no_tool messages).result)
turn_specs-IsNarrowing_example =
    turn_specs-IsNarrowing wire client no_fields tools none no_tool messages
