-- ===== src/Agent/History/Examples.antt =====
-- A conversation as the browser sends it to app/agent.py.
use underlying_analyzer_rebo.Base.{String, ◌≡◌, refl, none, some, List, [], ◌∷◌, ◌++◌}
use underlying_analyzer_rebo.Base.Text.{strip, take_text, join}
use underlying_analyzer_rebo.Base.Result.{ok, err}
use underlying_analyzer_rebo.Value.{Value, str, arr, obj, no_items, item, field, no_fields}
use underlying_analyzer_rebo.Value.Access.{of_items, get}
use underlying_analyzer_rebo.Value.Show.{Python, str_of}
use underlying_analyzer_rebo.Agent.History.{
  user, assistant, Message, usable, add, add_entry, last_role, normalize_history, trace_lines,
  with_trace, last_not_user,
}
use underlying_analyzer_rebo.Agent.History.Laws.{IsWellFormed, normalize_history-IsWellFormed}
use underlying_analyzer_rebo.Agent.History.Accepts.{normalize_history_accepts}

-- A runtime that shows no float and no container.
abbrev python : Python
python = record {
  show = λ v. "";
  repr = λ v. "";
  float_of_int = λ n. some n;
  float_of_text = λ s. none;
}

abbrev said : String → String → Value
said role text = obj (field "role" (str role) (field "content" (str text) no_fields))

abbrev traced : Value
traced = obj (
    field "role" (str "assistant") (
      field "content" (str "Above value.")
        (field "tool_trace" (arr (item (str "get_chart() -> ok") no_items)) no_fields)))

abbrev question : Value
question = said " user " " And MSFT? "

abbrev earlier : List Value
earlier =
    said "assistant" "Hello"
    ∷ said "user" "Chart AAPL"
    ∷ said "system" "x"
    ∷ said "user" "please"
    ∷ traced
    ∷ []

abbrev expected : List Message
expected =
    record { role = user; content = "Chart AAPL\n\nplease" }
    ∷ record {
      role = assistant;
      content = "Above value.\n\n[tools run earlier this conversation]\n- get_chart() -> ok";
    }
    ∷ record { role = user; content = "And MSFT?" }
    ∷ []

history_runs : normalize_history python (arr (of_items (earlier ++ question ∷ []))) ≡ ok expected
unfolding normalize_history add_entry add usable with_trace trace_lines last_role strip take_text
    join get str_of
history_runs = refl

unanswered : normalize_history python (arr (of_items earlier)) ≡ err last_not_user
unfolding normalize_history add_entry add usable with_trace trace_lines last_role strip take_text
    join get str_of
unanswered = refl

normalize_history-IsWellFormed_example : IsWellFormed expected
normalize_history-IsWellFormed_example =
    normalize_history-IsWellFormed python (arr (of_items (earlier ++ question ∷ []))) expected
      history_runs

question_kept : usable python question ≡ some (user, "And MSFT?")
unfolding usable with_trace strip take_text get str_of
question_kept = refl

normalize_history_accepts_example :
    (ms : List Message) × (normalize_history python (arr (of_items (earlier ++ question ∷ [])))
      ≡ ok ms)
normalize_history_accepts_example =
    normalize_history_accepts python earlier question "And MSFT?" question_kept
