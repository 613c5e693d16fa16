-- ===== src/Agent/Options.antt =====
-- `agent_run_options` and `get_agent_client` of app/main.py, and the run that the route
-- `/api/agent/chat` makes of the options.
pub mod Selection
pub mod Contract
pub mod Served
pub mod Examples
use underlying_analyzer_rebo.Base.{
  String, Bool, true, false, not, ◌&&◌, ◌||◌, Option, none, some, List, if◌then◌else◌,
}
use underlying_analyzer_rebo.Base.Text.{strip, blank, text_in}
use underlying_analyzer_rebo.Base.Result.{Result, ok, err, ◌>>=◌}
use underlying_analyzer_rebo.Value.{Value, null, str, Fields}
use underlying_analyzer_rebo.Value.Access.{get, get_value, has_key}
use underlying_analyzer_rebo.Value.Show.{Python}
use underlying_analyzer_rebo.Registry.Spec.{ToolSpec, agent_tools}
use underlying_analyzer_rebo.Registry.Coerce.{is_kind}
use underlying_analyzer_rebo.Jev.Answers.{JevError}
use underlying_analyzer_rebo.Jev.Ask.{JevClient, Wire}
use underlying_analyzer_rebo.Agent.History.{Message, AgentError, normalize_history}
use underlying_analyzer_rebo.Agent.Select.{SelectionError, names_of, select_tools}
use underlying_analyzer_rebo.Agent.Stream.{Session, AgentEvent}
use underlying_analyzer_rebo.Agent.Loop.{run_agent_stream}
use underlying_analyzer_rebo.Agent.Narrow.{turn_specs}

-- The client of the model: one that the app is given, with its attribute `model` if it has one, or
-- an `AnthropicTextClient`.
pub data AgentClient : Type 0 where
  configured : (model : Option String) → AgentClient
  text_client : (api_key model : String) → AgentClient

-- The keys of the app's configuration that are read: `AGENT_CLIENT`, given by its `model`, and the
-- texts of `ANTHROPIC_API_KEY`, `ANTHROPIC_AGENT_MODEL` and `ANTHROPIC_TEXT_MODEL`.
pub record AgentConfig : Type 0 where
  pub agent_client : Option (Option String)
  pub anthropic_api_key : String
  pub anthropic_agent_model : String
  pub anthropic_text_model : String

-- The `AnthropicError` of a missing key, and the cases of `AgentError`.
pub data OptionsError : Type 0 where
  offline not_exact first_not_recognized : OptionsError
  history_refused : AgentError → OptionsError
  tools_refused : SelectionError → OptionsError

pub record RunOptions : Type 0 where
  pub client : AgentClient
  pub messages : List Message
  pub model : Option String
  pub tool_specs : List ToolSpec
  pub suppress_refused_tool_events : Bool
  pub required_first_tool : Option String
  pub system_extra : Option String

-- `a or b` of texts.
abbrev text_or : String → String → String
text_or a b = if blank a then b else a

abbrev text_client_of : String → AgentConfig → Result OptionsError AgentClient
text_client_of default config =
    if blank config.anthropic_api_key
    then err offline
    else ok (
        text_client config.anthropic_api_key
          (text_or config.anthropic_agent_model (text_or config.anthropic_text_model default)))

-- `default` is `DEFAULT_ANTHROPIC_MODEL`.
unfoldable pub get_agent_client : String → AgentConfig → Result OptionsError AgentClient
get_agent_client default config = elim config.agent_client [
  | some model ↦ ok (configured model)
  | none ↦ text_client_of default config
]

abbrev pub model_of : AgentClient → Option String
model_of (configured model) = model
model_of (text_client api_key model) = some model

abbrev pub history_of : Result AgentError (List Message) → Result OptionsError (List Message)
history_of (ok messages) = ok messages
history_of (err fault) = err (history_refused fault)

abbrev pub tools_of : Result SelectionError (List ToolSpec) → Result OptionsError (List ToolSpec)
tools_of (ok specs) = ok specs
tools_of (err fault) = err (tools_refused fault)

abbrev pub is_exact : Fields → Bool
is_exact payload = is_kind "exact" (get_value "tool_policy" payload)

-- `exact_tool_policy`
unfoldable pub policy_of : Fields → Result OptionsError Bool
unfolding get
policy_of payload =
    if has_key "tool_policy" payload && not (is_exact payload)
    then err not_exact
    else ok (is_exact payload)

unfoldable pub required_name : Bool → List ToolSpec → Value → Result OptionsError (Option String)
unfolding strip text_in
required_name exact specs null = ok none
required_name exact specs (str s) =
    if blank (strip s)
    then err first_not_recognized
    else if not exact || not (text_in (strip s) (names_of specs))
    then err first_not_recognized
    else ok (some (strip s))
required_name exact specs _ = err first_not_recognized

abbrev pub if_text : Value → Option String
if_text (str s) = some s
if_text _ = none

module _ (py : Python) (tools : List ToolSpec) where
  unfoldable pub agent_run_options : String → AgentConfig → Fields → Result OptionsError RunOptions
  unfolding get_agent_client normalize_history policy_of select_tools agent_tools required_name get
  agent_run_options default config payload = do
    client ← get_agent_client default config
    messages ← history_of (normalize_history py (get_value "messages" payload))
    exact ← policy_of payload
    specs ← tools_of (select_tools py (agent_tools tools) (get_value "tools" payload) exact)
    first ← required_name exact specs (get_value "required_first_tool" payload)
    ok record {
      client = client;
      messages = messages;
      model = model_of client;
      tool_specs = specs;
      suppress_refused_tool_events = exact;
      required_first_tool = first;
      system_extra = if_text (get_value "context" payload);
    }

-- `model or getattr(client, "model", "anthropic")`
abbrev shown_model : Option String → String
shown_model none = "anthropic"
shown_model (some model) = model

-- The arguments of `run_agent_stream` in a session, with the tools that the turn is left with.
abbrev pub session_of : Session → RunOptions → List ToolSpec → Session
session_of session options specs = record session {
  specs = specs;
  model = shown_model options.model;
  suppress_refused_tool_events = options.suppress_refused_tool_events;
  required_first_tool = options.required_first_tool;
  max_iterations = 8;
}

-- The run of a request whose options are good, with the client of Jev and the table `GROUPS`.
unfoldable pub stream_with :
    Wire → JevClient → Fields → Session → RunOptions → Result JevError (List AgentEvent)
unfolding turn_specs run_agent_stream
stream_with wire client labels session options = do
  specs ←
      (turn_specs wire client labels session.tools (some options.tool_specs)
        options.required_first_tool options.messages).result
  ok (run_agent_stream (session_of session options specs) options.messages)
