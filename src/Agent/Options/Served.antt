-- ===== src/Agent/Options/Served.antt =====
-- A chat request of app/main.py with a required first tool, from its payload to its events.
use underlying_analyzer_rebo.Base.{◌≡◌, refl, ◌∙◌, ap, String, some, List, [], ◌∷◌, ◌++◌}
use underlying_analyzer_rebo.Base.Text.{strip, join}
use underlying_analyzer_rebo.Base.Result.{ok}
use underlying_analyzer_rebo.Value.{Fields}
use underlying_analyzer_rebo.Value.Show.{Python}
use underlying_analyzer_rebo.Registry.Spec.{ToolSpec}
use underlying_analyzer_rebo.Jev.Ask.{JevClient, Wire}
use underlying_analyzer_rebo.Agent.Stream.{Session, State, AgentEvent, done}
use underlying_analyzer_rebo.Agent.Loop.{required_of, run_turns, initial, closing, run_agent_stream}
use underlying_analyzer_rebo.Agent.Loop.First.{IsServed, IsServed-append, run_turns-IsServed}
use underlying_analyzer_rebo.Agent.Narrow.{narrowed, turn_specs}
use underlying_analyzer_rebo.Agent.Options.{
  AgentConfig, RunOptions, agent_run_options, session_of, stream_with,
}
use underlying_analyzer_rebo.Agent.Options.Contract.{IsContract, agent_run_options-IsContract}

module _ (wire : Wire) (client : JevClient) (labels : Fields) (session : Session)
    (options : RunOptions) (name : String) (wanted : options.required_first_tool ≡ some name) where
  abbrev run : Session
  run = session_of session options options.tool_specs

  -- No tool is taken from a run that requires one.
  stream_with-required :
      stream_with wire client labels session options ≡ ok (run_agent_stream run options.messages)
  unfolding stream_with turn_specs narrowed
  stream_with-required = rw wanted refl

  stream_with-IsServed :
      {tools : List ToolSpec} {payload : Fields} (s : State) (reason : String)
      → IsContract tools payload options
      → run_turns run 8 (initial run options.messages) ≡ ok (s, reason)
      → (es : List AgentEvent) × (stream_with wire client labels session options ≡ ok es)
        × IsServed name es
  unfolding run_agent_stream
  stream_with-IsServed s reason contract h =
      let (exact, shown, (spec, found)) = contract.first name wanted in
      let required : required_of options.required_first_tool ≡ some name =
        rw (wanted, shown) refl in
      let served = run_turns-IsServed run name spec required found options.messages 7 s reason h in
      let last = done reason (strip (join "\n\n" s.assistant_text_parts)) s.tool_trace in
      (
        s.events ++ last ∷ [],
        stream_with-required
            ∙ ap (λ ended. ok ((closing run ended).0.events ++ (closing run ended).1 ∷ [])) h,
        IsServed-append name s.events (last ∷ []) served,
      )

-- When a chat request is accepted with a required first tool and the at most eight turns of its run
-- end without an error, the request has events, whatever Jev would say about the question, and the
-- first result of a tool among them is a success of the required tool.
pub agent_chat-IsServed :
    (py : Python) (default : String) (config : AgentConfig) (payload : Fields)
    (options : RunOptions) (wire : Wire) (client : JevClient) (labels : Fields) (session : Session)
    (name : String) (s : State) (reason : String)
    → agent_run_options py session.tools default config payload ≡ ok options
    → options.required_first_tool ≡ some name
    → (let run = session_of session options options.tool_specs in
        run_turns run 8 (initial run options.messages) ≡ ok (s, reason))
    → (es : List AgentEvent) × (stream_with wire client labels session options ≡ ok es)
      × IsServed name es
agent_chat-IsServed py default config payload options wire client labels session name s reason
      accepted wanted ended =
    stream_with-IsServed wire client labels session options name wanted s reason
      (agent_run_options-IsContract py session.tools payload default config options accepted) ended
