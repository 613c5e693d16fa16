-- ===== src/Agent/Collect.antt =====
-- `collect_agent_turn` of app/main.py: the events of a run become one response.
use underlying_analyzer_rebo.Base.{
  ℕ, ◌+◌, String, ◌≡◌, refl, ◌∙◌, inl, inr, Bool, Option, none, some, List, [], ◌∷◌, ◌++◌, length,
  length-append, if◌then◌else◌, is_empty, arith, ◌&&◌, not, map,
}
use underlying_analyzer_rebo.Base.Text.{strip, blank, join}
use underlying_analyzer_rebo.Value.{Fields}
use underlying_analyzer_rebo.Executor.Artifacts.{ToolArtifact}
use underlying_analyzer_rebo.Executor.Run.{ToolResult}
use underlying_analyzer_rebo.Agent.History.{Message}
use underlying_analyzer_rebo.Agent.Stream.{
  AgentEvent, start, text, tool_call, tool_result, article, error, done, Session,
}
use underlying_analyzer_rebo.Agent.Stream.Events.{IsBody, count_calls, count_calls-append}
use underlying_analyzer_rebo.Agent.Loop.{or_end_turn, run_agent_stream}
use underlying_analyzer_rebo.Agent.Loop.Order.{run_agent_stream-IsRun}

pub record CalledTool : Type 0 where
  pub name : String
  pub ok_flag : Bool
  pub duration_ms : ℕ
  pub error : Option String

-- What the loop collects; `error_text` is its `error`.
pub record Collected : Type 0 where
  pub model : String
  pub tools : List String
  pub text_parts : List String
  pub tool_calls : List CalledTool
  pub artifacts : List ToolArtifact
  pub articles : List Fields
  pub tool_trace : List String
  pub error_text : Option String
  pub stop_reason : String

abbrev pub nothing_yet : Collected
nothing_yet = record {
  model = "";
  tools = [];
  text_parts = [];
  tool_calls = [];
  artifacts = [];
  articles = [];
  tool_trace = [];
  error_text = none;
  stop_reason = "end_turn";
}

abbrev pub called_tool : ToolResult → CalledTool
called_tool r = record {
  name = r.name;
  ok_flag = r.ok_flag;
  duration_ms = r.duration_ms;
  error = r.error;
}

-- One event of the loop.
unfoldable pub collect_event : Collected → AgentEvent → Collected
collect_event c (start model tools) = record c { model = model; tools = tools }
collect_event c (text t) = record c { text_parts = c.text_parts ++ t ∷ [] }
collect_event c (tool_call e) = c
collect_event c (tool_result id r) = record c {
  tool_calls = c.tool_calls ++ called_tool r ∷ [];
  artifacts = c.artifacts ++ r.artifacts;
}
collect_event c (article fs markdown) = record c { articles = c.articles ++ fs ∷ [] }
collect_event c (error message) = record c {
  error_text = some (if blank message then "Agent run failed" else message);
}
collect_event c (done reason t trace) = record c {
  stop_reason = or_end_turn reason;
  tool_trace = trace;
  text_parts = if is_empty c.text_parts && not (blank t) then t ∷ [] else c.text_parts;
}

unfoldable pub collect_events : Collected → List AgentEvent → Collected
unfolding collect_event
collect_events c [] = c
collect_events c (e ∷ es) = collect_events (collect_event c e) es

-- The body of the response: an error, or what has been collected with the text of the turn.
pub data Response : Type 0 where
  failure : String → Response
  success : Collected → String → Response

unfoldable pub respond_with : Collected → Option String → Response
respond_with c (some message) = failure message
respond_with c none = success c (strip (join "" c.text_parts))

unfoldable pub report : Collected → Response
unfolding respond_with
report c = respond_with c c.error_text

unfoldable pub collect_agent_turn : List AgentEvent → Response
unfolding collect_events report
collect_agent_turn events = report (collect_events nothing_yet events)

collect_events-append :
    (c : Collected) (es fs : List AgentEvent)
    → collect_events c (es ++ fs) ≡ collect_events (collect_events c es) fs
unfolding collect_events
collect_events-append c [] fs = refl
collect_events-append c (e ∷ es) fs = collect_events-append (collect_event c e) es fs

-- Between the first and the last event no error is collected, and every call once.
abbrev IsGrown : Collected → List AgentEvent → Collected → Type 0
IsGrown c es d =
    (d.error_text ≡ c.error_text) × (length d.tool_calls ≡ length c.tool_calls + count_calls es)

collect_events-body :
    (c : Collected) (es : List AgentEvent) → IsBody es → IsGrown c es (collect_events c es)
unfolding collect_events
collect_events-body c [] h = (refl, omega arith)
collect_events-body c (text t ∷ es) h = collect_events-body (collect_event c (text t)) es h
collect_events-body c (article fs v ∷ es) h =
    collect_events-body (collect_event c (article fs v)) es h
collect_events-body c (tool_call e ∷ tool_result id r ∷ es) (p, q, h) =
    let (same, grown) = collect_events-body (collect_event c (tool_result id r)) es h in
    (same, omega (arith, length-append c.tool_calls (called_tool r ∷ [])))
collect_events-body c (start _ _ ∷ es) h = elim h [ ]
collect_events-body c (tool_call e ∷ []) h = elim h [ ]
collect_events-body c (tool_call e ∷ (start _ _ ∷ es)) h = elim h [ ]
collect_events-body c (tool_call e ∷ (text _ ∷ es)) h = elim h [ ]
collect_events-body c (tool_call e ∷ (tool_call _ ∷ es)) h = elim h [ ]
collect_events-body c (tool_call e ∷ (article _ _ ∷ es)) h = elim h [ ]
collect_events-body c (tool_call e ∷ (error _ ∷ es)) h = elim h [ ]
collect_events-body c (tool_call e ∷ (done _ _ _ ∷ es)) h = elim h [ ]
collect_events-body c (tool_result _ _ ∷ es) h = elim h [ ]
collect_events-body c (error _ ∷ es) h = elim h [ ]
collect_events-body c (done _ _ _ ∷ es) h = elim h [ ]

-- The response to a run: an error if the run has ended with one, and otherwise a report with the
-- trace of the run, its stop reason and one entry for each call.
abbrev pub IsReport : List AgentEvent → Response → Type 0
IsReport events (failure shown) =
    (before : List AgentEvent) × (message : String) × (events ≡ before ++ error message ∷ [])
IsReport events (success c answer) =
    (before : List AgentEvent) × (reason : String) × (words : String) × (events
      ≡ before ++ done reason words c.tool_trace ∷ [])
    × (c.stop_reason ≡ or_end_turn reason)
    × (length c.tool_calls ≡ count_calls events)

done-IsReport :
    (before : List AgentEvent) (c : Collected) (reason words : String) (trace : List String)
    → c.error_text ≡ none
    → length c.tool_calls ≡ count_calls before
    → IsReport
        (before ++ done reason words trace ∷ [])
        (report (collect_event c (done reason words trace)))
unfolding report collect_event
done-IsReport before c reason words trace unfailed grown =
    rw (unfailed, respond_with)
      (
        before,
        reason,
        words,
        refl,
        refl,
        omega (arith, count_calls-append before (done reason words trace ∷ [])),
      )

error-IsReport :
    (before : List AgentEvent) (c : Collected) (message : String)
    → IsReport (before ++ error message ∷ []) (report (collect_event c (error message)))
unfolding report collect_event respond_with
error-IsReport before c message = (before, message, refl)

collected-last :
    (model : String) (tools : List String) (body : List AgentEvent) (last : AgentEvent)
    → collect_events nothing_yet (start model tools ∷ (body ++ last ∷ []))
      ≡ collect_event (collect_events (collect_event nothing_yet (start model tools)) body) last
unfolding collect_events
collected-last model tools body last =
    collect_events-append (collect_event nothing_yet (start model tools)) body (last ∷ [])

-- The response to a run is an error where the last event of the run is one. Otherwise it has the
-- trace and the stop reason of the last event, and one entry for each tool that has been called.
pub collect_agent_turn-IsReport :
    (session : Session) (messages : List Message)
    → IsReport
        (run_agent_stream session messages)
        (collect_agent_turn (run_agent_stream session messages))
unfolding collect_agent_turn
collect_agent_turn-IsReport session messages =
    let r = run_agent_stream-IsRun session messages in
    let tools = map (λ spec. spec.name) session.specs in
    let opened = collect_event nothing_yet (start session.model tools) in
    let before = start session.model tools ∷ r.body in
    rw (r.shape, collected-last session.model tools r.body r.last)
      (elim r.closed [
        | inl (reason, words, trace, finished, body) ↦
            let (same, grown) = collect_events-body opened r.body body in
            rw finished (
              done-IsReport before (collect_events opened r.body) reason words trace (same ∙ refl)
                (grown ∙ omega arith))
        | inr (message, broken, body) ↦
            rw broken (error-IsReport before (collect_events opened r.body) message)
      ])
