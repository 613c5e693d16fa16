-- ===== src/Agent/Loop/First.antt =====
-- The tool that a run of app/agent.py has to call first.
use underlying_analyzer_rebo.Base.{
  ℕ, suc, ◌≤◌, String, ◌≡◌, ◌≢◌, refl, sym, ◌∙◌, inl, inr, Option, none, some, List, [], ◌∷◌, ◌++◌,
  arith, map, true, false, if◌then◌else◌, Bool-cases, Option-cases, ◌==◌, eq_iff,
}
use underlying_analyzer_rebo.Base.Text.{strip, join, blank}
use underlying_analyzer_rebo.Base.Result.{ok, Result-cases}
use underlying_analyzer_rebo.Value.{obj}
use underlying_analyzer_rebo.Registry.Spec.{ToolSpec, by_name}
use underlying_analyzer_rebo.Executor.View.{agent}
use underlying_analyzer_rebo.Executor.Run.{ToolResult, execute_tool}
use underlying_analyzer_rebo.Executor.Run.Outcome.{execute_tool-name}
use underlying_analyzer_rebo.Agent.History.{Message}
use underlying_analyzer_rebo.Agent.Stream.{
  ToolCall, ModelEvent, text_delta, tool_use, stop, other_event, ResultBlock, asked, AgentEvent,
  start, text, tool_call, tool_result, article, error, done, Session, State, emit, spend,
  call_event, trace_line, status_of, is_first, emit_article, settle, receive, call_tool, run_call,
  run_calls,
}
use underlying_analyzer_rebo.Agent.Stream.Progress.{
  Progress, emit_article-Progress, run_calls-AreCalled,
}
use underlying_analyzer_rebo.Agent.Loop.{
  Yield, read_events, fresh, run_turn, run_turns, initial, required_of, due, keep_text, check_first,
  finish_turn, take_calls, take_turn, hear, answer_calls,
}
use underlying_analyzer_rebo.Agent.Loop.Order.{run_turns-IsTurn}
use underlying_analyzer_rebo.Agent.Loop.Steps.{Step}

-- The result of the first tool that is called.
abbrev pub first_result : List AgentEvent → Option ToolResult
first_result [] = none
first_result (tool_result id r ∷ es) = some r
first_result (_ ∷ es) = first_result es

first_result-append :
    (es fs : List AgentEvent)
    → first_result (es ++ fs) ≡ elim (first_result es) [ some r ↦ some r | none ↦ first_result fs ]
first_result-append [] fs = refl
first_result-append (tool_result id r ∷ es) fs = refl
first_result-append (tool_call c ∷ es) fs = first_result-append es fs
first_result-append (start m ns ∷ es) fs = first_result-append es fs
first_result-append (text t ∷ es) fs = first_result-append es fs
first_result-append (article gs v ∷ es) fs = first_result-append es fs
first_result-append (error m ∷ es) fs = first_result-append es fs
first_result-append (done x t ls ∷ es) fs = first_result-append es fs

-- The first tool that has been called is the given one, and it has succeeded.
abbrev pub IsServed : String → List AgentEvent → Type 0
IsServed tool es =
    (r : ToolResult) × (first_result es ≡ some r) × (r.name ≡ tool) × (r.ok_flag ≡ true)

pub IsServed-append :
    (tool : String) (es fs : List AgentEvent) → IsServed tool es → IsServed tool (es ++ fs)
IsServed-append tool es fs (r, found, named, good) =
    (r, first_result-append es fs ∙ rw found refl, named, good)

-- No tool has been called yet.
record IsOpen (s : State) : Type 0 where
  pub uncalled : s.first_tool_called ≡ false
  pub silent : first_result s.events ≡ none
  pub budget : 1 ≤ s.tool_budget

-- An article does not change what has been called first.
IsServed-events :
    (es : List AgentEvent) (id : String) (r : ToolResult) (tool : String) {s t : State}
    → first_result es ≡ none
    → r.name ≡ tool
    → r.ok_flag ≡ true
    → s.events ≡ es ++ tool_result id r ∷ []
    → Progress s t
    → IsServed tool t.events
IsServed-events es id r tool {s} {t} silent named good added p =
    rw (p.events, added)
      (IsServed-append tool (es ++ tool_result id r ∷ []) p.new
        (r, first_result-append es (tool_result id r ∷ []) ∙ rw silent refl, named, good))

module _ (session : Session) (tool : String) (spec : ToolSpec) where
  receive-ok :
      (s u : State) (call : ToolCall) (r : ToolResult) (block : ResultBlock)
      → s.required_first_result_pending ≡ true
      → is_first session.required_first_tool call.name ≡ true
      → receive session s call r ≡ ok (u, block)
      → (r.ok_flag ≡ true)
        × (u
            ≡ emit_article call.name r
                (record (emit
                  (tool_result call.id r)
                  (spend (trace_line session call (status_of r)) s)) {
                    required_first_result_pending = false;
                  }))
  unfolding receive settle
  receive-ok s u call r block pending first h = (ground arith, ground arith)

  call_tool-serves :
      (s u : State) (call : ToolCall) (block : ResultBlock)
      → s.required_first_result_pending ≡ true
      → is_first session.required_first_tool call.name ≡ true
      → first_result s.events ≡ none
      → call_tool session s call spec ≡ ok (u, block)
      → IsServed call.name u.events
  unfolding call_tool
  call_tool-serves s u call block pending first silent h =
      let announced = emit (tool_call (call_event call spec.title spec.group spec.cost)) s in
      elim (Option-cases (
        execute_tool session.runtime session.tools call.name (obj call.input) true agent
          session.duration)) [
            | inl raised ↦ absurd (ground arith)
            | inr (r, finished) ↦
                let received : receive session announced call r ≡ ok (u, block) = ground arith in
                let (good, same) = receive-ok announced u call r block pending first received in
                rw same (
                  IsServed-events announced.events call.id r call.name
                    (first_result-append s.events _ ∙ rw silent refl)
                    (execute_tool-name session.runtime session.tools call.name (obj call.input) true
                      agent session.duration r finished)
                    good refl (emit_article-Progress call.name r _))
          ]

  run_calls-serves :
      (s u : State) (call : ToolCall) (calls : List ToolCall) (blocks : List ResultBlock)
      → s.required_first_result_pending ≡ true
      → is_first session.required_first_tool call.name ≡ true
      → first_result s.events ≡ none
      → 1 ≤ s.tool_budget
      → by_name session.specs call.name ≡ some spec
      → run_calls session s (call ∷ calls) ≡ ok (u, blocks)
      → IsServed call.name u.events
  unfolding run_calls run_call
  run_calls-serves s u call calls blocks pending first silent budget found h =
      elim (Result-cases (call_tool session s call spec)) [
        | inr (failure, failed) ↦ absurd (ground arith)
        | inl ((t, block), called) ↦ elim (Result-cases (run_calls session t calls)) [
          | inr (failure, failed) ↦ absurd (ground arith)
          | inl ((v, others), ran) ↦
              let p : Progress t v × (map (λ b. b.tool_use_id) others ≡ map (λ c. c.id) calls) =
                rw ran at (run_calls-AreCalled session t calls) in
              let same : v ≡ u = ground arith in
              rw (sym same, p.0.events)
                (IsServed-append call.name t.events p.0.new
                  (call_tool-serves s t call block pending first silent called))
        ]
      ]

  answer_calls-serves :
      (s u : State) (joined : String) (call : ToolCall) (calls : List ToolCall) (o : Option String)
      → s.required_first_result_pending ≡ true
      → is_first session.required_first_tool call.name ≡ true
      → first_result s.events ≡ none
      → 1 ≤ s.tool_budget
      → by_name session.specs call.name ≡ some spec
      → answer_calls session s joined (call ∷ calls) ≡ ok (u, o)
      → IsServed call.name u.events
  unfolding answer_calls
  answer_calls-serves s u joined call calls o pending first silent budget found h =
      let block = asked (if blank joined then none else some joined) (call ∷ calls) in
      let begun = record s { conversation = s.conversation ++ block ∷ [] } in
      elim (Result-cases (run_calls session begun (call ∷ calls))) [
        | inr (failure, failed) ↦ absurd (ground arith)
        | inl ((t, blocks), ran) ↦
            let same : t.events ≡ u.events = ground arith in
            rw (sym same)
              (run_calls-serves begun t call calls blocks pending first silent budget found ran)
      ]

is_first-required_of :
    (required : Option String) (tool : String)
    → required_of required ≡ some tool
    → is_first required tool ≡ true
is_first-required_of required tool h = ground (arith, eq_iff tool tool)

read_events-IsOpen :
    (es : List ModelEvent) (s : State) (y : Yield) → IsOpen s → IsOpen (read_events es s y).0
unfolding read_events
read_events-IsOpen [] s y idle = idle
read_events-IsOpen (text_delta t ∷ es) s y idle =
    read_events-IsOpen es (emit (text t) s) (record y { turn_text = y.turn_text ++ t ∷ [] })
      (record {
        uncalled = idle.uncalled;
        silent = first_result-append s.events (text t ∷ []) ∙ rw idle.silent refl;
        budget = idle.budget;
      })
read_events-IsOpen (tool_use call ∷ es) s y idle =
    read_events-IsOpen es s (record y { pending = y.pending ++ call ∷ [] }) idle
read_events-IsOpen (stop reason ∷ es) s y idle = read_events-IsOpen es s _ idle
read_events-IsOpen (other_event ∷ es) s y idle = read_events-IsOpen es s y idle

module _ (session : Session) (tool : String) (spec : ToolSpec)
    (required : required_of session.required_first_tool ≡ some tool)
    (known : by_name session.specs tool ≡ some spec) where
  check_first-serves :
      (s u : State) (joined : String) (call : ToolCall) (calls : List ToolCall) (o : Option String)
      → IsOpen s
      → check_first session s joined call calls (some tool) ≡ ok (u, o)
      → IsServed tool u.events
  unfolding check_first
  check_first-serves s u joined call calls o idle h = elim (Bool-cases (call.name == tool)) [
    | inr other ↦ absurd (ground arith)
    | inl same ↦
        let named : call.name ≡ tool = ground (arith, eq_iff call.name tool) in
        let marked = record s { first_tool_called = true; required_first_result_pending = true } in
        let ran : answer_calls session marked joined (call ∷ calls) ≡ ok (u, o) = ground arith in
        rw named at (
          answer_calls-serves session tool spec marked u joined call calls o refl
            (rw named (is_first-required_of session.required_first_tool tool required)) idle.silent
            idle.budget (rw named known) ran)
  ]

  due-tool : (s : State) → IsOpen s → due session s ≡ some tool
  unfolding due
  due-tool s idle = rw idle.uncalled required

  finish_turn-refuses :
      (s u : State) (reason : String) (o : Option String)
      → finish_turn session s reason (some tool) ≢ ok (u, o)
  unfolding finish_turn
  finish_turn-refuses s u reason o h = ground arith

  take_calls-serves :
      (s u : State) (joined reason : String) (calls : List ToolCall) (o : Option String)
      → IsOpen s
      → take_calls session s joined reason calls ≡ ok (u, o)
      → IsServed tool u.events
  unfolding take_calls
  take_calls-serves s u joined reason [] o idle h =
      absurd (finish_turn-refuses s u reason o (rw (due-tool s idle) at h))
  take_calls-serves s u joined reason (call ∷ calls) o idle h =
      elim (Bool-cases (reason == "tool_use")) [
        | inr over ↦
            absurd (finish_turn-refuses s u reason o (rw (over, due-tool s idle, take_calls) at h))
        | inl going ↦
            check_first-serves s u joined call calls o idle
              (rw (going, due-tool s idle, take_calls) at h)
      ]

  take_turn-serves :
      (s u : State) (y : Yield) (o : Option String)
      → IsOpen s
      → take_turn session s y ≡ ok (u, o)
      → IsServed tool u.events
  unfolding take_turn
  take_turn-serves s u y o idle h =
      let joined = strip (join "" y.turn_text) in
      take_calls-serves (keep_text session s joined) u joined y.stop_reason y.pending o
        (record { uncalled = idle.uncalled; silent = idle.silent; budget = idle.budget }) h

  hear-serves :
      (s u : State) (told : List ModelEvent × Option String) (o : Option String)
      → IsOpen s
      → hear session s told ≡ ok (u, o)
      → IsServed tool u.events
  unfolding hear
  hear-serves s u (yielded, none) o idle h =
      take_turn-serves (read_events yielded s fresh).0 u (read_events yielded s fresh).1 o
        (read_events-IsOpen yielded s fresh idle) h
  hear-serves s u (yielded, some message) o idle h = absurd (ground arith)

  run_turn-serves :
      (s u : State) (o : Option String)
      → IsOpen s
      → run_turn session s ≡ ok (u, o)
      → IsServed tool u.events
  unfolding run_turn
  run_turn-serves s u o idle h = hear-serves s u (session.stream s.conversation) o idle h

  -- Where a tool is required first and the turn has it, a run of at least one turn that ends without
  -- an error has called that tool before any other, and the call has succeeded.
  pub run_turns-IsServed :
      (messages : List Message) (n : ℕ) (s : State) (reason : String)
      → run_turns session (suc n) (initial session messages) ≡ ok (s, reason)
      → IsServed tool s.events
  unfolding run_turns
  run_turns-IsServed messages n s reason h =
      let first = initial session messages in
      let idle : IsOpen first = record { uncalled = refl; silent = refl; budget = omega arith } in
      elim (Result-cases (run_turn session first)) [
        | inr (failure, failed) ↦ absurd (ground arith)
        | inl ((t, some over), ended) ↦
            let same : t ≡ s = ground arith in
            rw (sym same) (run_turn-serves first t (some over) idle ended)
        | inl ((t, none), going) ↦
            let ran : run_turns session n t ≡ ok (s, reason) = ground arith in
            let p : Step t s = rw ran at (run_turns-IsTurn session n t) in
            rw p.events
              (IsServed-append tool t.events p.new (run_turn-serves first t none idle going))
      ]
