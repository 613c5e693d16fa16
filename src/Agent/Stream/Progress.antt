-- ===== src/Agent/Stream/Progress.antt =====
-- How the calls of `run_agent_stream` of app/agent.py change the state of a run.
use underlying_analyzer_rebo.Base.{
  ◌+◌, ◌≤◌, String, ◌≡◌, refl, sym, ◌∙◌, ap, ap₂, inl, inr, true, false, ◌&&◌, some, List, [], ◌∷◌,
  ◌++◌, append_assoc, append-nil, length, length-append, ◌==◌, leb, Bool-cases, Option-cases, arith,
  map,
}
use underlying_analyzer_rebo.Base.Result.{Result, ok, err, ◌>>=◌, Result-cases}
use underlying_analyzer_rebo.Base.Text.{◌⧺◌}
use underlying_analyzer_rebo.Value.{Value, obj}
use underlying_analyzer_rebo.Value.Access.{get_value}
use underlying_analyzer_rebo.Executor.Run.Outcome.{execute_tool-name}
use underlying_analyzer_rebo.Registry.Spec.{ToolSpec, by_name}
use underlying_analyzer_rebo.Executor.View.{agent}
use underlying_analyzer_rebo.Executor.Run.{ToolResult, execute_tool}
use underlying_analyzer_rebo.Agent.Stream.{
  ToolCall, ResultBlock, AgentEvent, start, text, tool_call, tool_result, article, error, done,
  ToolCallEvent, Session, State, Failure, emit, spend, call_event, refused_result, status_of,
  trace_line, unavailable, article_of, article_event, is_first, refuse, emit_article, settle,
  receive, call_tool, run_call, run_calls,
}
use underlying_analyzer_rebo.Agent.Stream.Events.{
  IsBody, IsCutBody, IsBody-append, IsCutBody-append, count_calls, count_calls-append,
}

-- From the one state to the other, tools are called: each takes one from the budget and adds a line
-- to the trace.
pub record Progress (s t : State) : Type 0 where
  pub conversation : t.conversation ≡ s.conversation
  pub first : t.first_tool_called ≡ s.first_tool_called
  pub account : length t.tool_trace + t.tool_budget ≡ length s.tool_trace + s.tool_budget
  pub new : List AgentEvent
  pub events : t.events ≡ s.events ++ new
  pub body : IsBody new
  pub calls : count_calls new + length s.tool_trace ≤ length t.tool_trace

-- The state that an error leaves.
pub record Halt (s t : State) : Type 0 where
  pub new : List AgentEvent
  pub events : t.events ≡ s.events ++ new
  pub body : IsCutBody new
  pub calls : count_calls new ≤ s.tool_budget

pub Progress-refl : (s : State) → Progress s s
Progress-refl s = record {
  conversation = refl;
  first = refl;
  account = refl;
  new = [];
  events = sym (append-nil s.events);
  body = tt;
  calls = omega arith;
}

pub events_trans :
    (a b c new_b new_c : List AgentEvent)
    → b ≡ a ++ new_b
    → c ≡ b ++ new_c
    → c ≡ a ++ (new_b ++ new_c)
events_trans a b c new_b new_c p q = q ∙ ap (λ es. es ++ new_c) p ∙ append_assoc a new_b new_c

pub Progress-trans : (s t u : State) → Progress s t → Progress t u → Progress s u
Progress-trans s t u p q = record {
  conversation = q.conversation ∙ p.conversation;
  first = q.first ∙ p.first;
  account = q.account ∙ p.account;
  new = p.new ++ q.new;
  events = events_trans s.events t.events u.events p.new q.new p.events q.events;
  body = IsBody-append p.new q.new p.body q.body;
  calls = omega (arith, count_calls-append p.new q.new, p.calls, q.calls);
}

pub Halt-after : (s t u : State) → Progress s t → Halt t u → Halt s u
Halt-after s t u p q = record {
  new = p.new ++ q.new;
  events = events_trans s.events t.events u.events p.new q.new p.events q.events;
  body = IsCutBody-append p.new q.new p.body q.body;
  calls = omega (arith, count_calls-append p.new q.new, p.calls, q.calls, p.account);
}

-- What one call comes to, and what several do.
abbrev pub IsCalled : State → ToolCall → Result Failure (State × ResultBlock) → Type 0
IsCalled s call (ok (t, block)) = Progress s t × (block.tool_use_id ≡ call.id)
IsCalled s call (err failure) = Halt s failure.state

abbrev pub AreCalled : State → List ToolCall → Result Failure (State × List ResultBlock) → Type 0
AreCalled s calls (ok (t, blocks)) =
    Progress s t × (map (λ b. b.tool_use_id) blocks ≡ map (λ c. c.id) calls)
AreCalled s calls (err failure) = Halt s failure.state

single-calls : (e : AgentEvent) → IsBody (e ∷ []) → count_calls (e ∷ []) ≡ 0
single-calls (text t) h = refl
single-calls (article fs v) h = refl
single-calls (start m ns) h = elim h [ ]
single-calls (tool_call c) h = elim h [ ]
single-calls (tool_result id r) h = elim h [ ]
single-calls (error m) h = elim h [ ]
single-calls (done x t ls) h = elim h [ ]

pub emit-Progress : (e : AgentEvent) (s : State) → IsBody (e ∷ []) → Progress s (emit e s)
emit-Progress e s h = record {
  conversation = refl;
  first = refl;
  account = refl;
  new = e ∷ [];
  events = refl;
  body = h;
  calls = omega (arith, single-calls e h);
}

-- A call and its result, which are paid for.
paid-Progress :
    (line : String) (c : ToolCallEvent) (id : String) (r : ToolResult) (s : State)
    → id ≡ c.id
    → r.name ≡ c.name
    → 1 ≤ s.tool_budget
    → Progress s (spend line (emit (tool_result id r) (emit (tool_call c) s)))
paid-Progress line c id r s p q left =
    let traced = length-append s.tool_trace (line ∷ []) in
    record {
      conversation = refl;
      first = refl;
      account = omega (arith, traced);
      new = tool_call c ∷ tool_result id r ∷ [];
      events = append_assoc s.events (tool_call c ∷ []) (tool_result id r ∷ []);
      body = (p, q, tt);
      calls = omega (arith, traced);
    }

spend-Progress : (line : String) (s : State) → 1 ≤ s.tool_budget → Progress s (spend line s)
spend-Progress line s left =
    let traced = length-append s.tool_trace (line ∷ []) in
    record {
      conversation = refl;
      first = refl;
      account = omega (arith, traced);
      new = [];
      events = sym (append-nil s.events);
      body = tt;
      calls = omega (arith, traced);
    }

settled-Progress : (s : State) → Progress s (record s { required_first_result_pending = false })
settled-Progress s = record {
  conversation = refl;
  first = refl;
  account = refl;
  new = [];
  events = sym (append-nil s.events);
  body = tt;
  calls = omega arith;
}

article_of-IsBody : (v w : Value) (e : AgentEvent) → article_of v w ≡ some e → IsBody (e ∷ [])
article_of-IsBody (obj fs) w e h = let same : article fs w ≡ e = ground arith in rw (sym same) tt
article_of-IsBody v w e h = absurd (ground arith)

article_event-IsBody : (v : Value) (e : AgentEvent) → article_event v ≡ some e → IsBody (e ∷ [])
unfolding article_event
article_event-IsBody (obj fs) e h =
    article_of-IsBody (get_value "article" fs) (get_value "markdown" fs) e h
article_event-IsBody v e h = absurd (ground arith)

pub emit_article-Progress :
    (name : String) (r : ToolResult) (s : State) → Progress s (emit_article name r s)
unfolding emit_article
emit_article-Progress name r s =
    elim (Bool-cases (r.ok_flag && (name == "compose_research_article"))) [
      | inr other ↦ rw other (Progress-refl s)
      | inl published ↦ elim (Option-cases (article_event r.result)) [
        | inl nothing ↦ rw (published, nothing) (Progress-refl s)
        | inr (e, found) ↦
            rw (published, found) (emit-Progress e s (article_event-IsBody r.result e found))
      ]
    ]

module _ (session : Session) where
  refuse-IsCalled :
      (s : State) (call : ToolCall)
      → 1 ≤ s.tool_budget
      → IsCalled s call (ok (refuse session s call))
  unfolding refuse
  refuse-IsCalled s call left =
      let line = trace_line session call ("error: " ⧺ unavailable call.name) in
      let c = call_event call call.name "meta" "fast" in
      elim (Bool-cases session.suppress_refused_tool_events) [
        | inl quiet ↦ rw quiet (spend-Progress line s left, refl)
        | inr loud ↦
            rw loud (paid-Progress line c call.id (refused_result call.name) s refl refl left, refl)
      ]

  settle-IsCalled :
      (s t : State) (call : ToolCall) (r : ToolResult)
      → Progress s t
      → IsCalled s call (settle session t call r)
  unfolding settle
  settle-IsCalled s t call r p = elim (Bool-cases r.ok_flag) [
    | inl good ↦ rw good (
      let r' = record r { ok_flag = true } in
          Progress-trans s t (emit_article call.name r' t) p (emit_article-Progress call.name r' t),
      refl,
    )
    | inr bad ↦ rw bad (record {
      new = p.new;
      events = p.events;
      body = inl p.body;
      calls = omega (arith, p.calls, p.account);
    })
  ]

  receive-IsCalled :
      (s : State) (call : ToolCall) (r : ToolResult) (c : ToolCallEvent)
      → call.id ≡ c.id
      → r.name ≡ c.name
      → 1 ≤ s.tool_budget
      → IsCalled s call (receive session (emit (tool_call c) s) call r)
  unfolding receive
  receive-IsCalled s call r c same_id same_name left =
      let line = trace_line session call (status_of r) in
      let traced = spend line (emit (tool_result call.id r) (emit (tool_call c) s)) in
      let p = paid-Progress line c call.id r s same_id same_name left in
      let settled = record traced { required_first_result_pending = false } in
      elim (Bool-cases
        (s.required_first_result_pending && is_first session.required_first_tool call.name)) [
          | inl awaited ↦ rw awaited (
              settle-IsCalled s settled call r
                (Progress-trans s traced settled p (settled-Progress traced)))
          | inr other ↦ rw other (
            Progress-trans s traced (emit_article call.name r traced) p
                (emit_article-Progress call.name r traced),
            refl,
          )
        ]

  call_tool-IsCalled :
      (s : State) (call : ToolCall) (spec : ToolSpec)
      → 1 ≤ s.tool_budget
      → IsCalled s call (call_tool session s call spec)
  unfolding call_tool
  call_tool-IsCalled s call spec left =
      let c = call_event call spec.title spec.group spec.cost in
      elim (Option-cases (
        execute_tool session.runtime session.tools call.name (obj call.input) true agent
          session.duration)) [
            | inl raised ↦
                rw (raised, call_tool)
                  (record {
                    new = tool_call c ∷ [];
                    events = refl;
                    body = inr ([], c, refl, tt);
                    calls = left;
                  })
            | inr (r, finished) ↦
                rw (finished, call_tool)
                  (receive-IsCalled s call r c refl
                    (execute_tool-name session.runtime session.tools call.name (obj call.input) true
                      agent session.duration r finished)
                    left)
          ]

  run_call-IsCalled : (s : State) (call : ToolCall) → IsCalled s call (run_call session s call)
  unfolding run_call
  run_call-IsCalled s call = elim (Bool-cases (leb s.tool_budget 0)) [
    | inl spent ↦ rw (spent, run_call) (Progress-refl s, refl)
    | inr left ↦ elim (Option-cases (by_name session.specs call.name)) [
      | inl unknown ↦ rw (left, unknown, run_call) (refuse-IsCalled s call (ground arith))
      | inr (spec, found) ↦
          rw (left, found, run_call) (call_tool-IsCalled s call spec (ground arith))
    ]
  ]

  then-AreCalled :
      (s t : State) (call : ToolCall) (calls : List ToolCall) (block : ResultBlock)
      (rest : Result Failure (State × List ResultBlock))
      → Progress s t
      → block.tool_use_id ≡ call.id
      → AreCalled t calls rest
      → AreCalled s (call ∷ calls) (rest >>= λ r. ok (r.0, block ∷ r.1))
  then-AreCalled s t call calls block (ok (u, blocks)) p same (q, others) =
      (Progress-trans s t u p q, ap₂ (λ x xs. x ∷ xs) same others)
  then-AreCalled s t call calls block (err failure) p same h = Halt-after s t failure.state p h

  -- Calls are answered in their order, each under its own id.
  pub run_calls-AreCalled :
      (s : State) (calls : List ToolCall) → AreCalled s calls (run_calls session s calls)
  unfolding run_calls
  run_calls-AreCalled s [] = (Progress-refl s, refl)
  run_calls-AreCalled s (call ∷ calls) = elim (Result-cases (run_call session s call)) [
    | inr (failure, failed) ↦ rw failed (rw failed at (run_call-IsCalled s call))
    | inl ((t, block), called) ↦
        let (p, same) : Progress s t × (block.tool_use_id ≡ call.id) =
          rw called at (run_call-IsCalled s call) in
        rw called (
          then-AreCalled s t call calls block (run_calls session t calls) p same
            (run_calls-AreCalled t calls))
  ]
