-- ===== src/Agent/Loop/Steps.antt =====
-- One turn of the loop of `run_agent_stream` of app/agent.py, from state to state.
use underlying_analyzer_rebo.Base.{
  ◌+◌, ◌≤◌, String, ◌≡◌, refl, sym, ◌∙◌, ap, ap₂, inl, inr, true, Option, none, some, List, [], ◌∷◌,
  ◌++◌, append_assoc, append-nil, length, ◌==◌, if◌then◌else◌, Bool-cases, arith, map,
}
use underlying_analyzer_rebo.Base.Text.{strip, blank, join}
use underlying_analyzer_rebo.Base.Result.{Result, ok, err, ◌>>=◌}
use underlying_analyzer_rebo.Agent.Stream.{
  ToolCall, ModelEvent, text_delta, tool_use, stop, other_event, ResultBlock, Turn, said, asked,
  answers, AgentEvent, text, Session, State, Failure, emit, run_calls,
}
use underlying_analyzer_rebo.Agent.Stream.Events.{
  IsBody, IsBody-append, IsCutBody-append, count_calls, count_calls-append,
}
use underlying_analyzer_rebo.Agent.Stream.Progress.{
  Progress, Halt, Progress-trans, Progress-refl, AreCalled, run_calls-AreCalled, events_trans,
  emit-Progress,
}
use underlying_analyzer_rebo.Agent.Loop.{
  Yield, read_events, fresh, answer_calls, check_first, finish_turn, take_turn, run_turn, stop_with,
  due, take_calls, keep_text, hear,
}

-- Every message with calls is followed by one with their results, in the order of the calls and each
-- under its call's id.
abbrev pub AreAnswered : List Turn → Type 0
AreAnswered [] = Unit
AreAnswered (said m ∷ turns) = AreAnswered turns
AreAnswered (asked t calls ∷ answers blocks ∷ turns) =
    (map (λ b. b.tool_use_id) blocks ≡ map (λ c. c.id) calls) × AreAnswered turns
AreAnswered _ = ⊥

pub AreAnswered-append :
    (turns more : List Turn) → AreAnswered turns → AreAnswered more → AreAnswered (turns ++ more)
AreAnswered-append [] more h k = k
AreAnswered-append (said m ∷ turns) more h k = AreAnswered-append turns more h k
AreAnswered-append (asked t calls ∷ answers blocks ∷ turns) more (p, h) k =
    (p, AreAnswered-append turns more h k)
AreAnswered-append (asked t calls ∷ []) more h k = elim h [ ]
AreAnswered-append (asked t calls ∷ (said m ∷ turns)) more h k = elim h [ ]
AreAnswered-append (asked t calls ∷ (asked u cs ∷ turns)) more h k = elim h [ ]
AreAnswered-append (answers blocks ∷ turns) more h k = elim h [ ]

-- A turn adds events, and messages to the conversation; it spends what it adds to the trace.
pub record Step (s t : State) : Type 0 where
  pub account : length t.tool_trace + t.tool_budget ≡ length s.tool_trace + s.tool_budget
  pub new : List AgentEvent
  pub events : t.events ≡ s.events ++ new
  pub body : IsBody new
  pub calls : count_calls new + length s.tool_trace ≤ length t.tool_trace
  pub more : List Turn
  pub conversation : t.conversation ≡ s.conversation ++ more
  pub answered : AreAnswered more

Progress-Step : (s t : State) → Progress s t → Step s t
Progress-Step s t p = record {
  account = p.account;
  new = p.new;
  events = p.events;
  body = p.body;
  calls = p.calls;
  more = [];
  conversation = p.conversation ∙ sym (append-nil s.conversation);
  answered = tt;
}

pub Step-refl : (s : State) → Step s s
Step-refl s = Progress-Step s s (Progress-refl s)

-- Where neither the events, the conversation, the trace nor the budget change.
same_log-Step :
    (s t : State)
    → t.events ≡ s.events
    → t.conversation ≡ s.conversation
    → t.tool_trace ≡ s.tool_trace
    → t.tool_budget ≡ s.tool_budget
    → Step s t
same_log-Step s t same_events same_conversation same_trace same_budget = record {
  account = ap₂ (λ trace budget. length trace + budget) same_trace same_budget;
  new = [];
  events = same_events ∙ sym (append-nil s.events);
  body = tt;
  calls = rw same_trace (omega arith);
  more = [];
  conversation = same_conversation ∙ sym (append-nil s.conversation);
  answered = tt;
}

pub Step-trans : (s t u : State) → Step s t → Step t u → Step s u
Step-trans s t u p q = record {
  account = q.account ∙ p.account;
  new = p.new ++ q.new;
  events = events_trans s.events t.events u.events p.new q.new p.events q.events;
  body = IsBody-append p.new q.new p.body q.body;
  calls = omega (arith, count_calls-append p.new q.new, p.calls, q.calls);
  more = p.more ++ q.more;
  conversation =
      q.conversation
      ∙ ap (λ turns. turns ++ q.more) p.conversation
      ∙ append_assoc s.conversation p.more q.more;
  answered = AreAnswered-append p.more q.more p.answered q.answered;
}

Halt-later : (s t u : State) → Step s t → Halt t u → Halt s u
Halt-later s t u p q = record {
  new = p.new ++ q.new;
  events = events_trans s.events t.events u.events p.new q.new p.events q.events;
  body = IsCutBody-append p.new q.new p.body q.body;
  calls = omega (arith, count_calls-append p.new q.new, p.calls, q.calls, p.account);
}

abbrev pub IsTurn {ℓ} : {A : Type ℓ} → State → Result Failure (State × A) → Type 0
IsTurn s (ok (t, a)) = Step s t
IsTurn s (err failure) = Halt s failure.state

pub IsTurn-after {ℓ} :
    {A : Type ℓ} (s t : State) (r : Result Failure (State × A)) → Step s t → IsTurn t r → IsTurn s r
IsTurn-after s t (ok (u, a)) p h = Step-trans s t u p h
IsTurn-after s t (err failure) p h = Halt-later s t failure.state p h

-- An error that the loop itself finds.
Halt-refl : (s : State) → Halt s s
Halt-refl s = record {
  new = [];
  events = sym (append-nil s.events);
  body = inl tt;
  calls = omega arith;
}

read_events-Progress :
    (es : List ModelEvent) (s : State) (y : Yield) → Progress s (read_events es s y).0
unfolding read_events
read_events-Progress [] s y = Progress-refl s
read_events-Progress (text_delta t ∷ es) s y =
    Progress-trans s (emit (text t) s)
      (read_events es (emit (text t) s) (record y { turn_text = y.turn_text ++ t ∷ [] })).0
      (emit-Progress (text t) s tt)
      (read_events-Progress es (emit (text t) s) (record y { turn_text = y.turn_text ++ t ∷ [] }))
read_events-Progress (tool_use call ∷ es) s y =
    read_events-Progress es s (record y { pending = y.pending ++ call ∷ [] })
read_events-Progress (stop reason ∷ es) s y = read_events-Progress es s _
read_events-Progress (other_event ∷ es) s y = read_events-Progress es s y

-- The message with the calls, the calls and the message with their results.
ran-IsTurn :
    (s : State) (block : Option String) (calls : List ToolCall)
    (ran : Result Failure (State × List ResultBlock))
    → AreCalled (record s { conversation = s.conversation ++ asked block calls ∷ [] }) calls ran
    → IsTurn {A = Option String} s
        (ran >>= λ r. ok (record r.0 { conversation = r.0.conversation ++ answers r.1 ∷ [] }, none))
ran-IsTurn s block calls (err failure) h = record {
  new = h.new;
  events = h.events;
  body = h.body;
  calls = h.calls;
}
ran-IsTurn s block calls (ok (t, blocks)) (p, same) = record {
  account = p.account;
  new = p.new;
  events = p.events;
  body = p.body;
  calls = p.calls;
  more = asked block calls ∷ answers blocks ∷ [];
  conversation =
      ap (λ turns. turns ++ answers blocks ∷ []) p.conversation
      ∙ append_assoc s.conversation (asked block calls ∷ []) (answers blocks ∷ []);
  answered = (same, tt);
}

module _ (session : Session) where
  answer_calls-IsTurn :
      (s : State) (joined : String) (calls : List ToolCall)
      → IsTurn s (answer_calls session s joined calls)
  unfolding answer_calls
  answer_calls-IsTurn s joined calls =
      let block = if blank joined then none else some joined in
      let begun = record s { conversation = s.conversation ++ asked block calls ∷ [] } in
      ran-IsTurn s block calls (run_calls session begun calls)
        (run_calls-AreCalled session begun calls)

  finish_turn-IsTurn :
      (s : State) (reason : String) (due : Option String)
      → IsTurn s (finish_turn session s reason due)
  unfolding finish_turn
  finish_turn-IsTurn s reason none = Progress-Step s s (Progress-refl s)
  finish_turn-IsTurn s reason (some first) = Halt-refl s

  check_first-IsTurn :
      (s : State) (joined : String) (call : ToolCall) (calls : List ToolCall) (due : Option String)
      → IsTurn s (check_first session s joined call calls due)
  unfolding check_first
  check_first-IsTurn s joined call calls none = answer_calls-IsTurn s joined (call ∷ calls)
  check_first-IsTurn s joined call calls (some first) = elim (Bool-cases (call.name == first)) [
    | inl same ↦
        let marked = record s { first_tool_called = true; required_first_result_pending = true } in
        rw (same, check_first)
          (IsTurn-after s marked (answer_calls session marked joined (call ∷ calls))
            (same_log-Step s marked refl refl refl refl)
            (answer_calls-IsTurn marked joined (call ∷ calls)))
    | inr other ↦ rw (other, check_first) (Halt-refl s)
  ]

  take_calls-IsTurn :
      (s : State) (joined reason : String) (calls : List ToolCall)
      → IsTurn s (take_calls session s joined reason calls)
  unfolding take_calls
  take_calls-IsTurn s joined reason [] = finish_turn-IsTurn s reason (due session s)
  take_calls-IsTurn s joined reason (call ∷ calls) = elim (Bool-cases (reason == "tool_use")) [
    | inl going ↦ rw (going, take_calls) (check_first-IsTurn s joined call calls (due session s))
    | inr over ↦ rw (over, take_calls) (finish_turn-IsTurn s reason (due session s))
  ]

  take_turn-IsTurn : (s : State) (y : Yield) → IsTurn s (take_turn session s y)
  unfolding take_turn
  take_turn-IsTurn s y =
      let joined = strip (join "" y.turn_text) in
      let kept = keep_text session s joined in
      IsTurn-after s kept (take_calls session kept joined y.stop_reason y.pending)
        (same_log-Step s kept refl refl refl refl)
        (take_calls-IsTurn kept joined y.stop_reason y.pending)

  hear-IsTurn :
      (s : State) (told : List ModelEvent × Option String) → IsTurn s (hear session s told)
  unfolding hear
  hear-IsTurn s (yielded, none) =
      let heard = (read_events yielded s fresh).0 in
      let y = (read_events yielded s fresh).1 in
      IsTurn-after s heard (take_turn session heard y)
        (Progress-Step s heard (read_events-Progress yielded s fresh)) (take_turn-IsTurn heard y)
  hear-IsTurn s (yielded, some message) =
      let heard = (read_events yielded s fresh).0 in
      IsTurn-after {A = Option String} s heard (stop_with heard message)
        (Progress-Step s heard (read_events-Progress yielded s fresh)) (Halt-refl heard)

  pub run_turn-IsTurn : (s : State) → IsTurn s (run_turn session s)
  unfolding run_turn
  run_turn-IsTurn s = hear-IsTurn s (session.stream s.conversation)
