-- ===== src/Agent/Loop/Order.antt =====
-- What a whole run of `run_agent_stream` of app/agent.py emits, and what it sends to the model.
use underlying_analyzer_rebo.Base.{
  ℕ, zero, suc, ◌+◌, ◌≤◌, String, ◌≡◌, refl, ap, ◌⊎◌, inl, inr, none, some, List, [], ◌∷◌, ◌++◌,
  length, arith, map, leb, if◌then◌else◌,
}
use underlying_analyzer_rebo.Base.Text.{strip, join}
use underlying_analyzer_rebo.Base.Result.{Result, ok, err, Result-cases}
use underlying_analyzer_rebo.Agent.History.{Message}
use underlying_analyzer_rebo.Agent.Stream.{
  said, AgentEvent, start, error, done, Session, State, Failure, max_tool_calls,
}
use underlying_analyzer_rebo.Agent.Stream.Events.{IsBody, IsCutBody, count_calls}
use underlying_analyzer_rebo.Agent.Loop.{run_turn, run_turns, initial, closing, run_agent_stream}
use underlying_analyzer_rebo.Agent.Loop.Steps.{
  AreAnswered, AreAnswered-append, Step, Step-trans, Step-refl, IsTurn, IsTurn-after,
  run_turn-IsTurn,
}

-- The states in which a run asks the model.
pub data Reaches (session : Session) (messages : List Message) : State → Type 0 where
  begun : Reaches session messages (initial session messages)
  went_on :
      {s t : State}
      → Reaches session messages s
      → run_turn session s ≡ ok (t, none)
      → Reaches session messages t

-- The events of a run: it starts, calls at most 16 tools, and ends with one closing event.
pub record IsRun (session : Session) (events : List AgentEvent) : Type 0 where
  pub body : List AgentEvent
  pub last : AgentEvent
  pub shape :
      events ≡ start session.model (map (λ spec. spec.name) session.specs) ∷ (body ++ last ∷ [])
  pub closed :
      ((reason : String) × (text : String) × (trace : List String) × (last ≡ done reason text trace)
        × IsBody body)
      ⊎ ((message : String) × (last ≡ error message) × IsCutBody body)
  pub calls : count_calls body ≤ max_tool_calls

said-AreAnswered : (messages : List Message) → AreAnswered (map said messages)
said-AreAnswered [] = tt
said-AreAnswered (m ∷ messages) = said-AreAnswered messages

module _ (session : Session) (messages : List Message) where
  reached-Step : {s : State} → Reaches session messages s → Step (initial session messages) s
  reached-Step begun = Step-refl (initial session messages)
  reached-Step (went_on {s} {t} h e) =
      Step-trans (initial session messages) s t (reached-Step h)
        (rw e at (run_turn-IsTurn session s))

  -- Whenever a run asks the model, the conversation answers every message with tool calls in the
  -- next message, under the same ids and in the same order, and the trace of the run and what is left
  -- of its budget make up 16 calls.
  pub Reaches-AreAnswered :
      (s : State)
      → Reaches session messages s
      → AreAnswered s.conversation × (length s.tool_trace + s.tool_budget ≡ max_tool_calls)
  Reaches-AreAnswered s h =
      let p = reached-Step h in
      (
        rw p.conversation
            (AreAnswered-append (map said messages) p.more (said-AreAnswered messages) p.answered),
        p.account,
      )

pub run_turns-IsTurn : (session : Session) (n : ℕ) (s : State) → IsTurn s (run_turns session n s)
unfolding run_turns
run_turns-IsTurn session zero s = Step-refl s
run_turns-IsTurn session (suc n) s = elim (Result-cases (run_turn session s)) [
  | inr (failure, failed) ↦ rw failed (rw failed at (run_turn-IsTurn session s))
  | inl ((t, some reason), over) ↦ rw over (rw over at (run_turn-IsTurn session s))
  | inl ((t, none), going) ↦ rw going (
      IsTurn-after s t (run_turns session n t) (rw going at (run_turn-IsTurn session s))
        (run_turns-IsTurn session n t))
]

closing-IsRun :
    (session : Session) (messages : List Message) (r : Result Failure (State × String))
    → IsTurn (initial session messages) r
    → IsRun session ((closing session r).0.events ++ (closing session r).1 ∷ [])
closing-IsRun session messages (err failure) h = record {
  body = h.new;
  last = error failure.message;
  shape = ap (λ es. es ++ error failure.message ∷ []) h.events;
  closed = inr (failure.message, refl, h.body);
  calls = h.calls;
}
closing-IsRun session messages (ok (s, reason)) h = record {
  body = h.new;
  last = (closing session (ok (s, reason))).1;
  shape = ap (λ es. es ++ (closing session (ok (s, reason))).1 ∷ []) h.events;
  closed = inl (reason, strip (join "\n\n" s.assistant_text_parts), s.tool_trace, refl, h.body);
  calls = omega (arith, h.calls, h.account);
}

-- A run starts with one start event and ends with one event that says it is done or has failed.
-- Between them are texts, articles and at most 16 tool calls, each directly before its result; only
-- a run that fails may end in a call without a result.
pub run_agent_stream-IsRun :
    (session : Session) (messages : List Message)
    → IsRun session (run_agent_stream session messages)
unfolding run_agent_stream
run_agent_stream-IsRun session messages =
    let turns = if leb session.max_iterations 1 then 1 else session.max_iterations in
    closing-IsRun session messages (run_turns session turns (initial session messages))
      (run_turns-IsTurn session turns (initial session messages))
