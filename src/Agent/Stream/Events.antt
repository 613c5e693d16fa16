-- ===== src/Agent/Stream/Events.antt =====
-- The order of the events that `run_agent_stream` of app/agent.py emits.
use underlying_analyzer_rebo.Base.{
  ℕ, suc, ◌+◌, arith, ◌≡◌, sym, ◌∙◌, ap, ◌⊎◌, inl, inr, List, [], ◌∷◌, ◌++◌, append_assoc,
}
use underlying_analyzer_rebo.Agent.Stream.{
  ToolCallEvent, AgentEvent, start, text, tool_call, tool_result, article, error, done,
}

-- The events between the first and the last of a run: texts, articles, and calls of tools, each
-- directly before its result.
abbrev pub IsBody : List AgentEvent → Type 0
IsBody [] = Unit
IsBody (text t ∷ es) = IsBody es
IsBody (article fs v ∷ es) = IsBody es
IsBody (tool_call c ∷ tool_result id r ∷ es) = (id ≡ c.id) × (r.name ≡ c.name) × IsBody es
IsBody _ = ⊥

-- How many tools are called.
abbrev pub count_calls : List AgentEvent → ℕ
count_calls [] = 0
count_calls (tool_call c ∷ es) = suc (count_calls es)
count_calls (_ ∷ es) = count_calls es

pub count_calls-append :
    (es fs : List AgentEvent) → count_calls (es ++ fs) ≡ count_calls es + count_calls fs
count_calls-append [] fs = omega arith
count_calls-append (tool_call c ∷ es) fs = omega (arith, count_calls-append es fs)
count_calls-append (start m ns ∷ es) fs = count_calls-append es fs
count_calls-append (text t ∷ es) fs = count_calls-append es fs
count_calls-append (tool_result id r ∷ es) fs = count_calls-append es fs
count_calls-append (article gs v ∷ es) fs = count_calls-append es fs
count_calls-append (error m ∷ es) fs = count_calls-append es fs
count_calls-append (done x t ls ∷ es) fs = count_calls-append es fs

-- A run that an error ends may have a last call without a result.
abbrev pub IsCutBody : List AgentEvent → Type 0
IsCutBody es =
    IsBody es
    ⊎ ((before : List AgentEvent) × (c : ToolCallEvent) × (es ≡ before ++ tool_call c ∷ [])
        × IsBody before)

pub IsBody-append : (es fs : List AgentEvent) → IsBody es → IsBody fs → IsBody (es ++ fs)
IsBody-append [] fs h k = k
IsBody-append (text t ∷ es) fs h k = IsBody-append es fs h k
IsBody-append (article gs v ∷ es) fs h k = IsBody-append es fs h k
IsBody-append (tool_call c ∷ tool_result id r ∷ es) fs (p, q, h) k = (p, q, IsBody-append es fs h k)
IsBody-append (start _ _ ∷ es) fs h k = elim h [ ]
IsBody-append (tool_call c ∷ []) fs h k = elim h [ ]
IsBody-append (tool_call c ∷ (start _ _ ∷ es)) fs h k = elim h [ ]
IsBody-append (tool_call c ∷ (text _ ∷ es)) fs h k = elim h [ ]
IsBody-append (tool_call c ∷ (tool_call _ ∷ es)) fs h k = elim h [ ]
IsBody-append (tool_call c ∷ (article _ _ ∷ es)) fs h k = elim h [ ]
IsBody-append (tool_call c ∷ (error _ ∷ es)) fs h k = elim h [ ]
IsBody-append (tool_call c ∷ (done _ _ _ ∷ es)) fs h k = elim h [ ]
IsBody-append (tool_result _ _ ∷ es) fs h k = elim h [ ]
IsBody-append (error _ ∷ es) fs h k = elim h [ ]
IsBody-append (done _ _ _ ∷ es) fs h k = elim h [ ]

pub IsCutBody-append : (es fs : List AgentEvent) → IsBody es → IsCutBody fs → IsCutBody (es ++ fs)
IsCutBody-append es fs h (inl k) = inl (IsBody-append es fs h k)
IsCutBody-append es fs h (inr (before, c, e, k)) = inr (
  es ++ before,
  c,
  ap (λ gs. es ++ gs) e ∙ sym (append_assoc es before (tool_call c ∷ [])),
  IsBody-append es before h k,
)
