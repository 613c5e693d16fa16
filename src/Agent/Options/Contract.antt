-- ===== src/Agent/Options/Contract.antt =====
-- What the options of a chat request promise to its run, of `agent_run_options` in app/main.py.
use mathlib.Core.Path.{subst}
use underlying_analyzer_rebo.Base.{
  ◌≡◌, refl, sym, ◌∙◌, ap, String, Bool, true, false, not, ◌||◌, some, List, [], ◌∷◌, ◌==◌, arith,
  Bool-cases, Option-cases, inl, inr,
}
use underlying_analyzer_rebo.Base.Text.{strip, blank, text_in}
use underlying_analyzer_rebo.Base.Result.{Result, ok, err, ◌>>=◌, Result-cases}
use underlying_analyzer_rebo.Value.{Value, null, bool, int, float, str, arr, obj, Fields}
use underlying_analyzer_rebo.Value.Access.{get_value}
use underlying_analyzer_rebo.Value.Show.{Python}
use underlying_analyzer_rebo.Registry.Spec.{ToolSpec, agent_tools, by_name}
use underlying_analyzer_rebo.Agent.History.{Message, normalize_history}
use underlying_analyzer_rebo.Agent.History.Laws.{IsWellFormed, normalize_history-IsWellFormed}
use underlying_analyzer_rebo.Agent.Select.{SelectionError, names_of, select_tools}
use underlying_analyzer_rebo.Agent.Options.{
  AgentConfig, RunOptions, OptionsError, get_agent_client, history_of, tools_of, is_exact,
  policy_of, required_name, agent_run_options,
}
use underlying_analyzer_rebo.Agent.Options.Selection.{
  IsSelection, select_tools-IsSelection, select_tools-AreAmong,
}

-- The options are those that the request asks for, and its run can keep them.
pub record IsContract (tools : List ToolSpec) (payload : Fields) (options : RunOptions)
    : Type 0 where
  pub messages : IsWellFormed options.messages
  pub hidden : options.suppress_refused_tool_events ≡ is_exact payload
  pub available :
      (name : String)
      → text_in name (names_of options.tool_specs) ≡ true
      → text_in name (names_of (agent_tools tools)) ≡ true
  pub selected :
      is_exact payload ≡ true → IsSelection (get_value "tools" payload) options.tool_specs
  pub first :
      (name : String)
      → options.required_first_tool ≡ some name
      → (is_exact payload ≡ true)
        × (blank name ≡ false)
        × ((spec : ToolSpec) × (by_name options.tool_specs name ≡ some spec))

-- A chain that succeeds has a first step that succeeds and a rest that does.
bind-ok {ℓ κ} :
    {A B : Type ℓ} {C : Type κ} (r : Result OptionsError A) (f : A → Result OptionsError B) (b : B)
    → (r >>= f) ≡ ok b
    → ((a : A) → r ≡ ok a → f a ≡ ok b → C)
    → C
bind-ok (ok a) f b h rest = rest a refl h
bind-ok (err fault) f b h rest = absurd (ground arith)

by_name-text_in :
    (name : String) (specs : List ToolSpec)
    → text_in name (names_of specs) ≡ true
    → (spec : ToolSpec) × (by_name specs name ≡ some spec)
unfolding text_in by_name
by_name-text_in name [] h = absurd (ground arith)
by_name-text_in name (spec ∷ specs) h = elim (Option-cases (by_name specs name)) [
  | inr (found, there) ↦ (found, rw there refl)
  | inl absent ↦ elim (Bool-cases (spec.name == name)) [
    | inl same ↦ (spec, rw (absent, same) refl)
    | inr other ↦
        let (found, there) = by_name-text_in name specs (ground (arith, other, h)) in
        absurd (ground (arith, absent, there))
  ]
]

policy_of-ok :
    (payload : Fields) (exact : Bool) → policy_of payload ≡ ok exact → exact ≡ is_exact payload
unfolding policy_of
policy_of-ok payload exact h = ground arith

-- A first tool that is required is one of an exact selection.
required_name-ok :
    (exact : Bool) (specs : List ToolSpec) (v : Value) (name : String)
    → required_name exact specs v ≡ ok (some name)
    → (exact ≡ true) × (blank name ≡ false) × (text_in name (names_of specs) ≡ true)
unfolding required_name
required_name-ok exact specs (str s) name h = elim (Bool-cases (blank (strip s))) [
  | inl nothing ↦ absurd (ground (arith, nothing, h))
  | inr some_text ↦ elim (Bool-cases (not exact || not (text_in (strip s) (names_of specs)))) [
    | inl refused ↦ absurd (ground (arith, some_text, refused, h))
    | inr accepted ↦
        let same : strip s ≡ name = ground (arith, some_text, accepted, h) in
        rw (← same) ((ground (arith, accepted), some_text, ground (arith, accepted)))
  ]
]
required_name-ok exact specs null name h = absurd (ground arith)
required_name-ok exact specs (bool b) name h = absurd (ground arith)
required_name-ok exact specs (int n) name h = absurd (ground arith)
required_name-ok exact specs (float q) name h = absurd (ground arith)
required_name-ok exact specs (arr vs) name h = absurd (ground arith)
required_name-ok exact specs (obj fs) name h = absurd (ground arith)

abbrev made_of : RunOptions → Result OptionsError RunOptions
made_of options = ok options

ok-injective : {a b : RunOptions} → made_of a ≡ ok b → a ≡ b
ok-injective h = ground arith

history_of-ok :
    (py : Python) (v : Value) (messages : List Message)
    → history_of (normalize_history py v) ≡ ok messages
    → normalize_history py v ≡ ok messages
history_of-ok py v messages h = elim (Result-cases (normalize_history py v)) [
  | inl (ms, there) ↦ there ∙ ap (λ kept. ok kept) (ground (arith, rw there at h))
  | inr (fault, failed) ↦ absurd (ground (arith, rw failed at h))
]

tools_of-ok :
    (r : Result SelectionError (List ToolSpec)) (specs : List ToolSpec)
    → tools_of r ≡ ok specs
    → r ≡ ok specs
tools_of-ok (ok kept) specs h = ap (λ rest. ok rest) (ground arith)
tools_of-ok (err fault) specs h = absurd (ground arith)

module _ (py : Python) (tools : List ToolSpec) (payload : Fields) where
  -- The contract of options that are made of the parts of a request.
  parts-IsContract :
      (options : RunOptions)
      → normalize_history py (get_value "messages" payload) ≡ ok options.messages
      → policy_of payload ≡ ok options.suppress_refused_tool_events
      → select_tools py
          (agent_tools tools)
          (get_value "tools" payload)
          options.suppress_refused_tool_events
        ≡ ok options.tool_specs
      → required_name options.suppress_refused_tool_events options.tool_specs
          (get_value "required_first_tool" payload)
        ≡ ok options.required_first_tool
      → IsContract tools payload options
  parts-IsContract options history policy selection required =
      let same = policy_of-ok payload options.suppress_refused_tool_events policy in
      record {
        messages =
            normalize_history-IsWellFormed py (get_value "messages" payload) options.messages
              history;
        hidden = same;
        available =
            select_tools-AreAmong py (agent_tools tools) (get_value "tools" payload)
              options.suppress_refused_tool_events options.tool_specs selection;
        selected = λ exact.
            (select_tools-IsSelection py (agent_tools tools) (get_value "tools" payload)
              options.tool_specs (rw (same ∙ exact) at selection)).0;
        first = λ name wanted.
            let (exact, shown, there) =
              required_name-ok options.suppress_refused_tool_events options.tool_specs
                (get_value "required_first_tool" payload) name (rw wanted at required) in
            (sym same ∙ exact, shown, by_name-text_in name options.tool_specs there);
      }

  pub agent_run_options-IsContract :
      (default : String) (config : AgentConfig) (options : RunOptions)
      → agent_run_options py tools default config payload ≡ ok options
      → IsContract tools payload options
  unfolding agent_run_options
  agent_run_options-IsContract default config options h =
      bind-ok (get_agent_client default config) _ options h λ client known h1.
        bind-ok (history_of (normalize_history py (get_value "messages" payload))) _ options h1
          λ messages history h2. bind-ok (policy_of payload) _ options h2 λ exact policy h3.
            bind-ok
              (tools_of (select_tools py (agent_tools tools) (get_value "tools" payload) exact)) _
              options h3
              λ specs selection h4.
                bind-ok (required_name exact specs (get_value "required_first_tool" payload)) _
                  options h4
                  λ first required made. subst (IsContract tools payload) (ok-injective made) (
                    parts-IsContract _
                      (history_of-ok py (get_value "messages" payload) messages history) policy
                      (tools_of-ok _ specs selection) required)
