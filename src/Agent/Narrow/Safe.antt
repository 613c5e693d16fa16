-- ===== src/Agent/Narrow/Safe.antt =====
-- `preclassify_tool_groups` of app/agent.py never starves a turn of tools.
use underlying_analyzer_rebo.Base.{
  ◌≡◌, refl, ◌⊎◌, inl, inr, Option, none, some, String, true, List, [], ◌∷◌, leb, arith, length,
  Bool-cases,
}
use underlying_analyzer_rebo.Base.Text.{strip, blank, take_text, text_in}
use underlying_analyzer_rebo.Base.Int.{ℤ, pos, negsuc, leb_ℤ}
use underlying_analyzer_rebo.Base.Result.{Result, ok, err, ◌>>=◌}
use underlying_analyzer_rebo.Value.{str, Fields}
use underlying_analyzer_rebo.Value.Access.{has_key, get_value}
use underlying_analyzer_rebo.Value.Show.{Python}
use underlying_analyzer_rebo.Registry.Spec.{ToolSpec, agent_tools}
use underlying_analyzer_rebo.Jev.Answers.{JevError, overflow, ChoiceAnswer, is_confident}
use underlying_analyzer_rebo.Jev.Ask.{JevClient, Wire, ask, choice_question}
use underlying_analyzer_rebo.Jev.Laws.{IsSupported, choice-IsSupported}
use underlying_analyzer_rebo.Agent.History.{Message}
use underlying_analyzer_rebo.Agent.Select.{or_available}
use underlying_analyzer_rebo.Agent.Narrow.{
  tool_group_confidence_threshold, groups_present, criteria_of, in_groups, trim_to, is_sure, trim,
  instructions_for, group_choice, preclassify_tool_groups, all_kept, or_agent_tools, same_names,
  narrowed, turn_specs, last_user_text,
}
use underlying_analyzer_rebo.Agent.Narrow.Supported.{
  AreLikelyIn, HasOverflow, IsSecondary, secondary_groups-IsSecondary, text_in_head, text_in_tail,
}

-- An answer that is sure and names a group of the criteria.
abbrev IsFit : Fields → ChoiceAnswer → Type 0
IsFit criteria answer = (is_sure answer ≡ true) × (has_key answer.choice criteria ≡ true)

-- The tools of some groups, the chosen one, `meta` and all likely ones among them.
abbrev pub IsTrim : Python → Fields → List ToolSpec → ChoiceAnswer → List ToolSpec → Type 0
IsTrim py criteria specs answer kept =
    (groups : List String) × (kept ≡ in_groups groups specs)
    × (text_in answer.choice groups ≡ true)
    × (text_in "meta" groups ≡ true)
    × AreLikelyIn py criteria answer.probabilities groups

-- What `trim` gives for an answer.
abbrev IsTrimmed :
    Python → Fields → List ToolSpec → ChoiceAnswer → Result JevError (List ToolSpec) → Type 0
IsTrimmed py criteria specs answer (ok kept) =
    (kept ≡ [] → specs ≡ [])
    × ((kept ≡ specs) ⊎ (IsFit criteria answer × IsTrim py criteria specs answer kept))
IsTrimmed py criteria specs answer (err fault) =
    (fault ≡ overflow) × IsFit criteria answer × HasOverflow py criteria answer.probabilities

or_available-cases :
    (py : Python) (xs ys : List ToolSpec)
    → (or_available py xs ys ≡ [] → ys ≡ [])
      × ((or_available py xs ys ≡ ys) ⊎ (or_available py xs ys ≡ xs))
or_available-cases py [] ys = (λ h. h, inl refl)
or_available-cases py (x ∷ xs) ys = (λ h. absurd (ground arith), inr refl)

trim_to-IsTrimmed :
    (py : Python) (criteria : Fields) (specs : List ToolSpec) (answer : ChoiceAnswer)
    (groups : Result JevError (List String))
    → IsFit criteria answer
    → IsSecondary py criteria answer.probabilities groups
    → IsTrimmed py criteria specs answer (groups >>= λ gs. ok (trim_to py answer.choice specs gs))
trim_to-IsTrimmed py criteria specs answer (err fault) fit (same, raised) = (same, fit, raised)
trim_to-IsTrimmed py criteria specs answer (ok gs) fit likely =
    let groups = answer.choice ∷ "meta" ∷ gs in
    let (never_empty, either) = or_available-cases py (in_groups groups specs) specs in
    (
      never_empty,
      elim either [
        | inl same ↦ inl same
        | inr same ↦ inr (
          fit,
          (
            groups,
            same,
            text_in_head answer.choice answer.choice ("meta" ∷ gs) refl,
            text_in_tail answer.choice "meta" ("meta" ∷ gs) (text_in_head "meta" "meta" gs refl),
            λ group v q here known read enough.
                text_in_tail answer.choice group ("meta" ∷ gs)
                  (text_in_tail "meta" group gs (likely group v q here known read enough)),
          ),
        )
      ],
    )

trim-IsTrimmed :
    (py : Python) (criteria : Fields) (specs : List ToolSpec) (answer : ChoiceAnswer)
    → IsTrimmed py criteria specs answer (trim py criteria specs (ok answer))
unfolding trim
trim-IsTrimmed py criteria specs answer = elim (Bool-cases (is_sure answer)) [
  | inr unsure ↦ rw unsure (λ h. h, inl refl)
  | inl sure ↦ elim (Bool-cases (has_key answer.choice criteria)) [
    | inr unknown ↦ rw (sure, unknown) (λ h. h, inl refl)
    | inl known ↦
        rw (sure, known)
          (trim_to-IsTrimmed py criteria specs answer _ (sure, known)
            (secondary_groups-IsSecondary py criteria answer.probabilities))
  ]
]

sure-confident : (q : ℤ) → leb_ℤ tool_group_confidence_threshold q ≡ true → is_confident q ≡ true
sure-confident (pos n) h = ground arith
sure-confident (negsuc n) h = ground arith

module _ (wire : Wire) (client : JevClient) (labels : Fields) where
  -- Jev was asked about the question and its answer is fit for use.
  abbrev pub IsTold : List ToolSpec → String → ChoiceAnswer → Type 0
  IsTold specs question answer =
      IsFit (criteria_of labels specs) answer
      × ((answers : Fields) × ((ask wire client (str (take_text 4000 question))
              (choice_question "q" (instructions_for question) (criteria_of labels specs))).result
            ≡ ok answers)
          × IsSupported wire.py (get_value "q" answers) answer)

  -- What the tools of a question are trimmed to, or the error that escapes.
  abbrev pub IsNarrowing : List ToolSpec → String → Result JevError (List ToolSpec) → Type 0
  IsNarrowing specs question (ok kept) =
      (kept ≡ [] → specs ≡ [])
      × ((kept ≡ specs)
          ⊎ ((answer : ChoiceAnswer) × IsTold specs question answer
              × IsTrim wire.py (criteria_of labels specs) specs answer kept))
  IsNarrowing specs question (err fault) =
      (fault ≡ overflow)
      × ((answer : ChoiceAnswer) × IsTold specs question answer
          × HasOverflow wire.py (criteria_of labels specs) answer.probabilities)

  IsFit-IsTold :
      (specs : List ToolSpec) (question : String) (answer : ChoiceAnswer)
      → (group_choice wire client labels specs question).result ≡ ok answer
      → IsFit (criteria_of labels specs) answer
      → IsTold specs question answer
  IsFit-IsTold specs question answer given (sure, known) = (
    (sure, known),
    choice-IsSupported wire client (str (take_text 4000 question)) "q" (instructions_for question)
        (criteria_of labels specs) answer given (sure-confident answer.confidence sure),
  )

  IsTrimmed-IsNarrowing :
      (specs : List ToolSpec) (question : String) (answer : ChoiceAnswer)
      (result : Result JevError (List ToolSpec))
      → (group_choice wire client labels specs question).result ≡ ok answer
      → IsTrimmed wire.py (criteria_of labels specs) specs answer result
      → IsNarrowing specs question result
  IsTrimmed-IsNarrowing specs question answer (err fault) given (same, fit, raised) =
      (same, (answer, IsFit-IsTold specs question answer given fit, raised))
  IsTrimmed-IsNarrowing specs question answer (ok kept) given (never_empty, inl same) =
      (never_empty, inl same)
  IsTrimmed-IsNarrowing specs question answer (ok kept) given (never_empty, inr (fit, trimmed)) =
      (never_empty, inr (answer, IsFit-IsTold specs question answer given fit, trimmed))

  trim-IsNarrowing :
      (specs : List ToolSpec) (question : String) (given : Result JevError ChoiceAnswer)
      → (group_choice wire client labels specs question).result ≡ given
      → IsNarrowing specs question (trim wire.py (criteria_of labels specs) specs given)
  unfolding trim
  trim-IsNarrowing specs question (err fault) given = (λ h. h, inl refl)
  trim-IsNarrowing specs question (ok answer) given =
      IsTrimmed-IsNarrowing specs question answer _ given
        (trim-IsTrimmed wire.py (criteria_of labels specs) specs answer)

  preclassify_tool_groups-IsNarrowing :
      (specs : List ToolSpec) (question : String)
      → IsNarrowing specs question
          (preclassify_tool_groups wire client labels specs question).result
  unfolding preclassify_tool_groups
  preclassify_tool_groups-IsNarrowing specs question = elim (Bool-cases (blank (strip question))) [
    | inl nothing ↦ rw nothing (λ h. h, inl refl)
    | inr asked ↦ elim (Bool-cases (leb (length (groups_present specs)) 1)) [
      | inl one ↦ rw (asked, one) (λ h. h, inl refl)
      | inr several ↦ rw (asked, several) (trim-IsNarrowing specs question _ refl)
    ]
  ]

  -- The tools of a run are those it is given, by default all of the agent's, and Jev is not asked, or
  -- no tool is required, the tools have the names of all of the agent's, and: the tools kept are none
  -- only where the given ones are none; they are the given ones, or `ask` was answered by a choice that
  -- the answer itself supports, is at least 0.6 sure and names a group of the tools, and they are, in
  -- order, all the tools of some groups among which are the choice, `meta` and each group with a
  -- probability of at least 0.3. An error is only the overflow of such a probability.
  pub turn_specs-IsNarrowing :
      (tools : List ToolSpec) (tool_specs : Option (List ToolSpec)) (required : Option String)
      (messages : List Message)
      → let specs = or_agent_tools tools tool_specs in
        let turn = turn_specs wire client labels tools tool_specs required messages in
        (turn ≡ all_kept specs)
        ⊎ ((required ≡ none)
            × (same_names specs (agent_tools tools) ≡ true)
            × IsNarrowing specs (last_user_text messages) turn.result)
  unfolding turn_specs narrowed
  turn_specs-IsNarrowing tools tool_specs (some name) messages = inl refl
  turn_specs-IsNarrowing tools tool_specs none messages =
      let specs = or_agent_tools tools tool_specs in
      elim (Bool-cases (same_names specs (agent_tools tools))) [
        | inr chosen ↦ rw chosen (inl refl)
        | inl same ↦
            rw same (
              inr (refl, refl, preclassify_tool_groups-IsNarrowing specs (last_user_text messages)))
      ]
