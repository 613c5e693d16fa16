-- ===== src/Agent/Narrow.antt =====
-- The tools of a turn, of app/agent.py: `_last_user_text`, `preclassify_tool_groups`, and where
-- `run_agent_stream` trims its tools. The table `GROUPS` is data and is an argument here.
pub mod Supported
pub mod Safe
pub mod Examples
use underlying_analyzer_rebo.Base.{
  ◌*◌, ◌^◌, String, Bool, true, false, not, ◌&&◌, Option, none, some, List, [], ◌∷◌, leb,
  if◌then◌else◌, keep_if, map, length,
}
use underlying_analyzer_rebo.Base.Text.{strip, blank, take_text, text_in, sort_texts, ◌⧺◌}
use underlying_analyzer_rebo.Base.Int.{ℤ, pos, leb_ℤ}
use underlying_analyzer_rebo.Base.Result.{Result, ok, err, ◌>>=◌}
use underlying_analyzer_rebo.Value.{Value, str, Fields, no_fields, field}
use underlying_analyzer_rebo.Value.Access.{get, has_key}
use underlying_analyzer_rebo.Value.Show.{Python}
use underlying_analyzer_rebo.Registry.Spec.{ToolSpec, agent_tools}
use underlying_analyzer_rebo.Alerts.Rules.{float_or_bool}
use underlying_analyzer_rebo.Jev.Answers.{JevError, overflow, ChoiceAnswer}
use underlying_analyzer_rebo.Jev.Ask.{JevClient, Wire, Asked, choice}
use underlying_analyzer_rebo.Agent.History.{Message, user, same_role}
use underlying_analyzer_rebo.Agent.Select.{names_of, all_in, or_available}

-- The quanta of 0.6 and of 0.3, rounded as doubles.
abbrev pub tool_group_confidence_threshold : ℤ
tool_group_confidence_threshold = pos (5404319552844595 * 2 ^ 1021)

abbrev pub tool_group_secondary_threshold : ℤ
tool_group_secondary_threshold = pos (5404319552844595 * 2 ^ 1020)

-- `_last_user_text`: a later message goes before an earlier one.
unfoldable pub last_user_text : List Message → String
unfolding strip
last_user_text [] = ""
last_user_text (m ∷ ms) =
    let later = last_user_text ms in
    if not (blank later)
    then later
    else if same_role m.role user && not (blank (strip m.content))
    then strip m.content
    else ""

unfoldable pub distinct : List String → List String
unfolding text_in
distinct [] = []
distinct (s ∷ ss) = let rest = distinct ss in if text_in s rest then rest else s ∷ rest

-- `sorted({spec.group for spec in specs})`
unfoldable pub groups_present : List ToolSpec → List String
unfolding distinct sort_texts
groups_present specs = sort_texts (distinct (map (λ spec. spec.group) specs))

abbrev label : String → Option Value → Value
label group none = str group
label group (some shown) = shown

-- `{group: GROUPS.get(group, group) for group in groups_present}`
unfoldable pub criteria_from : Fields → List String → Fields
unfolding get
criteria_from labels [] = no_fields
criteria_from labels (group ∷ groups) =
    field group (label group (get group labels)) (criteria_from labels groups)

abbrev pub criteria_of : Fields → List ToolSpec → Fields
criteria_of labels specs = criteria_from labels (groups_present specs)

abbrev pub take_group :
    Bool → String → Result JevError (List String) → Result JevError (List String)
take_group true group rest = rest >>= λ groups. ok (group ∷ groups)
take_group false group rest = rest

abbrev pub is_likely : ℤ → Bool
is_likely probability = leb_ℤ tool_group_secondary_threshold probability

-- The groups, with one more where what `float` gives for it is enough.
abbrev pub add_group :
    String → Option (Option ℤ) → Result JevError (List String) → Result JevError (List String)
add_group group none rest = err overflow
add_group group (some none) rest = rest
add_group group (some (some probability)) rest = take_group (is_likely probability) group rest

-- The groups that the probabilities add. `OverflowError` is not caught.
unfoldable pub secondary_groups : Python → Fields → Fields → Result JevError (List String)
unfolding float_or_bool get
secondary_groups py criteria no_fields = ok []
secondary_groups py criteria (field group v fs) =
    let rest = secondary_groups py criteria fs in
    if has_key group criteria then add_group group (float_or_bool py v) rest else rest

abbrev pub in_groups : List String → List ToolSpec → List ToolSpec
in_groups groups specs = keep_if (λ spec. text_in spec.group groups) specs

-- `trimmed or specs`, with the groups that the probabilities add.
abbrev pub trim_to : Python → String → List ToolSpec → List String → List ToolSpec
trim_to py chosen specs groups = or_available py (in_groups (chosen ∷ "meta" ∷ groups) specs) specs

abbrev pub is_sure : ChoiceAnswer → Bool
is_sure answer = leb_ℤ tool_group_confidence_threshold answer.confidence

-- What is done with the answer of Jev, every error of which keeps the tools.
unfoldable pub trim :
    Python → Fields → List ToolSpec → Result JevError ChoiceAnswer → Result JevError (List ToolSpec)
unfolding secondary_groups text_in get
trim py criteria specs (err fault) = ok specs
trim py criteria specs (ok answer) =
    if not (is_sure answer)
    then ok specs
    else if not (has_key answer.choice criteria)
    then ok specs
    else (secondary_groups py criteria answer.probabilities >>= λ groups.
        ok (trim_to py answer.choice specs groups))

abbrev pub instructions_for : String → String
instructions_for question =
    "A user is asking the research terminal below a question. Which single capability group is that question most likely about?\n\nUser question:\n"
    ⧺ take_text 2000 question

abbrev pub all_kept : List ToolSpec → Asked (List ToolSpec)
all_kept specs = record { log = []; result = ok specs }

abbrev pub or_agent_tools : List ToolSpec → Option (List ToolSpec) → List ToolSpec
or_agent_tools tools none = agent_tools tools
or_agent_tools tools (some specs) = specs

abbrev pub same_names : List ToolSpec → List ToolSpec → Bool
same_names specs available =
    all_in (names_of specs) (names_of available) && all_in (names_of available) (names_of specs)

module _ (wire : Wire) (client : JevClient) (labels : Fields) where
  -- What Jev is asked about a question.
  abbrev pub group_choice : List ToolSpec → String → Asked ChoiceAnswer
  group_choice specs question =
      choice wire client (str (take_text 4000 question)) "q" (instructions_for question)
        (criteria_of labels specs)

  -- The client is the one that is given, or `JevClient()`.
  unfoldable pub preclassify_tool_groups : List ToolSpec → String → Asked (List ToolSpec)
  unfolding trim groups_present criteria_from strip choice take_text
  preclassify_tool_groups specs question =
      if blank (strip question)
      then all_kept specs
      else if leb (length (groups_present specs)) 1
      then all_kept specs
      else record {
        log = (group_choice specs question).log;
        result = trim wire.py (criteria_of labels specs) specs (group_choice specs question).result;
      }

  -- `preclassify_tool_groups` for tools that nobody has narrowed and with no tool required.
  unfoldable pub narrowed :
      List ToolSpec → List ToolSpec → Option String → List Message → Asked (List ToolSpec)
  unfolding preclassify_tool_groups last_user_text text_in
  narrowed available specs none messages =
      if same_names specs available
      then preclassify_tool_groups specs (last_user_text messages)
      else all_kept specs
  narrowed available specs (some name) messages = all_kept specs

  -- The `specs` of `run_agent_stream`; `tools` is the whole registry.
  unfoldable pub turn_specs :
      List ToolSpec → Option (List ToolSpec) → Option String → List Message → Asked (List ToolSpec)
  unfolding narrowed agent_tools
  turn_specs tools tool_specs required_first_tool messages =
      narrowed (agent_tools tools) (or_agent_tools tools tool_specs) required_first_tool messages
