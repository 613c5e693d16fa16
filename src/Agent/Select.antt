-- ===== src/Agent/Select.antt =====
-- `select_tools` of app/agent.py, and the tool blocks of app/tool_registry.py for the model.
use underlying_analyzer_rebo.Base.{
  String, ◌≡◌, refl, sym, Bool, true, false, ◌&&◌, Option, none, some, List, [], ◌∷◌, if◌then◌else◌,
  keep_if, map, arith, eq_iff,
}
use underlying_analyzer_rebo.Base.Text.{strip, blank, text_in}
use underlying_analyzer_rebo.Base.Result.{Result, ok, err}
use underlying_analyzer_rebo.Value.{Value, str, arr, obj, Items, no_items, item, no_fields, field}
use underlying_analyzer_rebo.Value.Access.{is_nil}
use underlying_analyzer_rebo.Value.Show.{Python, str_of}
use underlying_analyzer_rebo.Registry.Spec.{ToolSpec, describe}

-- `anthropic_tool_definitions` for the tools of a turn.
unfoldable pub anthropic_tool_definitions : List ToolSpec → Items
unfolding describe
anthropic_tool_definitions [] = no_items
anthropic_tool_definitions (spec ∷ specs) =
    item
      (obj (
        field "name" (str spec.name) (
          field "description" (str (describe spec))
            (field "input_schema" (obj spec.input_schema) no_fields))))
      (anthropic_tool_definitions specs)

abbrev pub names_of : List ToolSpec → List String
names_of specs = map (λ spec. spec.name) specs

abbrev pub chosen : List String → List ToolSpec → List ToolSpec
chosen wanted specs = keep_if (λ spec. text_in spec.name wanted) specs

-- The names of an exact selection: `none` where one is no text or blank.
unfoldable pub exact_names : Items → Option (List String)
exact_names no_items = some []
exact_names (item (str s) vs) =
    let rest = exact_names vs in
    if blank (strip s)
    then none
    else elim rest [ none ↦ none | some names ↦ some (strip s ∷ names) ]
exact_names (item _ vs) = none

abbrev pub all_in : List String → List String → Bool
all_in [] names = true
all_in (s ∷ ss) names = text_in s names && all_in ss names

-- `AgentError` of an exact selection that is not understood.
pub data SelectionError : Type 0 where
  not_recognized : SelectionError

unfoldable pub select_exact : List ToolSpec → Items → Result SelectionError (List ToolSpec)
unfolding exact_names
select_exact available vs = if is_nil vs then err not_recognized else elim (exact_names vs) [
  | none ↦ err not_recognized
  | some names ↦
      if all_in names (names_of available) then ok (chosen names available) else err not_recognized
]

module _ (py : Python) where
  unfoldable pub given_names : Items → List String
  unfolding str_of
  given_names no_items = []
  given_names (item v vs) =
      let rest = given_names vs in
      if blank (strip (str_of py v)) then rest else strip (str_of py v) ∷ rest

  abbrev pub or_available : List ToolSpec → List ToolSpec → List ToolSpec
  or_available [] available = available
  or_available (spec ∷ specs) available = spec ∷ specs

  -- `select_tools`, with `agent_tools()` as the tools that are available.
  unfoldable pub select_tools : List ToolSpec → Value → Bool → Result SelectionError (List ToolSpec)
  unfolding given_names select_exact
  select_tools available (arr vs) true = select_exact available vs
  select_tools available names true = err not_recognized
  select_tools available (arr vs) false =
      ok (
        if is_nil vs then available else or_available (chosen (given_names vs) available) available)
  select_tools available names false = ok available

-- A tool is chosen where it is wanted and available.
pub chosen-names :
    (name : String) (wanted : List String) (specs : List ToolSpec)
    → text_in name (names_of (chosen wanted specs))
      ≡ (text_in name (names_of specs) && text_in name wanted)
unfolding text_in
chosen-names name wanted [] = refl
chosen-names name wanted (spec ∷ specs) =
    ground (arith, chosen-names name wanted specs, eq_iff spec.name name)

all_in-text_in :
    (name : String) (wanted names : List String)
    → all_in wanted names ≡ true
    → text_in name wanted ≡ true
    → text_in name names ≡ true
unfolding text_in
all_in-text_in name [] names h w = ground arith
all_in-text_in name (s ∷ wanted) names h w =
    ground (arith, all_in-text_in name wanted names, eq_iff s name)

-- An exact selection that is accepted has exactly the tools whose names are given.
pub select_exact-names :
    (available : List ToolSpec) (vs : Items) (names : List String) (specs : List ToolSpec)
    → exact_names vs ≡ some names
    → select_exact available vs ≡ ok specs
    → (name : String) → text_in name (names_of specs) ≡ text_in name names
unfolding select_exact
select_exact-names available vs names specs given h name =
    let same : chosen names available ≡ specs = ground arith in
    let known : all_in names (names_of available) ≡ true = ground arith in
    rw (sym same) (
      ground (
        arith,
        chosen-names name names available,
        all_in-text_in name names (names_of available) known,
      ))
