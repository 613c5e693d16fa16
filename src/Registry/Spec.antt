-- ===== src/Registry/Spec.antt =====
-- `ToolSpec` and the lookup of a tool by name, of app/tool_registry.py. The table `TOOLS` is data and
-- is an argument here.
use underlying_analyzer_rebo.Base.{
  String, Bool, Option, none, some, List, [], ◌∷◌, ◌==◌, if◌then◌else◌, is_some, keep_if, not,
}
use underlying_analyzer_rebo.Base.Text.{text_in, sort_texts, join, strip, strip_end, blank, ◌⧺◌}
use underlying_analyzer_rebo.Base.Result.{Result, ok, err}
use underlying_analyzer_rebo.Value.{Value, str, arr, Items, no_items, item, Fields}
use underlying_analyzer_rebo.Value.Access.{get_value, as_dict}

pub record ToolSpec : Type 0 where
  pub name : String
  pub title : String
  pub group : String
  pub summary : String
  pub when_to_use : String
  pub method : String
  pub path : String
  pub input_schema : Fields
  pub returns : String
  pub path_params : List String
  pub produces_images : Bool
  pub cost : String
  pub agent : Bool
  pub mcp : Bool
  pub aliases : List String

-- `ToolArgumentError` by the place that raises it, and `crash` for any other exception.
pub data ToolFault : Type 0 where
  unknown_tool : String → List String → ToolFault
  not_an_object : String → ToolFault
  unreadable : Value → ToolFault
  missing : String → List String → ToolFault
  not_allowed : String → String → List Value → Value → ToolFault
  requires : String → String → ToolFault
  crash : ToolFault

-- A schema's `required` is a list of texts.
unfoldable pub text_items : Items → List String
text_items no_items = []
text_items (item (str s) vs) = s ∷ text_items vs
text_items (item _ vs) = text_items vs

unfoldable pub required : ToolSpec → List String
unfolding text_items
required spec = elim (get_value "required" spec.input_schema) [ arr vs ↦ text_items vs | _ ↦ [] ]

unfoldable pub properties : ToolSpec → Fields
properties spec = as_dict (get_value "properties" spec.input_schema)

-- `TOOLS_BY_NAME.get(name)`: of two tools with one name the later one is kept.
unfoldable pub by_name : List ToolSpec → String → Option ToolSpec
by_name [] name = none
by_name (spec ∷ specs) name = elim (by_name specs name) [
  | some found ↦ some found
  | none ↦ if spec.name == name then some spec else none
]

-- `TOOL_ALIASES.get(name)`; the names of `TOOLS` are no aliases.
unfoldable pub alias_from : List ToolSpec → List ToolSpec → String → Option String
alias_from tools [] name = none
alias_from tools (spec ∷ specs) name = elim (alias_from tools specs name) [
  | some found ↦ some found
  | none ↦
      if text_in name spec.aliases
      then if is_some (by_name tools name) then none else some spec.name
      else none
]

abbrev pub or_blank : Option String → String
or_blank none = ""
or_blank (some s) = s

unfoldable pub tool_names : List ToolSpec → List String
tool_names [] = []
tool_names (spec ∷ specs) =
    let rest = tool_names specs in if text_in spec.name rest then rest else spec.name ∷ rest

unfoldable pub get_tool : List ToolSpec → String → Result ToolFault ToolSpec
get_tool tools name = elim (by_name tools name) [
  | some spec ↦ ok spec
  | none ↦ elim (by_name tools (or_blank (alias_from tools tools name))) [
    | some spec ↦ ok spec
    | none ↦ err (unknown_tool name (sort_texts (tool_names tools)))
  ]
]

-- The description that MCP clients and the model read.
unfoldable pub describe : ToolSpec → String
describe spec =
    let parts =
      (strip_end b'.' spec.summary ⧺ ".")
      ∷ strip spec.when_to_use
      ∷ (if spec.produces_images
          then "Returns rendered chart images as artifacts; the tool result carries lightweight image refs instead of base64."
          else "")
      ∷ [] in
    join " " (keep_if (λ part. not (blank part)) parts)

unfoldable pub agent_tools : List ToolSpec → List ToolSpec
agent_tools tools = keep_if (λ spec. spec.agent) tools

unfoldable pub mcp_tools : List ToolSpec → List ToolSpec
mcp_tools tools = keep_if (λ spec. spec.mcp) tools
