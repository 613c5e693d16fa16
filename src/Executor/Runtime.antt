-- ===== src/Executor/Runtime.antt =====
-- What app/tool_executor.py takes from Flask and the standard library, and the texts of its errors.
use underlying_analyzer_rebo.Base.{ℕ, String, Option, none, some, List, ◌==◌, if◌then◌else◌, map}
use underlying_analyzer_rebo.Base.Text.{take_text, join, ◌⧺◌}
use underlying_analyzer_rebo.Base.Result.{Result, ok, err}
use underlying_analyzer_rebo.Value.{Value, str, obj, Fields, no_fields, field}
use underlying_analyzer_rebo.Value.Access.{get_value, is_null}
use underlying_analyzer_rebo.Value.Show.{Python, str_of}
use underlying_analyzer_rebo.Registry.Spec.{
  ToolFault, unknown_tool, not_an_object, unreadable, missing, not_allowed, requires, crash,
}
use underlying_analyzer_rebo.Executor.Artifacts.{optional_str}

-- What Flask's test client hands back: the body as JSON, where it is JSON, and as text.
pub record Response : Type 0 where
  pub json : Option Value
  pub text : String
  pub status : ℕ

-- What the program takes from Flask and from the standard library. A route that raises gives the
-- text of its exception.
pub record Runtime : Type 0 where
  pub python : Python
  pub open_route : String → String → Option Fields → Result String Response
  pub urlencode : Fields → String
  pub dumps : Value → String
  -- The text of the exception that `int` or `float` raises on a value.
  pub conversion_error : Value → String

abbrev raw_text : String → Value
raw_text text = obj (field "raw" (str (take_text 2000 text)) no_fields)

-- The body as JSON, or its raw text where that is `None`.
abbrev or_raw : String → Option Value → Value
or_raw text none = raw_text text
or_raw text (some v) = if is_null v then raw_text text else v

-- `_dispatch`: the body of a request that is no GET, and the answer or its raw text.
unfoldable pub dispatch : Runtime → String → String → Option Fields → Result String (Value × ℕ)
dispatch rt method url body =
    elim (rt.open_route method url (if method == "GET" then none else body)) [
      | err message ↦ err message
      | ok response ↦ ok (or_raw response.text response.json, response.status)
    ]

-- `_error_text`
unfoldable pub error_text : Value → Option String
error_text (obj fs) = optional_str (get_value "error" fs)
error_text _ = none

abbrev shown_all : Python → List Value → List String
shown_all py vs = map (str_of py) vs

-- The texts of `ToolArgumentError`.
unfoldable pub fault_text : Runtime → ToolFault → String
fault_text rt (unknown_tool name known) =
    "Unknown tool '" ⧺ name ⧺ "'. Available tools: " ⧺ join ", " known
fault_text rt (not_an_object tool) = tool ⧺ " arguments must be an object"
fault_text rt (unreadable v) =
    "Could not read value " ⧺ rt.python.repr v ⧺ ": " ⧺ rt.conversion_error v
fault_text rt (missing tool keys) = tool ⧺ " is missing required argument(s): " ⧺ join ", " keys
fault_text rt (not_allowed tool key allowed v) =
    tool
    ⧺ "."
    ⧺ key
    ⧺ " must be one of: "
    ⧺ join ", " (shown_all rt.python allowed)
    ⧺ " (got '"
    ⧺ str_of rt.python v
    ⧺ "')"
fault_text rt (requires tool key) = tool ⧺ " requires '" ⧺ key ⧺ "'"
fault_text rt crash = ""
