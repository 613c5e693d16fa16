-- ===== src/Agent/History.antt =====
-- `normalize_history` of app/agent.py: browser records become the messages of a turn.
pub mod Laws
pub mod Accepts
pub mod Examples
use Prim.Native.String
use underlying_analyzer_rebo.Base.{
  ℕ, String, Bool, true, false, ◌&&◌, ◌||◌, not, Option, none, some, List, [], ◌∷◌, ◌==◌,
  if◌then◌else◌, take, take_last, is_empty,
}
use underlying_analyzer_rebo.Base.Text.{strip, take_text, join, blank, ◌⧺◌}
use underlying_analyzer_rebo.Base.Result.{Result, ok, err}
use underlying_analyzer_rebo.Value.{Value, str, arr, obj, Items, no_items, item, Fields}
use underlying_analyzer_rebo.Value.Access.{items, get_value, or_else}
use underlying_analyzer_rebo.Value.Show.{Python, str_of}

pub data Role : Type 0 where
  user assistant : Role

pub record Message : Type 0 where
  pub role : Role
  pub content : String

-- The texts of `AgentError`.
pub data AgentError : Type 0 where
  not_a_list no_user_message last_not_user : AgentError

abbrev max_history_messages : ℕ
max_history_messages = 40

abbrev max_message_chars : ℕ
max_message_chars = 12000

unfoldable pub parse_role : String → Option Role
parse_role s = if s == "user" then some user else if s == "assistant" then some assistant else none

abbrev pub same_role : Role → Role → Bool
same_role user user = true
same_role assistant assistant = true
same_role _ _ = false

-- The text of a record's `content`, stripped and cut.
unfoldable pub plain_text : Fields → String
plain_text entry = elim (get_value "content" entry) [
  | str s ↦ take_text max_message_chars (strip s)
  | _ ↦ ""
]

bullets : List String → List String
bullets [] = []
bullets (line ∷ lines) = ("- " ⧺ line) ∷ bullets lines

-- A record of the role of the last message joins it.
unfoldable pub add : Role → String → List Message → List Message
add role text [] = record { role = role; content = text } ∷ []
add role text (m ∷ []) =
    if same_role m.role role
    then record m { content = m.content ⧺ "\n\n" ⧺ text } ∷ []
    else m ∷ record { role = role; content = text } ∷ []
add role text (m ∷ n ∷ ms) = m ∷ add role text (n ∷ ms)

-- `while normalized and normalized[0]["role"] != "user": normalized.pop(0)`
unfoldable pub from_user : List Message → List Message
from_user [] = []
from_user (m ∷ ms) = let rest = from_user ms in if same_role m.role user then m ∷ ms else rest

unfoldable pub last_role : Role → List Message → Role
last_role role [] = role
last_role role (m ∷ ms) = last_role m.role ms

unfoldable pub check_last : List Message → Result AgentError (List Message)
check_last [] = err no_user_message
check_last (m ∷ ms) =
    if same_role (last_role m.role ms) user then ok (m ∷ ms) else err last_not_user

module _ (py : Python) where
  -- `[str(item).strip() for item in trace if str(item).strip()]`
  unfoldable pub trace_lines : List Value → List String
  trace_lines [] = []
  trace_lines (v ∷ vs) =
      let line = strip (str_of py v) in
      let rest = trace_lines vs in if blank line then rest else line ∷ rest

  unfoldable pub with_trace : Role → Fields → String → String
  unfolding bullets
  with_trace user entry text = text
  with_trace assistant entry text = elim (get_value "tool_trace" entry) [
    | arr trace ↦
        let lines = trace_lines (take 12 (items trace)) in
        if is_empty lines
        then text
        else strip
            (text ⧺ "\n\n[tools run earlier this conversation]\n" ⧺ join "\n" (bullets lines))
    | _ ↦ text
  ]

  -- The role and text of a record that is kept.
  unfoldable pub usable : Value → Option (Role × String)
  unfolding parse_role plain_text
  usable (obj entry) =
      elim (parse_role (strip (str_of py (or_else (get_value "role" entry) (str ""))))) [
        | none ↦ none
        | some role ↦
            let text = with_trace role entry (plain_text entry) in
            if blank text then none else some (role, text)
      ]
  usable _ = none

  unfoldable pub add_entry : List Message → Value → List Message
  add_entry acc v = elim (usable v) [ none ↦ acc | some (role, text) ↦ add role text acc ]

  unfoldable pub collect : List Message → List Value → List Message
  collect acc [] = acc
  collect acc (v ∷ vs) = collect (add_entry acc v) vs

  unfoldable pub normalize_history : Value → Result AgentError (List Message)
  unfolding check_last from_user collect
  normalize_history (arr messages) =
      check_last (from_user (collect [] (take_last max_history_messages (items messages))))
  normalize_history _ = err not_a_list
