-- ===== src/Mcp/Route.antt =====
-- What the route `/api/mcp` of app/main.py sends back.
use underlying_analyzer_rebo.Base.{
  ◌≡◌, refl, inl, inr, Bool, true, false, Option, none, some, Bool-cases, arith,
}
use underlying_analyzer_rebo.Base.Text.{◌⧺◌}
use underlying_analyzer_rebo.Value.{Value, null, bool, int, float, str, arr, obj}
use underlying_analyzer_rebo.Value.Access.{is_null}
use underlying_analyzer_rebo.Mcp.Tools.{Server}
use underlying_analyzer_rebo.Mcp.Protocol.{
  handle_payload, HttpReply, bad_request, accepted, json_reply, event_stream, mcp_endpoint,
  reply_with,
}
use underlying_analyzer_rebo.Mcp.Replies.{is_silent, IsReply, IsAnswered, handle_payload-IsAnswered}

-- The reply to a payload: the status is 400 for null, 202 where there is nothing to say, and 200 with
-- a proper response in the form that the client reads. No other reply is for null.
abbrev pub IsHttpReply : Server → Value → Bool → HttpReply → Type 0
IsHttpReply server payload streams (bad_request v) = payload ≡ null
IsHttpReply server payload streams accepted = (is_null payload ≡ false) × (is_silent payload ≡ true)
IsHttpReply server payload streams (json_reply r) =
    (is_null payload ≡ false) × (streams ≡ false) × (is_silent payload ≡ false) × IsReply payload r
IsHttpReply server payload streams (event_stream text) =
    (is_null payload ≡ false)
    × (streams ≡ true)
    × (is_silent payload ≡ false)
    × (r : Value) × IsReply payload r
    × (text ≡ "event: message\ndata: " ⧺ server.runtime.dumps r ⧺ "\n\n")

is_null-null : (v : Value) → is_null v ≡ true → v ≡ null
is_null-null null h = refl
is_null-null (bool b) h = absurd (ground arith)
is_null-null (int n) h = absurd (ground arith)
is_null-null (float q) h = absurd (ground arith)
is_null-null (str s) h = absurd (ground arith)
is_null-null (arr vs) h = absurd (ground arith)
is_null-null (obj fs) h = absurd (ground arith)

module _ (server : Server) where
  reply_with-IsHttpReply :
      (payload : Value) (streams : Bool) (answer : Option Value)
      → is_null payload ≡ false
      → IsAnswered payload answer
      → IsHttpReply server payload streams (reply_with server streams answer)
  unfolding reply_with
  reply_with-IsHttpReply payload streams none given h = (given, h)
  reply_with-IsHttpReply payload true (some r) given h = (given, refl, h.0, r, h.1, refl)
  reply_with-IsHttpReply payload false (some r) given h = (given, refl, h.0, h.1)

  -- The route refuses a null payload, says nothing to a payload that only notifies, and sends every
  -- other payload its proper response, as an event stream to a client that reads one.
  pub mcp_endpoint-IsHttpReply :
      (payload : Value) (streams : Bool)
      → IsHttpReply server payload streams (mcp_endpoint server payload streams)
  unfolding mcp_endpoint
  mcp_endpoint-IsHttpReply payload streams = elim (Bool-cases (is_null payload)) [
    | inl nothing ↦ rw nothing (is_null-null payload nothing)
    | inr given ↦ rw given (
        reply_with-IsHttpReply payload streams (handle_payload server payload) given
          (handle_payload-IsAnswered server payload))
  ]
