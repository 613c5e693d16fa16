-- ===== src/Mcp/Replies.antt =====
-- Which JSON-RPC payloads app/mcp_http.py answers, and with what.
use underlying_analyzer_rebo.Base.{
  String, ◌≡◌, refl, ◌⊎◌, inl, inr, Bool, true, false, not, ◌&&◌, Option, none, some, if◌then◌else◌,
  Bool-cases,
}
use underlying_analyzer_rebo.Base.Int.{ℤ}
use underlying_analyzer_rebo.Base.Result.{Result, ok, err}
use underlying_analyzer_rebo.Value.{
  Value, null, str, arr, obj, Items, no_items, item, Fields, no_fields,
}
use underlying_analyzer_rebo.Value.Access.{get_value, has_key, is_nil, is_text}
use underlying_analyzer_rebo.Mcp.Tools.{Server, Fault, bad_params, not_found, internal}
use underlying_analyzer_rebo.Mcp.Protocol.{
  error_response, result_response, respond, dispatch_method, handle_params, handle_request,
  handle_payload, handle_batch, prepend, unless_nil, handle_method, invalid_params, invalid_request,
}

abbrev is_params : Value → Bool
is_params null = true
is_params (obj fs) = true
is_params _ = false

abbrev is_notification : Fields → Bool
is_notification fs =
    (is_text (get_value "method" fs) && is_params (get_value "params" fs)) && not (has_key "id" fs)

-- A notification, or a batch of nothing else.
abbrev mutual
  pub is_silent : Value → Bool
  is_silent (obj fs) = is_notification fs
  is_silent (arr no_items) = false
  is_silent (arr (item v vs)) = is_silent v && all_silent vs
  is_silent v = false

  pub all_silent : Items → Bool
  all_silent no_items = true
  all_silent (item v vs) = is_silent v && all_silent vs

-- A JSON-RPC response with the id: it has a result or an error, and not both.
abbrev pub IsResponse : Value → Value → Type 0
IsResponse id v =
    ((result : Value) × (v ≡ result_response id result))
    ⊎ ((code : ℤ) × (message : String) × (v ≡ error_response id code message))

-- What answers a payload: a request is answered under its own id, a batch by the array of the
-- answers to its members, in their order and without the notifications, and anything else under the
-- id null.
abbrev mutual
  pub IsReply : Value → Value → Type 0
  IsReply (obj fs) r = IsResponse (get_value "id" fs) r
  IsReply (arr no_items) r = IsResponse null r
  IsReply (arr (item v vs)) r = (rs : Items) × (r ≡ arr rs) × AreReplies (item v vs) rs
  IsReply v r = IsResponse null r

  pub AreReplies : Items → Items → Type 0
  AreReplies no_items rs = rs ≡ no_items
  AreReplies (item v vs) rs =
      ((is_silent v ≡ true) × AreReplies vs rs)
      ⊎ ((is_silent v ≡ false)
          × (r : Value) × (rest : Items) × (rs ≡ item r rest)
          × IsReply v r
          × AreReplies vs rest)

abbrev pub IsAnswered : Value → Option Value → Type 0
IsAnswered v none = is_silent v ≡ true
IsAnswered v (some r) = (is_silent v ≡ false) × IsReply v r

module _ (server : Server) where
  respond-IsResponse :
      (id : Value) (answer : Result Fault Value) → IsResponse id (respond id answer)
  unfolding respond
  respond-IsResponse id (ok result) = inl (result, refl)
  respond-IsResponse id (err (bad_params message)) = inr (_, _, refl)
  respond-IsResponse id (err (not_found message)) = inr (_, _, refl)
  respond-IsResponse id (err (internal message)) = inr (_, _, refl)

  known-IsAnswered :
      (fs : Fields) (reply : Value)
      → (is_text (get_value "method" fs) && is_params (get_value "params" fs)) ≡ true
      → IsResponse (get_value "id" fs) reply
      → IsAnswered (obj fs) (if has_key "id" fs then some reply else none)
  known-IsAnswered fs reply known h = elim (Bool-cases (has_key "id" fs)) [
    | inl asked ↦ rw asked (rw (known, asked) refl, h)
    | inr silent ↦ rw silent (rw (known, silent) refl)
  ]

  refused-IsAnswered :
      (fs : Fields) (code : ℤ) (message : String)
      → (is_text (get_value "method" fs) && is_params (get_value "params" fs)) ≡ false
      → IsAnswered (obj fs) (some (error_response (get_value "id" fs) code message))
  refused-IsAnswered fs code message bad = (rw bad refl, inr (code, message, refl))

  handle_params-IsAnswered :
      (fs : Fields) (method : String) (params : Value)
      → get_value "method" fs ≡ str method
      → get_value "params" fs ≡ params
      → IsAnswered (obj fs) (handle_params server fs method params)
  unfolding handle_params
  handle_params-IsAnswered fs method (obj params) named given =
      let answer = dispatch_method server method params in
      known-IsAnswered fs (respond (get_value "id" fs) answer) (rw (named, given) refl)
        (respond-IsResponse (get_value "id" fs) answer)
  handle_params-IsAnswered fs method null named given =
      let answer = dispatch_method server method no_fields in
      known-IsAnswered fs (respond (get_value "id" fs) answer) (rw (named, given) refl)
        (respond-IsResponse (get_value "id" fs) answer)
  handle_params-IsAnswered fs method v named given =
      refused-IsAnswered fs invalid_params "params must be an object" (rw (named, given) refl)

  handle_method-IsAnswered :
      (fs : Fields) (method : Value)
      → get_value "method" fs ≡ method
      → IsAnswered (obj fs) (handle_method server fs method)
  unfolding handle_method
  handle_method-IsAnswered fs (str method) named =
      handle_params-IsAnswered fs method (get_value "params" fs) named refl
  handle_method-IsAnswered fs v named =
      refused-IsAnswered fs invalid_request "Missing method" (rw named refl)

  handle_request-IsAnswered : (fs : Fields) → IsAnswered (obj fs) (handle_request server fs)
  unfolding handle_request
  handle_request-IsAnswered fs = handle_method-IsAnswered fs (get_value "method" fs) refl

  -- A batch of at least one member, from what is known of its responses.
  batch-IsAnswered :
      (v : Value) (vs rs : Items)
      → AreReplies (item v vs) rs
      → all_silent (item v vs) ≡ is_nil rs
      → IsAnswered (arr (item v vs)) (unless_nil rs)
  batch-IsAnswered v vs no_items h silent = silent
  batch-IsAnswered v vs (item r rs) h silent = (silent, (item r rs, refl, h))

  prepend-AreReplies :
      (v : Value) (o : Option Value) (vs rs : Items)
      → IsAnswered v o
      → AreReplies vs rs
      → all_silent vs ≡ is_nil rs
      → AreReplies (item v vs) (prepend o rs) × (all_silent (item v vs) ≡ is_nil (prepend o rs))
  prepend-AreReplies v none vs rs answered h silent = (inl (answered, h), rw answered silent)
  prepend-AreReplies v (some r) vs rs (asked, reply) h silent =
      (inr (asked, r, rs, refl, reply, h), rw asked refl)

  mutual
    unfolding handle_payload

    handle_payload-answers : (v : Value) → IsAnswered v (handle_payload server v)
    handle_payload-answers (obj fs) = handle_request-IsAnswered fs
    handle_payload-answers (arr no_items) = (refl, inr (_, _, refl))
    handle_payload-answers (arr (item v vs)) =
        let (replies, silent) = handle_batch-answers (item v vs) in
        batch-IsAnswered v vs (handle_batch server (item v vs)) replies silent
    handle_payload-answers _ = (refl, inr (_, _, refl))

    handle_batch-answers :
        (vs : Items)
        → AreReplies vs (handle_batch server vs) × (all_silent vs ≡ is_nil (handle_batch server vs))
    handle_batch-answers no_items = (refl, refl)
    handle_batch-answers (item v vs) =
        let (replies, silent) = handle_batch-answers vs in
        prepend-AreReplies v (handle_payload server v) vs (handle_batch server vs)
          (handle_payload-answers v) replies silent

  -- A notification, and a batch of nothing else, gets no response. A request is answered under its
  -- own id with either a result or an error. A batch gets the answers to its members, in their order
  -- and without the notifications. Any other payload gets an error under the id null.
  pub handle_payload-IsAnswered : (v : Value) → IsAnswered v (handle_payload server v)
  handle_payload-IsAnswered v = handle_payload-answers v
