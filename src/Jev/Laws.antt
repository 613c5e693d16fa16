-- ===== src/Jev/Laws.antt =====
-- What the answers of `ask` and of `choice` in app/jev.py stand on.
use underlying_analyzer_rebo.Base.{
  ℕ, ◌<◌, ◌≤◌, ◌≡◌, ◌∙◌, refl, sym, ap, inl, inr, String, Bool, true, false, not, ◌&&◌, none, some,
  List, [], ◌∷◌, arith, All, keep_if, is_empty, ltb, ltb→lt, Bool-cases, Option-cases,
}
use underlying_analyzer_rebo.Base.Int.{ℤ, pos}
use underlying_analyzer_rebo.Base.Result.{Result, ok, err, ◌>>=◌, Result-cases}
use underlying_analyzer_rebo.Value.{Value, null, bool, int, float, str, arr, obj, Fields}
use underlying_analyzer_rebo.Value.Access.{get, get_value, has_key, as_dict, is_end, keys}
use underlying_analyzer_rebo.Value.Show.{Python, str_of}
use underlying_analyzer_rebo.Registry.Coerce.{is_kind}
use underlying_analyzer_rebo.Alerts.Rules.{float_or_bool}
use underlying_analyzer_rebo.Jev.Answers.{
  ChoiceAnswer, is_confident, safe_float, choice_of, parse_choice_answer,
}
use underlying_analyzer_rebo.Jev.Ask.{
  JevClient, Reply, Wire, settled, all_answered, listed_in, answers_in, read_json, read_reply,
  request_payload, has_api_key, ask, choice, choice_question,
}
use underlying_analyzer_rebo.Jev.Attempts.{ask_decides}

-- `answers` are what the body of the reply holds, and no question is missing.
abbrev pub IsAnswerOf : Fields → Reply → Fields → Type 0
IsAnswerOf questions reply answers =
    (reply.status < 400)
    × ((body : Fields) × (reply.json ≡ ok (obj body)) × (get_value "answers" body ≡ obj answers))
    × All (λ key. has_key key answers ≡ true) (keys questions)

none_kept :
    (p : String → Bool) (ks : List String)
    → is_empty (keep_if (λ key. not (p key)) ks) ≡ true
    → All (λ key. p key ≡ true) ks
none_kept p [] h = tt
none_kept p (key ∷ ks) h = elim (Bool-cases (p key)) [
  | inl there ↦ (there, none_kept p ks (rw there at h))
  | inr absent ↦ absurd (ground (arith, absent, h))
]

and-eq_true : (a b : Bool) → a && b ≡ true → (a ≡ true) × (b ≡ true)
and-eq_true a b h = ground arith

all_answered-eq_ok :
    (questions answers result : Fields)
    → all_answered questions answers ≡ ok result
    → (answers ≡ result) × All (λ key. has_key key answers ≡ true) (keys questions)
unfolding all_answered
all_answered-eq_ok questions answers result h =
    elim (Bool-cases (is_empty (keep_if (λ key. not (has_key key answers)) (keys questions)))) [
      | inl all_there ↦
          (ground arith, none_kept (λ key. has_key key answers) (keys questions) all_there)
      | inr absent ↦ absurd (ground arith)
    ]

listed_in-eq_ok :
    (questions body : Fields) (v : Value) (result : Fields)
    → listed_in questions body v ≡ ok result
    → (v ≡ obj result) × All (λ key. has_key key result ≡ true) (keys questions)
unfolding listed_in
listed_in-eq_ok questions body (obj answers) result h =
    let (same, all_there) = all_answered-eq_ok questions answers result h in
    rw (← same) (refl, all_there)
listed_in-eq_ok questions body null result h = absurd (ground arith)
listed_in-eq_ok questions body (bool b) result h = absurd (ground arith)
listed_in-eq_ok questions body (int n) result h = absurd (ground arith)
listed_in-eq_ok questions body (float q) result h = absurd (ground arith)
listed_in-eq_ok questions body (str s) result h = absurd (ground arith)
listed_in-eq_ok questions body (arr vs) result h = absurd (ground arith)

-- The `json` of a reply whose answers are read.
abbrev IsBodyWith : Fields → Result String Value → Fields → Type 0
IsBodyWith questions json answers =
    ((body : Fields) × (json ≡ ok (obj body)) × (get_value "answers" body ≡ obj answers))
    × All (λ key. has_key key answers ≡ true) (keys questions)

read_json-IsBodyWith :
    (questions : Fields) (json : Result String Value) (answers : Fields)
    → read_json questions json ≡ ok answers
    → IsBodyWith questions json answers
unfolding read_json answers_in
read_json-IsBodyWith questions (err reason) answers h = absurd (ground arith)
read_json-IsBodyWith questions (ok (obj body)) answers h =
    let (same, all_there) = listed_in-eq_ok questions body (get_value "answers" body) answers h in
    ((body, refl, same), all_there)
read_json-IsBodyWith questions (ok null) answers h = absurd (ground arith)
read_json-IsBodyWith questions (ok (bool b)) answers h = absurd (ground arith)
read_json-IsBodyWith questions (ok (int n)) answers h = absurd (ground arith)
read_json-IsBodyWith questions (ok (float q)) answers h = absurd (ground arith)
read_json-IsBodyWith questions (ok (str s)) answers h = absurd (ground arith)
read_json-IsBodyWith questions (ok (arr vs)) answers h = absurd (ground arith)

settled-eq_ok :
    (py : Python) (outcome : Result String Reply) (questions answers : Fields)
    → (settled py outcome >>= read_reply questions) ≡ ok answers
    → (reply : Reply) × (outcome ≡ ok reply) × IsAnswerOf questions reply answers
unfolding settled
settled-eq_ok py (err reason) questions answers h = absurd (ground arith)
settled-eq_ok py (ok reply) questions answers h = elim (Bool-cases (ltb reply.status 400)) [
  | inr failed ↦ absurd (ground (arith, failed, h))
  | inl fine ↦
      let read : read_json questions reply.json ≡ ok answers = rw fine at h in
      let (there, all_there) = read_json-IsBodyWith questions reply.json answers read in
      (reply, refl, (ltb→lt reply.status 400 fine, there, all_there))
]

-- When `ask` succeeds, the client has a key, a question was asked, and one of at most
-- `max_retries + 1` attempts was answered by a status below 400, by JSON whose `answers` are the
-- result. The result has an answer for every question.
pub ask-IsAnswerOf :
    (wire : Wire) (client : JevClient) (state : Value) (questions answers : Fields)
    → (ask wire client state questions).result ≡ ok answers
    → (has_api_key client.api_key ≡ true)
      × (is_end questions ≡ false)
      × ((k : ℕ) × (reply : Reply) × (k ≤ client.max_retries)
          × (wire.post k (request_payload client state questions) ≡ ok reply)
          × IsAnswerOf questions reply answers)
unfolding ask
ask-IsAnswerOf wire client state questions answers h =
    elim (Bool-cases (has_api_key client.api_key)) [
      | inr absent ↦ absurd (ground (arith, absent, h))
      | inl key ↦ elim (Bool-cases (is_end questions)) [
        | inl none_asked ↦ absurd (ground (arith, key, none_asked, h))
        | inr some_question ↦
            let (k, le, log, result, busy, last) =
              ask_decides wire client state questions key some_question in
            let outcome = wire.post k (request_payload client state questions) in
            let (reply, same, good) =
              settled-eq_ok wire.py outcome questions answers (sym result ∙ h) in
            (key, some_question, (k, reply, le, same, good))
      ]
    ]

-- What a confident choice stands on: the reply's own text and a confidence that reads as a number.
abbrev pub IsSupported : Python → Value → ChoiceAnswer → Type 0
IsSupported py v answer =
    (raw : Fields) × (v ≡ obj raw)
    × (is_kind "choice" (get_value "type" raw) ≡ true)
    × ((chosen : Value) × (get "choice" raw ≡ some chosen) × (answer.choice ≡ str_of py chosen))
    × (float_or_bool py (get_value "confidence" raw) ≡ some (some answer.confidence))

safe_float-confident :
    (py : Python) (v : Value) (q : ℤ)
    → safe_float py v ≡ ok q
    → is_confident q ≡ true
    → float_or_bool py v ≡ some (some q)
unfolding safe_float
safe_float-confident py v q h sure = elim (Option-cases (float_or_bool py v)) [
  | inl overflows ↦ absurd (ground (arith, overflows, h))
  | inr (none, unread) ↦
      let zero_read : pos 0 ≡ q = ground (arith, unread, h) in
      absurd (ground (arith, rw (← zero_read) at sure))
  | inr (some r, read) ↦ let same : r ≡ q = ground (arith, read, h) in rw (read, same)
]

get_value_there :
    (key : String) (fs : Fields)
    → has_key key fs ≡ true
    → (v : Value) × (get key fs ≡ some v) × (get_value key fs ≡ v)
get_value_there key fs h = elim (Option-cases (get key fs)) [
  | inl absent ↦ absurd (ground (arith, absent, h))
  | inr (v, there) ↦ (v, there, rw there)
]

choice_of-confident :
    (py : Python) (raw : Fields) (answer : ChoiceAnswer)
    → choice_of py raw ≡ ok answer
    → is_confident answer.confidence ≡ true
    → (answer.choice ≡ str_of py (get_value "choice" raw))
      × (float_or_bool py (get_value "confidence" raw) ≡ some (some answer.confidence))
unfolding choice_of
choice_of-confident py raw answer h sure =
    elim (Result-cases (safe_float py (get_value "confidence" raw))) [
      | inr (fault, failed) ↦ absurd (ground (arith, failed, h))
      | inl (q, read) ↦
          let same : record {
            choice = str_of py (get_value "choice" raw);
            probabilities = as_dict (get_value "probabilities" raw);
            confidence = q;
          }
              ≡ answer =
            ground (arith, read, h) in
          let sure' : is_confident q ≡ true =
            rw (ap (λ (a : ChoiceAnswer). a.confidence) same) sure in
          (
            sym (ap (λ (a : ChoiceAnswer). a.choice) same),
            safe_float-confident py (get_value "confidence" raw) q read sure'
                ∙ ap (λ (a : ChoiceAnswer). some (some a.confidence)) same,
          )
    ]

parse_choice_answer-IsSupported :
    (py : Python) (v : Value) (answer : ChoiceAnswer)
    → parse_choice_answer py v ≡ ok answer
    → is_confident answer.confidence ≡ true
    → IsSupported py v answer
unfolding parse_choice_answer
parse_choice_answer-IsSupported py (obj raw) answer h sure =
    elim (Bool-cases (is_kind "choice" (get_value "type" raw) && has_key "choice" raw)) [
      | inr unfit ↦ absurd (ground (arith, unfit, h))
      | inl fit ↦
          let (kind, there) = and-eq_true _ _ fit in
          let (chosen, found, value) = get_value_there "choice" raw there in
          let (text, confidence) =
            choice_of-confident py raw answer (rw (fit, parse_choice_answer) at h) sure in
          (raw, refl, kind, (chosen, found, rw value at text), confidence)
    ]
parse_choice_answer-IsSupported py null answer h sure = absurd (ground arith)
parse_choice_answer-IsSupported py (bool b) answer h sure = absurd (ground arith)
parse_choice_answer-IsSupported py (int n) answer h sure = absurd (ground arith)
parse_choice_answer-IsSupported py (float q) answer h sure = absurd (ground arith)
parse_choice_answer-IsSupported py (str s) answer h sure = absurd (ground arith)
parse_choice_answer-IsSupported py (arr vs) answer h sure = absurd (ground arith)

-- A choice that passes for confident is never a default: `ask` succeeded, the answer to the question is a
-- dict of type `choice`, the chosen text is the text of its `choice`, and its `confidence` is there
-- and reads as the number that passed the threshold.
pub choice-IsSupported :
    (wire : Wire) (client : JevClient) (state : Value) (question_id instructions : String)
    (criteria : Fields) (answer : ChoiceAnswer)
    → (choice wire client state question_id instructions criteria).result ≡ ok answer
    → is_confident answer.confidence ≡ true
    → (answers : Fields) × ((ask wire client state
          (choice_question question_id instructions criteria)).result
        ≡ ok answers)
      × IsSupported wire.py (get_value question_id answers) answer
unfolding choice
choice-IsSupported wire client state question_id instructions criteria answer h sure =
    let asked = ask wire client state (choice_question question_id instructions criteria) in
    elim (Result-cases asked.result) [
      | inr (fault, failed) ↦ absurd (ground (arith, failed, h))
      | inl (answers, given) ↦ (
        answers,
        given,
        parse_choice_answer-IsSupported wire.py (get_value question_id answers) answer
            (rw given at h) sure,
      )
    ]
