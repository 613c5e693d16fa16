-- ===== src/Jev/Ask.antt =====
-- `JevClient` of app/jev.py: the settings of a client, and `ask` with its loop over attempts.
use underlying_analyzer_rebo.Base.{
  ℕ, zero, suc, ◌+◌, ◌*◌, ◌/◌, ◌^◌, min, String, Bool, true, false, not, ◌||◌, Option, none, some,
  List, [], ◌∷◌, ltb, nat_eq, if◌then◌else◌, keep_if, is_empty,
}
use underlying_analyzer_rebo.Base.Text.{blank}
use underlying_analyzer_rebo.Base.Int.{ℤ, pos, negsuc}
use underlying_analyzer_rebo.Base.Result.{Result, ok, err, ◌>>=◌}
use underlying_analyzer_rebo.Value.{Value, str, arr, obj, Fields, no_fields, field}
use underlying_analyzer_rebo.Value.Access.{get_value, has_key, or_else, truthy, keys, is_end, texts}
use underlying_analyzer_rebo.Value.Show.{Python, str_of}
use underlying_analyzer_rebo.Jev.Answers.{
  JevError, no_key, no_questions, request_failed, status_failed, not_json, no_answers,
  missing_answers, ChoiceAnswer, ScoreAnswer, parse_noul_answer, parse_choice_answer,
  parse_score_answer,
}

pub record JevClient : Type 0 where
  pub api_key : Option String
  pub model : String
  pub max_retries : ℕ

abbrev or_getenv : Option String → Option String → Option String
or_getenv none read = read
or_getenv (some s) read = some s

-- `value if value is not None else os.getenv(...) or default`
abbrev model_or : Option String → Option String → String
model_or none none = "jev-latest"
model_or none (some read) = if blank read then "jev-latest" else read
model_or (some s) read = s

abbrev not_negative : ℤ → ℕ
not_negative (pos n) = n
not_negative (negsuc n) = 0

-- `__init__`, where `getenv` reads the environment.
unfoldable pub new_client :
    (getenv : String → Option String) (api_key model : Option String) (max_retries : ℤ) → JevClient
new_client getenv api_key model max_retries = record {
  api_key = or_getenv api_key (getenv "JEV_API_KEY");
  model = model_or model (getenv "JEV_MODEL");
  max_retries = not_negative max_retries;
}

-- An HTTP response: `json` is `response.json()`, with the text of its `ValueError`.
pub record Reply : Type 0 where
  pub status : ℕ
  pub json : Result String Value
  pub text : String

-- What the client takes from `requests`, `random` and the interpreter. `post n` is the answer to the
-- request of attempt `n`, or the text of a `RequestException`; `uniform n most` is the float that
-- `random.uniform(0, most)` gives after attempt `n`.
pub record Wire : Type 0 where
  pub py : Python
  pub post : ℕ → Value → Result String Reply
  pub uniform : ℕ → ℕ → ℕ

-- What a call did, in order.
pub data JevEffect : Type 0 where
  posted : (attempt : ℕ) → JevEffect
  slept : (seconds : ℕ) → JevEffect

-- The quanta of half a second and of eight.
abbrev pub base_backoff : ℕ
base_backoff = 2 ^ 1073

abbrev pub max_backoff : ℕ
max_backoff = 8 * 2 ^ 1074

-- The sum of floats is taken to be exact.
unfoldable pub backoff_seconds : Wire → ℕ → ℕ
backoff_seconds wire attempt =
    let capped = min (base_backoff * 2 ^ attempt) max_backoff in
    capped + wire.uniform attempt (capped / 4)

abbrev pub is_retryable : ℕ → Bool
is_retryable status = nat_eq status 429 || nat_eq status 529

-- A reply of attempt `n` that the loop answers with another attempt, when there is one left.
abbrev pub is_busy : Result String Reply → Bool
is_busy (err reason) = false
is_busy (ok reply) = is_retryable reply.status

unfoldable pub reply_text : Python → Reply → String
unfolding str_of
reply_text py reply = elim reply.json [
  | err reason ↦ if blank reply.text then "Jev request failed" else reply.text
  | ok (obj payload) ↦
      let error = or_else (get_value "error" payload) (get_value "message" payload) in
      if truthy error then str_of py error else "Jev request failed"
  | ok _ ↦ "Jev request failed"
]

-- The end of the loop: a reply below 400, or an error.
unfoldable pub settled : Python → Result String Reply → Result JevError Reply
unfolding reply_text
settled py (err reason) = err (request_failed reason)
settled py (ok reply) =
    if ltb reply.status 400
    then ok reply
    else err (status_failed reply.status (reply_text py reply))

pub record Asked {ℓ} (A : Type ℓ) : Type ℓ where
  pub log : List JevEffect
  pub result : Result JevError A

abbrev pub then_after {ℓ} : {A : Type ℓ} → JevEffect → JevEffect → Asked A → Asked A
then_after e f asked = record { log = e ∷ f ∷ asked.log; result = asked.result }

-- The loop from an attempt on, by the attempts that are left after it.
unfoldable pub attempts : Wire → Value → (left attempt : ℕ) → Asked Reply
unfolding settled backoff_seconds
attempts wire payload zero attempt = record {
  log = posted attempt ∷ [];
  result = settled wire.py (wire.post attempt payload);
}
attempts wire payload (suc left) attempt = elim (is_busy (wire.post attempt payload)) [
  | true ↦
      then_after (posted attempt) (slept (backoff_seconds wire attempt))
        (attempts wire payload left (suc attempt))
  | false ↦ record {
    log = posted attempt ∷ [];
    result = settled wire.py (wire.post attempt payload);
  }
]

-- `answers` where no question is missing from it.
unfoldable pub all_answered : Fields → Fields → Result JevError Fields
all_answered questions answers =
    let missing = keep_if (λ key. not (has_key key answers)) (keys questions) in
    if is_empty missing then ok answers else err (missing_answers missing)

-- The answers in a body, by what stands under its key `answers`.
unfoldable pub listed_in : Fields → Fields → Value → Result JevError Fields
unfolding all_answered
listed_in questions body (obj answers) = all_answered questions answers
listed_in questions body _ = err (no_answers (obj body))

unfoldable pub answers_in : Fields → Value → Result JevError Fields
unfolding listed_in
answers_in questions (obj body) = listed_in questions body (get_value "answers" body)
answers_in questions body = err (no_answers body)

unfoldable pub read_json : Fields → Result String Value → Result JevError Fields
unfolding answers_in
read_json questions (err reason) = err (not_json reason)
read_json questions (ok body) = answers_in questions body

abbrev pub read_reply : Fields → Reply → Result JevError Fields
read_reply questions reply = read_json questions reply.json

abbrev pub unasked {ℓ} : {A : Type ℓ} → JevError → Asked A
unasked fault = record { log = []; result = err fault }

abbrev pub request_payload : JevClient → Value → Fields → Value
request_payload client state questions = obj (
    field "state" state
      (field "model" (str client.model) (field "questions" (obj questions) no_fields)))

abbrev pub has_api_key : Option String → Bool
has_api_key none = false
has_api_key (some s) = not (blank s)

unfoldable pub ask : Wire → JevClient → Value → Fields → Asked Fields
unfolding attempts read_json
ask wire client state questions =
    if not (has_api_key client.api_key)
    then unasked no_key
    else if is_end questions
    then unasked no_questions
    else (let loop = attempts wire (request_payload client state questions) client.max_retries 0 in
        record { log = loop.log; result = loop.result >>= read_reply questions })

-- `parse(answers[question_id])`
abbrev pub reading {ℓ} :
    {A : Type ℓ} → (Value → Result JevError A) → String → Asked Fields → Asked A
reading parse question_id asked = record {
  log = asked.log;
  result = asked.result >>= λ answers. parse (get_value question_id answers);
}

abbrev question : String → String → Fields → Fields
question kind instructions rest =
    field "type" (str kind) (field "instructions" (str instructions) rest)

abbrev single : String → Fields → Fields
single question_id asked = field question_id (obj asked) no_fields

abbrev pub choice_question : String → String → Fields → Fields
choice_question question_id instructions criteria =
    single question_id (question "choice" instructions (field "criteria" (obj criteria) no_fields))

module _ (wire : Wire) (client : JevClient) (state : Value) (question_id : String) where
  unfoldable pub noul : String → Asked ℤ
  unfolding ask
  noul instructions =
      reading (parse_noul_answer wire.py) question_id
        (ask wire client state (single question_id (question "noul" instructions no_fields)))

  unfoldable pub choice : String → Fields → Asked ChoiceAnswer
  unfolding ask
  choice instructions criteria =
      reading (parse_choice_answer wire.py) question_id
        (ask wire client state (choice_question question_id instructions criteria))

  unfoldable pub score : String → List String → Asked ScoreAnswer
  unfolding ask
  score instructions criteria = reading (parse_score_answer wire.py) question_id (
      ask wire client state (
        single question_id
          (question "score" instructions (field "criteria" (arr (texts criteria)) no_fields))))
