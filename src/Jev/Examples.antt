-- ===== src/Jev/Examples.antt =====
-- A client of app/jev.py whose first attempt is turned away.
use underlying_analyzer_rebo.Base.{
  ℕ, zero, suc, ◌≤◌, ◌<◌, ◌⊎◌, ◌≡◌, refl, true, false, none, some, arith,
}
use underlying_analyzer_rebo.Base.Int.{pos}
use underlying_analyzer_rebo.Base.Result.{ok, err, ◌>>=◌}
use underlying_analyzer_rebo.Value.{null, float, str, obj, Fields, no_fields, field}
use underlying_analyzer_rebo.Value.Access.{get, get_value, is_end}
use underlying_analyzer_rebo.Value.Show.{Python, str_of}
use underlying_analyzer_rebo.Alerts.Rules.{float_or_bool, threshold_most}
use underlying_analyzer_rebo.Jev.Answers.{ChoiceAnswer, safe_float, parse_choice_answer, choice_of}
use underlying_analyzer_rebo.Jev.Ask.{
  JevClient, Reply, Wire, is_busy, settled, attempts, read_reply, read_json, answers_in, listed_in,
  all_answered, request_payload, has_api_key, ask, choice, choice_question, new_client,
}
use underlying_analyzer_rebo.Jev.Attempts.{trail, IsPaced, ask_decides, ask_pauses}
use underlying_analyzer_rebo.Jev.Laws.{IsAnswerOf, IsSupported, ask-IsAnswerOf, choice-IsSupported}

abbrev python : Python
python = record {
  show = λ v. "";
  repr = λ v. "";
  float_of_int = λ n. some n;
  float_of_text = λ s. none;
}

abbrev answer_fields : Fields
answer_fields =
    field "type" (str "choice")
      (field "choice" (str "growth") (field "confidence" (float threshold_most) no_fields))

abbrev answers : Fields
answers = field "q" (obj answer_fields) no_fields

abbrev busy_reply : Reply
busy_reply = record { status = 429; json = err "no JSON"; text = "slow down" }

abbrev good_reply : Reply
good_reply = record {
  status = 200;
  json = ok (obj (field "answers" (obj answers) no_fields));
  text = "";
}

abbrev reply_to : ℕ → Reply
reply_to zero = busy_reply
reply_to (suc n) = good_reply

abbrev wire : Wire
wire = record { py = python; post = λ n payload. ok (reply_to n); uniform = λ n most. 0 }

abbrev client : JevClient
client = record { api_key = some "key"; model = "jev-latest"; max_retries = 3 }

new_client_run : new_client (λ name. none) (some "key") none (pos 3) ≡ client
unfolding new_client
new_client_run = refl

abbrev questions : Fields
questions = choice_question "q" "Which lens fits?" (field "growth" null no_fields)

ask_run : (ask wire client null questions).result ≡ ok answers
unfolding ask attempts settled read_json answers_in listed_in all_answered get
ask_run = refl

ask_decides_example :
    let payload = request_payload client null questions in
    (k : ℕ) × (k ≤ 3)
    × ((ask wire client null questions).log ≡ trail wire 0 k)
    × ((ask wire client null questions).result
        ≡ (settled wire.py (wire.post k payload) >>= read_reply questions))
    × ((j : ℕ) → j < k → is_busy (wire.post j payload) ≡ true)
    × ((k ≡ 3) ⊎ (is_busy (wire.post k payload) ≡ false))
ask_decides_example = ask_decides wire client null questions refl refl

ask_pauses_example : IsPaced (ask wire client null questions).log
ask_pauses_example = ask_pauses wire client null questions λ n most. omega arith

ask-IsAnswerOf_example :
    (has_api_key client.api_key ≡ true)
    × (is_end questions ≡ false)
    × ((k : ℕ) × (reply : Reply) × (k ≤ 3)
        × (wire.post k (request_payload client null questions) ≡ ok reply)
        × IsAnswerOf questions reply answers)
ask-IsAnswerOf_example = ask-IsAnswerOf wire client null questions answers ask_run

abbrev growth : ChoiceAnswer
growth = record { choice = "growth"; probabilities = no_fields; confidence = threshold_most }

choice_run :
    (choice wire client null "q" "Which lens fits?" (field "growth" null no_fields)).result
    ≡ ok growth
unfolding choice ask attempts settled read_json answers_in listed_in all_answered get str_of
    parse_choice_answer choice_of safe_float float_or_bool
choice_run = refl

choice-IsSupported_example :
    (given : Fields) × ((ask wire client null questions).result ≡ ok given)
    × IsSupported python (get_value "q" given) growth
choice-IsSupported_example =
    choice-IsSupported wire client null "q" "Which lens fits?" (field "growth" null no_fields)
      growth choice_run refl
