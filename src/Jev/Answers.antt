-- ===== src/Jev/Answers.antt =====
-- The answers of app/jev.py and how they are read: `parse_noul_answer`, `parse_choice_answer` and
-- `parse_score_answer`. A probability is a number of float quanta.
use underlying_analyzer_rebo.Base.{
  ℕ, ◌*◌, ◌^◌, String, Bool, true, false, ◌&&◌, Option, none, some, List,
}
use underlying_analyzer_rebo.Base.Int.{ℤ, pos, leb_ℤ}
use underlying_analyzer_rebo.Base.Result.{Result, ok, err, ◌>>=◌}
use underlying_analyzer_rebo.Value.{Value, obj, Fields}
use underlying_analyzer_rebo.Value.Access.{get, get_value, has_key, as_dict}
use underlying_analyzer_rebo.Value.Show.{Python, str_of}
use underlying_analyzer_rebo.Registry.Coerce.{is_kind}
use underlying_analyzer_rebo.Alerts.Rules.{float_or_bool}

-- The cases of `JevError`, with what their messages show. `overflow` is no `JevError`: it is the
-- `OverflowError` of `float`, which the code does not catch.
pub data JevError : Type 0 where
  no_key no_questions : JevError
  request_failed : (reason : String) → JevError
  status_failed : (status : ℕ) (text : String) → JevError
  not_json : (reason : String) → JevError
  no_answers : (body : Value) → JevError
  missing_answers : (question_ids : List String) → JevError
  unexpected not_numeric : (raw : Value) → JevError
  overflow : JevError

pub record ChoiceAnswer : Type 0 where
  pub choice : String
  pub probabilities : Fields
  pub confidence : ℤ

pub record ScoreAnswer : Type 0 where
  pub score : ℤ
  pub legend : Fields
  pub probabilities : Fields
  pub confidence : ℤ

-- The quanta of 0.55, rounded as a double.
abbrev pub low_confidence_threshold : ℤ
low_confidence_threshold = pos (4953959590107546 * 2 ^ 1021)

abbrev pub is_confident : ℤ → Bool
is_confident confidence = leb_ℤ low_confidence_threshold confidence

-- What `float(v)` gives or raises, where an error that is caught is the fault `caught`.
abbrev or_fault : JevError → Option (Option ℤ) → Result JevError ℤ
or_fault caught none = err overflow
or_fault caught (some none) = err caught
or_fault caught (some (some q)) = ok q

abbrev or_zero : Option (Option ℤ) → Result JevError ℤ
or_zero none = err overflow
or_zero (some none) = ok (pos 0)
or_zero (some (some q)) = ok q

module _ (py : Python) where
  unfoldable pub safe_float : Value → Result JevError ℤ
  unfolding float_or_bool
  safe_float v = or_zero (float_or_bool py v)

  -- `float(raw[key])`: a key that is not there is an error that is caught.
  unfoldable pub number_at : String → Fields → Result JevError ℤ
  unfolding float_or_bool
  number_at key raw = elim (get key raw) [
    | none ↦ err (not_numeric (obj raw))
    | some v ↦ or_fault (not_numeric (obj raw)) (float_or_bool py v)
  ]

  unfoldable pub parse_noul_answer : Value → Result JevError ℤ
  unfolding number_at
  parse_noul_answer (obj raw) = elim (is_kind "noul" (get_value "type" raw)) [
    | true ↦ number_at "noul" raw
    | false ↦ err (unexpected (obj raw))
  ]
  parse_noul_answer raw = err (unexpected raw)

  unfoldable pub choice_of : Fields → Result JevError ChoiceAnswer
  unfolding safe_float str_of
  choice_of raw = do
    confidence ← safe_float (get_value "confidence" raw)
    ok record {
      choice = str_of py (get_value "choice" raw);
      probabilities = as_dict (get_value "probabilities" raw);
      confidence = confidence;
    }

  unfoldable pub parse_choice_answer : Value → Result JevError ChoiceAnswer
  unfolding choice_of
  parse_choice_answer (obj raw) =
      elim (is_kind "choice" (get_value "type" raw) && has_key "choice" raw) [
        | true ↦ choice_of raw
        | false ↦ err (unexpected (obj raw))
      ]
  parse_choice_answer raw = err (unexpected raw)

  unfoldable pub score_of : Fields → Result JevError ScoreAnswer
  unfolding number_at safe_float
  score_of raw = do
    score ← number_at "score" raw
    confidence ← safe_float (get_value "confidence" raw)
    ok record {
      score = score;
      legend = as_dict (get_value "legend" raw);
      probabilities = as_dict (get_value "probabilities" raw);
      confidence = confidence;
    }

  unfoldable pub parse_score_answer : Value → Result JevError ScoreAnswer
  unfolding score_of
  parse_score_answer (obj raw) =
      elim (is_kind "score" (get_value "type" raw) && has_key "score" raw) [
        | true ↦ score_of raw
        | false ↦ err (unexpected (obj raw))
      ]
  parse_score_answer raw = err (unexpected raw)
