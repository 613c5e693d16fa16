-- ===== src/Materiality/Examples.antt =====
-- One alert scored by app/alert_materiality.py, and read back from what is remembered.
use underlying_analyzer_rebo.Base.{
  ℕ, ◌≡◌, refl, String, Bool, false, none, some, List, [], ◌∷◌, arith,
}
use underlying_analyzer_rebo.Base.Int.{pos, truncate}
use underlying_analyzer_rebo.Base.Result.{Result, ok}
use underlying_analyzer_rebo.Value.{Value, float, str, obj, Fields, no_fields, field}
use underlying_analyzer_rebo.Value.Access.{get, put}
use underlying_analyzer_rebo.Value.Show.{Python, str_of}
use underlying_analyzer_rebo.Alerts.Rules.{float_or_bool, one_quanta}
use underlying_analyzer_rebo.Jev.Answers.{parse_score_answer, score_of, number_at, safe_float}
use underlying_analyzer_rebo.Jev.Ask.{
  JevClient, Reply, ask, attempts, settled, read_json, answers_in, listed_in, all_answered,
}
use underlying_analyzer_rebo.Materiality.Levels.{
  FloatRules, materiality_from_answer, level_probabilities, legend_levels, tally_from, by_score,
  level_at, level_index, ones,
}
use underlying_analyzer_rebo.Materiality.Score.{
  Scorer, score_chunk, scored_asked, scored_from, scored_by, questions_from, listed_from,
  score_uncached, score_chunks,
}
use underlying_analyzer_rebo.Materiality.Memo.{
  Cache, recall, remember, cache_key, pending, write, results, score_alert_materiality,
}
use underlying_analyzer_rebo.Materiality.Laws.{
  IsSane, AreAnnotated, NeverRaises, score_alert_materiality-AreAnnotated,
}
use underlying_analyzer_rebo.Materiality.Recall.{
  AreRecalled, with_post, score_alert_materiality_again,
}

abbrev pub python : Python
python = record {
  show = λ v. "";
  repr = λ v. "";
  float_of_int = λ n. some n;
  float_of_text = λ s. none;
}

abbrev floats : FloatRules
floats = record {
  sum = λ qs. pos 0;
  plus = λ p q. p;
  times = λ p q. p;
  over = λ p q. p;
  round_4 = λ q. q;
  round_to_int = λ q. truncate q one_quanta;
}

abbrev answers : Fields
answers =
    field "a0"
      (obj (
        field "type" (str "score")
          (field "score" (float (ones 2)) (field "confidence" (float (ones 1)) no_fields))))
      no_fields

abbrev reply : Reply
reply = record {
  status = 200;
  json = ok (obj (field "answers" (obj answers) no_fields));
  text = "";
}

abbrev pub scorer : Scorer
scorer = record {
  wire = record { py = python; post = λ n payload. ok reply; uniform = λ n most. 0 };
  floats = floats;
  digest = λ content. "hash";
}

abbrev pub client : JevClient
client = record { api_key = some "key"; model = "jev-latest"; max_retries = 1 }

abbrev alert : Fields
alert =
    field "id" (str "aapl-risk-lane")
      (field "ticker" (str "AAPL") (field "severity" (str "High") no_fields))

abbrev scored_alert : Fields
scored_alert = field "id" (str "aapl-risk-lane") (
    field "ticker" (str "AAPL") (
      field "severity" (str "High") (
        field "jev_materiality"
          (obj (
            field "level" (str "material")
              (field "score" (float (ones 1)) (field "confidence" (float (ones 1)) no_fields))))
          no_fields)))

abbrev remembered : Cache
remembered =
    (
      "aapl-risk-lane:hash",
      record {
        until = 1000;
        value = some (
            field "level" (str "material")
              (field "score" (float (ones 1)) (field "confidence" (float (ones 1)) no_fields)));
      },
    )
    ∷ []

pub never : NeverRaises scorer client
unfolding score_chunk scored_asked scored_from scored_by questions_from listed_from ask attempts
    settled read_json answers_in listed_in all_answered get parse_score_answer score_of number_at
    safe_float float_or_bool materiality_from_answer level_probabilities legend_levels tally_from
    by_score level_at level_index truncate
never [] = refl
never (first ∷ []) = refl
never (first ∷ second ∷ rest) = refl

first_run :
    score_alert_materiality scorer false client 100 [] (alert ∷ [])
    ≡ some (scored_alert ∷ [], remembered)
unfolding score_alert_materiality pending write results recall remember cache_key score_uncached
    score_chunks score_chunk scored_asked scored_from scored_by questions_from listed_from ask
    attempts settled read_json answers_in listed_in all_answered get parse_score_answer score_of
    number_at safe_float float_or_bool materiality_from_answer level_probabilities legend_levels
    tally_from by_score level_at level_index truncate str_of put
first_run = refl

score_alert_materiality-AreAnnotated_example :
    (outs : List Fields) × (later : Cache) × (score_alert_materiality scorer false client 100 []
        (alert ∷ [])
      ≡ some (outs, later))
    × AreAnnotated (alert ∷ []) outs
    × IsSane later
score_alert_materiality-AreAnnotated_example =
    score_alert_materiality-AreAnnotated scorer false client 100 [] (alert ∷ []) never tt

score_alert_materiality_again_example :
    (again : List Fields) × AreRecalled scorer 150 remembered (alert ∷ []) again
    × ((post : ℕ → Value → Result String Reply) (injected : Bool) (other : JevClient)
        → score_alert_materiality (with_post scorer post) injected other 150 remembered (alert ∷ [])
          ≡ some (again, remembered))
unfolding recall
score_alert_materiality_again_example =
    score_alert_materiality_again scorer false client 100 150 [] remembered (alert ∷ [])
      (scored_alert ∷ []) (omega arith) (λ key memo there fresh. absurd (ground (arith, there)))
      first_run
