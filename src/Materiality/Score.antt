-- ===== src/Materiality/Score.antt =====
-- The scoring of app/alert_materiality.py: `_score_chunk`, `_score_uncached` and
-- `score_alert_materiality` with its cache. The clock counts seconds.
use underlying_analyzer_rebo.Base.{
  ℕ, zero, suc, String, Bool, not, ◌&&◌, Option, none, some, List, [], ◌∷◌, ◌++◌, if◌then◌else◌,
  length, take, drop, map,
}
use underlying_analyzer_rebo.Base.Text.{◌⧺◌, show_nat}
use underlying_analyzer_rebo.Base.Result.{Result, ok, err}
use underlying_analyzer_rebo.Value.{Value, str, arr, obj, Fields, no_fields, field}
use underlying_analyzer_rebo.Value.Access.{get_value, texts, of_items}
use underlying_analyzer_rebo.Jev.Answers.{JevError, overflow, ScoreAnswer, parse_score_answer}
use underlying_analyzer_rebo.Jev.Ask.{JevClient, Wire, has_api_key, ask}
use underlying_analyzer_rebo.Materiality.Levels.{FloatRules, materiality_from_answer}

abbrev pub cache_ttl_seconds : ℕ
cache_ttl_seconds = 900

abbrev pub failure_ttl_seconds : ℕ
failure_ttl_seconds = 60

abbrev pub max_batch_items : ℕ
max_batch_items = 50

-- What one alert gets: its materiality, if any, and how long that is remembered.
abbrev pub Scored : Type 0
Scored = Option Fields × ℕ

abbrev pub unscored : Scored
unscored = (none, failure_ttl_seconds)

-- The fields of an alert that a user sees, under `_CONTENT_FIELDS`.
abbrev pub content : Fields → Fields → Fields
content alert rest = field "ticker" (get_value "ticker" alert) (
    field "severity" (get_value "severity" alert) (
      field "category" (get_value "category" alert) (
        field "title" (get_value "title" alert) (
          field "message" (get_value "message" alert)
            (field "action" (get_value "action" alert) rest)))))

abbrev pub question_id : ℕ → String
question_id index = "a" ⧺ show_nat index

abbrev question_text : String → String
question_text qid =
    "Consider only the alert with id '" ⧺ qid
    ⧺ "' in state.alerts. For an active investor watching this ticker, how material is it? noise = "
    ⧺ "safe to ignore; minor = worth a glance; material = deserves attention today; urgent = act on "
    ⧺ "it now."

abbrev level_names : List String
level_names = "noise" ∷ "minor" ∷ "material" ∷ "urgent" ∷ []

abbrev score_question : String → Fields
score_question qid = field "type" (str "score") (
    field "instructions" (str (question_text qid))
      (field "criteria" (arr (texts level_names)) no_fields))

-- The questions and the state of a chunk whose first alert has the index `i`.
unfoldable pub questions_from : ℕ → List Fields → Fields
unfolding show_nat
questions_from i [] = no_fields
questions_from i (alert ∷ alerts) =
    field (question_id i) (obj (score_question (question_id i))) (questions_from (suc i) alerts)

unfoldable pub listed_from : ℕ → List Fields → List Value
unfolding show_nat
listed_from i [] = []
listed_from i (alert ∷ alerts) =
    obj (field "id" (str (question_id i)) (content alert no_fields)) ∷ listed_from (suc i) alerts

-- The runtime of the scorer: `digest` is the hash of a dict, by `json.dumps` and SHA-1.
pub record Scorer : Type 0 where
  pub wire : Wire
  pub floats : FloatRules
  pub digest : Fields → String

module _ (scorer : Scorer) where
  -- One answer. `none` is an exception that is no `JevError`.
  unfoldable pub scored_by : Result JevError ScoreAnswer → Option Scored
  unfolding materiality_from_answer
  scored_by (err overflow) = none
  scored_by (err _) = some unscored
  scored_by (ok answer) = elim (materiality_from_answer scorer.wire.py scorer.floats answer) [
    | none ↦ none
    | some found ↦ some (found, cache_ttl_seconds)
  ]

  unfoldable pub scored_from : Fields → ℕ → List Fields → Option (List Scored)
  unfolding scored_by show_nat
  scored_from answers i [] = some []
  scored_from answers i (alert ∷ alerts) =
      let raw = get_value (question_id i) answers in
      elim (scored_by (parse_score_answer scorer.wire.py raw)) [
        | none ↦ none
        | some one ↦ elim (scored_from answers (suc i) alerts) [
          | none ↦ none
          | some rest ↦ some (one ∷ rest)
        ]
      ]

  -- Every exception of `ask` is caught.
  unfoldable pub scored_asked : List Fields → Result JevError Fields → Option (List Scored)
  unfolding scored_from
  scored_asked chunk (err fault) = some (map (λ alert. unscored) chunk)
  scored_asked chunk (ok answers) = scored_from answers 0 chunk

  unfoldable pub score_chunk : JevClient → List Fields → Option (List Scored)
  unfolding scored_asked questions_from listed_from ask
  score_chunk client chunk =
      let state = obj (field "alerts" (arr (of_items (listed_from 0 chunk))) no_fields) in
      scored_asked chunk (ask scorer.wire client state (questions_from 0 chunk)).result

  abbrev pub joined : Option (List Scored) → Option (List Scored) → Option (List Scored)
  joined none rest = none
  joined (some scored) none = none
  joined (some scored) (some rest) = some (scored ++ rest)

  -- The loop over the chunks; there are no more chunks than alerts.
  unfoldable pub score_chunks : JevClient → (fuel : ℕ) → List Fields → Option (List Scored)
  unfolding score_chunk
  score_chunks client fuel [] = some []
  score_chunks client zero (alert ∷ alerts) = none
  score_chunks client (suc fuel) (alert ∷ alerts) =
      let rest = score_chunks client fuel (drop max_batch_items (alert ∷ alerts)) in
      joined (score_chunk client (take max_batch_items (alert ∷ alerts))) rest

  -- `injected` is a client that the caller gives.
  unfoldable pub score_uncached : (injected : Bool) → JevClient → List Fields → Option (List Scored)
  unfolding score_chunks
  score_uncached injected client alerts =
      if not injected && not (has_api_key client.api_key)
      then some (map (λ alert. unscored) alerts)
      else score_chunks client (length alerts) alerts
