-- ===== src/Materiality/Batch.antt =====
-- The batches of app/alert_materiality.py: one score for every alert, in order.
use underlying_analyzer_rebo.Base.{
  ℕ, zero, suc, ◌≤◌, ◌≡◌, refl, inl, inr, Bool, not, ◌&&◌, Option, none, some, List, [], ◌∷◌, arith,
  All, All-append, length, length-append, length-take, length-drop, take, drop, map, Bool-cases,
  Option-cases,
}
use underlying_analyzer_rebo.Base.Result.{Result, ok, err}
use underlying_analyzer_rebo.Value.{arr, obj, Fields, no_fields, field}
use underlying_analyzer_rebo.Value.Access.{get_value, of_items}
use underlying_analyzer_rebo.Jev.Answers.{
  JevError, no_key, no_questions, request_failed, status_failed, not_json, no_answers,
  missing_answers, unexpected, not_numeric, overflow, ScoreAnswer, parse_score_answer,
}
use underlying_analyzer_rebo.Jev.Ask.{JevClient, has_api_key, ask}
use underlying_analyzer_rebo.Materiality.Levels.{materiality_from_answer}
use underlying_analyzer_rebo.Materiality.Score.{
  Scored, unscored, Scorer, question_id, scored_by, scored_from, scored_asked, score_chunk, joined,
  score_chunks, score_uncached, max_batch_items, questions_from, listed_from, cache_ttl_seconds,
}
use underlying_analyzer_rebo.Materiality.Known.{IsLevelledScore, materiality_from_answer-IsLevelled}

-- One score for each alert, with a known level where there is one, remembered for a minute at least.
abbrev pub IsScore : Scored → Type 0
IsScore one = IsLevelledScore one × (60 ≤ one.1)

abbrev pub IsScoring : List Fields → List Scored → Type 0
IsScoring alerts scored = (length scored ≡ length alerts) × All IsScore scored

abbrev pub IsScoringIfAny : List Fields → Option (List Scored) → Type 0
IsScoringIfAny alerts none = Unit
IsScoringIfAny alerts (some scored) = IsScoring alerts scored

none-IsScoring : (alerts : List Fields) → IsScoring alerts (map (λ alert. unscored) alerts)
none-IsScoring [] = (refl, tt)
none-IsScoring (alert ∷ alerts) =
    let (same, all) = none-IsScoring alerts in (omega arith, ((tt, omega arith), all))

unscored-IsScore : (one : Scored) → some unscored ≡ some one → IsScore one
unscored-IsScore one h = let same : unscored ≡ one = ground arith in rw (← same) (tt, omega arith)

module _ (scorer : Scorer) where
  scored_by-IsScore :
      (r : Result JevError ScoreAnswer) (one : Scored) → scored_by scorer r ≡ some one → IsScore one
  unfolding scored_by
  scored_by-IsScore (ok answer) one h =
      let found = materiality_from_answer scorer.wire.py scorer.floats answer in
      elim (Option-cases found) [
        | inl raised ↦ absurd (ground (arith, raised, h))
        | inr (value, there) ↦
            let same : (value, cache_ttl_seconds) ≡ one = ground (arith, there, h) in
            rw (← same) (
              materiality_from_answer-IsLevelled scorer.floats answer scorer.wire.py value there,
              omega arith,
            )
      ]
  scored_by-IsScore (err overflow) one h = absurd (ground arith)
  scored_by-IsScore (err no_key) one h = unscored-IsScore one h
  scored_by-IsScore (err no_questions) one h = unscored-IsScore one h
  scored_by-IsScore (err (request_failed s)) one h = unscored-IsScore one h
  scored_by-IsScore (err (status_failed n s)) one h = unscored-IsScore one h
  scored_by-IsScore (err (not_json s)) one h = unscored-IsScore one h
  scored_by-IsScore (err (no_answers v)) one h = unscored-IsScore one h
  scored_by-IsScore (err (missing_answers ss)) one h = unscored-IsScore one h
  scored_by-IsScore (err (unexpected v)) one h = unscored-IsScore one h
  scored_by-IsScore (err (not_numeric v)) one h = unscored-IsScore one h

  scored_from-IsScoring :
      (answers : Fields) (i : ℕ) (alerts : List Fields)
      → IsScoringIfAny alerts (scored_from scorer answers i alerts)
  unfolding scored_from
  scored_from-IsScoring answers i [] = (refl, tt)
  scored_from-IsScoring answers i (alert ∷ alerts) =
      let r = parse_score_answer scorer.wire.py (get_value (question_id i) answers) in
      elim (Option-cases (scored_by scorer r)) [
        | inl raised ↦ rw (raised, scored_from) tt
        | inr (one, there) ↦ elim (Option-cases (scored_from scorer answers (suc i) alerts)) [
          | inl raised ↦ rw (there, raised, scored_from) tt
          | inr (rest, others) ↦
              let (same, all) = rw others at (scored_from-IsScoring answers (suc i) alerts) in
              rw (there, others, scored_from) (omega arith, (scored_by-IsScore r one there, all))
        ]
      ]

  scored_asked-IsScoring :
      (chunk : List Fields) (r : Result JevError Fields)
      → IsScoringIfAny chunk (scored_asked scorer chunk r)
  unfolding scored_asked
  scored_asked-IsScoring chunk (err fault) = none-IsScoring chunk
  scored_asked-IsScoring chunk (ok answers) = scored_from-IsScoring answers 0 chunk

  score_chunk-IsScoring :
      (client : JevClient) (chunk : List Fields)
      → IsScoringIfAny chunk (score_chunk scorer client chunk)
  unfolding score_chunk
  score_chunk-IsScoring client chunk =
      scored_asked-IsScoring chunk
        (ask scorer.wire client
          (obj (field "alerts" (arr (of_items (listed_from 0 chunk))) no_fields))
          (questions_from 0 chunk)).result

  joined-IsScoring :
      (alerts : List Fields) (scored rest : Option (List Scored))
      → IsScoringIfAny (take max_batch_items alerts) scored
      → IsScoringIfAny (drop max_batch_items alerts) rest
      → IsScoringIfAny alerts (joined scorer scored rest)
  joined-IsScoring alerts none rest h k = tt
  joined-IsScoring alerts (some scored) none h k = tt
  joined-IsScoring alerts (some scored) (some rest) (same, all) (same', all') = (
    omega (
      arith,
      length-append scored rest,
      length-take max_batch_items alerts,
      length-drop max_batch_items alerts,
    ),
    All-append IsScore scored rest all all',
  )

  score_chunks-IsScoring :
      (client : JevClient) (fuel : ℕ) (alerts : List Fields)
      → IsScoringIfAny alerts (score_chunks scorer client fuel alerts)
  unfolding score_chunks
  score_chunks-IsScoring client fuel [] = (refl, tt)
  score_chunks-IsScoring client zero (alert ∷ alerts) = tt
  score_chunks-IsScoring client (suc fuel) (alert ∷ alerts) =
      joined-IsScoring (alert ∷ alerts) _ _
        (score_chunk-IsScoring client (take max_batch_items (alert ∷ alerts)))
        (score_chunks-IsScoring client fuel (drop max_batch_items (alert ∷ alerts)))

  pub score_uncached-IsScoring :
      (injected : Bool) (client : JevClient) (alerts : List Fields)
      → IsScoringIfAny alerts (score_uncached scorer injected client alerts)
  unfolding score_uncached
  score_uncached-IsScoring injected client alerts =
      elim (Bool-cases (not injected && not (has_api_key client.api_key))) [
        | inl keyless ↦ rw keyless (none-IsScoring alerts)
        | inr keyed ↦ rw keyed (score_chunks-IsScoring client (length alerts) alerts)
      ]
