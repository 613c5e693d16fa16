-- ===== src/Materiality/Known.antt =====
-- Every materiality that app/alert_materiality.py gives an alert has one of the four levels.
use underlying_analyzer_rebo.Base.{
  ℕ, zero, suc, ◌≡◌, refl, inl, inr, String, true, Option, none, some, arith, Bool-cases,
  Option-cases,
}
use underlying_analyzer_rebo.Base.Int.{ℤ, pos, pos_part, leb_ℤ}
use underlying_analyzer_rebo.Value.{str, Fields}
use underlying_analyzer_rebo.Value.Access.{get, get_value, is_end}
use underlying_analyzer_rebo.Value.Show.{Python}
use underlying_analyzer_rebo.Alerts.Rules.{clamp}
use underlying_analyzer_rebo.Jev.Answers.{ScoreAnswer, is_confident}
use underlying_analyzer_rebo.Materiality.Levels.{
  FloatRules, level_index, level_at, is_level, likeliest, better, ones, total, weighted,
  materiality, by_score, by_probabilities, of_probabilities, level_probabilities,
  materiality_from_answer,
}
use underlying_analyzer_rebo.Materiality.Score.{Scored}

abbrev pub IsLevelled : Fields → Type 0
IsLevelled materiality =
    (level : String) × (get_value "level" materiality ≡ str level) × (is_level level ≡ true)

abbrev pub IsLevelledIfAny : Option Fields → Type 0
IsLevelledIfAny none = Unit
IsLevelledIfAny (some materiality) = IsLevelled materiality

abbrev pub IsLevelledScore : Scored → Type 0
IsLevelledScore one = IsLevelledIfAny one.0

module _ (floats : FloatRules) (answer : ScoreAnswer) where
  materiality-IsLevelled :
      (level : String) (score : ℤ)
      → is_level level ≡ true
      → IsLevelled (materiality floats answer level score)
  unfolding get
  materiality-IsLevelled level score h = (level, refl, h)

  better-is_level :
      (out : Fields) (best level : String)
      → is_level best ≡ true
      → is_level level ≡ true
      → is_level (better out best level) ≡ true
  better-is_level out best level h k = ground (arith, h, k)

  likeliest-is_level : (out : Fields) → is_level (likeliest out) ≡ true
  unfolding level_index
  likeliest-is_level out =
      better-is_level out _ "urgent"
        (better-is_level out _ "material" (better-is_level out "noise" "minor" refl refl) refl) refl

  level_at-is_level : (i : ℕ) (level : String) → level_at i ≡ some level → is_level level ≡ true
  unfolding level_at level_index
  level_at-is_level zero level h = let same : "noise" ≡ level = ground arith in rw (← same)
  level_at-is_level (suc zero) level h = let same : "minor" ≡ level = ground arith in rw (← same)
  level_at-is_level (suc (suc zero)) level h =
      let same : "material" ≡ level = ground arith in rw (← same)
  level_at-is_level (suc (suc (suc zero))) level h =
      let same : "urgent" ≡ level = ground arith in rw (← same)
  level_at-is_level (suc (suc (suc (suc i)))) level h = absurd (ground arith)

  by_score-IsLevelled :
      (found : Option Fields) → by_score floats answer ≡ some found → IsLevelledIfAny found
  unfolding by_score
  by_score-IsLevelled found h =
      let i = pos_part (floats.round_to_int (clamp (pos 0) (ones 3) answer.score)) in
      elim (Option-cases (level_at i)) [
        | inl past ↦ absurd (ground (arith, past, h))
        | inr (level, there) ↦
            let score = floats.over (clamp (pos 0) (ones 3) answer.score) (ones 3) in
            let same : some (materiality floats answer level score) ≡ found =
              ground (arith, there, h) in
            rw (← same) (materiality-IsLevelled level score (level_at-is_level i level there))
      ]

  by_probabilities-IsLevelled :
      (out : Fields) → IsLevelledIfAny (by_probabilities floats answer out)
  unfolding by_probabilities
  by_probabilities-IsLevelled out = elim (Bool-cases (leb_ℤ (total floats out) (pos 0))) [
    | inl weightless ↦ rw weightless tt
    | inr weighty ↦ rw weighty (
        materiality-IsLevelled (likeliest out)
          (floats.over (weighted floats out) (total floats out)) (likeliest-is_level out))
  ]

  of_probabilities-IsLevelled :
      (given : Option Fields) (found : Option Fields)
      → of_probabilities floats answer given ≡ some found
      → IsLevelledIfAny found
  of_probabilities-IsLevelled none found h = absurd (ground arith)
  of_probabilities-IsLevelled (some out) found h = elim (Bool-cases (is_end out)) [
    | inl empty ↦ by_score-IsLevelled found (rw empty at h)
    | inr full ↦
        let same : by_probabilities floats answer out ≡ found = ground (arith, full, h) in
        rw (← same) (by_probabilities-IsLevelled out)
  ]

  pub materiality_from_answer-IsLevelled :
      (py : Python) (found : Option Fields)
      → materiality_from_answer py floats answer ≡ some found
      → IsLevelledIfAny found
  unfolding materiality_from_answer
  materiality_from_answer-IsLevelled py found h =
      elim (Bool-cases (is_confident answer.confidence)) [
        | inl sure ↦
            of_probabilities-IsLevelled (level_probabilities py floats answer) found (rw sure at h)
        | inr unsure ↦ let same : none ≡ found = ground (arith, unsure, h) in rw (← same) tt
      ]
