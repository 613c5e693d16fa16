-- ===== src/Materiality/Levels.antt =====
-- The four levels of app/alert_materiality.py, the filter by a least level, and the reading of a score
-- answer: `parse_min_materiality`, `filter_alerts_by_materiality`, `materiality_from_answer` and
-- `_level_probabilities`.
use underlying_analyzer_rebo.Base.{
  ℕ, zero, suc, ◌*◌, String, Bool, true, false, ◌&&◌, Option, none, some, List, [], ◌∷◌, ◌==◌,
  if◌then◌else◌, leb, nat_eq, keep_if, is_some,
}
use Prim.Native.Char.{code}
use underlying_analyzer_rebo.Base.Text.{strip, lower, parse_digits}
use underlying_analyzer_rebo.Base.Int.{ℤ, pos, negsuc, pos_part, leb_ℤ, parse_int}
use underlying_analyzer_rebo.Value.{Value, null, float, str, obj, Fields, no_fields, field}
use underlying_analyzer_rebo.Value.Access.{get, get_value, put, is_end}
use underlying_analyzer_rebo.Value.Show.{Python, str_of}
use underlying_analyzer_rebo.Alerts.Rules.{float_or_bool, clamp, max_ℤ, one_quanta}
use underlying_analyzer_rebo.Jev.Answers.{ScoreAnswer, is_confident}

-- `MATERIALITY_LEVELS.index(level)`; `none` is a text that is no level.
unfoldable pub level_index : String → Option ℕ
level_index level =
    if level == "noise"
    then some 0
    else if level == "minor"
    then some 1
    else if level == "material"
    then some 2
    else if level == "urgent"
    then some 3
    else none

-- `MATERIALITY_LEVELS[i]`; `none` is `IndexError`.
unfoldable pub level_at : ℕ → Option String
level_at zero = some "noise"
level_at (suc zero) = some "minor"
level_at (suc (suc zero)) = some "material"
level_at (suc (suc (suc zero))) = some "urgent"
level_at (suc (suc (suc (suc _)))) = none

abbrev pub is_level : String → Bool
is_level level = is_some (level_index level)

unfoldable pub parse_min_materiality : Python → Value → Option String
unfolding str_of
parse_min_materiality py null = none
parse_min_materiality py v =
    let text = lower (strip (str_of py v)) in if is_level text then some text else none

-- The index of an alert's level, where the level is known.
unfoldable pub known_level : Fields → Option ℕ
unfolding level_index
known_level alert = elim (get_value "jev_materiality" alert) [
  | obj materiality ↦ elim (get_value "level" materiality) [
    | str level ↦ level_index level
    | _ ↦ none
  ]
  | _ ↦ none
]

abbrev pub reaches : ℕ → Option ℕ → Bool
reaches floor none = true
reaches floor (some index) = leb floor index

-- `parse_min_materiality` of a text.
unfoldable pub known_name : String → Option ℕ
unfolding level_index
known_name min_level = level_index (lower (strip min_level))

abbrev pub above : Option ℕ → List Fields → List Fields
above none alerts = alerts
above (some floor) alerts = keep_if (λ alert. reaches floor (known_level alert)) alerts

unfoldable pub filter_alerts_by_materiality : List Fields → Option String → List Fields
unfolding known_name
filter_alerts_by_materiality alerts none = alerts
filter_alerts_by_materiality alerts (some min_level) = above (known_name min_level) alerts

-- What Python's runtime does with floats, of which the code takes these.
pub record FloatRules : Type 0 where
  pub sum : List ℤ → ℤ
  pub plus : ℤ → ℤ → ℤ
  pub times : ℤ → ℤ → ℤ
  -- `a / b` of a nonzero `b`
  pub over : ℤ → ℤ → ℤ
  -- `round(x, 4)`, and `round(x)` as a number of ones
  pub round_4 : ℤ → ℤ
  pub round_to_int : ℤ → ℤ

-- `name.lstrip("-")`
unfoldable pub without_dashes : String → String
without_dashes String.[] = ""
without_dashes (String.◌∷◌ c s) =
    let rest = without_dashes s in if nat_eq (code c) b'-' then rest else String.◌∷◌ c s

-- `str.isdigit` of ASCII text: digits only, and at least one.
unfoldable pub all_digits : String → Bool
all_digits String.[] = true
all_digits (String.◌∷◌ c s) = leb b'0' (code c) && leb (code c) b'9' && all_digits s

abbrev pub is_digits : String → Bool
is_digits s = all_digits s && is_some (parse_digits s)

abbrev level_key : Value → Option String
level_key (str level) = if is_level level then some level else none
level_key _ = none

module _ (py : Python) where
  -- `legend_to_level`
  unfoldable pub legend_levels : Fields → Fields → Fields
  unfolding level_index str_of
  legend_levels found no_fields = found
  legend_levels found (field key v rest) = elim (level_key v) [
    | some level ↦ legend_levels (put key (str level) found) rest
    | none ↦ elim (is_level key) [
      | true ↦ legend_levels (put (str_of py v) (str key) found) rest
      | false ↦ legend_levels found rest
    ]
  ]

-- The level that a key of `probabilities` names. The outer `none` is a `ValueError` of `int`, the
-- inner one a key that names none.
abbrev indexed : Option ℤ → Option (Option String)
indexed none = none
indexed (some (pos n)) = some (level_at n)
indexed (some (negsuc n)) = some none

unfoldable pub level_of_key : Fields → String → Option (Option String)
unfolding level_index level_at without_dashes all_digits
level_of_key legend name = if is_level name then some (some name) else elim (get name legend) [
  | some (str level) ↦ some (some level)
  | _ ↦ if is_digits (without_dashes name) then indexed (parse_int name) else some none
]

-- `out.get(level, 0.0)`
abbrev pub probability : String → Fields → ℤ
probability level out = elim (get_value level out) [ float q ↦ q | _ ↦ pos 0 ]

abbrev tally : FloatRules → Fields → String → ℤ → Fields
tally floats out level q =
    put level (float (floats.plus (probability level out) (max_ℤ q (pos 0)))) out

-- The loop of `_level_probabilities`. `none` is an `OverflowError` or a `ValueError`.
module _ (py : Python) (floats : FloatRules) (legend : Fields) where
  unfoldable pub tally_from : Fields → Fields → Option Fields
  unfolding float_or_bool level_of_key
  tally_from out no_fields = some out
  tally_from out (field key v rest) = elim (float_or_bool py v) [
    | none ↦ none
    | some none ↦ tally_from out rest
    | some (some q) ↦ elim (level_of_key legend key) [
      | none ↦ none
      | some none ↦ tally_from out rest
      | some (some level) ↦ tally_from (tally floats out level q) rest
    ]
  ]

unfoldable pub level_probabilities : Python → FloatRules → ScoreAnswer → Option Fields
unfolding legend_levels tally_from
level_probabilities py floats answer =
    tally_from py floats (legend_levels py no_fields answer.legend) no_fields answer.probabilities

-- `max(MATERIALITY_LEVELS, key=...)`: the first level of the greatest probability.
abbrev pub better : Fields → String → String → String
better out best level = if leb_ℤ (probability level out) (probability best out) then best else level

abbrev pub likeliest : Fields → String
likeliest out = better out (better out (better out "noise" "minor") "material") "urgent"

abbrev pub ones : ℕ → ℤ
ones n = pos (n * one_quanta)

abbrev pub unit_interval : ℤ → ℤ
unit_interval = clamp (pos 0) (ones 1)

abbrev pub materiality : FloatRules → ScoreAnswer → String → ℤ → Fields
materiality floats answer level score = field "level" (str level) (
    field "score" (float (floats.round_4 (unit_interval score)))
      (field "confidence" (float (floats.round_4 (unit_interval answer.confidence))) no_fields))

abbrev values : Fields → List ℤ
values no_fields = []
values (field level v rest) = elim v [ float q ↦ q ∷ values rest | _ ↦ values rest ]

abbrev pub total : FloatRules → Fields → ℤ
total floats out = floats.sum (values out)

abbrev pub weighted : FloatRules → Fields → ℤ
weighted floats out =
    let part = λ (i : ℕ) (level : String).
      floats.times (probability level out) (floats.over (ones i) (ones 3)) in
    floats.sum (part 0 "noise" ∷ part 1 "minor" ∷ part 2 "material" ∷ part 3 "urgent" ∷ [])

-- The answer without probabilities: its score is the index of a level.
unfoldable pub by_score : FloatRules → ScoreAnswer → Option (Option Fields)
unfolding level_at
by_score floats answer =
    let clamped = clamp (pos 0) (ones 3) answer.score in
    elim (level_at (pos_part (floats.round_to_int clamped))) [
      | none ↦ none
      | some level ↦ some (some (materiality floats answer level (floats.over clamped (ones 3))))
    ]

unfoldable pub by_probabilities : FloatRules → ScoreAnswer → Fields → Option Fields
by_probabilities floats answer out =
    if leb_ℤ (total floats out) (pos 0)
    then none
    else some (
        materiality floats answer (likeliest out)
          (floats.over (weighted floats out) (total floats out)))

abbrev pub of_probabilities : FloatRules → ScoreAnswer → Option Fields → Option (Option Fields)
of_probabilities floats answer none = none
of_probabilities floats answer (some out) =
    if is_end out then by_score floats answer else some (by_probabilities floats answer out)

-- The outer `none` is an exception, the inner one an answer that is not confident or has no weight.
unfoldable pub materiality_from_answer : Python → FloatRules → ScoreAnswer → Option (Option Fields)
unfolding level_probabilities by_score by_probabilities
materiality_from_answer py floats answer =
    if is_confident answer.confidence
    then of_probabilities floats answer (level_probabilities py floats answer)
    else some none
