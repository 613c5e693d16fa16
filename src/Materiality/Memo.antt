-- ===== src/Materiality/Memo.antt =====
-- `score_alert_materiality` of app/alert_materiality.py, with the scores that it remembers. `started`
-- is the one reading of the clock in a call. The scores of a call are written to the cache that it
-- finds when they are there, which is the one that it read unless another thread has changed it.
use underlying_analyzer_rebo.Base.{
  ℕ, ◌+◌, String, Bool, Option, none, some, List, [], ◌∷◌, ◌==◌, if◌then◌else◌, ltb,
}
use underlying_analyzer_rebo.Base.Text.{◌⧺◌}
use underlying_analyzer_rebo.Value.{obj, Fields, no_fields}
use underlying_analyzer_rebo.Value.Access.{get_value, put}
use underlying_analyzer_rebo.Alerts.Rules.{shown_or}
use underlying_analyzer_rebo.Jev.Ask.{JevClient}
use underlying_analyzer_rebo.Materiality.Score.{Scored, Scorer, content, score_uncached}

pub record Memo : Type 0 where
  pub until : ℕ
  pub value : Option Fields

abbrev pub Cache : Type 0
Cache = List (String × Memo)

-- `_cache.get(key)`
unfoldable pub recall : String → Cache → Option Memo
recall key [] = none
recall key ((k, memo) ∷ cache) = if k == key then some memo else recall key cache

-- `_cache[key] = memo`
unfoldable pub remember : String → Memo → Cache → Cache
remember key memo [] = (key, memo) ∷ []
remember key memo ((k, old) ∷ cache) =
    let rest = remember key memo cache in if k == key then (k, memo) ∷ cache else (k, old) ∷ rest

abbrev pub fresh_value : ℕ → Option Memo → Option (Option Fields)
fresh_value started none = none
fresh_value started (some memo) = if ltb started memo.until then some memo.value else none

-- A score that is remembered and not over; `none` is an alert that is pending.
abbrev pub hit : ℕ → Cache → String → Option (Option Fields)
hit started cache key = fresh_value started (recall key cache)

abbrev pub annotate : Fields → Option Fields → Fields
annotate alert none = alert
annotate alert (some materiality) = put "jev_materiality" (obj materiality) alert

module _ (scorer : Scorer) where
  unfoldable pub cache_key : Fields → String
  cache_key alert =
      shown_or scorer.wire.py (get_value "id" alert) ""
      ⧺ ":"
      ⧺ scorer.digest (content alert no_fields)

  abbrev pub unless_hit : Option (Option Fields) → Fields → List Fields → List Fields
  unless_hit (some value) alert rest = rest
  unless_hit none alert rest = alert ∷ rest

  unfoldable pub pending : ℕ → Cache → List Fields → List Fields
  unfolding recall cache_key
  pending started cache [] = []
  pending started cache (alert ∷ alerts) =
      unless_hit (hit started cache (cache_key alert)) alert (pending started cache alerts)

  -- The scores of the pending alerts are written in turn; `none` is a `zip` of unequal lengths.
  unfoldable pub write : ℕ → List Fields → List Scored → Cache → Option Cache
  unfolding remember cache_key
  write started [] [] cache = some cache
  write started [] (one ∷ scored) cache = none
  write started (alert ∷ alerts) [] cache = none
  write started (alert ∷ alerts) ((value, ttl) ∷ scored) cache =
      write started alerts scored
        (remember (cache_key alert) (record { until = started + ttl; value = value }) cache)

  -- `results`, and the copies of the alerts with them.
  unfoldable pub results : ℕ → Cache → List Fields → List Scored → List Fields
  unfolding recall cache_key
  results started cache [] scored = []
  results started cache (alert ∷ alerts) scored = elim (hit started cache (cache_key alert)) [
    | some value ↦ annotate alert value ∷ results started cache alerts scored
    | none ↦ elim scored [
      | [] ↦ alert ∷ results started cache alerts []
      | one ∷ rest ↦ annotate alert one.0 ∷ results started cache alerts rest
    ]
  ]

  abbrev pub written :
      ℕ → Cache → List Fields → List Scored → Option Cache → Option (List Fields × Cache)
  written started cache alerts scored none = none
  written started cache alerts scored (some later) =
      some (results started cache alerts scored, later)

  abbrev pub settle_scores :
      ℕ → Cache → List Fields → Option (List Scored) → Option (List Fields × Cache)
  settle_scores started cache alerts none = none
  settle_scores started cache alerts (some scored) =
      written started cache alerts scored
        (write started (pending started cache alerts) scored cache)

  abbrev pub score_pending :
      Bool → JevClient → ℕ → Cache → List Fields → List Fields → Option (List Fields × Cache)
  score_pending injected client started cache alerts [] =
      some (results started cache alerts [], cache)
  score_pending injected client started cache alerts (alert ∷ more) =
      settle_scores started cache alerts (score_uncached scorer injected client (alert ∷ more))

  -- `none` is an exception.
  unfoldable pub score_alert_materiality :
      (injected : Bool) → JevClient → ℕ → Cache → List Fields → Option (List Fields × Cache)
  unfolding pending write results score_uncached
  score_alert_materiality injected client started cache alerts =
      score_pending injected client started cache alerts (pending started cache alerts)
