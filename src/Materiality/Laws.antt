-- ===== src/Materiality/Laws.antt =====
-- `score_alert_materiality` of app/alert_materiality.py keeps the alerts, and remembers their scores.
use underlying_analyzer_rebo.Base.{
  ℕ, zero, suc, ◌+◌, ◌≤◌, ◌≡◌, refl, ◌⊎◌, inl, inr, String, Bool, true, not, ◌&&◌, Option, none,
  some, List, [], ◌∷◌, ◌++◌, arith, ◌==◌, eq_iff, if◌then◌else◌, is_some, ltb, All, length,
  length-drop, take, drop, Bool-cases, Option-cases,
}
use underlying_analyzer_rebo.Value.{obj, Fields}
use underlying_analyzer_rebo.Value.Access.{put}
use underlying_analyzer_rebo.Jev.Ask.{JevClient, has_api_key}
use underlying_analyzer_rebo.Materiality.Score.{
  Scored, Scorer, score_chunk, score_chunks, score_uncached, max_batch_items,
}
use underlying_analyzer_rebo.Materiality.Memo.{
  Memo, Cache, recall, remember, fresh_value, hit, annotate, cache_key, pending, write, results,
  score_pending, score_alert_materiality,
}
use underlying_analyzer_rebo.Materiality.Known.{IsLevelled, IsLevelledIfAny}
use underlying_analyzer_rebo.Materiality.Batch.{IsScore, IsScoring, score_uncached-IsScoring}

-- Every score that is remembered has a known level.
abbrev pub IsSane : Cache → Type 0
IsSane = All λ entry. IsLevelledIfAny entry.1.value

-- An alert as it was, or with a materiality of a known level in the one field that is added.
abbrev pub IsAnnotation : Fields → Fields → Type 0
IsAnnotation alert out =
    (out ≡ alert)
    ⊎ ((materiality : Fields) × (out ≡ put "jev_materiality" (obj materiality) alert)
        × IsLevelled materiality)

abbrev pub AreAnnotated : List Fields → List Fields → Type 0
AreAnnotated [] [] = Unit
AreAnnotated (alert ∷ alerts) (out ∷ outs) = IsAnnotation alert out × AreAnnotated alerts outs
AreAnnotated _ _ = ⊥

recall-IsLevelled :
    (key : String) (cache : Cache) (memo : Memo)
    → IsSane cache
    → recall key cache ≡ some memo
    → IsLevelledIfAny memo.value
unfolding recall
recall-IsLevelled key [] memo sane h = absurd (ground arith)
recall-IsLevelled key ((k, m) ∷ cache) memo (one, sane) h = elim (Bool-cases (k == key)) [
  | inl same ↦ let found : m ≡ memo = ground (arith, same, h) in rw (← found) one
  | inr other ↦ recall-IsLevelled key cache memo sane (rw other at h)
]

remember-IsSane :
    (key : String) (memo : Memo) (cache : Cache)
    → IsLevelledIfAny memo.value
    → IsSane cache
    → IsSane (remember key memo cache)
unfolding remember
remember-IsSane key memo [] new sane = (new, tt)
remember-IsSane key memo ((k, m) ∷ cache) new (one, sane) = elim (Bool-cases (k == key)) [
  | inl same ↦ rw same (new, sane)
  | inr other ↦ rw other (one, remember-IsSane key memo cache new sane)
]

pub recall-remember :
    (key j : String) (memo : Memo) (cache : Cache)
    → recall j (remember key memo cache) ≡ (if key == j then some memo else recall j cache)
unfolding recall remember
recall-remember key j memo [] = ground arith
recall-remember key j memo ((i, m) ∷ cache) =
    ground (arith, recall-remember key j memo cache, eq_iff i key, eq_iff i j, eq_iff key j)

annotate-IsAnnotation :
    (alert : Fields) (value : Option Fields)
    → IsLevelledIfAny value
    → IsAnnotation alert (annotate alert value)
annotate-IsAnnotation alert none h = inl refl
annotate-IsAnnotation alert (some materiality) h = inr (materiality, refl, h)

fresh_value-IsLevelled :
    (started : ℕ) (o : Option Memo) (value : Option Fields)
    → ((memo : Memo) → o ≡ some memo → IsLevelledIfAny memo.value)
    → fresh_value started o ≡ some value
    → IsLevelledIfAny value
fresh_value-IsLevelled started none value sane h = absurd (ground arith)
fresh_value-IsLevelled started (some memo) value sane h =
    elim (Bool-cases (ltb started memo.until)) [
      | inl fresh ↦
          let same : memo.value ≡ value = ground (arith, fresh, h) in rw (← same) (sane memo refl)
      | inr over ↦ absurd (ground (arith, over, h))
    ]

module _ (scorer : Scorer) (started : ℕ) where
  write-IsSane :
      (alerts : List Fields) (scored : List Scored) (cache : Cache)
      → IsScoring alerts scored
      → IsSane cache
      → (later : Cache) × (write scorer started alerts scored cache ≡ some later) × IsSane later
  unfolding write
  write-IsSane [] [] cache h sane = (cache, refl, sane)
  write-IsSane [] (one ∷ scored) cache h sane = absurd (omega (arith, h.0))
  write-IsSane (alert ∷ alerts) [] cache h sane = absurd (omega (arith, h.0))
  write-IsSane (alert ∷ alerts) ((value, ttl) ∷ scored) cache (same, (one, all)) sane =
      write-IsSane alerts scored
        (remember (cache_key scorer alert) (record { until = started + ttl; value = value }) cache)
        (omega arith, all)
        (remember-IsSane (cache_key scorer alert) (record { until = started + ttl; value = value })
          cache one.0 sane)

  hit-IsAnnotation :
      (cache : Cache) (alert : Fields) (value : Option Fields)
      → IsSane cache
      → hit started cache (cache_key scorer alert) ≡ some value
      → IsAnnotation alert (annotate alert value)
  hit-IsAnnotation cache alert value sane there =
      let key = cache_key scorer alert in
      annotate-IsAnnotation alert value (
        fresh_value-IsLevelled started (recall key cache) value
          (λ memo. recall-IsLevelled key cache memo sane) there)

  results-AreAnnotated :
      (cache : Cache) (alerts : List Fields) (scored : List Scored)
      → IsSane cache
      → All IsScore scored
      → AreAnnotated alerts (results scorer started cache alerts scored)
  unfolding results
  results-AreAnnotated cache [] scored sane h = tt
  results-AreAnnotated cache (alert ∷ alerts) [] sane h =
      elim (Option-cases (hit started cache (cache_key scorer alert))) [
        | inr (value, there) ↦
            rw (there, results)
              (
                hit-IsAnnotation cache alert value sane there,
                results-AreAnnotated cache alerts [] sane h,
              )
        | inl absent ↦ rw (absent, results) (inl refl, results-AreAnnotated cache alerts [] sane tt)
      ]
  results-AreAnnotated cache (alert ∷ alerts) (one ∷ rest) sane h =
      elim (Option-cases (hit started cache (cache_key scorer alert))) [
        | inr (value, there) ↦
            rw (there, results)
              (
                hit-IsAnnotation cache alert value sane there,
                results-AreAnnotated cache alerts (one ∷ rest) sane h,
              )
        | inl absent ↦
            rw (absent, results)
              (
                annotate-IsAnnotation alert one.0 h.0.0,
                results-AreAnnotated cache alerts rest sane h.1,
              )
      ]

-- No answer makes the reading of a chunk raise.
abbrev pub NeverRaises : Scorer → JevClient → Type 0
NeverRaises scorer client = (chunk : List Fields) → is_some (score_chunk scorer client chunk) ≡ true

module _ (scorer : Scorer) (client : JevClient) (never : NeverRaises scorer client) where
  score_chunks_enough :
      (fuel : ℕ) (alerts : List Fields)
      → length alerts ≤ fuel
      → (scored : List Scored) × (score_chunks scorer client fuel alerts ≡ some scored)
  unfolding score_chunks
  score_chunks_enough fuel [] h = ([], refl)
  score_chunks_enough zero (alert ∷ alerts) h = absurd (omega arith)
  score_chunks_enough (suc fuel) (alert ∷ alerts) h =
      let all = alert ∷ alerts in
      let (rest, there) =
        score_chunks_enough fuel (drop max_batch_items all)
          (omega (arith, length-drop max_batch_items all, h)) in
      let chunk = take max_batch_items all in
      elim (Option-cases (score_chunk scorer client chunk)) [
        | inl raised ↦ absurd (ground (arith, never chunk, raised))
        | inr (scored, here) ↦ (scored ++ rest, rw (here, there))
      ]

  score_uncached_enough :
      (injected : Bool) (alerts : List Fields)
      → (scored : List Scored) × (score_uncached scorer injected client alerts ≡ some scored)
        × IsScoring alerts scored
  unfolding score_uncached
  score_uncached_enough injected alerts =
      let scored_well = score_uncached-IsScoring scorer injected client alerts in
      elim (Option-cases (score_uncached scorer injected client alerts)) [
        | inr (scored, there) ↦ (scored, there, rw there at scored_well)
        | inl raised ↦ elim (Bool-cases (not injected && not (has_api_key client.api_key))) [
          | inl keyless ↦ absurd (ground (arith, keyless, raised))
          | inr keyed ↦
              let (scored, there) = score_chunks_enough (length alerts) alerts (omega arith) in
              absurd (ground (arith, keyed, raised, there))
        ]
      ]

-- Where no answer makes the reading raise and every score that is remembered has a known level,
-- `score_alert_materiality` returns: as many alerts as it is given, in their order, each of them
-- unchanged or with the one field `jev_materiality` added, whose level is one of the four. What it
-- remembers then has known levels again.
pub score_alert_materiality-AreAnnotated :
    (scorer : Scorer) (injected : Bool) (client : JevClient) (started : ℕ) (cache : Cache)
    (alerts : List Fields)
    → NeverRaises scorer client
    → IsSane cache
    → (outs : List Fields) × (later : Cache) × (score_alert_materiality scorer injected client
          started cache alerts
        ≡ some (outs, later))
      × AreAnnotated alerts outs
      × IsSane later
unfolding score_alert_materiality
score_alert_materiality-AreAnnotated scorer injected client started cache alerts never sane =
    pending_done (pending scorer started cache alerts) refl
  where
    pending_done :
        (left : List Fields)
        → pending scorer started cache alerts ≡ left
        → (outs : List Fields) × (later : Cache) × (score_pending scorer injected client started
              cache alerts left
            ≡ some (outs, later))
          × AreAnnotated alerts outs
          × IsSane later
    pending_done [] same = (
      results scorer started cache alerts [],
      cache,
      refl,
      results-AreAnnotated scorer started cache alerts [] sane tt,
      sane,
    )
    pending_done (first ∷ more) same =
        let (scored, there, fits) =
          score_uncached_enough scorer client never injected (first ∷ more) in
        let (later, saved, sane') =
          write-IsSane scorer started (pending scorer started cache alerts) scored cache
            (rw same fits) sane in
        (
          results scorer started cache alerts scored,
          later,
          rw (there, saved) refl,
          results-AreAnnotated scorer started cache alerts scored sane fits.1,
          sane',
        )
