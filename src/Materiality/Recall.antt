-- ===== src/Materiality/Recall.antt =====
-- A polling client of app/alert_materiality.py asks nothing twice: `score_alert_materiality` answers
-- from what it remembers.
use underlying_analyzer_rebo.Base.{
  ℕ, ◌+◌, ◌<◌, ◌≡◌, refl, ap, inl, inr, String, Bool, Option, none, some, List, [], ◌∷◌, arith,
  ◌==◌, eq_refl, ltb, ltb→lt, lt→ltb, All, Bool-cases, Option-cases,
}
use underlying_analyzer_rebo.Base.Result.{Result}
use underlying_analyzer_rebo.Value.{Value, Fields}
use underlying_analyzer_rebo.Jev.Ask.{JevClient, Reply}
use underlying_analyzer_rebo.Materiality.Score.{Scored, Scorer, score_uncached}
use underlying_analyzer_rebo.Materiality.Memo.{
  Memo, Cache, annotate, recall, remember, fresh_value, hit, cache_key, pending, write, results,
  score_pending, score_alert_materiality,
}
use underlying_analyzer_rebo.Materiality.Batch.{IsScore, score_uncached-IsScoring}
use underlying_analyzer_rebo.Materiality.Laws.{recall-remember}

abbrev IsFreshAt : ℕ → Cache → String → Type 0
IsFreshAt now cache key = (memo : Memo) × (recall key cache ≡ some memo) × (now < memo.until)

-- What is fresh at one time is fresh at the other.
abbrev pub StaysFresh : Cache → ℕ → ℕ → Type 0
StaysFresh cache started now =
    (key : String) (memo : Memo)
    → recall key cache ≡ some memo
    → started < memo.until
    → now < memo.until

remember-IsFreshAt :
    (now : ℕ) (key j : String) (memo : Memo) (cache : Cache)
    → now < memo.until
    → IsFreshAt now cache j
    → IsFreshAt now (remember key memo cache) j
remember-IsFreshAt now key j memo cache new (old, there, fresh) = elim (Bool-cases (key == j)) [
  | inl same ↦ (memo, rw (recall-remember key j memo cache, same), new)
  | inr other ↦ (old, rw (recall-remember key j memo cache, other) there, fresh)
]

remember-IsFreshAt_own :
    (now : ℕ) (key : String) (memo : Memo) (cache : Cache)
    → now < memo.until
    → IsFreshAt now (remember key memo cache) key
remember-IsFreshAt_own now key memo cache new =
    (memo, rw (recall-remember key key memo cache, eq_refl key), new)

module _ (scorer : Scorer) (started now : ℕ) (soon : now < started + 60) where
  abbrev AreFresh : Cache → List Fields → Type 0
  AreFresh cache = All λ alert. IsFreshAt now cache (cache_key scorer alert)

  abbrev KeepsFresh : Cache → Cache → Type 0
  KeepsFresh cache later = (key : String) → IsFreshAt now cache key → IsFreshAt now later key

  write-AreFresh :
      (alerts : List Fields) (scored : List Scored) (cache later : Cache)
      → All IsScore scored
      → write scorer started alerts scored cache ≡ some later
      → KeepsFresh cache later × AreFresh later alerts
  unfolding write
  write-AreFresh [] [] cache later all h =
      let same : cache ≡ later = ground arith in ((λ key fresh. rw (← same) fresh), tt)
  write-AreFresh [] (one ∷ scored) cache later all h = absurd (ground arith)
  write-AreFresh (alert ∷ alerts) [] cache later all h = absurd (ground arith)
  write-AreFresh (alert ∷ alerts) ((value, ttl) ∷ scored) cache later (one, all) h =
      let key = cache_key scorer alert in
      let memo : Memo = record { until = started + ttl; value = value } in
      let new : now < memo.until = omega (arith, soon, one.1) in
      let (keeps, fresh) = write-AreFresh alerts scored (remember key memo cache) later all h in
      (
        (λ j old. keeps j (remember-IsFreshAt now key j memo cache new old)),
        (keeps key (remember-IsFreshAt_own now key memo cache new), fresh),
      )

  fresh_value-fresh :
      (o : Option Memo) (value : Option Fields)
      → fresh_value started o ≡ some value
      → (memo : Memo) × (o ≡ some memo) × (started < memo.until)
  fresh_value-fresh none value h = absurd (ground arith)
  fresh_value-fresh (some memo) value h = elim (Bool-cases (ltb started memo.until)) [
    | inl fresh ↦ (memo, refl, ltb→lt started memo.until fresh)
    | inr over ↦ absurd (ground (arith, over, h))
  ]

  all-AreFresh :
      (cache later : Cache) (alerts : List Fields)
      → StaysFresh cache started now
      → KeepsFresh cache later
      → AreFresh later (pending scorer started cache alerts)
      → AreFresh later alerts
  unfolding pending
  all-AreFresh cache later [] stays keeps h = tt
  all-AreFresh cache later (alert ∷ alerts) stays keeps h =
      let key = cache_key scorer alert in
      elim (Option-cases (hit started cache key)) [
        | inl absent ↦
            let (own, rest) = rw absent at h in
            (own, all-AreFresh cache later alerts stays keeps rest)
        | inr (value, there) ↦
            let (memo, found, fresh) = fresh_value-fresh (recall key cache) value there in
            (
              keeps key (memo, found, stays key memo found fresh),
              all-AreFresh cache later alerts stays keeps (rw there at h),
            )
      ]

  fresh-hit :
      (cache : Cache) (key : String)
      → IsFreshAt now cache key
      → (value : Option Fields) × (hit now cache key ≡ some value)
  fresh-hit cache key (memo, there, fresh) = (memo.value, rw (there, lt→ltb now memo.until fresh))

  nothing_pending :
      (cache : Cache) (alerts : List Fields)
      → AreFresh cache alerts
      → pending scorer now cache alerts ≡ []
  unfolding pending
  nothing_pending cache [] h = refl
  nothing_pending cache (alert ∷ alerts) (own, rest) =
      let (value, there) = fresh-hit cache (cache_key scorer alert) own in
      rw (there, nothing_pending cache alerts rest)

  score_pending-AreFresh :
      (injected : Bool) (client : JevClient) (cache : Cache) (alerts left outs : List Fields)
      (later : Cache)
      → StaysFresh cache started now
      → pending scorer started cache alerts ≡ left
      → score_pending scorer injected client started cache alerts left ≡ some (outs, later)
      → AreFresh later alerts
  score_pending-AreFresh injected client cache alerts [] outs later stays same h =
      let kept : cache ≡ later = ground arith in
      rw (← kept) (all-AreFresh cache cache alerts stays (λ key fresh. fresh) (rw same tt))
  score_pending-AreFresh injected client cache alerts (first ∷ more) outs later stays same h =
      let left = first ∷ more in
      let scored_well = score_uncached-IsScoring scorer injected client left in
      elim (Option-cases (score_uncached scorer injected client left)) [
        | inl raised ↦ absurd (ground (arith, raised, h))
        | inr (scored, there) ↦
            elim (Option-cases
              (write scorer started (pending scorer started cache alerts) scored cache)) [
                | inl torn ↦ absurd (ground (arith, there, torn, h))
                | inr (saved, done) ↦
                    let kept : saved ≡ later = ground (arith, there, done, h) in
                    let (keeps, fresh) =
                      write-AreFresh (pending scorer started cache alerts) scored cache saved
                        (rw there at scored_well).1 done in
                    rw (← kept) (all-AreFresh cache saved alerts stays keeps fresh)
              ]
      ]

-- The scorer with another network.
abbrev pub with_post : Scorer → (ℕ → Value → Result String Reply) → Scorer
with_post scorer post = record scorer { wire = record scorer.wire { post = post } }

results-with_post :
    (scorer : Scorer) (post : ℕ → Value → Result String Reply) (now : ℕ) (cache : Cache)
    (alerts : List Fields)
    → results (with_post scorer post) now cache alerts [] ≡ results scorer now cache alerts []
unfolding results cache_key
results-with_post scorer post now cache [] = refl
results-with_post scorer post now cache (alert ∷ alerts) =
    let rest = results-with_post scorer post now cache alerts in
    elim (Option-cases (hit now cache (cache_key scorer alert))) [
      | inl absent ↦ rw (absent, results) (ap (◌∷◌ alert) rest)
      | inr (value, there) ↦ rw (there, results) (ap (◌∷◌ (annotate alert value)) rest)
    ]

-- Each alert is returned with the score that is remembered under its key, where that is still fresh.
abbrev pub AreRecalled : Scorer → ℕ → Cache → List Fields → List Fields → Type 0
AreRecalled scorer now cache [] [] = Unit
AreRecalled scorer now cache (alert ∷ alerts) (out ∷ outs) =
    ((memo : Memo) × (recall (cache_key scorer alert) cache ≡ some memo)
      × (now < memo.until)
      × (out ≡ annotate alert memo.value))
    × AreRecalled scorer now cache alerts outs
AreRecalled scorer now cache _ _ = ⊥

results-AreRecalled :
    (scorer : Scorer) (now : ℕ) (cache : Cache) (alerts : List Fields)
    → All (λ alert. IsFreshAt now cache (cache_key scorer alert)) alerts
    → AreRecalled scorer now cache alerts (results scorer now cache alerts [])
unfolding results
results-AreRecalled scorer now cache [] h = tt
results-AreRecalled scorer now cache (alert ∷ alerts) ((memo, there, fresh), h) =
    let found : hit now cache (cache_key scorer alert) ≡ some memo.value =
      rw (there, lt→ltb now memo.until fresh) in
    let same : results scorer now cache (alert ∷ alerts) []
        ≡ annotate alert memo.value ∷ results scorer now cache alerts [] =
      rw (found, results) in
    rw same ((memo, there, fresh, refl), results-AreRecalled scorer now cache alerts h)

-- After `score_alert_materiality` has returned, a call for the same alerts within a minute asks no
-- one: whatever the network would answer, with any client and with or without a key, it returns the
-- same alerts in order, each with the score that is remembered under its key and still fresh, and
-- changes no score that is remembered. Scores that were found are taken to be fresh still.
pub score_alert_materiality_again :
    (scorer : Scorer) (injected : Bool) (client : JevClient) (started now : ℕ) (cache later : Cache)
    (alerts outs : List Fields)
    → now < started + 60
    → StaysFresh cache started now
    → score_alert_materiality scorer injected client started cache alerts ≡ some (outs, later)
    → (again : List Fields) × AreRecalled scorer now later alerts again
      × ((post : ℕ → Value → Result String Reply) (injected' : Bool) (client' : JevClient)
          → score_alert_materiality (with_post scorer post) injected' client' now later alerts
            ≡ some (again, later))
unfolding score_alert_materiality cache_key
score_alert_materiality_again scorer injected client started now cache later alerts outs soon stays
      h =
    let fresh =
      score_pending-AreFresh scorer started now soon injected client cache alerts
        (pending scorer started cache alerts) outs later stays refl h in
    (
      results scorer now later alerts [],
      results-AreRecalled scorer now later alerts fresh,
      λ post injected' client'.
          let none_left =
            nothing_pending (with_post scorer post) started now soon later alerts fresh in
          rw (none_left, results-with_post scorer post now later alerts),
    )
