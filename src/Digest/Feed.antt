-- ===== src/Digest/Feed.antt =====
-- The alert feed of app/main.py from the rows to the answer: `build_alerts_response` with the scores
-- of app/alert_materiality.py.
use underlying_analyzer_rebo.Base.{
  ℕ, ◌≤◌, ◌≡◌, refl, inl, inr, String, Bool, true, Option, none, some, List, [], ◌∷◌, arith, All,
  length, length-take, map, length-keep_if-le, Bool-cases, Option-cases,
}
use underlying_analyzer_rebo.Base.Text.{blank}
use underlying_analyzer_rebo.Base.Int.{ℤ, pos, negsuc}
use underlying_analyzer_rebo.Value.{Value, null, bool, int, float, str, arr, obj, Fields}
use underlying_analyzer_rebo.Value.Access.{get, get_value, has_key, or_else}
use underlying_analyzer_rebo.Value.Show.{Python}
use underlying_analyzer_rebo.Alerts.Rules.{clamp, float_or_bool, threshold_default, threshold_most}
use underlying_analyzer_rebo.Alerts.Bounds.{IsBetween, bounded_int-IsBetween}
use underlying_analyzer_rebo.Jev.Ask.{JevClient}
use underlying_analyzer_rebo.Materiality.Levels.{
  filter_alerts_by_materiality, parse_min_materiality, known_name, above, reaches, known_level,
}
use underlying_analyzer_rebo.Materiality.Score.{Scorer}
use underlying_analyzer_rebo.Materiality.Memo.{Cache, score_alert_materiality}
use underlying_analyzer_rebo.Materiality.Laws.{
  IsSane, AreAnnotated, NeverRaises, score_alert_materiality-AreAnnotated,
}
use underlying_analyzer_rebo.Digest.Rows.{Format}
use underlying_analyzer_rebo.Digest.Queue.{
  KeyedAlert, sort_entries, slice_to, digest_of, digest_payload,
}
use underlying_analyzer_rebo.Digest.Build.{
  page, build_alert_digest, floored, dicts, Cockpit, max_alerts, threshold_of, threshold_read,
  response_of, build_alerts_response,
}
use underlying_analyzer_rebo.Digest.Sorted.{IsPageOf, page-IsPageOf, keyed-some, sort_entries-All}
use underlying_analyzer_rebo.Digest.Numbers.{RowFits, all_alerts-some}
use underlying_analyzer_rebo.Digest.Labels.{
  HasLabels, all_alerts-HasLabels, slice_to-All, AreAnnotated-HasLabels, floored-HasLabels,
  column-some,
}

length-slice_to-le :
    {A : Type 0} (n : ℤ) (xs : List A) → IsBetween (pos 1) (pos 50) n → length (slice_to n xs) ≤ 50
length-slice_to-le (pos n) xs between =
    let most : n ≤ 50 = ground (arith, between.1) in omega (arith, length-take n xs, most)
length-slice_to-le (negsuc n) xs between = absurd (ground (arith, between.0))

length-AreAnnotated :
    (alerts outs : List Fields) → AreAnnotated alerts outs → length outs ≡ length alerts
length-AreAnnotated [] [] h = refl
length-AreAnnotated [] (out ∷ outs) h = elim h [ ]
length-AreAnnotated (alert ∷ alerts) [] h = elim h [ ]
length-AreAnnotated (alert ∷ alerts) (out ∷ outs) h =
    omega (arith, length-AreAnnotated alerts outs h.1)

length-above-le :
    (floor : Option ℕ) (alerts : List Fields) → length (above floor alerts) ≤ length alerts
length-above-le none alerts = omega arith
length-above-le (some floor) alerts =
    length-keep_if-le (λ alert. reaches floor (known_level alert)) alerts

length-floored-le :
    (level : Option String) (alerts : List Fields) → length (floored level alerts) ≤ length alerts
unfolding filter_alerts_by_materiality
length-floored-le none alerts = omega arith
length-floored-le (some level) alerts = elim (Bool-cases (blank level)) [
  | inl empty ↦ rw empty (omega arith)
  | inr named ↦ rw named (length-above-le (known_name level) alerts)
]

-- The threshold that a payload asks for is no integer that is too large for a float.
abbrev pub ThresholdFits : Python → Value → Type 0
ThresholdFits py v = (o : Option ℤ) × (float_or_bool py v ≡ some o)

module _ (format : Format) where
  threshold_read-some :
      (v : Value)
      → ThresholdFits format.py v
      → (q : ℤ) × (threshold_read (float_or_bool format.py v) ≡ some q)
  threshold_read-some v (o, read) = elim (Option-cases o) [
    | inl unread ↦ (threshold_default, rw (read, unread))
    | inr (q, known) ↦ (clamp (pos 0) threshold_most q, rw (read, known))
  ]

  threshold_of-some :
      (v : Value) → ThresholdFits format.py v → (q : ℤ) × (threshold_of format v ≡ some q)
  unfolding threshold_of
  threshold_of-some null fits = (threshold_default, refl)
  threshold_of-some (str s) fits = elim (Bool-cases (blank s)) [
    | inl empty ↦ (threshold_default, rw empty)
    | inr full ↦ let (q, there) = threshold_read-some (str s) fits in (q, rw full there)
  ]
  threshold_of-some (bool b) fits = threshold_read-some (bool b) fits
  threshold_of-some (int n) fits = threshold_read-some (int n) fits
  threshold_of-some (float q) fits = threshold_read-some (float q) fits
  threshold_of-some (arr vs) fits = threshold_read-some (arr vs) fits
  threshold_of-some (obj fs) fits = threshold_read-some (obj fs) fits

  entries-HasLabels :
      (entries : List KeyedAlert)
      → All HasLabels (map (λ e. e.1) entries)
      → All (λ (e : KeyedAlert). HasLabels e.1) entries
  entries-HasLabels [] h = tt
  entries-HasLabels (e ∷ entries) (h, hs) = (h, entries-HasLabels entries hs)

  alerts-HasLabels :
      (entries : List KeyedAlert)
      → All (λ (e : KeyedAlert). HasLabels e.1) entries
      → All HasLabels (map (λ e. e.1) entries)
  alerts-HasLabels [] h = tt
  alerts-HasLabels (e ∷ entries) (h, hs) = (h, alerts-HasLabels entries hs)

  page-HasLabels :
      (n threshold : ℤ) (rows shown : List Fields)
      → All (RowFits format.py) rows
      → page format n threshold rows ≡ some shown
      → All HasLabels shown
  unfolding page
  page-HasLabels n threshold rows shown fits h =
      let (all, made, sortable) = all_alerts-some format threshold rows fits in
      let (entries, keyed_all, hold, same) = keyed-some format.py all sortable in
      let labelled : All HasLabels all = rw made at (all_alerts-HasLabels format threshold rows) in
      let queue = sort_entries entries in
      let cut : slice_to n (map (λ (e : KeyedAlert). e.1) queue) ≡ shown =
        ground (arith, made, keyed_all, h) in
      rw (← cut) (
        slice_to-All HasLabels n (map (λ (e : KeyedAlert). e.1) queue) (
          alerts-HasLabels queue (
            sort_entries-All (λ (e : KeyedAlert). HasLabels e.1) entries
              (entries-HasLabels entries (rw same labelled)))))

labels_of :
    (alerts : List Fields)
    → All HasLabels alerts
    → All (λ alert. has_key "severity" alert ≡ true) alerts
      × All (λ alert. has_key "category" alert ≡ true) alerts
labels_of [] h = (tt, tt)
labels_of (alert ∷ alerts) ((severity, category), h) =
    let (severities, categories) = labels_of alerts h in
    ((severity, severities), (category, categories))

digest_payload-some :
    (py : Python) (generated_at : String) (rows alerts : List Fields)
    → All HasLabels alerts
    → (digest : Fields) × (digest_payload py generated_at rows alerts ≡ some digest)
unfolding digest_payload
digest_payload-some py generated_at rows alerts h =
    let (with_severity, with_category) = labels_of alerts h in
    let (severities, read) = column-some py "severity" alerts with_severity in
    let (categories, read') = column-some py "category" alerts with_category in
    let whole = digest_of py generated_at rows alerts (some severities) (some categories) in
    elim (Option-cases whole) [
      | inl torn ↦ absurd (ground (arith, torn))
      | inr (digest, there) ↦ (digest, rw (read, read') there)
    ]

alerts_in_response :
    (cockpit : Cockpit) (exported_at : String) (threshold : ℤ) (level : Option String)
    (tickers : List String) (alerts : List Fields) (digest : Fields)
    → get_value "alerts" (response_of cockpit exported_at threshold level tickers alerts digest)
      ≡ dicts alerts
unfolding response_of get
alerts_in_response cockpit exported_at threshold level tickers alerts digest = refl

at_most_50 :
    (payload : Fields) (level : Option String) (shown outs queue : List Fields)
    → shown ≡ slice_to (max_alerts payload) queue
    → AreAnnotated shown outs
    → length (floored level outs) ≤ 50
unfolding max_alerts
at_most_50 payload level shown outs queue cut annotated =
    let raw = or_else (get_value "max_alerts" payload) (int (pos 12)) in
    let between = bounded_int-IsBetween raw (pos 12) (pos 1) (pos 50) refl in
    omega (
      arith,
      length-floored-le level outs,
      length-AreAnnotated shown outs annotated,
      rw (← cut) at (length-slice_to-le (max_alerts payload) queue between),
    )

-- The feed for a payload: `shown` is the page that is cut from the sorted queue of all alerts, `outs`
-- the same page with scores, and `alerts` what the filter leaves of it. There are at most 50.
abbrev pub IsFeed : Format → Cockpit → Fields → ℤ → List Fields → List Fields → Fields → Type 0
IsFeed format cockpit payload threshold shown outs response =
    let level = parse_min_materiality format.py (get_value "min_materiality" payload) in
    IsPageOf format (max_alerts payload) threshold cockpit.rows shown
    × AreAnnotated shown outs
    × (get_value "alerts" response ≡ dicts (floored level outs))
    × (length (floored level outs) ≤ 50)

abbrev pub materiality_scorer :
    Scorer → Bool → JevClient → ℕ → Cache → List Fields → Option (List Fields × Cache)
materiality_scorer scores injected client started cache alerts =
    score_alert_materiality scores injected client started cache alerts

module _ (format : Format) (scores : Scorer) (injected : Bool) (client : JevClient)
    (started : ℕ) where
  -- Where the score, rank and volatility of the rows and the threshold of the payload are no integers that
  -- are too large for a float, nor the rank when it has become an integer, no answer of Jev makes the reading raise, every row has a
  -- ticker and every remembered score has a known level, `build_alerts_response` answers: with the
  -- alerts that the filter leaves of the page, each as it was on the page or with a known level of
  -- materiality added. The page holds the first alerts of the sorted queue of all alerts, and at most
  -- 50 alerts are returned. What is remembered then has known levels again.
  pub build_alerts_response-IsFeed :
      (cockpit : Cockpit) (payload : Fields) (generated_at exported_at : String) (cache : Cache)
      → All (RowFits format.py) cockpit.rows
      → ThresholdFits format.py (get_value "volatility_threshold" payload)
      → NeverRaises scores client
      → IsSane cache
      → All (λ row. has_key "ticker" row ≡ true) cockpit.rows
      → (threshold : ℤ) × (shown : List Fields) × (outs : List Fields) × (response : Fields)
        × (later : Cache) × (build_alerts_response format
              (materiality_scorer scores injected client started)
              cockpit
              payload
              generated_at
              exported_at
              cache
            ≡ some (response, later))
        × IsFeed format cockpit payload threshold shown outs response
        × IsSane later
  unfolding build_alerts_response build_alert_digest
  build_alerts_response-IsFeed cockpit payload generated_at exported_at cache fits threshold_fits
        never sane tickers =
      let (threshold, read) =
        threshold_of-some format (get_value "volatility_threshold" payload) threshold_fits in
      let most = max_alerts payload in
      let level = parse_min_materiality format.py (get_value "min_materiality" payload) in
      let (shown, paged, is_page) = page-IsPageOf format threshold most cockpit.rows fits in
      let (outs, later, scored, annotated, sane') =
        score_alert_materiality-AreAnnotated scores injected client started cache shown never
          sane in
      let labelled = floored-HasLabels level outs (
        AreAnnotated-HasLabels shown outs annotated
          (page-HasLabels format most threshold cockpit.rows shown fits paged)) in
      let (digest, made) =
        digest_payload-some format.py generated_at cockpit.rows (floored level outs) labelled in
      let (names, listed) = column-some format.py "ticker" cockpit.rows tickers in
      let response =
        response_of cockpit exported_at threshold level names (floored level outs) digest in
      (
        threshold,
        shown,
        outs,
        response,
        later,
        rw (read, paged, scored, made, listed) refl,
        (
          is_page,
          annotated,
          alerts_in_response cockpit exported_at threshold level names (floored level outs) digest,
          at_most_50 payload level shown outs (map (λ e. e.1) is_page.1) is_page.6 annotated,
        ),
        sane',
      )
