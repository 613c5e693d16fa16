-- ===== src/Digest/Report.antt =====
-- What `build_alerts_response` of app/main.py reports, and what a webhook of app/alert_scheduler.py
-- that is posted for it stands on.
use underlying_analyzer_rebo.Base.{
  ℕ, zero, suc, ◌<◌, ◌≡◌, refl, sym, ap, ◌∙◌, [], ◌∷◌, inl, inr, String, true, Option, none, some,
  List, arith, length, Option-cases,
}
use underlying_analyzer_rebo.Base.Int.{pos}
use underlying_analyzer_rebo.Value.{Value, int, arr, obj, no_items, Fields}
use underlying_analyzer_rebo.Value.Access.{get, get_value, or_else, as_dict}
use underlying_analyzer_rebo.Alerts.Rules.{ScheduledAlertRule, int_or_bool}
use underlying_analyzer_rebo.Registry.Coerce.{int_of}
use underlying_analyzer_rebo.Alerts.Delivery.{
  Network, count_of, webhook_body, deliver_alert_webhook,
}
use underlying_analyzer_rebo.Alerts.Safety.{IsPermitted, HasCount, deliver_alert_webhook-IsDelivery}
use underlying_analyzer_rebo.Digest.Rows.{Format}
use underlying_analyzer_rebo.Digest.Queue.{counter, column, digest_payload}
use underlying_analyzer_rebo.Digest.Build.{
  Options, Digested, digested, dicts, digest_page, build_alert_digest, floored, Cockpit,
  response_of, options_of, answer_with, build_alerts_response, alert_volatility_threshold,
}
use underlying_analyzer_rebo.Digest.Counts.{
  occurrences, IsReport, digest_of-counts, response_of-IsReport,
}

abbrev IsCounted {ℓ} : {S : Type ℓ} → Format → Digested S → Type 0
IsCounted format d =
    (severities : List String) × (column format.py "severity" d.alerts ≡ some severities)
    × (get_value "severity_counts" d.digest ≡ obj (counter severities))

module _ {ℓ} {S : Type ℓ} (format : Format) where
  digested-IsCounted :
      (options : Options S) (generated_at : String) (rows shown : List Fields) (s : S)
      (d : Digested S)
      → digested format options s shown (digest_payload format.py generated_at rows shown) ≡ some d
      → IsCounted format d
  unfolding digest_payload
  digested-IsCounted options generated_at rows shown s d h =
      elim (Option-cases (digest_payload format.py generated_at rows shown)) [
        | inl raised ↦ absurd (ground (arith, raised, h))
        | inr (digest, there) ↦
            let counted = digest_of-counts format.py generated_at rows shown _ _ digest there in
            let same : record { alerts = shown; digest = digest; state = s } ≡ d =
              ground (arith, there, h) in
            rw (← same) counted
      ]

  digest_page-IsCounted :
      (options : Options S) (generated_at : String) (rows : List Fields)
      (scored : Option (List Fields × S)) (d : Digested S)
      → digest_page format options generated_at rows scored ≡ some d
      → IsCounted format d
  digest_page-IsCounted options generated_at rows none d h = absurd (ground arith)
  digest_page-IsCounted options generated_at rows (some (alerts, s)) d h =
      digested-IsCounted options generated_at rows (floored options.min_materiality alerts) s d h

  build_alert_digest-IsCounted :
      (options : Options S) (generated_at : String) (rows : List Fields) (s : S) (d : Digested S)
      → build_alert_digest format options generated_at s rows ≡ some d
      → IsCounted format d
  unfolding build_alert_digest
  build_alert_digest-IsCounted options generated_at rows s d h =
      digest_page-IsCounted options generated_at rows _ d h

  module _ (scorer : S → List Fields → Option (List Fields × S)) where
    answer_with-IsReport :
        (cockpit : Cockpit) (exported_at : String) (options : Options S) (o : Option (Digested S))
        (tickers : Option (List String)) (response : Fields) (later : S)
        → ((d : Digested S) → o ≡ some d → IsCounted format d)
        → answer_with format scorer cockpit exported_at options o tickers ≡ some (response, later)
        → (alerts : List Fields) × IsReport format.py response alerts
    answer_with-IsReport cockpit exported_at options (some d) (some tickers) response later counts
          h =
        let (severities, read, counted) = counts d refl in
        let same : response_of cockpit exported_at options.volatility_threshold
              options.min_materiality tickers d.alerts d.digest
            ≡ response =
          ground (arith, h) in
        (
          d.alerts,
          rw (← same) (
              response_of-IsReport format.py cockpit exported_at options.volatility_threshold
                options.min_materiality tickers severities d.alerts d.digest read counted),
        )
    answer_with-IsReport cockpit exported_at options (some d) none response later counts h =
        absurd (ground arith)
    answer_with-IsReport cockpit exported_at options none tickers response later counts h =
        absurd (ground arith)

    -- When `build_alerts_response` returns, the numbers of its `meta` are those of the alerts that it
    -- returns, after scoring and filtering: how many there are, and how many are of severity High, Medium
    -- and Info.
    pub build_alerts_response-IsReport :
        (cockpit : Cockpit) (payload : Fields) (generated_at exported_at : String) (s later : S)
        (response : Fields)
        → build_alerts_response format scorer cockpit payload generated_at exported_at s
          ≡ some (response, later)
        → (alerts : List Fields) × IsReport format.py response alerts
    unfolding build_alerts_response
    build_alerts_response-IsReport cockpit payload generated_at exported_at s later response h =
        elim (Option-cases (alert_volatility_threshold format payload)) [
          | inl raised ↦ absurd (ground (arith, raised, h))
          | inr (threshold, there) ↦
              let options = options_of format scorer payload threshold in
              answer_with-IsReport cockpit exported_at options
                (build_alert_digest format options generated_at s cockpit.rows)
                (column format.py "ticker" cockpit.rows) response later
                (λ d. build_alert_digest-IsCounted options generated_at cockpit.rows s d)
                (rw there at h)
        ]

read_count : (n : ℕ) → int_or_bool (or_else (int (pos n)) (int (pos 0))) ≡ some (pos n)
unfolding int_of
read_count zero = refl
read_count (suc n) = refl

positive_count :
    (key : String) (meta : Fields) (n : ℕ)
    → get_value key meta ≡ int (pos n)
    → HasCount key meta
    → 0 < n
unfolding count_of
positive_count key meta n h (m, read, positive) =
    let counted = ap (λ v. int_or_bool (or_else v (int (pos 0)))) h ∙ read_count n in
    let same : pos n ≡ m = ground (arith, sym counted ∙ read) in
    ground (arith, rw (← same) at positive)

dicts-or_else : (alerts : List Fields) → or_else (dicts alerts) (arr no_items) ≡ dicts alerts
dicts-or_else [] = refl
dicts-or_else (alert ∷ alerts) = refl

alerts_in_body :
    (net : Network) (rule : ScheduledAlertRule) (run_date : ℕ) (run_id : Option String)
    (payload : Fields)
    → get_value "alerts" (as_dict (webhook_body net rule run_date run_id payload))
      ≡ or_else (get_value "alerts" payload) (arr no_items)
unfolding webhook_body get
alerts_in_body net rule run_date run_id payload = refl

-- A webhook that is posted for the answer of `build_alerts_response` where alerts are required, as a
-- scheduled run requires them, has in its body, under `alerts`, the alerts of that answer. There is at
-- least one, and one of severity High if the rule asks for high alerts only; the URL is the rule's and is
-- public.
pub deliver_response-IsFounded :
    {S : Type 0} (format : Format) (scorer : S → List Fields → Option (List Fields × S))
    (net : Network) (rule : ScheduledAlertRule) (cockpit : Cockpit) (payload : Fields)
    (generated_at exported_at : String) (s later : S) (response : Fields) (run_date : ℕ)
    (run_id : Option String) (url : String) (body : Value)
    → build_alerts_response format scorer cockpit payload generated_at exported_at s
      ≡ some (response, later)
    → (deliver_alert_webhook net rule run_date run_id response true).posted ≡ some (url, body)
    → (alerts : List Fields) × (severities : List String) × IsReport format.py response alerts
      × (column format.py "severity" alerts ≡ some severities)
      × (get_value "alerts" (as_dict body) ≡ dicts alerts)
      × (0 < length alerts)
      × (rule.delivery_min_severity ≡ "high" → 0 < occurrences "High" severities)
      × IsPermitted net rule (as_dict (get_value "meta" response)) true url
deliver_response-IsFounded format scorer net rule cockpit payload generated_at exported_at s later
      response run_date run_id url body built sent =
    let (alerts, report) =
      build_alerts_response-IsReport format scorer cockpit payload generated_at exported_at s later
        response built in
    let (same, all, counts) = report in
    let (severities, read, high, medium, info) = counts in
    let meta = as_dict (get_value "meta" response) in
    let (permitted, told) =
      (deliver_alert_webhook-IsDelivery net rule run_date run_id response true).sent url body
        sent in
    (
      alerts,
      severities,
      report,
      read,
      ap (λ b. get_value "alerts" (as_dict b)) told
          ∙ alerts_in_body net rule run_date run_id response
          ∙ ap (λ v. or_else v (arr no_items)) same
          ∙ dicts-or_else alerts,
      positive_count "alert_count" meta (length alerts) all (permitted.alerts refl),
      (λ wants.
          positive_count "high_alert_count" meta (occurrences "High" severities) high
            (permitted.high_alerts refl wants)),
      permitted,
    )
