-- ===== src/Digest/Build.antt =====
-- `build_alert_digest` of app/alerts.py, and `build_alerts_response` of app/main.py around it. The
-- scorer of materiality keeps a state, which is passed along. `none` is an exception.
use underlying_analyzer_rebo.Base.{String, Option, none, some, List, [], if◌then◌else◌, length, map}
use underlying_analyzer_rebo.Base.Text.{blank}
use underlying_analyzer_rebo.Base.Int.{ℤ, pos}
use underlying_analyzer_rebo.Value.{
  Value, null, int, float, str, arr, obj, Fields, no_fields, field,
}
use underlying_analyzer_rebo.Value.Access.{get, get_value, put, as_dict, or_else, texts, of_items}
use underlying_analyzer_rebo.Alerts.Rules.{
  clamp, bounded_int, float_or_bool, threshold_default, threshold_most,
}
use underlying_analyzer_rebo.Materiality.Levels.{
  filter_alerts_by_materiality, parse_min_materiality,
}
use underlying_analyzer_rebo.Digest.Rows.{Format}
use underlying_analyzer_rebo.Digest.Queue.{
  KeyedAlert, keyed, sort_entries, slice_to, all_alerts, column, digest_payload,
}

abbrev optional_text : Option String → Value
optional_text none = null
optional_text (some s) = str s

abbrev pub dicts : List Fields → Value
dicts alerts = arr (of_items (map obj alerts))

abbrev pub entries_cut : ℤ → Option (List KeyedAlert) → Option (List Fields)
entries_cut n none = none
entries_cut n (some entries) = some (slice_to n (map (λ e. e.1) (sort_entries entries)))

abbrev pub keyed_if : Format → Option (List Fields) → Option (List KeyedAlert)
keyed_if format none = none
keyed_if format (some alerts) = keyed format.py alerts

-- The page of alerts: `alerts.sort(key=alert_sort_key)` and `alerts[:max_alerts]`.
unfoldable pub page : Format → ℤ → ℤ → List Fields → Option (List Fields)
unfolding keyed sort_entries all_alerts
page format max_alerts threshold rows =
    entries_cut max_alerts (keyed_if format (all_alerts format threshold rows))

-- `if min_materiality`
abbrev pub floored : Option String → List Fields → List Fields
floored none alerts = alerts
floored (some level) alerts =
    if blank level then alerts else filter_alerts_by_materiality alerts (some level)

-- What a caller of the digest gives besides the rows; `S` is the state of its scorer.
pub record Options {ℓ} (S : Type ℓ) : Type ℓ where
  pub max_alerts : ℤ
  pub volatility_threshold : ℤ
  pub scorer : Option (S → List Fields → Option (List Fields × S))
  pub min_materiality : Option String

pub record Digested {ℓ} (S : Type ℓ) : Type ℓ where
  pub alerts : List Fields
  pub digest : Fields
  pub state : S

module _ {ℓ} {S : Type ℓ} (format : Format) (options : Options S) where
  abbrev pub score_page :
      Option (S → List Fields → Option (List Fields × S))
      → S
      → Option (List Fields)
      → Option (List Fields × S)
  score_page scorer s none = none
  score_page none s (some alerts) = some (alerts, s)
  score_page (some scorer) s (some alerts) = scorer s alerts

  abbrev pub digested : S → List Fields → Option Fields → Option (Digested S)
  digested s alerts none = none
  digested s alerts (some digest) = some record { alerts = alerts; digest = digest; state = s }

  abbrev pub digest_page : String → List Fields → Option (List Fields × S) → Option (Digested S)
  digest_page generated_at rows none = none
  digest_page generated_at rows (some (alerts, s)) =
      let shown = floored options.min_materiality alerts in
      digested s shown (digest_payload format.py generated_at rows shown)

  unfoldable pub build_alert_digest : String → S → List Fields → Option (Digested S)
  unfolding page digest_payload
  build_alert_digest generated_at s rows = digest_page generated_at rows (
      score_page options.scorer s
        (page format options.max_alerts options.volatility_threshold rows))

-- `max_alerts` and `alert_volatility_threshold` of app/main.py.
unfoldable pub max_alerts : Fields → ℤ
unfolding bounded_int
max_alerts payload =
    bounded_int (or_else (get_value "max_alerts" payload) (int (pos 12))) (pos 12) (pos 1) (pos 50)

abbrev pub threshold_read : Option (Option ℤ) → Option ℤ
threshold_read none = none
threshold_read (some none) = some threshold_default
threshold_read (some (some q)) = some (clamp (pos 0) threshold_most q)

unfoldable pub threshold_of : Format → Value → Option ℤ
unfolding float_or_bool
threshold_of format null = some threshold_default
threshold_of format (str s) =
    if blank s then some threshold_default else threshold_read (float_or_bool format.py (str s))
threshold_of format v = threshold_read (float_or_bool format.py v)

abbrev pub alert_volatility_threshold : Format → Fields → Option ℤ
alert_volatility_threshold format payload =
    threshold_of format (get_value "volatility_threshold" payload)

-- The answer of `build_cockpit_response`, whose numbers are not modelled.
pub record Cockpit : Type 0 where
  pub rows : List Fields
  pub meta : Fields
  pub export : Fields
  pub provider : Value
  pub watchlist : Value

-- `digest["severity_counts"].get(severity, 0)`
abbrev pub severity_count : String → Fields → Value
severity_count severity digest =
    elim (get severity (as_dict (get_value "severity_counts" digest))) [
      | none ↦ int (pos 0)
      | some n ↦ n
    ]

unfoldable pub meta_of : Cockpit → ℤ → Option String → List Fields → Fields → Fields
meta_of cockpit threshold min_materiality alerts digest =
    put "min_materiality" (optional_text min_materiality) (
      put "volatility_threshold" (float threshold) (
        put "info_alert_count" (severity_count "Info" digest) (
          put "medium_alert_count" (severity_count "Medium" digest) (
            put "high_alert_count" (severity_count "High" digest)
              (put "alert_count" (int (pos (length alerts))) cockpit.meta)))))

unfoldable pub export_of : Cockpit → String → List String → Fields → List Fields → Fields → Fields
export_of cockpit generated_at tickers meta alerts digest = put "digest" (obj digest) (
    put "alerts" (dicts alerts) (
      put "rows" (dicts cockpit.rows) (
        put "meta" (obj meta) (
          put "image_files" (arr (of_items [])) (
            put "tickers" (arr (texts tickers)) (
              put "provider_note" (str "Watchlist alert digest") (
                put "mode" (str "watchlist-alerts")
                  (put "generated_at" (str generated_at) cockpit.export))))))))

unfoldable pub response_of :
    Cockpit → String → ℤ → Option String → List String → List Fields → Fields → Fields
unfolding meta_of export_of
response_of cockpit exported_at threshold min_materiality tickers alerts digest =
    let meta = meta_of cockpit threshold min_materiality alerts digest in
    field "alerts" (dicts alerts) (
      field "digest" (obj digest) (
        field "rows" (dicts cockpit.rows) (
          field "provider" cockpit.provider (
            field "provider_note" (str "Watchlist alert digest") (
              field "meta" (obj meta) (
                field "watchlist" cockpit.watchlist (
                  field "export" (obj (export_of cockpit exported_at tickers meta alerts digest))
                    no_fields)))))))

module _ {ℓ} {S : Type ℓ} (format : Format)
    (scorer : S → List Fields → Option (List Fields × S)) where
  abbrev pub options_of : Fields → ℤ → Options S
  options_of payload threshold = record {
    max_alerts = max_alerts payload;
    volatility_threshold = threshold;
    scorer = some scorer;
    min_materiality = parse_min_materiality format.py (get_value "min_materiality" payload);
  }

  abbrev pub answer_with :
      Cockpit
      → String
      → Options S
      → Option (Digested S)
      → Option (List String)
      → Option (Fields × S)
  answer_with cockpit exported_at options (some d) (some tickers) = some (
    response_of cockpit exported_at options.volatility_threshold options.min_materiality tickers
        d.alerts d.digest,
    d.state,
  )
  answer_with cockpit exported_at options _ _ = none

  abbrev pub build_with : Cockpit → String → String → S → Options S → Option (Fields × S)
  build_with cockpit generated_at exported_at s options =
      answer_with cockpit exported_at options
        (build_alert_digest format options generated_at s cockpit.rows)
        (column format.py "ticker" cockpit.rows)

  abbrev pub with_threshold :
      Cockpit → Fields → String → String → S → Option ℤ → Option (Fields × S)
  with_threshold cockpit payload generated_at exported_at s none = none
  with_threshold cockpit payload generated_at exported_at s (some threshold) =
      build_with cockpit generated_at exported_at s (options_of payload threshold)

  -- The answer for a payload, given the cockpit that was built for it.
  unfoldable pub build_alerts_response :
      Cockpit → Fields → String → String → S → Option (Fields × S)
  unfolding build_alert_digest column max_alerts threshold_of parse_min_materiality response_of
  build_alerts_response cockpit payload generated_at exported_at s =
      with_threshold cockpit payload generated_at exported_at s
        (alert_volatility_threshold format payload)
