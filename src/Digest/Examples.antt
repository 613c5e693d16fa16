-- ===== src/Digest/Examples.antt =====
-- Two rows of app/alerts.py, their queue and the answer for them.
use underlying_analyzer_rebo.Base.{
  ℕ, ◌<◌, ◌≡◌, refl, String, true, false, Option, none, some, All, List, [], ◌∷◌, length,
}
use underlying_analyzer_rebo.Base.Text.{lower, upper, strip, ends_with}
use underlying_analyzer_rebo.Base.Int.{ℤ, pos, truncate}
use underlying_analyzer_rebo.Value.{Value, null, bool, int, str, obj, Fields, no_fields, field}
use underlying_analyzer_rebo.Value.Access.{get, get_value, put, as_dict}
use underlying_analyzer_rebo.Value.Show.{str_of}
use underlying_analyzer_rebo.Alerts.Rules.{threshold_default, float_or_bool, bounded_int}
use underlying_analyzer_rebo.Alerts.Delivery.{
  deliver_alert_webhook, deliver_configured, deliver_checked, deliver_to, deliver_counted, send,
  validate_webhook_url, check_parsed, count_of, redacted_webhook_destination,
}
use underlying_analyzer_rebo.Registry.Coerce.{int_of}
use underlying_analyzer_rebo.Alerts.Safety.{IsPermitted}
use underlying_analyzer_rebo.Alerts.Examples.{rule, network}
use underlying_analyzer_rebo.Materiality.Levels.{parse_min_materiality}
use underlying_analyzer_rebo.Materiality.Memo.{Cache}
use underlying_analyzer_rebo.Materiality.Laws.{IsSane}
use underlying_analyzer_rebo.Materiality.Examples.{python, client, scorer, never}
use underlying_analyzer_rebo.Digest.Rows.{
  Format, float_value, row_facts, alert_payload, lane_alerts, flow_alerts, ridge_alerts,
  auction_alerts, volatility_alerts, alerts_of, row_alerts,
}
use underlying_analyzer_rebo.Digest.Order.{key_leb, text_leb}
use underlying_analyzer_rebo.Digest.Queue.{
  alert_sort_key, counter_from, keyed, insert_entry, sort_entries, all_alerts, column,
  digest_payload,
}
use underlying_analyzer_rebo.Digest.Build.{
  page, dicts, Cockpit, build_alert_digest, threshold_of, response_of, meta_of,
  build_alerts_response, max_alerts,
}
use underlying_analyzer_rebo.Digest.Numbers.{RowFits}
use underlying_analyzer_rebo.Digest.Sorted.{IsPageOf, page-IsPageOf}
use underlying_analyzer_rebo.Digest.Counts.{occurrences, IsReport}
use underlying_analyzer_rebo.Digest.Report.{deliver_response-IsFounded}
use underlying_analyzer_rebo.Digest.Feed.{IsFeed, materiality_scorer, build_alerts_response-IsFeed}

abbrev format : Format
format = record { py = python; one_decimal = λ q. "71.0"; hundredfold = λ q. "60.0" }

abbrev rows : List Fields
rows =
    field "ticker" (str "MSFT")
      (field "lane" (str "Watch") (field "annual_volatility" (int (pos 1)) no_fields))
    ∷ field "ticker" (str "AAPL") (
        field "lane" (str "Priority") (
          field "rank" (int (pos 1))
            (field "flow" (obj (field "fresh_short" (bool true) no_fields)) no_fields)))
    ∷ []

rows_fit : All (RowFits format.py) rows
unfolding get float_value
rows_fit = (
  ((_, refl), (_, refl, (_, refl)), (_, refl)),
  (((_, refl), (_, refl, (_, refl)), (_, refl)), tt),
)

page-IsPageOf_example :
    (shown : List Fields) × (page format (pos 2) threshold_default rows ≡ some shown)
    × IsPageOf format (pos 2) threshold_default rows shown
page-IsPageOf_example = page-IsPageOf format threshold_default (pos 2) rows rows_fit

abbrev cockpit : Cockpit
cockpit = record {
  rows = rows;
  meta = no_fields;
  export = no_fields;
  provider = str "sample";
  watchlist = null;
}

build_alerts_response-IsFeed_example :
    (threshold : ℤ) × (shown : List Fields) × (outs : List Fields) × (response : Fields)
    × (later : Cache) × (build_alerts_response format
          (materiality_scorer scorer false client 100)
          cockpit
          no_fields
          "t1"
          "t2"
          []
        ≡ some (response, later))
    × IsFeed format cockpit no_fields threshold shown outs response
    × IsSane later
unfolding get float_or_bool
build_alerts_response-IsFeed_example =
    build_alerts_response-IsFeed format scorer false client 100 cockpit no_fields "t1" "t2" []
      rows_fit (none, refl) never tt (refl, (refl, tt))

-- A scorer that leaves the alerts as they are.
abbrev no_scorer : ℕ → List Fields → Option (List Fields × ℕ)
no_scorer s alerts = some (alerts, s)

abbrev first_of : Option (Fields × ℕ) → Fields
first_of none = no_fields
first_of (some (response, s)) = response

abbrev response : Fields
response = first_of (build_alerts_response format no_scorer cockpit no_fields "t1" "t2" 0)

response_run :
    build_alerts_response format no_scorer cockpit no_fields "t1" "t2" 0 ≡ some (response, 0)
unfolding build_alerts_response build_alert_digest page all_alerts row_alerts row_facts float_value
    alerts_of lane_alerts flow_alerts ridge_alerts auction_alerts volatility_alerts alert_payload
    keyed alert_sort_key sort_entries insert_entry key_leb text_leb digest_payload column
    threshold_of float_or_bool max_alerts bounded_int get put str_of lower upper
    parse_min_materiality truncate
response_run = refl

abbrev body_of : Option (String × Value) → Value
body_of none = null
body_of (some sent) = sent.1

abbrev body : Value
body = body_of (deliver_alert_webhook network rule 20455 (some "run-1") response true).posted

sent_run :
    (deliver_alert_webhook network rule 20455 (some "run-1") response true).posted
    ≡ some ("https://hooks.example.com/a", body)
unfolding deliver_alert_webhook deliver_configured deliver_checked deliver_to deliver_counted send
    validate_webhook_url check_parsed ends_with count_of int_of redacted_webhook_destination
    build_alerts_response build_alert_digest page all_alerts row_alerts row_facts float_value
    alerts_of lane_alerts flow_alerts ridge_alerts auction_alerts volatility_alerts alert_payload
    keyed alert_sort_key sort_entries insert_entry key_leb text_leb digest_payload column
    threshold_of float_or_bool max_alerts bounded_int get put str_of lower upper strip
    parse_min_materiality response_of meta_of counter_from truncate
sent_run = refl

deliver_response-IsFounded_example :
    (alerts : List Fields) × (severities : List String) × IsReport python response alerts
    × (column python "severity" alerts ≡ some severities)
    × (get_value "alerts" (as_dict body) ≡ dicts alerts)
    × (0 < length alerts)
    × (rule.delivery_min_severity ≡ "high" → 0 < occurrences "High" severities)
    × IsPermitted network rule
        (as_dict (get_value "meta" response))
        true
        "https://hooks.example.com/a"
deliver_response-IsFounded_example =
    deliver_response-IsFounded format no_scorer network rule cockpit no_fields "t1" "t2" 0 0
      response 20455 (some "run-1") "https://hooks.example.com/a" body response_run sent_run
