-- ===== src/Alerts/Examples.antt =====
-- A rule of app/alert_scheduler.py and a run of it.
use underlying_analyzer_rebo.Base.{◌≡◌, refl, false, none, some, [], ◌∷◌, take}
use underlying_analyzer_rebo.Base.Text.{strip, upper, lower, split}
use underlying_analyzer_rebo.Base.Int.{pos}
use underlying_analyzer_rebo.Base.Result.{ok}
use underlying_analyzer_rebo.Value.{int, str, obj, Fields, no_fields, field}
use underlying_analyzer_rebo.Value.Access.{get}
use underlying_analyzer_rebo.Value.Show.{Python, str_of}
use underlying_analyzer_rebo.Alerts.Rules.{
  ScheduledAlertRule, scheduled_rule_from_row, rule_of, bounded_int, bounded_float, float_or_bool,
  threshold_default, normalize_tickers, split_tickers, string_or_none, delivery_channel,
  delivery_min_severity, parse_date,
}
use underlying_analyzer_rebo.Alerts.Bounds.{IsSane, scheduled_rule_from_row-IsSane}
use underlying_analyzer_rebo.Alerts.Delivery.{Network}
use underlying_analyzer_rebo.Alerts.Schedule.{Services, list_due_rules, run_scheduled_alert_rules}
use underlying_analyzer_rebo.Alerts.Log.{IsBatch, run_scheduled_alert_rules-IsBatch}

abbrev python : Python
python = record {
  show = λ v. "";
  repr = λ v. "";
  float_of_int = λ n. some n;
  float_of_text = λ s. none;
}

abbrev row : Fields
row = field "id" (str "rule-1") (
    field "user_id" (str "user-1") (
      field "tickers" (str "aapl, ,msft") (
        field "max_results" (int (pos 400)) (
          field "delivery_channel" (str "Webhook")
            (field "delivery_webhook_url" (str "https://hooks.example.com/a") no_fields)))))

abbrev pub rule : ScheduledAlertRule
rule = record {
  id = "rule-1";
  user_id = "user-1";
  name = "Alert rule";
  source_url = none;
  tickers = "AAPL" ∷ "MSFT" ∷ [];
  period = "1y";
  max_results = pos 50;
  max_alerts = pos 12;
  volatility_threshold = threshold_default;
  delivery_channel = "webhook";
  delivery_webhook_url = some "https://hooks.example.com/a";
  delivery_min_severity = "any";
  metadata = no_fields;
  last_run_date = none;
}

rule_result : scheduled_rule_from_row python (λ s. none) row ≡ some rule
unfolding scheduled_rule_from_row rule_of bounded_int bounded_float float_or_bool normalize_tickers
    split_tickers string_or_none delivery_channel delivery_min_severity parse_date get str_of strip
    upper lower split
rule_result = refl

scheduled_rule_from_row-IsSane_example : IsSane rule
scheduled_rule_from_row-IsSane_example =
    scheduled_rule_from_row-IsSane python (λ s. none) row rule rule_result

abbrev pub network : Network
network = record {
  urlparse = λ url. some record {
    scheme = "https";
    has_user = false;
    has_password = false;
    hostname = some "hooks.example.com";
  };
  ip_address = λ host. none;
  post = λ url body. ok 204;
  isoformat = λ day. "2026-01-02";
}

abbrev payload : Fields
payload = field "meta" (obj (field "alert_count" (int (pos 2)) no_fields)) no_fields

abbrev services : Services
services = record {
  network = network;
  build = λ r. ok payload;
  store = λ log effect. ok (some "run-1");
}

run_scheduled_alert_rules-IsBatch_example :
    IsBatch
      (take 25 (list_due_rules (rule ∷ []) 20455 false))
      []
      (run_scheduled_alert_rules services (rule ∷ []) 20455 false 25)
run_scheduled_alert_rules-IsBatch_example =
    run_scheduled_alert_rules-IsBatch services (rule ∷ []) 20455 false 25
