-- ===== src/Digest/Rows.antt =====
-- The alerts of one row of app/alerts.py: `row_alerts` with the helpers it calls. `none` is the
-- `OverflowError` of a number that is too large for a float.
use underlying_analyzer_rebo.Base.{
  String, Bool, true, false, ◌||◌, Option, none, some, List, [], ◌∷◌, ◌++◌, ◌==◌, if◌then◌else◌,
}
use underlying_analyzer_rebo.Base.Text.{lower, upper, ◌⧺◌}
use underlying_analyzer_rebo.Base.Int.{ℤ, pos, leb_ℤ, show_int, truncate}
use underlying_analyzer_rebo.Value.{Value, bool, int, float, str, Fields, no_fields, field}
use underlying_analyzer_rebo.Value.Access.{get_value, as_dict, truthy}
use underlying_analyzer_rebo.Value.Show.{Python, str_of}
use underlying_analyzer_rebo.Alerts.Rules.{shown_or, one_quanta}

-- What the alerts take from Python besides: `f"{q:.1f}"`, and the same of `q * 100`.
pub record Format : Type 0 where
  pub py : Python
  pub one_decimal : ℤ → String
  pub hundredfold : ℤ → String

-- `float_value` of app/cockpit.py; a bool is an integer.
unfoldable pub float_value : Python → Value → Option ℤ
float_value py (int n) = py.float_of_int n
float_value py (float q) = some q
float_value py (bool true) = some (pos one_quanta)
float_value py (bool false) = some (pos 0)
float_value py v = some (pos 0)

-- What `row_alerts` and `alert_payload` read of a row.
pub record RowFacts : Type 0 where
  pub ticker : String
  pub lane : String
  pub score : ℤ
  pub rank : ℤ
  pub volatility : ℤ

abbrev pub with_numbers : String → String → Option ℤ → Option ℤ → Option ℤ → Option RowFacts
with_numbers ticker lane (some score) (some rank) (some volatility) = some record {
  ticker = ticker;
  lane = lane;
  score = score;
  rank = truncate rank one_quanta;
  volatility = volatility;
}
with_numbers ticker lane _ _ _ = none

unfoldable pub row_facts : Python → Fields → Option RowFacts
unfolding float_value str_of
row_facts py row =
    with_numbers (shown_or py (get_value "ticker" row) "UNKNOWN")
      (shown_or py (get_value "lane" row) "Review") (float_value py (get_value "score" row))
      (float_value py (get_value "rank" row)) (float_value py (get_value "annual_volatility" row))

-- The fixed texts of an alert.
pub record Wording : Type 0 where
  pub kind : String
  pub severity : String
  pub category : String
  pub title : String
  pub action : String

unfoldable pub alert_payload : RowFacts → Wording → String → Fields
unfolding lower
alert_payload facts wording message = field "id" (str (lower facts.ticker ⧺ "-" ⧺ wording.kind)) (
    field "ticker" (str facts.ticker) (
      field "rank" (int facts.rank) (
        field "lane" (str facts.lane) (
          field "score" (float facts.score) (
            field "severity" (str wording.severity) (
              field "category" (str wording.category) (
                field "title" (str wording.title) (
                  field "message" (str message)
                    (field "action" (str wording.action) no_fields)))))))))

abbrev words : String → String → String → String → String → Wording
words kind severity category title action = record {
  kind = kind;
  severity = severity;
  category = category;
  title = title;
  action = action;
}

abbrev pub when {ℓ} : {A : Type ℓ} → Bool → A → List A
when true a = a ∷ []
when false a = []

unfoldable pub ridge_alert : RowFacts → String → Fields
unfolding alert_payload
ridge_alert facts recommendation =
    if recommendation == "SELL"
    then alert_payload facts
        (words "ridge-sell" "High" "Ridge" "Ridge sell"
          "Review exits or avoid fresh long exposure.")
        (facts.ticker ⧺ " has a Ridge SELL recommendation.")
    else if recommendation == "BUY"
    then alert_payload facts
        (words "ridge-buy" "High" "Ridge" "Ridge buy"
          "Confirm flow, auction location, and current price before entry.")
        (facts.ticker ⧺ " has a Ridge BUY recommendation.")
    else alert_payload facts
        (words "ridge-buy-setup" "Medium" "Ridge" "Ridge buy setup"
          "Watch for confirmation instead of forcing the entry.")
        (facts.ticker ⧺ " has a Ridge BUY SETUP recommendation.")

unfoldable pub auction_alert : RowFacts → String → Fields
unfolding alert_payload
auction_alert facts location =
    if location == "above value"
    then alert_payload facts
        (words "auction-above-value" "Medium" "Auction" "Above value"
          "Look for continuation only if flow remains supportive.")
        (facts.ticker ⧺ " is accepting above auction value.")
    else alert_payload facts
        (words "auction-below-value" "Medium" "Auction" "Below value"
          "Require reclaim evidence before treating weakness as opportunity.")
        (facts.ticker ⧺ " is trading below auction value.")

module _ (format : Format) where
  unfoldable pub lane_alerts : RowFacts → Fields → List Fields
  unfolding alert_payload show_int str_of
  lane_alerts facts row =
      when (facts.lane == "Priority") (
        alert_payload facts
          (words "priority-setup" "High" "Setup" "Priority setup"
            "Review Ridge and Flow confirmation before sizing.")
          (facts.ticker
            ⧺ " is ranked #"
            ⧺ show_int facts.rank
            ⧺ " with a "
            ⧺ format.one_decimal facts.score
            ⧺ " cockpit score and "
            ⧺ shown_or format.py (get_value "setup" row) "mixed setup"
            ⧺ "."))
      ++ when (facts.lane == "Risk") (
          alert_payload facts
            (words "risk-lane" "High" "Risk" "Risk lane"
              "Check open exposure and wait for the state to improve.")
            (facts.ticker
              ⧺ " is in the Risk lane with a "
              ⧺ format.one_decimal facts.score
              ⧺ " cockpit score."))

  unfoldable pub flow_alerts : RowFacts → Fields → List Fields
  unfolding alert_payload
  flow_alerts facts flow =
      if truthy (get_value "fresh_short" flow)
      then alert_payload facts
          (words "fresh-short-flow" "High" "Flow" "Fresh short flow"
            "Treat long ideas as impaired until flow stabilizes.")
          (facts.ticker ⧺ " printed a fresh short Flow Compass shift.")
        ∷ []
      else when (truthy (get_value "fresh_long" flow)) (
          alert_payload facts
            (words "fresh-long-flow" "Medium" "Flow" "Fresh long flow"
              "Compare entry quality against auction value and Ridge state.")
            (facts.ticker ⧺ " printed a fresh long Flow Compass shift."))

  unfoldable pub ridge_alerts : RowFacts → Fields → List Fields
  unfolding ridge_alert upper str_of
  ridge_alerts facts ridge =
      let recommendation = upper (shown_or format.py (get_value "recommendation" ridge) "") in
      when (recommendation == "BUY" || recommendation == "BUY SETUP" || recommendation == "SELL")
        (ridge_alert facts recommendation)

  unfoldable pub auction_alerts : RowFacts → Fields → List Fields
  unfolding auction_alert lower str_of
  auction_alerts facts auction =
      let location = lower (shown_or format.py (get_value "location" auction) "") in
      when (location == "above value" || location == "below value") (auction_alert facts location)

  unfoldable pub volatility_alerts : RowFacts → ℤ → List Fields
  unfolding alert_payload
  volatility_alerts facts threshold = when (leb_ℤ threshold facts.volatility) (
      alert_payload facts
        (words "high-volatility" "Medium" "Volatility" "High volatility"
          "Size risk with wider expected range in mind.")
        (facts.ticker
          ⧺ " is running at "
          ⧺ format.hundredfold facts.volatility
          ⧺ "% annualized volatility."))

  unfoldable pub alerts_of : RowFacts → Fields → ℤ → List Fields
  unfolding lane_alerts flow_alerts ridge_alerts auction_alerts volatility_alerts
  alerts_of facts row threshold =
      lane_alerts facts row
      ++ (flow_alerts facts (as_dict (get_value "flow" row))
          ++ (ridge_alerts facts (as_dict (get_value "ridge" row))
              ++ (auction_alerts facts (as_dict (get_value "auction" row))
                  ++ volatility_alerts facts threshold)))

  abbrev pub alerts_if : Fields → ℤ → Option RowFacts → Option (List Fields)
  alerts_if row threshold none = none
  alerts_if row threshold (some facts) = some (alerts_of facts row threshold)

  unfoldable pub row_alerts : Fields → ℤ → Option (List Fields)
  unfolding alerts_of row_facts
  row_alerts row threshold = alerts_if row threshold (row_facts format.py row)
