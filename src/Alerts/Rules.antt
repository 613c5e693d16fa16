-- ===== src/Alerts/Rules.antt =====
-- A rule of app/alert_scheduler.py, as it is read from a row of the store.
use underlying_analyzer_rebo.Base.{
  ℕ, ◌*◌, ◌^◌, String, true, false, ◌||◌, Option, none, some, List, [], ◌∷◌, ◌==◌, if◌then◌else◌,
}
use underlying_analyzer_rebo.Base.Text.{strip, upper, lower, blank, split, take_text}
use underlying_analyzer_rebo.Base.Int.{ℤ, pos, leb_ℤ}
use underlying_analyzer_rebo.Value.{
  Value, null, bool, int, float, str, arr, Items, no_items, item, Fields, no_fields, field,
}
use underlying_analyzer_rebo.Value.Access.{get, get_value, or_else, as_dict, truthy, texts}
use underlying_analyzer_rebo.Value.Show.{Python, str_of}
use underlying_analyzer_rebo.Registry.Coerce.{int_of}

-- A date is the number of its day; `volatility_threshold` is a number of float quanta.
pub record ScheduledAlertRule : Type 0 where
  pub id : String
  pub user_id : String
  pub name : String
  pub source_url : Option String
  pub tickers : List String
  pub period : String
  pub max_results : ℤ
  pub max_alerts : ℤ
  pub volatility_threshold : ℤ
  pub delivery_channel : String
  pub delivery_webhook_url : Option String
  pub delivery_min_severity : String
  pub metadata : Fields
  pub last_run_date : Option ℕ

abbrev pub min_ℤ : ℤ → ℤ → ℤ
min_ℤ a b = if leb_ℤ a b then a else b

abbrev pub max_ℤ : ℤ → ℤ → ℤ
max_ℤ a b = if leb_ℤ b a then a else b

abbrev pub clamp : ℤ → ℤ → ℤ → ℤ
clamp minimum maximum number = max_ℤ minimum (min_ℤ number maximum)

abbrev pub or_default : Option ℤ → ℤ → ℤ
or_default none default = default
or_default (some n) default = n

-- `int(v)`, with the bools that count as integers.
abbrev pub int_or_bool : Value → Option ℤ
int_or_bool (bool true) = some (pos 1)
int_or_bool (bool false) = some (pos 0)
int_or_bool v = int_of v

unfoldable pub bounded_int : Value → ℤ → ℤ → ℤ → ℤ
unfolding int_of
bounded_int v default minimum maximum = clamp minimum maximum (or_default (int_or_bool v) default)

-- The quanta of 1.0, of 0.55 and of 2.0.
abbrev pub one_quanta : ℕ
one_quanta = 2 ^ 1074

abbrev pub threshold_default : ℤ
threshold_default = pos (4953959590107546 * 2 ^ 1021)

abbrev pub threshold_most : ℤ
threshold_most = pos (2 * one_quanta)

abbrev shown_upper : Python → Value → String
shown_upper py v = upper (strip (str_of py v))

abbrev first_ticker : List String → String
first_ticker [] = "AAPL"
first_ticker (ticker ∷ rest) = ticker

abbrev optional_value : Option String → Value
optional_value none = null
optional_value (some s) = str s

unfoldable pub alert_payload_from_rule : ScheduledAlertRule → Fields
alert_payload_from_rule rule = field "ticker" (str (first_ticker rule.tickers)) (
    field "tickers" (arr (texts rule.tickers)) (
      field "watchlist_url" (optional_value rule.source_url) (
        field "max_results" (int rule.max_results) (
          field "period" (str rule.period) (
            field "max_alerts" (int rule.max_alerts)
              (field "volatility_threshold" (float rule.volatility_threshold) no_fields))))))

module _ (py : Python) where
  -- `float(v)`: the outer `none` is `OverflowError`, the inner one an error that is caught.
  unfoldable pub float_or_bool : Value → Option (Option ℤ)
  float_or_bool (int n) = elim (py.float_of_int n) [ none ↦ none | some q ↦ some (some q) ]
  float_or_bool (float q) = some (some q)
  float_or_bool (str s) = some (py.float_of_text s)
  float_or_bool (bool true) = some (some (pos one_quanta))
  float_or_bool (bool false) = some (some (pos 0))
  float_or_bool v = some none

  unfoldable pub bounded_float : Value → ℤ → ℤ → ℤ → Option ℤ
  unfolding float_or_bool
  bounded_float v default minimum maximum = elim (float_or_bool v) [
    | none ↦ none
    | some read ↦ some (clamp minimum maximum (or_default read default))
  ]

  unfoldable pub listed_tickers : Items → List String
  unfolding str_of
  listed_tickers no_items = []
  listed_tickers (item v vs) =
      let rest = listed_tickers vs in
      if blank (strip (str_of py v)) then rest else shown_upper py v ∷ rest

  unfoldable pub split_tickers : List String → List String
  split_tickers [] = []
  split_tickers (part ∷ parts) =
      let rest = split_tickers parts in
      if blank (strip part) then rest else upper (strip part) ∷ rest

  unfoldable pub normalize_tickers : Value → List String
  unfolding listed_tickers split_tickers
  normalize_tickers (arr vs) = listed_tickers vs
  normalize_tickers (str s) = split_tickers (split b',' s)
  normalize_tickers _ = []

  -- `str(value or default)`
  abbrev pub shown_or : Value → String → String
  shown_or v default = str_of py (or_else v (str default))

  unfoldable pub string_or_none : Value → Option String
  string_or_none v = let shown = strip (shown_or v "") in if blank shown then none else some shown

  unfoldable pub delivery_channel : Value → String
  delivery_channel v =
      let channel = lower (strip (shown_or v "none")) in
      if (channel == "none") || (channel == "webhook") then channel else "none"

  unfoldable pub delivery_min_severity : Value → String
  delivery_min_severity v =
      let severity = lower (strip (shown_or v "any")) in
      if (severity == "any") || (severity == "high") then severity else "any"

  -- `date.fromisoformat` of ten characters is a parameter.
  unfoldable pub parse_date : (String → Option ℕ) → Value → Option ℕ
  unfolding str_of
  parse_date read v = if truthy v then read (take_text 10 (str_of py v)) else none

  unfoldable pub rule_of : (String → Option ℕ) → Fields → Value → Value → ℤ → ScheduledAlertRule
  unfolding bounded_int normalize_tickers string_or_none delivery_channel delivery_min_severity
      parse_date
  rule_of read row id user_id threshold = record {
    id = str_of py id;
    user_id = str_of py user_id;
    name = shown_or (get_value "name" row) "Alert rule";
    source_url = string_or_none (get_value "source_url" row);
    tickers = normalize_tickers (get_value "tickers" row);
    period = shown_or (get_value "period" row) "1y";
    max_results = bounded_int (get_value "max_results" row) (pos 10) (pos 1) (pos 50);
    max_alerts = bounded_int (get_value "max_alerts" row) (pos 12) (pos 1) (pos 50);
    volatility_threshold = threshold;
    delivery_channel = delivery_channel (get_value "delivery_channel" row);
    delivery_webhook_url = string_or_none (get_value "delivery_webhook_url" row);
    delivery_min_severity = delivery_min_severity (get_value "delivery_min_severity" row);
    metadata = as_dict (get_value "metadata" row);
    last_run_date = parse_date read (get_value "last_run_date" row);
  }

  -- `none` is a `KeyError` or an `OverflowError`.
  unfoldable pub scheduled_rule_from_row : (String → Option ℕ) → Fields → Option ScheduledAlertRule
  unfolding rule_of bounded_float
  scheduled_rule_from_row read row = elim (get "id" row) [
    | none ↦ none
    | some id ↦ elim (get "user_id" row) [
      | none ↦ none
      | some user_id ↦
          elim (bounded_float (get_value "volatility_threshold" row) threshold_default (pos 0)
            threshold_most) [
              | none ↦ none
              | some threshold ↦ some (rule_of read row id user_id threshold)
            ]
    ]
  ]
