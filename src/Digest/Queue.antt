-- ===== src/Digest/Queue.antt =====
-- The alert queue of app/alerts.py: all alerts of the rows, sorted and cut, and the digest of what is
-- shown: `build_alert_digest` and `digest_payload`.
use underlying_analyzer_rebo.Base.{
  ℕ, zero, suc, ◌-◌, String, Bool, false, ◌&&◌, ◌||◌, Option, none, some, List, [], ◌∷◌, ◌++◌, ◌==◌,
  if◌then◌else◌, length, take, nat_eq,
}
use underlying_analyzer_rebo.Base.Text.{join, show_nat, ◌⧺◌}
use underlying_analyzer_rebo.Base.Int.{ℤ, pos, negsuc, truncate}
use underlying_analyzer_rebo.Value.{Value, int, str, arr, obj, Fields, no_fields, field}
use underlying_analyzer_rebo.Value.Access.{get, get_value, put, as_dict, truthy, texts}
use underlying_analyzer_rebo.Value.Show.{Python, str_of}
use underlying_analyzer_rebo.Alerts.Rules.{shown_or, one_quanta}
use underlying_analyzer_rebo.Digest.Rows.{Format, float_value, row_alerts}
use underlying_analyzer_rebo.Digest.Order.{SortKey, key_leb}

abbrev pub severity_order : String → ℕ
severity_order severity =
    if severity == "High"
    then 3
    else if severity == "Medium"
    then 2
    else if severity == "Info"
    then 1
    else 0

abbrev pub key_with : ℕ → Option ℤ → Option ℤ → String → Option SortKey
key_with severity (some score) (some rank) id =
    some record { severity = severity; score = score; rank = truncate rank one_quanta; id = id }
key_with severity _ _ id = none

unfoldable pub alert_sort_key : Python → Fields → Option SortKey
unfolding float_value str_of
alert_sort_key py alert =
    key_with (severity_order (str_of py (get_value "severity" alert)))
      (float_value py (get_value "score" alert)) (float_value py (get_value "rank" alert))
      (shown_or py (get_value "id" alert) "")

abbrev pub KeyedAlert : Type 0
KeyedAlert = SortKey × Fields

abbrev pub entry_then :
    Option SortKey → Fields → Option (List KeyedAlert) → Option (List KeyedAlert)
entry_then (some key) alert (some rest) = some ((key, alert) ∷ rest)
entry_then _ alert _ = none

-- The keys that `sort` computes first.
unfoldable pub keyed : Python → List Fields → Option (List KeyedAlert)
unfolding alert_sort_key
keyed py [] = some []
keyed py (alert ∷ alerts) = entry_then (alert_sort_key py alert) alert (keyed py alerts)

-- The stable sort: an entry goes before the first one that its key does not exceed.
unfoldable pub insert_entry : KeyedAlert → List KeyedAlert → List KeyedAlert
unfolding key_leb
insert_entry x [] = x ∷ []
insert_entry x (y ∷ ys) =
    let rest = insert_entry x ys in if key_leb x.0 y.0 then x ∷ y ∷ ys else y ∷ rest

unfoldable pub sort_entries : List KeyedAlert → List KeyedAlert
unfolding insert_entry
sort_entries [] = []
sort_entries (x ∷ xs) = insert_entry x (sort_entries xs)

-- `alerts[:n]`; a negative end counts from the back.
abbrev pub slice_to {ℓ} : {A : Type ℓ} → ℤ → List A → List A
slice_to (pos n) xs = take n xs
slice_to (negsuc n) xs = take (length xs - suc n) xs

abbrev pub append_if : Option (List Fields) → Option (List Fields) → Option (List Fields)
append_if (some alerts) (some rest) = some (alerts ++ rest)
append_if _ _ = none

unfoldable pub all_alerts : Format → ℤ → List Fields → Option (List Fields)
unfolding row_alerts
all_alerts format threshold [] = some []
all_alerts format threshold (row ∷ rows) =
    append_if (row_alerts format row threshold) (all_alerts format threshold rows)

-- `Counter(texts)`, as a dict.
abbrev pub count_at : Value → ℤ
count_at (int n) = n
count_at _ = pos 0

abbrev pub one_more : ℤ → ℤ
one_more (pos n) = pos (suc n)
one_more (negsuc zero) = pos 0
one_more (negsuc (suc n)) = negsuc n

unfoldable pub counter_from : Fields → List String → Fields
counter_from counts [] = counts
counter_from counts (text ∷ rest) =
    counter_from (put text (int (one_more (count_at (get_value text counts)))) counts) rest

abbrev pub counter : List String → Fields
counter = counter_from no_fields

-- `str(alert[key])`; `none` is `KeyError`.
abbrev text_then : Python → Option Value → Option (List String) → Option (List String)
text_then py (some v) (some rest) = some (str_of py v ∷ rest)
text_then py _ _ = none

unfoldable pub column : Python → String → List Fields → Option (List String)
unfolding str_of
column py key [] = some []
column py key (alert ∷ alerts) = text_then py (get key alert) (column py key alerts)

module _ (py : Python) where
  unfoldable pub lanes : List Fields → List String
  unfolding str_of
  lanes [] = []
  lanes (row ∷ rows) = shown_or py (get_value "lane" row) "Review" ∷ lanes rows

  unfoldable pub tickers_for_lane : String → List Fields → List String
  unfolding str_of
  tickers_for_lane lane [] = []
  tickers_for_lane lane (row ∷ rows) =
      let rest = tickers_for_lane lane rows in
      if truthy (get_value "ticker" row) && shown_or py (get_value "lane" row) "" == lane
      then str_of py (get_value "ticker" row) ∷ rest
      else rest

  unfoldable pub flow_shift_names : List Fields → List String
  unfolding str_of
  flow_shift_names [] = []
  flow_shift_names (row ∷ rows) =
      let rest = flow_shift_names rows in
      let flow = as_dict (get_value "flow" row) in
      if truthy (get_value "fresh_long" flow) || truthy (get_value "fresh_short" flow)
      then str_of py (get_value "ticker" row) ∷ rest
      else rest

abbrev is_high : Value → Bool
is_high (str severity) = severity == "High"
is_high _ = false

-- The alerts whose `severity` is the text `High`.
unfoldable pub high_count : List Fields → ℕ
high_count [] = 0
high_count (alert ∷ alerts) =
    let rest = high_count alerts in if is_high (get_value "severity" alert) then suc rest else rest

abbrev noun : ℕ → String
noun n = if nat_eq n 1 then "alert" else "alerts"

abbrev headline_of : ℕ → ℕ → ℕ → String
headline_of zero zero rows = "No high-signal alerts across " ⧺ show_nat rows ⧺ " names"
headline_of zero (suc n) rows =
    show_nat (suc n) ⧺ " watchlist " ⧺ noun (suc n) ⧺ " across " ⧺ show_nat rows ⧺ " names"
headline_of (suc high) n rows =
    show_nat (suc high)
    ⧺ " high-priority "
    ⧺ noun (suc high)
    ⧺ " across "
    ⧺ show_nat rows
    ⧺ " names"

unfoldable pub digest_headline : List Fields → ℕ → String
unfolding high_count show_nat
digest_headline alerts rows = headline_of (high_count alerts) (length alerts) rows

abbrev named_part : String → List String → List String
named_part label [] = []
named_part label (ticker ∷ tickers) = (label ⧺ ": " ⧺ join ", " (take 5 (ticker ∷ tickers))) ∷ []

abbrev or_text : String → List String → String
or_text default [] = default
or_text default (part ∷ parts) = join " | " (part ∷ parts)

unfoldable pub digest_summary : List String → List String → List String → String
unfolding join
digest_summary priority risk flow_shift = or_text "No names crossed the alert rules in this run." (
    named_part "Priority" priority ++ named_part "Risk" risk ++ named_part "Flow shifts" flow_shift)

abbrev step_for {ℓ} : {A : Type ℓ} → List A → String → List String
step_for [] step = []
step_for (x ∷ xs) step = step ∷ []

abbrev or_step : String → List String → List String
or_step default [] = default ∷ []
or_step default (step ∷ steps) = step ∷ steps

unfoldable pub next_steps : List Fields → List String → List String → List String
next_steps alerts priority risk =
    or_step "Keep the current list on watch; no immediate action fired." (
      step_for risk "Review risk alerts before adding exposure."
      ++ step_for priority "Open priority setups in Cockpit for confirmation."
      ++ step_for alerts "Export or save the digest with the research library.")

-- `generated_at` is the text of the clock. `none` is the `KeyError` of an alert that has no severity
-- or category.
abbrev pub digest_of :
    Python
    → String
    → List Fields
    → List Fields
    → Option (List String)
    → Option (List String)
    → Option Fields
digest_of py generated_at rows alerts (some severities) (some categories) =
    let priority = tickers_for_lane py "Priority" rows in
    let risk = tickers_for_lane py "Risk" rows in
    let flow_shift = flow_shift_names py rows in
    some (
      field "generated_at" (str generated_at) (
        field "headline" (str (digest_headline alerts (length rows))) (
          field "summary" (str (digest_summary priority risk flow_shift)) (
            field "severity_counts" (obj (counter severities)) (
              field "category_counts" (obj (counter categories)) (
                field "lane_counts" (obj (counter (lanes py rows))) (
                  field "priority_tickers" (arr (texts priority)) (
                    field "risk_tickers" (arr (texts risk)) (
                      field "flow_shift_tickers" (arr (texts flow_shift)) (
                        field "next_steps" (arr (texts (next_steps alerts priority risk)))
                          no_fields))))))))))
digest_of py generated_at rows alerts _ _ = none

unfoldable pub digest_payload : Python → String → List Fields → List Fields → Option Fields
unfolding column lanes tickers_for_lane flow_shift_names digest_headline digest_summary next_steps
    counter_from
digest_payload py generated_at rows alerts =
    digest_of py generated_at rows alerts (column py "severity" alerts)
      (column py "category" alerts)
