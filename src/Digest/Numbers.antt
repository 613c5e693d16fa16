-- ===== src/Digest/Numbers.antt =====
-- The numbers that app/alerts.py reads from a row as floats, and those of the alerts that it makes.
use underlying_analyzer_rebo.Base.{
  ◌≡◌, refl, ap, ◌∙◌, some, List, [], ◌∷◌, ◌++◌, arith, All, All-append,
}
use underlying_analyzer_rebo.Base.Int.{ℤ, truncate}
use underlying_analyzer_rebo.Value.{Value, int, float, Fields}
use underlying_analyzer_rebo.Value.Access.{get, get_value, as_dict}
use underlying_analyzer_rebo.Value.Show.{Python}
use underlying_analyzer_rebo.Alerts.Rules.{shown_or, one_quanta}
use underlying_analyzer_rebo.Digest.Rows.{
  Format, RowFacts, float_value, alert_payload, ridge_alert, auction_alert, lane_alerts,
  flow_alerts, ridge_alerts, auction_alerts, volatility_alerts, alerts_of, row_facts, row_alerts,
}
use underlying_analyzer_rebo.Digest.Queue.{all_alerts}

-- The value is no integer that is too large for a float.
abbrev pub Fits : Python → Value → Type 0
Fits py v = (q : ℤ) × (float_value py v ≡ some q)

-- The numbers of a row fit, and so does the rank when it is an integer again.
abbrev pub RowFits : Python → Fields → Type 0
RowFits py row =
    Fits py (get_value "score" row)
    × ((q : ℤ) × (float_value py (get_value "rank" row) ≡ some q)
        × Fits py (int (truncate q one_quanta)))
    × Fits py (get_value "annual_volatility" row)

-- The numbers by which an alert is sorted.
abbrev pub IsSortable : Python → Fields → Type 0
IsSortable py alert = Fits py (get_value "score" alert) × Fits py (get_value "rank" alert)

abbrev HasNumbers : RowFacts → Fields → Type 0
HasNumbers facts alert =
    (get_value "score" alert ≡ float facts.score) × (get_value "rank" alert ≡ int facts.rank)

module _ (format : Format) (facts : RowFacts) where
  lane_alerts-HasNumbers : (row : Fields) → All (HasNumbers facts) (lane_alerts format facts row)
  unfolding lane_alerts alert_payload get
  lane_alerts-HasNumbers row = ground arith

  flow_alerts-HasNumbers : (flow : Fields) → All (HasNumbers facts) (flow_alerts format facts flow)
  unfolding flow_alerts alert_payload get
  flow_alerts-HasNumbers flow = ground arith

  ridge_alerts-HasNumbers :
      (ridge : Fields) → All (HasNumbers facts) (ridge_alerts format facts ridge)
  unfolding ridge_alerts ridge_alert alert_payload get
  ridge_alerts-HasNumbers ridge = ground arith

  auction_alerts-HasNumbers :
      (auction : Fields) → All (HasNumbers facts) (auction_alerts format facts auction)
  unfolding auction_alerts auction_alert alert_payload get
  auction_alerts-HasNumbers auction = ground arith

  volatility_alerts-HasNumbers :
      (threshold : ℤ) → All (HasNumbers facts) (volatility_alerts format facts threshold)
  unfolding volatility_alerts alert_payload get
  volatility_alerts-HasNumbers threshold = ground arith

  alerts_of-HasNumbers :
      (row : Fields) (threshold : ℤ) → All (HasNumbers facts) (alerts_of format facts row threshold)
  unfolding alerts_of
  alerts_of-HasNumbers row threshold =
      let flow = as_dict (get_value "flow" row) in
      let ridge = as_dict (get_value "ridge" row) in
      let auction = as_dict (get_value "auction" row) in
      let P = HasNumbers facts in
      All-append P (lane_alerts format facts row) _ (lane_alerts-HasNumbers row) (
        All-append P (flow_alerts format facts flow) _ (flow_alerts-HasNumbers flow) (
          All-append P (ridge_alerts format facts ridge) _ (ridge_alerts-HasNumbers ridge) (
            All-append P (auction_alerts format facts auction)
              (volatility_alerts format facts threshold) (auction_alerts-HasNumbers auction)
              (volatility_alerts-HasNumbers threshold))))

  numbers-IsSortable :
      (alerts : List Fields)
      → Fits format.py (int facts.rank)
      → All (HasNumbers facts) alerts
      → All (IsSortable format.py) alerts
  unfolding float_value
  numbers-IsSortable [] fits h = tt
  numbers-IsSortable (alert ∷ alerts) (q, fits) ((score, rank), h) = (
    ((facts.score, ap (float_value format.py) score), (q, ap (float_value format.py) rank ∙ fits)),
    numbers-IsSortable alerts (q, fits) h,
  )

row_facts-some :
    (py : Python) (row : Fields)
    → RowFits py row
    → (facts : RowFacts) × (row_facts py row ≡ some facts) × Fits py (int facts.rank)
unfolding row_facts
row_facts-some py row ((score, scored), (rank, ranked, again), (volatility, measured)) =
    let facts : RowFacts = record {
      ticker = shown_or py (get_value "ticker" row) "UNKNOWN";
      lane = shown_or py (get_value "lane" row) "Review";
      score = score;
      rank = truncate rank one_quanta;
      volatility = volatility;
    } in
    (facts, rw (scored, ranked, measured), again)

-- Where the numbers of the rows fit, there are alerts, and their numbers fit.
pub all_alerts-some :
    (format : Format) (threshold : ℤ) (rows : List Fields)
    → All (RowFits format.py) rows
    → (all : List Fields) × (all_alerts format threshold rows ≡ some all)
      × All (IsSortable format.py) all
unfolding all_alerts row_alerts
all_alerts-some format threshold [] h = ([], refl, tt)
all_alerts-some format threshold (row ∷ rows) (fits, h) =
    let (facts, read, again) = row_facts-some format.py row fits in
    let (rest, others, sortable) = all_alerts-some format threshold rows h in
    let alerts = alerts_of format facts row threshold in
    (
      alerts ++ rest,
      rw (read, others),
      All-append (IsSortable format.py) alerts rest
          (numbers-IsSortable format facts alerts again
            (alerts_of-HasNumbers format facts row threshold))
          sortable,
    )
