-- ===== src/Digest/Labels.antt =====
-- Every alert that app/alerts.py makes has a severity and a category, and keeps them until the digest is
-- made, which reads them.
use underlying_analyzer_rebo.Base.{
  ℕ, zero, suc, ◌-◌, ◌≡◌, refl, inl, inr, String, Bool, true, Option, none, some, List, [], ◌∷◌,
  arith, All, All-append, length, take, keep_if, Bool-cases, Option-cases,
}
use underlying_analyzer_rebo.Base.Text.{blank}
use underlying_analyzer_rebo.Base.Int.{ℤ, pos, negsuc}
use underlying_analyzer_rebo.Value.{Value, obj, Fields}
use underlying_analyzer_rebo.Value.Access.{get, get_value, has_key, put, as_dict, get-put}
use underlying_analyzer_rebo.Value.Show.{Python, str_of}
use underlying_analyzer_rebo.Materiality.Levels.{
  filter_alerts_by_materiality, known_name, above, reaches, known_level,
}
use underlying_analyzer_rebo.Materiality.Laws.{AreAnnotated}
use underlying_analyzer_rebo.Digest.Rows.{
  Format, RowFacts, alert_payload, ridge_alert, auction_alert, lane_alerts, flow_alerts,
  ridge_alerts, auction_alerts, volatility_alerts, alerts_of, alerts_if, row_alerts, row_facts,
}
use underlying_analyzer_rebo.Digest.Queue.{append_if, all_alerts, slice_to, column}
use underlying_analyzer_rebo.Digest.Build.{floored}

-- An alert has a severity and a category.
abbrev pub HasLabels : Fields → Type 0
HasLabels alert = (has_key "severity" alert ≡ true) × (has_key "category" alert ≡ true)

module _ (format : Format) (facts : RowFacts) where
  lane_alerts-HasLabels : (row : Fields) → All HasLabels (lane_alerts format facts row)
  unfolding lane_alerts alert_payload get
  lane_alerts-HasLabels row = ground arith

  flow_alerts-HasLabels : (flow : Fields) → All HasLabels (flow_alerts format facts flow)
  unfolding flow_alerts alert_payload get
  flow_alerts-HasLabels flow = ground arith

  ridge_alerts-HasLabels : (ridge : Fields) → All HasLabels (ridge_alerts format facts ridge)
  unfolding ridge_alerts ridge_alert alert_payload get
  ridge_alerts-HasLabels ridge = ground arith

  auction_alerts-HasLabels :
      (auction : Fields) → All HasLabels (auction_alerts format facts auction)
  unfolding auction_alerts auction_alert alert_payload get
  auction_alerts-HasLabels auction = ground arith

  volatility_alerts-HasLabels :
      (threshold : ℤ) → All HasLabels (volatility_alerts format facts threshold)
  unfolding volatility_alerts alert_payload get
  volatility_alerts-HasLabels threshold = ground arith

  alerts_of-HasLabels :
      (row : Fields) (threshold : ℤ) → All HasLabels (alerts_of format facts row threshold)
  unfolding alerts_of
  alerts_of-HasLabels row threshold =
      let flow = as_dict (get_value "flow" row) in
      let ridge = as_dict (get_value "ridge" row) in
      let auction = as_dict (get_value "auction" row) in
      All-append HasLabels (lane_alerts format facts row) _ (lane_alerts-HasLabels row) (
        All-append HasLabels (flow_alerts format facts flow) _ (flow_alerts-HasLabels flow) (
          All-append HasLabels (ridge_alerts format facts ridge) _ (ridge_alerts-HasLabels ridge) (
            All-append HasLabels (auction_alerts format facts auction)
              (volatility_alerts format facts threshold) (auction_alerts-HasLabels auction)
              (volatility_alerts-HasLabels threshold))))

-- A list of labelled alerts, if there is one.
abbrev LabelledIfAny : Option (List Fields) → Type 0
LabelledIfAny none = Unit
LabelledIfAny (some alerts) = All HasLabels alerts

append_if-HasLabels :
    (alerts rest : Option (List Fields))
    → LabelledIfAny alerts
    → LabelledIfAny rest
    → LabelledIfAny (append_if alerts rest)
append_if-HasLabels (some alerts) (some rest) h k = All-append HasLabels alerts rest h k
append_if-HasLabels (some alerts) none h k = tt
append_if-HasLabels none rest h k = tt

alerts_if-HasLabels :
    (format : Format) (row : Fields) (threshold : ℤ) (o : Option RowFacts)
    → LabelledIfAny (alerts_if format row threshold o)
alerts_if-HasLabels format row threshold none = tt
alerts_if-HasLabels format row threshold (some facts) =
    alerts_of-HasLabels format facts row threshold

pub all_alerts-HasLabels :
    (format : Format) (threshold : ℤ) (rows : List Fields)
    → LabelledIfAny (all_alerts format threshold rows)
unfolding all_alerts row_alerts
all_alerts-HasLabels format threshold [] = tt
all_alerts-HasLabels format threshold (row ∷ rows) =
    append_if-HasLabels (row_alerts format row threshold) (all_alerts format threshold rows)
      (alerts_if-HasLabels format row threshold (row_facts format.py row))
      (all_alerts-HasLabels format threshold rows)

-- Labels are kept by a cut, a score and the filter.
take-All {ℓ κ} : {A : Type ℓ} (P : A → Type κ) (n : ℕ) (xs : List A) → All P xs → All P (take n xs)
take-All P zero xs h = tt
take-All P (suc n) [] h = tt
take-All P (suc n) (x ∷ xs) (h, hs) = (h, take-All P n xs hs)

pub slice_to-All {ℓ κ} :
    {A : Type ℓ} (P : A → Type κ) (n : ℤ) (xs : List A) → All P xs → All P (slice_to n xs)
slice_to-All P (pos n) xs h = take-All P n xs h
slice_to-All P (negsuc n) xs h = take-All P (length xs - suc n) xs h

has_key-put :
    (key j : String) (v : Value) (fs : Fields)
    → has_key j fs ≡ true
    → has_key j (put key v fs) ≡ true
has_key-put key j v fs h = rw (get-put key j v fs) (ground (arith, h))

pub AreAnnotated-HasLabels :
    (alerts outs : List Fields)
    → AreAnnotated alerts outs
    → All HasLabels alerts
    → All HasLabels outs
AreAnnotated-HasLabels [] [] h k = tt
AreAnnotated-HasLabels [] (out ∷ outs) h k = elim h [ ]
AreAnnotated-HasLabels (alert ∷ alerts) [] h k = elim h [ ]
AreAnnotated-HasLabels (alert ∷ alerts) (out ∷ outs) (inl same, h) (k, ks) =
    (rw same k, AreAnnotated-HasLabels alerts outs h ks)
AreAnnotated-HasLabels (alert ∷ alerts) (out ∷ outs) (inr (materiality, same, level), h) (k, ks) =
    let new = obj materiality in
    (
      rw same (
        has_key-put "jev_materiality" "severity" new alert k.0,
        has_key-put "jev_materiality" "category" new alert k.1,
      ),
      AreAnnotated-HasLabels alerts outs h ks,
    )

pub keep_if-All {ℓ κ} :
    {A : Type ℓ} (P : A → Type κ) (p : A → Bool) (xs : List A) → All P xs → All P (keep_if p xs)
keep_if-All P p [] h = tt
keep_if-All P p (x ∷ xs) (h, hs) = elim (Bool-cases (p x)) [
  | inl kept ↦ rw kept (h, keep_if-All P p xs hs)
  | inr dropped ↦ rw dropped (keep_if-All P p xs hs)
]

above-HasLabels :
    (floor : Option ℕ) (alerts : List Fields)
    → All HasLabels alerts
    → All HasLabels (above floor alerts)
above-HasLabels none alerts h = h
above-HasLabels (some floor) alerts h =
    keep_if-All HasLabels (λ alert. reaches floor (known_level alert)) alerts h

pub floored-HasLabels :
    (level : Option String) (alerts : List Fields)
    → All HasLabels alerts
    → All HasLabels (floored level alerts)
unfolding filter_alerts_by_materiality
floored-HasLabels none alerts h = h
floored-HasLabels (some level) alerts h = elim (Bool-cases (blank level)) [
  | inl empty ↦ rw empty h
  | inr named ↦ rw named (above-HasLabels (known_name level) alerts h)
]

pub column-some :
    (py : Python) (key : String) (alerts : List Fields)
    → All (λ alert. has_key key alert ≡ true) alerts
    → (ts : List String) × (column py key alerts ≡ some ts)
unfolding column
column-some py key [] h = ([], refl)
column-some py key (alert ∷ alerts) (h, hs) =
    let (ts, others) = column-some py key alerts hs in
    elim (Option-cases (get key alert)) [
      | inl absent ↦ absurd (ground (arith, absent, h))
      | inr (v, there) ↦ (str_of py v ∷ ts, rw (there, others))
    ]
