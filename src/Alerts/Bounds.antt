-- ===== src/Alerts/Bounds.antt =====
-- What every rule that app/alert_scheduler.py reads from the store satisfies.
use underlying_analyzer_rebo.Base.{
  ℕ, String, ◌≡◌, refl, ◌⊎◌, inl, inr, true, false, ◌||◌, Option, some, List, [], ◌∷◌, ◌==◌,
  if◌then◌else◌, Bool-cases, Option-cases, arith, All, eq_iff, sym,
}
use underlying_analyzer_rebo.Base.Text.{strip, upper, lower, blank, split}
use underlying_analyzer_rebo.Base.Int.{ℤ, pos, leb_ℤ}
use underlying_analyzer_rebo.Value.{Value, str, arr, Items, no_items, item, Fields}
use underlying_analyzer_rebo.Value.Access.{get, get_value}
use underlying_analyzer_rebo.Value.Show.{Python, str_of}
use underlying_analyzer_rebo.Alerts.Rules.{
  ScheduledAlertRule, clamp, bounded_int, bounded_float, threshold_default, threshold_most,
  listed_tickers, split_tickers, normalize_tickers, delivery_channel, delivery_min_severity,
  rule_of, scheduled_rule_from_row, shown_or, float_or_bool, or_default, int_or_bool,
}

abbrev pub IsBetween : ℤ → ℤ → ℤ → Type 0
IsBetween low high n = (leb_ℤ low n ≡ true) × (leb_ℤ n high ≡ true)

-- The upper case of a text without the white space at its ends, of which something is left.
abbrev pub IsTicker : String → Type 0
IsTicker ticker = (part : String) × (ticker ≡ upper (strip part)) × (blank (strip part) ≡ false)

-- The counts and the threshold are in their ranges, the channel and the severity are known, and every
-- ticker is one.
pub record IsSane (rule : ScheduledAlertRule) : Type 0 where
  pub results : IsBetween (pos 1) (pos 50) rule.max_results
  pub alerts : IsBetween (pos 1) (pos 50) rule.max_alerts
  pub threshold : IsBetween (pos 0) threshold_most rule.volatility_threshold
  pub channel : (rule.delivery_channel ≡ "none") ⊎ (rule.delivery_channel ≡ "webhook")
  pub severity : (rule.delivery_min_severity ≡ "any") ⊎ (rule.delivery_min_severity ≡ "high")
  pub tickers : All IsTicker rule.tickers

leb_ℤ-refl : (a : ℤ) → leb_ℤ a a ≡ true
leb_ℤ-refl a = ground arith

leb_ℤ-other : (a b : ℤ) → leb_ℤ a b ≡ false → leb_ℤ b a ≡ true
leb_ℤ-other a b h = ground arith

pub clamp-IsBetween :
    (low high n : ℤ) → leb_ℤ low high ≡ true → IsBetween low high (clamp low high n)
clamp-IsBetween low high n ordered = elim (Bool-cases (leb_ℤ n high)) [
  | inl below ↦ elim (Bool-cases (leb_ℤ n low)) [
    | inl under ↦ rw (below, under) (leb_ℤ-refl low, ordered)
    | inr over ↦ rw (below, over) (leb_ℤ-other n low over, below)
  ]
  | inr above ↦ elim (Bool-cases (leb_ℤ high low)) [
    | inl under ↦ rw (above, under) (leb_ℤ-refl low, ordered)
    | inr over ↦ rw (above, over) (ordered, leb_ℤ-refl high)
  ]
]

pub bounded_int-IsBetween :
    (v : Value) (default low high : ℤ)
    → leb_ℤ low high ≡ true
    → IsBetween low high (bounded_int v default low high)
unfolding bounded_int
bounded_int-IsBetween v default low high ordered =
    clamp-IsBetween low high (or_default (int_or_bool v) default) ordered

-- One of two texts, and the first of them in place of any other.
one_of_two :
    (s a b : String)
    → ((if (s == a) || (s == b) then s else a) ≡ a) ⊎ ((if (s == a) || (s == b) then s else a) ≡ b)
one_of_two s a b = elim (Bool-cases (s == a)) [
  | inl first ↦ inl (ground (arith, eq_iff s a))
  | inr other ↦ elim (Bool-cases (s == b)) [
    | inl second ↦ inr (ground (arith, eq_iff s b))
    | inr neither ↦ inl (ground arith)
  ]
]

module _ (py : Python) where
  delivery_channel-known :
      (v : Value) → (delivery_channel py v ≡ "none") ⊎ (delivery_channel py v ≡ "webhook")
  unfolding delivery_channel
  delivery_channel-known v = one_of_two (lower (strip (shown_or py v "none"))) "none" "webhook"

  delivery_min_severity-known :
      (v : Value) → (delivery_min_severity py v ≡ "any") ⊎ (delivery_min_severity py v ≡ "high")
  unfolding delivery_min_severity
  delivery_min_severity-known v = one_of_two (lower (strip (shown_or py v "any"))) "any" "high"

  bounded_float-IsBetween :
      (v : Value) (default low high q : ℤ)
      → leb_ℤ low high ≡ true
      → bounded_float py v default low high ≡ some q
      → IsBetween low high q
  unfolding bounded_float
  bounded_float-IsBetween v default low high q ordered h =
      elim (Option-cases (float_or_bool py v)) [
        | inl raised ↦ absurd (ground arith)
        | inr (read, found) ↦
            let same : clamp low high (or_default read default) ≡ q = ground arith in
            rw (sym same) (clamp-IsBetween low high (or_default read default) ordered)
      ]

  listed_tickers-upper : (vs : Items) → All IsTicker (listed_tickers py vs)
  unfolding listed_tickers
  listed_tickers-upper no_items = tt
  listed_tickers-upper (item v vs) = elim (Bool-cases (blank (strip (str_of py v)))) [
    | inl empty ↦ rw empty (listed_tickers-upper vs)
    | inr given ↦ rw given ((str_of py v, refl, given), listed_tickers-upper vs)
  ]

  split_tickers-upper : (parts : List String) → All IsTicker (split_tickers py parts)
  unfolding split_tickers
  split_tickers-upper [] = tt
  split_tickers-upper (part ∷ parts) = elim (Bool-cases (blank (strip part))) [
    | inl empty ↦ rw empty (split_tickers-upper parts)
    | inr given ↦ rw given ((part, refl, given), split_tickers-upper parts)
  ]

  normalize_tickers-upper : (v : Value) → All IsTicker (normalize_tickers py v)
  unfolding normalize_tickers
  normalize_tickers-upper (arr vs) = listed_tickers-upper vs
  normalize_tickers-upper (str s) = split_tickers-upper (split b',' s)
  normalize_tickers-upper _ = tt

  rule_of-IsSane :
      (read : String → Option ℕ) (row : Fields) (id user_id : Value) (q : ℤ)
      → IsBetween (pos 0) threshold_most q
      → IsSane (rule_of py read row id user_id q)
  unfolding rule_of
  rule_of-IsSane read row id user_id q between = record {
    results = bounded_int-IsBetween (get_value "max_results" row) (pos 10) (pos 1) (pos 50) refl;
    alerts = bounded_int-IsBetween (get_value "max_alerts" row) (pos 12) (pos 1) (pos 50) refl;
    threshold = between;
    channel = delivery_channel-known (get_value "delivery_channel" row);
    severity = delivery_min_severity-known (get_value "delivery_min_severity" row);
    tickers = normalize_tickers-upper (get_value "tickers" row);
  }

  -- Whatever a row of the store holds, a rule that is read from it asks for 1 to 50 results and 1 to
  -- 50 alerts, has a threshold from 0.0 to 2.0, a known channel and a known least severity, and
  -- tickers each of which is the upper case of a stripped text that is not empty.
  pub scheduled_rule_from_row-IsSane :
      (read : String → Option ℕ) (row : Fields) (rule : ScheduledAlertRule)
      → scheduled_rule_from_row py read row ≡ some rule
      → IsSane rule
  unfolding scheduled_rule_from_row
  scheduled_rule_from_row-IsSane read row rule h = elim (Option-cases (get "id" row)) [
    | inl lacking ↦ absurd (ground arith)
    | inr (id, has_id) ↦ elim (Option-cases (get "user_id" row)) [
      | inl lacking ↦ absurd (ground arith)
      | inr (user_id, has_user) ↦
          elim (Option-cases (
            bounded_float py (get_value "volatility_threshold" row) threshold_default (pos 0)
              threshold_most)) [
                | inl raised ↦ absurd (ground arith)
                | inr (q, found) ↦
                    let same : rule_of py read row id user_id q ≡ rule = ground arith in
                    rw (sym same) (
                      rule_of-IsSane read row id user_id q (
                        bounded_float-IsBetween (get_value "volatility_threshold" row)
                          threshold_default (pos 0) threshold_most q refl found))
              ]
    ]
  ]
