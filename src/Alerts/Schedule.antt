-- ===== src/Alerts/Schedule.antt =====
-- The scheduled run of app/main.py. What it does to the store and to webhooks is a log of effects; a
-- request to the store that fails raises, and is not in the log.
use underlying_analyzer_rebo.Base.{
  ℕ, String, Bool, true, false, Option, none, some, List, [], ◌∷◌, ◌++◌, ◌==◌, if◌then◌else◌, ltb,
  take, keep_if,
}
use underlying_analyzer_rebo.Base.Text.{blank}
use underlying_analyzer_rebo.Base.Result.{Result, ok, err, ◌>>=◌}
use underlying_analyzer_rebo.Value.{Value, Fields, no_fields}
use underlying_analyzer_rebo.Alerts.Rules.{ScheduledAlertRule, alert_payload_from_rule}
use underlying_analyzer_rebo.Alerts.Delivery.{
  Network, Delivery, AlertDeliveryResult, deliver_alert_webhook,
}

pub data Effect : Type 0 where
  inserted_run :
      (rule_id : String) (succeeded : Bool) (payload : Fields) (message : Option String) → Effect
  posted : String → Value → Effect
  inserted_delivery : (run_id : String) → AlertDeliveryResult → Fields → Effect
  updated_run : (run_id : String) → AlertDeliveryResult → Effect
  marked_ran : (rule_id : String) (run_date : ℕ) → Effect

-- The run that an error of the store, or an exception of a delivery, ends.
pub record Abort : Type 0 where
  pub log : List Effect
  pub message : String

-- `build` is `build_alerts_response` on the payload of a rule; `store` is the answer of Supabase to
-- a request, of which the id of a new run is read.
pub record Services : Type 0 where
  pub network : Network
  pub build : Fields → Result String Fields
  pub store : List Effect → Effect → Result String (Option String)

pub record Summary : Type 0 where
  pub rule_id : String
  pub succeeded : Bool
  pub error : Option String
  pub delivery : Option AlertDeliveryResult

abbrev pub is_due : ℕ → ScheduledAlertRule → Bool
is_due run_date rule = elim rule.last_run_date [ none ↦ true | some day ↦ ltb day run_date ]

-- `list_due_rules`, of the active daily rules of the store.
unfoldable pub list_due_rules : List ScheduledAlertRule → ℕ → Bool → List ScheduledAlertRule
list_due_rules rules run_date force = if force then rules else keep_if (is_due run_date) rules

abbrev pub log_post : Delivery → List Effect → List Effect
log_post d log = elim d.posted [ none ↦ log | some sent ↦ log ++ posted sent.0 sent.1 ∷ [] ]

-- `str(rows[0].get("id") or "") or None`
abbrev pub id_or_none : Option String → Option String
id_or_none none = none
id_or_none (some id) = if blank id then none else some id

module _ (services : Services) where
  unfoldable pub request : Effect → List Effect → Result Abort (List Effect × Option String)
  request effect log = elim (services.store log effect) [
    | err message ↦ err (record { log = log; message = message })
    | ok answer ↦ ok (log ++ effect ∷ [], answer)
  ]

  -- The delivery is recorded where the run has an id.
  unfoldable pub record_delivery :
      Option String
      → AlertDeliveryResult
      → Fields
      → List Effect
      → Result Abort (List Effect × Option String)
  unfolding request
  record_delivery none result payload log = ok (log, none)
  record_delivery (some run_id) result payload log = do
    inserted ← request (inserted_delivery run_id result payload) log
    request (updated_run run_id result) inserted.0

  -- An exception of the delivery is not caught; its text is not modelled.
  unfoldable pub record_result :
      Option String
      → Fields
      → List Effect
      → Option AlertDeliveryResult
      → Result Abort (List Effect × Option AlertDeliveryResult)
  unfolding record_delivery
  record_result run_id payload log none = err (record { log = log; message = "" })
  record_result run_id payload log (some result) = do
    after ← record_delivery run_id result payload log
    ok (after.0, some result)

  unfoldable pub record_sent :
      Option String
      → Fields
      → List Effect
      → Delivery
      → Result Abort (List Effect × Option AlertDeliveryResult)
  unfolding record_result
  record_sent run_id payload log d = record_result run_id payload (log_post d log) d.result

  unfoldable pub run_alert_delivery :
      ScheduledAlertRule
      → ℕ
      → Option String
      → Fields
      → List Effect
      → Result Abort (List Effect × Option AlertDeliveryResult)
  unfolding record_sent deliver_alert_webhook
  run_alert_delivery rule run_date run_id payload log =
      if rule.delivery_channel == "webhook"
      then record_sent run_id payload log
          (deliver_alert_webhook services.network rule run_date run_id payload true)
      else ok (log, none)

  unfoldable pub run_built :
      ScheduledAlertRule
      → ℕ
      → List Effect
      → Result String Fields
      → Result Abort (List Effect × Summary)
  unfolding request run_alert_delivery
  run_built rule run_date log (err message) = do
    inserted ← request (inserted_run rule.id false no_fields (some message)) log
    marked ← request (marked_ran rule.id run_date) inserted.0
    ok (
      marked.0,
      record { rule_id = rule.id; succeeded = false; error = some message; delivery = none },
    )
  run_built rule run_date log (ok payload) = do
    inserted ← request (inserted_run rule.id true payload none) log
    sent ← run_alert_delivery rule run_date (id_or_none inserted.1) payload inserted.0
    marked ← request (marked_ran rule.id run_date) sent.0
    ok (marked.0, record { rule_id = rule.id; succeeded = true; error = none; delivery = sent.1 })

  unfoldable pub run_scheduled_alert_rule :
      ScheduledAlertRule → ℕ → List Effect → Result Abort (List Effect × Summary)
  unfolding run_built alert_payload_from_rule
  run_scheduled_alert_rule rule run_date log =
      run_built rule run_date log (services.build (alert_payload_from_rule rule))

  unfoldable pub run_each :
      List ScheduledAlertRule → ℕ → List Effect → Result Abort (List Effect × List Summary)
  unfolding run_scheduled_alert_rule
  run_each [] run_date log = ok (log, [])
  run_each (rule ∷ rules) run_date log = do
    first ← run_scheduled_alert_rule rule run_date log
    rest ← run_each rules run_date first.0
    ok (rest.0, first.1 ∷ rest.1)

  unfoldable pub run_scheduled_alert_rules :
      List ScheduledAlertRule → ℕ → Bool → ℕ → Result Abort (List Effect × List Summary)
  unfolding run_each list_due_rules
  run_scheduled_alert_rules rules run_date force limit =
      run_each (take limit (list_due_rules rules run_date force)) run_date []
