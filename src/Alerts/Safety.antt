-- ===== src/Alerts/Safety.antt =====
-- When `deliver_alert_webhook` of app/alert_scheduler.py posts, and what its result says of it.
use underlying_analyzer_rebo.Base.{
  ℕ, ◌<◌, String, ◌≡◌, ◌≢◌, refl, ◌∙◌, ap, inl, inr, Bool, true, not, ◌&&◌, Option, none, some,
  ◌==◌, Bool-cases, arith, eq_iff,
}
use underlying_analyzer_rebo.Base.Text.{blank}
use underlying_analyzer_rebo.Base.Int.{ℤ}
use underlying_analyzer_rebo.Base.Result.{Result, ok, err, Result-cases}
use underlying_analyzer_rebo.Value.{Value, Fields}
use underlying_analyzer_rebo.Value.Access.{get_value, as_dict}
use underlying_analyzer_rebo.Alerts.Rules.{ScheduledAlertRule}
use underlying_analyzer_rebo.Alerts.Delivery.{
  Network, Status, skipped, delivered, undelivered, AlertDeliveryResult, Delivery, refused,
  unparsable, validate_webhook_url, count_of, is_positive, send, deliver_counted, deliver_to,
  deliver_checked, deliver_configured, deliver_alert_webhook, with_destination, crashed, unposted,
  outcome_of, webhook_body, redacted_webhook_destination,
}
use underlying_analyzer_rebo.Alerts.PublicUrl.{IsPublic, validate_webhook_url-IsPublic}

abbrev pub HasCount : String → Fields → Type 0
HasCount key meta = (n : ℤ) × (count_of key meta ≡ some n) × (is_positive n ≡ true)

-- What a post for a rule takes: a webhook as its channel, its URL, which is public, and, where alerts
-- are required, an alert, which is of high severity where the rule wants that.
pub record IsPermitted (net : Network) (rule : ScheduledAlertRule) (meta : Fields)
    (require_alerts : Bool) (url : String) : Type 0 where
  pub channel : rule.delivery_channel ≡ "webhook"
  pub destination : String
  pub configured : rule.delivery_webhook_url ≡ some destination
  pub trimmed : validate_webhook_url net destination ≡ ok url
  pub public : IsPublic net url
  pub alerts : require_alerts ≡ true → HasCount "alert_count" meta
  pub high_alerts :
      require_alerts ≡ true → rule.delivery_min_severity ≡ "high" → HasCount "high_alert_count" meta

-- A delivery posts only where it may. It is a success only where the post has been answered with a
-- status below 400, and one that is skipped has not posted.
pub record IsDelivery (net : Network) (rule : ScheduledAlertRule) (meta : Fields)
    (sent_body : Value) (require_alerts : Bool) (d : Delivery) : Type 0 where
  pub sent :
      (url : String) (body : Value)
      → d.posted ≡ some (url, body)
      → IsPermitted net rule meta require_alerts url × (body ≡ sent_body)
  pub success :
      (r : AlertDeliveryResult)
      → d.result ≡ some r
      → r.status ≡ delivered
      → (url : String) × (status : ℕ) × (d.posted ≡ some (url, sent_body))
        × (net.post url sent_body ≡ ok status)
        × (status < 400)
  pub skip : (r : AlertDeliveryResult) → d.result ≡ some r → r.status ≡ skipped → d.posted ≡ none

outcome_of-delivered :
    (destination : Option String) (answer : Result String ℕ)
    → (outcome_of destination answer).status ≡ delivered
    → (status : ℕ) × (answer ≡ ok status) × (status < 400)
unfolding outcome_of
outcome_of-delivered destination (err message) h = absurd (ground arith)
outcome_of-delivered destination (ok status) h = (status, refl, ground arith)

outcome_of-unskipped :
    (destination : Option String) (answer : Result String ℕ)
    → (outcome_of destination answer).status ≢ skipped
unfolding outcome_of
outcome_of-unskipped destination (err message) h = ground arith
outcome_of-unskipped destination (ok status) h = ground arith

with_destination-some :
    (make : Option String → AlertDeliveryResult) (o : Option (Option String))
    (r : AlertDeliveryResult)
    → with_destination make o ≡ some r
    → (shown : Option String) × (make shown ≡ r)
with_destination-some make none r h = absurd (ground arith)
with_destination-some make (some shown) r h = (shown, ground arith)

module _ (net : Network) (rule : ScheduledAlertRule) (meta : Fields) (body : Value)
    (require_alerts : Bool) where
  unposted-IsDelivery :
      (status : Status) (destination : Option (Option String)) (error : Option String)
      → status ≢ delivered
      → IsDelivery net rule meta body require_alerts (unposted status destination error)
  unposted-IsDelivery status destination error other = record {
    sent = λ url b h. absurd (ground arith);
    success = λ r h good.
        let (shown, same) = with_destination-some _ destination r h in
        absurd (other (ap (λ (a : AlertDeliveryResult). a.status) same ∙ good));
    skip = λ r h q. refl;
  }

  crashed-IsDelivery : IsDelivery net rule meta body require_alerts crashed
  crashed-IsDelivery = record {
    sent = λ url b h. absurd (ground arith);
    success = λ r h good. absurd (ground arith);
    skip = λ r h q. refl;
  }

  send-IsDelivery :
      (url : String)
      → IsPermitted net rule meta require_alerts url
      → IsDelivery net rule meta body require_alerts (send net url body)
  unfolding send
  send-IsDelivery url permitted =
      let redacted = redacted_webhook_destination net url in
      record {
        sent = λ u b h. let same : url ≡ u = ground arith in (rw same at permitted, ground arith);
        success = λ r h good.
            let (shown, same) = with_destination-some _ redacted r h in
            let (status, answered, fine) =
              outcome_of-delivered shown (net.post url body)
                (ap (λ (a : AlertDeliveryResult). a.status) same ∙ good) in
            (url, status, refl, answered, fine);
        skip = λ r h quiet.
            let (shown, same) = with_destination-some _ redacted r h in
            absurd (
              outcome_of-unskipped shown (net.post url body)
                (ap (λ (a : AlertDeliveryResult). a.status) same ∙ quiet));
      }

  module _ (destination url : String) (channel : rule.delivery_channel ≡ "webhook")
      (configured : rule.delivery_webhook_url ≡ some destination)
      (valid : validate_webhook_url net destination ≡ ok url) where
    deliver_counted-IsDelivery :
        (all high : Option ℤ)
        → count_of "alert_count" meta ≡ all
        → count_of "high_alert_count" meta ≡ high
        → IsDelivery net rule meta body require_alerts
            (deliver_counted net rule body require_alerts url all high)
    unfolding deliver_counted
    deliver_counted-IsDelivery none high a b = crashed-IsDelivery
    deliver_counted-IsDelivery (some all) none a b = crashed-IsDelivery
    deliver_counted-IsDelivery (some all) (some high) a b =
        let wants_high = require_alerts && (rule.delivery_min_severity == "high") in
        elim (Bool-cases (require_alerts && not (is_positive all))) [
          | inl quiet ↦ rw quiet (unposted-IsDelivery skipped _ _ (λ e. ground arith))
          | inr loud ↦ elim (Bool-cases (wants_high && not (is_positive high))) [
            | inl quiet ↦ rw (loud, quiet) (unposted-IsDelivery skipped _ _ (λ e. ground arith))
            | inr severe ↦
                rw (loud, severe)
                  (send-IsDelivery url (record {
                    channel = channel;
                    destination = destination;
                    configured = configured;
                    trimmed = valid;
                    public = validate_webhook_url-IsPublic net destination url valid;
                    alerts = λ r. (all, a, ground (arith, loud, r));
                    high_alerts = λ r w. (
                      high,
                      b,
                      ground (arith, severe, r, w, eq_iff rule.delivery_min_severity "high"),
                    );
                  }))
          ]
        ]

module _ (net : Network) (rule : ScheduledAlertRule) (run_date : ℕ) (run_id : Option String)
    (payload : Fields) (require_alerts : Bool) where
  abbrev IsOne : Delivery → Type 0
  IsOne d =
      IsDelivery net rule (as_dict (get_value "meta" payload))
        (webhook_body net rule run_date run_id payload) require_alerts d

  deliver_checked-IsDelivery :
      (destination : String)
      → rule.delivery_channel ≡ "webhook"
      → rule.delivery_webhook_url ≡ some destination
      → IsOne (deliver_checked net rule run_date run_id payload require_alerts destination)
  unfolding deliver_checked deliver_to
  deliver_checked-IsDelivery destination c d =
      let meta = as_dict (get_value "meta" payload) in
      let body = webhook_body net rule run_date run_id payload in
      elim (Result-cases (validate_webhook_url net destination)) [
        | inr (refused message, bad) ↦
            rw (bad, deliver_checked)
              (unposted-IsDelivery net rule meta body require_alerts undelivered _ _
                (λ e. ground arith))
        | inr (unparsable, bad) ↦
            rw (bad, deliver_checked) (crashed-IsDelivery net rule meta body require_alerts)
        | inl (url, valid) ↦
            rw (valid, deliver_checked)
              (deliver_counted-IsDelivery net rule meta body require_alerts destination url c d
                valid _ _ refl refl)
      ]

  deliver_configured-IsDelivery :
      (configured : Option String)
      → rule.delivery_channel ≡ "webhook"
      → rule.delivery_webhook_url ≡ configured
      → IsOne (deliver_configured net rule run_date run_id payload require_alerts configured)
  unfolding deliver_configured
  deliver_configured-IsDelivery none c d =
      unposted-IsDelivery net rule _ _ require_alerts skipped (some none) none (λ e. ground arith)
  deliver_configured-IsDelivery (some destination) c d = elim (Bool-cases (blank destination)) [
    | inl empty ↦ rw empty (
        unposted-IsDelivery net rule _ _ require_alerts skipped (some none) none
          (λ e. ground arith))
    | inr given ↦ rw given (deliver_checked-IsDelivery destination c d)
  ]

  pub deliver_alert_webhook-IsDelivery :
      IsDelivery net rule
        (as_dict (get_value "meta" payload))
        (webhook_body net rule run_date run_id payload)
        require_alerts
        (deliver_alert_webhook net rule run_date run_id payload require_alerts)
  unfolding deliver_alert_webhook
  deliver_alert_webhook-IsDelivery = elim (Bool-cases (rule.delivery_channel == "webhook")) [
    | inr other ↦
        rw (other, deliver_alert_webhook)
          (unposted-IsDelivery net rule _ _ require_alerts skipped (some none) none
            (λ e. ground arith))
    | inl webhook ↦
        rw (webhook, deliver_alert_webhook)
          (deliver_configured-IsDelivery rule.delivery_webhook_url
            (ground (arith, eq_iff rule.delivery_channel "webhook")) refl)
  ]
