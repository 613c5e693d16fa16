-- ===== src/Alerts/Delivery.antt =====
-- `deliver_alert_webhook` of app/alert_scheduler.py. The parsing of URLs and of addresses, and the
-- HTTP client, are parameters.
use underlying_analyzer_rebo.Base.{
  ℕ, String, Bool, not, ◌&&◌, ◌||◌, Option, none, some, ◌==◌, leb, if◌then◌else◌,
}
use underlying_analyzer_rebo.Base.Text.{strip, lower, blank, show_nat, ends_with, ◌⧺◌}
use underlying_analyzer_rebo.Base.Int.{ℤ, pos, leb_ℤ}
use underlying_analyzer_rebo.Base.Result.{Result, ok, err}
use underlying_analyzer_rebo.Value.{
  Value, null, int, str, arr, obj, no_items, Fields, no_fields, field,
}
use underlying_analyzer_rebo.Value.Access.{get, get_value, or_else, as_dict}
use underlying_analyzer_rebo.Alerts.Rules.{ScheduledAlertRule, int_or_bool}

-- What `urlparse` reads of a URL.
pub record ParsedUrl : Type 0 where
  pub scheme : String
  pub has_user : Bool
  pub has_password : Bool
  pub hostname : Option String

-- What `ipaddress` says of an address.
pub record Address : Type 0 where
  pub is_private : Bool
  pub is_loopback : Bool
  pub is_link_local : Bool
  pub is_multicast : Bool
  pub is_reserved : Bool
  pub is_unspecified : Bool

-- `urlparse` is `none` where it raises `ValueError`, and `ip_address` where the text is no IP address.
pub record Network : Type 0 where
  pub urlparse : String → Option ParsedUrl
  pub ip_address : String → Option Address
  pub post : String → Value → Result String ℕ
  pub isoformat : ℕ → String

pub data Status : Type 0 where
  skipped delivered undelivered : Status

pub record AlertDeliveryResult : Type 0 where
  pub status : Status
  pub destination : Option String
  pub response_status : Option ℕ
  pub error : Option String

abbrev pub is_local_name : String → Bool
is_local_name host =
    ((host == "localhost") || (host == "localhost.localdomain")) || ends_with host ".local"

abbrev pub is_local_address : Address → Bool
is_local_address address =
    address.is_private || address.is_loopback || address.is_link_local || address.is_multicast
    || address.is_reserved || address.is_unspecified

abbrev pub hostname_of : ParsedUrl → String
hostname_of parsed = elim parsed.hostname [ none ↦ "" | some host ↦ host ]

-- `AlertDeliveryError`, or the `ValueError` of `urlparse`, which is not caught.
pub data WebhookError : Type 0 where
  refused : (message : String) → WebhookError
  unparsable : WebhookError

abbrev pub check_address : String → Option Address → Result WebhookError String
check_address url none = ok url
check_address url (some address) =
    if is_local_address address
    then err (refused "Webhook URL cannot target private or local networks.")
    else ok url

unfoldable pub check_parsed : Network → String → ParsedUrl → Result WebhookError String
unfolding lower ends_with
check_parsed net url parsed =
    let host = lower (hostname_of parsed) in
    if not (parsed.scheme == "https")
    then err (refused "Webhook URL must use https.")
    else if parsed.has_user || parsed.has_password
    then err (refused "Webhook URL cannot include credentials.")
    else if blank (hostname_of parsed)
    then err (refused "Webhook URL must include a hostname.")
    else if is_local_name host
    then err (refused "Webhook URL cannot target local hosts.")
    else check_address url (net.ip_address host)

unfoldable pub validate_webhook_url : Network → String → Result WebhookError String
unfolding check_parsed strip
validate_webhook_url net value = elim (net.urlparse (strip value)) [
  | none ↦ err unparsable
  | some parsed ↦ check_parsed net (strip value) parsed
]

abbrev shown_destination : ParsedUrl → Option String
shown_destination parsed =
    if blank parsed.scheme || blank (hostname_of parsed)
    then none
    else some (parsed.scheme ⧺ "://" ⧺ hostname_of parsed)

-- The outer `none` is the `ValueError` of `urlparse`.
unfoldable pub redacted_webhook_destination : Network → String → Option (Option String)
unfolding strip
redacted_webhook_destination net value = elim (net.urlparse (strip value)) [
  | none ↦ none
  | some parsed ↦ some (shown_destination parsed)
]

-- `int(meta.get(key) or 0)`; `none` is the error of `int`, which is not caught.
unfoldable pub count_of : String → Fields → Option ℤ
unfolding get
count_of key meta = int_or_bool (or_else (get_value key meta) (int (pos 0)))

abbrev pub is_positive : ℤ → Bool
is_positive n = not (leb_ℤ n (pos 0))

abbrev optional_id : Option String → Value
optional_id none = null
optional_id (some id) = str id

unfoldable pub webhook_body : Network → ScheduledAlertRule → ℕ → Option String → Fields → Value
webhook_body net rule run_date run_id payload = obj (
    field "type" (str "underlying.alert_digest") (
      field "rule"
        (obj (
          field "id" (str rule.id) (
            field "name" (str rule.name)
              (field "delivery_min_severity" (str rule.delivery_min_severity) no_fields))))
        (field "run"
          (obj (
            field "id" (optional_id run_id)
              (field "date" (str (net.isoformat run_date)) no_fields)))
          (field "digest" (or_else (get_value "digest" payload) (obj no_fields)) (
            field "meta" (obj (as_dict (get_value "meta" payload))) (
              field "alerts" (or_else (get_value "alerts" payload) (arr no_items))
                (field "rows" (or_else (get_value "rows" payload) (arr no_items)) no_fields)))))))

-- A delivery, and what has been posted for it. The result is `none` where an exception escapes.
pub record Delivery : Type 0 where
  pub result : Option AlertDeliveryResult
  pub posted : Option (String × Value)

-- What the answer to the request means.
unfoldable pub outcome_of : Option String → Result String ℕ → AlertDeliveryResult
outcome_of destination (err message) = record {
  status = undelivered;
  destination = destination;
  response_status = none;
  error = some message;
}
outcome_of destination (ok status) =
    if leb 400 status
    then record {
      status = undelivered;
      destination = destination;
      response_status = some status;
      error = some ("Webhook returned HTTP " ⧺ show_nat status ⧺ ".");
    }
    else record {
      status = delivered;
      destination = destination;
      response_status = some status;
      error = none;
    }

-- The result that is made of a destination, where that can be read.
abbrev pub with_destination :
    (Option String → AlertDeliveryResult) → Option (Option String) → Option AlertDeliveryResult
with_destination make none = none
with_destination make (some destination) = some (make destination)

abbrev pub crashed : Delivery
crashed = record { result = none; posted = none }

abbrev pub unposted : Status → Option (Option String) → Option String → Delivery
unposted status destination error = record {
  result =
      with_destination
        (λ shown. record {
          status = status;
          destination = shown;
          response_status = none;
          error = error;
        })
        destination;
  posted = none;
}

module _ (net : Network) where
  -- The request to a valid URL.
  unfoldable pub send : String → Value → Delivery
  unfolding outcome_of redacted_webhook_destination
  send url body = record {
    result =
        with_destination (λ shown. outcome_of shown (net.post url body))
          (redacted_webhook_destination net url);
    posted = some (url, body);
  }

  -- A delivery to a URL that has been validated, by the counts of alerts.
  unfoldable pub deliver_counted :
      ScheduledAlertRule → Value → Bool → String → Option ℤ → Option ℤ → Delivery
  unfolding send redacted_webhook_destination
  deliver_counted rule body require_alerts url none high = crashed
  deliver_counted rule body require_alerts url (some all) none = crashed
  deliver_counted rule body require_alerts url (some all) (some high) =
      if require_alerts && not (is_positive all)
      then unposted skipped (redacted_webhook_destination net url) (some "No alerts fired.")
      else if (require_alerts && (rule.delivery_min_severity == "high")) && not (is_positive high)
      then unposted skipped (redacted_webhook_destination net url)
          (some "No High severity alerts fired.")
      else send url body

  unfoldable pub deliver_to :
      ScheduledAlertRule → ℕ → Option String → Fields → Bool → String → Delivery
  unfolding deliver_counted webhook_body count_of
  deliver_to rule run_date run_id payload require_alerts url =
      let meta = as_dict (get_value "meta" payload) in
      deliver_counted rule (webhook_body net rule run_date run_id payload) require_alerts url
        (count_of "alert_count" meta) (count_of "high_alert_count" meta)

  unfoldable pub deliver_checked :
      ScheduledAlertRule → ℕ → Option String → Fields → Bool → String → Delivery
  unfolding deliver_to validate_webhook_url redacted_webhook_destination
  deliver_checked rule run_date run_id payload require_alerts destination =
      elim (validate_webhook_url net destination) [
        | err (refused message) ↦
            unposted undelivered (redacted_webhook_destination net destination) (some message)
        | err unparsable ↦ crashed
        | ok url ↦ deliver_to rule run_date run_id payload require_alerts url
      ]

  unfoldable pub deliver_configured :
      ScheduledAlertRule → ℕ → Option String → Fields → Bool → Option String → Delivery
  unfolding deliver_checked
  deliver_configured rule run_date run_id payload require_alerts none =
      unposted skipped (some none) none
  deliver_configured rule run_date run_id payload require_alerts (some destination) =
      if blank destination
      then unposted skipped (some none) none
      else deliver_checked rule run_date run_id payload require_alerts destination

  unfoldable pub deliver_alert_webhook :
      ScheduledAlertRule → ℕ → Option String → Fields → Bool → Delivery
  unfolding deliver_configured
  deliver_alert_webhook rule run_date run_id payload require_alerts =
      if rule.delivery_channel == "webhook"
      then deliver_configured rule run_date run_id payload require_alerts rule.delivery_webhook_url
      else unposted skipped (some none) none
