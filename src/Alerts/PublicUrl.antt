-- ===== src/Alerts/PublicUrl.antt =====
-- Which URLs `validate_webhook_url` of app/alert_scheduler.py lets through.
use underlying_analyzer_rebo.Base.{
  String, ◌≡◌, ◌≢◌, sym, ◌∙◌, ap, inl, inr, false, Option, none, some, Bool-cases, Option-cases,
  arith, eq_iff,
}
use underlying_analyzer_rebo.Base.Text.{strip, lower, blank, ends_with}
use underlying_analyzer_rebo.Base.Result.{ok}
use underlying_analyzer_rebo.Alerts.Delivery.{
  Network, Address, ParsedUrl, check_address, check_parsed, validate_webhook_url, is_local_name,
  is_local_address, hostname_of,
}

-- An address that is in none of the ranges that the program turns away.
pub record IsGlobal (address : Address) : Type 0 where
  pub not_private : address.is_private ≡ false
  pub not_loopback : address.is_loopback ≡ false
  pub not_link_local : address.is_link_local ≡ false
  pub not_multicast : address.is_multicast ≡ false
  pub not_reserved : address.is_reserved ≡ false
  pub not_unspecified : address.is_unspecified ≡ false

abbrev pub IsGlobalIfAny : Option Address → Type 0
IsGlobalIfAny none = Unit
IsGlobalIfAny (some address) = IsGlobal address

-- A URL that may be posted to: it is https, without credentials, and its host is not local.
pub record IsPublic (net : Network) (url : String) : Type 0 where
  pub parsed : ParsedUrl
  pub readable : net.urlparse url ≡ some parsed
  pub https : parsed.scheme ≡ "https"
  pub no_user : parsed.has_user ≡ false
  pub no_password : parsed.has_password ≡ false
  pub has_host : blank (hostname_of parsed) ≡ false
  pub not_localhost : lower (hostname_of parsed) ≢ "localhost"
  pub not_localdomain : lower (hostname_of parsed) ≢ "localhost.localdomain"
  pub not_local : ends_with (lower (hostname_of parsed)) ".local" ≡ false
  pub global : IsGlobalIfAny (net.ip_address (lower (hostname_of parsed)))

check_address-IsGlobal :
    (value url : String) (o : Option Address)
    → check_address value o ≡ ok url
    → (value ≡ url) × IsGlobalIfAny o
check_address-IsGlobal value url none h = (ground arith, tt)
check_address-IsGlobal value url (some address) h = elim (Bool-cases (is_local_address address)) [
  | inl local ↦ absurd (ground (arith, local, h))
  | inr far ↦ (
    ground (arith, far, h),
    record {
      not_private = ground (arith, far);
      not_loopback = ground (arith, far);
      not_link_local = ground (arith, far);
      not_multicast = ground (arith, far);
      not_reserved = ground (arith, far);
      not_unspecified = ground (arith, far);
    },
  )
]

check_parsed-IsPublic :
    (net : Network) (value url : String) (parsed : ParsedUrl)
    → net.urlparse value ≡ some parsed
    → check_parsed net value parsed ≡ ok url
    → IsPublic net url
unfolding check_parsed
check_parsed-IsPublic net value url parsed readable h =
    let host = lower (hostname_of parsed) in
    let checked : check_address value (net.ip_address host) ≡ ok url = ground arith in
    let (same, global) = check_address-IsGlobal value url (net.ip_address host) checked in
    let named : is_local_name host ≡ false = ground arith in
    record {
      parsed = parsed;
      readable = ap net.urlparse (sym same) ∙ readable;
      https = ground (arith, eq_iff parsed.scheme "https");
      no_user = ground arith;
      no_password = ground arith;
      has_host = ground arith;
      not_localhost = λ e. ground (arith, named, eq_iff host "localhost");
      not_localdomain = λ e. ground (arith, named, eq_iff host "localhost.localdomain");
      not_local = ground (arith, named);
      global = global;
    }

pub validate_webhook_url-IsPublic :
    (net : Network) (value url : String)
    → validate_webhook_url net value ≡ ok url
    → IsPublic net url
unfolding validate_webhook_url
validate_webhook_url-IsPublic net value url h = elim (Option-cases (net.urlparse (strip value))) [
  | inl raised ↦ absurd (ground (arith, raised, h))
  | inr (parsed, readable) ↦
      check_parsed-IsPublic net (strip value) url parsed readable
        (rw (readable, validate_webhook_url) at h)
]
