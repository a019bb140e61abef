-- ===== src/Diagnostics.antt =====
-- diagnostics.py: log lines from a finite vocabulary, without the content of requests or reports.
pub mod Bounded
use amazon_echo_home_voice.Prelude.{
  ℕ, String, Bool, true, false, not, ◌&&◌, ◌||◌, Option, none, some, List, [], ◌∷◌, leb, all,
  one_of, str_eq, map, if◌then◌else◌,
}
use amazon_echo_home_voice.Python.{
  Json, Fields, find, get, as_str, as_bool, as_fields, Exn, gateway_error, transient_gateway_error,
  foreign, Foreign, http_error, url_error, url_error_text, timeout_error, connection_refused,
  connection_reset, connection_error, certificate_error, ssl_error, gai_error, os_error,
  http_exception, unicode_error, value_error, recursion_error,
}
use amazon_echo_home_voice.Gateway.Payload.{statuses, names}

-- FAILURE_CATEGORIES
abbrev pub configuration_messages : List String
configuration_messages =
    "Invalid IGW_READ_TOKEN configuration" ∷ "Invalid CF_ACCESS_CLIENT_ID configuration"
    ∷ "Invalid CF_ACCESS_CLIENT_SECRET configuration"
    ∷ "IGW_URL must be an HTTPS /v1/energy endpoint on port 443"
    ∷ "Cloudflare Access credentials must be configured together"
    ∷ "IGW_TIMEOUT_SECONDS must be between 0.1 and 4"
    ∷ "IGW_MAX_AGE_SECONDS must be between 1 and 60" ∷ "Invalid gateway network policy"
    ∷ "Invalid numeric gateway configuration" ∷ "Invalid public gateway hostname"
    ∷ "Invalid voice mode" ∷ "Public gateways require the pinned HTTPS transport" ∷ []

abbrev pub failure_categories : List (String × List String)
failure_categories =
    ("configuration", configuration_messages)
    ∷ ("deadline", "Voice request timed out" ∷ "Gateway request timed out" ∷ [])
    ∷ ("network_policy", "Gateway must resolve only to public Internet addresses" ∷ [])
    ∷ (
      "resolver",
      "Gateway resolver is busy" ∷ "Gateway resolver is unavailable" ∷ "Gateway resolution failed"
          ∷ [],
    )
    ∷ (
      "transport",
      "Gateway request failed" ∷ "Invalid gateway transport" ∷ "Gateway transport is busy" ∷ [],
    )
    ∷ (
      "response_format",
      "Gateway returned an invalid content type" ∷ "Gateway response is too large"
          ∷ "Invalid gateway response" ∷ [],
    )
    ∷ ("envelope_age", "Gateway response is out of date" ∷ [])
    ∷ (
      "report_contract",
      "Invalid gateway schema" ∷ "Invalid gateway metrics" ∷ "Invalid gateway reports"
          ∷ "Invalid gateway report" ∷ "Invalid gateway report status"
          ∷ "Inconsistent gateway report status" ∷ "Invalid gateway report text" ∷ [],
    )
    ∷ []

-- MESSAGE_CATEGORIES.get(message, "unknown"); no message stands in two categories.
unfoldable pub category_of : List (String × List String) → String → String
category_of [] message = "unknown"
category_of ((category, messages) ∷ rest) message =
    let other = category_of rest message in if one_of messages message then category else other

-- The first name of CAUSE_NAMES whose class the exception belongs to.
unfoldable pub cause_name : Option Foreign → String
cause_name none = "none"
cause_name (some (http_error code)) = "HTTPError"
cause_name (some timeout_error) = "TimeoutError"
cause_name (some certificate_error) = "SSLCertVerificationError"
cause_name (some ssl_error) = "SSLError"
cause_name (some connection_refused) = "ConnectionRefusedError"
cause_name (some connection_reset) = "ConnectionResetError"
cause_name (some gai_error) = "gaierror"
cause_name (some (url_error reason)) = "URLError"
cause_name (some url_error_text) = "URLError"
cause_name (some http_exception) = "HTTPException"
cause_name (some unicode_error) = "UnicodeError"
cause_name (some value_error) = "ValueError"
cause_name (some connection_error) = "OSError"
cause_name (some os_error) = "OSError"
cause_name (some f) = "other"

-- urllib puts the exception of the transport in `reason`.
unfoldable pub unwrap : Option Foreign → Option Foreign
unwrap (some (url_error reason)) = some reason
unwrap cause = cause

-- error.args[0] and error.__cause__
abbrev pub message_of : Exn → String
message_of (gateway_error message cause) = message
message_of (transient_gateway_error message cause) = message
message_of e = ""

abbrev pub cause_of : Exn → Option Foreign
cause_of (gateway_error message cause) = cause
cause_of (transient_gateway_error message cause) = cause
cause_of e = none

abbrev pub http_status : Option Foreign → Option ℕ
http_status (some (http_error code)) = if leb 100 code && leb code 599 then some code else none
http_status cause = none

pub data Line : Type 0 where
  failure : (category cause : String) → (status : Option ℕ) → Line
  report_status : (reports : List (String × String)) → (mqtt_connected : Option Bool) → Line

-- gateway_failure: the line that is logged
unfoldable pub gateway_failure : Exn → Line
unfolding category_of cause_name unwrap
gateway_failure error =
    let cause = unwrap (cause_of error) in
    failure (category_of failure_categories (message_of error)) (cause_name cause)
      (http_status cause)

abbrev status_name : Option String → String
status_name none = "unknown"
status_name (some s) = if one_of statuses s then s else "unknown"

abbrev pub report_of : String → Fields → Option Fields
report_of name reports = as_fields (get name reports)

-- payload["reports"][name]["status"]
abbrev pub status_of : Fields → String → Option String
status_of reports name = elim (report_of name reports) [
  | none ↦ none
  | some report ↦ as_str (get "status" report)
]

-- report_statuses: no line where every report is fresh
unfoldable pub report_statuses : Fields → Option Line
report_statuses payload = elim (as_fields (get "reports" payload)) [
  | none ↦ none
  | some reports ↦
      let seen = map (λ name. (name, status_name (status_of reports name))) (names reports) in
      if all (λ s. str_eq s.1 "fresh") seen
      then none
      else some (report_status seen (as_bool (get "mqtt_connected" payload)))
]
