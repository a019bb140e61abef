-- ===== src/Handler/Energy.antt =====
-- `lambda_handler` of lambda_handler.py: the whole handler, from the signed event to the response.
pub mod Outcome
pub mod Raises
use amazon_echo_home_voice.Python.{
  Exn, Fields, Json, Python, Result, as_bool, as_fields, as_str, attribute_error, capacity_error,
  foreign, gateway_error, get, invalid_token, is_gateway_error, key_error, oauth_error,
  oauth_unavailable, ok, permission_error, raised, required, store_error, transient_gateway_error,
  unconfigured_home, unlinked_account,
}
use amazon_echo_home_voice.Prelude.{
  Bool, Option, String, [], false, if◌then◌else◌, none, not, or_else, some, str_eq, true, ℕ, ◌&&◌,
  ◌++◌, ◌∷◌,
}
use Prim.Native.String.{◌++◌ as append}
use amazon_echo_home_voice.World.{
  Exec, Reply, World, getenv, lift, milliseconds, pure, raise, warn, ◌>>=◌, ◌>>◌,
}
use amazon_echo_home_voice.Gateway.Config.{GatewayConfig, from_env, post_init}
use amazon_echo_home_voice.Fetch.{fetch_energy}
use amazon_echo_home_voice.Store.Tables.{Crypto}
use amazon_echo_home_voice.Accounts.{
  Mode, personal, multi_household, mode, request_timeout, one_second, default_reserve,
  household_connection,
}
use amazon_echo_home_voice.Diagnostics.{gateway_failure, report_statuses}
use amazon_echo_home_voice.Visuals as V
use amazon_echo_home_voice.Visuals.{link_account}
use amazon_echo_home_voice.Visuals.Attach.{message_visuals}
use amazon_echo_home_voice.Visuals.Report.{report_visuals}
use amazon_echo_home_voice.Handler.Event.{validate_event}
use amazon_echo_home_voice.Handler.Text.{report_in}
use amazon_echo_home_voice.Handler.Intents.{Wish, goodbye, help, other, report, requested}

abbrev pub unavailable_text : String
unavailable_text = "Home energy data is unavailable right now. Please try again later."

abbrev pub flow_unconfigured_text : String
flow_unconfigured_text =
    "Power flow reporting is not configured for this home. Connect the load, grid, or battery power sources in your gateway to enable it."

abbrev pub help_text : String
help_text =
    "You can ask about battery charge, solar power, solar energy today, alarms, power flow, or home energy status. Say details for the full report, or repeat to hear the latest report again. What would you like to know?"

abbrev pub link_text : String
link_text =
    "To hear your home energy reports, open the Alexa app and link your Home Energy account."

abbrev pub connect_text : String
connect_text =
    "Your account is linked. Sign in to the Home Energy connection portal and connect your gateway, then ask again."

-- The answer of the handler: an ended session has an empty response.
pub data Answer : Type 0 where
  ended : Answer
  spoken : V.Reply → Answer

-- _speech
abbrev pub speech : String → Bool → V.Reply
speech text end_session = record {
  speech = text;
  end_session = some end_session;
  reprompt = not end_session;
  card = none;
  directive = none;
  attributes = none;
}

module _ (py : Python) (crypto : Crypto) (size : V.Reply → ℕ) where
  -- _unavailable
  abbrev pub unavailable : Json → V.Reply
  unavailable event =
      message_visuals py size event (speech unavailable_text true) "Energy status"
        "Data unavailable"

  -- _account_response
  unfoldable pub account_response : Json → Exn → V.Reply
  account_response event unlinked_account =
      message_visuals py size event (record (speech link_text true) { card = some link_account })
        "Link your account" ""
  account_response event unconfigured_home =
      message_visuals py size event (speech connect_text true) "Connect your gateway" ""
  account_response event e = unavailable event

  abbrev guidance : Json → String → Answer
  guidance event text =
      spoken (message_visuals py size event (speech text false) "What you can ask" "")

  -- The configuration of the home that the request is for.
  unfoldable pub home_of : Mode → Json → Option ℕ → Exec GatewayConfig
  home_of multi_household event deadline = household_connection py crypto event deadline
  home_of personal event deadline = do environ ← getenv; lift (from_env py environ)

  -- The timeout of the gateway is recomputed from what is left of the deadline.
  unfoldable pub within : Option ℕ → GatewayConfig → Exec GatewayConfig
  within none config = pure config
  within (some deadline) config = do
    timeout ← request_timeout (some deadline) config.timeout_seconds default_reserve
    lift (post_init py (record config { timeout_seconds = timeout }))

  -- The `try` block: the payload and the text.
  unfoldable pub read_report :
      Mode
      → Json
      → Option ℕ
      → (selected : String) → (detailed : Bool) → Exec (Fields × Option String)
  read_report current event deadline selected detailed = do
    home ← home_of current event deadline
    config ← within deadline home
    payload ← fetch_energy py config
    left ← request_timeout deadline one_second 0
    text ← lift (report_in selected detailed payload)
    pure (payload, text)

  -- report_statuses(payload)
  unfoldable pub note_statuses : Fields → Exec (Unit {0})
  note_statuses payload = elim (report_statuses payload) [ none ↦ pure tt | some line ↦ warn line ]

  -- What follows the `try` block.
  unfoldable pub answer_with :
      Json → (selected : String) → (detailed : Bool) → Fields × Option String → Exec Answer
  answer_with event selected detailed (payload, none) = pure (
      spoken (
        message_visuals py size event (speech flow_unconfigured_text true) "Power flow"
          "Not configured"))
  answer_with event selected detailed (payload, some text) = do
    note_statuses payload
    metrics_ ← lift (required (as_fields (get "metrics" payload)) (foreign key_error))
    reports ← lift (required (as_fields (get "reports" payload)) (foreign key_error))
    connected ← lift (required (as_bool (get "mqtt_connected" payload)) (foreign key_error))
    reply ← lift (
        report_visuals py metrics_ reports connected size event
          (record (speech text true) { attributes = some (selected, detailed) }) selected detailed)
    pure (spoken reply)

  -- The `except` clauses around the read.
  unfoldable pub recover : Json → Exn → Exec Answer
  recover event (gateway_error message cause) =
      warn (gateway_failure (gateway_error message cause)) >>= λ _.
      pure (spoken (unavailable event))
  recover event (transient_gateway_error message cause) =
      warn (gateway_failure (transient_gateway_error message cause)) >>= λ _.
      pure (spoken (unavailable event))
  recover event unlinked_account = pure (spoken (account_response event unlinked_account))
  recover event unconfigured_home = pure (spoken (account_response event unconfigured_home))
  recover event oauth_error = pure (spoken (account_response event oauth_error))
  recover event invalid_token = pure (spoken (account_response event invalid_token))
  recover event oauth_unavailable = pure (spoken (account_response event oauth_unavailable))
  recover event store_error = pure (spoken (account_response event store_error))
  recover event capacity_error = pure (spoken (account_response event capacity_error))
  recover event e = raise e

  -- The report of a home, or the answer to what went wrong.
  unfoldable pub tell_report :
      Mode → Json → Option ℕ → (selected : String) → (detailed : Bool) → Exec Answer
  tell_report current event deadline selected detailed w =
      let (r, w') = read_report current event deadline selected detailed w in
      elim r [
        | ok found ↦ answer_with event selected detailed found w'
        | raised e ↦ recover event e w'
      ]

  unfoldable pub tell : Mode → Json → Option ℕ → Wish → Exec Answer
  tell current event deadline goodbye = pure (spoken (speech "Goodbye." true))
  tell current event deadline help = pure (guidance event help_text)
  tell current event deadline other =
      pure (guidance event (append "I can only report home energy data. " help_text))
  tell current event deadline (report selected detailed) =
      tell_report current event deadline selected detailed

  -- The mode and the time that is left are checked before the kind of the request.
  unfoldable pub ready : Option ℕ → Exec Mode
  ready deadline = do
    environ ← getenv
    current ← lift (mode (environ "ENERGY_VOICE_MODE"))
    left ← request_timeout deadline one_second default_reserve
    pure current

  abbrev pub is_ended : Fields → Bool
  is_ended request = elim (as_str (get "type" request)) [
    | none ↦ false
    | some kind ↦ str_eq kind "SessionEndedRequest"
  ]

  unfoldable pub serve : Json → Option ℕ → (fields request : Fields) → Exec Answer
  serve event deadline fields request w =
      let (r, w') = ready deadline w in
      elim r [
        | ok current ↦
            (lift (requested event fields request) >>= λ wish. tell current event deadline wish) w'
        | raised e ↦
            if is_gateway_error e
            then (
              ok (spoken (unavailable event)),
              record w' { log = w'.log ++ gateway_failure e ∷ [] },
            )
            else (raised e, w')
      ]

  -- lambda_handler
  unfoldable pub lambda_handler : Json → Option ℕ → Exec Answer
  lambda_handler event deadline = do
    environ ← getenv
    now ← milliseconds
    request ← lift (validate_event py (or_else (environ "ASK_SKILL_ID") "") now event)
    fields ← lift (required (as_fields event) permission_error)
    if is_ended request then pure ended else serve event deadline fields request
