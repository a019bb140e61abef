-- ===== src/Tests/Voice.antt =====
-- Runs of the handler, the screen and the webhook.
use amazon_echo_home_voice.Prelude.{
  String, [], arith, false, none, pos, refl, some, true, ℕ, ◌∷◌, ◌≡◌, ◌≤◌,
}
use amazon_echo_home_voice.Python.{
  Json, end, field, find, gateway, int, null, num_le, num_lt, obj, permission_error, str,
}
use amazon_echo_home_voice.World.{milliseconds, getenv}
use amazon_echo_home_voice.Tests.Data.{cleaned, event, launch, metric, py, reports, skill, world}
use amazon_echo_home_voice.Tests.Gateway.{fetch_run}
use amazon_echo_home_voice.Visuals as V
use amazon_echo_home_voice.Visuals.{link_account, max_reply_bytes}
use amazon_echo_home_voice.Visuals.Screen.{read_token, report_token, supports_apl}
use amazon_echo_home_voice.Visuals.Metric.{
  MetricInfo, Reading, checked_metric, differs, disagrees, fresh_value, reading, shown_value,
}
use amazon_echo_home_voice.Visuals.Attach.{attach, drop_card, drop_texts, with_card, with_screen}
use amazon_echo_home_voice.Visuals.Fits.{SameAnswer, attach-SameAnswer, attach-fits}
use amazon_echo_home_voice.Visuals.Readings.{
  IsShown, checked_metric-IsShown, read_token-report_token,
}
use amazon_echo_home_voice.Accounts.{personal, request_timeout, timeout_at}
use amazon_echo_home_voice.Diagnostics.{gateway_failure}
use amazon_echo_home_voice.Diagnostics.Bounded.{IsBounded, gateway_failure-IsBounded}
use amazon_echo_home_voice.Gateway.Config.{from_env}
use amazon_echo_home_voice.Handler.Energy.{lambda_handler}
use amazon_echo_home_voice.Handler.Energy.Raises.{lambda_handler-raises}
use amazon_echo_home_voice.Handler.Quiet.{outside}
use amazon_echo_home_voice.Handler.Event.{
  application_id, is_skill_id, recent, session_of_skill, validate_event,
}
use amazon_echo_home_voice.Handler.Event.Checked.{IsForSkill, validate_event-IsForSkill}
use amazon_echo_home_voice.Handler.Text.{chosen_text, report_in}
use amazon_echo_home_voice.Handler.Energy.{home_of, read_report, within}
use amazon_echo_home_voice.Handler.Energy.Outcome.{IsInTime, read_report-IsInTime}
use amazon_echo_home_voice.Store.Tables.{Crypto}
use amazon_echo_home_voice.Webhook.{Verdict, Wsgi, refused}

abbrev plain : Crypto
plain = record { encrypt = λ e. 1 ∷ []; decrypt = λ bytes. none; digest = λ kind values. kind }

abbrev size : V.Reply → ℕ
size r = 400

-- No signature is verified.
abbrev deny : (certificate_url signature raw_body : String) → Verdict
deny certificate_url signature raw_body = refused

abbrev post : Wsgi
post = record {
  path = "/alexa";
  method = "POST";
  content_type = "application/json";
  content_length = some "1";
  certificate_url = "https://s3.amazonaws.com/echo.api/cert.pem";
  signature = "c2ln";
  input = 123 ∷ [];
}

event_run : Unit {0}
unfolding validate_event is_skill_id session_of_skill application_id recent find
event_run = tt

validate_event-IsForSkill_example : IsForSkill py skill 1_000_000 event launch
unfolding event_run
validate_event-IsForSkill_example = validate_event-IsForSkill py skill 1_000_000 event launch refl

gateway_failure-IsBounded_example : IsBounded (gateway_failure (gateway "Invalid voice mode"))
gateway_failure-IsBounded_example = gateway_failure-IsBounded (gateway "Invalid voice mode")

read_token-report_token_example :
    read_token (str (report_token "solar_today" true)) ≡ some ("solar_today", true)
read_token-report_token_example = read_token-report_token "solar_today" true refl

abbrev battery : MetricInfo
battery = record { metric = "battery_soc"; unit = "%"; title = "Battery charge" }

abbrev charge : Reading
charge = record { status = "fresh"; value = some (int (pos 80)); age = some 5; unit = "%" }

metric_run : Unit {0}
unfolding checked_metric disagrees differs reading shown_value fresh_value find num_lt num_le
metric_run = tt

checked_metric-IsShown_example : IsShown py battery true metric charge (int (pos 80))
unfolding metric_run
checked_metric-IsShown_example =
    checked_metric-IsShown py battery "battery" reports true metric charge (int (pos 80)) refl refl

-- A device with a screen.
abbrev screen : Json
screen =
    let interfaces = obj (field "Alexa.Presentation.APL" (obj end) end) in
    obj (
      field "context"
        (obj (
          field "System"
            (obj (field "device" (obj (field "supportedInterfaces" interfaces end)) end)) end))
        end)

abbrev answer : V.Reply
answer = record {
  speech = "All is well.";
  end_session = some true;
  reprompt = false;
  card = none;
  directive = none;
  attributes = some ("status", false);
}

abbrev shown : V.Directive
shown = record {
  token = "home-energy:v1:status:brief";
  title = "Energy status";
  panels = [];
  footer = "";
  interactive = true;
}

attach_run : Unit {0}
unfolding attach with_card with_screen drop_card drop_texts supports_apl find
attach_run = tt

attach-fits_example :
    (supports_apl screen ≡ true)
    × (size (
          attach py size screen answer "Energy status" [] "All is well." "" true
            "home-energy:v1:status:brief")
        ≤ max_reply_bytes)
unfolding attach_run
attach-fits_example =
    attach-fits py size screen answer "Energy status" [] "All is well." "" true
      "home-energy:v1:status:brief" (λ s. omega arith) refl shown refl

attach-SameAnswer_example : SameAnswer answer (
    attach py size screen answer "Energy status" [] "All is well." "" true
      "home-energy:v1:status:brief")
attach-SameAnswer_example =
    attach-SameAnswer py size screen answer "Energy status" [] "All is well." "" true
      "home-energy:v1:status:brief"

read_run : Unit {0}
unfolding fetch_run read_report home_of within from_env request_timeout timeout_at report_in
    chosen_text getenv
read_run = tt

-- A report of the home that the environment configures, with four seconds to go.
abbrev deadline : ℕ
deadline = 4_000_000

read_report-IsInTime_example :
    IsInTime py plain size personal event deadline cleaned world
      (read_report py plain size personal event (some deadline) "battery" false world).1
unfolding read_run
read_report-IsInTime_example =
    read_report-IsInTime py plain size personal event deadline "battery" false world cleaned
      (some "Battery at 80 percent.") refl

lambda_handler-raises_example : outside permission_error ≡ true
unfolding lambda_handler validate_event is_skill_id getenv milliseconds
lambda_handler-raises_example =
    lambda_handler-raises py plain size null none world permission_error refl
