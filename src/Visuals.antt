-- ===== src/Visuals.antt =====
-- visuals.py: the response, its card and its screen, attached within the relay's size limit.
pub mod Screen
pub mod Metric
pub mod Report
pub mod Attach
pub mod Fits
pub mod Readings
use amazon_echo_home_voice.Prelude.{
  Bool, List, Option, String, [], if◌then◌else◌, none, some, str_eq, ℕ, ◌∷◌,
}
use amazon_echo_home_voice.Gateway.Payload.{report_names}

pub data Card : Type 0 where
  simple : (title content : String) → Card
  link_account : Card

-- One report panel of the screen.
pub record Panel : Type 0 where
  pub title : String
  pub status : String
  pub color : String
  pub text : String
  pub value : String
  pub age : String

-- The RenderDocument directive, less its constant document.
pub record Directive : Type 0 where
  pub token : String
  pub title : String
  pub panels : List Panel
  pub footer : String
  pub interactive : Bool

-- The response object: `end_session` is `none` where `shouldEndSession` is left out, and
-- `attributes` is the report and detail that the session keeps.
pub record Reply : Type 0 where
  pub speech : String
  pub end_session : Option Bool
  pub reprompt : Bool
  pub card : Option Card
  pub directive : Option Directive
  pub attributes : Option (String × Bool)

abbrev pub max_reply_bytes : ℕ
max_reply_bytes = 16384

abbrev pub long_report_text : String
long_report_text = "This report is too long to display. Listen to the spoken answer."

abbrev pub token_prefix : String
token_prefix = "home-energy:v1:"

-- REPORT_TITLES
abbrev pub report_titles : List (String × String)
report_titles =
    ("battery", "Battery")
    ∷ ("solar", "Solar power")
    ∷ ("solar_today", "Solar energy today")
    ∷ ("alarms", "Alarms")
    ∷ ("status", "Energy status")
    ∷ ("flow", "Power flow")
    ∷ []

-- STATUS_LABELS and STATUS_COLORS
abbrev pub status_labels : List (String × String)
status_labels =
    ("fresh", "Current data")
    ∷ ("stale", "Stale data")
    ∷ ("unavailable", "Data unavailable")
    ∷ ("unconfigured", "Not configured")
    ∷ []

abbrev pub status_colors : List (String × String)
status_colors =
    ("fresh", "#65D9E8")
    ∷ ("stale", "#FFD182")
    ∷ ("unavailable", "#FFD182")
    ∷ ("unconfigured", "#CAD5E0")
    ∷ []

-- table[key], `none` for KeyError
abbrev pub entry {ℓ} : {A : Type ℓ} → String → List (String × A) → Option A
entry k [] = none
entry k ((j, v) ∷ rest) = let other = entry k rest in if str_eq j k then some v else other
