-- ===== src/Handler/Intents.antt =====
-- The intents of lambda_handler.py: which report a request asks for.
use amazon_echo_home_voice.Python.{
  Fields, Json, Result, as_bool, as_fields, as_str, get, ok, permission_error, raised, required,
  ◌>>=◌,
}
use amazon_echo_home_voice.Prelude.{
  Bool, List, Option, String, [], false, if◌then◌else◌, map, none, one_of, or_else, some, str_eq,
  ◌||◌, ◌∷◌,
}
use amazon_echo_home_voice.Visuals.{entry}
use amazon_echo_home_voice.Visuals.Screen.{user_event_selection}

-- INTENTS
abbrev pub intents : List (String × String)
intents =
    ("BatteryIntent", "battery")
    ∷ ("SolarIntent", "solar")
    ∷ ("SolarTodayIntent", "solar_today")
    ∷ ("AlarmStatusIntent", "alarms")
    ∷ ("StatusIntent", "status")
    ∷ ("EnergyFlowIntent", "flow")
    ∷ []

-- INTENTS.values()
abbrev pub reports_of_intents : List String
reports_of_intents = map (λ p. p.1) intents

-- The report and the detail that a session's attributes hold.
unfoldable pub attribute_selection : Fields → Option (String × Bool)
attribute_selection attributes = elim (as_str (get "energy_report" attributes)) [
  | none ↦ none
  | some report ↦ elim (as_bool (get "energy_detail" attributes)) [
    | none ↦ none
    | some detail ↦ if one_of reports_of_intents report then some (report, detail) else none
  ]
]

abbrev pub object_member : String → Option Fields → Option Fields
object_member k none = none
object_member k (some fs) = as_fields (get k fs)

-- _selection
unfoldable pub selection : Fields → String × Bool
selection event = elim (object_member "attributes" (object_member "session" (some event))) [
  | none ↦ ("status", false)
  | some attributes ↦ or_else (attribute_selection attributes) ("status", false)
]

-- What a request asks for: to end, for help, for a report with or without its details, or for
-- something that the skill does not do.
pub data Wish : Type 0 where
  goodbye help other : Wish
  report : String → Bool → Wish

-- The branches of `lambda_handler` on an intent's name; `detailed` comes from a screen action.
unfoldable pub wish_of : Fields → (name : String) → (detailed : Bool) → Wish
wish_of event name detailed =
    if one_of ("AMAZON.StopIntent" ∷ "AMAZON.CancelIntent" ∷ []) name
    then goodbye
    else if one_of ("AMAZON.HelpIntent" ∷ "AMAZON.FallbackIntent" ∷ []) name
    then help
    else if one_of ("DetailsIntent" ∷ "AMAZON.RepeatIntent" ∷ "RefreshIntent" ∷ []) name
    then report (selection event).0 (str_eq name "DetailsIntent" || (selection event).1)
    else elim (entry name intents) [ none ↦ other | some selected ↦ report selected detailed ]

-- The kinds of request; a screen action's report is one of INTENTS.
unfoldable pub requested : Json → Fields → (request : Fields) → Result Wish
requested event fields request = elim (as_str (get "type" request)) [
  | none ↦ raised permission_error
  | some kind ↦
      if str_eq kind "LaunchRequest"
      then ok (wish_of fields "StatusIntent" false)
      else if str_eq kind "IntentRequest"
      then (required (as_fields (get "intent" request)) permission_error >>= λ intent.
          required (as_str (get "name" intent)) permission_error >>= λ name.
          ok (wish_of fields name false))
      else if str_eq kind "Alexa.Presentation.APL.UserEvent"
      then (user_event_selection event request >>= λ chosen. ok (report chosen.0 chosen.1))
      else raised permission_error
]
