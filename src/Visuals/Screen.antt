-- ===== src/Visuals/Screen.antt =====
-- Screen support and screen actions: `supports_apl` and `user_event_selection` of visuals.py.
use amazon_echo_home_voice.Python.{
  Fields, Json, Result, after_prefix, arr, as_fields, cons, ensure, get, nil, obj, ok,
  permission_error, required, split, str, ◌>>=◌, ◌>>◌,
}
use amazon_echo_home_voice.Prelude.{
  Bool, List, Option, String, [], false, if◌then◌else◌, is_some, none, one_of, some, str_eq, true,
  ◌&&◌, ◌||◌, ◌∷◌,
}
use Prim.Native.String.{◌++◌ as append}
use amazon_echo_home_voice.Visuals.{token_prefix, report_titles, entry}

-- The walk of `supports_apl`: the value below a key, `none` where the value above is no object.
abbrev pub below : String → Option Json → Option Json
below k none = none
below k (some v) = elim (as_fields v) [ none ↦ none | some fs ↦ some (get k fs) ]

abbrev is_object : Json → Bool
is_object (obj fs) = true
is_object _ = false

unfoldable pub supports_apl : Json → Bool
supports_apl event =
    let interfaces =
      below "supportedInterfaces"
        (below "device" (below "System" (below "context" (some event)))) in
    elim interfaces [
      | none ↦ false
      | some v ↦ elim (as_fields v) [
        | none ↦ false
        | some fs ↦ is_object (get "Alexa.Presentation.APL" fs)
      ]
    ]

-- ACTIONS
abbrev pub actions : List String
actions = "refresh" ∷ "battery" ∷ "today" ∷ "details" ∷ []

-- isinstance(arguments, list) and len(arguments) == 1 and isinstance(arguments[0], str)
abbrev pub only_text : Json → Option String
only_text (arr (cons (str s) nil)) = some s
only_text _ = none

abbrev pub text_is : String → Json → Bool
text_is s (str t) = str_eq t s
text_is s _ = false

-- The source of the event is the button of this action.
unfoldable pub from_button : String → Json → Bool
from_button action (obj source) =
    text_is "TouchWrapper" (get "type" source)
    && text_is "Press" (get "handler" source)
    && text_is (append "energy_" action) (get "id" source)
from_button action _ = false

-- The report and the detail that a token carries.
unfoldable pub token_parts : List String → Option (String × Bool)
token_parts (report ∷ mode ∷ []) =
    if is_some (entry report report_titles) && one_of ("brief" ∷ "full" ∷ []) mode
    then some (report, str_eq mode "full")
    else none
token_parts _ = none

unfoldable pub read_token : Json → Option (String × Bool)
read_token (str token) = elim (after_prefix token_prefix token) [
  | none ↦ none
  | some rest ↦ token_parts (split b':' rest)
]
read_token _ = none

-- TOKEN_PREFIX + name + (":full" if detailed else ":brief")
unfoldable pub report_token : String → Bool → String
report_token name detailed =
    append token_prefix (append name (if detailed then ":full" else ":brief"))

-- The report that an action selects, given the report on the screen.
unfoldable pub selected_by : (action : String) → String × Bool → String × Bool
selected_by action (report, full) =
    if str_eq action "battery"
    then ("battery", false)
    else if str_eq action "today"
    then ("solar_today", false)
    else (report, str_eq action "details" || full)

-- user_event_selection, given the request of the event
unfoldable pub user_event_selection : Json → Fields → Result (String × Bool)
user_event_selection event request = do
  ensure (supports_apl event) permission_error
  action ← required (only_text (get "arguments" request)) permission_error
  ensure (one_of actions action) permission_error
  ensure (from_button action (get "source" request)) permission_error
  shown ← required (read_token (get "token" request)) permission_error
  ok (selected_by action shown)
