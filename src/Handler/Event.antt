-- ===== src/Handler/Event.antt =====
-- `validate_event` of lambda_handler.py: every request is checked before anything is done for it.
pub mod Checked
use amazon_echo_home_voice.Python.{
  Fields, Json, Python, Result, after_prefix, all_chars, as_fields, as_str, ensure, find, get,
  is_alnum, nonempty, ok, permission_error, required, ◌>>=◌, ◌>>◌,
}
use amazon_echo_home_voice.Prelude.{
  Bool, Option, String, false, leb, none, some, ℕ, ◌&&◌, ◌++◌, ◌+◌, ◌-◌, ◌==◌, ◌||◌,
}
use Prim.Native.String.{◌++◌ as append}
use amazon_echo_home_voice.Visuals.Screen.{text_is}

-- re.fullmatch(r"amzn1\.ask\.skill\.[A-Za-z0-9-]+", skill_id)
unfoldable pub is_skill_id : String → Bool
is_skill_id s = elim (after_prefix "amzn1.ask.skill." s) [
  | none ↦ false
  | some rest ↦ nonempty rest && all_chars (λ c. is_alnum c || c == b'-') rest
]

-- value[key]: KeyError and TypeError are both a PermissionError in the end.
abbrev pub item : String → Json → Result Json
item k v = do fs ← required (as_fields v) permission_error; required (find k fs) permission_error

-- event["..."]["application"]["applicationId"]
unfoldable pub application_id : Json → Result Json
application_id owner = do application ← item "application" owner; item "applicationId" application

-- A session names the skill too, if there is one.
abbrev pub of_session : String → Option Json → Result (Unit {0})
of_session skill_id none = ok tt
of_session skill_id (some session) =
    application_id session >>= λ id. ensure (text_is skill_id id) permission_error

unfoldable pub session_of_skill : String → Fields → Result (Unit {0})
session_of_skill skill_id event = of_session skill_id (find "session" event)

-- The distance of two instants, in milliseconds.
abbrev pub distance : ℕ → ℕ → ℕ
distance a b = (a - b) + (b - a)

module _ (py : Python) where
  -- datetime.fromisoformat(timestamp.replace("Z", "+00:00")), with a time zone and recent
  unfoldable pub recent : ℕ → String → Result (Unit {0})
  recent now timestamp = do
    instant ← required (py.fromisoformat (py.utc timestamp)) permission_error
    at ← required instant permission_error
    ensure (leb (distance now at) 150_000) permission_error

  -- validate_event, at an environment's ASK_SKILL_ID and a reading of the wall clock
  unfoldable pub validate_event : (skill_id : String) → (now : ℕ) → Json → Result Fields
  validate_event skill_id now event = do
    ensure (is_skill_id skill_id) permission_error
    fields ← required (as_fields event) permission_error
    ensure (text_is "1.0" (get "version" fields)) permission_error
    context ← item "context" event
    system ← item "System" context
    context_id ← application_id system
    ensure (text_is skill_id context_id) permission_error
    session_of_skill skill_id fields
    request ← item "request" event
    request_fields ← required (as_fields request) permission_error
    ensure (text_is "en-US" (get "locale" request_fields)) permission_error
    stamp ← required (find "timestamp" request_fields) permission_error
    timestamp ← required (as_str stamp) permission_error
    recent now timestamp
    ok request_fields
