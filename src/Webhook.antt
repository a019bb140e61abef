-- ===== src/Webhook.antt =====
-- webhook.py: the WSGI application. The signature check of the Alexa SDK is a parameter; what it
-- spends of the deadline is a delay of the clock.
pub mod Guarded
use amazon_echo_home_voice.Python.{
  Exn, Json, Python, Result, before, foreign, gateway, gateway_error, key_error, len, nonempty, ok,
  permission_error, raised, recursion_error, required, transient_gateway_error, type_error,
  unicode_error, value_error,
}
use amazon_echo_home_voice.Prelude.{
  Bool, List, Option, String, false, if◌then◌else◌, leb, length, ltb, none, not, or_else, some,
  str_eq, take, true, ℕ, ◌&&◌, ◌++◌, ◌+◌, ◌==◌, ◌||◌,
}
use amazon_echo_home_voice.World.{
  Exec, Reply, World, check, getenv, lift, milliseconds, monotonic, pure, raise, ◌>>=◌, ◌>>◌,
}
use Prim.Native.String.{◌++◌ as append}
use amazon_echo_home_voice.UniqueKeys.{unique_object, with_hook}
use amazon_echo_home_voice.Gateway.Response.{Response}
use amazon_echo_home_voice.Store.Tables.{Crypto}
use amazon_echo_home_voice.Visuals as V
use amazon_echo_home_voice.Handler.Event.{validate_event}
use amazon_echo_home_voice.Handler.Energy.{Answer, lambda_handler}

abbrev pub max_request_bytes : ℕ
max_request_bytes = 32768

-- 5 seconds
abbrev pub voice_budget : ℕ
voice_budget = 5_000_000

-- The members of the WSGI environment that are read, with the defaults of `environ.get`, and the
-- bytes that `wsgi.input` has.
pub record Wsgi : Type 0 where
  pub path : String
  pub method : String
  pub content_type : String
  pub content_length : Option String
  pub certificate_url : String
  pub signature : String
  pub input : List ℕ

-- The SDK accepts the signature, is not installed, or raises another exception.
pub data Verdict : Type 0 where
  verified missing refused : Verdict

pub data Content : Type 0 where
  health : (skill_configured : Bool) → Content
  problem : String → Content
  response : Answer → Content

pub record Page : Type 0 where
  pub status : String
  pub content : Content

abbrev pub invalid_request : Page
invalid_request = record { status = "400 Bad Request"; content = problem "Invalid Alexa request" }

abbrev pub not_found : Page
not_found = record { status = "404 Not Found"; content = problem "Not found" }

abbrev pub post_required : Page
post_required = record { status = "405 Method Not Allowed"; content = problem "POST required" }

-- bool(os.environ.get("ASK_SKILL_ID"))
abbrev is_configured : Option String → Bool
is_configured none = false
is_configured (some s) = nonempty s

abbrev pub health_page : Option String → Page
health_page skill_id = record { status = "200 OK"; content = health (is_configured skill_id) }

-- except (ValueError, TypeError, UnicodeError, KeyError, GatewayError, PermissionError)
abbrev pub is_invalid_request : Exn → Bool
is_invalid_request (gateway_error m c) = true
is_invalid_request (transient_gateway_error m c) = true
is_invalid_request permission_error = true
is_invalid_request (foreign value_error) = true
is_invalid_request (foreign type_error) = true
is_invalid_request (foreign unicode_error) = true
is_invalid_request (foreign key_error) = true
is_invalid_request e = false

-- The part of `_download_certificate` that follows the request.
unfoldable pub certificate_body : Response → Result (List ℕ)
certificate_body answer =
    let body = take 16385 answer.body in
    if not (answer.status == 200) || ltb 16384 (length body)
    then raised (foreign value_error)
    else ok body

module _ (py : Python) (crypto : Crypto) (size : V.Reply → ℕ)
    (verify : (certificate_url signature raw_body : String) → Verdict) where
  -- The checks of the headers and the body, which need no clock.
  abbrev pub is_json_request : Wsgi → Bool
  is_json_request r = str_eq (py.lower (before b';' r.content_type)) "application/json"

  abbrev pub has_signature : Wsgi → Bool
  has_signature r =
      nonempty r.certificate_url
      && nonempty r.signature
      && leb (len r.certificate_url) 8192
      && leb (len r.signature) 8192

  -- json.loads(raw_body, object_pairs_hook=_unique_object): a RecursionError is no ValueError
  unfoldable pub load_event : String → Exec Json
  load_event raw_body = do
    check (not (py.too_deep raw_body)) (foreign recursion_error)
    value ← lift (required (py.loads raw_body) (foreign value_error))
    lift (with_hook (unique_object (gateway "Invalid gateway response")) value)

  -- The first `try` block: the text of the body and the event.
  unfoldable pub read_event : Wsgi → Exec (String × Json)
  read_event r = do
    check (is_json_request r) (foreign value_error)
    content_length ←
        lift (required (py.parse_int (or_else r.content_length "0")) (foreign value_error))
    check (ltb 0 content_length && leb content_length max_request_bytes) (foreign value_error)
    check (has_signature r) (foreign value_error)
    let body = take content_length r.input
    check (length body == content_length) (foreign value_error)
    raw_body ← lift (required (py.decode body) (foreign unicode_error))
    event ← load_event raw_body
    environ ← getenv
    now ← milliseconds
    request ← lift (validate_event py (or_else (environ "ASK_SKILL_ID") "") now event)
    pure (raw_body, event)

  -- The last `try` block.
  unfoldable pub answer_page : Result Answer → Exec Page
  answer_page (ok answer) = pure (record { status = "200 OK"; content = response answer })
  answer_page (raised permission_error) = pure invalid_request
  answer_page (raised e) = raise e

  unfoldable pub handle_event : (deadline : ℕ) → Json → Exec Page
  handle_event deadline event w =
      let (r, w') = lambda_handler py crypto size event (some deadline) w in answer_page r w'

  unfoldable pub after_verdict : Verdict → (deadline : ℕ) → Json → Exec Page
  after_verdict verified deadline event = handle_event deadline event
  after_verdict missing deadline event =
      pure (record { status = "503 Service Unavailable"; content = problem "Verifier unavailable" })
  after_verdict refused deadline event = pure invalid_request

  unfoldable pub after_read : (deadline : ℕ) → Wsgi → Result (String × Json) → Exec Page
  after_read deadline r (ok (raw_body, event)) =
      after_verdict (verify r.certificate_url r.signature raw_body) deadline event
  after_read deadline r (raised e) = if is_invalid_request e then pure invalid_request else raise e

  unfoldable pub alexa : (deadline : ℕ) → Wsgi → Exec Page
  alexa deadline r w = let (found, w') = read_event r w in after_read deadline r found w'

  unfoldable pub route : (deadline : ℕ) → Wsgi → Exec Page
  route deadline r w =
      if str_eq r.path "/health" && str_eq r.method "GET"
      then (ok (health_page (w.environ "ASK_SKILL_ID")), w)
      else if not (str_eq r.path "/alexa")
      then (ok not_found, w)
      else if not (str_eq r.method "POST")
      then (ok post_required, w)
      else alexa deadline r w

  -- application
  unfoldable pub application : Wsgi → Exec Page
  application r = do started ← monotonic; route (started + voice_budget) r
