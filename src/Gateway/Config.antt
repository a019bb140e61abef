-- ===== src/Gateway/Config.antt =====
-- `GatewayConfig` of gateway.py: the checks of `__post_init__`, and `from_env`.
-- Timeouts are whole microseconds.
pub mod Safe
use Prim.Native.String.{◌++◌ as append}
use amazon_echo_home_voice.Prelude.{
  ℕ, pos, String, Bool, true, false, not, ◌&&◌, ◌||◌, bool_eq, Option, none, some, ltb, leb, ◌==◌,
  str_eq, is_some, or_else, if◌then◌else◌,
}
use amazon_echo_home_voice.Python.{
  Python, Url, Number, int, float, Float, num_le, Result, ok, raised, ensure, required, gateway,
  gateway_error, value_error, codes, len, all_chars, any_char, nonempty, between, ◌>>=◌, ◌>>◌,
}
use amazon_echo_home_voice.Gateway.Address.{public_hostname}

pub record GatewayConfig : Type 0 where
  pub url : String
  pub read_token : String
  pub cf_client_id : String
  pub cf_client_secret : String
  pub timeout_seconds : ℕ
  pub max_age_seconds : Number
  pub public_only : Bool

-- 0.1 and 4 seconds
abbrev pub min_timeout : ℕ
min_timeout = 100_000

abbrev pub max_timeout : ℕ
max_timeout = 4_000_000

-- _header_value
unfoldable pub header_value : String → String → Bool → Result (Unit {0})
header_value value name is_required =
    ensure
      (not (
        (is_required && not (nonempty value))
        || ltb 4096 (len value)
        || any_char (λ c. ltb c 33 || ltb 126 c) value))
      (gateway (append "Invalid " (append name " configuration")))

abbrev empty_text : Option String → Bool
empty_text none = true
empty_text (some s) = not (nonempty s)

abbrev default_port : Option (Option ℕ) → Bool
default_port none = false
default_port (some none) = true
default_port (some (some n)) = n == 443

module _ (py : Python) where
  -- The conjunction of `__post_init__`; a port that cannot be read is a ValueError.
  unfoldable pub url_parts : String → Url → Bool
  url_parts url parsed =
      str_eq parsed.scheme "https"
      && not (empty_text parsed.hostname)
      && not (is_some parsed.username)
      && not (is_some parsed.password)
      && str_eq parsed.path "/v1/energy"
      && not (nonempty parsed.query)
      && not (nonempty parsed.fragment)
      && default_port parsed.port
      && not (any_char (λ c. py.is_space c || ltb c 32) url)

  unfoldable pub valid_url : String → Bool
  valid_url url = elim (py.urlsplit url) [ none ↦ false | some parsed ↦ url_parts url parsed ]

  -- __post_init__
  unfoldable pub post_init : GatewayConfig → Result GatewayConfig
  post_init config = do
    ensure (valid_url config.url)
        (gateway "IGW_URL must be an HTTPS /v1/energy endpoint on port 443")
    header_value config.read_token "IGW_READ_TOKEN" true
    header_value config.cf_client_id "CF_ACCESS_CLIENT_ID" false
    header_value config.cf_client_secret "CF_ACCESS_CLIENT_SECRET" false
    ensure (bool_eq (nonempty config.cf_client_id) (nonempty config.cf_client_secret))
        (gateway "Cloudflare Access credentials must be configured together")
    ensure (leb min_timeout config.timeout_seconds && leb config.timeout_seconds max_timeout)
        (gateway "IGW_TIMEOUT_SECONDS must be between 0.1 and 4")
    ensure
        (num_le (int (pos 1)) config.max_age_seconds
          && num_le config.max_age_seconds (int (pos 60)))
        (gateway "IGW_MAX_AGE_SECONDS must be between 1 and 60")
    let hostname = public_hostname py config.url
    if config.public_only then (hostname >>= λ _. ok config) else ok config

  abbrev not_numeric : Result GatewayConfig
  not_numeric = raised (gateway_error "Invalid numeric gateway configuration" (some value_error))

  -- from_env
  unfoldable pub from_env : (String → Option String) → Result GatewayConfig
  from_env environ = do
    timeout ←
        required (py.parse_seconds (or_else (environ "IGW_TIMEOUT_SECONDS") "3"))
          (gateway_error "Invalid numeric gateway configuration" (some value_error))
    max_age ←
        required (py.parse_float (or_else (environ "IGW_MAX_AGE_SECONDS") "30"))
          (gateway_error "Invalid numeric gateway configuration" (some value_error))
    post_init (record {
      url = or_else (environ "IGW_URL") "";
      read_token = or_else (environ "IGW_READ_TOKEN") "";
      cf_client_id = or_else (environ "CF_ACCESS_CLIENT_ID") "";
      cf_client_secret = or_else (environ "CF_ACCESS_CLIENT_SECRET") "";
      timeout_seconds = timeout;
      max_age_seconds = float max_age;
      public_only = false;
    })
