-- ===== src/Oauth.antt =====
-- oauth.py: the configuration of the identity provider, and the checks of texts and numbers.
-- Timeouts are whole microseconds.
pub mod Identity
pub mod Answer
pub mod Pkce
pub mod Client
pub mod Grant
use amazon_echo_home_voice.Python.{
  Json, Python, Result, Url, all_chars, any_char, between, ensure, len, nonempty, num, oauth_error,
  ok, required, str, ◌>>=◌, ◌>>◌,
}
use amazon_echo_home_voice.Prelude.{
  Bool, Option, String, false, is_some, leb, ltb, none, not, or_else, some, str_eq, true, ℕ, ◌&&◌,
  ◌==◌,
}

pub record OAuthConfig : Type 0 where
  pub issuer : String
  pub authorization_url : String
  pub token_url : String
  pub introspection_url : String
  pub alexa_client_id : String
  pub alexa_client_secret : String
  pub portal_client_id : String
  pub portal_client_secret : String
  pub portal_redirect_uri : String
  pub timeout_seconds : ℕ

-- _visible_string, of a text
unfoldable pub visible_text : ℕ → String → Bool
visible_text maximum s = ltb 0 (len s) && leb (len s) maximum && all_chars (between 33 126) s

-- _visible_string
abbrev pub visible_string : ℕ → Json → Bool
visible_string maximum (str s) = visible_text maximum s
visible_string maximum _ = false

abbrev pub is_443 : Option (Option ℕ) → Bool
is_443 none = false
is_443 (some none) = true
is_443 (some (some n)) = n == 443

abbrev pub some_host : Option String → Bool
some_host none = false
some_host (some s) = nonempty s

-- The conjunction of `_https_url`.
unfoldable pub https_parts : String → Url → Bool
https_parts value parsed =
    str_eq parsed.scheme "https"
    && some_host parsed.hostname
    && not (is_some parsed.username)
    && not (is_some parsed.password)
    && is_443 parsed.port
    && not (nonempty parsed.query)
    && not (nonempty parsed.fragment)
    && not (any_char (λ c. c == b'?') value)
    && not (any_char (λ c. c == b'#') value)
    && not (any_char (λ c. c == b'%') parsed.netloc)

module _ (py : Python) where
  -- _finite_number
  abbrev pub finite_number : Json → Bool
  finite_number (num n) = or_else (py.isfinite n) false
  finite_number _ = false

  -- _https_url
  unfoldable pub https_url : String → Bool
  https_url value =
      visible_text 2048 value
      && not (any_char (λ c. c == 92) value)
      && elim (py.urlsplit value) [ none ↦ false | some parsed ↦ https_parts value parsed ]

  -- __post_init__
  unfoldable pub oauth_post_init : OAuthConfig → Result OAuthConfig
  oauth_post_init c = do
    ensure
        (https_url c.issuer
          && https_url c.authorization_url
          && https_url c.token_url
          && https_url c.introspection_url
          && https_url c.portal_redirect_uri)
        oauth_error
    ensure
        (visible_text 255 c.alexa_client_id
          && visible_text 255 c.portal_client_id
          && not (str_eq c.alexa_client_id c.portal_client_id))
        oauth_error
    ensure (visible_text 4096 c.alexa_client_secret && visible_text 4096 c.portal_client_secret)
        oauth_error
    ensure (leb 100_000 c.timeout_seconds && leb c.timeout_seconds 2_000_000) oauth_error
    ok c

  -- from_env
  unfoldable pub oauth_from_env : (String → Option String) → Result OAuthConfig
  oauth_from_env environ = do
    timeout ←
        required (py.parse_seconds (or_else (environ "OAUTH_TIMEOUT_SECONDS") "2")) oauth_error
    oauth_post_init (record {
      issuer = or_else (environ "OAUTH_ISSUER") "";
      authorization_url = or_else (environ "OAUTH_AUTHORIZATION_URL") "";
      token_url = or_else (environ "OAUTH_TOKEN_URL") "";
      introspection_url = or_else (environ "OAUTH_INTROSPECTION_URL") "";
      alexa_client_id = or_else (environ "OAUTH_ALEXA_CLIENT_ID") "";
      alexa_client_secret = or_else (environ "OAUTH_ALEXA_CLIENT_SECRET") "";
      portal_client_id = or_else (environ "OAUTH_PORTAL_CLIENT_ID") "";
      portal_client_secret = or_else (environ "OAUTH_PORTAL_CLIENT_SECRET") "";
      portal_redirect_uri = or_else (environ "OAUTH_PORTAL_REDIRECT_URI") "";
      timeout_seconds = timeout;
    })
