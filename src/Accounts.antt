-- ===== src/Accounts.antt =====
-- accounts.py: the voice mode, the share of the deadline that each step may use, and the connection
-- of the household that a request belongs to.
pub mod Budget
use amazon_echo_home_voice.Python.{
  Exn, Json, Python, Result, as_fields, find, gateway, invalid_token, ok, raised, required,
  unconfigured_home, unlinked_account,
}
use amazon_echo_home_voice.Prelude.{
  Option, String, if◌then◌else◌, ltb, min, none, or_else, some, str_eq, ℕ, ◌-◌,
}
use amazon_echo_home_voice.World.{
  Exec, World, catch, getenv, lift, monotonic, pure, raise, ◌>>=◌, ◌>>◌,
}
use amazon_echo_home_voice.Gateway.Config.{GatewayConfig}
use amazon_echo_home_voice.Oauth.{OAuthConfig, oauth_from_env, oauth_post_init}
use amazon_echo_home_voice.Oauth.Identity.{Identity}
use amazon_echo_home_voice.Oauth.Client.{introspect_alexa}
use amazon_echo_home_voice.Store.Tables.{Crypto}
use amazon_echo_home_voice.Store.Access.{stored_connection}

pub data Mode : Type 0 where
  personal multi_household : Mode

-- mode
unfoldable pub mode : Option String → Result Mode
mode value =
    let s = or_else value "personal" in
    if str_eq s "personal"
    then ok personal
    else if str_eq s "multi_household"
    then ok multi_household
    else raised (gateway "Invalid voice mode")

-- 0.1 and 0.75 seconds
abbrev pub default_reserve : ℕ
default_reserve = 100_000

abbrev pub identity_reserve : ℕ
identity_reserve = 750_000

abbrev pub one_second : ℕ
one_second = 1_000_000

-- The test of `request_timeout`, at a reading of the clock.
unfoldable pub timeout_at : (deadline maximum reserve now : ℕ) → Result ℕ
timeout_at deadline maximum reserve now =
    let available = deadline - now - reserve in
    if ltb available 100_000
    then raised (gateway "Voice request timed out")
    else ok (min maximum available)

-- request_timeout
unfoldable pub request_timeout : Option ℕ → (maximum reserve : ℕ) → Exec ℕ
request_timeout none maximum reserve = pure maximum
request_timeout (some deadline) maximum reserve = do
  now ← monotonic
  lift (timeout_at deadline maximum reserve now)

-- event["context"]["System"]["user"]["accessToken"], `none` for KeyError or TypeError
abbrev pub member : String → Option Json → Option Json
member k none = none
member k (some v) = elim (as_fields v) [ none ↦ none | some fs ↦ find k fs ]

unfoldable pub access_token : Json → Option Json
access_token event =
    member "accessToken" (member "user" (member "System" (member "context" (some event))))

-- except InvalidToken: raise UnlinkedAccount()
unfoldable pub unlink : Exn → Exec Identity
unlink invalid_token = raise unlinked_account
unlink e = raise e

module _ (py : Python) (crypto : Crypto) where
  -- The configuration of the identity provider, with the time that is left for it.
  unfoldable pub provider_config : Option ℕ → Exec OAuthConfig
  provider_config none = do environ ← getenv; lift (oauth_from_env py environ)
  provider_config (some deadline) = do
    environ ← getenv
    config ← lift (oauth_from_env py environ)
    timeout ← request_timeout (some deadline) config.timeout_seconds identity_reserve
    lift (oauth_post_init py (record config { timeout_seconds = timeout }))

  -- The `try` block of `household_connection`.
  unfoldable pub linked_identity : Option ℕ → Json → Exec Identity
  linked_identity deadline token = do
    config ← provider_config deadline
    introspect_alexa py config token

  -- household_connection
  unfoldable pub household_connection : Json → Option ℕ → Exec GatewayConfig
  household_connection event deadline = do
    token ← lift (required (access_token event) unlinked_account)
    identity ← catch (linked_identity deadline token) unlink
    before_store ← request_timeout deadline one_second default_reserve
    connection ← stored_connection crypto py identity.issuer identity.subject
    after_store ← request_timeout deadline one_second default_reserve
    lift (required connection unconfigured_home)
