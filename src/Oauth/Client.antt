-- ===== src/Oauth/Client.antt =====
-- `OAuthClient` of oauth.py: one bounded request to the identity provider, introspection for either
-- client, the portal's login URL and the exchange of its code.
use amazon_echo_home_voice.Python.{
  Fields, Json, Number, Python, as_str, get, invalid_token, oauth_error, oauth_unavailable,
  required, str,
}
use amazon_echo_home_voice.Prelude.{Bool, String, [], false, leb, str_eq, true, ℕ, ◌+◌, ◌∷◌}
use amazon_echo_home_voice.World.{
  Exec, Post, Reply, check, late, lift, monotonic, next_provider, post, pure, wall_clock, ◌>>=◌,
  ◌>>◌,
}
use amazon_echo_home_voice.Oauth.{OAuthConfig, visible_text, visible_string}
use amazon_echo_home_voice.Oauth.Answer.{Purpose, introspection, authorization_code, request_json}
use amazon_echo_home_voice.Oauth.Pkce.{portal_scope, valid_verifier}
use amazon_echo_home_voice.Oauth.Identity.{Identity, identity_of}

abbrev pub max_access_token_length : ℕ
max_access_token_length = 8192

abbrev pub alexa_scope : String
alexa_scope = "energy:read"

pub record PortalLogin : Type 0 where
  pub identity : Identity
  pub access_token : String
  pub expires_at : Number

module _ (py : Python) where
  abbrev answered : Reply → Bool
  answered late = false
  answered _ = true

  module _ (config : OAuthConfig) where
    -- _post_json: at most one request, within the timeout of the configuration
    unfoldable pub post_json : Purpose → Post → Exec Fields
    post_json purpose request = do
      start ← monotonic
      exchange ← next_provider
      check exchange.slot oauth_unavailable
      post request
      waited ← monotonic
      check (answered exchange.reply) oauth_unavailable
      finished ← monotonic
      check (leb finished (start + config.timeout_seconds)) oauth_unavailable
      lift (request_json py purpose exchange.reply)

    -- _introspect
    unfoldable pub introspect : (client_id scope : String) → Json → Exec Identity
    introspect client_id scope access_token = do
      check (visible_string max_access_token_length access_token) invalid_token
      token ← lift (required (as_str access_token) invalid_token)
      payload ← post_json introspection (record {
        url = config.introspection_url;
        client = client_id;
        fields = ("token", token) ∷ ("token_type_hint", "access_token") ∷ [];
      })
      now ← wall_clock
      later ← wall_clock
      lift (identity_of py config.issuer client_id scope now later payload)

    unfoldable pub introspect_alexa : Json → Exec Identity
    introspect_alexa = introspect config.alexa_client_id alexa_scope

    unfoldable pub introspect_portal : Json → Exec Identity
    introspect_portal = introspect config.portal_client_id portal_scope

    abbrev is_bearer : Json → Bool
    is_bearer (str s) = str_eq (py.lower s) "bearer"
    is_bearer _ = false

    -- exchange_portal_code
    unfoldable pub exchange_portal_code : (code code_verifier : String) → Exec PortalLogin
    exchange_portal_code code code_verifier = do
      check (visible_text 4096 code) invalid_token
      check (valid_verifier code_verifier) oauth_error
      payload ← post_json authorization_code (record {
        url = config.token_url;
        client = config.portal_client_id;
        fields =
            ("grant_type", "authorization_code")
            ∷ ("code", code)
            ∷ ("redirect_uri", config.portal_redirect_uri)
            ∷ ("code_verifier", code_verifier)
            ∷ [];
      })
      check (visible_string max_access_token_length (get "access_token" payload)) oauth_unavailable
      check (is_bearer (get "token_type" payload)) oauth_unavailable
      token ← lift (required (as_str (get "access_token" payload)) oauth_unavailable)
      identity ← introspect_portal (str token)
      pure (record { identity = identity; access_token = token; expires_at = identity.expires_at })
