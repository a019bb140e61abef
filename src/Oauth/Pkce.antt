-- ===== src/Oauth/Pkce.antt =====
-- The login transaction of the portal: the checks of `state` and verifier, and the query of
-- `authorization_url` in oauth.py.
use amazon_echo_home_voice.Python.{
  Python, Result, all_chars, ensure, is_alnum, len, oauth_error, ok, ◌>>◌,
}
use amazon_echo_home_voice.Prelude.{Bool, List, String, [], leb, ◌&&◌, ◌==◌, ◌||◌, ◌∷◌}
use amazon_echo_home_voice.Oauth.{OAuthConfig}

abbrev pub portal_scope : String
portal_scope = "openid"

-- [A-Za-z0-9._~-]{43,128}
unfoldable pub valid_verifier : String → Bool
valid_verifier s =
    leb 43 (len s)
    && leb (len s) 128
    && all_chars (λ c. is_alnum c || c == b'.' || c == b'_' || c == b'~' || c == b'-') s

-- [A-Za-z0-9_-]{32,512}
unfoldable pub valid_state : String → Bool
valid_state s =
    leb 32 (len s) && leb (len s) 512 && all_chars (λ c. is_alnum c || c == b'_' || c == b'-') s

module _ (py : Python) (config : OAuthConfig) where
  -- authorization_url: the parameters of its query, in order
  unfoldable pub authorization_query :
      (state code_verifier : String) → Result (List (String × String))
  authorization_query state code_verifier = do
    ensure (valid_state state) oauth_error
    ensure (valid_verifier code_verifier) oauth_error
    ok (
        ("response_type", "code")
        ∷ ("client_id", config.portal_client_id)
        ∷ ("redirect_uri", config.portal_redirect_uri)
        ∷ ("scope", portal_scope)
        ∷ ("state", state)
        ∷ ("code_challenge", py.challenge code_verifier)
        ∷ ("code_challenge_method", "S256")
        ∷ [])
