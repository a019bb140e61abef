-- ===== src/Portal.antt =====
-- portal.py: the routes of the portal, its login and its forms.
pub mod Input
pub mod Guarded
pub mod Connected
use amazon_echo_home_voice.Python.{
  Exn, Number, Python, Url, all_chars, bad_request, capacity_error, ensure, finite, float, foreign,
  gateway_error, invalid_token, nonempty, oauth_error, oauth_unavailable, ok, required, store_error,
  str, transient_gateway_error, value_error,
}
use amazon_echo_home_voice.Prelude.{
  Bool, List, Option, String, [], false, if◌then◌else◌, is_some, ltb, none, not, one_of, or_else,
  pos, some, str_eq, true, ℕ, ◌&&◌, ◌*◌, ◌++◌, ◌^◌, ◌||◌, ◌∷◌,
}
use amazon_echo_home_voice.World.{
  Exec, World, catch, check, getenv, lift, next_token, pure, raise, ◌>>=◌, ◌>>◌,
}
use Prim.Native.String.{◌++◌ as append}
use amazon_echo_home_voice.Gateway.Config.{GatewayConfig, post_init}
use amazon_echo_home_voice.Fetch.{fetch_energy}
use amazon_echo_home_voice.Oauth.{OAuthConfig, oauth_from_env}
use amazon_echo_home_voice.Oauth.Identity.{Identity}
use amazon_echo_home_voice.Oauth.Client.{exchange_portal_code, introspect_portal}
use amazon_echo_home_voice.Oauth.Pkce.{authorization_query}
use amazon_echo_home_voice.Store.Tables.{Crypto}
use amazon_echo_home_voice.Store.Access.{disconnect, stored_connection}
use amazon_echo_home_voice.Store.Flows.{consume_flow, create_flow}
use amazon_echo_home_voice.Store.Sessions.{
  Session, create_session, delete_session, save_connection_for_session, session,
}
use amazon_echo_home_voice.Portal.Input.{
  Browser, Pairs, cookies_of, form_of, only_keys, params, text_of, value_of,
}

-- The contents of the pages, less their HTML.
pub data Body : Type 0 where
  empty signed_out unverified gateway_refused busy services_down : Body
  own_home : (csrf : String) → (connected : Bool) → Body

-- `Location`: the portal itself, or the provider's login page with its query.
pub data Location : Type 0 where
  portal_root : Location
  provider_login : Pairs → Location

-- A cookie that is set: its name, its value and its age in seconds.
pub record Cookie : Type 0 where
  pub name : String
  pub value : String
  pub age : ℕ

pub record PortalPage : Type 0 where
  pub status : String
  pub body : Body
  pub location : Option Location
  pub cookies : List Cookie

abbrev pub session_cookie : String
session_cookie = "__Host-energy-session"

abbrev pub login_cookie : String
login_cookie = "__Host-energy-login"

-- _response without a location or cookies
abbrev pub plain_page : String → Body → PortalPage
plain_page status body = record { status = status; body = body; location = none; cookies = [] }

abbrev pub see_other : Location → List Cookie → PortalPage
see_other location cookies = record {
  status = "303 See Other";
  body = empty;
  location = some location;
  cookies = cookies;
}

-- _cookie
abbrev pub cookie : String → String → ℕ → Cookie
cookie name value age = record { name = name; value = value; age = age }

abbrev pub get_paths : List String
get_paths = "/" ∷ "/login" ∷ "/callback" ∷ []

abbrev pub post_paths : List String
post_paths = "/connection" ∷ "/disconnect" ∷ "/logout" ∷ []

abbrev pub expected_method : String → String
expected_method path = if one_of post_paths path then "POST" else "GET"

-- isascii()
abbrev pub is_ascii : String → Bool
is_ascii s = all_chars (λ c. ltb c 128) s

-- The default of GatewayConfig.max_age_seconds, 30.0
abbrev thirty : Number
thirty = float (finite (pos (30 * 2 ^ 1074)))

-- The `except` clauses.
unfoldable pub recover : Exn → Exec PortalPage
recover bad_request = pure (plain_page "400 Bad Request" unverified)
recover (gateway_error m c) = pure (plain_page "400 Bad Request" gateway_refused)
recover (transient_gateway_error m c) = pure (plain_page "400 Bad Request" gateway_refused)
recover capacity_error = pure (plain_page "429 Too Many Requests" busy)
recover oauth_error = pure (plain_page "503 Service Unavailable" services_down)
recover invalid_token = pure (plain_page "503 Service Unavailable" services_down)
recover oauth_unavailable = pure (plain_page "503 Service Unavailable" services_down)
recover store_error = pure (plain_page "503 Service Unavailable" services_down)
recover e = raise e

-- TenantStore.from_env()
unfoldable pub open_store : Exec (Unit {0})
open_store w = (ensure w.storage_up store_error, w)

abbrev signed_out_page : (path : String) → PortalPage
signed_out_page path = record {
  status = if str_eq path "/" then "200 OK" else "401 Unauthorized";
  body = signed_out;
  location = none;
  cookies = cookie session_cookie "" 0 ∷ [];
}

-- The configuration in the form of /connection.
abbrev pub home_in : Pairs → GatewayConfig
home_in form = record {
  url = text_of "url" form;
  read_token = text_of "read_token" form;
  cf_client_id = text_of "cf_client_id" form;
  cf_client_secret = text_of "cf_client_secret" form;
  timeout_seconds = 3_000_000;
  max_age_seconds = thirty;
  public_only = true;
}

-- The session's identity is asked for again, and has to be the one that the session was made for.
abbrev pub same_identity : Identity → Session → Exec (Option Session)
same_identity identity s =
    if str_eq identity.issuer s.issuer && str_eq identity.subject s.subject
    then pure (some s)
    else raise invalid_token

module _ (py : Python) (crypto : Crypto) (config : OAuthConfig) where
  -- except InvalidToken
  unfoldable pub forget : (token : String) → Exn → Exec (Option Session)
  forget token invalid_token = do delete_session crypto token; pure none
  forget token e = raise e

  unfoldable pub introspected : (token : String) → Option Session → Exec (Option Session)
  introspected token none = pure none
  introspected token (some s) =
      catch
        (introspect_portal py config (str s.access_token) >>= λ identity. same_identity identity s)
        (forget token)

  -- _authenticated
  unfoldable pub authenticated : (token : String) → Exec (Option Session)
  authenticated token = do found ← session crypto token; introspected token found

  -- The path /login.
  unfoldable pub login : Exec PortalPage
  login = do
    browser ← next_token
    verifier ← next_token
    state ← create_flow crypto verifier browser
    query ← lift (authorization_query py config state verifier)
    pure (see_other (provider_login query) (cookie login_cookie browser 300 ∷ []))

  abbrev drop_session : String → Exec (Unit {0})
  drop_session token = if nonempty token then delete_session crypto token else pure tt

  -- The path /callback: the login flow is consumed before the rest of the query is looked at.
  unfoldable pub callback : (query cookies : Pairs) → Exec PortalPage
  callback query cookies = do
    check
        (only_keys ("state" ∷ "code" ∷ "session_state" ∷ "iss" ∷ "error" ∷ "error_description" ∷ [])
          query)
        bad_request
    flow ← consume_flow crypto (text_of "state" query) (text_of login_cookie cookies)
    verifier ← lift (required flow bad_request)
    check
        (nonempty verifier
          && nonempty (text_of "code" query)
          && not (is_some (value_of "error" query))
          && str_eq (or_else (value_of "iss" query) config.issuer) config.issuer)
        bad_request
    signed_in ← exchange_portal_code py config (text_of "code" query) verifier
    drop_session (text_of session_cookie cookies)
    token ←
        create_session crypto signed_in.identity.issuer signed_in.identity.subject
          signed_in.access_token signed_in.expires_at
    pure (see_other portal_root (cookie session_cookie token 600 ∷ cookie login_cookie "" 0 ∷ []))

  -- The path /connection.
  unfoldable pub connect : (token : String) → Pairs → Exec PortalPage
  connect token form = do
    check
        (only_keys ("csrf" ∷ "url" ∷ "read_token" ∷ "cf_client_id" ∷ "cf_client_secret" ∷ []) form)
        bad_request
    home ← lift (post_init py (home_in form))
    payload ← fetch_energy py home
    save_connection_for_session crypto token home
    pure (see_other portal_root [])

  unfoldable pub leave : (path token : String) → Session → Pairs → Exec PortalPage
  leave path token s form = do
    check (only_keys ("csrf" ∷ []) form && is_some (value_of "csrf" form)) bad_request
    if str_eq path "/disconnect"
        then (disconnect crypto s.issuer s.subject >>= λ _. pure (see_other portal_root []))
        else (delete_session crypto token >>= λ _.
            pure (see_other portal_root (cookie session_cookie "" 0 ∷ [])))

  -- The forms: the session's own token comes first.
  unfoldable pub submit_form : (token : String) → Session → Browser → Pairs → Exec PortalPage
  submit_form token s r form = do
    check (is_ascii (text_of "csrf" form) && str_eq (text_of "csrf" form) s.csrf) bad_request
    if str_eq r.path "/connection" then connect token form else leave r.path token s form

  unfoldable pub submit : (origin token : String) → Session → Browser → Exec PortalPage
  submit origin token s r = do form ← lift (form_of py origin r); submit_form token s r form

  unfoldable pub account : (origin token : String) → Option Session → Browser → Exec PortalPage
  account origin token none r = pure (signed_out_page r.path)
  account origin token (some s) r =
      if str_eq r.path "/"
      then (stored_connection crypto py s.issuer s.subject >>= λ home.
          pure (plain_page "200 OK" (own_home s.csrf (is_some home))))
      else submit origin token s r

  -- The routes, after the host and the method.
  unfoldable pub routed : (origin : String) → Browser → Exec PortalPage
  routed origin r = do
    query ← lift (params py r.query)
    check (str_eq r.path "/callback" || not (is_some (value_of_any query))) bad_request
    open_store
    cookies ← lift (cookies_of py r)
    let token = text_of session_cookie cookies
    if str_eq r.path "/login"
        then login
        else if str_eq r.path "/callback"
        then callback query cookies
        else (authenticated token >>= λ found. account origin token found r)
    where
      value_of_any : Pairs → Option String
      value_of_any [] = none
      value_of_any (p ∷ ps) = some p.0

  unfoldable pub route : Url → Browser → Exec PortalPage
  route target r =
      if not (str_eq target.path "/callback" && str_eq (py.lower r.host) (py.lower target.netloc))
      then pure (plain_page "400 Bad Request" empty)
      else if not (one_of get_paths r.path || one_of post_paths r.path)
      then pure (plain_page "404 Not Found" empty)
      else if not (str_eq r.method (expected_method r.path))
      then pure (plain_page "405 Method Not Allowed" empty)
      else routed (append target.scheme (append "://" target.netloc)) r

module _ (py : Python) (crypto : Crypto) where
  -- The `try` block of `application`.
  unfoldable pub served : Browser → Exec PortalPage
  served r = do
    environ ← getenv
    config ← lift (oauth_from_env py environ)
    target ← lift (required (py.urlsplit config.portal_redirect_uri) (foreign value_error))
    route py crypto config target r

  abbrev is_multi_household : Option String → Bool
  is_multi_household none = false
  is_multi_household (some s) = str_eq s "multi_household"

  -- application
  unfoldable pub portal : Browser → Exec PortalPage
  portal r w =
      if is_multi_household (w.environ "ENERGY_VOICE_MODE")
      then catch (served r) recover w
      else (ok (plain_page "404 Not Found" empty), w)
