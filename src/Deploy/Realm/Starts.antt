-- ===== src/Deploy/Realm/Starts.antt =====
-- The application starts with the values that a realm was generated from, as the clients of it.
use Prim.Native.String.{◌++◌ as append}
use amazon_echo_home_voice.Prelude.{
  All, List, String, [], ap, arith, false, is_some, leb, not, or_else, refl, some, str_eq, subst,
  sym, true, ℕ, ◌&&◌, ◌||◌, ◌∙◌, ◌∷◌, ◌≡◌,
}
use amazon_echo_home_voice.Python.{
  >>=-eq-ok, Fields, Python, Url, ensure->>=-eq-ok, len, ok, ok-injective,
}
use amazon_echo_home_voice.Oauth.{
  OAuthConfig, https_url, oauth_from_env, oauth_post_init, visible_text,
}
use amazon_echo_home_voice.Deploy.Realm.{
  Values, build_clients, build_realm, check_client, check_endpoints, endpoints, has_duplicate,
  has_redirect, realm_url, realm_urls, value_or,
}
use amazon_echo_home_voice.Deploy.Realm.Agrees.{
  realm_url-IsUrl, check_client-visible, check_endpoints-of, endpoint-https_url,
  realm_url-https_url,
}
use amazon_echo_home_voice.Deploy.Realm.Export.{Client, realm_json}

-- The configuration that oauth.py reads from the environment.
abbrev config_of : Values → ℕ → OAuthConfig
config_of environ timeout = record {
  issuer = or_else (environ "OAUTH_ISSUER") "";
  authorization_url = or_else (environ "OAUTH_AUTHORIZATION_URL") "";
  token_url = or_else (environ "OAUTH_TOKEN_URL") "";
  introspection_url = or_else (environ "OAUTH_INTROSPECTION_URL") "";
  alexa_client_id = or_else (environ "OAUTH_ALEXA_CLIENT_ID") "";
  alexa_client_secret = or_else (environ "OAUTH_ALEXA_CLIENT_SECRET") "";
  portal_client_id = or_else (environ "OAUTH_PORTAL_CLIENT_ID") "";
  portal_client_secret = or_else (environ "OAUTH_PORTAL_CLIENT_SECRET") "";
  portal_redirect_uri = or_else (environ "OAUTH_PORTAL_REDIRECT_URI") "";
  timeout_seconds = timeout;
}

abbrev alexa_client : OAuthConfig → List String → Client
alexa_client c redirects = record {
  id = c.alexa_client_id;
  secret = c.alexa_client_secret;
  redirects = redirects;
  is_alexa = true;
}

abbrev portal_client : OAuthConfig → Client
portal_client c = record {
  id = c.portal_client_id;
  secret = c.portal_client_secret;
  redirects = c.portal_redirect_uri ∷ [];
  is_alexa = false;
}

-- What urlsplit makes of the endpoints: their path is longer than the issuer's.
abbrev pub Extends : Python → (issuer : String) → Type 0
Extends py issuer =
    (parts : Url)
    → py.urlsplit issuer ≡ some parts
    → All
        (λ (e : String × String).
          (path : String) × (py.urlsplit (append issuer e.1) ≡ some (record parts { path = path })))
        endpoints

module _ (py : Python) where
  -- The application's configuration, the two clients of the realm, which are its own, and that they are
  -- different.
  pub record IsServed (environ : Values) (redirects : List String) (realm : Fields) : Type 0 where
    pub config : OAuthConfig
    pub started : oauth_from_env py environ ≡ ok config
    pub clients : realm_json (alexa_client config redirects) (portal_client config) ≡ realm
    pub ids : str_eq config.alexa_client_id config.portal_client_id ≡ false
    pub secrets : str_eq config.alexa_client_secret config.portal_client_secret ≡ false

  -- The parts of what was accepted.
  record IsBuilt (environ : Values) (redirects : List String) (c : OAuthConfig) (realm : Fields)
      : Type 0 where
    parts : Url
    issuer : realm_url py c.issuer ≡ ok parts
    addresses : check_endpoints environ c.issuer endpoints ≡ ok tt
    portal_parts : Url
    portal : realm_url py c.portal_redirect_uri ≡ ok portal_parts
    first : check_client c.alexa_client_id c.alexa_client_secret ≡ ok tt
    second : check_client c.portal_client_id c.portal_client_secret ≡ ok tt
    different :
        not (
          str_eq c.alexa_client_id c.portal_client_id
          || str_eq c.alexa_client_secret c.portal_client_secret)
        ≡ true
    made : realm_json (alexa_client c redirects) (portal_client c) ≡ realm

  build_realm-IsBuilt :
      (environ : Values) (redirects : List String) (timeout : ℕ) (realm : Fields)
      → build_realm py environ redirects ≡ ok realm
      → IsBuilt environ redirects (config_of environ timeout) realm
  unfolding build_realm build_clients
  build_realm-IsBuilt environ redirects timeout realm h =
      let c = config_of environ timeout in
      let (clients, k, m) = >>=-eq-ok (build_clients py environ redirects) _ h in
      let (n, h1) =
        ensure->>=-eq-ok (has_redirect redirects && not (has_duplicate redirects)) _ _ k in
      let (u, all_urls, h2) = >>=-eq-ok (realm_urls py redirects) _ h1 in
      let (parts, issuer, h3) = >>=-eq-ok (realm_url py c.issuer) _ h2 in
      let (path, h4) = ensure->>=-eq-ok (str_eq parts.path "/realms/home-energy") _ _ h3 in
      let origin = append parts.scheme (append "://" parts.netloc) in
      let (host, h5) =
        ensure->>=-eq-ok (str_eq (value_or "KC_HOSTNAME" origin environ) origin) _ _ h4 in
      let (v, addresses, h6) = >>=-eq-ok (check_endpoints environ c.issuer endpoints) _ h5 in
      let (portal_parts, portal, h7) = >>=-eq-ok (realm_url py c.portal_redirect_uri) _ h6 in
      let (callback, h8) = ensure->>=-eq-ok (str_eq portal_parts.path "/callback") _ _ h7 in
      let (w, first, h9) = >>=-eq-ok (check_client c.alexa_client_id c.alexa_client_secret) _ h8 in
      let (x, second, h10) =
        >>=-eq-ok (check_client c.portal_client_id c.portal_client_secret) _ h9 in
      let (different, h11) =
        ensure->>=-eq-ok
          (not (
            str_eq c.alexa_client_id c.portal_client_id
            || str_eq c.alexa_client_secret c.portal_client_secret))
          _ _ h10 in
      record {
        parts = parts;
        issuer = issuer;
        addresses = addresses;
        portal_parts = portal_parts;
        portal = portal;
        first = first;
        second = second;
        different = different;
        made = ap (λ p. realm_json p.0 p.1) (ok-injective h11) ∙ ok-injective m;
      }

  -- The checks of the application's configuration, one by one.
  post_init-of :
      (c : OAuthConfig)
      → https_url py c.issuer ≡ true
      → https_url py c.authorization_url ≡ true
      → https_url py c.token_url ≡ true
      → https_url py c.introspection_url ≡ true
      → https_url py c.portal_redirect_uri ≡ true
      → (visible_text 255 c.alexa_client_id ≡ true)
        × (visible_text 4096 c.alexa_client_secret ≡ true)
      → (visible_text 255 c.portal_client_id ≡ true)
        × (visible_text 4096 c.portal_client_secret ≡ true)
      → str_eq c.alexa_client_id c.portal_client_id ≡ false
      → (leb 100_000 c.timeout_seconds && leb c.timeout_seconds 2_000_000) ≡ true
      → oauth_post_init py c ≡ ok c
  unfolding oauth_post_init
  post_init-of c a b d e f g h n t = rw (a, b, d, e, f, g.0, g.1, h.0, h.1, n, t) refl

  -- A realm that is generated from the values of an environment, in which the endpoints are set, is
  -- one that the application agrees with: it starts with these values, and the realm is the one of
  -- the client ids, the secrets and the redirect addresses that the application has, the two
  -- clients with different ids and secrets. Assumed: the issuer has at most 2000 characters, urlsplit
  -- finds a longer path in an endpoint and nothing else changed, and the time-out is in bounds.
  pub build_realm-IsServed :
      (environ : Values) (redirects : List String) (realm : Fields) (timeout : ℕ)
      → build_realm py environ redirects ≡ ok realm
      → leb (len (or_else (environ "OAUTH_ISSUER") "")) 2000 ≡ true
      → is_some (environ "OAUTH_AUTHORIZATION_URL") ≡ true
      → is_some (environ "OAUTH_TOKEN_URL") ≡ true
      → is_some (environ "OAUTH_INTROSPECTION_URL") ≡ true
      → Extends py (or_else (environ "OAUTH_ISSUER") "")
      → py.parse_seconds (or_else (environ "OAUTH_TIMEOUT_SECONDS") "2") ≡ some timeout
      → (leb 100_000 timeout && leb timeout 2_000_000) ≡ true
      → IsServed environ redirects realm
  unfolding oauth_from_env
  build_realm-IsServed environ redirects realm timeout h short a t i extends p bounds =
      let c = config_of environ timeout in
      let b = build_realm-IsBuilt environ redirects timeout realm h in
      let split = extends b.parts (realm_url-IsUrl py c.issuer b.parts b.issuer).1 in
      let (pa, sa) = split.0 in
      let (pt, st) = split.1.0 in
      let (pi, si) = split.1.1.0 in
      let (ea, h1) = check_endpoints-of environ c.issuer _ _ _ b.addresses a in
      let (et, h2) = check_endpoints-of environ c.issuer _ _ _ h1 t in
      let (ei, h3) = check_endpoints-of environ c.issuer _ _ _ h2 i in
      let different : str_eq c.alexa_client_id c.portal_client_id ≡ false =
        ground (arith, b.different) in
      let url = λ (v : String). https_url py v ≡ true in
      record {
        config = c;
        started = rw (p) (
            post_init-of c (realm_url-https_url py c.issuer b.parts b.issuer)
              (subst url (sym ea)
                (endpoint-https_url py c.issuer _ pa b.parts b.issuer short refl sa))
              (subst url (sym et)
                (endpoint-https_url py c.issuer _ pt b.parts b.issuer short refl st))
              (subst url (sym ei)
                (endpoint-https_url py c.issuer _ pi b.parts b.issuer short refl si))
              (realm_url-https_url py c.portal_redirect_uri b.portal_parts b.portal)
              (check_client-visible _ _ b.first) (check_client-visible _ _ b.second) different
              bounds);
        clients = b.made;
        ids = different;
        secrets = ground (arith, b.different);
      }
