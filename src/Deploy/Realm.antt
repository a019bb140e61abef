-- ===== src/Deploy/Realm.antt =====
-- deploy/multi-household/generate_realm.py: the realm that is imported into the identity provider.
-- The environment file is what `stat` and `read_text` say of it; the realm is written to a new file,
-- which is not modelled.
pub mod Export
pub mod Agrees
pub mod Starts
pub mod Reads
use Prim.Native.Char.{code}
use Prim.Native.String.{◌++◌ as append}
use amazon_echo_home_voice.Prelude.{
  Bool, List, Option, String, [], false, if◌then◌else◌, is_some, leb, ltb, none, not, one_of,
  or_else, some, str_eq, true, ℕ, ◌&&◌, ◌++◌, ◌==◌, ◌||◌, ◌∷◌,
}
use amazon_echo_home_voice.Python.{
  Exn, Fields, Python, Result, Url, all_chars, any_char, ensure, foreign, has_prefix, is_alnum,
  is_digit, is_upper, len, nonempty, ok, required, value_error, ◌>>=◌, ◌>>◌,
}
use amazon_echo_home_voice.Oauth.{is_443, some_host}
use amazon_echo_home_voice.Deploy.Realm.Export.{Client, realm_json}

-- A file: whether only its owner can read it, and its lines.
pub record File : Type 0 where
  pub is_private : Bool
  pub lines : List String

abbrev pub Values : Type 0
Values = String → Option String

abbrev pub value_error_ : Exn
value_error_ = foreign value_error

-- line.partition("="), `none` without a separator
unfoldable pub key_value : String → Option (String × String)
key_value String.[] = none
key_value (String.◌∷◌ c s) =
    let rest = key_value s in
    if code c == b'='
    then some ("", s)
    else elim rest [ none ↦ none | some (key, value) ↦ some (String.◌∷◌ c key, value) ]

abbrev pub starts_with : (ℕ → Bool) → String → Bool
starts_with p String.[] = false
starts_with p (String.◌∷◌ c s) = p (code c)

-- re.fullmatch(r"[A-Z][A-Z0-9_]*", key)
unfoldable pub is_key : String → Bool
is_key key = starts_with is_upper key && all_chars (λ c. is_upper c || is_digit c || c == b'_') key

-- not (value.startswith(("'", '"')) or "$" in value)
unfoldable pub is_literal : String → Bool
is_literal value =
    not (starts_with (λ c. c == 39 || c == 34) value) && not (any_char (λ c. c == b'$') value)

-- values[key] = value, over what was set before
abbrev pub set_value : String → String → Values → Values
set_value key value values = λ other. if str_eq other key then some value else values other

abbrev pub no_values : Values
no_values = λ key. none

-- values.update(os.environ)
abbrev pub updated : Values → Values → Values
updated values environ = λ key. elim (environ key) [ none ↦ values key | some v ↦ some v ]

-- values.get(key, default)
abbrev pub value_or : String → String → Values → String
value_or key default values = or_else (values key) default

-- The conjunction `valid` of `https_url`.
unfoldable pub realm_url_parts : String → Url → Bool
realm_url_parts value parts =
    str_eq parts.scheme "https"
    && some_host parts.hostname
    && is_443 parts.port
    && not (is_some parts.username)
    && not (is_some parts.password)
    && not (nonempty parts.query)
    && not (nonempty parts.fragment)
    && not (any_char (λ c. c == b'*') value)
    && not (any_char (λ c. c == 92) value)
    && not (any_char (λ c. c == b'?') value)
    && not (any_char (λ c. c == b'#') value)
    && not (any_char (λ c. c == b'%') parts.netloc)

module _ (py : Python) where
  -- The body of the loop over the lines. What is left of a line by `lstrip` starts as what is left
  -- by `strip`.
  unfoldable pub read_line : Values → String → Result Values
  read_line values line =
      if not (nonempty (py.strip line)) || has_prefix "#" (py.strip line)
      then ok values
      else (required (key_value line) value_error_ >>= λ p.
          ensure (is_key p.0) value_error_
          >> ensure (not (is_some (values p.0))) value_error_
          >> ensure (is_literal p.1) value_error_
          >> ok (set_value p.0 p.1 values))

  unfoldable pub read_lines : Values → List String → Result Values
  read_lines values [] = ok values
  read_lines values (line ∷ rest) = read_line values line >>= λ more. read_lines more rest

  -- read_env
  unfoldable pub read_env : Option File → Values → Result Values
  read_env none environ = ok (updated no_values environ)
  read_env (some file) environ =
      ensure file.is_private value_error_
      >> (read_lines no_values file.lines >>= λ values. ok (updated values environ))

  -- https_url, with the parts of the URL
  unfoldable pub realm_url : String → Result Url
  realm_url value = do
    ensure (leb 1 (len value) && leb (len value) 2048) value_error_
    ensure (not (any_char (λ c. ltb c 33 || ltb 126 c) value)) value_error_
    parts ← required (py.urlsplit value) value_error_
    ensure (realm_url_parts value parts) value_error_
    ok parts

  unfoldable pub realm_urls : List String → Result (Unit {0})
  realm_urls [] = ok tt
  realm_urls (value ∷ values) = let rest = realm_urls values in realm_url value >>= λ parts. rest

-- bool(redirects)
abbrev pub has_redirect : List String → Bool
has_redirect [] = false
has_redirect (s ∷ ss) = true

-- len(redirects) != len(set(redirects))
unfoldable pub has_duplicate : List String → Bool
has_duplicate [] = false
has_duplicate (s ∷ ss) = let later = has_duplicate ss in one_of ss s || later

-- re.fullmatch(r"[A-Za-z0-9_-]{low,high}", value)
abbrev pub is_word : (low high : ℕ) → String → Bool
is_word low high value =
    all_chars (λ c. is_alnum c || c == b'_' || c == b'-') value
    && leb low (len value)
    && leb (len value) high

unfoldable pub is_client_id : String → Bool
is_client_id = is_word 1 80

unfoldable pub is_secret : String → Bool
is_secret value = is_word 32 256 value && not (has_prefix "replace-with" value)

-- The endpoints, by their names and what follows the issuer.
abbrev pub endpoints : List (String × String)
endpoints =
    ("OAUTH_AUTHORIZATION_URL", "/protocol/openid-connect/auth")
    ∷ ("OAUTH_TOKEN_URL", "/protocol/openid-connect/token")
    ∷ ("OAUTH_INTROSPECTION_URL", "/protocol/openid-connect/token/introspect")
    ∷ []

unfoldable pub check_endpoints :
    Values → (issuer : String) → List (String × String) → Result (Unit {0})
check_endpoints values issuer [] = ok tt
check_endpoints values issuer ((name, suffix) ∷ rest) =
    let later = check_endpoints values issuer rest in
    ensure (str_eq (value_or name (append issuer suffix) values) (append issuer suffix))
      value_error_
    >> later

-- The checks in the loop over the roles.
unfoldable pub check_client : (id secret : String) → Result (Unit {0})
check_client id secret =
    ensure (is_client_id id) value_error_ >> ensure (is_secret secret) value_error_

module _ (py : Python) where
  -- The two clients of `build_realm`.
  unfoldable pub build_clients : Values → List String → Result (Client × Client)
  build_clients values redirects = do
    ensure (has_redirect redirects && not (has_duplicate redirects)) value_error_
    realm_urls py redirects
    let issuer = value_or "OAUTH_ISSUER" "" values
    parts ← realm_url py issuer
    ensure (str_eq parts.path "/realms/home-energy") value_error_
    let origin = append parts.scheme (append "://" parts.netloc)
    ensure (str_eq (value_or "KC_HOSTNAME" origin values) origin) value_error_
    check_endpoints values issuer endpoints
    let portal_redirect = value_or "OAUTH_PORTAL_REDIRECT_URI" "" values
    portal_parts ← realm_url py portal_redirect
    ensure (str_eq portal_parts.path "/callback") value_error_
    let alexa_id = value_or "OAUTH_ALEXA_CLIENT_ID" "" values
    let alexa_secret = value_or "OAUTH_ALEXA_CLIENT_SECRET" "" values
    check_client alexa_id alexa_secret
    let portal_id = value_or "OAUTH_PORTAL_CLIENT_ID" "" values
    let portal_secret = value_or "OAUTH_PORTAL_CLIENT_SECRET" "" values
    check_client portal_id portal_secret
    ensure (not (str_eq alexa_id portal_id || str_eq alexa_secret portal_secret)) value_error_
    ok (
      record { id = alexa_id; secret = alexa_secret; redirects = redirects; is_alexa = true },
      record {
        id = portal_id;
        secret = portal_secret;
        redirects = portal_redirect ∷ [];
        is_alexa = false;
      },
    )

  -- build_realm
  unfoldable pub build_realm : Values → List String → Result Fields
  build_realm values redirects = build_clients values redirects >>= λ c. ok (realm_json c.0 c.1)
