-- ===== src/Deploy/Realm/Export.antt =====
-- The JSON of the realm, as `build_realm` of deploy/multi-household/generate_realm.py writes it out.
use amazon_echo_home_voice.Python.{
  Fields, Items, Json, arr, bool, cons, end, field, int, nil, num, obj, str,
}
use amazon_echo_home_voice.Prelude.{Bool, List, String, [], false, if◌then◌else◌, pos, true, ◌∷◌}

-- What differs between the two clients.
pub record Client : Type 0 where
  pub id : String
  pub secret : String
  pub redirects : List String
  pub is_alexa : Bool

abbrev pub members : List (String × Json) → Fields
members [] = end
members ((key, value) ∷ rest) = field key value (members rest)

abbrev pub object : List (String × Json) → Json
object pairs = obj (members pairs)

abbrev text_items : List String → Items
text_items [] = nil
text_items (s ∷ ss) = cons (str s) (text_items ss)

abbrev pub texts : List String → Json
texts ss = arr (text_items ss)

-- Intended client audience
unfoldable pub audience_mapper : String → Json
audience_mapper id = object (
    ("name", str "Intended client audience")
    ∷ ("protocol", str "openid-connect")
    ∷ ("protocolMapper", str "oidc-audience-mapper")
    ∷ ("consentRequired", bool false)
    ∷ (
      "config",
      object (
          ("included.client.audience", str id)
          ∷ ("access.token.claim", str "true")
          ∷ ("id.token.claim", str "false")
          ∷ ("introspection.token.claim", str "true")
          ∷ []),
    )
    ∷ [])

-- Stable household subject
unfoldable pub subject_mapper : Json
subject_mapper = object (
    ("name", str "Stable household subject")
    ∷ ("protocol", str "openid-connect")
    ∷ ("protocolMapper", str "oidc-sub-mapper")
    ∷ ("consentRequired", bool false)
    ∷ (
      "config",
      object (("access.token.claim", str "true") ∷ ("introspection.token.claim", str "true") ∷ []),
    )
    ∷ [])

-- The dictionary of a client.
unfoldable pub client_fields : Client → Fields
client_fields c = members (
    ("clientId", str c.id)
    ∷ ("name", str (if c.is_alexa then "Home Energy Alexa" else "Home Energy connection portal"))
    ∷ ("protocol", str "openid-connect")
    ∷ ("enabled", bool true)
    ∷ ("publicClient", bool false)
    ∷ ("clientAuthenticatorType", str "client-secret")
    ∷ ("secret", str c.secret)
    ∷ ("standardFlowEnabled", bool true)
    ∷ ("implicitFlowEnabled", bool false)
    ∷ ("directAccessGrantsEnabled", bool false)
    ∷ ("serviceAccountsEnabled", bool false)
    ∷ ("fullScopeAllowed", bool false)
    ∷ ("consentRequired", bool c.is_alexa)
    ∷ ("redirectUris", texts c.redirects)
    ∷ ("webOrigins", arr nil)
    ∷ ("defaultClientScopes", arr nil)
    ∷ ("optionalClientScopes", texts (if c.is_alexa then "energy:read" ∷ [] else []))
    ∷ ("attributes", object (("pkce.code.challenge.method", str "S256") ∷ []))
    ∷ ("protocolMappers", arr (cons (audience_mapper c.id) (cons subject_mapper nil)))
    ∷ [])

-- The scope that Alexa asks for.
unfoldable pub energy_scope : Json
energy_scope = object (
    ("name", str "energy:read")
    ∷ ("description", str "Read the energy reports for the home connected to your account.")
    ∷ ("protocol", str "openid-connect")
    ∷ (
      "attributes",
      object (
          ("include.in.token.scope", str "true")
          ∷ ("display.on.consent.screen", str "true")
          ∷ ("consent.screen.text", str "Read energy reports for your connected home")
          ∷ []),
    )
    ∷ ("protocolMappers", arr nil)
    ∷ [])

-- The dictionary of the realm.
unfoldable pub realm_json : (alexa portal : Client) → Fields
realm_json alexa portal = members (
    ("realm", str "home-energy")
    ∷ ("displayName", str "Home Energy")
    ∷ ("enabled", bool true)
    ∷ ("sslRequired", str "all")
    ∷ ("registrationAllowed", bool false)
    ∷ ("resetPasswordAllowed", bool false)
    ∷ ("rememberMe", bool false)
    ∷ ("loginWithEmailAllowed", bool false)
    ∷ ("duplicateEmailsAllowed", bool false)
    ∷ ("editUsernameAllowed", bool false)
    ∷ ("bruteForceProtected", bool true)
    ∷ ("failureFactor", num (int (pos 5)))
    ∷ ("permanentLockout", bool false)
    ∷ ("maxFailureWaitSeconds", num (int (pos 900)))
    ∷ ("waitIncrementSeconds", num (int (pos 60)))
    ∷ ("minimumQuickLoginWaitSeconds", num (int (pos 60)))
    ∷ ("quickLoginCheckMilliSeconds", num (int (pos 1000)))
    ∷ ("maxDeltaTimeSeconds", num (int (pos 43200)))
    ∷ (
      "passwordPolicy",
      str "length(14) and notUsername(undefined) and hashAlgorithm(argon2) and hashIterations(5)",
    )
    ∷ ("accessTokenLifespan", num (int (pos 300)))
    ∷ ("accessCodeLifespan", num (int (pos 60)))
    ∷ ("accessCodeLifespanLogin", num (int (pos 300)))
    ∷ ("ssoSessionIdleTimeout", num (int (pos 2592000)))
    ∷ ("ssoSessionMaxLifespan", num (int (pos 7776000)))
    ∷ ("revokeRefreshToken", bool true)
    ∷ ("refreshTokenMaxReuse", num (int (pos 0)))
    ∷ ("eventsEnabled", bool false)
    ∷ ("adminEventsEnabled", bool false)
    ∷ ("clients", arr (cons (obj (client_fields alexa)) (cons (obj (client_fields portal)) nil)))
    ∷ ("clientScopes", arr (cons energy_scope nil))
    ∷ ("defaultDefaultClientScopes", arr nil)
    ∷ ("defaultOptionalClientScopes", arr nil)
    ∷ [])
