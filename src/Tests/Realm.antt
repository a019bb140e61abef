-- ===== src/Tests/Realm.antt =====
-- A run of the realm's generator and of the application's configuration on its values.
use amazon_echo_home_voice.Prelude.{
  All, List, String, [], false, if◌then◌else◌, map, none, refl, some, str_eq, subst, true, ◌∷◌, ◌≡◌,
}
use amazon_echo_home_voice.Python.{Fields, Python, Url, after_prefix, is_upper, ok}
use amazon_echo_home_voice.Tests.Data.{py}
use Prim.Native.String.{◌++◌ as append}
use amazon_echo_home_voice.Deploy.Realm.{
  read_env, starts_with, is_key, is_literal, endpoints, Values, build_clients, build_realm,
  check_client, check_endpoints, has_duplicate, is_client_id, is_secret, realm_url, realm_url_parts,
  realm_urls,
}
use amazon_echo_home_voice.Deploy.Realm.Reads.{
  entry_of, line_of, over, read_env-line_of, well_formed,
}
use amazon_echo_home_voice.Deploy.Realm.Starts.{Extends, IsServed, build_realm-IsServed}
use amazon_echo_home_voice.Deploy.Realm.Export.{realm_json}

abbrev host_of : (path : String) → Url
host_of path = record {
  scheme = "https";
  netloc = "id.example";
  hostname = some "id.example";
  username = none;
  password = none;
  path = path;
  query = "";
  fragment = "";
  port = some none;
}

abbrev urls : Python
urls = record py {
  urlsplit = λ s. elim (after_prefix "https://id.example" s) [
    | none ↦ none
    | some path ↦ some (host_of path)
  ];
  parse_seconds = λ s. some 2_000_000;
}

abbrev settings : List (String × String)
settings =
    ("OAUTH_ISSUER", "https://id.example/realms/home-energy")
    ∷ (
      "OAUTH_AUTHORIZATION_URL",
      "https://id.example/realms/home-energy/protocol/openid-connect/auth",
    )
    ∷ ("OAUTH_TOKEN_URL", "https://id.example/realms/home-energy/protocol/openid-connect/token")
    ∷ (
      "OAUTH_INTROSPECTION_URL",
      "https://id.example/realms/home-energy/protocol/openid-connect/token/introspect",
    )
    ∷ ("OAUTH_PORTAL_REDIRECT_URI", "https://id.example/callback")
    ∷ ("OAUTH_ALEXA_CLIENT_ID", "alexa")
    ∷ ("OAUTH_PORTAL_CLIENT_ID", "portal")
    ∷ ("OAUTH_ALEXA_CLIENT_SECRET", "abcdefghijklmnopqrstuvwxyz0123456789")
    ∷ ("OAUTH_PORTAL_CLIENT_SECRET", "zyxwvutsrqponmlkjihgfedcba9876543210")
    ∷ []

abbrev look_up : List (String × String) → Values
look_up [] key = none
look_up ((name, value) ∷ rest) key =
    let later = look_up rest key in if str_eq name key then some value else later

abbrev environ : Values
environ = look_up settings

abbrev redirects : List String
redirects = "https://id.example/a" ∷ "https://id.example/b" ∷ []

abbrev exported : Fields
exported =
    realm_json
      (record {
        id = "alexa";
        secret = "abcdefghijklmnopqrstuvwxyz0123456789";
        redirects = redirects;
        is_alexa = true;
      })
      (record {
        id = "portal";
        secret = "zyxwvutsrqponmlkjihgfedcba9876543210";
        redirects = "https://id.example/callback" ∷ [];
        is_alexa = false;
      })

built : build_realm urls environ redirects ≡ ok exported
unfolding build_realm build_clients check_client check_endpoints has_duplicate is_client_id
    is_secret realm_url realm_url_parts realm_urls
built = refl

extends : Extends urls "https://id.example/realms/home-energy"
extends parts h =
    let same : host_of "/realms/home-energy" ≡ parts = cc in
    subst
      (λ p.
        All
          (λ (e : String × String).
            (path : String) × (urls.urlsplit (append "https://id.example/realms/home-energy" e.1)
              ≡ some (record p { path = path })))
          endpoints)
      same ((_, refl), ((_, refl), ((_, refl), tt)))

build_realm-IsServed_example : IsServed urls environ redirects exported
build_realm-IsServed_example =
    build_realm-IsServed urls environ redirects exported 2_000_000 built refl refl refl refl extends
      refl refl

kept :
    (line : String) → starts_with is_upper line ≡ true → starts_with is_upper (py.strip line) ≡ true
kept line h = h

abbrev two_entries : List (String × String)
two_entries = ("OAUTH_ISSUER", "https://id.example") ∷ ("KC_HOSTNAME", "id") ∷ []

accepted : well_formed two_entries ≡ true
unfolding is_key is_literal
accepted = refl

read_env-line_of_example :
    (found : Values) × (read_env py
        (some (record { is_private = true; lines = map line_of two_entries }))
        environ
      ≡ ok found)
    × ((key : String) → found key ≡ over (environ key) (entry_of key two_entries))
read_env-line_of_example = read_env-line_of py kept two_entries environ accepted (refl, (refl, tt))
