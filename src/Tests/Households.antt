-- ===== src/Tests/Households.antt =====
-- Runs of the store and of the identity checks.
use amazon_echo_home_voice.Prelude.{
  List, String, [], ap, false, inr, none, pos, refl, some, sym, true, ◌∙◌, ◌∷◌, ◌≡◌, ◌≢◌,
}
use amazon_echo_home_voice.Store.Opening.{
  Disk, check_database, create_database, open_path, open_path-once,
}
use amazon_echo_home_voice.Python.{
  Fields, bool, end, field, find, int, invalid_token, num, num_le, num_lt, ok, ok-injective, raised,
  store_error, str, ◌>>=◌,
}
use amazon_echo_home_voice.Tests.Data.{config, noon, py, world}
use amazon_echo_home_voice.Oauth.{OAuthConfig}
use amazon_echo_home_voice.Store.Sessions.{Session}
use amazon_echo_home_voice.Portal.{submit}
use amazon_echo_home_voice.Portal.Input.{
  Browser, Pairs, form_of, params, single_values, text_of, value_of,
}
use amazon_echo_home_voice.Portal.Guarded.{IsRefused, submit-IsRefused}
use amazon_echo_home_voice.Gateway.Config.{post_init}
use amazon_echo_home_voice.Oauth.{visible_text}
use amazon_echo_home_voice.Oauth.Identity.{
  Identity, audience_claim, has_scope, identity_of, may_start, valid_claims,
}
use amazon_echo_home_voice.Oauth.Grant.{IsGrant, identity_of-IsGrant, identity_of-one_client}
use amazon_echo_home_voice.Store.Tables.{
  ConnectionRow, Crypto, FlowRow, Tables, connection_of, marker, no_rows,
}
use amazon_echo_home_voice.Store.Connections.{
  connection_row, opened, select_connection, upsert_connection,
}
use amazon_echo_home_voice.Store.Flows.{
  add_flow, delete_flow, flow_row, select_flow, take_flow, unexpired_flows, unexpired_sessions,
}
use amazon_echo_home_voice.Store.History.{Op, begin_login, consume_login, erase, run}
use amazon_echo_home_voice.Store.History.Once.{run-take_flow}
use amazon_echo_home_voice.Store.Isolation.{IsTaken, take_flow-IsTaken}
use amazon_echo_home_voice.Store.Capacity.{IsBegun, add_flow-IsBegun}
use amazon_echo_home_voice.Store.Kept.{opened-upsert}

-- An active token of the client "alexa".
abbrev grant : Fields
grant = field "active" (bool true) (
    field "iss" (str "https://id.example") (
      field "aud" (str "alexa") (
        field "client_id" (str "alexa") (
          field "sub" (str "ann")
            (field "exp" (num (int (pos 2000))) (field "scope" (str "energy.read") end))))))

abbrev ann : Identity
ann = record { subject = "ann"; issuer = "https://id.example"; expires_at = int (pos 2000) }

identity_run : Unit {0}
unfolding identity_of valid_claims may_start has_scope audience_claim visible_text find num_lt
    num_le
identity_run = tt

identity_of-IsGrant_example : IsGrant py "https://id.example" "alexa" "energy.read" noon grant ann
unfolding identity_run
identity_of-IsGrant_example =
    identity_of-IsGrant py "https://id.example" "alexa" "energy.read" noon noon grant ann refl

abbrev portal : String
portal = "portal"

abbrev alexa : String
alexa = "alexa"

portal_differs : portal ≢ alexa
portal_differs e = cc

identity_of-one_client_example :
    identity_of py "https://id.example" "portal" "energy.manage" noon noon grant
    ≡ raised invalid_token
unfolding identity_run
identity_of-one_client_example =
    identity_of-one_client py "https://id.example" "alexa" "portal" "energy.read" "energy.manage"
      noon noon noon noon grant ann refl portal_differs

-- Keys that spell their texts out, so that flows of different states have different ids.
abbrev pub plain : Crypto
plain = record {
  encrypt = λ e. 1 ∷ [];
  decrypt = λ bytes. none;
  digest = λ kind values. elim values [ [] ↦ kind | v ∷ vs ↦ v ];
}

abbrev flow : FlowRow
flow = flow_row plain "state" "verifier" "browser" 1000

abbrev begun : Tables
begun = record no_rows { flows = flow ∷ [] }

flow_run : Unit {0}
unfolding take_flow add_flow flow_row select_flow delete_flow unexpired_flows unexpired_sessions
flow_run = tt

abbrev after_login : List Op
after_login =
    begin_login "next" "verifier" "other" 1060
    ∷ consume_login "next" "other" 1070
    ∷ erase "owner"
    ∷ []

run-take_flow_example :
    take_flow plain "state" "other" 1100 (run plain after_login no_rows)
    ≡ ok (none, run plain after_login no_rows)
unfolding flow_run
run-take_flow_example =
    run-take_flow plain "state" "browser" "other" 1050 1100 begun no_rows flow after_login refl refl

take_flow-IsTaken_example : IsTaken plain "state" "browser" 1050 begun no_rows flow
unfolding flow_run
take_flow-IsTaken_example = take_flow-IsTaken plain "state" "browser" 1050 begun no_rows flow refl

add_flow-IsBegun_example : IsBegun plain "state" "browser" 1000 no_rows begun
unfolding flow_run
add_flow-IsBegun_example =
    add_flow-IsBegun plain "state" "verifier" "browser" 1000 no_rows begun tt refl

abbrev first : String
first = "ann"

abbrev second : String
second = "bob"

abbrev connection : ConnectionRow
connection = record { owner = "ann"; sealed = 1 ∷ [] }

-- A cipher that opens to the one connection that is saved.
abbrev one_home : Crypto
one_home = record plain { decrypt = λ bytes. some (connection_of first config) }

opened-upsert_example :
    (opened one_home py first (
        select_connection first
          (upsert_connection (connection_row one_home first config) (connection ∷ [])))
      ≡ (post_init py config >>= λ c. ok (some c)))
    × (first ≢ second
        → opened one_home py second (
            select_connection second
              (upsert_connection (connection_row one_home first config) (connection ∷ [])))
          ≡ opened one_home py second (select_connection second (connection ∷ [])))
opened-upsert_example =
    opened-upsert one_home py first second config (record no_rows { connections = connection ∷ [] })
      refl

-- A form of the portal that carries another token than the session's.
abbrev forged : Browser
forged = record {
  host = "portal.example";
  path = "/disconnect";
  method = "POST";
  query = "";
  cookie = "";
  origin = some "https://portal.example";
  content_type = "application/x-www-form-urlencoded";
  content_length = "1";
  input = 1 ∷ [];
}

abbrev signed_in : Session
signed_in = record {
  id = "session";
  issuer = "https://id.example";
  subject = "ann";
  access_token = "t";
  csrf = "portal";
  expires = 2000;
}

abbrev pub provider : OAuthConfig
provider = record {
  issuer = "https://id.example";
  authorization_url = "https://id.example/auth";
  token_url = "https://id.example/token";
  introspection_url = "https://id.example/introspect";
  alexa_client_id = "alexa";
  alexa_client_secret = "s1";
  portal_client_id = "portal";
  portal_client_secret = "s2";
  portal_redirect_uri = "https://portal.example/callback";
  timeout_seconds = 2_000_000;
}

other_token :
    (form : Pairs)
    → form_of py "https://portal.example" forged ≡ ok form
    → text_of "csrf" form ≢ "portal"
unfolding form_of params single_values value_of
other_token form e f =
    let same : ("csrf", "alexa") ∷ [] ≡ form = ok-injective e in
    portal_differs (sym (ap (text_of "csrf") same ∙ f))

submit-IsRefused_example :
    IsRefused world
      (submit py plain provider "https://portal.example" "token" signed_in forged world)
submit-IsRefused_example =
    submit-IsRefused py plain provider "https://portal.example" "token" signed_in forged world
      (inr other_token)

-- A cipher that opens to the marker, and a path where nothing is yet.
abbrev marked : Crypto
marked = record plain { decrypt = λ bytes. some marker }

abbrev fresh_disk : Disk
fresh_disk = record {
  absolute = true;
  symlink = false;
  parent = false;
  parent_symlink = false;
  parent_shared = false;
  exists = false;
  regular = false;
  shared = false;
  database = none;
}

abbrev created_disk : Disk
created_disk = record fresh_disk {
  parent = true;
  exists = true;
  regular = true;
  database = some (record { user_version = 1; sealed = some (1 ∷ []) });
}

open_path-once_example :
    (open_path marked false created_disk ≡ ok created_disk)
    × (open_path marked true created_disk ≡ raised store_error)
unfolding open_path create_database check_database
open_path-once_example = open_path-once marked fresh_disk created_disk refl refl
