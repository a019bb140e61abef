-- ===== src/Tests/Deploy.antt =====
-- Runs of the tunnel's plan and of the identity images' check.
use amazon_echo_home_voice.Prelude.{
  String, [], false, none, refl, some, str_eq, true, ◌∷◌, ◌≡◌, ◌⊎◌,
}
use amazon_echo_home_voice.Python.{
  Fields, Json, Python, arr, assign, end, field, find, obj, ok, str,
}
use amazon_echo_home_voice.Tests.Data.{py}
use amazon_echo_home_voice.Deploy.Tunnel.{
  Matching, access_required, any_rule_of, candidate_config, check_origin, first_match, host_pattern,
  is_catch_all, is_true, local_origin, may_take, member_or_empty, refusal_rule, valid_hostname,
  webhook_rule, items_of,
}
use amazon_echo_home_voice.Deploy.Tunnel.Routes.{Cloudflared}
use amazon_echo_home_voice.Deploy.Tunnel.Plan.{IsRouted, candidate_config-IsRouted}
use amazon_echo_home_voice.Deploy.Compose.{
  Docker, Host, Images, Options, after_preflight, short_override, check_argument, check_arguments,
  check_image, checked_main, digest_of, is_reference, is_required, main, mark, preflight,
  run_compose, validate_command, validate_images,
}
use amazon_echo_home_voice.Deploy.Compose.Hardened.{IsGuarded, main-IsGuarded}
use amazon_echo_home_voice.Gateway.Address.{is_label}

abbrev connector : Python
connector = record py {
  urlsplit = λ s. some (record {
    scheme = "http";
    netloc = "127.0.0.1:8091";
    hostname = some "127.0.0.1";
    username = none;
    password = none;
    path = "";
    query = "";
    fragment = "";
    port = some (some 8091);
  });
}

-- Texts without wildcards.
abbrev exact : Matching
exact = record { fnmatchcase = λ name pattern. str_eq pattern name; rstrip_slash = λ s. s }

abbrev tunnel : Cloudflared
tunnel = record {
  host_matches = λ pattern host. str_eq pattern host;
  path_matches = λ pattern path. str_eq path "/alexa";
}

abbrev home_rule : Json
home_rule =
    obj (field "hostname" (str "home.example") (field "service" (str "http://10.0.0.2") end))

abbrev catch_all_rule : Json
catch_all_rule = obj (field "service" (str "http_status:404") end)

abbrev ingress : Fields
ingress = field "ingress" (arr (items_of (home_rule ∷ catch_all_rule ∷ []))) end

abbrev planned : Fields
planned =
    field "ingress"
      (arr (
        items_of (
          home_rule
          ∷ webhook_rule "voice.example" "http://127.0.0.1:8091"
          ∷ refusal_rule "voice.example"
          ∷ catch_all_rule
          ∷ [])))
      end

made_plan :
    candidate_config connector exact (obj ingress) "voice.example" "http://127.0.0.1:8091"
    ≡ ok (planned, 1)
unfolding candidate_config valid_hostname is_label check_origin local_origin find is_catch_all
    any_rule_of access_required member_or_empty is_true first_match may_take host_pattern assign
made_plan = refl

candidate_config-IsRouted_example :
    IsRouted connector exact tunnel ingress planned "voice.example" "http://127.0.0.1:8091"
      "home.example" "/alexa" 1
candidate_config-IsRouted_example =
    candidate_config-IsRouted connector exact tunnel ingress planned "voice.example"
      "http://127.0.0.1:8091" "home.example" "/alexa" 1 refl refl swap made_plan
  where
    swap :
        (pattern : String)
        → str_eq pattern "voice.example" ≡ true
        → str_eq pattern "voice.example" ≡ true
    swap pattern h = h

abbrev reviewed : Images
reviewed = record {
  keycloak =
      some
        "quay.io/keycloak@sha256:63e1248e81ff9d2136e6fa7bed9ce890b51d70a3b8a752f7933381e3ed1a40bc";
  postgres =
      some "postgres@sha256:461eebbbdae43e2bb4d33e8bdd0df63001be4f4c56c2231f093e469f035e639b";
}

abbrev docker : Docker
docker = record {
  configured = ok reviewed;
  current = ok (record { keycloak = none; postgres = none });
  status = λ command. 0;
}

abbrev host : Host
host = record {
  directory = record { exists = true; is_symlink = false; is_private = true };
  marker = true;
  marker_is_symlink = false;
  ran = [];
}

abbrev up : Options
up = record { require_hardened = false; rollback = false; command = "up" ∷ "-d" ∷ [] }

main-IsGuarded_example :
    ((main docker up host).1.ran ≡ host.ran) ⊎ IsGuarded docker up host reviewed
unfolding is_required
main-IsGuarded_example =
    main-IsGuarded docker up host reviewed (record { keycloak = none; postgres = none }) refl refl
      refl refl refl

-- The command ran.
up_runs : (main docker up host).1.ran ≡ ("up" ∷ "-d" ∷ []) ∷ []
unfolding main checked_main validate_command check_arguments check_argument preflight
    validate_images check_image is_required digest_of is_reference mark run_compose after_preflight
    short_override
up_runs = refl
