-- ===== src/Deploy/Tunnel/Prepare.antt =====
-- `auth_headers`, `api_get` and `main` of scripts/prepare-tunnel-route.py: what is read, and the files
-- of a plan. The directory and the files are new, or the program fails; the file system is not
-- modelled further.
use amazon_echo_home_voice.Prelude.{
  Bool, List, Option, String, [], false, if◌then◌else◌, none, not, or_else, pos, some, str_eq, true,
  ℕ, ◌&&◌, ◌++◌, ◌==◌, ◌||◌, ◌∷◌,
}
use amazon_echo_home_voice.Python.{
  Exn, Fields, Json, Python, Result, all_chars, arr, as_fields, as_str, attribute_error, between,
  bool, cons, end, ensure, field, find, foreign, get, int, is_digit, key_error, len, nil, nonempty,
  num, obj, ok, os_error, plan_error, raised, required, split, str, type_error, value_error, ◌>>=◌,
  ◌>>◌,
}
use Prim.Native.String.{◌++◌ as append}
use amazon_echo_home_voice.Deploy.Tunnel.{Matching, candidate_config, is_true}

pub record Arguments : Type 0 where
  pub account_id : String
  pub zone_id : String
  pub tunnel_id : String
  pub connector_id : String
  pub hostname : String
  pub origin : String
  pub with_token : Bool

-- What the API answers to a GET of a path with headers; `raised` for HTTPError, URLError, OSError and
-- ValueError.
abbrev pub Api : Type 0
Api = String → List (String × String) → Result Json

abbrev hex : ℕ → Bool
hex c = is_digit c || between 97 102 c

-- re.fullmatch(r"[0-9a-f]{32}", value)
unfoldable pub is_hex_id : String → Bool
is_hex_id value = all_chars hex value && len value == 32

-- [0-9a-f]{n} for each of the lengths
abbrev pub hex_groups : List ℕ → List String → Bool
hex_groups [] [] = true
hex_groups [] (g ∷ gs) = false
hex_groups (n ∷ ns) [] = false
hex_groups (n ∷ ns) (g ∷ gs) = (all_chars hex g && len g == n) && hex_groups ns gs

-- re.fullmatch(r"[0-9a-f]{8}(?:-[0-9a-f]{4}){3}-[0-9a-f]{12}", value)
unfoldable pub is_uuid : String → Bool
is_uuid value = hex_groups (8 ∷ 4 ∷ 4 ∷ 4 ∷ 12 ∷ []) (split b'-' value)

-- auth_headers
unfoldable pub auth_headers :
    (with_token : Bool) → (String → Option String) → Result (List (String × String))
auth_headers with_token environ =
    let headers =
      ("Accept", "application/json") ∷ ("User-Agent", "IGWEnergyVoice-RoutingPlan/1.0") ∷ [] in
    let token = or_else (environ "CLOUDFLARE_API_TOKEN") "" in
    let key = or_else (environ "CLOUDFLARE_API_KEY") "" in
    let email = or_else (environ "CLOUDFLARE_EMAIL") "" in
    if with_token
    then (ensure (nonempty token) (plan_error "CLOUDFLARE_API_TOKEN is required") >>= λ u.
        ok (headers ++ ("Authorization", append "Bearer " token) ∷ []))
    else (ensure (nonempty key && nonempty email)
          (plan_error "CLOUDFLARE_API_KEY and CLOUDFLARE_EMAIL are required")
        >>= λ u. ok (headers ++ ("X-Auth-Key", key) ∷ ("X-Auth-Email", email) ∷ []))

abbrev pub read_failed : Exn
read_failed = plan_error "Cloudflare read failed; no changes were applied"

abbrev pub readable : Result Json → Result Json
readable (ok v) = ok v
readable (raised e) = raised read_failed

-- api_get
unfoldable pub api_get : Api → String → List (String × String) → Result Json
api_get api path headers = do
  result ← readable (api path headers)
  fs ← required (as_fields result) (foreign attribute_error)
  ensure (is_true (get "success" fs)) read_failed
  required (find "result" fs) (foreign key_error)

-- len(clients) != 1 or clients[0]["id"] != args.connector_id
unfoldable pub check_clients : String → Json → Result (Unit {0})
check_clients connector_id (arr (cons (obj fs) nil)) = do
  id ← required (find "id" fs) (foreign key_error)
  named ←
      required (as_str id)
        (plan_error "The tunnel must have exactly the explicitly verified connector")
  ensure (str_eq named connector_id)
      (plan_error "The tunnel must have exactly the explicitly verified connector")
check_clients connector_id (arr (cons v nil)) = raised (foreign type_error)
check_clients connector_id (arr vs) =
    raised (plan_error "The tunnel must have exactly the explicitly verified connector")
check_clients connector_id (obj (field key v end)) = raised (foreign key_error)
check_clients connector_id (obj fs) =
    raised (plan_error "The tunnel must have exactly the explicitly verified connector")
check_clients connector_id (str s) =
    if len s == 1
    then raised (foreign type_error)
    else raised (plan_error "The tunnel must have exactly the explicitly verified connector")
check_clients connector_id v = raised (foreign type_error)

unfoldable pub member : String → Fields → Result Json
member key fs = required (find key fs) (foreign key_error)

-- The contents of the files, by their names.
unfoldable pub plan_files :
    Arguments
    → (found : Json) → (updated : Fields) → (version : Json) → (index : ℕ) → List (String × Json)
plan_files args found updated version index =
    ("before.json", found)
    ∷ ("tunnel-candidate.json", obj (field "config" (obj updated) end))
    ∷ (
      "dns-candidate.json",
      obj (
          field "type" (str "CNAME") (
            field "name" (str args.hostname) (
              field "content" (str (append args.tunnel_id ".cfargotunnel.com"))
                (field "ttl" (num (int (pos 1))) (field "proxied" (bool true) end))))),
    )
    ∷ (
      "plan.json",
      obj (
          field "account_id" (str args.account_id) (
            field "zone_id" (str args.zone_id) (
              field "tunnel_id" (str args.tunnel_id) (
                field "connector_id" (str args.connector_id) (
                  field "hostname" (str args.hostname) (
                    field "expected_version" version (
                      field "insert_at" (num (int (pos index)))
                        (field "requires_exact_skill_id_verified" (bool true) end)))))))),
    )
    ∷ []

-- urlencode({"name": hostname})
abbrev name_query : (String → String) → String → String
name_query quote hostname = append "name=" (quote hostname)

module _ (py : Python) (m : Matching) (quote : String → String) where
  -- The `try` block of `main` up to the files.
  unfoldable pub prepare :
      Arguments → (String → Option String) → Api → Result (List (String × Json))
  prepare args environ api = do
    ensure (is_hex_id args.account_id && is_hex_id args.zone_id)
        (plan_error "Account and zone identifiers must be lowercase hexadecimal IDs")
    ensure (is_uuid args.tunnel_id && is_uuid args.connector_id)
        (plan_error "Tunnel and connector identifiers must be lowercase UUIDs")
    headers ← auth_headers args.with_token environ
    let prefix = append "/accounts/" (append args.account_id (append "/cfd_tunnel/" args.tunnel_id))
    clients ← api_get api (append prefix "/connections") headers
    check_clients args.connector_id clients
    before_ ← api_get api (append prefix "/configurations") headers
    settings ← required (as_fields before_) (foreign type_error)
    config ← member "config" settings
    candidate ← candidate_config py m config args.hostname args.origin
    records ←
        api_get api
          (append "/zones/"
            (append args.zone_id (append "/dns_records?" (name_query quote args.hostname))))
          headers
    ensure (not (is_true records))
        (plan_error "The DNS hostname already exists; refusing to overwrite it")
    version ← member "version" settings
    ok (plan_files args before_ candidate.0 version candidate.1)

-- except (PlanError, OSError, KeyError, TypeError, ValueError): the exit status of `main`, none where
-- the exception leaves it
unfoldable pub exit_status {ℓ} : {A : Type ℓ} → Result A → Option ℕ
exit_status (ok files) = some 0
exit_status (raised (plan_error message)) = some 1
exit_status (raised (foreign os_error)) = some 1
exit_status (raised (foreign key_error)) = some 1
exit_status (raised (foreign type_error)) = some 1
exit_status (raised (foreign value_error)) = some 1
exit_status (raised e) = none
