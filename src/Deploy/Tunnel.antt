-- ===== src/Deploy/Tunnel.antt =====
-- scripts/prepare-tunnel-route.py: the candidate configuration of a Cloudflare tunnel. An object has
-- one member for each key, as `json.load` leaves it.

pub mod Routes
pub mod Plan
pub mod Prepare
use amazon_echo_home_voice.Prelude.{
  Bool, List, Option, String, [], all, false, if◌then◌else◌, is_some, leb, none, not, one_of,
  or_else, pos, some, str_eq, suc, true, zero, ℕ, ◌&&◌, ◌++◌, ◌+◌, ◌==◌, ◌∷◌,
}
use amazon_echo_home_voice.Python.{
  Exn, Fields, Items, Json, Python, Result, Url, any_char, arr, as_fields, as_items, assign,
  attribute_error, bool, cons, end, ensure, field, find, foreign, get, int, len, nil, nonempty,
  null, num, num_eq, obj, ok, plan_error, raised, required, split, str, type_error, value_error,
  ◌>>=◌, ◌>>◌,
}
use amazon_echo_home_voice.Gateway.Address.{is_label}

-- A list as the JSON array.
abbrev pub items_of : List Json → Items
items_of [] = nil
items_of (v ∷ vs) = cons v (items_of vs)

-- bool(value), for a number by its comparison with 0
unfoldable pub is_true : Json → Bool
is_true null = false
is_true (bool b) = b
is_true (num n) = not (num_eq n (int (pos 0)))
is_true (str s) = nonempty s
is_true (arr nil) = false
is_true (arr vs) = true
is_true (obj end) = false
is_true (obj fs) = true

-- value == text
abbrev pub is_text : String → Json → Bool
is_text s (str t) = str_eq t s
is_text s _ = false

-- value == {"service": "http_status:404"}
unfoldable pub is_catch_all : Json → Bool
is_catch_all (obj (field key value end)) = str_eq key "service" && is_text "http_status:404" value
is_catch_all _ = false

abbrev pub last_of : List Json → Option Json
last_of [] = none
last_of (v ∷ []) = some v
last_of (v ∷ vs) = last_of vs

-- existing and existing[-1] == {"service": "http_status:404"}
abbrev pub ends_with_catch_all : List Json → Bool
ends_with_catch_all existing = elim (last_of existing) [
  | none ↦ false
  | some value ↦ is_catch_all value
]

-- existing[:-1]
abbrev pub all_but_last : List Json → List Json
all_but_last [] = []
all_but_last (v ∷ []) = []
all_but_last (v ∷ vs) = v ∷ all_but_last vs

-- The host name of the plan.
unfoldable pub valid_hostname : String → Bool
valid_hostname hostname =
    leb (len hostname) 253
    && any_char (λ c. c == b'.') hostname
    && all is_label (split b'.' hostname)

abbrev pub origin_error : Exn
origin_error =
    plan_error "This plan requires a verified connector-local HTTP origin with an explicit port"

-- not (a or b or ...) of the checks on the origin in front of the port
unfoldable pub local_origin : Url → Bool
local_origin url =
    str_eq url.scheme "http"
    && elim url.hostname [ none ↦ false | some h ↦ one_of ("127.0.0.1" ∷ "localhost" ∷ []) h ]
    && not (is_some url.username)
    && not (is_some url.password)
    && one_of ("" ∷ "/" ∷ []) url.path
    && not (nonempty url.query)
    && not (nonempty url.fragment)

-- rule.get, which an object has
abbrev pub as_rule : Json → Result Fields
as_rule value = required (as_fields value) (foreign attribute_error)

-- any(rule.get("hostname") == hostname for rule in existing)
unfoldable pub any_rule_of : String → List Json → Result Bool
any_rule_of hostname [] = ok false
any_rule_of hostname (value ∷ rest) =
    let later = any_rule_of hostname rest in
    as_rule value >>= λ rule. if is_text hostname (get "hostname" rule) then ok true else later

-- current.get("originRequest", {}).get("access", {}).get("required")
unfoldable pub member_or_empty : String → Json → Result Json
member_or_empty key value = as_rule value >>= λ fs. ok (or_else (find key fs) (obj end))

unfoldable pub access_required : Fields → Result Bool
access_required current = do
  access ← member_or_empty "access" (or_else (find "originRequest" current) (obj end))
  settings ← as_rule access
  ok (is_true (get "required" settings))

-- updated["ingress"][index:index] = new
abbrev pub insert_at : ℕ → List Json → List Json → List Json
insert_at zero new rules = new ++ rules
insert_at (suc n) new [] = new
insert_at (suc n) new (r ∷ rules) = r ∷ insert_at n new rules

-- The two rules of the host name: its webhook, and nothing else.
unfoldable pub webhook_rule : (hostname service : String) → Json
webhook_rule hostname service = obj (
    field "hostname" (str hostname)
      (field "path" (str "^/alexa$") (field "service" (str service) end)))

unfoldable pub refusal_rule : (hostname : String) → Json
refusal_rule hostname =
    obj (field "hostname" (str hostname) (field "service" (str "http_status:404") end))

-- The functions of the library that only this program calls: fnmatch.fnmatchcase(name, pattern), and
-- s.rstrip("/").
pub record Matching : Type 0 where
  pub fnmatchcase : (name pattern : String) → Bool
  pub rstrip_slash : String → String

module _ (m : Matching) where
  -- not rule.get("hostname") or fnmatch.fnmatchcase(hostname, rule["hostname"]); a pattern that is no
  -- text is a TypeError
  unfoldable pub host_pattern : String → Json → Result Bool
  host_pattern hostname (str pattern) =
      ok (if nonempty pattern then m.fnmatchcase hostname pattern else true)
  host_pattern hostname value = if is_true value then raised (foreign type_error) else ok true

  unfoldable pub may_take : String → Json → Result Bool
  may_take hostname value = as_rule value >>= λ rule. host_pattern hostname (get "hostname" rule)

  -- min(matching) of the rules, their number without one
  unfoldable pub first_match : String → List Json → Result ℕ
  first_match hostname [] = ok 0
  first_match hostname (value ∷ rest) =
      let later = first_match hostname rest in
      may_take hostname value >>= λ taken. later >>= λ n. ok (if taken then 0 else n + 1)

module _ (py : Python) where
  unfoldable pub check_origin : String → Result (Unit {0})
  check_origin origin = do
    url ← required (py.urlsplit origin) (foreign value_error)
    ensure (local_origin url) origin_error
    port ← required url.port (foreign value_error)
    ensure (is_some port) origin_error

  -- candidate_config
  unfoldable pub candidate_config :
      Matching → Json → (hostname origin : String) → Result (Fields × ℕ)
  candidate_config m config hostname origin = do
    ensure (valid_hostname hostname)
        (plan_error "Use a lowercase public DNS hostname without a path or wildcard")
    check_origin origin
    current ← as_rule config
    existing ←
        required (as_items (get "ingress" current))
          (plan_error "Expected the existing final catch-all to be exactly http_status:404")
    ensure (ends_with_catch_all existing)
        (plan_error "Expected the existing final catch-all to be exactly http_status:404")
    named ← any_rule_of hostname existing
    ensure (not named) (plan_error "The hostname already has a route; refusing to replace it")
    guarded ← access_required current
    ensure (not guarded)
        (plan_error "Tunnel-wide Access enforcement needs separate review for Alexa")
    index ← first_match m hostname (all_but_last existing)
    let rules =
        insert_at index (webhook_rule hostname (m.rstrip_slash origin) ∷ refusal_rule hostname ∷ [])
          existing
    ok (assign "ingress" (arr (items_of rules)) current, index)
