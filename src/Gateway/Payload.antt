-- ===== src/Gateway/Payload.antt =====
-- The payload checks of gateway.py: `_valid_text`, `_fresh_timestamp` and `validate_payload`.
-- The proofs are in the modules below.
pub mod Contract
pub mod Accepted
pub mod Kept
use amazon_echo_home_voice.Prelude.{
  ℕ, ℤ, pos, negsuc, String, Bool, true, false, not, ◌&&◌, Option, none, some, List, [], ◌∷◌, ◌==◌,
  ◌++◌, leb, all, one_of, str_eq, if◌then◌else◌,
}
use amazon_echo_home_voice.Python.{
  Python, Json, obj, str, num, int, float, Fields, Float, Number, find, has, get, without, assign,
  as_fields, as_str, as_bool, as_number, num_lt, num_le, Result, ok, raised, Exn, ensure, required,
  as_int, gateway, foreign, Foreign, attribute_error, nonempty, len, any_char, ◌>>=◌, ◌>>◌,
}

abbrev pub report_names : List String
report_names = "battery" ∷ "solar" ∷ "solar_today" ∷ "alarms" ∷ "status" ∷ []

abbrev pub statuses : List String
statuses = "fresh" ∷ "stale" ∷ "unavailable" ∷ "unconfigured" ∷ []

abbrev pub max_text_length : ℕ
max_text_length = 1200

abbrev pub max_brief_text_length : ℕ
max_brief_text_length = max_text_length

abbrev pub required_metrics : List String
required_metrics = "battery_soc" ∷ "solar_power" ∷ "solar_today" ∷ []

abbrev pub is_one : ℤ → Bool
is_one (pos n) = n == 1
is_one (negsuc n) = false

-- names = REPORT_NAMES + (("flow",) if "flow" in reports else ())
abbrev pub names : Fields → List String
names reports = report_names ++ (if has "flow" reports then "flow" ∷ [] else [])

module _ (py : Python) where
  unfoldable pub valid_chars : ℕ → String → Bool
  valid_chars maximum s =
      nonempty (py.strip s)
      && leb (len s) maximum
      && not (any_char py.is_control s)
      && not (any_char (λ c. c == b'<') s)
      && not (any_char (λ c. c == b'>') s)

  -- _valid_text
  abbrev pub valid_text : ℕ → Json → Bool
  valid_text maximum (str s) = valid_chars maximum s
  valid_text maximum _ = false

  -- The test in the `try` of `_fresh_timestamp`; `none` is an OverflowError.
  unfoldable pub in_window : Float → Number → Number → Bool
  in_window now max_age value = elim (py.isfinite value) [
    | none ↦ false
    | some finite ↦ finite && num_lt (int (pos 0)) value && elim (py.difference now value) [
      | none ↦ false
      | some age ↦ num_le (int (negsuc 4)) (float age) && num_le (float age) max_age
    ]
  ]

  -- _fresh_timestamp
  abbrev pub fresh_timestamp : Float → Number → Json → Bool
  fresh_timestamp now max_age (num n) = in_window now max_age n
  fresh_timestamp now max_age _ = false

  -- The body of the loop over the report names.
  unfoldable pub check_report : Fields → Bool → String → Result (Unit {0})
  check_report reports connected name = do
    report ← required (as_fields (get name reports)) (gateway "Invalid gateway report")
    status ← required (as_str (get "status" report)) (gateway "Invalid gateway report status")
    ensure (one_of statuses status) (gateway "Invalid gateway report status")
    ensure (not (str_eq status "fresh" && not connected))
        (gateway "Inconsistent gateway report status")
    ensure (valid_text max_text_length (get "text" report)) (gateway "Invalid gateway report text")

  unfoldable pub check_reports : Fields → Bool → List String → Result (Unit {0})
  check_reports reports connected [] = ok tt
  check_reports reports connected (name ∷ rest) =
      check_report reports connected name >>= λ _. check_reports reports connected rest

  -- The end of `validate_payload`: an invalid `brief_text` is left out.
  unfoldable pub drop_invalid_brief : Fields → Fields → Fields → Fields
  drop_invalid_brief payload reports status =
      if has "brief_text" status && not (valid_text max_brief_text_length (get "brief_text" status))
      then assign "reports" (obj (assign "status" (obj (without "brief_text" status)) reports))
          payload
      else payload

  unfoldable pub validate_payload : Json → Float → Number → Result Fields
  validate_payload value now max_age = do
    payload ← required (as_fields value) (gateway "Invalid gateway schema")
    version ← required (as_int (get "schema_version" payload)) (gateway "Invalid gateway schema")
    ensure (is_one version) (gateway "Invalid gateway schema")
    connected ← required (as_bool (get "mqtt_connected" payload)) (gateway "Invalid gateway schema")
    ensure (fresh_timestamp now max_age (get "generated_at" payload))
        (gateway "Gateway response is out of date")
    metrics ← required (as_fields (get "metrics" payload)) (gateway "Invalid gateway metrics")
    ensure (all (λ key. has key metrics) required_metrics) (gateway "Invalid gateway metrics")
    reports ← required (as_fields (get "reports" payload)) (gateway "Invalid gateway reports")
    check_reports reports connected (names reports)
    status ← required (as_fields (get "status" reports)) (foreign attribute_error)
    ok (drop_invalid_brief payload reports status)
