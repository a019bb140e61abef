-- ===== src/Visuals/Metric.antt =====
-- Optional numeric readings: `_metric` and `_metric_text` of visuals.py.
use amazon_echo_home_voice.Python.{
  Fields, Json, Number, Python, Result, as_fields, as_str, find, finite, float, foreign, get,
  infinite, int, key_error, nonempty, null, num, num_eq, num_le, num_lt, ok, required, str,
  type_error, ◌>>=◌,
}
use amazon_echo_home_voice.Prelude.{
  Bool, List, Option, String, [], false, if◌then◌else◌, is_some, leb, ltb, negsuc, none, not,
  one_of, or_else, pos, some, str_eq, suc, true, ℕ, ◌&&◌, ◌*◌, ◌-◌, ◌/◌, ◌==◌, ◌^◌, ◌||◌, ◌∷◌,
}
use Prim.Native.String.{◌++◌ as append}
use Prim.Native.Char.{code}
use amazon_echo_home_voice.Gateway.Payload.{statuses}

pub record Reading : Type 0 where
  pub status : String
  pub value : Option Number
  pub age : Option ℕ
  pub unit : String

-- METRICS: the metric's name, its unit, and the title of its panel
pub record MetricInfo : Type 0 where
  pub metric : String
  pub unit : String
  pub title : String

abbrev info : String → String → String → MetricInfo
info metric unit title = record { metric = metric; unit = unit; title = title }

abbrev pub metrics : List (String × MetricInfo)
metrics =
    ("battery", info "battery_soc" "%" "Battery charge")
    ∷ ("solar", info "solar_power" "W" "Solar power")
    ∷ ("solar_today", info "solar_today" "kWh" "Solar energy today")
    ∷ ("load_power", info "load_power" "W" "Configured AC consumption")
    ∷ ("grid_power", info "grid_power" "W" "Grid: + import / - export")
    ∷ ("battery_power", info "battery_power" "W" "Battery: + charging / - discharging")
    ∷ []

-- An age: `some none` for None, `none` for what is no age.
abbrev pub age_of : Json → Option (Option ℕ)
age_of null = some none
age_of (num (int (pos n))) = if leb n (2 ^ 64 - 1) then some (some n) else none
age_of _ = none

abbrev pub is_signed : String → Bool
is_signed name = one_of ("grid_power" ∷ "battery_power" ∷ []) name

-- payload["reports"][name]["status"] != status
unfoldable pub differs : Json → String → Result Bool
differs report status = do
  fs ← required (as_fields report) (foreign type_error)
  value ← required (find "status" fs) (foreign key_error)
  ok (elim (as_str value) [ none ↦ true | some s ↦ not (str_eq s status) ])

-- `name in payload["reports"]` with another status than the metric's; only the named reports have
-- been validated
unfoldable pub disagrees : Fields → String → String → Result Bool
disagrees reports name status = elim (find name reports) [
  | none ↦ ok false
  | some report ↦ differs report status
]

module _ (py : Python) where
  -- A fresh value: finite, of a connected gateway, with an age, and in the range of its unit.
  unfoldable pub fresh_value : MetricInfo → Bool → Option ℕ → Json → Option Number
  fresh_value i connected age (num v) =
      if connected
        && or_else (py.isfinite v) false
        && is_some age
        && (is_signed i.metric || not (num_lt v (int (pos 0))))
        && not (str_eq i.unit "%" && num_lt (int (pos 100)) v)
      then some v
      else none
  fresh_value i connected age _ = none

  -- The value to be shown: `some none` for none, `none` where the metric is refused.
  unfoldable pub shown_value :
      MetricInfo → Bool → Option ℕ → (status : String) → Json → Option (Option Number)
  shown_value i connected age status value =
      if str_eq status "fresh"
      then elim (fresh_value i connected age value) [ none ↦ none | some v ↦ some (some v) ]
      else elim value [ null ↦ some none | _ ↦ none ]

  unfoldable pub reading :
      MetricInfo → (status : String) → Option (Option ℕ) → Bool → Json → Option Reading
  reading i status none connected value = none
  reading i status (some age) connected value = elim (shown_value i connected age status value) [
    | none ↦ none
    | some v ↦ some (record { status = status; value = v; age = age; unit = i.unit })
  ]

  abbrev pub unit_is : String → Json → Bool
  unit_is unit (str u) = str_eq u unit
  unit_is unit _ = false

  unfoldable pub checked_metric :
      MetricInfo → (name : String) → (reports : Fields) → Bool → Fields → Result (Option Reading)
  checked_metric i name reports connected metric = elim (as_str (get "status" metric)) [
    | none ↦ ok none
    | some status ↦
        if one_of statuses status && unit_is i.unit (get "unit" metric)
        then (disagrees reports name status >>= λ refused. ok (
            if refused
            then none
            else reading i status (age_of (get "age_seconds" metric)) connected
                (get "value" metric)))
        else ok none
  ]

  -- _metric, of a validated payload's members
  unfoldable pub metric_of :
      MetricInfo → (name : String) → (metrics reports : Fields) → Bool → Result (Option Reading)
  metric_of i name metrics_ reports connected = elim (as_fields (get i.metric metrics_)) [
    | none ↦ ok none
    | some metric ↦ checked_metric i name reports connected metric
  ]

  unfoldable pub age_text : Option ℕ → String
  age_text none = "Source receipt age unavailable"
  age_text (some age) =
      let received = λ (count : ℕ) (unit : String).
        append "Source received "
          (append (py.decimal count) (append unit " before this snapshot")) in
      if ltb age 60
      then received age " seconds"
      else if ltb age 3600
      then received (age / 60) " minutes"
      else if ltb age 86400
      then received (age / 3600) " hours"
      else received (age / 86400) " days"

  abbrev magnitude : Number → Number
  magnitude (int (negsuc n)) = int (pos (suc n))
  magnitude (float (finite (negsuc n))) = float (finite (pos (suc n)))
  magnitude (float (infinite b)) = float (infinite true)
  magnitude n = n

  -- text.rstrip(c)
  abbrev rstrip : ℕ → String → String
  rstrip c String.[] = String.[]
  rstrip c (String.◌∷◌ x s) =
      let rest = rstrip c s in
      if not (nonempty rest) && code x == c then String.[] else String.◌∷◌ x rest

  -- 0.01 as a float: 5764607523034235 * 2 ^ (-59)
  abbrev hundredth : Number
  hundredth = float (finite (pos (5764607523034235 * 2 ^ 1015)))

  unfoldable pub number_text : Number → String
  number_text v =
      if num_eq v (int (pos 0))
      then "0"
      else if num_le hundredth (magnitude v) && num_lt (magnitude v) (int (pos 1_000_000_000))
      then rstrip b'.' (rstrip b'0' (py.two_decimals v))
      else py.four_digits v

  unfoldable pub value_text : Number → (unit : String) → String
  value_text v unit =
      if str_eq unit "W" && num_le (int (pos 1000)) (magnitude v)
      then append (number_text (py.thousandth v)) " kW"
      else append (number_text v) (append " " unit)

  -- _metric_text: the value's text and the age's
  unfoldable pub metric_text : Option Reading → String × String
  metric_text none = ("", "")
  metric_text (some r) = (elim r.value [ none ↦ "" | some v ↦ value_text v r.unit ], age_text r.age)
