-- ===== src/Visuals/Readings.antt =====
-- The readings that a screen shows as values, and the tokens that name a screen's report.
use amazon_echo_home_voice.Prelude.{
  Bool, Bool-cases, if◌then◌else◌, ap, ◌∙◌, Option-cases, String, arith, false, inl, inr, is_some,
  none, not, one_of, refl, some, str_eq, true, ℕ, ◌&&◌, ◌||◌, ◌≡◌, ◌⊎◌, pos, Option, eq_iff, subst,
}
use amazon_echo_home_voice.Python.{
  Fields, Json, Number, Python, as_str, get, int, num, num_lt, ok, str, null, ok-injective, ◌>>=◌,
  >>=-eq-ok, null,
}
use amazon_echo_home_voice.Gateway.Payload.{statuses}
use amazon_echo_home_voice.Visuals.{entry, report_titles}
use amazon_echo_home_voice.Visuals.Screen.{read_token, report_token, token_parts}
use amazon_echo_home_voice.Visuals.Metric.{
  MetricInfo, Reading, age_of, checked_metric, disagrees, fresh_value, is_signed, reading,
  shown_value, unit_is,
}

-- The six reports.
title-cases :
    (name : String)
    → is_some (entry name report_titles) ≡ true
    → (name ≡ "battery")
      ⊎ (name ≡ "solar")
      ⊎ (name ≡ "solar_today")
      ⊎ (name ≡ "alarms")
      ⊎ (name ≡ "status")
      ⊎ (name ≡ "flow")
title-cases name h = ground (
  arith,
  eq_iff "battery" name,
  eq_iff "solar" name,
  eq_iff "solar_today" name,
  eq_iff "alarms" name,
  eq_iff "status" name,
  eq_iff "flow" name,
)

-- The token that a screen's buttons carry reads back as the report and the detail that it was made
-- for, for every report that has a title.
pub read_token-report_token :
    (name : String) (detailed : Bool)
    → is_some (entry name report_titles) ≡ true
    → read_token (str (report_token name detailed)) ≡ some (name, detailed)
unfolding read_token report_token token_parts
read_token-report_token name true h = elim (title-cases name h) [
  | inl e ↦ rw e refl
  | inr (inl e) ↦ rw e refl
  | inr (inr (inl e)) ↦ rw e refl
  | inr (inr (inr (inl e))) ↦ rw e refl
  | inr (inr (inr (inr (inl e)))) ↦ rw e refl
  | inr (inr (inr (inr (inr e)))) ↦ rw e refl
]
read_token-report_token name false h = elim (title-cases name h) [
  | inl e ↦ rw e refl
  | inr (inl e) ↦ rw e refl
  | inr (inr (inl e)) ↦ rw e refl
  | inr (inr (inr (inl e))) ↦ rw e refl
  | inr (inr (inr (inr (inl e)))) ↦ rw e refl
  | inr (inr (inr (inr (inr e)))) ↦ rw e refl
]

module _ (py : Python) where
  -- A value that is shown is the metric's own number: fresh, of a connected gateway, with an age,
  -- finite, not negative unless the metric has a sign, and no percentage above 100.
  pub record IsShown (i : MetricInfo) (connected : Bool) (metric : Fields) (r : Reading)
      (v : Number) : Type 0 where
    pub given : get "value" metric ≡ num v
    pub unit : get "unit" metric ≡ str i.unit
    pub fresh : get "status" metric ≡ str "fresh"
    pub is_connected : connected ≡ true
    pub finite_value : py.isfinite v ≡ some true
    pub aged : is_some r.age ≡ true
    pub sign : (is_signed i.metric || not (num_lt v (int (pos 0)))) ≡ true
    pub percentage : (str_eq i.unit "%" && num_lt (int (pos 100)) v) ≡ false

  fresh_value-num :
      (i : MetricInfo) (connected : Bool) (age : Option ℕ) (value : Json) (v : Number)
      → fresh_value py i connected age value ≡ some v
      → (value ≡ num v)
        × (connected ≡ true)
        × (py.isfinite v ≡ some true)
        × (is_some age ≡ true)
        × ((is_signed i.metric || not (num_lt v (int (pos 0)))) ≡ true)
        × ((str_eq i.unit "%" && num_lt (int (pos 100)) v) ≡ false)
  unfolding fresh_value
  fresh_value-num i connected age (num n) v h =
      let same : n ≡ v = ground arith in
      let fin : py.isfinite n ≡ some true = elim (Option-cases (py.isfinite n)) [
        | inl e ↦ absurd (ground (arith, e))
        | inr (b, e) ↦ ground (arith, e)
      ] in
      subst
        (λ x.
          (num n ≡ num x)
          × (connected ≡ true)
          × (py.isfinite x ≡ some true)
          × (is_some age ≡ true)
          × ((is_signed i.metric || not (num_lt x (int (pos 0)))) ≡ true)
          × ((str_eq i.unit "%" && num_lt (int (pos 100)) x) ≡ false))
        same (refl, ground arith, fin, ground arith, ground arith, ground arith)
  fresh_value-num i connected age _ v h = cc

  shown_value-some :
      (i : MetricInfo) (connected : Bool) (age : Option ℕ) (status : String) (value : Json)
      (v : Number)
      → shown_value py i connected age status value ≡ some (some v)
      → (status ≡ "fresh") × (fresh_value py i connected age value ≡ some v)
  unfolding shown_value
  shown_value-some i connected age status value v h = elim (Bool-cases (str_eq status "fresh")) [
    | inl t ↦ elim (Option-cases (fresh_value py i connected age value)) [
      | inl e ↦ absurd (ground (arith, t, e))
      | inr (n, e) ↦ ((eq_iff status "fresh").0 t, ground (arith, t, e))
    ]
    | inr t ↦ absurd (not_shown value (rw t at h))
  ]
    where
      not_shown : (x : Json) → (elim x [ null ↦ some none | _ ↦ none ]) ≡ some (some v) → ⊥
      not_shown null e = cc
      not_shown _ e = cc

  reading-some :
      (i : MetricInfo) (status : String) (age : Option (Option ℕ)) (connected : Bool) (value : Json)
      (r : Reading)
      → reading py i status age connected value ≡ some r
      → shown_value py i connected r.age status value ≡ some r.value
  unfolding reading
  reading-some i status none connected value r h = cc
  reading-some i status (some age) connected value r h =
      elim (Option-cases (shown_value py i connected age status value)) [
        | inl e ↦ absurd (ground (arith, e))
        | inr (v, e) ↦
            let k : record { status = status; value = v; age = age; unit = i.unit } ≡ r =
              ground (arith, e) in
            subst (λ x. shown_value py i connected x.age status value ≡ some x.value) k e
      ]

  as_str-str : (v : Json) {s : String} → as_str v ≡ some s → v ≡ str s
  as_str-str (str s) h = ground arith
  as_str-str _ h = cc

  unit_is-str : (unit : String) (v : Json) → unit_is py unit v ≡ true → v ≡ str unit
  unit_is-str unit (str u) h = ap str ((eq_iff u unit).0 h)
  unit_is-str unit _ h = cc

  metric-IsShown :
      (i : MetricInfo) (connected : Bool) (metric : Fields) (status : String) (r : Reading)
      (v : Number)
      → get "status" metric ≡ str status
      → get "unit" metric ≡ str i.unit
      → r.value ≡ some v
      → shown_value py i connected r.age status (get "value" metric) ≡ some r.value
      → IsShown i connected metric r v
  metric-IsShown i connected metric status r v s u e h =
      let (f, n) =
        shown_value-some i connected r.age status (get "value" metric) v (h ∙ ap some e) in
      let (g, c, fin, a, sg, pc) = fresh_value-num i connected r.age (get "value" metric) v n in
      record {
        given = g;
        unit = u;
        fresh = s ∙ ap str f;
        is_connected = c;
        finite_value = fin;
        aged = a;
        sign = sg;
        percentage = pc;
      }

  -- A metric is shown with a value only if its status is fresh, its unit is the one expected, the
  -- gateway is connected, the source's age is known and the value is a finite number in the range of
  -- its unit; the value is the metric's own.
  pub checked_metric-IsShown :
      (i : MetricInfo) (name : String) (reports : Fields) (connected : Bool) (metric : Fields)
      (r : Reading) (v : Number)
      → checked_metric py i name reports connected metric ≡ ok (some r)
      → r.value ≡ some v
      → IsShown i connected metric r v
  unfolding checked_metric
  checked_metric-IsShown i name reports connected metric r v h e =
      elim (Option-cases (as_str (get "status" metric))) [
        | inl d ↦ absurd (ground (arith, d))
        | inr (status, d) ↦
            elim (Bool-cases (one_of statuses status && unit_is py i.unit (get "unit" metric))) [
              | inr t ↦ absurd (ground (arith, d, t))
              | inl t ↦
                  let shown = λ (refused : Bool).
                    if refused
                    then none
                    else reading py i status (age_of (get "age_seconds" metric)) connected
                        (get "value" metric) in
                  let k : (disagrees reports name status >>= λ refused. ok (shown refused))
                      ≡ ok (some r) =
                    rw (checked_metric, d, t) at h in
                  let (refused, q, m) =
                    >>=-eq-ok (disagrees reports name status) (λ x. ok (shown x)) k in
                  metric-IsShown i connected metric status r v (as_str-str _ d)
                    (unit_is-str i.unit _ (ground (arith, t))) e
                    (reading-some i status (age_of (get "age_seconds" metric)) connected
                      (get "value" metric) r (shown-reading refused _ (ok-injective m)))
            ]
      ]
    where
      shown-reading :
          (refused : Bool) (x : Option Reading)
          → (if refused then none else x) ≡ some r
          → x ≡ some r
      shown-reading true x f = cc
      shown-reading false x f = f
