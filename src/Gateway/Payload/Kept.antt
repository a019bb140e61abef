-- ===== src/Gateway/Payload/Kept.antt =====
-- `validate_payload` decides the gateway contract, and hands every accepted report on as it came.
use amazon_echo_home_voice.Prelude.{
  pos, String, true, ◌≡◌, refl, ap, subst, ◌∙◌, ◌&&◌, not, some, arith, all, Bool-cases,
  Option-cases, inl, inr, ==_iff, ℤ, negsuc,
}
use amazon_echo_home_voice.Python.{
  Python, Json, obj, num, int, Fields, Float, Number, find, get, has, as_fields, as_int, as_bool,
  ok, ok-injective, required->>=-eq-ok, ensure->>=-eq-ok, >>=-eq-ok, find_fields, find_bool,
  find_int,
}
use amazon_echo_home_voice.Gateway.Payload.{
  fresh_timestamp, valid_text, check_reports, drop_invalid_brief, validate_payload, names,
  max_brief_text_length, required_metrics, is_one,
}
use amazon_echo_home_voice.Gateway.Payload.Contract.{IsSpeech-valid_chars}
use amazon_echo_home_voice.Gateway.Payload.Accepted.{
  IsEnvelope, IsPayload, IsFresh, in_window-IsFresh, IsFresh-in_window, check_reports-All,
  All-check_reports, IsBrief-kept, IsPayload-dropped, without_brief,
}

module _ (py : Python) (now : Float) (max_age : Number) where
  is_one-pos : (n : ℤ) → is_one n ≡ true → n ≡ pos 1
  is_one-pos (pos n) h = ap pos ((==_iff n 1).0 h)
  is_one-pos (negsuc n) h = cc

  fresh_timestamp-num :
      (v : Json)
      → fresh_timestamp py now max_age v ≡ true
      → (n : Number) × (v ≡ num n) × IsFresh py now max_age n
  fresh_timestamp-num (num n) h = (n, refl, in_window-IsFresh py now max_age n h)
  fresh_timestamp-num _ h = cc

  find_num : (k : String) (fs : Fields) (n : Number) → get k fs ≡ num n → find k fs ≡ some (num n)
  find_num k fs n h = ground arith

  finish :
      (payload : Fields) (p : IsEnvelope py now max_age payload)
      → IsPayload py now max_age (drop_invalid_brief py payload p.reports p.status)
  unfolding drop_invalid_brief without_brief
  finish payload p =
      elim (Bool-cases (
        has "brief_text" p.status
        && not (valid_text py max_brief_text_length (get "brief_text" p.status)))) [
          | inl e ↦ rw e (IsPayload-dropped py p)
          | inr e ↦ rw e (record { envelope = p; brief = IsBrief-kept py p.status e })
        ]

  -- Whatever `validate_payload` returns, for any value, fits the gateway contract: its version,
  -- connection flag, age, metrics and all five reports (six with `flow`), with a concise status
  -- text that is absent or can be spoken.
  pub validate_payload-IsPayload :
      (value : Json) (r : Fields)
      → validate_payload py value now max_age ≡ ok r
      → IsPayload py now max_age r
  unfolding validate_payload
  validate_payload-IsPayload value r h =
      let (payload, is_object, h₁) = required->>=-eq-ok (as_fields value) _ _ h in
      let (version, is_version, h₂) =
        required->>=-eq-ok (as_int (get "schema_version" payload)) _ _ h₁ in
      let (one, h₃) = ensure->>=-eq-ok (is_one version) _ _ h₂ in
      let (connected, is_connected, h₄) =
        required->>=-eq-ok (as_bool (get "mqtt_connected" payload)) _ _ h₃ in
      let (fresh, h₅) =
        ensure->>=-eq-ok (fresh_timestamp py now max_age (get "generated_at" payload)) _ _ h₄ in
      let (metrics, is_metrics, h₆) =
        required->>=-eq-ok (as_fields (get "metrics" payload)) _ _ h₅ in
      let (each_metric, h₇) =
        ensure->>=-eq-ok (all (λ key. has key metrics) required_metrics) _ _ h₆ in
      let (reports, is_reports, h₈) =
        required->>=-eq-ok (as_fields (get "reports" payload)) _ _ h₇ in
      let (done, checked, h₉) =
        >>=-eq-ok (check_reports py reports connected (names reports)) _ h₈ in
      let (status, is_status, h₁₀) = required->>=-eq-ok (as_fields (get "status" reports)) _ _ h₉ in
      let (generated, is_generated, is_fresh) =
        fresh_timestamp-num (get "generated_at" payload) fresh in
      let p : IsEnvelope py now max_age payload = record {
        version =
            find_int "schema_version" payload is_version
            ∙ ap (λ n. some (num (int n))) (is_one-pos version one);
        connected = connected;
        has_connected = find_bool "mqtt_connected" payload is_connected;
        generated = generated;
        has_generated = find_num "generated_at" payload generated is_generated;
        fresh = is_fresh;
        metrics = metrics;
        has_metrics = find_fields "metrics" payload is_metrics;
        each_metric = each_metric;
        reports = reports;
        has_reports = find_fields "reports" payload is_reports;
        each_report = check_reports-All py reports connected (names reports) checked;
        status = status;
        has_status = find_fields "status" reports is_status;
      } in
      subst (IsPayload py now max_age) (ok-injective h₁₀) (finish payload p)

  drop_invalid_brief-kept :
      (payload : Fields) (p : IsPayload py now max_age payload)
      → drop_invalid_brief py payload p.envelope.reports p.envelope.status ≡ payload
  unfolding drop_invalid_brief
  drop_invalid_brief-kept payload p = elim (Option-cases (find "brief_text" p.envelope.status)) [
    | inl e ↦ ground arith
    | inr (v, e) ↦
        let (s, is_text, speech) = p.brief v e in
        ground (arith, e, is_text, IsSpeech-valid_chars py max_brief_text_length s speech)
  ]

  -- A payload that fits the gateway contract is accepted, and is handed on with nothing changed.
  pub IsPayload-validate_payload :
      (payload : Fields)
      → IsPayload py now max_age payload
      → validate_payload py (obj payload) now max_age ≡ ok payload
  unfolding validate_payload
  IsPayload-validate_payload payload p =
      let e = p.envelope in
      ground (
        arith,
        e.version,
        e.has_connected,
        e.has_generated,
        IsFresh-in_window py now max_age e.generated e.fresh,
        e.has_metrics,
        e.each_metric,
        e.has_reports,
        All-check_reports py e.reports e.connected (names e.reports) e.each_report,
        e.has_status,
        drop_invalid_brief-kept payload p,
      )
