-- ===== src/Gateway/Payload/Accepted.antt =====
-- What `validate_payload` returns fits the gateway contract, and nothing that fits is refused.
use amazon_echo_home_voice.Prelude.{
  pos, negsuc, String, Bool, true, false, ◌≡◌, refl, ap, subst, sym, ◌&&◌, not, List, [], ◌∷◌, ◌++◌,
  Option, some, none, arith, all, All, if◌then◌else◌, Option-cases, inl, inr, str_eq,
}
use amazon_echo_home_voice.Python.{
  Python, Json, null, obj, str, num, int, float, bool, Fields, Float, Number, find, get, has,
  without, assign, num_lt, num_le, ok, >>=-eq-ok, find-assign, find-without,
}
use amazon_echo_home_voice.Gateway.Payload.{
  in_window, valid_text, check_report, check_reports, names, report_names, max_brief_text_length,
  required_metrics,
}
use amazon_echo_home_voice.Gateway.Payload.Contract.{
  IsSpeech, IsReport, check_report-IsReport, IsReport-check_report, valid_text-IsSpeech,
}

module _ (py : Python) where
  -- A report generated at `value` is at most five seconds ahead of `now` and not too old.
  pub record IsFresh (now : Float) (max_age : Number) (value : Number) : Type 0 where
    pub is_finite : py.isfinite value ≡ some true
    pub positive : num_lt (int (pos 0)) value ≡ true
    pub age : Float
    pub is_age : py.difference now value ≡ some age
    pub not_ahead : num_le (int (negsuc 4)) (float age) ≡ true
    pub not_old : num_le (float age) max_age ≡ true

  -- An optional concise status text can be spoken.
  abbrev pub IsBrief : Fields → Type 0
  IsBrief status =
      (v : Json)
      → find "brief_text" status ≡ some v
      → (s : String) × (v ≡ str s) × IsSpeech py max_brief_text_length s

  pub record IsEnvelope (now : Float) (max_age : Number) (payload : Fields) : Type 0 where
    pub version : find "schema_version" payload ≡ some (num (int (pos 1)))
    pub connected : Bool
    pub has_connected : find "mqtt_connected" payload ≡ some (bool connected)
    pub generated : Number
    pub has_generated : find "generated_at" payload ≡ some (num generated)
    pub fresh : IsFresh now max_age generated
    pub metrics : Fields
    pub has_metrics : find "metrics" payload ≡ some (obj metrics)
    pub each_metric : all (λ key. has key metrics) required_metrics ≡ true
    pub reports : Fields
    pub has_reports : find "reports" payload ≡ some (obj reports)
    pub each_report : All (IsReport py reports connected) (names reports)
    pub status : Fields
    pub has_status : find "status" reports ≡ some (obj status)

  pub record IsPayload (now : Float) (max_age : Number) (payload : Fields) : Type 0 where
    pub envelope : IsEnvelope now max_age payload
    pub brief : IsBrief envelope.status

  pub in_window-IsFresh :
      (now : Float) (max_age value : Number)
      → in_window py now max_age value ≡ true
      → IsFresh now max_age value
  unfolding in_window
  in_window-IsFresh now max_age value h = elim (Option-cases (py.isfinite value)) [
    | inl e ↦ absurd (ground arith)
    | inr (f, e) ↦ elim (Option-cases (py.difference now value)) [
      | inl d ↦ absurd (ground arith)
      | inr (age, d) ↦ record {
        is_finite = ground arith;
        positive = ground arith;
        age = age;
        is_age = d;
        not_ahead = ground arith;
        not_old = ground arith;
      }
    ]
  ]

  pub IsFresh-in_window :
      (now : Float) (max_age value : Number)
      → IsFresh now max_age value
      → in_window py now max_age value ≡ true
  unfolding in_window
  IsFresh-in_window now max_age value h =
      ground (arith, h.is_finite, h.positive, h.is_age, h.not_ahead, h.not_old)

  pub check_reports-All :
      (reports : Fields) (connected : Bool) (ns : List String)
      → check_reports py reports connected ns ≡ ok tt
      → All (IsReport py reports connected) ns
  unfolding check_reports
  check_reports-All reports connected [] h = tt
  check_reports-All reports connected (n ∷ ns) h =
      let (u, first, rest) =
        >>=-eq-ok (check_report py reports connected n) (λ _. check_reports py reports connected ns)
          h in
      (
        check_report-IsReport py reports connected n first,
        check_reports-All reports connected ns rest,
      )

  pub All-check_reports :
      (reports : Fields) (connected : Bool) (ns : List String)
      → All (IsReport py reports connected) ns
      → check_reports py reports connected ns ≡ ok tt
  unfolding check_reports
  All-check_reports reports connected [] h = refl
  All-check_reports reports connected (n ∷ ns) h =
      rw (IsReport-check_report py reports connected n h.0)
        (All-check_reports reports connected ns h.1)

  -- The report names of a payload whose status report has lost its concise text are the same.
  unfoldable pub without_brief : Fields → Fields → Fields
  without_brief reports status = assign "status" (obj (without "brief_text" status)) reports

  find-without_brief :
      (reports status : Fields) (name : String) (r : Json)
      → str_eq "status" name ≡ false
      → find name reports ≡ some r
      → find name (without_brief reports status) ≡ some r
  unfolding without_brief
  find-without_brief reports status name r ne e =
      rw (find-assign "status" name (obj (without "brief_text" status)) reports) (rw ne e)

  names-without_brief :
      (reports status : Fields) → names (without_brief reports status) ≡ names reports
  unfolding without_brief
  names-without_brief reports status =
      ground (arith, find-assign "status" "flow" (obj (without "brief_text" status)) reports)

  IsReport-other :
      (reports status : Fields) (connected : Bool) (name : String)
      → str_eq "status" name ≡ false
      → IsReport py reports connected name
      → IsReport py (without_brief reports status) connected name
  IsReport-other reports status connected name ne r = record {
    report = r.report;
    status = r.status;
    text = r.text;
    is_object = find-without_brief reports status name (obj r.report) ne r.is_object;
    has_status = r.has_status;
    known = r.known;
    live = r.live;
    has_text = r.has_text;
    speech = r.speech;
  }

  IsReport-status :
      (reports status : Fields) (connected : Bool)
      → find "status" reports ≡ some (obj status)
      → IsReport py reports connected "status"
      → IsReport py (without_brief reports status) connected "status"
  unfolding without_brief
  IsReport-status reports status connected e r = record {
    report = without "brief_text" status;
    status = r.status;
    text = r.text;
    is_object =
        ground (arith, find-assign "status" "status" (obj (without "brief_text" status)) reports);
    has_status =
        ground (arith, r.has_status, r.is_object, find-without "brief_text" "status" status);
    known = r.known;
    live = r.live;
    has_text = ground (arith, r.has_text, r.is_object, find-without "brief_text" "text" status);
    speech = r.speech;
  }

  -- Leaving the concise text out keeps every report of the contract.
  each-IsReport-without_brief :
      (reports status : Fields) (connected : Bool)
      → find "status" reports ≡ some (obj status)
      → All (IsReport py reports connected) (names reports)
      → All
          (IsReport py (without_brief reports status) connected)
          (names (without_brief reports status))
  each-IsReport-without_brief reports status connected e h =
      subst (All (IsReport py (without_brief reports status) connected))
        (sym (names-without_brief reports status)) (split_flow (has "flow" reports) h)
    where
      other :
          (name : String)
          → str_eq "status" name ≡ false
          → IsReport py reports connected name
          → IsReport py (without_brief reports status) connected name
      other = IsReport-other reports status connected

      split_flow :
          (flow : Bool)
          → All (IsReport py reports connected) (report_names ++ (if flow then "flow" ∷ [] else []))
          → All
              (IsReport py (without_brief reports status) connected)
              (report_names ++ (if flow then "flow" ∷ [] else []))
      split_flow true (a, (b, (c, (d, (s, (f, _)))))) = (
        other _ refl a,
        (
          other _ refl b,
          (
            other _ refl c,
            (other _ refl d, (IsReport-status reports status connected e s, (other _ refl f, tt))),
          ),
        ),
      )
      split_flow false (a, (b, (c, (d, (s, _))))) = (
        other _ refl a,
        (
          other _ refl b,
          (other _ refl c, (other _ refl d, (IsReport-status reports status connected e s, tt))),
        ),
      )

  find-status_without_brief :
      (reports status : Fields)
      → find "status" (without_brief reports status) ≡ some (obj (without "brief_text" status))
  unfolding without_brief
  find-status_without_brief reports status =
      ground (arith, find-assign "status" "status" (obj (without "brief_text" status)) reports)

  IsBrief-without : (status : Fields) → IsBrief (without "brief_text" status)
  IsBrief-without status v e =
      absurd (ground (arith, find-without "brief_text" "brief_text" status, e))

  pub IsBrief-kept :
      (status : Fields)
      → (has "brief_text" status
          && not (valid_text py max_brief_text_length (get "brief_text" status)))
        ≡ false
      → IsBrief status
  IsBrief-kept status h v e = valid_text-IsSpeech py max_brief_text_length v (
      ground
        (arith, ap (λ (o : Option Json). elim o as (λ _. Json) [ none ↦ null | some w ↦ w ]) e, e))

  pub IsPayload-dropped :
      {now : Float} {max_age : Number} {payload : Fields}
      → (p : IsEnvelope now max_age payload)
      → IsPayload now max_age (assign "reports" (obj (without_brief p.reports p.status)) payload)
  IsPayload-dropped {payload} p = record {
    envelope = record {
      version = ground (arith, p.version, at "schema_version");
      connected = p.connected;
      has_connected = ground (arith, p.has_connected, at "mqtt_connected");
      generated = p.generated;
      has_generated = ground (arith, p.has_generated, at "generated_at");
      fresh = p.fresh;
      metrics = p.metrics;
      has_metrics = ground (arith, p.has_metrics, at "metrics");
      each_metric = p.each_metric;
      reports = without_brief p.reports p.status;
      has_reports = ground (arith, at "reports");
      each_report =
          each-IsReport-without_brief p.reports p.status p.connected p.has_status p.each_report;
      status = without "brief_text" p.status;
      has_status = find-status_without_brief p.reports p.status;
    };
    brief = IsBrief-without p.status;
  }
    where
      at :
          (k : String)
          → find k (assign "reports" (obj (without_brief p.reports p.status)) payload) ≡ (
              if str_eq "reports" k
              then some (obj (without_brief p.reports p.status))
              else find k payload)
      at k = find-assign "reports" k (obj (without_brief p.reports p.status)) payload
