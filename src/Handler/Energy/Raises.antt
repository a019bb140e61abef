-- ===== src/Handler/Energy/Raises.antt =====
-- Which exceptions can leave `lambda_handler`.
use amazon_echo_home_voice.Prelude.{
  Bool, Bool-cases, Option, Option-cases, String, ap, arith, if◌then◌else◌, inl, inr, none, or_else,
  refl, some, sym, true, ℕ, ◌∙◌, ◌≡◌,
}
use amazon_echo_home_voice.Python.{
  whole_milliseconds, Exn, Fields, Json, Python, Result-cases, as_bool, as_fields, bad_request,
  capacity_error, foreign, gateway_error, get, invalid_token, is_gateway_error, key_error,
  oauth_error, oauth_unavailable, permission_error, plan_error, raised, required, store_error,
  transient_gateway_error, unconfigured_home, unlinked_account,
}
use amazon_echo_home_voice.World.{World, lift, pure, getenv, milliseconds, monotonic, warn, ◌>>=◌}
use amazon_echo_home_voice.World.Returns.{monotonic-reads}
use amazon_echo_home_voice.World.Raises.{Only, Only-bind, only, only-required-or}
use amazon_echo_home_voice.Visuals as V
use amazon_echo_home_voice.Visuals.Report.{report_visuals}
use amazon_echo_home_voice.Store.Tables.{Crypto}
use amazon_echo_home_voice.Accounts.{
  Mode, default_reserve, mode, one_second, request_timeout, timeout_at,
}
use amazon_echo_home_voice.Diagnostics.{report_statuses}
use amazon_echo_home_voice.Handler.Energy.{
  ended, answer_with, lambda_handler, note_statuses, read_report, ready, recover, serve, tell,
  tell_report, is_ended, speech,
}
use amazon_echo_home_voice.Handler.Event.{validate_event}
use amazon_echo_home_voice.Handler.Intents.{Wish, goodbye, help, other, report, requested}
use amazon_echo_home_voice.Handler.Quiet.{
  outside, report_visuals-quiet, requested-quiet, validate_event-quiet,
}

-- The mode and the deadline raise errors of the gateway only, which `serve` answers.
timeout_at-only :
    (deadline maximum reserve now : ℕ)
    → only is_gateway_error (timeout_at deadline maximum reserve now) ≡ true
unfolding timeout_at
timeout_at-only deadline maximum reserve now = ground arith

request_timeout-Only :
    (deadline : Option ℕ) (maximum reserve : ℕ)
    → Only is_gateway_error (request_timeout deadline maximum reserve)
unfolding request_timeout monotonic
request_timeout-Only none maximum reserve w = refl
request_timeout-Only (some deadline) maximum reserve w =
    Only-bind is_gateway_error monotonic (λ now. lift (timeout_at deadline maximum reserve now))
      monotonic-only (λ now v. timeout_at-only deadline maximum reserve now) w
  where
    monotonic-only : Only is_gateway_error monotonic
    monotonic-only v = ap (only is_gateway_error) (monotonic-reads v)

mode-only : (value : Option String) → only is_gateway_error (mode value) ≡ true
unfolding mode
mode-only value = ground arith

module _ (py : Python) (crypto : Crypto) (size : V.Reply → ℕ) where
  ready-Only : (deadline : Option ℕ) → Only is_gateway_error (ready py crypto size deadline)
  unfolding ready getenv
  ready-Only deadline w =
      Only-bind is_gateway_error (lift (mode (w.environ "ENERGY_VOICE_MODE")))
        (λ current. request_timeout deadline one_second default_reserve >>= λ left. pure current)
        (λ v. mode-only (w.environ "ENERGY_VOICE_MODE"))
        (λ current.
          Only-bind is_gateway_error (request_timeout deadline one_second default_reserve)
            (λ left. pure current) (request_timeout-Only deadline one_second default_reserve)
            (λ left v. refl))
        w

  note_statuses-quiet : (payload : Fields) → Only outside (note_statuses py crypto size payload)
  unfolding note_statuses warn
  note_statuses-quiet payload w = elim (Option-cases (report_statuses payload)) [
    | inl e ↦ rw (e, note_statuses) refl
    | inr (line, e) ↦ rw (e, note_statuses) refl
  ]

  answer_with-quiet :
      (event : Json) (selected : String) (detailed : Bool) (found : Fields × Option String)
      → Only outside (answer_with py crypto size event selected detailed found)
  unfolding answer_with
  answer_with-quiet event selected detailed (payload, none) w = refl
  answer_with-quiet event selected detailed (payload, some text) w =
      (Only-bind outside (note_statuses py crypto size payload) _ (note_statuses-quiet payload) λ u.
          Only-bind outside
            (lift (required (as_fields (get "metrics" payload)) (foreign key_error))) _
            (λ v. only-required-or outside (as_fields (get "metrics" payload)) _ refl)
            λ metrics_.
              Only-bind outside
                (lift (required (as_fields (get "reports" payload)) (foreign key_error))) _
                (λ v. only-required-or outside (as_fields (get "reports" payload)) _ refl)
                λ reports.
                  Only-bind outside
                    (lift (required (as_bool (get "mqtt_connected" payload)) (foreign key_error))) _
                    (λ v. only-required-or outside (as_bool (get "mqtt_connected" payload)) _ refl)
                    λ connected.
                      Only-bind outside
                        (lift (
                          report_visuals py metrics_ reports connected size event
                            (record (speech text true) { attributes = some (selected, detailed) })
                            selected detailed))
                        _
                        (λ v.
                          report_visuals-quiet py metrics_ reports connected size event _ selected
                            detailed)
                        λ reply v. refl)
        w

  recover-quiet : (event : Json) (e : Exn) → Only outside (recover py crypto size event e)
  unfolding recover warn
  recover-quiet event (gateway_error message cause) w = refl
  recover-quiet event (transient_gateway_error message cause) w = refl
  recover-quiet event unlinked_account w = refl
  recover-quiet event unconfigured_home w = refl
  recover-quiet event oauth_error w = refl
  recover-quiet event invalid_token w = refl
  recover-quiet event oauth_unavailable w = refl
  recover-quiet event store_error w = refl
  recover-quiet event capacity_error w = refl
  recover-quiet event permission_error w = refl
  recover-quiet event bad_request w = refl
  recover-quiet event (plan_error message) w = refl
  recover-quiet event (foreign f) w = refl

  tell_report-quiet :
      (current : Mode) (event : Json) (deadline : Option ℕ) (selected : String) (detailed : Bool)
      → Only outside (tell_report py crypto size current event deadline selected detailed)
  unfolding tell_report
  tell_report-quiet current event deadline selected detailed w =
      let m = read_report py crypto size current event deadline selected detailed w in
      elim (Result-cases m.0) [
        | inl (found, e) ↦ rw (e, tell_report) (answer_with-quiet event selected detailed found m.1)
        | inr (x, e) ↦ rw (e, tell_report) (recover-quiet event x m.1)
      ]

  tell-quiet :
      (current : Mode) (event : Json) (deadline : Option ℕ) (wish : Wish)
      → Only outside (tell py crypto size current event deadline wish)
  unfolding tell
  tell-quiet current event deadline goodbye w = refl
  tell-quiet current event deadline help w = refl
  tell-quiet current event deadline other w = refl
  tell-quiet current event deadline (report selected detailed) w =
      tell_report-quiet current event deadline selected detailed w

  serve-quiet :
      (event : Json) (deadline : Option ℕ) (fields request : Fields)
      → Only outside (serve py crypto size event deadline fields request)
  unfolding serve
  serve-quiet event deadline fields request w =
      let m = ready py crypto size deadline w in
      elim (Result-cases m.0) [
        | inl (current, e) ↦
            rw (e, serve)
              (Only-bind outside (lift (requested event fields request)) _
                (λ v. requested-quiet event fields request)
                (λ wish. tell-quiet current event deadline wish) m.1)
        | inr (x, e) ↦
            let known : is_gateway_error x ≡ true =
              ap (only is_gateway_error) (sym e) ∙ ready-Only deadline w in
            rw (e, known, serve) refl
      ]

  -- However a request fails, no error of the gateway, the identity provider, the store or the accounts
  -- leaves the handler: what it raises is a refusal of the event or an exception of a library.
  pub lambda_handler-raises :
      (event : Json) (deadline : Option ℕ) (w : World) (e : Exn)
      → (lambda_handler py crypto size event deadline w).0 ≡ raised e
      → outside e ≡ true
  unfolding lambda_handler getenv milliseconds
  lambda_handler-raises event deadline w e h =
      ap (only outside) (sym h)
      ∙ (Only-bind outside
            (lift (validate_event py (or_else (w.environ "ASK_SKILL_ID") "") (now w) event)) _
            (λ v. validate_event-quiet py (or_else (w.environ "ASK_SKILL_ID") "") (now w) event)
            λ request.
              Only-bind outside (lift (required (as_fields event) permission_error)) _
                (λ v. only-required-or outside (as_fields event) permission_error refl)
                λ fields. served fields request)
          w
    where
      now : World → ℕ
      now v = whole_milliseconds (v.wall v.now)

      served :
          (fields request : Fields)
          → Only outside (
              if is_ended py crypto size request
              then pure ended
              else serve py crypto size event deadline fields request)
      served fields request v = elim (Bool-cases (is_ended py crypto size request)) [
        | inl t ↦ rw (t) refl
        | inr f ↦ rw (f) (serve-quiet event deadline fields request v)
      ]
