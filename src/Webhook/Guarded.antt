-- ===== src/Webhook/Guarded.antt =====
-- What an unsigned request can do.
use amazon_echo_home_voice.Prelude.{
  String, or_else, ltb, leb, length, take, ◌==◌, not, ◌&&◌, ℕ, ◌≡◌, ◌≢◌,
}
use amazon_echo_home_voice.Python.{
  Python, Result, ok, ensure, required, foreign, recursion_error, value_error, unicode_error,
  gateway,
}
use amazon_echo_home_voice.UniqueKeys.{unique_object, with_hook}
use amazon_echo_home_voice.Handler.Event.{validate_event}
use amazon_echo_home_voice.World.{World}
use amazon_echo_home_voice.World.Still.{
  Still, Still-bind, Still-getenv, Still-lift, Still-milliseconds,
}
use amazon_echo_home_voice.Store.Tables.{Crypto}
use amazon_echo_home_voice.Visuals as V
use amazon_echo_home_voice.Handler.Energy.{Answer}
use amazon_echo_home_voice.Webhook.{
  Page, Verdict, Wsgi, is_json_request, has_signature, max_request_bytes, load_event, read_event,
  response,
}

module _ (py : Python) (crypto : Crypto) (size : V.Reply → ℕ)
    (verify : (certificate_url signature raw_body : String) → Verdict) where
  Still-load_event : (raw : String) → Still (load_event py crypto size verify raw)
  unfolding load_event
  Still-load_event raw =
      Still-bind (Still-lift (ensure (not (py.too_deep raw)) (foreign recursion_error))) λ _.
        Still-bind (Still-lift (required (py.loads raw) (foreign value_error)))
          λ value. Still-lift (with_hook (unique_object (gateway "Invalid gateway response")) value)

  -- Reading and checking the event changes nothing.
  pub Still-read_event : (r : Wsgi) → Still (read_event py crypto size verify r)
  unfolding read_event
  Still-read_event r =
      Still-bind
        (Still-lift (ensure (is_json_request py crypto size verify r) (foreign value_error)))
        λ _.
          Still-bind
            (Still-lift
              (required (py.parse_int (or_else r.content_length "0")) (foreign value_error)))
            λ n.
              Still-bind
                (Still-lift (ensure (ltb 0 n && leb n max_request_bytes) (foreign value_error)))
                λ _.
                  Still-bind
                    (Still-lift
                      (ensure (has_signature py crypto size verify r) (foreign value_error)))
                    λ _.
                      Still-bind
                        (Still-lift (ensure (length (take n r.input) == n) (foreign value_error)))
                        λ _.
                          Still-bind
                            (Still-lift
                              (required (py.decode (take n r.input)) (foreign unicode_error)))
                            λ raw. Still-bind (Still-load_event raw) λ event.
                              Still-bind Still-getenv λ environ.
                                Still-bind Still-milliseconds λ now.
                                  Still-bind
                                    (Still-lift (
                                      validate_event py (or_else (environ "ASK_SKILL_ID") "") now
                                        event))
                                    λ request. Still-lift (ok (raw, event))

  -- An outcome that changed nothing, and that is not an answer of the skill.
  pub record IsRefusal (w : World) (outcome : Result Page × World) : Type 0 where
    pub unchanged : outcome.1 ≡ w
    pub no_answer : (p : Page) (a : Answer) → outcome.0 ≡ ok p → p.content ≢ response a
