-- ===== src/Handler/Quiet.antt =====
-- The steps of the handler that raise only errors of the request or of a library: `validate_event`,
-- the kinds of requests, and `report_visuals`.
use amazon_echo_home_voice.Prelude.{
  Bool, Bool-cases, List, Option, Option-cases, String, [], arith, false, inl, inr, leb, none,
  one_of, refl, some, str_eq, true, ℕ, ◌&&◌, ◌∷◌, ◌≡◌,
}
use amazon_echo_home_voice.Python.{
  Exn, Fields, Json, Python, as_fields, as_str, bad_request, find, foreign, get, key_error,
  permission_error, plan_error, type_error,
}
use amazon_echo_home_voice.World.Raises.{only, only-if, only->>=, only-ensure, only-required}
use amazon_echo_home_voice.Visuals as V
use amazon_echo_home_voice.Visuals.{entry, report_titles, status_labels, status_colors}
use amazon_echo_home_voice.Visuals.Metric.{
  MetricInfo, Reading, checked_metric, differs, disagrees, metric_of, metrics, unit_is,
}
use amazon_echo_home_voice.Visuals.Report.{
  extra_panels, metric_named, flow_names, flow_panel, flow_panels, panel, panel_names, panels_of,
  report_visuals, spoken,
}
use amazon_echo_home_voice.Visuals.Screen.{
  actions, from_button, only_text, read_token, supports_apl, user_event_selection, text_is,
}
use amazon_echo_home_voice.Handler.Event.{
  application_id, distance, is_skill_id, item, of_session, recent, session_of_skill, validate_event,
}
use amazon_echo_home_voice.Gateway.Payload.{statuses}
use amazon_echo_home_voice.Handler.Intents.{requested}

-- Not one of the errors of the gateway, the identity provider, the store and the accounts.
abbrev pub outside : Exn → Bool
outside permission_error = true
outside (foreign f) = true
outside bad_request = true
outside (plan_error message) = true
outside _ = false

item-quiet : (key : String) (v : Json) → only outside (item key v) ≡ true
item-quiet key v =
    only-required outside (as_fields v) permission_error _ refl
      λ fs. ground (arith, Option-cases (find key fs))

application_id-quiet : (v : Json) → only outside (application_id v) ≡ true
unfolding application_id
application_id-quiet v =
    only->>= outside (item "application" v) _ (item-quiet "application" v)
      λ a. item-quiet "applicationId" a

session_of_skill-quiet :
    (skill_id : String) (event : Fields) → only outside (session_of_skill skill_id event) ≡ true
unfolding session_of_skill
session_of_skill-quiet skill_id event = of (find "session" event)
  where
    of : (session : Option Json) → only outside (of_session skill_id session) ≡ true
    of none = refl
    of (some session) =
        only->>= outside (application_id session) _ (application_id-quiet session)
          λ id. ground (arith, Bool-cases (text_is skill_id id))

recent-quiet :
    (py : Python) (now : ℕ) (timestamp : String) → only outside (recent py now timestamp) ≡ true
unfolding recent
recent-quiet py now timestamp =
    only-required outside (py.fromisoformat (py.utc timestamp)) permission_error _ refl λ instant.
      only-required outside instant permission_error _ refl
        λ at. ground (arith, Bool-cases (leb (distance now at) 150_000))

pub validate_event-quiet :
    (py : Python) (skill_id : String) (now : ℕ) (event : Json)
    → only outside (validate_event py skill_id now event) ≡ true
unfolding validate_event
validate_event-quiet py skill_id now event =
    only-ensure outside (is_skill_id skill_id) permission_error _ refl (
      only-required outside (as_fields event) permission_error _ refl λ fields.
        only-ensure outside (text_is "1.0" (get "version" fields)) permission_error _ refl (
          only->>= outside (item "context" event) _ (item-quiet "context" event) λ context.
            only->>= outside (item "System" context) _ (item-quiet "System" context) λ system.
              only->>= outside (application_id system) _ (application_id-quiet system) λ id.
                only-ensure outside (text_is skill_id id) permission_error _ refl (
                  only->>= outside (session_of_skill skill_id fields) _
                    (session_of_skill-quiet skill_id fields)
                    λ u.
                      only->>= outside (item "request" event) _ (item-quiet "request" event)
                        λ request.
                          only-required outside (as_fields request) permission_error _ refl
                            λ members.
                              only-ensure outside (text_is "en-US" (get "locale" members))
                                permission_error _ refl
                                (only-required outside (find "timestamp" members) permission_error _
                                  refl
                                  λ stamp.
                                    only-required outside (as_str stamp) permission_error _ refl
                                      λ timestamp.
                                        only->>= outside (recent py now timestamp) _
                                          (recent-quiet py now timestamp) λ v. refl))))

user_event_selection-quiet :
    (event : Json) (request : Fields) → only outside (user_event_selection event request) ≡ true
unfolding user_event_selection
user_event_selection-quiet event request =
    only-ensure outside (supports_apl event) permission_error _ refl (
      only-required outside (only_text (get "arguments" request)) permission_error _ refl λ action.
        only-ensure outside (one_of actions action) permission_error _ refl (
          only-ensure outside (from_button action (get "source" request)) permission_error _ refl (
            only-required outside (read_token (get "token" request)) permission_error _ refl
              λ shown. refl)))

pub requested-quiet :
    (event : Json) (fields request : Fields) → only outside (requested event fields request) ≡ true
unfolding requested
requested-quiet event fields request = elim (Option-cases (as_str (get "type" request))) [
  | inl e ↦ rw (e, requested) refl
  | inr (kind, e) ↦
      rw (e, requested)
        (only-if outside (str_eq kind "LaunchRequest") _ _ refl (
          only-if outside (str_eq kind "IntentRequest") _ _
            (only-required outside (as_fields (get "intent" request)) permission_error _ refl
              λ intent.
                only-required outside (as_str (get "name" intent)) permission_error _ refl
                  λ name. refl)
            (only-if outside (str_eq kind "Alexa.Presentation.APL.UserEvent") _ _
              (only->>= outside (user_event_selection event request) _
                (user_event_selection-quiet event request) λ chosen. refl)
              refl)))
]

spoken-quiet : (reports : Fields) (name : String) → only outside (spoken reports name) ≡ true
unfolding spoken
spoken-quiet reports name = only-required outside (as_fields (get name reports)) _ _ refl λ report.
    only-required outside (as_str (get "status" report)) _ _ refl
      λ status. only-required outside (as_str (get "text" report)) _ _ refl λ text. refl

disagrees-quiet :
    (reports : Fields) (name status : String) → only outside (disagrees reports name status) ≡ true
unfolding disagrees differs
disagrees-quiet reports name status = elim (Option-cases (find name reports)) [
  | inl e ↦ rw (e, disagrees) refl
  | inr (report, e) ↦
      rw (e, disagrees)
        (only-required outside (as_fields report) (foreign type_error) _ refl
          λ fs. only-required outside (find "status" fs) (foreign key_error) _ refl λ value. refl)
]

module _ (py : Python) where
  metric_of-quiet :
      (i : MetricInfo) (name : String) (metrics_ reports : Fields) (connected : Bool)
      → only outside (metric_of py i name metrics_ reports connected) ≡ true
  unfolding metric_of checked_metric
  metric_of-quiet i name metrics_ reports connected =
      elim (Option-cases (as_fields (get i.metric metrics_))) [
        | inl e ↦ rw (e, metric_of) refl
        | inr (metric, e) ↦ elim (Option-cases (as_str (get "status" metric))) [
          | inl f ↦ rw (e, f, metric_of, checked_metric) refl
          | inr (status, f) ↦
              rw (e, f, metric_of, checked_metric)
                (only-if outside (one_of statuses status && unit_is py i.unit (get "unit" metric)) _
                  _
                  (only->>= outside (disagrees reports name status) _
                    (disagrees-quiet reports name status) λ refused. refl)
                  refl)
        ]
      ]

  module _ (metrics_ reports : Fields) (connected : Bool) where
    panel-quiet : (name : String) → only outside (panel py metrics_ reports connected name) ≡ true
    unfolding panel
    panel-quiet name =
        only->>= outside (spoken reports name) _ (spoken-quiet reports name) λ report.
          only-required outside (entry name report_titles) _ _ refl λ title.
            only-required outside (entry report.status status_labels) _ _ refl λ label.
              only-required outside (entry report.status status_colors) _ _ refl λ color.
                only->>= outside (metric_named py metrics_ reports connected name) _ (named name)
                  λ shown. refl
      where
        named : (n : String) → only outside (metric_named py metrics_ reports connected n) ≡ true
        named n = elim (Option-cases (entry n metrics)) [
          | inl e ↦ rw (e, metric_named) refl
          | inr (i, e) ↦ rw (e, metric_named) (metric_of-quiet i n metrics_ reports connected)
        ]

    panels_of-quiet :
        (names : List String) → only outside (panels_of py metrics_ reports connected names) ≡ true
    unfolding panels_of
    panels_of-quiet [] = refl
    panels_of-quiet (name ∷ names) =
        only->>= outside (panel py metrics_ reports connected name) _ (panel-quiet name) λ p.
          only->>= outside (panels_of py metrics_ reports connected names) _ (panels_of-quiet names)
            λ ps. refl

    flow_panel-quiet :
        (i : MetricInfo) (r : Option Reading)
        → only outside (flow_panel py metrics_ reports connected i r) ≡ true
    unfolding flow_panel
    flow_panel-quiet i none = refl
    flow_panel-quiet i (some r) =
        only-required outside (entry r.status status_labels) _ _ refl
          λ label. only-required outside (entry r.status status_colors) _ _ refl λ color. refl

    flow_panels-quiet :
        (names : List String)
        → only outside (flow_panels py metrics_ reports connected names) ≡ true
    unfolding flow_panels
    flow_panels-quiet [] = refl
    flow_panels-quiet (name ∷ names) = only-required outside (entry name metrics) _ _ refl λ i.
        only->>= outside (metric_of py i name metrics_ reports connected) _
          (metric_of-quiet i name metrics_ reports connected)
          λ metric.
            only->>= outside (flow_panel py metrics_ reports connected i metric) _
              (flow_panel-quiet i metric)
              λ first.
                only->>= outside (flow_panels py metrics_ reports connected names) _
                  (flow_panels-quiet names) λ rest. refl

    pub report_visuals-quiet :
        (size : V.Reply → ℕ) (event : Json) (r : V.Reply) (name : String) (detailed : Bool)
        → only outside (report_visuals py metrics_ reports connected size event r name detailed)
          ≡ true
    unfolding report_visuals
    report_visuals-quiet size event r name detailed =
        only->>= outside (panels_of py metrics_ reports connected (panel_names name)) _
          (panels_of-quiet (panel_names name))
          λ main.
            only->>= outside (extra_panels py metrics_ reports connected name) _
              (only-if outside (str_eq name "flow") _ _ (flow_panels-quiet flow_names) refl)
              λ extra.
                only->>= outside (spoken reports name) _ (spoken-quiet reports name) λ report.
                  only-required outside (entry name report_titles) _ _ refl λ title.
                    only-required outside (entry report.status status_labels) _ _ refl λ label. refl
