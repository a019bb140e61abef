-- ===== src/Visuals/Report.antt =====
-- `report_visuals` of visuals.py: the panels of a report.
use amazon_echo_home_voice.Python.{
  Exn, Fields, Json, Python, Result, as_fields, as_str, foreign, get, key_error, ok, required,
  ◌>>=◌,
}
use amazon_echo_home_voice.Prelude.{
  Bool, List, Option, String, [], if◌then◌else◌, none, some, str_eq, true, ℕ, ◌++◌, ◌∷◌,
}
use Prim.Native.String.{◌++◌ as append}
use amazon_echo_home_voice.Visuals.{
  Panel, Reply, report_titles, status_labels, status_colors, entry,
}
use amazon_echo_home_voice.Visuals.Screen.{report_token}
use amazon_echo_home_voice.Visuals.Metric.{Reading, MetricInfo, metrics, metric_of, metric_text}
use amazon_echo_home_voice.Visuals.Attach.{attach}

abbrev footer_text : String
footer_text =
    "Snapshot for this request. Tap Refresh or ask again. Source receipt age is not measurement age."

-- The status and the text of a validated report.
pub record Spoken : Type 0 where
  pub status : String
  pub text : String

abbrev key_missing : Exn
key_missing = foreign key_error

unfoldable pub spoken : Fields → String → Result Spoken
spoken reports name = do
  report ← required (as_fields (get name reports)) key_missing
  status ← required (as_str (get "status" report)) key_missing
  text ← required (as_str (get "text" report)) key_missing
  ok (record { status = status; text = text })

-- The reports that a screen shows: the overview has four.
abbrev pub panel_names : String → List String
panel_names name =
    if str_eq name "status" then "battery" ∷ "solar" ∷ "solar_today" ∷ "alarms" ∷ [] else name ∷ []

abbrev pub flow_names : List String
flow_names = "load_power" ∷ "grid_power" ∷ "battery_power" ∷ []

module _ (py : Python) (metrics_ reports : Fields) (connected : Bool) where
  abbrev pub metric_named : String → Result (Option Reading)
  metric_named name = elim (entry name metrics) [
    | none ↦ ok none
    | some i ↦ metric_of py i name metrics_ reports connected
  ]

  unfoldable pub panel : String → Result Panel
  panel name = do
    report ← spoken reports name
    title ← required (entry name report_titles) key_missing
    label ← required (entry report.status status_labels) key_missing
    color ← required (entry report.status status_colors) key_missing
    shown_metric ← metric_named name
    let shown = metric_text py shown_metric
    ok (record {
      title = title;
      status = label;
      color = color;
      text = py.escape report.text;
      value = shown.0;
      age = shown.1;
    })

  unfoldable pub panels_of : List String → Result (List Panel)
  panels_of [] = ok []
  panels_of (name ∷ names) =
      let rest = panels_of names in panel name >>= λ p. rest >>= λ ps. ok (p ∷ ps)

  unfoldable pub flow_panel : MetricInfo → Option Reading → Result (List Panel)
  flow_panel i none = ok []
  flow_panel i (some r) = do
    label ← required (entry r.status status_labels) key_missing
    color ← required (entry r.status status_colors) key_missing
    let shown = metric_text py (some r)
    ok (
        record {
          title = i.title;
          status = label;
          color = color;
          text = "";
          value = shown.0;
          age = shown.1;
        }
        ∷ [])

  unfoldable pub flow_panels : List String → Result (List Panel)
  flow_panels [] = ok []
  flow_panels (name ∷ names) = do
    i ← required (entry name metrics) key_missing
    metric ← metric_of py i name metrics_ reports connected
    first ← flow_panel i metric
    rest ← flow_panels names
    ok (first ++ rest)

  abbrev pub extra_panels : String → Result (List Panel)
  extra_panels name = if str_eq name "flow" then flow_panels flow_names else ok []

  -- report_visuals
  unfoldable pub report_visuals :
      (size : Reply → ℕ) → Json → Reply → (name : String) → (detailed : Bool) → Result Reply
  report_visuals size event r name detailed = do
    main ← panels_of (panel_names name)
    extra ← extra_panels name
    report ← spoken reports name
    title ← required (entry name report_titles) key_missing
    label ← required (entry report.status status_labels) key_missing
    ok (
        attach py size event r title (main ++ extra) (append label (append "\n\n" report.text))
          footer_text true (report_token name detailed))
