-- ===== src/Cli.antt =====
-- cli.py: one fetched report, printed.
use amazon_echo_home_voice.Python.{
  Exn, Fields, Python, Result, as_fields, as_str, foreign, get, is_gateway_error, key_error, ok,
  raised, required,
}
use amazon_echo_home_voice.Prelude.{Option, String, if◌then◌else◌, none, some, str_eq, ℕ}
use amazon_echo_home_voice.World.{Exec, catch, getenv, lift, pure, raise, ◌>>=◌}
use amazon_echo_home_voice.Gateway.Config.{from_env}
use amazon_echo_home_voice.Fetch.{fetch_energy}
use amazon_echo_home_voice.Handler.Energy.{flow_unconfigured_text}

-- The exit code and what is printed to the standard output, if anything.
pub record Printed : Type 0 where
  pub exit_code : ℕ
  pub output : Option String

abbrev printed : ℕ → Option String → Printed
printed exit_code output = record { exit_code = exit_code; output = output }

-- The end of `main`, for a report that is there.
unfoldable pub print_report : Fields → Result Printed
print_report report = elim (as_str (get "text" report)) [
  | none ↦ raised (foreign key_error)
  | some text ↦ elim (as_str (get "status" report)) [
    | none ↦ raised (foreign key_error)
    | some status ↦ ok (printed (if str_eq status "fresh" then 0 else 2) (some text))
  ]
]

-- A report that is absent.
unfoldable pub missing_report : String → Printed
missing_report selected =
    if str_eq selected "flow" then printed 2 (some flow_unconfigured_text) else printed 1 none

unfoldable pub gateway_failed : Exn → Exec Printed
gateway_failed e = if is_gateway_error e then pure (printed 1 none) else raise e

module _ (py : Python) where
  unfoldable pub fetched_reports : Exec Fields
  fetched_reports = do
    environ ← getenv
    config ← lift (from_env py environ)
    payload ← fetch_energy py config
    lift (required (as_fields (get "reports" payload)) (foreign key_error))

  abbrev selected_report : String → Fields → Exec Printed
  selected_report selected reports = elim (as_fields (get selected reports)) [
    | none ↦ pure (missing_report selected)
    | some report ↦ lift (print_report report)
  ]

  -- main, for one of CLI_REPORT_NAMES
  unfoldable pub print_selected : (selected : String) → Exec Printed
  print_selected selected =
      catch (fetched_reports >>= λ reports. selected_report selected reports) gateway_failed
