-- ===== src/Handler/Text.antt =====
-- The choice of the text of a report in `lambda_handler` of lambda_handler.py.
-- The text of a report: the concise one for the overview, if there is one.
use amazon_echo_home_voice.Python.{
  Fields, Result, as_fields, as_str, attribute_error, foreign, get, key_error, ok, raised, required,
  ◌>>=◌,
}
use amazon_echo_home_voice.Prelude.{
  Bool, Option, String, if◌then◌else◌, none, not, or_else, some, str_eq, ◌&&◌,
}

unfoldable pub chosen_text : (selected : String) → (detailed : Bool) → Fields → Result String
chosen_text selected detailed fs = do
  text ← required (as_str (get "text" fs)) (foreign key_error)
  ok (
      if str_eq selected "status" && not detailed
      then or_else (as_str (get "brief_text" fs)) text
      else text)

-- The report that was asked for; `none` is an absent `flow` report.
unfoldable pub report_in : (selected : String) → (detailed : Bool) → Fields → Result (Option String)
report_in selected detailed payload = elim (as_fields (get "reports" payload)) [
  | none ↦ raised (foreign key_error)
  | some reports ↦ elim (as_fields (get selected reports)) [
    | some fs ↦ chosen_text selected detailed fs >>= λ text. ok (some text)
    | none ↦ if str_eq selected "flow" then ok none else raised (foreign attribute_error)
  ]
]
