-- ===== src/Tests/History.antt =====
-- Runs of sequences of the store's transactions.
use amazon_echo_home_voice.Prelude.{List, [], some, ◌∷◌, ◌≡◌}
use amazon_echo_home_voice.Tests.Data.{config}
use amazon_echo_home_voice.Store.Tables.{Crypto, no_rows, session_of}
use amazon_echo_home_voice.Store.Sessions.{session_row}
use amazon_echo_home_voice.Store.History.{
  Op, begin_login, consume_login, disconnect, erase, run, save, save_signed_in, sign_in, sign_out,
}
use amazon_echo_home_voice.Store.History.Sound.{IsSound, run-IsSound}
use amazon_echo_home_voice.Store.History.Refines.{replay, view, view-run}

-- Every row opens to ann's session.
abbrev spelled : Crypto
spelled = record {
  encrypt = λ e. 1 ∷ [];
  decrypt = λ bytes. some (session_of "t" "https://id.example" "ann" "access" "csrf" 2000);
  digest = λ kind values. elim values [ [] ↦ kind | v ∷ vs ↦ v ];
}

-- A household signs in, saves its connection in the session, and another one is saved and erased.
abbrev visits : List Op
visits =
    begin_login "state" "verifier" "browser" 1000
    ∷ consume_login "state" "browser" 1010
    ∷ sign_in
        (session_row spelled "t" "https://id.example" "https://id.example" "ann" "access" "csrf"
          1600)
        1010
    ∷ save_signed_in "t" config 1020
    ∷ save "bob" config
    ∷ erase "bob"
    ∷ disconnect "eve"
    ∷ sign_out "t"
    ∷ []

run-IsSound_example : IsSound (run spelled visits no_rows)
run-IsSound_example = run-IsSound spelled visits

view-run_example : view (run spelled visits no_rows) ≡ replay spelled visits no_rows (view no_rows)
view-run_example = view-run spelled visits no_rows
