-- ===== src/Tests/Portal.antt =====
-- A run of the form of /connection.
use amazon_echo_home_voice.Prelude.{[], ◌∷◌}
use amazon_echo_home_voice.Tests.Data.{py, world}
use amazon_echo_home_voice.Tests.Households.{plain, provider}
use amazon_echo_home_voice.Portal.{connect}
use amazon_echo_home_voice.Portal.Connected.{Outcome, connect-Outcome}
use amazon_echo_home_voice.Portal.Input.{Pairs}

abbrev typed : Pairs
typed = ("csrf", "portal") ∷ ("url", "https://gw.example/v1/energy") ∷ ("read_token", "token") ∷ []

connect-Outcome_example :
    Outcome py plain "token" typed world (connect py plain provider "token" typed world)
connect-Outcome_example = connect-Outcome py plain provider "token" typed world
