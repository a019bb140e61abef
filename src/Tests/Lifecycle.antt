-- ===== src/Tests/Lifecycle.antt =====
-- Runs of the supervisor's loop.
use amazon_echo_home_voice.Prelude.{List, [], arith, false, none, refl, some, true, ◌++◌, ◌∷◌, ◌≡◌}
use amazon_echo_home_voice.Python.{Python, ok}
use amazon_echo_home_voice.Tests.Data.{public_ip, py}
use amazon_echo_home_voice.Supervisor.Cast.{cast_spec, child_specs}
use amazon_echo_home_voice.Supervisor.Run.{
  Effect, System, after_start, behind_status, check_free_ports, ending, finally, kill, limits_of,
  main, probed, reap, run, settings, start_all, started, status, status_of, stop_children,
  terminate, turn, turns, unless_running, watched,
}
use amazon_echo_home_voice.Supervisor.Run.Cleanup.{IsClean, main-IsClean}
use amazon_echo_home_voice.Supervisor.{
  Entries, EnvFile, alexa_child, alexa_spec, flag, integer, ipv4, lookup_entry, partition, read_env,
  read_line, read_lines, step, Pass, Watch, finished, watch, watching,
}
use amazon_echo_home_voice.Supervisor.Grace.{IsPatient, watch-IsPatient, watch-gives_up}

abbrev pass : Pass
pass = record {
  stopped = false;
  exited = false;
  stopped_in_probes = false;
  healthy = true ∷ false ∷ [];
  first = 110;
  second = 110;
}

abbrev ready : Watch
ready = record { ready_once = true; unhealthy_since = none }

ready-IsPatient : IsPatient 100 ready
ready-IsPatient = record { ready = refl; later = λ s e. cc }

watch-IsPatient_example :
    (v : Watch) × (watch 90 60 ready (pass ∷ []) ≡ watching v) × IsPatient 100 v
watch-IsPatient_example =
    watch-IsPatient 90 60 100 (omega arith) ready (pass ∷ []) ready-IsPatient refl

watch-gives_up_example :
    watch 90 60
      (record { ready_once = true; unhealthy_since = some 100 })
      ((pass ∷ []) ++ record pass { first = 160; second = 160 } ∷ [])
    ≡ finished 1
watch-gives_up_example =
    watch-gives_up 90 60 100 (omega arith) (pass ∷ []) (record pass { first = 160; second = 160 })
      refl refl (omega arith)

-- A supervisor whose child exits before the first pass of the loop.
abbrev failing : System
failing = record {
  adopted = ok tt;
  can_bind = λ host port. true;
  first_status = ok tt;
  start_of = λ name. record { stopped = false; popen = ok 7 };
  begun = 100;
  turns = record { pass = record pass { exited = true }; written = ok tt } ∷ [];
  last_status = ok tt;
}

abbrev alexa_settings : EnvFile
alexa_settings = record {
  is_symlink = false;
  is_regular = true;
  bytes = 100;
  lines = "ASK_SKILL_ID=a" ∷ "IGW_URL=b" ∷ "IGW_READ_TOKEN=c" ∷ [];
}

abbrev options : Entries
options = ("UNIFIED_ENABLE_CAST", "false") ∷ ("UNIFIED_ALEXA_BIND", "127.0.0.1") ∷ []

abbrev loopback : Python
loopback = record py {
  ip_address = λ s. some (record public_ip { printed = "127.0.0.1"; is_loopback = true });
}

abbrev history : List Effect
history =
    status false ((alexa_child, false) ∷ [])
    ∷ started 7
    ∷ status false ((alexa_child, false) ∷ [])
    ∷ terminate 7
    ∷ kill 7
    ∷ reap 7
    ∷ []

main-IsClean_example : IsClean history
unfolding main settings child_specs alexa_spec cast_spec flag lookup_entry read_env read_lines
    read_line partition integer ipv4 limits_of run check_free_ports watched behind_status start_all
    after_start turns turn step probed ending unless_running finally stop_children status_of
main-IsClean_example =
    main-IsClean loopback failing (λ s. true) options alexa_settings alexa_settings (ok 1) history
      refl
