-- ===== src/Supervisor/Run.antt =====
-- `check_free_ports`, `stop_children`, `write_status`, `run` and `main` of
-- deploy/unified/supervisor.py: what a run does, in its order, for any answers of the operating system.
pub mod Signals
pub mod Cleanup
use amazon_echo_home_voice.Prelude.{
  Bool, List, Option, String, [], all, false, if◌then◌else◌, map, none, not, some, ℕ, ◌&&◌, ◌*◌,
  ◌++◌, ◌+◌, ◌||◌, ◌∷◌,
}
use amazon_echo_home_voice.Python.{
  Exn, Python, Result, ensure, foreign, ok, os_error, raised, runtime_error, value_error, ◌>>=◌,
  ◌>>◌,
}
use amazon_echo_home_voice.Supervisor.{
  Child, ChildName, Entries, EnvFile, Next, Pass, Watch, finished, integer, misconfigured, step,
  watching,
}
use amazon_echo_home_voice.Supervisor.Cast.{child_specs}

-- What a run does: a status file with the readiness and the health of the children, a process that is
-- started as the leader of its group, and a signal to a group or a wait for its leader.
pub data Effect : Type 0 where
  status : (ready : Bool) → List (ChildName × Bool) → Effect
  started : (pid : ℕ) → Effect
  terminate kill reap : (pid : ℕ) → Effect

-- What happens at the start of a child: a stop signal before it, and the process or its failure.
pub record Start : Type 0 where
  pub stopped : Bool
  pub popen : Result ℕ

-- What happens in a pass of the loop, and whether the status file could be replaced.
pub record Turn : Type 0 where
  pub pass : Pass
  pub written : Result (Unit {0})

-- What the operating system answers to a run.
pub record System : Type 0 where
  pub adopted : Result (Unit {0})
  pub can_bind : (host : String) → (port : ℕ) → Bool
  pub first_status : Result (Unit {0})
  pub start_of : ChildName → Start
  pub begun : ℕ
  pub turns : List Turn
  pub last_status : Result (Unit {0})

-- check_free_ports
unfoldable pub check_free_ports : System → List Child → Result (Unit {0})
check_free_ports system [] = ok tt
check_free_ports system (c ∷ cs) =
    let rest = check_free_ports system cs in
    ensure (system.can_bind c.host c.port) misconfigured >> rest

-- How the starts end: all children run, a stop signal came, or a start failed.
pub data Begun : Type 0 where
  all_started : Begun
  stop_asked : Begun
  start_failed : Exn → Begun

-- The loop that starts the children, with the processes that it started.
unfoldable pub start_all : System → List Child → Begun × List ℕ
start_all system [] = (all_started, [])
start_all system (c ∷ cs) =
    let (rest, pids) = start_all system cs in
    let s = system.start_of c.name in
    if s.stopped
    then (stop_asked, [])
    else elim s.popen [ raised e ↦ (start_failed e, []) | ok pid ↦ (rest, pid ∷ pids) ]

-- health[spec.name] = ... for every child
abbrev pub health_of : List Child → List Bool → List (ChildName × Bool)
health_of [] hs = []
health_of (c ∷ cs) [] = []
health_of (c ∷ cs) (h ∷ hs) = (c.name, h) ∷ health_of cs hs

-- Whether a pass comes to its status file.
abbrev pub writes : Pass → Bool
writes p = not p.stopped && not p.exited && not p.stopped_in_probes

-- The names in `health` after a pass: it is emptied before the probes.
unfoldable pub probed : List Child → Pass → List ChildName → List ChildName
probed specs p names =
    if p.stopped || p.exited then names else map (λ h. h.0) (health_of specs p.healthy)

-- The loop so far: how it goes on, the names in `health`, and what was done.
pub record Loop : Type 0 where
  pub next : Result Next
  pub names : List ChildName
  pub done : List Effect

-- One pass, with the status that it writes.
unfoldable pub turn :
    (deadline failure_grace : ℕ) → List Child → Watch → List ChildName → Turn → Loop
turn deadline failure_grace specs w names t =
    let after = step deadline failure_grace w t.pass in
    record {
      next = if writes t.pass then (t.written >>= λ u. ok after) else ok after;
      names = probed specs t.pass names;
      done =
          if writes t.pass
          then status (all (λ h. h) t.pass.healthy) (health_of specs t.pass.healthy) ∷ []
          else [];
    }

-- The loop; `watching` where it goes on after these passes.
unfoldable pub turns :
    (deadline failure_grace : ℕ) → List Child → Watch → List ChildName → List Turn → Loop
turns deadline failure_grace specs w names [] = record {
  next = ok (watching w);
  names = names;
  done = [];
}
turns deadline failure_grace specs w names (t ∷ ts) =
    let now = turn deadline failure_grace specs w names t in
    elim now.next [
      | raised e ↦ now
      | ok (finished code) ↦ now
      | ok (watching next) ↦
          let later = turns deadline failure_grace specs next now.names ts in
          record later { done = now.done ++ later.done }
    ]

-- stop_children: every group is asked to end, then killed, and its leader is waited for. The time
-- that it waits in between changes no signal.
unfoldable pub stop_children : List ℕ → List Effect
stop_children pids = map terminate pids ++ (map kill pids ++ map reap pids)

abbrev pub none_healthy : List ChildName → List (ChildName × Bool)
none_healthy names = map (λ name. (name, false)) names

-- The `finally` of `run`: the children are stopped, also when the status file cannot be written, and
-- its exception goes on in place of what was returned.
unfoldable pub finally :
    System → List ChildName → List ℕ → Result ℕ → List Effect → Result ℕ × List Effect
finally system names pids r done =
    (system.last_status >>= λ u. r, done ++ status false (none_healthy names) ∷ stop_children pids)

-- The end of the loop; `none` while it goes on.
unfoldable pub ending : Result Next → Option (Result ℕ)
ending (raised e) = some (raised e)
ending (ok (finished code)) = some (ok code)
ending (ok (watching w)) = none

-- A run that goes on has stopped nothing.
unfoldable pub unless_running :
    System
    → List ChildName
    → List ℕ
    → Option (Result ℕ)
    → List Effect
    → Option (Result ℕ) × List Effect
unless_running system names pids none done = (none, done)
unless_running system names pids (some r) done =
    let (last, all_done) = finally system names pids r done in (some last, all_done)

abbrev pub fresh : Watch
fresh = record { ready_once = false; unhealthy_since = none }

abbrev pub names_of : List Child → List ChildName
names_of specs = map (λ (c : Child). c.name) specs

-- What `run` does once the children have been started, or not; `before_` is what it did so far.
unfoldable pub after_start :
    System
    → (startup_timeout failure_grace : ℕ) → List Child
    → List Effect
    → Begun × List ℕ
    → Option (Result ℕ) × List Effect
after_start system startup_timeout failure_grace specs before_ (start_failed e, pids) =
    unless_running system (names_of specs) pids (some (raised e)) (before_ ++ map started pids)
after_start system startup_timeout failure_grace specs before_ (stop_asked, pids) =
    unless_running system (names_of specs) pids (some (ok 0)) (before_ ++ map started pids)
after_start system startup_timeout failure_grace specs before_ (all_started, pids) =
    let loop =
      turns (system.begun + startup_timeout) failure_grace specs fresh (names_of specs)
        system.turns in
    unless_running system loop.names pids (ending loop.next)
      (before_ ++ map started pids ++ loop.done)

-- The `try` block of `run` behind its first status file.
unfoldable pub behind_status :
    System
    → (startup_timeout failure_grace : ℕ) → List Child
    → Result (Unit {0})
    → Option (Result ℕ) × List Effect
behind_status system startup_timeout failure_grace specs (raised e) =
    unless_running system (names_of specs) [] (some (raised e))
      (status false (none_healthy (names_of specs)) ∷ [])
behind_status system startup_timeout failure_grace specs (ok u) =
    after_start system startup_timeout failure_grace specs
      (status false (none_healthy (names_of specs)) ∷ []) (start_all system specs)

-- The `try` block of `run` with its `finally`.
unfoldable pub watched :
    System → (startup_timeout failure_grace : ℕ) → List Child → Option (Result ℕ) × List Effect
watched system startup_timeout failure_grace specs =
    behind_status system startup_timeout failure_grace specs system.first_status

-- run: the result, or `none` while it goes on, and what it has done
unfoldable pub run :
    System → (startup_timeout failure_grace : ℕ) → List Child → Option (Result ℕ) × List Effect
run system startup_timeout failure_grace specs =
    elim (system.adopted >> check_free_ports system specs) [
      | raised e ↦ (some (raised e), [])
      | ok u ↦ watched system startup_timeout failure_grace specs
    ]

-- except (ConfigurationError, OSError, RuntimeError): the status, or the exception that leaves `main`
unfoldable pub status_of : Result ℕ → Result ℕ
status_of (ok code) = ok code
status_of (raised (foreign value_error)) = ok 1
status_of (raised (foreign os_error)) = ok 1
status_of (raised (foreign runtime_error)) = ok 1
status_of (raised e) = raised e

abbrev pub map_status : Option (Result ℕ) → Option (Result ℕ)
map_status none = none
map_status (some r) = some (status_of r)

-- The options of `run`, in microseconds.
pub record Limits : Type 0 where
  pub startup : ℕ
  pub shutdown : ℕ
  pub grace : ℕ
  pub probe : ℕ

module _ (py : Python) where
  unfoldable pub limits_of : Entries → Result Limits
  limits_of env = do
    startup ← integer py env "UNIFIED_STARTUP_TIMEOUT" 90 5 300
    shutdown ← integer py env "UNIFIED_SHUTDOWN_TIMEOUT" 12 1 20
    grace ← integer py env "UNIFIED_FAILURE_GRACE" 60 15 600
    probe ← integer py env "UNIFIED_PROBE_TIMEOUT" 3 1 10
    ok (record {
      startup = startup * 1_000_000;
      shutdown = shutdown * 1_000_000;
      grace = grace * 1_000_000;
      probe = probe * 1_000_000;
    })

  unfoldable pub settings :
      (is_file : String → Bool)
      → Entries
      → (alexa_file cast_file : EnvFile) → Result (List Child × Limits)
  settings is_file env alexa_file cast_file = do
    specs ← child_specs py is_file env alexa_file cast_file
    limits ← limits_of env
    ok (specs, limits)

  -- main
  unfoldable pub main :
      System
      → (is_file : String → Bool) → Entries
      → (alexa_file cast_file : EnvFile) → Option (Result ℕ) × List Effect
  main system is_file env alexa_file cast_file = elim (settings is_file env alexa_file cast_file) [
    | raised e ↦ (some (status_of (raised e)), [])
    | ok (specs, limits) ↦
        let (r, done) = run system limits.startup limits.grace specs in (map_status r, done)
  ]
