-- ===== src/Supervisor/Run/Cleanup.antt =====
-- What a run that has ended leaves behind.
use amazon_echo_home_voice.Prelude.{
  Bool, Bool-cases, List, Option, String, [], all, ap, false, inl, inr, map, none, refl, some,
  subst, sym, ℕ, ◌++◌, ◌+◌, ◌∙◌, ◌∷◌, ◌≡◌,
}
use amazon_echo_home_voice.Python.{Python, Result, Result-cases, ok, raised, ◌>>◌}
use amazon_echo_home_voice.Supervisor.{
  Child, ChildName, Entries, EnvFile, Next, Watch, finished, watching,
}
use amazon_echo_home_voice.Supervisor.Run.{
  Begun, Effect, terminate, kill, reap, System, Turn, after_start, all_started, check_free_ports,
  ending, finally, fresh, behind_status, map_status, health_of, settings, main, names_of,
  none_healthy, run, start_all, start_failed, started, status, status_of, stop_asked, stop_children,
  turn, turns, unless_running, watched, writes,
}
use amazon_echo_home_voice.Supervisor.Run.Signals.{
  collect-append, collect-some, collect-none, last_ready-append, append_nil, stop_children-started,
  stop_children-signals, as_signal, stop_children-terminated, stop_children-killed,
  stop_children-last_ready, collect, as_started, as_terminated, as_killed, last_ready,
}

-- The signals that end these processes, in their order: every group is asked to end, then every group is
-- killed, then every leader is waited for.
abbrev pub endings : List ℕ → List Effect
endings pids = map terminate pids ++ (map kill pids ++ map reap pids)

pub record IsClean (done : List Effect) : Type 0 where
  pub terminated : collect as_terminated done ≡ collect as_started done
  pub killed : collect as_killed done ≡ collect as_started done
  pub ended : collect as_signal done ≡ endings (collect as_started done)
  pub not_ready : last_ready done false ≡ false

-- What was done before the children are stopped.
record IsUpto (pids : List ℕ) (done : List Effect) : Type 0 where
  begun : collect as_started done ≡ pids
  unended : collect as_terminated done ≡ []
  unkilled : collect as_killed done ≡ []
  unsignalled : collect as_signal done ≡ []

finally-IsClean :
    (system : System) (names : List ChildName) (pids : List ℕ) (r : Result ℕ) (done : List Effect)
    → IsUpto pids done
    → IsClean (finally system names pids r done).1
unfolding finally
finally-IsClean system names pids r done u =
    let last = status false (none_healthy names) ∷ stop_children pids in
    let began : collect as_started (done ++ last) ≡ pids =
      collect-append as_started done last
      ∙ ap (λ xs. collect as_started done ++ xs) (stop_children-started pids)
      ∙ append_nil (collect as_started done)
      ∙ u.begun in
    record {
      terminated =
          collect-append as_terminated done last
          ∙ ap (λ xs. xs ++ collect as_terminated (stop_children pids)) u.unended
          ∙ stop_children-terminated pids
          ∙ sym began;
      killed =
          collect-append as_killed done last
          ∙ ap (λ xs. xs ++ collect as_killed (stop_children pids)) u.unkilled
          ∙ stop_children-killed pids
          ∙ sym began;
      ended =
          collect-append as_signal done last
          ∙ ap (λ xs. xs ++ collect as_signal (stop_children pids)) u.unsignalled
          ∙ stop_children-signals pids
          ∙ ap endings (sym began);
      not_ready = last_ready-append done last false ∙ stop_children-last_ready pids false;
    }

unless_running-IsClean :
    (system : System) (names : List ChildName) (pids : List ℕ) (o : Option (Result ℕ))
    (done all_done : List Effect) (r : Result ℕ)
    → unless_running system names pids o done ≡ (some r, all_done)
    → IsUpto pids done
    → IsClean all_done
unfolding unless_running
unless_running-IsClean system names pids none done all_done r h u = cc
unless_running-IsClean system names pids (some q) done all_done r h u =
    subst IsClean (ap (λ p. p.1) h) (finally-IsClean system names pids q done u)

-- A pass starts and signals nothing.
turns-collect {ℓ} :
    {A : Type ℓ} (kind : Effect → Option A) (deadline failure_grace : ℕ) (specs : List Child)
    (w : Watch) (names : List ChildName) (ts : List Turn)
    → ((ready : Bool) (health : List (ChildName × Bool)) → kind (status ready health) ≡ none)
    → collect kind (turns deadline failure_grace specs w names ts).done ≡ []
unfolding turns turn
turns-collect kind deadline failure_grace specs w names [] h = refl
turns-collect kind deadline failure_grace specs w names (t ∷ ts) h =
    let now = turn deadline failure_grace specs w names t in
    let once : collect kind now.done ≡ [] = elim (Bool-cases (writes t.pass)) [
      | inl e ↦ rw (e, turn, h (all (λ b. b) t.pass.healthy) (health_of specs t.pass.healthy)) refl
      | inr e ↦ rw (e, turn) refl
    ] in
    goes_on now.next refl once (λ v.
      turns-collect kind deadline failure_grace specs v
        (turn deadline failure_grace specs w names t).names ts h)
  where
    goes_on :
        (r : Result Next)
        → (turn deadline failure_grace specs w names t).next ≡ r
        → collect kind (turn deadline failure_grace specs w names t).done ≡ []
        → ((v : Watch)
            → collect kind
                (turns deadline failure_grace specs v
                  (turn deadline failure_grace specs w names t).names
                  ts).done
              ≡ [])
        → collect kind (turns deadline failure_grace specs w names (t ∷ ts)).done ≡ []
    goes_on (raised e) f once later = rw (f, turns) once
    goes_on (ok (finished code)) f once later = rw (f, turns) once
    goes_on (ok (watching v)) f once later =
        rw (f, turns)
          (collect-append kind (turn deadline failure_grace specs w names t).done
              (turns deadline failure_grace specs v
                (turn deadline failure_grace specs w names t).names ts).done
            ∙ ap
                (λ xs.
                  xs
                  ++ collect kind
                      (turns deadline failure_grace specs v
                        (turn deadline failure_grace specs w names t).names ts).done)
                once
            ∙ later v)

IsUpto-started :
    (health : List (ChildName × Bool)) (pids : List ℕ) (rest : List Effect)
    → ((A : Type 0) (kind : Effect → Option A)
        → ((ready : Bool) (h : List (ChildName × Bool)) → kind (status ready h) ≡ none)
        → collect kind rest ≡ [])
    → IsUpto pids (((status false health ∷ []) ++ map started pids) ++ rest)
IsUpto-started health pids rest quiet = record {
  begun =
      collect-append as_started (map started pids) rest
      ∙ ap (λ xs. xs ++ collect as_started rest) (collect-some as_started started pids (λ p. refl))
      ∙ ap (λ xs. pids ++ xs) (quiet ℕ as_started (λ r h. refl))
      ∙ append_nil pids;
  unended =
      collect-append as_terminated (map started pids) rest
      ∙ ap (λ xs. xs ++ collect as_terminated rest)
          (collect-none as_terminated started pids (λ p. refl))
      ∙ quiet ℕ as_terminated (λ r h. refl);
  unkilled =
      collect-append as_killed (map started pids) rest
      ∙ ap (λ xs. xs ++ collect as_killed rest) (collect-none as_killed started pids (λ p. refl))
      ∙ quiet ℕ as_killed (λ r h. refl);
  unsignalled =
      collect-append as_signal (map started pids) rest
      ∙ ap (λ xs. xs ++ collect as_signal rest) (collect-none as_signal started pids (λ p. refl))
      ∙ quiet Effect as_signal (λ r h. refl);
}

append_effects : (xs : List Effect) → xs ++ [] ≡ xs
append_effects [] = refl
append_effects (x ∷ xs) = ap (λ ys. x ∷ ys) (append_effects xs)

after_start-IsClean :
    (system : System) (startup failure_grace : ℕ) (specs : List Child)
    (health : List (ChildName × Bool)) (begun : Begun) (pids : List ℕ) (r : Result ℕ)
    (done : List Effect)
    → after_start system startup failure_grace specs (status false health ∷ []) (begun, pids)
      ≡ (some r, done)
    → IsClean done
unfolding after_start
after_start-IsClean system startup failure_grace specs health (start_failed e) pids r done h =
    unless_running-IsClean system (names_of specs) pids (some (raised e)) _ done r h
      (subst (IsUpto pids) (append_effects _) (IsUpto-started health pids [] (λ A k q. refl)))
after_start-IsClean system startup failure_grace specs health stop_asked pids r done h =
    unless_running-IsClean system (names_of specs) pids (some (ok 0)) _ done r h
      (subst (IsUpto pids) (append_effects _) (IsUpto-started health pids [] (λ A k q. refl)))
after_start-IsClean system startup failure_grace specs health all_started pids r done h =
    let deadline = system.begun + startup in
    let loop = turns deadline failure_grace specs fresh (names_of specs) system.turns in
    unless_running-IsClean system loop.names pids (ending loop.next) _ done r h (
      IsUpto-started health pids loop.done (λ A k q.
        turns-collect k deadline failure_grace specs fresh (names_of specs) system.turns q))

behind_status-IsClean :
    (system : System) (startup failure_grace : ℕ) (specs : List Child) (first : Result (Unit {0}))
    (r : Result ℕ) (done : List Effect)
    → behind_status system startup failure_grace specs first ≡ (some r, done)
    → IsClean done
unfolding behind_status
behind_status-IsClean system startup failure_grace specs (raised x) r done h =
    unless_running-IsClean system (names_of specs) [] (some (raised x)) _ done r h
      (record { begun = refl; unended = refl; unkilled = refl; unsignalled = refl })
behind_status-IsClean system startup failure_grace specs (ok u) r done h =
    after_start-IsClean system startup failure_grace specs (none_healthy (names_of specs))
      (start_all system specs).0 (start_all system specs).1 r done h

nothing-IsClean : IsClean []
nothing-IsClean = record { terminated = refl; killed = refl; ended = refl; not_ready = refl }

run-IsClean :
    (system : System) (startup failure_grace : ℕ) (specs : List Child) (r : Result ℕ)
    (done : List Effect)
    → run system startup failure_grace specs ≡ (some r, done)
    → IsClean done
unfolding run watched
run-IsClean system startup failure_grace specs r done h =
    elim (Result-cases (system.adopted >> check_free_ports system specs)) [
      | inr (x, e) ↦
          let ends : run system startup failure_grace specs ≡ (some (raised x), []) =
            rw (e, run) refl in
          subst IsClean (ap (λ p. p.1) (sym ends ∙ h)) nothing-IsClean
      | inl (u, e) ↦
          let goes : run system startup failure_grace specs
              ≡ behind_status system startup failure_grace specs system.first_status =
            rw (e, run) refl in
          behind_status-IsClean system startup failure_grace specs system.first_status r done
            (sym goes ∙ h)
    ]

mapped-IsClean :
    (o : Option (Result ℕ)) (d : List Effect) (r : Result ℕ)
    → map_status o ≡ some r
    → ((q : Result ℕ) → o ≡ some q → IsClean d)
    → IsClean d
mapped-IsClean none d r h k = cc
mapped-IsClean (some q) d r h k = k q refl

module _ (py : Python) where
  -- However the supervisor ends, by a stop signal, a child that exits, a deadline, a start that fails or
  -- a status file that cannot be written: the groups of the processes that it started were all asked to
  -- end, after that were all killed, and after that their leaders were waited for, once for each start, in the
  -- order in which they were started; no other process got a signal; and the last status file that it
  -- tried to write, if any, is not ready.
  pub main-IsClean :
      (system : System) (is_file : String → Bool) (env : Entries) (alexa_file cast_file : EnvFile)
      (r : Result ℕ) (done : List Effect)
      → main py system is_file env alexa_file cast_file ≡ (some r, done)
      → IsClean done
  unfolding main
  main-IsClean system is_file env alexa_file cast_file r done h =
      elim (Result-cases (settings py is_file env alexa_file cast_file)) [
        | inr (x, e) ↦
            let ends : main py system is_file env alexa_file cast_file
                ≡ (some (status_of (raised x)), []) =
              rw (e, main) refl in
            subst IsClean (ap (λ p. p.1) (sym ends ∙ h)) nothing-IsClean
        | inl ((specs, limits), e) ↦
            let goes : main py system is_file env alexa_file cast_file ≡ (
              map_status (run system limits.startup limits.grace specs).0,
              (run system limits.startup limits.grace specs).1,
            ) =
              rw (e, main) refl in
            let ran = run system limits.startup limits.grace specs in
            subst IsClean (ap (λ p. p.1) (sym goes ∙ h)) (
              mapped-IsClean ran.0 ran.1 r (ap (λ p. p.0) (sym goes ∙ h)) (λ q f.
                run-IsClean system limits.startup limits.grace specs q ran.1
                  (ap (λ o. (o, ran.1)) f)))
      ]
