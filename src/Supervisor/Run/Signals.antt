-- ===== src/Supervisor/Run/Signals.antt =====
-- The signals among the effects of a run, and those of `stop_children`.
use amazon_echo_home_voice.Prelude.{
  Bool, List, Option, [], ap, arith, map, none, refl, some, ℕ, ◌++◌, ◌∙◌, ◌∷◌, ◌≡◌,
}
use amazon_echo_home_voice.Supervisor.Run.{
  Effect, kill, reap, started, status, stop_children, terminate,
}

-- What is read from the effects of one kind, in their order.
abbrev pub collect {ℓ} : {A : Type ℓ} → (Effect → Option A) → List Effect → List A
collect kind [] = []
collect kind (e ∷ es) =
    let rest = collect kind es in elim (kind e) [ none ↦ rest | some x ↦ x ∷ rest ]

abbrev pub as_started : Effect → Option ℕ
as_started (started pid) = some pid
as_started _ = none

abbrev pub as_terminated : Effect → Option ℕ
as_terminated (terminate pid) = some pid
as_terminated _ = none

abbrev pub as_killed : Effect → Option ℕ
as_killed (kill pid) = some pid
as_killed _ = none

-- The signals and the waits.
abbrev pub as_signal : Effect → Option Effect
as_signal (terminate pid) = some (terminate pid)
as_signal (kill pid) = some (kill pid)
as_signal (reap pid) = some (reap pid)
as_signal _ = none

-- The readiness in the last status file.
abbrev pub last_ready : List Effect → Bool → Bool
last_ready [] ready = ready
last_ready (status now health ∷ es) ready = last_ready es now
last_ready (e ∷ es) ready = last_ready es ready

pub collect-append {ℓ} :
    {A : Type ℓ} (kind : Effect → Option A) (xs ys : List Effect)
    → collect kind (xs ++ ys) ≡ collect kind xs ++ collect kind ys
collect-append kind [] ys = refl
collect-append kind (x ∷ xs) ys = ground (arith, collect-append kind xs ys)

pub collect-some :
    (kind : Effect → Option ℕ) (make : ℕ → Effect) (pids : List ℕ)
    → ((pid : ℕ) → kind (make pid) ≡ some pid)
    → collect kind (map make pids) ≡ pids
collect-some kind make [] h = refl
collect-some kind make (pid ∷ pids) h = ground (arith, h pid, collect-some kind make pids h)

pub collect-signal :
    (make : ℕ → Effect) (pids : List ℕ)
    → ((pid : ℕ) → as_signal (make pid) ≡ some (make pid))
    → collect as_signal (map make pids) ≡ map make pids
collect-signal make [] h = refl
collect-signal make (pid ∷ pids) h = ground (arith, h pid, collect-signal make pids h)

pub collect-none {ℓ} :
    {A : Type ℓ} (kind : Effect → Option A) (make : ℕ → Effect) (pids : List ℕ)
    → ((pid : ℕ) → kind (make pid) ≡ none)
    → collect kind (map make pids) ≡ []
collect-none kind make [] h = refl
collect-none kind make (pid ∷ pids) h = ground (arith, h pid, collect-none kind make pids h)

pub last_ready-append :
    (xs ys : List Effect) (ready : Bool)
    → last_ready (xs ++ ys) ready ≡ last_ready ys (last_ready xs ready)
last_ready-append [] ys ready = refl
last_ready-append (status now health ∷ xs) ys ready = last_ready-append xs ys now
last_ready-append (started pid ∷ xs) ys ready = last_ready-append xs ys ready
last_ready-append (terminate pid ∷ xs) ys ready = last_ready-append xs ys ready
last_ready-append (kill pid ∷ xs) ys ready = last_ready-append xs ys ready
last_ready-append (reap pid ∷ xs) ys ready = last_ready-append xs ys ready

-- Signals and waits write no status.
pub last_ready-map :
    (make : ℕ → Effect) (pids : List ℕ) (rest : List Effect) (ready : Bool)
    → ((pid : ℕ) (es : List Effect) → last_ready (make pid ∷ es) ready ≡ last_ready es ready)
    → last_ready (map make pids ++ rest) ready ≡ last_ready rest ready
last_ready-map make [] rest ready h = refl
last_ready-map make (pid ∷ pids) rest ready h =
    h pid (map make pids ++ rest) ∙ last_ready-map make pids rest ready h

pub stop_children-collect {ℓ} :
    {A : Type ℓ} (kind : Effect → Option A) (pids : List ℕ) (a b c : List A)
    → collect kind (map terminate pids) ≡ a
    → collect kind (map kill pids) ≡ b
    → collect kind (map reap pids) ≡ c
    → collect kind (stop_children pids) ≡ a ++ (b ++ c)
unfolding stop_children
stop_children-collect kind pids a b c h k l =
    collect-append kind (map terminate pids) (map kill pids ++ map reap pids)
    ∙ ap (λ xs. collect kind (map terminate pids) ++ xs)
        (collect-append kind (map kill pids) (map reap pids))
    ∙ rw (h, k, l) refl

pub append_nil : (xs : List ℕ) → xs ++ [] ≡ xs
append_nil [] = refl
append_nil (x ∷ xs) = ap (λ ys. x ∷ ys) (append_nil xs)

-- Every group is asked to end and killed, and nothing is started.
pub stop_children-started : (pids : List ℕ) → collect as_started (stop_children pids) ≡ []
stop_children-started pids =
    stop_children-collect as_started pids [] [] []
      (collect-none as_started terminate pids (λ p. refl))
      (collect-none as_started kill pids (λ p. refl))
      (collect-none as_started reap pids (λ p. refl))

pub stop_children-terminated : (pids : List ℕ) → collect as_terminated (stop_children pids) ≡ pids
stop_children-terminated pids =
    stop_children-collect as_terminated pids pids [] []
      (collect-some as_terminated terminate pids (λ p. refl))
      (collect-none as_terminated kill pids (λ p. refl))
      (collect-none as_terminated reap pids (λ p. refl))
    ∙ append_nil pids

pub stop_children-killed : (pids : List ℕ) → collect as_killed (stop_children pids) ≡ pids
stop_children-killed pids =
    stop_children-collect as_killed pids [] pids []
      (collect-none as_killed terminate pids (λ p. refl))
      (collect-some as_killed kill pids (λ p. refl)) (collect-none as_killed reap pids (λ p. refl))
    ∙ append_nil pids

-- Every group is asked to end, then every group is killed, then every leader is waited for.
pub stop_children-signals :
    (pids : List ℕ)
    → collect as_signal (stop_children pids)
      ≡ map terminate pids ++ (map kill pids ++ map reap pids)
stop_children-signals pids =
    stop_children-collect as_signal pids (map terminate pids) (map kill pids) (map reap pids)
      (collect-signal terminate pids (λ p. refl)) (collect-signal kill pids (λ p. refl))
      (collect-signal reap pids (λ p. refl))

pub last_ready-reap : (pids : List ℕ) (ready : Bool) → last_ready (map reap pids) ready ≡ ready
last_ready-reap [] ready = refl
last_ready-reap (pid ∷ pids) ready = last_ready-reap pids ready

pub stop_children-last_ready :
    (pids : List ℕ) (ready : Bool) → last_ready (stop_children pids) ready ≡ ready
unfolding stop_children
stop_children-last_ready pids ready =
    last_ready-map terminate pids (map kill pids ++ map reap pids) ready (λ pid es. refl)
    ∙ last_ready-map kill pids (map reap pids) ready (λ pid es. refl)
    ∙ last_ready-reap pids ready
