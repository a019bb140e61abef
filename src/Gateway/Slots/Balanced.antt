-- ===== src/Gateway/Slots/Balanced.antt =====
-- Every slot is free or held by one worker, whatever the order of events.
use amazon_echo_home_voice.Prelude.{
  &&-intro, &&-left, &&-right, Bool, Bool-cases, List, [], all, arith, false, if◌then◌else◌, inl,
  inr, leb, refl, suc, true, zero, ℕ, ◌+◌, ◌==◌, ◌∷◌, ◌≡◌,
}
use amazon_echo_home_voice.Python.{ok}
use amazon_echo_home_voice.Gateway.Slots.{
  Event, Pool, Worker, acquire, give_back, begin, blocked, change_worker, ended, exit_with,
  exit_worker, finishing, finishing_at, give_up, idle, overran, put, release, request, result, run,
  slot_count, step, take_result, taken, timed_out, worker_exits, working,
}

-- Workers that have a slot.
abbrev pub has_slot : Worker → Bool
has_slot w = elim w.phase [ working ↦ true | blocked ↦ true | finishing ↦ true | _ ↦ false ]

abbrev pub held : List Worker → ℕ
held [] = 0
held (w ∷ ws) = let n = held ws in if has_slot w then n + 1 else n

-- A worker that is at work has an empty queue; none is blocked on it, and none failed to give its
-- slot back.
abbrev pub is_sane : Worker → Bool
is_sane w = elim w.phase [
  | working ↦ w.queued == 0
  | blocked ↦ false
  | finishing ↦ leb w.queued 1
  | ended ↦ leb w.queued 1
  | overran ↦ false
]

pub record IsBalanced (pool : Pool) : Type 0 where
  pub balance : pool.free + held pool.workers ≡ slot_count
  pub sane : all is_sane pool.workers ≡ true

held-change :
    (n : ℕ) (f : Worker → Worker) (ws : List Worker)
    → ((w : Worker) → is_sane w ≡ true → has_slot (f w) ≡ has_slot w)
    → all is_sane ws ≡ true
    → held (change_worker n f ws) ≡ held ws
unfolding change_worker
held-change n f [] h a = refl
held-change zero f (w ∷ ws) h a = rw (h w (&&-left _ _ a)) refl
held-change (suc n) f (w ∷ ws) h a =
    ground (arith, held-change n f ws h (&&-right (is_sane w) (all is_sane ws) a))

all-change_worker :
    (n : ℕ) (f : Worker → Worker) (ws : List Worker)
    → ((w : Worker) → is_sane w ≡ true → is_sane (f w) ≡ true)
    → all is_sane ws ≡ true
    → all is_sane (change_worker n f ws) ≡ true
unfolding change_worker
all-change_worker n f [] h a = refl
all-change_worker zero f (w ∷ ws) h a = &&-intro _ _ (h w (&&-left _ _ a)) (&&-right _ _ a)
all-change_worker (suc n) f (w ∷ ws) h a =
    &&-intro _ _ (&&-left _ _ a) (all-change_worker n f ws h (&&-right _ _ a))

has_slot-put : (w : Worker) → is_sane w ≡ true → has_slot (put w) ≡ has_slot w
unfolding put
has_slot-put w h = ground arith

is_sane-put : (w : Worker) → is_sane w ≡ true → is_sane (put w) ≡ true
unfolding put
is_sane-put w h = ground arith

has_slot-take_result : (w : Worker) → is_sane w ≡ true → has_slot (take_result w) ≡ has_slot w
unfolding take_result
has_slot-take_result w h = ground arith

is_sane-take_result : (w : Worker) → is_sane w ≡ true → is_sane (take_result w) ≡ true
unfolding take_result
is_sane-take_result w h = ground arith

has_slot-give_up : (w : Worker) → is_sane w ≡ true → has_slot (give_up w) ≡ has_slot w
unfolding give_up
has_slot-give_up w h = refl

is_sane-give_up : (w : Worker) → is_sane w ≡ true → is_sane (give_up w) ≡ true
unfolding give_up
is_sane-give_up w h = h

-- A change of one worker that keeps what holds of it keeps the pool balanced.
change_worker-IsBalanced :
    (n : ℕ) (f : Worker → Worker) (pool : Pool)
    → ((w : Worker) → is_sane w ≡ true → has_slot (f w) ≡ has_slot w)
    → ((w : Worker) → is_sane w ≡ true → is_sane (f w) ≡ true)
    → IsBalanced pool
    → IsBalanced (record pool { workers = change_worker n f pool.workers })
change_worker-IsBalanced n f pool slots sane h = record {
  balance = omega (arith, h.balance, held-change n f pool.workers slots h.sane);
  sane = all-change_worker n f pool.workers sane h.sane;
}

-- The worker in its `finally` has a slot, and gives it up.
held-exit :
    (n : ℕ) (free : ℕ) (ws : List Worker)
    → finishing_at n ws ≡ true
    → held (change_worker n (exit_worker (ok free)) ws) + 1 ≡ held ws
unfolding change_worker finishing_at exit_worker
held-exit n free [] h = cc
held-exit zero free (w ∷ ws) h = ground (arith, h)
held-exit (suc n) free (w ∷ ws) h = ground (arith, held-exit n free ws h)

all-exit :
    (n : ℕ) (free : ℕ) (ws : List Worker)
    → finishing_at n ws ≡ true
    → all is_sane ws ≡ true
    → all is_sane (change_worker n (exit_worker (ok free)) ws) ≡ true
unfolding change_worker finishing_at exit_worker
all-exit n free [] h a = refl
all-exit zero free (w ∷ ws) h a = ground (arith, h, a)
all-exit (suc n) free (w ∷ ws) h a = ground (arith, a, all-exit n free ws h)

begin-IsBalanced :
    (starts : Bool) (pool : Pool) → IsBalanced pool → IsBalanced (begin starts pool).1
unfolding begin give_back acquire release
begin-IsBalanced starts pool h = begun pool.free refl
  where
    begun : (n : ℕ) → pool.free ≡ n → IsBalanced (begin starts pool).1
    begun zero e = rw (e, begin) h
    begun (suc n) e = elim (Bool-cases starts) [
      | inl t ↦
          rw (e, t, begin)
            (record { balance = ground (arith, h.balance, e); sane = ground (arith, h.sane) })
      | inr t ↦
          let room : leb slot_count n ≡ false = ground (arith, h.balance, e) in
          rw (e, t, room, begin, give_back)
            (record { balance = ground (arith, h.balance, e); sane = h.sane })
    ]

exit-IsBalanced :
    (n : ℕ) (pool : Pool)
    → finishing_at n pool.workers ≡ true
    → IsBalanced pool
    → IsBalanced (exit_with n (release pool.free) pool)
unfolding exit_with release
exit-IsBalanced n pool f h =
    let gone = held-exit n (pool.free + 1) pool.workers f in
    let room : leb slot_count pool.free ≡ false = ground (arith, h.balance, gone) in
    rw (room, exit_with)
      (record {
        balance = omega (arith, h.balance, gone);
        sane = all-exit n (pool.free + 1) pool.workers f h.sane;
      })

step-IsBalanced : (e : Event) (pool : Pool) → IsBalanced pool → IsBalanced (step e pool)
unfolding step
step-IsBalanced (request starts) pool h = begin-IsBalanced starts pool h
step-IsBalanced (result n) pool h = change_worker-IsBalanced n put pool has_slot-put is_sane-put h
step-IsBalanced (worker_exits n) pool h = elim (Bool-cases (finishing_at n pool.workers)) [
  | inl t ↦ rw (t, step) (exit-IsBalanced n pool t h)
  | inr t ↦ rw (t, step) h
]
step-IsBalanced (taken n) pool h =
    change_worker-IsBalanced n take_result pool has_slot-take_result is_sane-take_result h
step-IsBalanced (timed_out n) pool h =
    change_worker-IsBalanced n give_up pool has_slot-give_up is_sane-give_up h

run-keeps : (es : List Event) (pool : Pool) → IsBalanced pool → IsBalanced (run es pool)
unfolding run
run-keeps [] pool h = h
run-keeps (e ∷ es) pool h = run-keeps es (step e pool) (step-IsBalanced e pool h)

-- In any order of requests, results, exits and time-outs: each of the 8 slots is free or held by one
-- worker, so at most 8 workers run, also those whose callers gave up; no worker is blocked by its
-- queue, and none gives back a slot that was free.
pub run-IsBalanced : (es : List Event) → IsBalanced (run es idle)
run-IsBalanced es = run-keeps es idle (record { balance = refl; sane = refl })
