-- ===== src/Gateway/Slots.antt =====
-- The slots that gateway.py and oauth.py keep for their worker threads: `_DNS_SLOTS`,
-- `_PERSONAL_REQUEST_SLOTS` and `_REQUEST_SLOTS`, the queue of each worker, and the callers that
-- wait, in any order. The messages are those of `_personal_body`.
pub mod Balanced
use amazon_echo_home_voice.Prelude.{
  Bool, List, Option, [], false, if◌then◌else◌, leb, none, some, suc, true, zero, ℕ, ◌&&◌, ◌+◌,
  ◌==◌, ◌∷◌,
}
use amazon_echo_home_voice.Python.{Result, foreign, gateway, ok, raised, value_error, ◌>>=◌}

-- threading.BoundedSemaphore(8)
abbrev pub slot_count : ℕ
slot_count = 8

-- A worker before it puts its result, blocked in `put`, in its `finally`, and when it ended there.
pub data Phase : Type 0 where
  working blocked finishing ended overran : Phase

-- A worker with what its queue of one place holds, and whether its caller still waits.
pub record Worker : Type 0 where
  pub phase : Phase
  pub queued : ℕ
  pub waiting : Bool

pub record Pool : Type 0 where
  pub free : ℕ
  pub workers : List Worker

abbrev pub idle : Pool
idle = record { free = slot_count; workers = [] }

-- What happens next: a request, whose thread starts or does not; a worker's result; its `finally`;
-- the caller of a worker takes the result, or its time is up.
pub data Event : Type 0 where
  request : (starts : Bool) → Event
  result worker_exits taken timed_out : ℕ → Event

-- slots.acquire(blocking=False)
unfoldable pub acquire : ℕ → Option ℕ
acquire zero = none
acquire (suc n) = some n

-- slots.release(), which raises ValueError above the initial value
unfoldable pub release : ℕ → Result ℕ
release free = if leb slot_count free then raised (foreign value_error) else ok (free + 1)

unfoldable pub give_back : ℕ → Pool → Result (Unit {0}) × Pool
give_back left pool = elim (release left) [
  | ok back ↦ (raised (gateway "Gateway transport is busy"), record pool { free = back })
  | raised e ↦ (raised e, record pool { free = left })
]

-- A request: no slot is an error, and a thread that does not start gives its slot back.
unfoldable pub begin : (starts : Bool) → Pool → Result (Unit {0}) × Pool
begin starts pool = elim (acquire pool.free) [
  | none ↦ (raised (gateway "Gateway transport is busy"), pool)
  | some left ↦
      if starts
      then (
        ok tt,
        record pool {
          free = left;
          workers = record { phase = working; queued = 0; waiting = true } ∷ pool.workers;
        },
      )
      else give_back left pool
]

-- result.put(...), which blocks while the queue is full
unfoldable pub put : Worker → Worker
put w = elim w.phase [
  | working ↦
      if w.queued == 0
      then record w { phase = finishing; queued = 1 }
      else record w { phase = blocked }
  | _ ↦ w
]

-- finally: slots.release()
unfoldable pub exit_worker : Result ℕ → Worker → Worker
exit_worker (ok free) w = record w { phase = ended }
exit_worker (raised e) w = record w { phase = overran }

-- result.get(...), which takes what the queue holds
unfoldable pub take_result : Worker → Worker
take_result w = if w.waiting && (w.queued == 1) then record w { queued = 0; waiting = false } else w

-- queue.Empty
unfoldable pub give_up : Worker → Worker
give_up w = record w { waiting = false }

unfoldable pub change_worker : ℕ → (Worker → Worker) → List Worker → List Worker
change_worker n f [] = []
change_worker zero f (w ∷ ws) = f w ∷ ws
change_worker (suc n) f (w ∷ ws) = w ∷ change_worker n f ws

abbrev pub is_finishing : Worker → Bool
is_finishing w = elim w.phase [ finishing ↦ true | _ ↦ false ]

unfoldable pub finishing_at : ℕ → List Worker → Bool
finishing_at n [] = false
finishing_at zero (w ∷ ws) = is_finishing w
finishing_at (suc n) (w ∷ ws) = finishing_at n ws

-- The pool behind a call of `release` in a worker.
unfoldable pub exit_with : ℕ → Result ℕ → Pool → Pool
exit_with n (ok free) pool = record pool {
  free = free;
  workers = change_worker n (exit_worker (ok free)) pool.workers;
}
exit_with n (raised e) pool = record pool {
  workers = change_worker n (exit_worker (raised e)) pool.workers;
}

unfoldable pub step : Event → Pool → Pool
step (request starts) pool = (begin starts pool).1
step (result n) pool = record pool { workers = change_worker n put pool.workers }
step (worker_exits n) pool =
    if finishing_at n pool.workers then exit_with n (release pool.free) pool else pool
step (taken n) pool = record pool { workers = change_worker n take_result pool.workers }
step (timed_out n) pool = record pool { workers = change_worker n give_up pool.workers }

unfoldable pub run : List Event → Pool → Pool
run [] pool = pool
run (e ∷ es) pool = run es (step e pool)
