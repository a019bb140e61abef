-- ===== src/Accounts/Budget.antt =====
-- The share of the deadline.
use amazon_echo_home_voice.Prelude.{arith, ℕ, ◌+◌, ◌≡◌, ◌≤◌, ◌<◌, ◌⊎◌, some}
use amazon_echo_home_voice.Python.{gateway, ok, raised}
use amazon_echo_home_voice.World.{World, monotonic}
use amazon_echo_home_voice.World.Returns.{monotonic-reads}
use amazon_echo_home_voice.Accounts.{request_timeout, timeout_at}

-- What a step may use: the most that it asks for, at least a tenth of a second of it, and never a
-- part of the reserve before the deadline.
pub record IsShare (deadline maximum reserve now t : ℕ) : Type 0 where
  pub at_most : t ≤ maximum
  pub in_time : now + t + reserve ≤ deadline
  pub enough : now + reserve + 100_000 ≤ deadline
  pub greatest : (maximum ≤ t) ⊎ (deadline ≤ now + t + reserve)

-- The share of the deadline at a reading of the clock is the greatest that fits, if at least a tenth
-- of a second fits.
timeout_at-IsShare :
    (deadline maximum reserve now t : ℕ)
    → timeout_at deadline maximum reserve now ≡ ok t
    → IsShare deadline maximum reserve now t
unfolding timeout_at
timeout_at-IsShare deadline maximum reserve now t h = record {
  at_most = ground arith;
  in_time = ground arith;
  enough = ground arith;
  greatest = ground arith;
}

-- With less than a tenth of a second left, the step is refused.
pub timeout_at-refused :
    (deadline maximum reserve now : ℕ)
    → deadline < now + reserve + 100_000
    → timeout_at deadline maximum reserve now ≡ raised (gateway "Voice request timed out")
unfolding timeout_at
timeout_at-refused deadline maximum reserve now h = ground arith

-- request_timeout gives a share of the deadline at the reading of the clock that it makes.
pub request_timeout-IsShare :
    (deadline maximum reserve t : ℕ) (w : World)
    → (request_timeout (some deadline) maximum reserve w).0 ≡ ok t
    → IsShare deadline maximum reserve (request_timeout (some deadline) maximum reserve w).1.now t
unfolding request_timeout
request_timeout-IsShare deadline maximum reserve t w h =
    let k : timeout_at deadline maximum reserve (monotonic w).1.now ≡ ok t =
      rw (monotonic-reads w) at h in
    rw (monotonic-reads w) (timeout_at-IsShare deadline maximum reserve _ t k)
