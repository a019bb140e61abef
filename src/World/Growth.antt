-- ===== src/World/Growth.antt =====
-- How much an action may add to a measure of the state, such as the number of requests sent: one
-- rule for each way to build an action.
use amazon_echo_home_voice.Prelude.{
  Bool, [], arith, false, if◌then◌else◌, length, length-append, true, ℕ, ◌+◌, ◌∷◌, ◌≤◌,
}
use amazon_echo_home_voice.Python.{Exn, Result, ok, raised}
use amazon_echo_home_voice.Gateway.Config.{GatewayConfig}
use amazon_echo_home_voice.World.{
  Exec, World, catch, continue, handle, lift, monotonic, next_exchange, send, wall_clock, ◌>>=◌,
}

-- `m` adds at most `n` to the measure, whether it returns or raises.
pub record Grows {ℓ} {A : Type ℓ} (measure : World → ℕ) (n : ℕ) (m : Exec A) : Type 0 where
  pub at : (w : World) → measure (m w).1 ≤ measure w + n

module _ {ℓ} {A : Type ℓ} (measure : World → ℕ) where
  pub Grows-lift : (r : Result A) → Grows measure 0 (lift r)
  Grows-lift r = record { at = λ w. omega arith }

  pub Grows-mono : {m : Exec A} {a : ℕ} (b : ℕ) → a ≤ b → Grows measure a m → Grows measure b m
  Grows-mono b le g = record { at = λ w. omega (arith, g.at w) }

  handle_at :
      (r : Result A) (handler : Exn → Exec A) (n : ℕ)
      → ((e : Exn) → Grows measure n (handler e))
      → (w : World) → measure (handle r handler w).1 ≤ measure w + n
  handle_at (ok a) handler n g w = omega arith
  handle_at (raised e) handler n g w = (g e).at w

  pub Grows-catch :
      {m : Exec A} {handler : Exn → Exec A} (a b : ℕ)
      → Grows measure a m
      → ((e : Exn) → Grows measure b (handler e))
      → Grows measure (a + b) (catch m handler)
  Grows-catch {m} {handler} a b g h = record {
    at = λ w. omega (arith, g.at w, handle_at (m w).0 handler b h (m w).1);
  }

  pub Grows-if :
      (t : Bool) {m k : Exec A} {n : ℕ}
      → Grows measure n m
      → Grows measure n k
      → Grows measure n (if t then m else k)
  Grows-if true g h = g
  Grows-if false g h = h

module _ {ℓ κ} {A : Type ℓ} {B : Type κ} (measure : World → ℕ) where
  pub continue_at :
      (r : Result A) (f : A → Exec B) (n : ℕ)
      → ((a : A) → Grows measure n (f a))
      → (w : World) → measure (continue r f w).1 ≤ measure w + n
  continue_at (ok a) f n g w = (g a).at w
  continue_at (raised e) f n g w = omega arith

  pub Grows-bind :
      {m : Exec A} {f : A → Exec B} (a b : ℕ)
      → Grows measure a m
      → ((x : A) → Grows measure b (f x))
      → Grows measure (a + b) (m >>= f)
  Grows-bind {m} {f} a b g h = record {
    at = λ w. omega (arith, g.at w, continue_at (m w).0 f b h (m w).1);
  }

-- The number of gateway requests that were sent.
abbrev pub requests : World → ℕ
requests w = length w.sent

pub requests-monotonic : Grows requests 0 monotonic
unfolding monotonic
requests-monotonic = record { at = λ w. ground arith }

pub requests-wall_clock : Grows requests 0 wall_clock
unfolding wall_clock
requests-wall_clock = record { at = λ w. omega arith }

pub requests-next_exchange : Grows requests 0 next_exchange
unfolding next_exchange
requests-next_exchange = record { at = λ w. ground arith }

pub requests-send : (c : GatewayConfig) → Grows requests 1 (send c)
unfolding send
requests-send c = record { at = λ w. omega (arith, length-append w.sent (c ∷ [])) }
