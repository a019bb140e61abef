-- ===== src/World/Keeps.antt =====
-- Actions that leave the tables of the store as they are: a rule for each way to build one.
use amazon_echo_home_voice.Prelude.{arith, Bool, false, if◌then◌else◌, refl, true, ◌∙◌, ◌≡◌}
use amazon_echo_home_voice.Python.{Exn, Result, ok, raised}
use amazon_echo_home_voice.Gateway.Config.{GatewayConfig}
use amazon_echo_home_voice.World.{
  Exec, World, catch, continue, handle, lift, monotonic, next_exchange, send, wall_clock, ◌>>=◌,
}

-- The tables are the same, whether the action returns or raises.
pub record Keeps {ℓ} {A : Type ℓ} (m : Exec A) : Type 0 where
  pub at : (w : World) → (m w).1.tables ≡ w.tables

module _ {ℓ} {A : Type ℓ} where
  pub Keeps-lift : (r : Result A) → Keeps (lift r)
  Keeps-lift r = record { at = λ w. refl }

  handle-Keeps :
      (r : Result A) (handler : Exn → Exec A)
      → ((e : Exn) → Keeps (handler e))
      → (w : World) → (handle r handler w).1.tables ≡ w.tables
  handle-Keeps (ok a) handler h w = refl
  handle-Keeps (raised e) handler h w = (h e).at w

  pub Keeps-catch :
      {m : Exec A} {handler : Exn → Exec A}
      → Keeps m
      → ((e : Exn) → Keeps (handler e))
      → Keeps (catch m handler)
  Keeps-catch {m} {handler} g h = record {
    at = λ w. handle-Keeps (m w).0 handler h (m w).1 ∙ g.at w;
  }

  pub Keeps-if : (t : Bool) {m k : Exec A} → Keeps m → Keeps k → Keeps (if t then m else k)
  Keeps-if true g h = g
  Keeps-if false g h = h

module _ {ℓ κ} {A : Type ℓ} {B : Type κ} where
  continue-Keeps :
      (r : Result A) (f : A → Exec B)
      → ((a : A) → Keeps (f a))
      → (w : World) → (continue r f w).1.tables ≡ w.tables
  continue-Keeps (ok a) f h w = (h a).at w
  continue-Keeps (raised e) f h w = refl

  pub Keeps-bind :
      {m : Exec A} {f : A → Exec B} → Keeps m → ((a : A) → Keeps (f a)) → Keeps (m >>= f)
  Keeps-bind {m} {f} g h = record { at = λ w. continue-Keeps (m w).0 f h (m w).1 ∙ g.at w }

pub Keeps-monotonic : Keeps monotonic
unfolding monotonic
Keeps-monotonic = record { at = λ w. ground arith }

pub Keeps-wall_clock : Keeps wall_clock
unfolding wall_clock
Keeps-wall_clock = record { at = λ w. refl }

pub Keeps-next_exchange : Keeps next_exchange
unfolding next_exchange
Keeps-next_exchange = record { at = λ w. ground arith }

pub Keeps-send : (c : GatewayConfig) → Keeps (send c)
unfolding send
Keeps-send c = record { at = λ w. refl }
