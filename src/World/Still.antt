-- ===== src/World/Still.antt =====
-- Actions that leave the state as it is: a rule for each way to build one.
use amazon_echo_home_voice.Prelude.{◌≡◌, ◌∙◌, refl}
use amazon_echo_home_voice.Python.{Result, ok, raised}
use amazon_echo_home_voice.World.{Exec, World, continue, getenv, lift, milliseconds, ◌>>=◌}

-- The state that an action leaves is the one that it began in, whether it returns or raises.
pub record Still {ℓ} {A : Type ℓ} (m : Exec A) : Type 0 where
  pub at : (w : World) → (m w).1 ≡ w

pub Still-lift {ℓ} : {A : Type ℓ} (r : Result A) → Still (lift r)
Still-lift r = record { at = λ w. refl }

pub Still-getenv : Still getenv
unfolding getenv
Still-getenv = record { at = λ w. refl }

pub Still-milliseconds : Still milliseconds
unfolding milliseconds
Still-milliseconds = record { at = λ w. refl }

module _ {ℓ κ} {A : Type ℓ} {B : Type κ} where
  continue-Still :
      (r : Result A) (f : A → Exec B) (w : World) → ((a : A) → Still (f a)) → (continue r f w).1 ≡ w
  continue-Still (ok a) f w g = (g a).at w
  continue-Still (raised e) f w g = refl

  pub Still-bind :
      {m : Exec A} {f : A → Exec B} → Still m → ((a : A) → Still (f a)) → Still (m >>= f)
  Still-bind {m} {f} g h = record { at = λ w. continue-Still (m w).0 f (m w).1 h ∙ g.at w }
