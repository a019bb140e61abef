-- ===== src/World/Returns.antt =====
-- Inversions of actions that return: what ran before, and in which state the rest began.
use amazon_echo_home_voice.Python.{Exn, Result, ok, raised}
use amazon_echo_home_voice.Prelude.{Bool, arith, false, inl, inr, refl, true, ◌≡◌, ◌⊎◌}
use amazon_echo_home_voice.World.{
  Exec, World, catch, check, continue, handle, monotonic, ◌>>=◌, ◌>>◌,
}

module _ {ℓ κ} {A : Type ℓ} {B : Type κ} where
  -- A sequence that returns ran its first part to a value, and the rest from the state that it left.
  pub record Ran (m : Exec A) (f : A → Exec B) (w : World) (b : B) : Type (ℓ ⊔ κ) where
    pub value : A
    pub first : (m w).0 ≡ ok value
    pub rest : (f value (m w).1).0 ≡ ok b
    pub final : ((m >>= f) w).1 ≡ (f value (m w).1).1

  continue-eq-ok :
      (r : Result A) (f : A → Exec B) (w : World) (b : B)
      → (continue r f w).0 ≡ ok b
      → (a : A) × (r ≡ ok a) × ((f a w).0 ≡ ok b) × ((continue r f w).1 ≡ (f a w).1)
  continue-eq-ok (ok a) f w b h = (a, refl, h, refl)
  continue-eq-ok (raised e) f w b h = cc

  pub bind-Ran :
      (m : Exec A) (f : A → Exec B) (w : World) {b : B} → ((m >>= f) w).0 ≡ ok b → Ran m f w b
  bind-Ran m f w {b} h =
      let (a, p, q, r) = continue-eq-ok (m w).0 f (m w).1 b h in
      record { value = a; first = p; rest = q; final = r }

module _ {ℓ} {A : Type ℓ} where
  -- A guarded action that returns did so by itself, or its handler did; with the state that is left.
  pub catch-ran :
      (m : Exec A) (handler : Exn → Exec A) (w : World) (a : A)
      → (catch m handler w).0 ≡ ok a
      → (((m w).0 ≡ ok a) × ((catch m handler w).1 ≡ (m w).1))
        ⊎ ((e : Exn) × ((handler e (m w).1).0 ≡ ok a)
            × ((catch m handler w).1 ≡ (handler e (m w).1).1))
  catch-ran m handler w a h = handle-ran (m w).0 (m w).1 h
    where
      handle-ran :
          (r : Result A) (w' : World)
          → (handle r handler w').0 ≡ ok a
          → ((r ≡ ok a) × ((handle r handler w').1 ≡ w'))
            ⊎ ((e : Exn) × ((handler e w').0 ≡ ok a) × ((handle r handler w').1 ≡ (handler e w').1))
      handle-ran (ok b) w' k = inl (k, refl)
      handle-ran (raised e) w' k = inr (e, k, refl)

  -- A check in front of an action that returns held.
  pub check-eq-ok :
      (t : Bool) (e : Exn) (m : Exec A) (w : World) {a : A}
      → ((check t e >> m) w).0 ≡ ok a
      → (t ≡ true) × ((m w).0 ≡ ok a)
  check-eq-ok true e m w h = (refl, h)
  check-eq-ok false e m w h = cc

-- A reading of the clock returns the time at which it is made.
pub monotonic-reads : (w : World) → (monotonic w).0 ≡ ok (monotonic w).1.now
unfolding monotonic
monotonic-reads w = ground arith
