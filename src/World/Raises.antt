-- ===== src/World/Raises.antt =====
-- Which exceptions an action may raise: a test of exceptions that all of its steps respect.
use amazon_echo_home_voice.Prelude.{if◌then◌else◌, refl, Bool, Option, false, none, some, true, ◌≡◌}
use amazon_echo_home_voice.Python.{Exn, Result, ensure, ok, raised, required, ◌>>=◌ as bind}
use amazon_echo_home_voice.World.{Exec, World, continue, ◌>>=◌}

-- Nothing is raised but exceptions of the test.
abbrev pub only {ℓ} : {A : Type ℓ} → (Exn → Bool) → Result A → Bool
only test (ok a) = true
only test (raised e) = test e

module _ {ℓ κ} {A : Type ℓ} {B : Type κ} (test : Exn → Bool) where
  pub only->>= :
      (r : Result A) (k : A → Result B)
      → only test r ≡ true
      → ((a : A) → only test (k a) ≡ true)
      → only test (bind r k) ≡ true
  only->>= (ok a) k h f = f a
  only->>= (raised e) k h f = h

  pub only-required :
      (o : Option A) (e : Exn) (k : A → Result B)
      → test e ≡ true
      → ((a : A) → only test (k a) ≡ true)
      → only test (bind (required o e) k) ≡ true
  only-required none e k h f = h
  only-required (some a) e k h f = f a

module _ {κ} {B : Type κ} (test : Exn → Bool) where
  pub only-ensure :
      (b : Bool) (e : Exn) (k : Result B)
      → test e ≡ true
      → only test k ≡ true
      → only test (bind (ensure b e) (λ u. k)) ≡ true
  only-ensure true e k h f = f
  only-ensure false e k h f = h

  pub only-required-or : (o : Option B) (e : Exn) → test e ≡ true → only test (required o e) ≡ true
  only-required-or none e h = h
  only-required-or (some a) e h = refl

  pub only-if :
      (b : Bool) (r s : Result B)
      → only test r ≡ true
      → only test s ≡ true
      → only test (if b then r else s) ≡ true
  only-if true r s h k = h
  only-if false r s h k = k

-- The same of an action, from every state.
abbrev pub Only {ℓ} : {A : Type ℓ} → (Exn → Bool) → Exec A → Type 0
Only test m = (w : World) → only test (m w).0 ≡ true

module _ {ℓ κ} {A : Type ℓ} {B : Type κ} (test : Exn → Bool) where
  only-continue :
      (r : Result A) (f : A → Exec B) (w : World)
      → only test r ≡ true
      → ((a : A) → Only test (f a))
      → only test (continue r f w).0 ≡ true
  only-continue (ok a) f w h k = k a w
  only-continue (raised e) f w h k = h

  pub Only-bind :
      (m : Exec A) (f : A → Exec B)
      → Only test m
      → ((a : A) → Only test (f a))
      → Only test (m >>= f)
  Only-bind m f h k w = only-continue (m w).0 f (m w).1 (h w) k
