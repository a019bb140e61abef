-- ===== src/Python/Errors.antt =====
-- The exceptions of the application, and those of the standard library that it catches or keeps as a
-- cause; a function that may raise returns a `Result`.
use amazon_echo_home_voice.Prelude.{
  ℕ, String, ◌≡◌, refl, Bool, true, false, Option, none, arith, ◌⊎◌, inl, inr,
}

-- Exceptions of libraries. `url_error` has the exception in its `reason`, `url_error_text` a text.
pub data Foreign : Type 0 where
  http_error : ℕ → Foreign
  url_error : Foreign → Foreign
  url_error_text : Foreign
  timeout_error connection_refused connection_reset connection_error : Foreign
  certificate_error ssl_error gai_error os_error http_exception : Foreign
  unicode_error value_error recursion_error key_error type_error attribute_error : Foreign
  import_error runtime_error other_error : Foreign

-- The application's exceptions: gateway.py, oauth.py, tenant_store.py, accounts.py and portal.py, and that of
-- scripts/prepare-tunnel-route.py.
-- A gateway error keeps its message and `__cause__`, which diagnostics.py reads.
pub data Exn : Type 0 where
  gateway_error transient_gateway_error : String → Option Foreign → Exn
  oauth_error invalid_token oauth_unavailable : Exn
  store_error capacity_error : Exn
  unlinked_account unconfigured_home : Exn
  permission_error : Exn
  bad_request : Exn
  plan_error : String → Exn
  foreign : Foreign → Exn

pub data Result {ℓ} (A : Type ℓ) : Type ℓ where
  ok : A → Result A
  raised : Exn → Result A

-- A GatewayError with no cause, and the test for either of its classes.
abbrev pub gateway : String → Exn
gateway message = gateway_error message none

-- isinstance(e, GatewayError)
abbrev pub is_gateway_error : Exn → Bool
is_gateway_error (gateway_error m c) = true
is_gateway_error (transient_gateway_error m c) = true
is_gateway_error _ = false

module _ {ℓ κ} {A : Type ℓ} {B : Type κ} where
  -- A call that may raise, and what follows it.
  infixl 5 ◌>>=◌
  abbrev pub ◌>>=◌ : Result A → (A → Result B) → Result B
  raised exception >>= next = raised exception
  ok value >>= next = next value

  pub >>=-eq-ok :
      (call : Result A) (next : A → Result B) {last : B}
      → (call >>= next) ≡ ok last
      → (value : A) × (call ≡ ok value) × (next value ≡ ok last)
  >>=-eq-ok (raised exception) next done = cc
  >>=-eq-ok (ok value) next done = (value, refl, done)

infixl 5 ◌>>◌
abbrev pub ◌>>◌ {ℓ} : {B : Type ℓ} (call : Result (Unit {0})) (rest : Result B) → Result B
call >> rest = call >>= λ done. rest

-- `if not test: raise e`
abbrev pub ensure : Bool → Exn → Result (Unit {0})
ensure false exception = raised exception
ensure true exception = ok tt

pub ensure-eq-ok : (b : Bool) (e : Exn) → ensure b e ≡ ok tt → b ≡ true
ensure-eq-ok b e h = ground arith

-- A check in front of a computation that returns held, and the rest returns the same.
pub ensure->>=-eq-ok {ℓ} :
    {B : Type ℓ} (t : Bool) (e : Exn) (k : Result B) {b : B}
    → (ensure t e >>= λ _. k) ≡ ok b
    → (t ≡ true) × (k ≡ ok b)
ensure->>=-eq-ok true e k h = (refl, h)
ensure->>=-eq-ok false e k h = cc

pub ok-injective {ℓ} : {A : Type ℓ} {a b : A} → ok a ≡ ok b → a ≡ b
ok-injective h = cc

pub Result-cases {ℓ} :
    {A : Type ℓ} (r : Result A) → ((a : A) × (r ≡ ok a)) ⊎ ((e : Exn) × (r ≡ raised e))
Result-cases (ok a) = inl (a, refl)
Result-cases (raised e) = inr (e, refl)
