-- ===== src/Python/Reading.antt =====
-- Typed reads of an object's members, and inversions of the `Result` monad that the proofs share.
use amazon_echo_home_voice.Prelude.{ℤ, ◌≡◌, refl, String, Bool, Option, none, some, arith}
use package.amazon_echo_home_voice.Python.Errors.{Exn, Result, ok, raised, ◌>>=◌}
use package.amazon_echo_home_voice.Python.Values.{
  Json, null, bool, num, str, obj, int, float, Fields, find, get, as_fields, as_str, as_bool,
}

-- The value that a check hands on, or the exception that it raises.
abbrev pub required {ℓ} : {A : Type ℓ} → Option A → Exn → Result A
required none e = raised e
required (some a) e = ok a

-- type(value) is int
abbrev pub as_int : Json → Option ℤ
as_int (num (int n)) = some n
as_int _ = none

pub required->>=-eq-ok {ℓ κ} :
    {A : Type ℓ} {B : Type κ} (o : Option A) (e : Exn) (k : A → Result B) {b : B}
    → (required o e >>= k) ≡ ok b
    → (a : A) × (o ≡ some a) × (k a ≡ ok b)
required->>=-eq-ok none e k h = cc
required->>=-eq-ok (some a) e k h = (a, refl, h)

as_fields-obj : (v : Json) {r : Fields} → as_fields v ≡ some r → v ≡ obj r
as_fields-obj (obj r) h = ground arith
as_fields-obj _ h = cc

as_str-str : (v : Json) {s : String} → as_str v ≡ some s → v ≡ str s
as_str-str (str r) h = ground arith
as_str-str _ h = cc

as_bool-bool : (v : Json) {s : Bool} → as_bool v ≡ some s → v ≡ bool s
as_bool-bool (bool r) h = ground arith
as_bool-bool _ h = cc

as_int-int : (v : Json) {n : ℤ} → as_int v ≡ some n → v ≡ num (int n)
as_int-int (num (int m)) h = ground arith
as_int-int (num (float x)) h = cc
as_int-int _ h = cc

module _ (k : String) (fs : Fields) where
  -- A member that reads as something other than `None` is there.
  find-get : (v : Json) → get k fs ≡ v → (v ≡ null → ⊥) → find k fs ≡ some v
  find-get v e h = ground (arith, h)

  pub find_fields : {r : Fields} → as_fields (get k fs) ≡ some r → find k fs ≡ some (obj r)
  find_fields {r} h = find-get (obj r) (as_fields-obj (get k fs) h) (λ e. cc)

  pub find_str : {s : String} → as_str (get k fs) ≡ some s → find k fs ≡ some (str s)
  find_str {s} h = find-get (str s) (as_str-str (get k fs) h) (λ e. cc)

  pub find_bool : {b : Bool} → as_bool (get k fs) ≡ some b → find k fs ≡ some (bool b)
  find_bool {b} h = find-get (bool b) (as_bool-bool (get k fs) h) (λ e. cc)

  pub find_int : {n : ℤ} → as_int (get k fs) ≡ some n → find k fs ≡ some (num (int n))
  find_int {n} h = find-get (num (int n)) (as_int-int (get k fs) h) (λ e. cc)
