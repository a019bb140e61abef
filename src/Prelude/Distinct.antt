-- ===== src/Prelude/Distinct.antt =====
-- Lists whose elements have different keys, and how many can stand in a fixed collection.
use Prim.Native.Nat.{◌+◌, ◌≤◌}
use Prim.Native.String.{String}
use mathlib.Core.Path.{◌≡◌, refl}
use mathlib.Core.Bool.{Bool, true, false}
use mathlib.Core.List.{List, [], ◌∷◌}
use native.Mathlib.Omega.{arith}
use text.Mathlib.Text.{◌==◌}
use text.Mathlib.TextEquality.{eq_iff}
use package.amazon_echo_home_voice.Prelude.Tests.{if◌then◌else◌}
use package.amazon_echo_home_voice.Prelude.Lists.{all, any, keep_if, length, one_of}

module _ {ℓ} {A : Type ℓ} where
  pub any-keep_if : (p q : A → Bool) (xs : List A) → any p xs ≡ false → any p (keep_if q xs) ≡ false
  any-keep_if p q [] h = refl
  any-keep_if p q (x ∷ xs) h = ground (arith, any-keep_if p q xs)

  -- Fewer of them are left where others were taken out first.
  pub length-keep_if-keep_if :
      (p q : A → Bool) (xs : List A) → length (keep_if p (keep_if q xs)) ≤ length (keep_if p xs)
  length-keep_if-keep_if p q [] = omega arith
  length-keep_if-keep_if p q (x ∷ xs) = ground (arith, length-keep_if-keep_if p q xs)

  pub all-keep_if-of :
      (p q : A → Bool) (xs : List A) → all p xs ≡ true → all p (keep_if q xs) ≡ true
  all-keep_if-of p q [] h = refl
  all-keep_if-of p q (x ∷ xs) h = ground (arith, all-keep_if-of p q xs)

module _ {ℓ} {A : Type ℓ} (key : A → String) where
  -- No two elements have one key.
  abbrev pub IsDistinct : List A → Type 0
  IsDistinct [] = Unit
  IsDistinct (x ∷ xs) = (any (λ y. key y == key x) xs ≡ false) × IsDistinct xs

  pub IsDistinct-keep_if : (q : A → Bool) (xs : List A) → IsDistinct xs → IsDistinct (keep_if q xs)
  IsDistinct-keep_if q [] d = tt
  IsDistinct-keep_if q (x ∷ xs) d =
      ground (arith, d, IsDistinct-keep_if q xs d.1, any-keep_if (λ y. key y == key x) q xs d.0)

-- The collection without one occurrence of a text.
remove : String → List String → List String
remove s [] = []
remove s (x ∷ xs) = let rest = remove s xs in if s == x then xs else x ∷ rest

length-remove :
    (s : String) (xs : List String) → one_of xs s ≡ true → length (remove s xs) + 1 ≡ length xs
unfolding remove
length-remove s [] h = cc
length-remove s (x ∷ xs) h = ground (arith, length-remove s xs)

one_of-remove :
    (s t : String) (xs : List String)
    → (t == s) ≡ false
    → one_of xs t ≡ true
    → one_of (remove s xs) t ≡ true
unfolding remove
one_of-remove s t [] n h = h
one_of-remove s t (x ∷ xs) n h =
    ground (arith, one_of-remove s t xs, eq_iff s x, eq_iff t x, eq_iff t s)

module _ {ℓ} {A : Type ℓ} (key : A → String) where
  all-remove :
      (s : String) (names : List String) (xs : List A)
      → any (λ y. key y == s) xs ≡ false
      → all (λ y. one_of names (key y)) xs ≡ true
      → all (λ y. one_of (remove s names) (key y)) xs ≡ true
  all-remove s names [] n h = refl
  all-remove s names (x ∷ xs) n h =
      ground (arith, all-remove s names xs, one_of-remove s (key x) names)

  -- Elements with different keys, all of them in a collection, are at most as many as it has.
  pub length-le-length :
      (xs : List A) (names : List String)
      → IsDistinct key xs
      → all (λ y. one_of names (key y)) xs ≡ true
      → length xs ≤ length names
  length-le-length [] names d h = omega arith
  length-le-length (x ∷ xs) names d h = ground (
    arith,
    length-remove (key x) names,
    length-le-length xs (remove (key x) names) d.1
        (all-remove (key x) names xs d.0 (ground (arith, h))),
  )
