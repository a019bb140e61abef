-- ===== src/Prelude/Lists.antt =====
-- Lists measured by native numbers, Boolean quantifiers, and the lemmas on them.
use Prim.Native.Nat.{ℕ, zero, suc, ◌+◌, ◌≤◌, min}
use Prim.Native.String.{String}
use mathlib.Core.Path.{◌≡◌, refl}
use mathlib.Core.Logic.{◌⊎◌, inl, inr}
use mathlib.Core.Bool.{Bool, true, false, ◌&&◌, ◌||◌}
use mathlib.Core.List.{List, [], ◌∷◌, ◌++◌}
use native.Mathlib.Omega.{arith}
use text.Mathlib.Text.{◌==◌}
use text.Mathlib.TextEquality.{eq_iff}

module _ {ℓ} {A : Type ℓ} where
  abbrev pub length : List A → ℕ
  length [] = 0
  length (x ∷ xs) = suc (length xs)

  abbrev pub take : ℕ → List A → List A
  take zero xs = []
  take (suc n) [] = []
  take (suc n) (x ∷ xs) = x ∷ take n xs

  abbrev pub all : (A → Bool) → List A → Bool
  all p [] = true
  all p (x ∷ xs) = p x && all p xs

  abbrev pub any : (A → Bool) → List A → Bool
  any p [] = false
  any p (x ∷ xs) = p x || any p xs

  -- `filter` by a Boolean test.
  abbrev pub keep_if : (A → Bool) → List A → List A
  keep_if p [] = []
  keep_if p (x ∷ xs) = let rest = keep_if p xs in elim (p x) [ true ↦ x ∷ rest | false ↦ rest ]

  pub length-append : (xs ys : List A) → length (xs ++ ys) ≡ length xs + length ys
  length-append [] ys = omega arith
  length-append (x ∷ xs) ys = omega (arith, length-append xs ys)

  pub length-take : (n : ℕ) (xs : List A) → length (take n xs) ≡ min n (length xs)
  length-take zero xs = omega arith
  length-take (suc n) [] = omega arith
  length-take (suc n) (x ∷ xs) = omega (arith, length-take n xs)

  pub length-keep_if-le : (p : A → Bool) (xs : List A) → length (keep_if p xs) ≤ length xs
  length-keep_if-le p [] = omega arith
  length-keep_if-le p (x ∷ xs) = ground (arith, length-keep_if-le p xs)

  pub all-keep_if : (p : A → Bool) (xs : List A) → all p (keep_if p xs) ≡ true
  all-keep_if p [] = refl
  all-keep_if p (x ∷ xs) = ground (arith, all-keep_if p xs)

module _ {ℓ κ} {A : Type ℓ} (P : A → Type κ) where
  -- Every element has the property.
  abbrev pub All : List A → Type κ
  All [] = Unit
  All (x ∷ xs) = P x × All xs

-- `name in names`, for a fixed collection of texts.
abbrev pub one_of : List String → String → Bool
one_of [] s = false
one_of (x ∷ xs) s = (s == x) || one_of xs s

-- A text that belongs to a fixed collection is one of its members.
abbrev pub OneOf : List String → String → Type 0
OneOf [] s = ⊥
OneOf (x ∷ xs) s = (s ≡ x) ⊎ OneOf xs s

pub one_of-OneOf : (names : List String) (s : String) → one_of names s ≡ true → OneOf names s
one_of-OneOf [] s h = elim (h_absurd h) [ ]
  where
    h_absurd : false ≡ true → ⊥
    h_absurd e = cc
one_of-OneOf (x ∷ xs) s h = pick (s == x) (eq_iff s x).0 (one_of-OneOf xs s) h
  where
    pick :
        (b : Bool)
        → (b ≡ true → s ≡ x)
        → (one_of xs s ≡ true → OneOf xs s)
        → (b || one_of xs s) ≡ true
        → (s ≡ x) ⊎ OneOf xs s
    pick true f g e = inl (f refl)
    pick false f g e = inr (g e)

pub OneOf-one_of : (names : List String) (s : String) → OneOf names s → one_of names s ≡ true
OneOf-one_of [] s h = elim h [ ]
OneOf-one_of (x ∷ xs) s (inl e) = rw ((eq_iff s x).1 e)
OneOf-one_of (x ∷ xs) s (inr h) = ground (arith, OneOf-one_of xs s h)
