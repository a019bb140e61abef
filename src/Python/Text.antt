-- ===== src/Python/Text.antt =====
-- Python's `str`: its characters as code points, and the searches that the code makes in it.
use Prim.Native.Char.{Char, code}
use Prim.Native.String.{◌++◌ as append}
use Prim.Native.String.append as Append
use amazon_echo_home_voice.Prelude.{
  ℕ, ◌≡◌, String, Bool, true, false, ◌&&◌, ◌||◌, Option, none, some, List, [], ◌∷◌, leb, ◌==◌,
  ==_refl, length, all, any, if◌then◌else◌,
}

abbrev pub codes : String → List ℕ
codes String.[] = []
codes (String.◌∷◌ c s) = code c ∷ codes s

-- len(s)
abbrev pub len : String → ℕ
len s = length (codes s)

-- all(test(ord(char)) for char in s)
abbrev pub all_chars : (ℕ → Bool) → String → Bool
all_chars p s = all p (codes s)

abbrev pub any_char : (ℕ → Bool) → String → Bool
any_char p s = any p (codes s)

-- bool(s)
abbrev pub nonempty : String → Bool
nonempty String.[] = false
nonempty (String.◌∷◌ c s) = true

-- The rest of a text behind a prefix, if it has that prefix.
abbrev pub after_prefix : String → String → Option String
after_prefix String.[] s = some s
after_prefix (String.◌∷◌ p ps) String.[] = none
after_prefix (String.◌∷◌ p ps) (String.◌∷◌ c s) =
    let rest = after_prefix ps s in if code p == code c then rest else none

-- s.startswith(prefix)
abbrev pub has_prefix : String → String → Bool
has_prefix prefix s = elim (after_prefix prefix s) [ none ↦ false | some rest ↦ true ]

abbrev cons_first : Char → List String → List String
cons_first c [] = String.◌∷◌ c String.[] ∷ []
cons_first c (s ∷ ss) = String.◌∷◌ c s ∷ ss

-- s.split(separator), for a separator of one character
abbrev pub split : ℕ → String → List String
split sep String.[] = String.[] ∷ []
split sep (String.◌∷◌ c s) =
    let rest = split sep s in if code c == sep then String.[] ∷ rest else cons_first c rest

-- s.split(separator, 1)[0]
abbrev pub before : ℕ → String → String
before sep String.[] = String.[]
before sep (String.◌∷◌ c s) =
    let rest = before sep s in if code c == sep then String.[] else String.◌∷◌ c rest

-- An ASCII character of a range or a set of marks, as the regular expressions have them.
abbrev pub between : ℕ → ℕ → ℕ → Bool
between lo hi c = leb lo c && leb c hi

abbrev pub is_digit : ℕ → Bool
is_digit c = between 48 57 c

abbrev pub is_lower : ℕ → Bool
is_lower c = between 97 122 c

abbrev pub is_upper : ℕ → Bool
is_upper c = between 65 90 c

abbrev pub is_alnum : ℕ → Bool
is_alnum c = is_digit c || is_lower c || is_upper c

-- A text behind a known prefix is split off again.
pub after_prefix-append : (p s : String) → after_prefix p (append p s) ≡ some s
after_prefix-append String.[] s = rw (Append.nil s)
after_prefix-append (String.◌∷◌ c p) s =
    rw (Append.cons c p s) (rw (after_prefix-append p s, ==_refl (code c)))
