-- ===== src/Deploy/Realm/Reads.antt =====
-- The environment file of the generator: what is written as KEY=value lines is read back.
use Prim.Native.Char.{code}
use Prim.Native.String.{◌++◌ as append}
use Prim.Native.String.append as Append
use amazon_echo_home_voice.Prelude.{
  &&-left, &&-right, Bool, Bool-cases, IsDistinct, List, Option, String, [], all, any, ap, arith,
  eq_iff, false, if◌then◌else◌, inl, inr, is_some, map, none, not, refl, some, str_eq, subst, sym,
  true, ◌&&◌, ◌==◌, ◌||◌, ◌∙◌, ◌∷◌, ◌≡◌,
}
use amazon_echo_home_voice.Python.{Python, codes, has_prefix, is_digit, is_upper, nonempty, ok}
use amazon_echo_home_voice.Deploy.Realm.{
  Values, is_key, is_literal, key_value, no_values, read_env, read_line, read_lines, set_value,
  starts_with, updated,
}

-- A line of the file.
abbrev pub line_of : String × String → String
line_of entry = append entry.0 (append "=" entry.1)

abbrev pub entry_of : String → List (String × String) → Option String
entry_of key [] = none
entry_of key ((k, v) ∷ rest) =
    let later = entry_of key rest in if str_eq key k then some v else later

-- Every key and value has the form that the program asks for.
abbrev pub well_formed : List (String × String) → Bool
well_formed [] = true
well_formed ((k, v) ∷ rest) = is_key k && is_literal v && well_formed rest

key_value-append :
    (key value : String)
    → all (λ c. is_upper c || is_digit c || c == b'_') (codes key) ≡ true
    → key_value (append key (append "=" value)) ≡ some (key, value)
unfolding key_value
key_value-append String.[] value h =
    rw (Append.nil (append "=" value), Append.cons "=" "" value, Append.nil value) refl
key_value-append (String.◌∷◌ c key) value h =
    let other : (code c == b'=') ≡ false = ground (arith, h) in
    let rest = key_value-append key value (&&-right _ _ h) in
    rw (Append.cons c key (append "=" value), other, rest) refl

is_key-parts :
    (key : String)
    → is_key key ≡ true
    → (starts_with is_upper key ≡ true)
      × (all (λ c. is_upper c || is_digit c || c == b'_') (codes key) ≡ true)
unfolding is_key
is_key-parts key h = (&&-left _ _ h, &&-right (starts_with is_upper key) _ h)

module _ (py : Python)
    (strips : (line : String)
      → starts_with is_upper line ≡ true
      → starts_with is_upper (py.strip line) ≡ true) where
  read_line-line_of :
      (values : Values) (key value : String)
      → is_key key ≡ true
      → is_literal value ≡ true
      → is_some (values key) ≡ false
      → read_line py values (line_of (key, value)) ≡ ok (set_value key value values)
  unfolding read_line
  read_line-line_of values key value k l fresh =
      let upper : starts_with is_upper (py.strip (line_of (key, value))) ≡ true =
        strips (line_of (key, value))
          (starts-append key (append "=" value) (is_key-parts key k).0) in
      let shown : (not (nonempty (py.strip (line_of (key, value))))
            || has_prefix "#" (py.strip (line_of (key, value))))
          ≡ false =
        no_comment (py.strip (line_of (key, value))) upper in
      rw (shown, line_of, key_value-append key value (is_key-parts key k).1, k, fresh, l) refl
    where
      starts-append :
          (s t : String) → starts_with is_upper s ≡ true → starts_with is_upper (append s t) ≡ true
      starts-append String.[] t h = cc
      starts-append (String.◌∷◌ c s) t h = rw (Append.cons c s t) h

      no_comment :
          (s : String)
          → starts_with is_upper s ≡ true
          → (not (nonempty s) || has_prefix "#" s) ≡ false
      no_comment String.[] h = cc
      no_comment (String.◌∷◌ c s) h = ground (arith, h)

-- What a key has: its entry, else what it had.
abbrev pub over : Option String → Option String → Option String
over none old = old
over (some v) old = some v

over-none : (o : Option String) → over o none ≡ o
over-none none = refl
over-none (some v) = refl

abbrev is_fresh : Values → String × String → Bool
is_fresh values entry = not (is_some (values entry.0))

abbrev key_of : String × String → String
key_of entry = entry.0

fresh-set_value :
    (values : Values) (key value : String) (entries : List (String × String))
    → any (λ e. str_eq (key_of e) key) entries ≡ false
    → all (is_fresh values) entries ≡ true
    → all (is_fresh (set_value key value values)) entries ≡ true
fresh-set_value values key value [] n h = refl
fresh-set_value values key value (e ∷ entries) n h =
    ground (arith, n, h, fresh-set_value values key value entries)

entry_of-none :
    (key : String) (entries : List (String × String))
    → any (λ e. str_eq (key_of e) key) entries ≡ false
    → entry_of key entries ≡ none
entry_of-none key [] n = refl
entry_of-none key ((k, v) ∷ entries) n =
    ground (arith, n, entry_of-none key entries, eq_iff k key, eq_iff key k)

over-set_value :
    (values : Values) (key value other : String) (entries : List (String × String))
    → any (λ e. str_eq (key_of e) key) entries ≡ false
    → over (entry_of other entries) (set_value key value values other)
      ≡ over (entry_of other ((key, value) ∷ entries)) (values other)
over-set_value values key value other entries n = elim (Bool-cases (str_eq other key)) [
  | inl t ↦
      let gone : entry_of other entries ≡ none =
        subst (λ k. entry_of k entries ≡ none) (sym ((eq_iff other key).0 t))
          (entry_of-none key entries n) in
      rw (t, gone) refl
  | inr f ↦ rw (f) refl
]

module _ (py : Python)
    (strips : (line : String)
      → starts_with is_upper line ≡ true
      → starts_with is_upper (py.strip line) ≡ true) where
  read_lines-line_of :
      (values : Values) (entries : List (String × String))
      → well_formed entries ≡ true
      → IsDistinct key_of entries
      → all (is_fresh values) entries ≡ true
      → (found : Values) × (read_lines py values (map line_of entries) ≡ ok found)
        × ((key : String) → found key ≡ over (entry_of key entries) (values key))
  unfolding read_lines
  read_lines-line_of values [] w d f = (values, refl, λ key. refl)
  read_lines-line_of values ((k, v) ∷ entries) w d f =
      let next = set_value k v values in
      let fresh : is_some (values k) ≡ false = ground (arith, f) in
      let line =
        read_line-line_of py strips values k v (ground (arith, w)) (ground (arith, w)) fresh in
      let (found, read, looks) =
        read_lines-line_of next entries (ground (arith, w)) d.1
          (fresh-set_value values k v entries d.0 (ground (arith, f))) in
      (found, rw (line) read, λ key. looks key ∙ over-set_value values k v key entries d.0)

  -- A private file with a KEY=value line for each entry, the keys different, keys and values of the form
  -- that the program asks for, is read: each name has the value of the process's environment, else
  -- that of its entry, else none. Assumed: strip keeps the first character of a line that begins
  -- with an upper-case letter an upper-case letter.
  pub read_env-line_of :
      (entries : List (String × String)) (environ : Values)
      → well_formed entries ≡ true
      → IsDistinct key_of entries
      → (found : Values) × (read_env py
            (some (record { is_private = true; lines = map line_of entries }))
            environ
          ≡ ok found)
        × ((key : String) → found key ≡ over (environ key) (entry_of key entries))
  unfolding read_env
  read_env-line_of entries environ w d =
      let (found, read, looks) = read_lines-line_of no_values entries w d (all-fresh entries) in
      (
        updated found environ,
        rw (read) refl,
        λ key.
            chosen (environ key) (found key)
            ∙ ap (over (environ key)) (looks key ∙ over-none (entry_of key entries)),
      )
    where
      chosen :
          (first second : Option String)
          → elim first [ none ↦ second | some v ↦ some v ] ≡ over first second
      chosen none second = refl
      chosen (some v) second = refl

      all-fresh : (es : List (String × String)) → all (is_fresh no_values) es ≡ true
      all-fresh [] = refl
      all-fresh (e ∷ es) = all-fresh es
