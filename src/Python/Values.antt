-- ===== src/Python/Values.antt =====
-- JSON values as `json.loads` returns them. An object keeps its pairs as they were written.
-- A float is exact: `finite k` is the double k * 2^-1074, of which every finite double is one.
use amazon_echo_home_voice.Prelude.{
  ◌*◌, ℕ, ◌^◌, ◌/◌, pos_part, ℤ, String, Bool, true, false, Option, none, some, List, [], ◌∷◌, ◌≡◌,
  arith, refl, times, ltb_ℤ, str_eq, eq_iff, if◌then◌else◌,
}

pub data Float : Type 0 where
  finite : ℤ → Float
  infinite : Bool → Float
  nan : Float

pub data Number : Type 0 where
  int : ℤ → Number
  float : Float → Number

mutual
  pub data Json : Type 0 where
    null : Json
    bool : Bool → Json
    num : Number → Json
    str : String → Json
    arr : Items → Json
    obj : Fields → Json

  pub data Items : Type 0 where
    nil : Items
    cons : Json → Items → Items

  pub data Fields : Type 0 where
    end : Fields
    field : String → Json → Fields → Fields

abbrev pub items : Items → List Json
items nil = []
items (cons v vs) = v ∷ items vs

-- fields.get(key), `none` for a key that is not there
unfoldable pub find : String → Fields → Option Json
find k end = none
find k (field j v fs) = let rest = find k fs in if str_eq j k then some v else rest

-- key in fields
abbrev pub has : String → Fields → Bool
has k fs = elim (find k fs) [ none ↦ false | some v ↦ true ]

-- fields.get(key), `None` for a key that is not there
abbrev pub get : String → Fields → Json
get k fs = elim (find k fs) [ none ↦ null | some v ↦ v ]

-- {key: value for key, value in fields.items() if key != removed}
unfoldable pub without : String → Fields → Fields
without k end = end
without k (field j v fs) = let rest = without k fs in if str_eq j k then rest else field j v rest

-- fields | {key: value}: a key keeps its place, a new one comes last
unfoldable pub assign : String → Json → Fields → Fields
assign k v end = field k v end
assign k v (field j w fs) =
    let rest = assign k v fs in if str_eq j k then field j v fs else field j w rest

abbrev pub as_fields : Json → Option Fields
as_fields (obj fs) = some fs
as_fields _ = none

abbrev pub as_str : Json → Option String
as_str (str s) = some s
as_str _ = none

-- type(value) is bool
abbrev pub as_bool : Json → Option Bool
as_bool (bool b) = some b
as_bool _ = none

-- type(value) in (int, float)
abbrev pub as_number : Json → Option Number
as_number (num n) = some n
as_number _ = none

abbrev pub as_items : Json → Option (List Json)
as_items (arr vs) = some (items vs)
as_items _ = none

-- Comparisons of numbers are exact in Python, also between an int and a float.
scale : ℕ
scale = 2 ^ 1074

abbrev scaled : Number → Option ℤ
scaled (int n) = some (times scale n)
scaled (float (finite k)) = some k
scaled (float _) = none

-- a < b. Only an infinity or a `nan` has no scaled integer.
unfoldable pub num_lt : Number → Number → Bool
unfolding scale
num_lt (float nan) b = false
num_lt (float (infinite positive)) (float nan) = false
num_lt (float (infinite positive)) (float (infinite other)) = if positive then false else other
num_lt (float (infinite positive)) b = if positive then false else true
num_lt a (float nan) = false
num_lt a (float (infinite positive)) = positive
num_lt (int n) (int m) = ltb_ℤ n m
num_lt (int n) (float (finite k)) = ltb_ℤ (times scale n) k
num_lt (float (finite k)) (int n) = ltb_ℤ k (times scale n)
num_lt (float (finite k)) (float (finite j)) = ltb_ℤ k j

abbrev is_nan : Number → Bool
is_nan (float nan) = true
is_nan _ = false

-- a <= b, false at a `nan`
unfoldable pub num_le : Number → Number → Bool
unfolding num_lt
num_le a b =
    if is_nan a then false else if is_nan b then false else if num_lt b a then false else true

-- a == b
unfoldable pub num_eq : Number → Number → Bool
unfolding num_le
num_eq a b = if num_le a b then num_le b a else false

pub find-without :
    (k j : String) (fs : Fields) → find j (without k fs) ≡ (if str_eq k j then none else find j fs)
unfolding find without
find-without k j end = ground arith
find-without k j (field i v fs) =
    ground (arith, find-without k j fs, eq_iff i k, eq_iff i j, eq_iff k j)

pub find-assign :
    (k j : String) (v : Json) (fs : Fields)
    → find j (assign k v fs) ≡ (if str_eq k j then some v else find j fs)
unfolding find assign
find-assign k j v end = refl
find-assign k j v (field i w fs) =
    ground (arith, find-assign k j v fs, eq_iff i k, eq_iff i j, eq_iff k j)

-- int(value) of a number that is not negative; 0 for any other
unfoldable pub whole : Number → ℕ
unfolding scale
whole (int n) = pos_part n
whole (float (finite k)) = pos_part k / scale
whole (float _) = 0

-- A time in seconds as whole milliseconds.
unfoldable pub whole_milliseconds : Float → ℕ
unfolding scale
whole_milliseconds (finite k) = pos_part k * 1000 / scale
whole_milliseconds _ = 0
