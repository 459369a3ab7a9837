-- ===== src/Configuration.antt =====
-- configuration.py: a TOML document is admitted field by field. An error is `ConfigurationError`.
-- The children have the operator's configuration (Operator) and its bounds (Bounds).
pub mod Operator
pub mod Bounds
use fb_scraper.Prelude.{
  ℕ, suc, ◌*◌, Bool, true, false, not, ◌&&◌, ◌||◌, Option, none, some, List, [], ◌∷◌, Text, text,
  text_eq, nat_eq, ◌==◌, all, contains, ltb, strip, map, ℤ, pos, negsuc, if◌then◌else◌,
}
use fb_scraper.Prelude.Dict.{Dict, lookup}
use fb_scraper.Errors.{Result, ok, err, configuration_error}

-- A Python float: TOML has `nan` and `inf`. The two
-- numbers n and d stand for n / (d + 1).
pub data Number : Type 0 where
  nan infinity minus_infinity : Number
  from_zero below_zero : ℕ → ℕ → Number

-- `a < b`: false when one of them is not a number, and between the two zeros
unfoldable pub less : Number → Number → Bool
less nan b = false
less infinity b = false
less minus_infinity nan = false
less minus_infinity minus_infinity = false
less minus_infinity b = true
less (from_zero n d) infinity = true
less (from_zero n d) (from_zero m e) = ltb (n * suc e) (m * suc d)
less (from_zero n d) b = false
less (below_zero n d) infinity = true
less (below_zero n d) (from_zero m e) = ltb 0 n || ltb 0 m
less (below_zero n d) (below_zero m e) = ltb (m * suc d) (n * suc e)
less (below_zero n d) b = false

-- `a == float(n)`
unfoldable pub equals : Number → ℕ → Bool
equals (from_zero m d) n = m == n * suc d
equals (below_zero m d) n = (m == 0) && (n == 0)
equals a n = false

-- What `tomllib` reads: `other` is a date, or an array or a table in an array; `nested` is a table
pub data Scalar : Type 0 where
  string : Text → Scalar
  boolean : Bool → Scalar
  integer : ℤ → Scalar
  float : Number → Scalar
  other : Scalar

pub data Entry : Type 0 where
  scalar : Scalar → Entry
  array : List Scalar → Entry
  nested : Entry

pub data Section : Type 0 where
  table : Dict Text Entry → Section
  entry : Entry → Section

-- A part that is refused refuses the whole.
module _ {X Y : Type 0} where
  infixl 10 ◌>>=◌ ◌>>◌
  abbrev pub ◌>>=◌ : Result X → (X → Result Y) → Result Y
  err refusal >>= rest = err refusal
  ok x >>= rest = rest x

  abbrev pub ◌>>◌ : Result X → Result Y → Result Y
  first >> rest = first >>= λ x. rest

abbrev pub refuse : {A : Type 0} → Result A
refuse = err configuration_error

-- `if b: raise ConfigurationError`
abbrev pub refuse_if : Bool → Result (Unit {0})
refuse_if b = if b then refuse else ok tt

-- `_table`
abbrev pub table_at : Option Section → Result (Dict Text Entry)
table_at (some (table d)) = ok d
table_at _ = refuse

abbrev pub is_empty : Text → Bool
is_empty [] = true
is_empty (c ∷ t) = false

-- `_text`
unfoldable pub text_of : Option Entry → Result Text
text_of (some (scalar (string t))) = if is_empty (strip t) then refuse else ok (strip t)
text_of _ = refuse

-- `float` of a TOML number
abbrev pub to_float : ℤ → Number
to_float (pos n) = from_zero n 0
to_float (negsuc n) = below_zero (suc n) 0

-- `_number`
unfoldable pub number_of : Scalar → Result Number
number_of (integer z) = ok (to_float z)
number_of (float x) = ok x
number_of _ = refuse

abbrev pub number_at : Option Entry → Result Number
number_at (some (scalar s)) = number_of s
number_at _ = refuse

-- `_integer`
unfoldable pub integer_at : Option Entry → Result ℤ
integer_at (some (scalar (integer z))) = ok z
integer_at _ = refuse

-- `lower < minimum or upper > maximum or lower > upper`
unfoldable pub is_outside : ℕ → ℕ → Number → Number → Bool
unfolding less
is_outside minimum maximum lower upper =
    less lower (from_zero minimum 0) || (less (from_zero maximum 0) upper || less upper lower)

-- `_number_pair`
unfoldable pub number_pair : ℕ → ℕ → Option Entry → Result (Number × Number)
unfolding number_of is_outside
number_pair minimum maximum (some (array (a ∷ b ∷ []))) = do
  lower ← number_of a
  upper ← number_of b
  refuse_if (is_outside minimum maximum lower upper)
  ok (lower, upper)
number_pair minimum maximum _ = refuse

-- `set(values) - allowed` is empty, and `expected.issubset(values)`
abbrev pub has_only : {V : Type 0} → List Text → Dict Text V → Bool
has_only allowed values = all (λ (k, v). contains allowed k) values

abbrev pub has_all : {V : Type 0} → List Text → Dict Text V → Bool
has_all expected values = all (contains (map (λ (k, v). k) values)) expected

-- `Path(value)`, and what `_path` makes of it
pub record Paths : Type 0 where
  pub is_absolute : Text → Bool
  pub resolve : Text → Text → Text

-- `_path`, relative to the directory of the file
unfoldable pub path_at : Paths → Text → Option Entry → Result Text
unfolding text_of
path_at paths parent value = do
  t ← text_of value
  ok (if paths.is_absolute t then t else paths.resolve parent t)

-- `FixtureRunConfiguration`
pub record FixtureRun : Type 0 where
  pub fixture : Text
  pub output : Text
  pub raw_root : Text

-- `FixtureRunConfiguration._path`: the text is tested without white space and kept with it
unfoldable pub fixture_path : Paths → Text → Option Entry → Result Text
fixture_path paths parent (some (scalar (string t))) =
    if is_empty (strip t)
    then refuse
    else ok (if paths.is_absolute t then t else paths.resolve parent t)
fixture_path paths parent _ = refuse

abbrev pub fixture_keys : List Text
fixture_keys = text "fixture" ∷ text "output" ∷ text "raw_root" ∷ []

-- `FixtureRunConfiguration.load`, on what `tomllib` has read
unfoldable pub load_fixture : Paths → Text → Dict Text Section → Result FixtureRun
unfolding fixture_path
load_fixture paths parent payload = do
  refuse_if (not (has_only (text "run" ∷ []) payload && has_all (text "run" ∷ []) payload))
  values ← table_at (lookup (text "run") payload)
  refuse_if (not (has_only fixture_keys values && has_all fixture_keys values))
  fixture ← fixture_path paths parent (lookup (text "fixture") values)
  output ← fixture_path paths parent (lookup (text "output") values)
  raw_root ← fixture_path paths parent (lookup (text "raw_root") values)
  ok (record { fixture = fixture; output = output; raw_root = raw_root })
