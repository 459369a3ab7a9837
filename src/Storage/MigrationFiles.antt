-- ===== src/Storage/MigrationFiles.antt =====
-- The files of the migrations, of storage/database.py: their names and their checksums. The SQL of
-- a migration runs in SQLite, which is an argument; `D` is what it acts on: the tables beside
-- `schema_versions`.
use fb_scraper.Prelude.{
  ℕ, zero, suc, ◌+◌, ◌*◌, Bool, true, false, not, ◌&&◌, ◌||◌, Option, none, some, List, [], ◌∷◌,
  map, Text, text, text_eq, nat_eq, text_leb, ◌==◌, contains, leb, if◌then◌else◌,
}
use fb_scraper.Prelude.Dict.{Dict}
use fb_scraper.Prelude.Sort.{sorted}
use fb_scraper.Errors.{Result, ok, err, migration_error}

-- The directory of the migrations, with the names that end in `.sql`
pub record Directory : Type 0 where
  pub is_dir : Bool
  pub names : List Text
  pub read_bytes : Text → Text

-- SQLite and the standard library: `bytes.decode`, which may fail, `sha256(...).hexdigest()`, the
-- decimal value of a character that `\d` matches, the time at which a version is applied, and the
-- run of a script, which fails or gives the new tables.
pub record Engine (D : Type 0) : Type 0 where
  pub decode : Text → Option Text
  pub sha256 : Text → Text
  pub digit : ℕ → Option ℕ
  pub now : ℕ → Text
  pub execute : Text → D → Option D

-- One entry of `_migration_files`, with the bytes of its file
pub record Migration : Type 0 where
  pub version : ℕ
  pub name : Text
  pub content : Text

-- `[a-z0-9_]`
abbrev pub is_word : ℕ → Bool
is_word c = (leb b'a' c && leb c b'z') || (leb b'0' c && leb c b'9') || (c == b'_')

-- `[a-z0-9_]+\.sql`, where some characters have been read before
unfoldable pub is_body : Bool → Text → Bool
is_body seen [] = false
is_body seen (c ∷ s) =
    let rest = is_body true s in if is_word c then rest else (seen && (c ∷ s == text ".sql"))

-- `value.replace("\r\n", "\n")`, where `\r` was read before
unfoldable pub replace_crlf : Bool → Text → Text
replace_crlf true [] = 13 ∷ []
replace_crlf false [] = []
replace_crlf true (c ∷ s) =
    let rest = replace_crlf (c == 13) s in
    if c == 10 then 10 ∷ rest else if c == 13 then 13 ∷ rest else 13 ∷ c ∷ rest
replace_crlf false (c ∷ s) =
    let rest = replace_crlf (c == 13) s in if c == 13 then rest else c ∷ rest

-- `value.replace("\r", "\n")`
unfoldable pub replace_cr : Text → Text
replace_cr [] = []
replace_cr (c ∷ s) = (if c == 13 then 10 else c) ∷ replace_cr s

abbrev pub normalized : Text → Text
normalized s = replace_cr (replace_crlf false s)

-- `list(range(first, first + count))`
abbrev pub range : ℕ → ℕ → List ℕ
range first zero = []
range first (suc count) = first ∷ range (suc first) count

abbrev pub same_numbers : List ℕ → List ℕ → Bool
same_numbers [] [] = true
same_numbers [] (y ∷ ys) = false
same_numbers (x ∷ xs) [] = false
same_numbers (x ∷ xs) (y ∷ ys) = (x == y) && same_numbers xs ys

abbrev pub last_or : ℕ → List ℕ → ℕ
last_or n [] = n
last_or n (x ∷ xs) = last_or x xs

-- `len(versions) != len(set(versions))`
abbrev pub repeats : List ℕ → Bool
repeats [] = false
repeats (x ∷ xs) = contains xs x || repeats xs

-- The dict `available`
abbrev pub available : List Migration → Dict ℕ Migration
available [] = []
available (m ∷ ms) = (m.version, m) ∷ available ms

-- The two guards on the versions
unfoldable pub check_versions : List Migration → Result (List Migration)
check_versions ms =
    let versions = map (λ m. m.version) ms in
    if repeats versions
    then err migration_error
    else if not (same_numbers versions (range 1 (last_or 0 versions)))
    then err migration_error
    else ok ms

module _ {D : Type 0} (engine : Engine D) where
  -- MIGRATION_PATTERN, and the number of its group `version`
  abbrev pub version_of : Option ℕ → Option ℕ → Option ℕ → Bool → Option ℕ
  version_of (some a) (some b) (some c) true = some (a * 100 + b * 10 + c)
  version_of _ _ _ _ = none

  unfoldable pub match_name : Text → Option ℕ
  unfolding is_body
  match_name (a ∷ b ∷ c ∷ d ∷ s) =
      version_of (engine.digit a) (engine.digit b) (engine.digit c) ((d == b'_') && is_body false s)
  match_name _ = none

  -- `_migration_checksum`; bytes that are no text of UTF-8 raise UnicodeDecodeError
  unfoldable pub migration_checksum : Text → Option Text
  unfolding replace_cr replace_crlf
  migration_checksum content = elim (engine.decode content) [
    | none ↦ none
    | some s ↦ some (engine.sha256 (normalized s))
  ]

  module _ (directory : Directory) where
    -- The loop of `_migration_files`
    abbrev pub read_names : List Text → Result (List Migration)
    read_names [] = ok []
    read_names (name ∷ names) = elim (match_name name) [
      | none ↦ err migration_error
      | some version ↦ elim (read_names names) [
        | err e ↦ err e
        | ok ms ↦
            ok (record { version = version; name = name; content = directory.read_bytes name } ∷ ms)
      ]
    ]

    -- `_migration_files`
    unfoldable pub migration_files : Result (List Migration)
    unfolding match_name check_versions sorted
    migration_files =
        if not directory.is_dir
        then err migration_error
        else elim (read_names (sorted text_leb directory.names)) [
          | err e ↦ err e
          | ok ms ↦ check_versions ms
        ]
