-- ===== src/Storage/Migrations.antt =====
-- `Database` of storage/database.py: the migrations of the schema, in order. `D` is what the SQL of
-- a migration acts on: the tables beside `schema_versions`.
pub mod Checked
pub mod Applied
pub mod Numbering
pub mod Faithful
pub mod LineEnds
pub mod Verified
use fb_scraper.Prelude.{
  ℕ, zero, suc, ◌+◌, ◌*◌, Bool, true, false, not, ◌&&◌, ◌||◌, Option, none, some, List, [], ◌∷◌,
  ◌++◌, map, Text, text, text_eq, nat_eq, text_leb, ◌==◌, any, contains, ltb, leb, is_none,
  if◌then◌else◌,
}
use fb_scraper.Prelude.Dict.{Dict, lookup}
use fb_scraper.Prelude.Sort.{insert, sorted}
use fb_scraper.Errors.{Result, ok, err, migration_error, value_error}
use fb_scraper.Storage.MigrationFiles.{
  Directory, Engine, Migration, available, check_versions, is_body, is_word, last_or, match_name,
  migration_checksum, migration_files, normalized, range, read_names, repeats, replace_cr,
  replace_crlf, same_numbers, version_of,
}
use fb_scraper.Exec.{
  Exec, pure, raise, gets, or_raise, of_result, modify, raise_if, continue, ◌>>=◌, ◌>>◌,
}

-- One row of `schema_versions`
pub record Row : Type 0 where
  pub version : ℕ
  pub name : Text
  pub checksum : Option Text
  pub applied_at : Text

-- The table `schema_versions`: not there, without its column `checksum`, or whole. Its key is the
-- version, and SQLite keeps the rows in the order of that key.
pub data Versions : Type 0 where
  absent : Versions
  unchecked checked : List Row → Versions

pub record Database (D : Type 0) : Type 0 where
  pub versions : Versions
  pub tables : D

-- UPDATE schema_versions SET checksum = ? WHERE version = ?
abbrev pub fill_row : ℕ → Text → Row → Row
fill_row version checksum row =
    if row.version == version then record row { checksum = some checksum } else row

abbrev pub fill : ℕ → Text → List Row → List Row
fill version checksum [] = []
fill version checksum (row ∷ rows) = fill_row version checksum row ∷ fill version checksum rows

-- A row of the table at its place
abbrev pub insert_row : Row → List Row → List Row
insert_row row [] = row ∷ []
insert_row row (r ∷ rows) =
    let rest = insert_row row rows in if ltb r.version row.version then r ∷ rest else row ∷ r ∷ rows

-- `version INTEGER PRIMARY KEY`, `name TEXT NOT NULL UNIQUE`
abbrev pub is_taken : Migration → List Row → Bool
is_taken m rows = any (λ r. (r.version == m.version) || (r.name == m.name)) rows

abbrev pub unsummed : Row → Row
unsummed row = record row { checksum = none }

-- SELECT version, name, checksum FROM schema_versions ORDER BY version
abbrev pub rows_of : Versions → List Row
rows_of absent = []
rows_of (unchecked rows) = map unsummed rows
rows_of (checked rows) = rows

module _ {D : Type 0} where
  -- `_ensure_version_table`
  unfoldable pub ensure_version_table : Exec (Database D) (Unit {0})
  ensure_version_table = modify (λ db. record db { versions = checked (rows_of db.versions) })

  abbrev pub fill_checksum : ℕ → Text → Database D → Database D
  fill_checksum version checksum db = record db {
    versions = checked (fill version checksum (rows_of db.versions));
  }

  -- What follows when a checksum is stored, or none is
  abbrev pub check_sum : ℕ → Text → Option Text → Exec (Database D) (Unit {0})
  check_sum version checksum none = modify (fill_checksum version checksum)
  check_sum version checksum (some stored) = raise_if (not (stored == checksum)) migration_error

module _ {D : Type 0} (engine : Engine D) where
  module _ (files : List Migration) where
    -- One row of `_validate_applied_migrations`, with the migration of its version
    abbrev pub check_found : Row → Option Migration → Exec (Database D) (Unit {0})
    check_found row none = raise migration_error
    check_found row (some m) = do
      raise_if (not (row.name == m.name)) migration_error
      checksum ← or_raise (migration_checksum engine m.content) value_error
      check_sum row.version checksum row.checksum

    abbrev pub check_row : Row → Exec (Database D) (Unit {0})
    check_row row = check_found row (lookup row.version (available files))

    unfoldable pub check_rows : List Row → Exec (Database D) (List ℕ)
    unfolding lookup migration_checksum
    check_rows [] = pure []
    check_rows (row ∷ rows) = do check_row row; rest ← check_rows rows; pure (row.version ∷ rest)

    -- `_validate_applied_migrations`
    unfoldable pub validate_applied_migrations : Exec (Database D) (List ℕ)
    unfolding check_rows
    validate_applied_migrations = gets (λ db. rows_of db.versions) >>= check_rows

  abbrev pub row_for : Migration → Option Text → Row
  row_for m checksum = record {
    version = m.version;
    name = m.name;
    checksum = checksum;
    applied_at = engine.now m.version;
  }

  -- The script: the migration and its row in one transaction, which rolls back when it fails
  abbrev pub run_script : Migration → Option Text → Option D → Exec (Database D) (Unit {0})
  run_script m checksum none = raise migration_error
  run_script m checksum (some tables) = do
    taken ← gets (λ db. is_taken m (rows_of db.versions))
    raise_if taken migration_error
    modify (λ db. record {
      versions = checked (insert_row (row_for m checksum) (rows_of db.versions));
      tables = tables;
    })

  abbrev pub execute_migration : Migration → Option Text → Exec (Database D) (Unit {0})
  execute_migration m none = raise value_error
  execute_migration m (some sql) =
      gets (λ db. engine.execute sql db.tables)
      >>= run_script m (migration_checksum engine m.content)

  -- The loop of `migrate`
  unfoldable pub apply_migrations : List ℕ → List Migration → Exec (Database D) (List ℕ)
  unfolding migration_checksum
  apply_migrations applied [] = pure []
  apply_migrations applied (m ∷ ms) =
      let rest = apply_migrations applied ms in
      if contains applied m.version then rest else (do
        execute_migration m (engine.decode m.content)
        completed ← rest
        pure (m.version ∷ completed))

  -- `migrate`
  unfoldable pub migrate : Directory → Exec (Database D) (List ℕ)
  unfolding migration_files ensure_version_table validate_applied_migrations apply_migrations
  migrate directory = do
    files ← of_result (migration_files engine directory)
    ensure_version_table
    applied ← validate_applied_migrations files
    apply_migrations applied files

  -- `applied_versions`
  unfoldable pub applied_versions : Exec (Database D) (List ℕ)
  unfolding ensure_version_table
  applied_versions = do
    ensure_version_table
    rows ← gets (λ db. rows_of db.versions)
    pure (map (λ r. r.version) rows)
