-- ===== src/Tests/MigrationExamples.antt =====
-- The migrations at a directory of two files.
use fb_scraper.Prelude.{
  ℕ, ◌-◌, ◌≡◌, ◌⊎◌, refl, true, ◌&&◌, none, some, List, [], ◌∷◌, ◌++◌, Text, text, text_eq, nat_eq,
  ◌==◌, contains, leb, All, if◌then◌else◌, text_dec,
}
use fb_scraper.Prelude.Sort
use fb_scraper.Errors.{Error, ok, err}
use fb_scraper.Storage.MigrationFiles.{
  Directory, Engine, Migration, is_body, match_name, replace_cr, replace_crlf, migration_checksum,
  check_versions, migration_files,
}
use fb_scraper.Storage.Migrations.{
  absent, checked, Database, rows_of, check_rows, validate_applied_migrations, ensure_version_table,
  apply_migrations, migrate,
}
use fb_scraper.Storage.Migrations.Applied.{built_nothing}
use fb_scraper.Storage.Migrations.Faithful.{
  IsFaithful, IsCurrent, migrate-IsFaithful, migrate-IsCurrent, migrate-migrate,
}
use fb_scraper.Storage.Migrations.Verified.{IsVerified, migrate-IsVerified}
use fb_scraper.Storage.Migrations.LineEnds.{checksum-with_crlf}

abbrev engine : Engine (List Text)
engine = record {
  decode = λ s. if contains s 255 then none else some s;
  sha256 = λ s. text "sha256" ++ s;
  digit = λ c. if leb b'0' c && leb c b'9' then some (c - b'0') else none;
  now = λ version. text "2026-01-01T00:00:00.000Z";
  execute = λ sql tables. if sql == [] then none else some (tables ++ sql ∷ []);
}

abbrev directory : Directory
directory = record {
  is_dir = true;
  names = text "002_b.sql" ∷ text "001_a.sql" ∷ [];
  read_bytes = λ name. text "CREATE" ++ name;
}

abbrev files : List Migration
files =
    record { version = 1; name = text "001_a.sql"; content = text "CREATE001_a.sql" }
    ∷ record { version = 2; name = text "002_b.sql"; content = text "CREATE002_b.sql" }
    ∷ []

-- A database that nothing has been applied to
abbrev empty : Database (List Text)
empty = record { versions = absent; tables = [] }

files-are_read : migration_files engine directory ≡ ok files
unfolding migration_files match_name is_body check_versions Sort.sorted Sort.insert text_dec nat_eq
    text_eq
files-are_read = refl

abbrev empty-IsFaithful : IsFaithful engine [] files empty
empty-IsFaithful = record {
  finished = [];
  left = files;
  split = refl;
  recorded = tt;
  built = built_nothing;
}

migrate-IsFaithful_example : IsFaithful engine [] files (migrate engine directory empty).1
migrate-IsFaithful_example =
    migrate-IsFaithful engine [] directory files empty files-are_read empty-IsFaithful

empty-migrates : (migrate engine directory empty).0 ≡ ok (1 ∷ 2 ∷ [])
unfolding migrate migration_files match_name is_body check_versions Sort.sorted Sort.insert text_dec
    ensure_version_table validate_applied_migrations check_rows apply_migrations migration_checksum
    replace_cr replace_crlf nat_eq text_eq
empty-migrates = refl

migrate-IsCurrent_example :
    IsCurrent engine [] files (migrate engine directory empty).1
    × (◌≡◌ {A = List ℕ} (1 ∷ 2 ∷ []) (1 ∷ 2 ∷ []))
migrate-IsCurrent_example =
    migrate-IsCurrent engine [] directory files empty files-are_read empty-IsFaithful (1 ∷ 2 ∷ [])
      empty-migrates

migrate-migrate_example :
    migrate engine directory (migrate engine directory empty).1
    ≡ (ok [], (migrate engine directory empty).1)
migrate-migrate_example =
    migrate-migrate engine [] directory files empty (1 ∷ 2 ∷ []) files-are_read empty-IsFaithful
      empty-migrates

-- A database whose first migration was another
abbrev tampered : Database (List Text)
tampered = record {
  versions = checked (
      record {
        version = 1;
        name = text "001_a.sql";
        checksum = some (text "other");
        applied_at = text "2026-01-01T00:00:00.000Z";
      }
      ∷ []);
  tables = text "other" ∷ [];
}

migrate-IsVerified_example :
    All (IsVerified engine files) (rows_of tampered.versions)
    ⊎ ((e : Error) × ((migrate engine directory tampered).0 ≡ err e)
        × ((migrate engine directory tampered).1.tables ≡ tampered.tables))
migrate-IsVerified_example = migrate-IsVerified engine directory files tampered files-are_read

checksum-with_crlf_example :
    migration_checksum engine (b'a' ∷ 13 ∷ 10 ∷ []) ≡ migration_checksum engine (b'a' ∷ 10 ∷ [])
unfolding nat_eq native.Mathlib.Decide.ℕ_discrete
checksum-with_crlf_example =
    checksum-with_crlf engine (b'a' ∷ 10 ∷ []) (b'a' ∷ 13 ∷ 10 ∷ []) (b'a' ∷ 10 ∷ []) refl refl refl
