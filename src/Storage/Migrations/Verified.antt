-- ===== src/Storage/Migrations/Verified.antt =====
-- `migrate` of storage/database.py on records that may differ from the files.
use fb_scraper.Prelude.{
  ℕ, ◌≡◌, ◌⊎◌, inl, inr, refl, sym, ap, ◌∙◌, subst, arith, Option, none, some, List, [], ◌∷◌, Text,
  text_eq, nat_eq, ◌==◌, All, Option-cases, Bool-cases,
}
use fb_scraper.Prelude.Dict.{lookup}
use fb_scraper.Errors.{Error, ok, err}
use fb_scraper.Exec.{modify}
use fb_scraper.Exec.Inversion.{bind_ok, Result-cases}
use fb_scraper.Exec.Steps.{Steps, Steps-bind, steps_rules}
use fb_scraper.Exec.Fixed.{Fixes, Fixes-preorder, modify-Fixes}
use fb_scraper.Storage.MigrationFiles.{
  Directory, Engine, Migration, available, migration_files, migration_checksum,
}
use fb_scraper.Storage.Migrations.{
  Row, Database, rows_of, fill_checksum, check_sum, check_found, check_row, check_rows,
  validate_applied_migrations, ensure_version_table, migrate,
}
use fb_scraper.Storage.Migrations.Checked.{holding}

abbrev tables_of : {D : Type 0} → Database D → D
tables_of db = db.tables

module _ {D : Type 0} (engine : Engine D) (files : List Migration) where
  -- A recorded migration has its file, under its name, with the recorded checksum or none.
  pub record IsVerified (row : Row) : Type 0 where
    pub migration : Migration
    pub found : lookup row.version (available files) ≡ some migration
    pub name : row.name ≡ migration.name
    pub checksum :
        (row.checksum ≡ none) ⊎ (row.checksum ≡ migration_checksum engine migration.content)

  module _ (row : Row) (m : Migration) (s : Database D) (u : Unit {0})
      (h : (check_found engine files row (some m) s).0 ≡ ok u) where
    found_name : row.name ≡ m.name
    found_name = elim (Bool-cases (row.name == m.name)) [
      | inl p ↦ ground (arith, p)
      | inr p ↦ absurd (ground (arith, h, p))
    ]

    found_checksum : (row.checksum ≡ none) ⊎ (row.checksum ≡ migration_checksum engine m.content)
    found_checksum = elim (Option-cases (migration_checksum engine m.content)) [
      | inl p ↦ absurd (ground (arith, h, p, found_name))
      | inr (c, p) ↦ elim (Option-cases row.checksum) [
        | inl q ↦ inl q
        | inr (d, q) ↦ elim (Bool-cases (d == c)) [
          | inl e ↦ inr (rw (q, p) (ground (arith, e)))
          | inr e ↦ absurd (ground (arith, h, p, q, e, found_name))
        ]
      ]
    ]

  check_row-IsVerified :
      (row : Row) (s : Database D) (u : Unit {0})
      → (check_row engine files row s).0 ≡ ok u
      → IsVerified row
  check_row-IsVerified row s u h = elim (Option-cases (lookup row.version (available files))) [
    | inl p ↦ absurd (ground (arith, h, p))
    | inr (m, p) ↦
        let k = subst (λ o. (check_found engine files row o s).0 ≡ ok u) p h in
        record {
          migration = m;
          found = p;
          name = found_name row m s u k;
          checksum = found_checksum row m s u k;
        }
  ]

  check_rows-IsVerified :
      (rows : List Row) (s : Database D) (vs : List ℕ)
      → (check_rows engine files rows s).0 ≡ ok vs
      → All IsVerified rows
  unfolding check_rows
  check_rows-IsVerified [] s vs h = tt
  check_rows-IsVerified (row ∷ rows) s vs h =
      let (u, first, same) = bind_ok (check_row engine files row) _ s h in
      let (ws, rest, _) =
        bind_ok (check_rows engine files rows) _ _ (sym (ap (λ x. x.0) same) ∙ h) in
      (check_row-IsVerified row s u first, check_rows-IsVerified rows _ ws rest)

  fill-Fixes : (v : ℕ) (c : Text) → Steps (Fixes (tables_of {D = D})) (modify (fill_checksum v c))
  fill-Fixes v c = modify-Fixes tables_of (fill_checksum v c) (λ s. refl)

  check_sum-Fixes :
      (v : ℕ) (c : Text) (o : Option Text) → Steps (Fixes (tables_of {D = D})) (check_sum v c o)
  check_sum-Fixes v c none = fill-Fixes v c
  check_sum-Fixes v c (some d) = search (steps_rules, Fixes-preorder (tables_of {D = D}))

  check_found-Fixes :
      (row : Row) (o : Option Migration) → Steps (Fixes tables_of) (check_found engine files row o)
  check_found-Fixes row none = search (steps_rules, Fixes-preorder (tables_of {D = D}))
  check_found-Fixes row (some m) =
      search (steps_rules, check_sum-Fixes, Fixes-preorder (tables_of {D = D})) depth 10

  check_rows-Fixes : (rows : List Row) → Steps (Fixes tables_of) (check_rows engine files rows)
  unfolding check_rows
  check_rows-Fixes [] = search (steps_rules, Fixes-preorder (tables_of {D = D}))
  check_rows-Fixes (row ∷ rows) =
      Steps-bind (Fixes-preorder tables_of) (check_row engine files row) _ (check_found-Fixes row _)
        (λ u. search (steps_rules, check_rows-Fixes rows, Fixes-preorder (tables_of {D = D})))

module _ {D : Type 0} (engine : Engine D) (directory : Directory) (files : List Migration)
    (db : Database D) where
  -- When the files are accepted, for any database, either each recorded row has a file of its
  -- version, with its name and with its checksum or none recorded, or migrate raises and leaves
  -- the tables as they were.
  pub migrate-IsVerified :
      migration_files engine directory ≡ ok files
      → All (IsVerified engine files) (rows_of db.versions)
        ⊎ ((e : Error) × ((migrate engine directory db).0 ≡ err e)
            × ((migrate engine directory db).1.tables ≡ db.tables))
  unfolding migrate ensure_version_table validate_applied_migrations
  migrate-IsVerified h =
      let rows = rows_of db.versions in
      let s = holding engine rows db.tables in
      elim (Result-cases (check_rows engine files rows s).0) [
        | inl (vs, p) ↦ inl (check_rows-IsVerified engine files rows s vs p)
        | inr (e, p) ↦
            inr (e, rw (h, p) refl, rw (h, p) ((check_rows-Fixes engine files rows).at s).same)
      ]
