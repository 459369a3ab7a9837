-- ===== src/Storage/Migrations/Faithful.antt =====
-- What `migrate` of storage/database.py makes of a database whose schema its migrations built.
use fb_scraper.Prelude.{
  ℕ, ◌+◌, ◌≡◌, refl, sym, ap, ◌∙◌, subst, List, [], ◌∷◌, ◌++◌, map, length, All, Text, nat_eq,
  Option, some, none, Option-cases, inl, inr, ◌≢◌,
}
use fb_scraper.Prelude.Dict.{lookup}
use fb_scraper.Errors.{Result, ok, err}
use fb_scraper.Exec.{continue}
use fb_scraper.Storage.MigrationFiles.{
  Directory, Engine, Migration, available, migration_files, migration_checksum,
}
use fb_scraper.Storage.Migrations.{
  Row, Database, rows_of, check_row, check_rows, validate_applied_migrations, ensure_version_table,
  apply_migrations, migrate,
}
use fb_scraper.Storage.Migrations.Checked.{
  Numbered, Recorded, IsRowOf, IsSummed, AreFound, found-stored, holding, RowsChecked,
  check_rows-cases,
}
use fb_scraper.Storage.Migrations.Applied.{Built, Progress, apply-cases}
use fb_scraper.Storage.Migrations.Numbering.{
  found_of, All-first, Numbered-split, Numbered-Above, versions_up_to, contains-All, rows-IsUpTo,
  skip, migration_files-Numbered,
}

append_nil : (ms : List Migration) → ms ++ [] ≡ ms
append_nil [] = refl
append_nil (m ∷ ms) = ap (λ ns. m ∷ ns) (append_nil ms)

module _ {D : Type 0} (engine : Engine D) (start : D) where
  -- The rows and the tables of a database are those of the first migrations, in order.
  pub record IsFaithful (files : List Migration) (db : Database D) : Type 0 where
    pub finished : List Migration
    pub left : List Migration
    pub split : files ≡ finished ++ left
    pub recorded : Recorded engine finished (rows_of db.versions)
    pub built : Built engine start finished db.tables

  -- They are those of all migrations, each with the checksum of its file.
  pub record IsCurrent (files : List Migration) (db : Database D) : Type 0 where
    pub rows : List Row
    pub tables : D
    pub state : db ≡ holding engine rows tables
    pub recorded : Recorded engine files rows
    pub summed : IsSummed engine rows
    pub built : Built engine start files tables

  same_files :
      (applied : List ℕ) {files parts : List Migration}
      → files ≡ parts
      → apply_migrations engine applied files ≡ apply_migrations engine applied parts
  same_files applied p = ap (apply_migrations engine applied) p

  record Migrated (files left : List Migration) (x : Result (List ℕ) × Database D) : Type 0 where
    progress : Progress engine start files x.1
    finish :
        (vs : List ℕ)
        → x.0 ≡ ok vs
        → (progress.left ≡ []) × (vs ≡ map (λ m. m.version) left) × IsSummed engine progress.rows

  -- What follows the check of the rows
  after_check :
      (files finished left : List Migration) (tables : D) (q : Result (List ℕ)) (t : Database D)
      → files ≡ finished ++ left
      → Numbered 0 files
      → Built engine start finished tables
      → RowsChecked engine finished [] tables (q, t)
      → Migrated files left (continue (λ applied. apply_migrations engine applied files) q t)
  after_check files finished left tables (err e) t split n b c = record {
    progress = record {
      finished = finished;
      left = left;
      rows = c.after;
      tables = tables;
      split = split;
      state = c.state;
      recorded = c.recorded;
      built = b;
    };
    finish = λ vs h. absurd cc;
  }
  after_check files finished left tables (ok vs) t split n b c =
      let versions = map (λ m. m.version) finished in
      let k = 0 + length finished in
      let parts = Numbered-split 0 finished left (subst (Numbered 0) split n) in
      let a =
        apply-cases engine start files versions finished left c.after tables k split parts.1
          (rows-IsUpTo engine 0 finished c.after parts.0 c.recorded)
          (versions_up_to 0 finished parts.0) c.recorded b in
      let same = skip engine versions finished left (contains-All finished) in
      subst (Migrated files left)
        (sym (rw ((c.summed vs refl).1, c.state, same_files versions split, same) refl))
        (record {
          progress = a.progress;
          finish = λ ws h.
              let (nothing, numbers, summed) = a.finish ws h in
              (nothing, numbers, summed (c.summed vs refl).0);
        })

  Progress-IsFaithful :
      (files : List Migration) (db : Database D)
      → Progress engine start files db
      → IsFaithful files db
  Progress-IsFaithful files db p = subst (IsFaithful files) (sym p.state) (record {
    finished = p.finished;
    left = p.left;
    split = p.split;
    recorded = p.recorded;
    built = p.built;
  })

  Progress-IsCurrent :
      (files : List Migration) (db : Database D) (p : Progress engine start files db)
      → p.left ≡ []
      → IsSummed engine p.rows
      → IsCurrent files db
  Progress-IsCurrent files db p nothing summed =
      let all_finished = p.split ∙ ap (λ ms. p.finished ++ ms) nothing ∙ append_nil p.finished in
      record {
        rows = p.rows;
        tables = p.tables;
        state = p.state;
        recorded = subst (λ ms. Recorded engine ms p.rows) (sym all_finished) p.recorded;
        summed = summed;
        built = subst (λ ms. Built engine start ms p.tables) (sym all_finished) p.built;
      }

  row_again :
      (files : List Migration) (m : Migration) (row : Row) (db : Database D)
      → lookup m.version (available files) ≡ some m
      → IsRowOf engine m row
      → ◌≢◌ {A = Option Text} row.checksum none
      → check_row engine files row db ≡ (ok tt, db)
  row_again files m row db found r there =
      rw (subst (λ v. lookup v (available files) ≡ some m) (sym r.version) found) (elim r.checksum [
        | inl p ↦ absurd (there p)
        | inr same ↦ elim (Option-cases (migration_checksum engine m.content)) [
          | inl q ↦ absurd (there (same ∙ q))
          | inr (c, q) ↦ found-stored engine files m row db c r.name q (same ∙ q)
        ]
      ])

  checked_again :
      (files ms : List Migration) (rows : List Row) (db : Database D)
      → AreFound engine files ms
      → Recorded engine ms rows
      → IsSummed engine rows
      → check_rows engine files rows db ≡ (ok (map (λ m. m.version) ms), db)
  unfolding check_rows
  checked_again files [] [] db found r summed = refl
  checked_again files [] (row ∷ rows) db found r summed = absurd r
  checked_again files (m ∷ ms) [] db found r summed = absurd r
  checked_again files (m ∷ ms) (row ∷ rows) db (f, fs) (r, rs) (there, summed) =
      rw
        (row_again files m row db f r there, checked_again files ms rows db fs rs summed, r.version)
        refl

  nothing_left :
      (files : List Migration) (db : Database D)
      → apply_migrations engine (map (λ m. m.version) files) files db ≡ (ok [], db)
  unfolding apply_migrations
  nothing_left files db =
      let versions = map (λ m. m.version) files in
      let step =
        same_files versions (sym (append_nil files))
        ∙ skip engine versions files [] (contains-All files) in
      rw step refl

  module _ (directory : Directory) (files : List Migration) (db : Database D) where
    migrate-Migrated :
        migration_files engine directory ≡ ok files
        → (f : IsFaithful files db) → Migrated files f.left (migrate engine directory db)
    unfolding migrate ensure_version_table validate_applied_migrations
    migrate-Migrated h f =
        let n = migration_files-Numbered engine directory files h in
        let rows = rows_of db.versions in
        let found = found_of 0 files files (Numbered-Above 0 files n) in
        rw h (
          after_check files f.finished f.left db.tables _ _ f.split n f.built (
            check_rows-cases engine files 0 f.finished [] rows db.tables
              (Numbered-split 0 f.finished f.left (subst (Numbered 0) f.split n)).0 tt f.recorded
              (All-first _ f.finished f.left
                (subst (All (λ m. lookup m.version (available files) ≡ some m)) f.split found))))

    -- When the files are accepted and the recorded rows and the tables of a database are those
    -- that its first migrations give, one after the other, from some first tables, then so they
    -- are after migrate, whether it returns or raises: a database is always at one point of the
    -- sequence of its migrations.
    pub migrate-IsFaithful :
        migration_files engine directory ≡ ok files
        → IsFaithful files db
        → IsFaithful files (migrate engine directory db).1
    migrate-IsFaithful h f = Progress-IsFaithful files _ (migrate-Migrated h f).progress

    -- For such a database, when migrate returns, the rows and the tables are those of all files,
    -- each row has the checksum of its file, and the list that it returns is that of the versions
    -- that were left.
    pub migrate-IsCurrent :
        migration_files engine directory ≡ ok files
        → (f : IsFaithful files db) (completed : List ℕ)
        → (migrate engine directory db).0 ≡ ok completed
        → IsCurrent files (migrate engine directory db).1
          × (completed ≡ map (λ m. m.version) f.left)
    migrate-IsCurrent h f completed r =
        let x = migrate-Migrated h f in
        let (nothing, numbers, summed) = x.finish completed r in
        (Progress-IsCurrent files _ x.progress nothing summed, numbers)

    current-migrate :
        migration_files engine directory ≡ ok files
        → IsCurrent files db
        → migrate engine directory db ≡ (ok [], db)
    unfolding migrate ensure_version_table validate_applied_migrations
    current-migrate h c =
        let found =
          found_of 0 files files
            (Numbered-Above 0 files (migration_files-Numbered engine directory files h)) in
        rw
          (
            h,
            c.state,
            checked_again files files c.rows (holding engine c.rows c.tables) found c.recorded
                c.summed,
          )
          (nothing_left files (holding engine c.rows c.tables))

  -- For such a database, after a migrate that returned, migrate with the same files returns the
  -- empty list and changes nothing.
  pub migrate-migrate :
      (directory : Directory) (files : List Migration) (db : Database D) (completed : List ℕ)
      → migration_files engine directory ≡ ok files
      → IsFaithful files db
      → (migrate engine directory db).0 ≡ ok completed
      → migrate engine directory (migrate engine directory db).1
        ≡ (ok [], (migrate engine directory db).1)
  migrate-migrate directory files db completed h f r =
      current-migrate directory files _ h (migrate-IsCurrent directory files db h f completed r).0
