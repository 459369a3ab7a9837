-- ===== src/Storage/Migrations/Checked.antt =====
-- The check of the recorded migrations of storage/database.py against their files.
use fb_scraper.Prelude.{
  ℕ, suc, ◌≤◌, ◌<◌, ◌≡◌, ◌≢◌, ◌⊎◌, inl, inr, refl, sym, ap, ap₂, ◌∙◌, subst, arith, Option, none,
  some, List, [], ◌∷◌, ◌++◌, map, Text, text_eq, nat_eq, All, Option-cases,
}
use fb_scraper.Prelude.Dict.{lookup}
use fb_scraper.Errors.{Result, ok, err, value_error}
use fb_scraper.Exec.{Exec, pure, continue, ◌>>=◌}
use fb_scraper.Exec.Inversion.{ok_injective}
use fb_scraper.Storage.MigrationFiles.{Engine, Migration, available, migration_checksum}
use fb_scraper.Storage.Migrations.{
  Row, checked, Database, fill_row, fill, check_found, fill_checksum, check_row, check_rows,
}

-- The versions go up by one, from the number after `k`.
abbrev pub Numbered : ℕ → List Migration → Type 0
Numbered k [] = Unit
Numbered k (m ∷ ms) = (m.version ≡ suc k) × Numbered (suc k) ms

-- The rows that a fill of one version leaves alone
abbrev pub IsUpTo : ℕ → Row → Type 0
IsUpTo k row = row.version ≤ k

pub snoc-append :
    (pre : List Row) (row : Row) (rows : List Row) → (pre ++ row ∷ []) ++ rows ≡ pre ++ row ∷ rows
snoc-append [] row rows = refl
snoc-append (x ∷ pre) row rows = ap (λ ys. x ∷ ys) (snoc-append pre row rows)

pub snoc-IsUpTo :
    (k : ℕ) (pre : List Row) (row : Row)
    → All (IsUpTo k) pre
    → row.version ≤ suc k
    → All (IsUpTo (suc k)) (pre ++ row ∷ [])
snoc-IsUpTo k [] row h p = (p, tt)
snoc-IsUpTo k (x ∷ pre) row (q, h) p = (omega (arith, q), snoc-IsUpTo k pre row h p)

fill-append :
    (v : ℕ) (c : Text) (xs ys : List Row) → fill v c (xs ++ ys) ≡ fill v c xs ++ fill v c ys
fill-append v c [] ys = refl
fill-append v c (x ∷ xs) ys = ap (λ zs. fill_row v c x ∷ zs) (fill-append v c xs ys)

fill_row-ne : (v : ℕ) (c : Text) (row : Row) → row.version ≢ v → fill_row v c row ≡ row
fill_row-ne v c row h = ground arith

fill_row-same :
    (row : Row) (c : Text) → fill_row row.version c row ≡ record row { checksum = some c }
fill_row-same row c = ground arith

fill-below :
    (k v : ℕ) (c : Text) (rows : List Row) → k < v → All (IsUpTo k) rows → fill v c rows ≡ rows
fill-below k v c [] h a = refl
fill-below k v c (r ∷ rows) h (p, a) =
    rw (fill_row-ne v c r (λ q. omega (arith, p, h, q)), fill-below k v c rows h a) refl

module _ {D : Type 0} (engine : Engine D) where
  -- The row of a migration, with no checksum or with the one of its file
  pub record IsRowOf (m : Migration) (row : Row) : Type 0 where
    pub version : row.version ≡ m.version
    pub name : row.name ≡ m.name
    pub checksum : (row.checksum ≡ none) ⊎ (row.checksum ≡ migration_checksum engine m.content)

  -- One row for each migration, in order
  abbrev pub Recorded : List Migration → List Row → Type 0
  Recorded [] [] = Unit
  Recorded [] (r ∷ rows) = ⊥
  Recorded (m ∷ ms) [] = ⊥
  Recorded (m ∷ ms) (r ∷ rows) = IsRowOf m r × Recorded ms rows

  -- Every checksum is there
  abbrev pub IsSummed : List Row → Type 0
  IsSummed = All (λ row. ◌≢◌ {A = Option Text} row.checksum none)

  fill-above :
      (k v : ℕ) (c : Text) (ms : List Migration) (rows : List Row)
      → v ≤ k
      → Numbered k ms
      → Recorded ms rows
      → fill v c rows ≡ rows
  fill-above k v c [] [] h n r = refl
  fill-above k v c [] (row ∷ rows) h n r = absurd r
  fill-above k v c (m ∷ ms) [] h n r = absurd r
  fill-above k v c (m ∷ ms) (row ∷ rows) h (p, n) (r, rs) =
      rw
        (
          fill_row-ne v c row (λ q. omega (arith, p, h, q, r.version)),
          fill-above (suc k) v c ms rows (omega (arith, h)) n rs,
        )
        refl

  -- Every migration of a part of the files is found under its version.
  abbrev pub AreFound : List Migration → List Migration → Type 0
  AreFound files = All (λ m. lookup m.version (available files) ≡ some m)

  abbrev pub holding : List Row → D → Database D
  holding rows tables = record { versions = checked rows; tables = tables }

  -- The row of one migration after its check: the other rows stay as they are.
  record RowChecked (m : Migration) (pre rows : List Row) (tables : D)
      (x : Result (Unit {0}) × Database D) : Type 0 where
    after : Row
    state : x.1 ≡ holding (pre ++ after ∷ rows) tables
    is_row : IsRowOf m after
    summed : x.0 ≡ ok tt → ◌≢◌ {A = Option Text} after.checksum none

  -- The rows of some migrations after their check
  pub record RowsChecked (ms : List Migration) (pre : List Row) (tables : D)
      (x : Result (List ℕ) × Database D) : Type 0 where
    pub after : List Row
    pub state : x.1 ≡ holding (pre ++ after) tables
    pub recorded : Recorded ms after
    pub summed : (vs : List ℕ) → x.0 ≡ ok vs → IsSummed after × (vs ≡ map (λ m. m.version) ms)

  module _ (files : List Migration) (m : Migration) (row : Row) (s : Database D) where
    found-none :
        row.name ≡ m.name
        → migration_checksum engine m.content ≡ none
        → check_found engine files row (some m) s ≡ (err value_error, s)
    found-none p q = ground (arith, p, q)

    pub found-stored :
        (c : Text)
        → row.name ≡ m.name
        → migration_checksum engine m.content ≡ some c
        → row.checksum ≡ some c
        → check_found engine files row (some m) s ≡ (ok tt, s)
    found-stored c p q r = ground (arith, p, q, r)

    found-filled :
        (c : Text)
        → row.name ≡ m.name
        → migration_checksum engine m.content ≡ some c
        → row.checksum ≡ none
        → check_found engine files row (some m) s ≡ (ok tt, fill_checksum row.version c s)
    found-filled c p q r = ground (arith, p, q, r)

  IsRowOf-filled :
      (m : Migration) (row : Row) (c : Text)
      → migration_checksum engine m.content ≡ some c
      → IsRowOf m row
      → IsRowOf m (record row { checksum = some c })
  IsRowOf-filled m row c q r = record { version = r.version; name = r.name; checksum = inr (sym q) }

  some-IsThere :
      (row : Row) (c : Text) → row.checksum ≡ some c → ◌≢◌ {A = Option Text} row.checksum none
  some-IsThere row c p q = cc

  fill_here :
      (k : ℕ) (m : Migration) (ms : List Migration) (pre rows : List Row) (row : Row) (c : Text)
      → m.version ≡ suc k
      → Numbered (suc k) ms
      → All (IsUpTo k) pre
      → Recorded ms rows
      → row.version ≡ m.version
      → fill row.version c (pre ++ row ∷ rows) ≡ pre ++ record row { checksum = some c } ∷ rows
  fill_here k m ms pre rows row c p n below rs v =
      rw
        (
          fill-append row.version c pre (row ∷ rows),
          fill-below k row.version c pre (omega (arith, p, v)) below,
          fill-above (suc k) row.version c ms rows (omega (arith, p, v)) n rs,
        )
        (ap (λ r. pre ++ r ∷ rows) (fill_row-same row c))

  module _ (files : List Migration) (k : ℕ) (m : Migration) (ms : List Migration) where
    check_row-cases :
        (pre rows : List Row) (row : Row) (tables : D)
        → m.version ≡ suc k
        → Numbered (suc k) ms
        → All (IsUpTo k) pre
        → Recorded ms rows
        → IsRowOf m row
        → lookup m.version (available files) ≡ some m
        → RowChecked m pre rows tables
            (check_row engine files row (holding (pre ++ row ∷ rows) tables))
    check_row-cases pre rows row tables p n below rs r found =
        let s = holding (pre ++ row ∷ rows) tables in
        rw (subst (λ v. lookup v (available files) ≡ some m) (sym r.version) found)
          (elim (Option-cases (migration_checksum engine m.content)) [
            | inl q ↦
                subst (RowChecked m pre rows tables) (sym (found-none files m row s r.name q))
                  (record { after = row; state = refl; is_row = r; summed = λ h. absurd cc })
            | inr (c, q) ↦ elim r.checksum [
              | inl none_there ↦
                  subst (RowChecked m pre rows tables)
                    (sym (found-filled files m row s c r.name q none_there))
                    (record {
                      after = record row { checksum = some c };
                      state =
                          ap (λ rs. holding rs tables)
                            (fill_here k m ms pre rows row c p n below rs r.version);
                      is_row = IsRowOf-filled m row c q r;
                      summed = λ h e. absurd cc;
                    })
              | inr same ↦
                  subst (RowChecked m pre rows tables)
                    (sym (found-stored files m row s c r.name q (same ∙ q)))
                    (record {
                      after = row;
                      state = refl;
                      is_row = r;
                      summed = λ h. some-IsThere row c (same ∙ q);
                    })
            ]
          ])

  -- The rows of a migration and of those after it
  rows_after :
      (m : Migration) (ms : List Migration) (pre : List Row) (row : Row) (tables : D) (v : ℕ)
      (q : Result (List ℕ)) (t : Database D)
      → IsRowOf m row
      → ◌≢◌ {A = Option Text} row.checksum none
      → v ≡ m.version
      → RowsChecked ms (pre ++ row ∷ []) tables (q, t)
      → RowsChecked (m ∷ ms) pre tables (continue (λ rest. pure (v ∷ rest)) q t)
  rows_after m ms pre row tables v (ok vs) t r there p c = record {
    after = row ∷ c.after;
    state = c.state ∙ ap (λ rs. holding rs tables) (snoc-append pre row c.after);
    recorded = (r, c.recorded);
    summed = λ ws h.
        ((there, (c.summed vs refl).0), sym (ok_injective h) ∙ ap₂ ◌∷◌ p (c.summed vs refl).1);
  }
  rows_after m ms pre row tables v (err e) t r there p c = record {
    after = row ∷ c.after;
    state = c.state ∙ ap (λ rs. holding rs tables) (snoc-append pre row c.after);
    recorded = (r, c.recorded);
    summed = λ ws h. absurd cc;
  }

  module _ (m : Migration) (ms : List Migration) (pre rows : List Row) (tables : D) (v : ℕ) where
    row_after :
        (rest : Exec (Database D) (List ℕ)) (q : Result (Unit {0})) (t : Database D)
        → v ≡ m.version
        → Recorded ms rows
        → ((row : Row)
            → IsRowOf m row
            → RowsChecked ms
                (pre ++ row ∷ [])
                tables
                (rest (holding ((pre ++ row ∷ []) ++ rows) tables)))
        → RowChecked m pre rows tables (q, t)
        → RowsChecked (m ∷ ms) pre tables (continue (λ _. rest >>= λ vs. pure (v ∷ vs)) q t)
    row_after rest (err e) t p rs h c = record {
      after = c.after ∷ rows;
      state = c.state;
      recorded = (c.is_row, rs);
      summed = λ ws x. absurd cc;
    }
    row_after rest (ok tt) t p rs h c =
        let next = holding ((pre ++ c.after ∷ []) ++ rows) tables in
        let same = c.state ∙ sym (ap (λ rs. holding rs tables) (snoc-append pre c.after rows)) in
        subst (λ t. RowsChecked (m ∷ ms) pre tables ((rest >>= λ vs. pure (v ∷ vs)) t)) (sym same)
          (rows_after m ms pre c.after tables v (rest next).0 (rest next).1 c.is_row (c.summed refl)
            p (h c.after c.is_row))

  pub check_rows-cases :
      (files : List Migration) (k : ℕ) (ms : List Migration) (pre rows : List Row) (tables : D)
      → Numbered k ms
      → All (IsUpTo k) pre
      → Recorded ms rows
      → AreFound files ms
      → RowsChecked ms pre tables (check_rows engine files rows (holding (pre ++ rows) tables))
  unfolding check_rows
  check_rows-cases files k [] pre [] tables n below r found = record {
    after = [];
    state = refl;
    recorded = tt;
    summed = λ vs h. (tt, sym (ok_injective h));
  }
  check_rows-cases files k [] pre (row ∷ rows) tables n below r found = absurd r
  check_rows-cases files k (m ∷ ms) pre [] tables n below r found = absurd r
  check_rows-cases files k (m ∷ ms) pre (row ∷ rows) tables (p, n) below (r, rs) (f, fs) =
      let checked_row = check_row-cases files k m ms pre rows row tables p n below rs r f in
      row_after m ms pre rows tables row.version (check_rows engine files rows) _ _ r.version rs
        (λ after is_row.
          check_rows-cases files (suc k) ms (pre ++ after ∷ []) rows tables n
            (snoc-IsUpTo k pre after below (omega (arith, p, is_row.version))) rs fs)
        checked_row
