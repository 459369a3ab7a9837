-- ===== src/Storage/Migrations/Applied.antt =====
-- The loop of `migrate` of storage/database.py, against the schema that the scripts build.
use fb_scraper.Prelude.{
  ℕ, suc, ◌≤◌, ◌<◌, ◌≡◌, ◌≢◌, ◌⊎◌, inl, inr, refl, sym, ap, ◌∙◌, subst, arith, true, false, Option,
  none, some, List, [], ◌∷◌, ◌++◌, map, Text, text_eq, nat_eq, All, All-append, contains,
  Option-cases, Bool-cases,
}
use fb_scraper.Errors.{Error, Result, ok, err, migration_error, value_error}
use fb_scraper.Exec.{Exec, pure, continue}
use fb_scraper.Exec.Inversion.{ok_injective}
use fb_scraper.Storage.MigrationFiles.{Engine, Migration, migration_checksum}
use fb_scraper.Storage.Migrations.{
  Row, Database, insert_row, is_taken, row_for, execute_migration, apply_migrations,
}
use fb_scraper.Storage.Migrations.Checked.{
  Numbered, IsUpTo, IsRowOf, Recorded, IsSummed, holding, snoc-IsUpTo,
}

insert_row-end :
    (k : ℕ) (row : Row) (rows : List Row)
    → row.version ≡ suc k
    → All (IsUpTo k) rows
    → insert_row row rows ≡ rows ++ row ∷ []
insert_row-end k row [] p h = refl
insert_row-end k row (r ∷ rows) p (q, h) = rw (insert_row-end k row rows p h) (ground (arith, p, q))

module _ {D : Type 0} (engine : Engine D) (start : D) where
  -- What the scripts of some migrations build, one after the other, on the first tables
  pub data Built : List Migration → D → Type 0 where
    built_nothing : Built [] start
    built_next :
        (ms : List Migration) (m : Migration) (sql : Text) (before after : D)
        → Built ms before
        → engine.decode m.content ≡ some sql
        → engine.execute sql before ≡ some after
        → Built (ms ++ m ∷ []) after

  -- A script that has run, with what it gave
  record HasRun (m : Migration) (rows : List Row) (tables : D) (x : Result (Unit {0}) × Database D)
      : Type 0 where
    sql : Text
    after : D
    decoded : engine.decode m.content ≡ some sql
    executed : engine.execute sql tables ≡ some after
    result : x ≡ (
      ok tt,
      holding engine
          (insert_row (row_for engine m (migration_checksum engine m.content)) rows)
          after,
    )

  module _ (m : Migration) (rows : List Row) (tables : D) where
    abbrev run : Result (Unit {0}) × Database D
    run = execute_migration engine m (engine.decode m.content) (holding engine rows tables)

    run-undecoded :
        engine.decode m.content ≡ none → run ≡ (err value_error, holding engine rows tables)
    run-undecoded p = ground (arith, p)

    run-failed :
        (sql : Text)
        → engine.decode m.content ≡ some sql
        → engine.execute sql tables ≡ none
        → run ≡ (err migration_error, holding engine rows tables)
    run-failed sql p q = ground (arith, p, q)

    run-taken :
        (sql : Text) (after : D)
        → engine.decode m.content ≡ some sql
        → engine.execute sql tables ≡ some after
        → is_taken m rows ≡ true
        → run ≡ (err migration_error, holding engine rows tables)
    run-taken sql after p q t = rw (p, q, t) refl

    run-done :
        (sql : Text) (after : D)
        → engine.decode m.content ≡ some sql
        → engine.execute sql tables ≡ some after
        → is_taken m rows ≡ false
        → run ≡ (
          ok tt,
          holding engine
              (insert_row (row_for engine m (migration_checksum engine m.content)) rows)
              after,
        )
    run-done sql after p q t = rw (p, q, t) refl

    abbrev Stays : Result (Unit {0}) × Database D → Type 0
    Stays x = (x.1 ≡ holding engine rows tables) × (x.0 ≢ ok tt)

    stays : (e : Error) → run ≡ (err e, holding engine rows tables) → Stays run
    stays e p = subst Stays (sym p) (refl, λ q. absurd cc)

    run-cases : Stays run ⊎ HasRun m rows tables run
    run-cases = elim (Option-cases (engine.decode m.content)) [
      | inl p ↦ inl (stays value_error (run-undecoded p))
      | inr (sql, p) ↦ elim (Option-cases (engine.execute sql tables)) [
        | inl q ↦ inl (stays migration_error (run-failed sql p q))
        | inr (after, q) ↦ elim (Bool-cases (is_taken m rows)) [
          | inl t ↦ inl (stays migration_error (run-taken sql after p q t))
          | inr t ↦ inr (record {
            sql = sql;
            after = after;
            decoded = p;
            executed = q;
            result = run-done sql after p q t;
          })
        ]
      ]
    ]

  Recorded-snoc :
      (ms : List Migration) (m : Migration) (rows : List Row) (row : Row)
      → Recorded engine ms rows
      → IsRowOf engine m row
      → Recorded engine (ms ++ m ∷ []) (rows ++ row ∷ [])
  Recorded-snoc [] m [] row r h = (h, tt)
  Recorded-snoc [] m (x ∷ rows) row r h = absurd r
  Recorded-snoc (x ∷ ms) m [] row r h = absurd r
  Recorded-snoc (x ∷ ms) m (y ∷ rows) row (p, r) h = (p, Recorded-snoc ms m rows row r h)

  -- The rows and the tables are those of some migrations that are first among the files.
  pub record Progress (files : List Migration) (db : Database D) : Type 0 where
    pub finished : List Migration
    pub left : List Migration
    pub rows : List Row
    pub tables : D
    pub split : files ≡ finished ++ left
    pub state : db ≡ holding engine rows tables
    pub recorded : Recorded engine finished rows
    pub built : Built finished tables

  -- What the loop leaves, and what it returns
  pub record Applied (files left : List Migration) (rows : List Row)
      (x : Result (List ℕ) × Database D) : Type 0 where
    pub progress : Progress files x.1
    pub finish :
        (vs : List ℕ)
        → x.0 ≡ ok vs
        → (progress.left ≡ [])
          × (vs ≡ map (λ m. m.version) left)
          × (IsSummed engine rows → IsSummed engine progress.rows)

  append_snoc :
      (xs : List Migration) (m : Migration) (ys : List Migration)
      → (xs ++ m ∷ []) ++ ys ≡ xs ++ m ∷ ys
  append_snoc [] m ys = refl
  append_snoc (x ∷ xs) m ys = ap (λ zs. x ∷ zs) (append_snoc xs m ys)

  up_to : (k : ℕ) (vs : List ℕ) → All (λ a. a ≤ k) vs → All (λ a. a ≤ suc k) vs
  up_to k [] h = tt
  up_to k (v ∷ vs) (p, h) = (omega (arith, p), up_to k vs h)

  not_applied :
      (k v : ℕ) (applied : List ℕ) → k < v → All (λ a. a ≤ k) applied → contains applied v ≡ false
  not_applied k v [] p h = refl
  not_applied k v (a ∷ applied) p (q, h) = ground (arith, p, q, not_applied k v applied p h)

  sum_there :
      (m : Migration) (sql : Text)
      → engine.decode m.content ≡ some sql
      → ◌≢◌ {A = Option Text} (migration_checksum engine m.content) none
  unfolding migration_checksum
  sum_there m sql p = rw (migration_checksum, p) (λ q. absurd cc)

  module _ (files : List Migration) (m : Migration) (ms : List Migration) (rows : List Row) where
    -- The loop ends at a migration that fails.
    stops :
        (finished : List Migration) (tables : D) (f : Unit {0} → Exec (Database D) (List ℕ))
        (q : Result (Unit {0})) (t : Database D)
        → files ≡ finished ++ m ∷ ms
        → Recorded engine finished rows
        → Built finished tables
        → t ≡ holding engine rows tables
        → q ≢ ok tt
        → Applied files (m ∷ ms) rows (continue f q t)
    stops finished tables f (ok tt) t split r b p n = absurd (n refl)
    stops finished tables f (err e) t split r b p n = record {
      progress = record {
        finished = finished;
        left = m ∷ ms;
        rows = rows;
        tables = tables;
        split = split;
        state = p;
        recorded = r;
        built = b;
      };
      finish = λ vs h. absurd cc;
    }

    -- It goes on after one that has run.
    goes_on :
        (next : List Row) (q : Result (List ℕ)) (t : Database D)
        → (IsSummed engine rows → IsSummed engine next)
        → Applied files ms next (q, t)
        → Applied files (m ∷ ms) rows (continue (λ vs. pure (m.version ∷ vs)) q t)
    goes_on next (err e) t h a = record { progress = a.progress; finish = λ vs x. absurd cc }
    goes_on next (ok vs) t h a =
        let (nothing, same, summed) = a.finish vs refl in
        record {
          progress = a.progress;
          finish = λ ws x. (
            nothing,
            sym (ok_injective x) ∙ ap (λ us. m.version ∷ us) same,
            λ there. summed (h there),
          );
        }

  pub apply-cases :
      (files : List Migration) (applied : List ℕ) (finished : List Migration)
      (left : List Migration) (rows : List Row) (tables : D) (k : ℕ)
      → files ≡ finished ++ left
      → Numbered k left
      → All (IsUpTo k) rows
      → All (λ a. a ≤ k) applied
      → Recorded engine finished rows
      → Built finished tables
      → Applied files left rows (apply_migrations engine applied left (holding engine rows tables))
  unfolding apply_migrations
  apply-cases files applied finished [] rows tables k split n below old r b = record {
    progress = record {
      finished = finished;
      left = [];
      rows = rows;
      tables = tables;
      split = split;
      state = refl;
      recorded = r;
      built = b;
    };
    finish = λ vs h. (refl, sym (ok_injective h), λ there. there);
  }
  apply-cases files applied finished (m ∷ ms) rows tables k split (p, n) below old r b =
      rw (not_applied k m.version applied (omega (arith, p)) old) (elim (run-cases m rows tables) [
        | inl (state, ne) ↦ stops files m ms rows finished tables _ _ _ split r b state ne
        | inr h ↦
            let row = row_for engine m (migration_checksum engine m.content) in
            let next = rows ++ row ∷ [] in
            let rest =
              apply-cases files applied (finished ++ m ∷ []) ms next h.after (suc k)
                (split ∙ sym (append_snoc finished m ms)) n
                (snoc-IsUpTo k rows row below (omega (arith, p))) (up_to k applied old)
                (Recorded-snoc finished m rows row r
                  (record { version = refl; name = refl; checksum = inr refl }))
                (built_next finished m h.sql tables h.after b h.decoded h.executed) in
            rw (h.result, insert_row-end k row rows p below)
              (goes_on files m ms rows next _ _
                (λ there. All-append _ rows (row ∷ []) there (sum_there m h.sql h.decoded, tt))
                rest)
      ])
