-- ===== src/Storage/Jobs/Concurrency.antt =====
-- `JobRepository.transition` against another connection that writes between its two statements.
use fb_scraper.Prelude.{ℕ, ◌≡◌, ◌⊎◌, true, refl, Option, none, some, Text, text_eq, contains, arith}
use fb_scraper.Prelude.Dict.{lookup, insert}
use fb_scraper.Errors.{Error, ok, err}
use fb_scraper.Storage.Tables.{JobState, job_state_eq, JobRow, Database}
use fb_scraper.Storage.Jobs.{allowed_job_transitions, transition_between}

-- The rows that the two statements of a returning call have found.
found_ok :
    (between : Database → Database) (job_id : Text) (target : JobState) (now : ℕ) (db : Database)
    (o p : Option JobRow)
    → lookup job_id db.jobs ≡ o
    → lookup job_id (between db).jobs ≡ p
    → (transition_between between job_id target now db).0 ≡ ok tt
    → (row : JobRow) × (p ≡ some row)
      × (contains (allowed_job_transitions row.state) target ≡ true)
      × ((transition_between between job_id target now db).1 ≡ record (between db) {
        jobs = insert job_id (record row { state = target; updated_at = now }) (between db).jobs;
      })
unfolding transition_between
found_ok between job_id target now db none p eo ep h = ground arith
found_ok between job_id target now db (some r) none eo ep h = ground arith
found_ok between job_id target now db (some r) (some row) eo ep h =
    (row, ground arith, ground arith, ground arith)

module _ (between : Database → Database) (job_id : Text) (target : JobState) (now : ℕ)
    (db : Database) where
  -- A transition that returns has moved the job, from the state that the other connection left,
  -- along an edge of the table.
  pub transition_between_ok :
      (transition_between between job_id target now db).0 ≡ ok tt
      → (row : JobRow) × (lookup job_id (between db).jobs ≡ some row)
        × (contains (allowed_job_transitions row.state) target ≡ true)
        × ((transition_between between job_id target now db).1 ≡ record (between db) {
          jobs = insert job_id (record row { state = target; updated_at = now }) (between db).jobs;
        })
  transition_between_ok h = found_ok between job_id target now db _ _ refl refl h

  -- A transition that raises has written nothing of its own.
  pub transition_between_err :
      (e : Error)
      → (transition_between between job_id target now db).0 ≡ err e
      → ((transition_between between job_id target now db).1 ≡ db)
        ⊎ ((transition_between between job_id target now db).1 ≡ between db)
  unfolding transition_between
  transition_between_err e h = ground arith
