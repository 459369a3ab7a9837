-- ===== src/Storage/Jobs/Lifecycle.antt =====
-- What a sequence of calls of `JobRepository.transition` can do to one job. A caller that catches
-- the exception goes on from the store that the call left.
use fb_scraper.Prelude.{
  ℕ, ◌≡◌, ◌≢◌, ◌⊎◌, true, Option, none, some, List, [], ◌∷◌, Text, text_eq, contains, if◌then◌else◌,
  All, arith, refl,
}
use fb_scraper.Prelude.Dict.{lookup, insert, lookup-insert}
use fb_scraper.Errors.{Result, ok, err, record_not_found, invalid_state_transition}
use fb_scraper.Storage.Tables.{
  JobState, planned, running, succeeded, failed, cancelled, job_state_eq, JobRow, Database,
}
use fb_scraper.Storage.Jobs.{allowed_job_transitions, transition}

-- What `transition` does, from the row that the job has.
abbrev pub moved : Text → JobState → ℕ → Database → Option JobRow → Result (Unit {0}) × Database
moved job_id target now db none = (err record_not_found, db)
moved job_id target now db (some row) =
    if contains (allowed_job_transitions row.state) target
    then (
      ok tt,
      record db { jobs = insert job_id (record row { state = target; updated_at = now }) db.jobs },
    )
    else (err invalid_state_transition, db)

-- `transition` writes the target exactly when the table allows it from the job's state; a missing
-- job and a transition that is not allowed raise and leave the whole store as it was.
pub transition_lem :
    (job_id : Text) (target : JobState) (now : ℕ) (db : Database)
    → transition job_id target now db ≡ moved job_id target now db (lookup job_id db.jobs)
unfolding transition
transition_lem job_id target now db = ground arith

pub record Call : Type 0 where
  pub job_id : Text
  pub target : JobState
  pub now : ℕ

pub run_calls : List Call → Database → Database
run_calls [] db = db
run_calls (c ∷ calls) db = run_calls calls (transition c.job_id c.target c.now db).1

abbrev pub IsTerminal : JobState → Type 0
IsTerminal s = contains (succeeded ∷ failed ∷ cancelled ∷ []) s ≡ true

moved-IsTerminal :
    (c : Call) (job_id : Text) (row : JobRow) (db : Database) (o : Option JobRow)
    → IsTerminal row.state
    → lookup job_id db.jobs ≡ some row
    → lookup c.job_id db.jobs ≡ o
    → lookup job_id (moved c.job_id c.target c.now db o).1.jobs ≡ some row
moved-IsTerminal c job_id row db none t h e = h
moved-IsTerminal c job_id row db (some r) t h e = ground (
  arith,
  lookup-insert job_id c.job_id (record r { state = c.target; updated_at = c.now }) db.jobs,
)

-- A succeeded, failed or cancelled job keeps its row under every later sequence of transitions of
-- any jobs.
pub run_calls_terminal :
    (calls : List Call) (job_id : Text) (row : JobRow) (db : Database)
    → IsTerminal row.state
    → lookup job_id db.jobs ≡ some row
    → lookup job_id (run_calls calls db).jobs ≡ some row
unfolding run_calls
run_calls_terminal [] job_id row db t h = h
run_calls_terminal (c ∷ calls) job_id row db t h =
    run_calls_terminal calls job_id row (transition c.job_id c.target c.now db).1 t
      (rw transition_lem (moved-IsTerminal c job_id row db (lookup c.job_id db.jobs) t h refl))

abbrev pub state_of : Text → Database → Option JobState
state_of job_id db = elim (lookup job_id db.jobs) [ none ↦ none | some row ↦ some row.state ]

abbrev IsIdle : Option JobState → Type 0
IsIdle s = (s ≡ some planned) ⊎ (s ≡ some cancelled)

moved-IsIdle :
    (c : Call) (job_id : Text) (db : Database) (o : Option JobRow)
    → c.target ≢ running
    → IsIdle (state_of job_id db)
    → lookup c.job_id db.jobs ≡ o
    → IsIdle (state_of job_id (moved c.job_id c.target c.now db o).1)
moved-IsIdle c job_id db none n h e = h
moved-IsIdle c job_id db (some r) n h e = ground (
  arith,
  lookup-insert job_id c.job_id (record r { state = c.target; updated_at = c.now }) db.jobs,
)

-- A job that was created and is never moved to running is planned or cancelled: no sequence of
-- transitions brings it to partial, succeeded, failed or interrupted without running.
pub run_calls_idle :
    (calls : List Call) (job_id : Text) (db : Database)
    → All (λ c. c.target ≢ running) calls
    → (state_of job_id db ≡ some planned) ⊎ (state_of job_id db ≡ some cancelled)
    → (state_of job_id (run_calls calls db) ≡ some planned)
      ⊎ (state_of job_id (run_calls calls db) ≡ some cancelled)
unfolding run_calls
run_calls_idle [] job_id db n h = h
run_calls_idle (c ∷ calls) job_id db (n, ns) h =
    run_calls_idle calls job_id (transition c.job_id c.target c.now db).1 ns
      (rw transition_lem (moved-IsIdle c job_id db (lookup c.job_id db.jobs) n h refl))
