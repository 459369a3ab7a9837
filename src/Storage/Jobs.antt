-- ===== src/Storage/Jobs.antt =====
-- `JobRepository` and `ALLOWED_JOB_TRANSITIONS` of storage/repositories.py. The clock's reading is
-- the argument `now`. Another connection may write between the two statements of `transition`:
-- `between` is what it does there.
pub mod Lifecycle
pub mod Concurrency
use fb_scraper.Prelude.{
  ℕ, zero, suc, Bool, Option, none, some, List, [], ◌∷◌, Text, text_eq, nat_eq, not, ◌==◌, contains,
  if◌then◌else◌,
}
use fb_scraper.Prelude.Dict.{lookup, insert, has}
use fb_scraper.Errors.{Result, ok, err, integrity_error, record_not_found, invalid_state_transition}
use fb_scraper.Exec.{Exec, pure, raise, gets, or_raise, transaction, modify, raise_if, ◌>>=◌, ◌>>◌}
use fb_scraper.Storage.Tables.{
  JobState, planned, running, partial, succeeded, failed, interrupted, cancelled, job_state_eq,
  JobRow, Database,
}

-- `ALLOWED_JOB_TRANSITIONS[current]`
abbrev pub allowed_job_transitions : JobState → List JobState
allowed_job_transitions planned = running ∷ cancelled ∷ []
allowed_job_transitions running = partial ∷ succeeded ∷ failed ∷ interrupted ∷ cancelled ∷ []
allowed_job_transitions partial = running ∷ succeeded ∷ failed ∷ cancelled ∷ []
allowed_job_transitions interrupted = running ∷ cancelled ∷ []
allowed_job_transitions succeeded = []
allowed_job_transitions failed = []
allowed_job_transitions cancelled = []

-- `create`: the primary key refuses a second row
unfoldable pub create : Text → ℕ → Exec Database (Unit {0})
create job_id now = transaction (do
  raise_if (← gets (λ db. has job_id db.jobs)) integrity_error
  modify (λ db. record db {
    jobs = insert job_id (record { state = planned; created_at = now; updated_at = now }) db.jobs;
  }))

-- `get_state`
unfoldable pub get_state : Text → Exec Database JobState
get_state job_id = do
  row ← gets (λ db. lookup job_id db.jobs)
  job ← or_raise row record_not_found
  pure job.state

-- `UPDATE jobs ... WHERE job_id = ? AND state = ?`: the row count and the table
abbrev pub swap_row :
    Text → JobState → JobState → ℕ → Database → Option JobRow → Result ℕ × Database
swap_row job_id current target now db none = (ok 0, db)
swap_row job_id current target now db (some row) =
    if row.state == current
    then (
      ok 1,
      record db { jobs = insert job_id (record row { state = target; updated_at = now }) db.jobs },
    )
    else (ok 0, db)

unfoldable pub compare_and_swap : Text → JobState → JobState → ℕ → Exec Database ℕ
compare_and_swap job_id current target now db =
    swap_row job_id current target now db (lookup job_id db.jobs)

-- `transition`
unfoldable pub transition_between :
    (Database → Database) → Text → JobState → ℕ → Exec Database (Unit {0})
unfolding get_state compare_and_swap
transition_between between job_id target now = do
  current ← get_state job_id
  raise_if (not (contains (allowed_job_transitions current) target)) invalid_state_transition
  modify between
  rowcount ← compare_and_swap job_id current target now
  raise_if (not (rowcount == 1)) invalid_state_transition

-- `transition` with no other connection
unfoldable pub transition : Text → JobState → ℕ → Exec Database (Unit {0})
unfolding transition_between
transition = transition_between (λ db. db)
