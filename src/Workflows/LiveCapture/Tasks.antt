-- ===== src/Workflows/LiveCapture/Tasks.antt =====
-- `_ensure_task`, `_set_task_state` and `_record_failure` of workflows/live_capture.py.
use fb_scraper.Prelude.{
  ℕ, ◌+◌, Bool, true, false, not, Option, none, some, List, [], ◌∷◌, ◌++◌, Text, text, text_eq,
  ◌==◌, leb, if◌then◌else◌,
}
use fb_scraper.Prelude.Dict.{lookup, insert, has}
use fb_scraper.Errors.{integrity_error}
use fb_scraper.Exec.{Exec, pure, gets, transaction, modify, raise_if, ◌>>=◌, ◌>>◌}
use fb_scraper.Storage.Tables.{
  JobState, running, failed, job_state_eq, TaskRow, AttemptRow, Database,
}
use fb_scraper.Storage.Jobs.{get_state, transition}

-- `UPDATE tasks SET state = ?, updated_at = ? WHERE task_id = ?`
abbrev pub update_task : Text → JobState → ℕ → Option TaskRow → Database → Database
update_task job_id state now none db = db
update_task job_id state now (some row) db = record db {
  tasks = insert job_id (record row { state = state; updated_at = now }) db.tasks;
}

-- `_set_task_state`
unfoldable pub set_task_state : Text → JobState → ℕ → Exec Database (Unit {0})
set_task_state job_id state now =
    transaction (modify (λ db. update_task job_id state now (lookup job_id db.tasks) db))

-- `INSERT OR IGNORE`, whose foreign key raises all the same
abbrev pub insert_task : Text → ℕ → Bool → Exec Database (Unit {0})
insert_task job_id now true = pure tt
insert_task job_id now false = do
  raise_if (← gets (λ db. not (has job_id db.jobs))) integrity_error
  modify (λ db. record db {
    tasks = insert job_id (record { state = running; created_at = now; updated_at = now }) db.tasks;
  })

-- `_ensure_task`
unfoldable pub ensure_task : Text → ℕ → Exec Database (Unit {0})
ensure_task job_id now = transaction (do
  present ← gets (λ db. has job_id db.tasks)
  insert_task job_id now present
  modify (λ db. update_task job_id running now (lookup job_id db.tasks) db))

-- `COALESCE(MAX(attempt_number), 0)`
unfoldable pub last_attempt : Text → List AttemptRow → ℕ
last_attempt job_id [] = 0
last_attempt job_id (row ∷ rows) =
    let rest = last_attempt job_id rows in
    if row.task_id == job_id
    then (if leb rest row.attempt_number then row.attempt_number else rest)
    else rest

-- `failure_class if failure_class == "parser_drift" else "partial"`
abbrev pub attempt_health : Text → Text
attempt_health failure_class =
    if failure_class == text "parser_drift" then failure_class else text "partial"

-- The two rows of a failed attempt
abbrev pub add_failure : Text → Text → Text → Text → ℕ → Exec Database (Unit {0})
add_failure job_id capture_id failure_class message attempt_number = transaction (do
  raise_if (← gets (λ db. not (has job_id db.tasks))) integrity_error
  modify (λ db. record db {
    attempts =
        db.attempts
        ++ (record {
          task_id = job_id;
          attempt_number = attempt_number;
          health = attempt_health failure_class;
        }
            ∷ []);
    failures =
        db.failures
        ++ (record {
          task_id = job_id;
          attempt_number = attempt_number;
          failure_class = failure_class;
          message = capture_id ++ (text ": " ++ message);
        }
            ∷ []);
  }))

-- `if jobs.get_state(job_id) is JobState.RUNNING: jobs.transition(job_id, JobState.FAILED)`
abbrev pub fail_running : Text → ℕ → JobState → Exec Database (Unit {0})
fail_running job_id now state = if state == running then transition job_id failed now else pure tt

-- `_record_failure`
unfoldable pub record_failure : Text → Text → Text → Text → ℕ → Exec Database (Unit {0})
unfolding last_attempt set_task_state
record_failure job_id capture_id failure_class message now = do
  last ← gets (λ db. last_attempt job_id db.attempts)
  add_failure job_id capture_id failure_class message (last + 1)
  set_task_state job_id failed now
  state ← get_state job_id
  fail_running job_id now state
