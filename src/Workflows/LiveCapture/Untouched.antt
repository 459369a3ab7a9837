-- ===== src/Workflows/LiveCapture/Untouched.antt =====
-- The writes of a live capture that do not touch the captures, the records or the counters: jobs,
-- tasks, attempts, failures and checkpoints.
use fb_scraper.Prelude.{
  ℕ, ◌≡◌, refl, Bool, true, false, Option, none, some, [], ◌∷◌, Text, text_eq, contains, Bool-cases,
  ◌++◌, ◌⊎◌, ◌==◌, inl, inr,
}
use fb_scraper.Prelude.Dict.{lookup, insert}
use fb_scraper.Exec.{modify}
use fb_scraper.Exec.Fixed.{Fixes, Fixes-preorder, modify-Fixes}
use fb_scraper.Exec.Steps.{Steps, steps_rules}
use fb_scraper.Storage.Tables.{
  JobState, running, job_state_eq, failed, AttemptRow, FailureRow, CheckpointRow, JobRow, TaskRow,
  Database,
}
use fb_scraper.Storage.Jobs.{transition, allowed_job_transitions, get_state}
use fb_scraper.Storage.Jobs.Lifecycle.{moved, transition_lem}
use fb_scraper.Platform.{Platform}
use fb_scraper.Workflows.LiveCapture.Checkpoints.{checkpoint, upsert}
use fb_scraper.Workflows.LiveCapture.Tasks.{
  update_task, set_task_state, insert_task, ensure_task, add_failure, fail_running, record_failure,
}
use fb_scraper.Storage.LiveRuns.{get_run}
use fb_scraper.Workflows.LiveCapture.Durable.{evidence_of}

moved-Fixes :
    (job_id : Text) (target : JobState) (now : ℕ) (db : Database) (o : Option JobRow)
    → Fixes evidence_of db (moved job_id target now db o).1
moved-Fixes job_id target now db none = record { same = refl }
moved-Fixes job_id target now db (some row) =
    elim (Bool-cases (contains (allowed_job_transitions row.state) target)) [
      | inl t ↦ record { same = rw t refl }
      | inr f ↦ record { same = rw f refl }
    ]

pub transition-Fixes :
    (job_id : Text) (target : JobState) (now : ℕ)
    → Steps (Fixes evidence_of) (transition job_id target now)
transition-Fixes job_id target now = record {
  at = λ db. rw transition_lem (moved-Fixes job_id target now db (lookup job_id db.jobs));
}

update_task-Fixes :
    (job_id : Text) (state : JobState) (now : ℕ)
    → Steps
        (Fixes evidence_of)
        (modify (λ db. update_task job_id state now (lookup job_id db.tasks) db))
update_task-Fixes job_id state now =
    modify-Fixes evidence_of _ (λ db. go db (lookup job_id db.tasks))
  where
    go :
        (db : Database) (o : Option TaskRow)
        → evidence_of (update_task job_id state now o db) ≡ evidence_of db
    go db none = refl
    go db (some row) = refl

pub set_task_state-Fixes :
    (job_id : Text) (state : JobState) (now : ℕ)
    → Steps (Fixes evidence_of) (set_task_state job_id state now)
unfolding set_task_state
set_task_state-Fixes job_id state now = search (steps_rules, update_task-Fixes, Fixes-preorder)

add_task-Fixes :
    (job_id : Text) (row : TaskRow)
    → Steps
        (Fixes evidence_of)
        (modify (λ (db : Database). record db { tasks = insert job_id row db.tasks }))
add_task-Fixes job_id row = record { at = λ db. record { same = refl } }

insert_task-Fixes :
    (job_id : Text) (now : ℕ) (present : Bool)
    → Steps (Fixes evidence_of) (insert_task job_id now present)
insert_task-Fixes job_id now true = search (steps_rules, Fixes-preorder evidence_of)
insert_task-Fixes job_id now false =
    search (steps_rules, Fixes-preorder evidence_of, add_task-Fixes) depth 12

pub ensure_task-Fixes :
    (job_id : Text) (now : ℕ) → Steps (Fixes evidence_of) (ensure_task job_id now)
unfolding ensure_task
ensure_task-Fixes job_id now =
    search (steps_rules, Fixes-preorder evidence_of, insert_task-Fixes, update_task-Fixes) depth 10

add_rows-Fixes :
    (a : AttemptRow) (f : FailureRow)
    → Steps (Fixes evidence_of) (
        modify (λ (db : Database). record db {
          attempts = db.attempts ++ (a ∷ []);
          failures = db.failures ++ (f ∷ []);
        }))
add_rows-Fixes a f = record { at = λ db. record { same = refl } }

upsert-Fixes :
    (row : CheckpointRow)
    → Steps
        (Fixes evidence_of)
        (modify (λ (db : Database). record db { checkpoints = upsert row db.checkpoints }))
upsert-Fixes row = record { at = λ db. record { same = refl } }

add_failure-Fixes :
    (job_id capture_id failure_class message : Text) (n : ℕ)
    → Steps (Fixes evidence_of) (add_failure job_id capture_id failure_class message n)
add_failure-Fixes job_id capture_id failure_class message n =
    search (steps_rules, Fixes-preorder evidence_of, add_rows-Fixes) depth 12

fail_running-Fixes :
    (job_id : Text) (now : ℕ) (state : JobState)
    → Steps (Fixes evidence_of) (fail_running job_id now state)
fail_running-Fixes job_id now state = record { at = λ db. go (Bool-cases (state == running)) db }
  where
    go :
        ((state == running) ≡ true) ⊎ ((state == running) ≡ false)
        → (db : Database) → Fixes evidence_of db (fail_running job_id now state db).1
    go (inl t) db = rw t ((transition-Fixes job_id failed now).at db)
    go (inr f) db = rw f (record { same = refl })

pub get_state-Fixes : (job_id : Text) → Steps (Fixes evidence_of) (get_state job_id)
unfolding get_state
get_state-Fixes job_id = search (steps_rules, Fixes-preorder evidence_of) depth 8

pub get_run-Fixes : (job_id : Text) → Steps (Fixes evidence_of) (get_run job_id)
unfolding get_run
get_run-Fixes job_id = search (steps_rules, Fixes-preorder evidence_of) depth 8

pub record_failure-Fixes :
    (job_id capture_id failure_class message : Text) (now : ℕ)
    → Steps (Fixes evidence_of) (record_failure job_id capture_id failure_class message now)
unfolding record_failure
record_failure-Fixes job_id capture_id failure_class message now =
    search
      (
        steps_rules,
        Fixes-preorder evidence_of,
        add_failure-Fixes,
        set_task_state-Fixes,
        get_state-Fixes,
        fail_running-Fixes,
      )
      depth 12

pub checkpoint-Fixes :
    (platform : Platform) (job_id capture_id : Text) (cursor : Option Text) (n : ℕ)
    → Steps (Fixes evidence_of) (checkpoint platform job_id capture_id cursor n)
unfolding checkpoint
checkpoint-Fixes platform job_id capture_id cursor n =
    search (steps_rules, Fixes-preorder evidence_of, upsert-Fixes) depth 12
