-- ===== src/Workflows/LiveCapture/Failure.antt =====
-- What a recorded failure leaves behind.
use fb_scraper.Prelude.{
  ℕ, ◌≡◌, ◌≢◌, ◌∙◌, refl, sym, ap, subst, Bool, true, false, Option, none, some, Text, text_eq,
  arith, ◌==◌, if◌then◌else◌,
}
use fb_scraper.Prelude.Dict.{lookup}
use fb_scraper.Errors.{Result, ok}
use fb_scraper.Exec.{pure, ◌>>=◌}
use fb_scraper.Exec.Inversion.{bind_ok}
use fb_scraper.Exec.Ensures.{Ensures, ensures_rules}
use fb_scraper.Storage.Tables.{JobState, running, failed, job_state_eq, JobRow, Database}
use fb_scraper.Storage.Jobs.{get_state, transition}
use fb_scraper.Storage.Jobs.Lifecycle.{state_of}
use fb_scraper.Workflows.LiveCapture.Success.{transition_ok}
use fb_scraper.Workflows.LiveCapture.Tasks.{fail_running, record_failure}

abbrev IsStopped : Text → Database → Type 0
IsStopped job_id db = state_of job_id db ≢ some running

fail_running-IsStopped :
    (job_id : Text) (now : ℕ) (state : JobState) (db : Database) (b : Bool)
    → (state == running) ≡ b
    → state_of job_id db ≡ some state
    → ((if b then transition job_id failed now else pure tt) db).0 ≡ ok tt
    → IsStopped job_id ((if b then transition job_id failed now else pure tt) db).1
fail_running-IsStopped job_id now state db true t e h =
    λ p. failed_running (sym (transition_ok job_id failed now db h) ∙ p)
  where
    failed_running : some failed ≢ some running
    failed_running q = ground arith
fail_running-IsStopped job_id now state db false f e h = λ p. not_running (sym e ∙ p)
  where
    not_running : some state ≢ some running
    not_running q = ground arith

get_state_ok :
    (job_id : Text) (db : Database) (o : Option JobRow)
    → lookup job_id db.jobs ≡ o
    → {state : JobState} → (get_state job_id db).0 ≡ ok state
    → (state_of job_id db ≡ some state) × ((get_state job_id db).1 ≡ db)
unfolding get_state
get_state_ok job_id db none e h = absurd (ground arith)
get_state_ok job_id db (some row) e h = (ground arith, ground arith)

-- The end of `_record_failure`: the state is read and a running job fails.
ending-IsStopped :
    (job_id : Text) (now : ℕ)
    → Ensures (λ _ db. IsStopped job_id db) (get_state job_id >>= fail_running job_id now)
ending-IsStopped job_id now = record {
  at = λ db _ h.
      let (state, read, same) = bind_ok (get_state job_id) (fail_running job_id now) db h in
      let (is, unchanged) = get_state_ok job_id db (lookup job_id db.jobs) refl read in
      subst (λ (p : Result (Unit {0}) × Database). p.0 ≡ ok tt → IsStopped job_id p.1)
        (sym (same ∙ ap (fail_running job_id now state) unchanged))
        (fail_running-IsStopped job_id now state db (state == running) refl is) h;
}

record_failure-Ensures :
    (job_id capture_id failure_class message : Text) (now : ℕ)
    → Ensures
        (λ _ db. IsStopped job_id db)
        (record_failure job_id capture_id failure_class message now)
unfolding record_failure
record_failure-Ensures job_id capture_id failure_class message now =
    search (ensures_rules, ending-IsStopped) depth 8

-- When the recording of a failure returns, the job is not running any more, from any store.
pub record_failure_ok :
    (job_id capture_id failure_class message : Text) (now : ℕ) (db : Database)
    → (record_failure job_id capture_id failure_class message now db).0 ≡ ok tt
    → state_of job_id (record_failure job_id capture_id failure_class message now db).1
      ≢ some running
record_failure_ok job_id capture_id failure_class message now db h =
    (record_failure-Ensures job_id capture_id failure_class message now).at db tt h
