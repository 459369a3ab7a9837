-- ===== src/Workflows/LiveCapture/Success.antt =====
-- What a live capture that returns has reached.
use fb_scraper.Prelude.{
  ℕ, zero, suc, ◌+◌, ◌≡◌, sym, ap, subst, Option, none, some, Text, text_eq, arith,
}
use fb_scraper.Prelude.Dict.{lookup, lookup-insert_self}
use fb_scraper.Contracts.{RecordJson}
use fb_scraper.Errors.{Result, ok}
use fb_scraper.Exec.{Exec}
use fb_scraper.Exec.Inversion.{bind_ok, ok_injective}
use fb_scraper.Exec.Ensures.{Ensures, ensures_rules}
use fb_scraper.Storage.Tables.{JobState, succeeded, job_state_eq, JobRow, LiveRunRow, Database}
use fb_scraper.Storage.Jobs.{transition}
use fb_scraper.Storage.Jobs.Lifecycle.{moved, transition_lem, state_of}
use fb_scraper.Platform.{Platform}
use fb_scraper.Workflows.LiveCapture.{
  World, Surroundings, LiveCaptureResult, on_db, finish, succeed, after_page, capture_loop, resume,
  capture_run, capture_pages,
}
use fb_scraper.Workflows.LiveCapture.Checkpoints.{Position}
use fb_scraper.Workflows.LiveCapture.Persist.{identifiers}

moved_ok :
    (job_id : Text) (target : JobState) (now : ℕ) (db : Database) (o : Option JobRow)
    → (moved job_id target now db o).0 ≡ ok tt
    → state_of job_id (moved job_id target now db o).1 ≡ some target
moved_ok job_id target now db none h = absurd cc
moved_ok job_id target now db (some row) h =
    ground
      (arith, lookup-insert_self job_id (record row { state = target; updated_at = now }) db.jobs)

pub transition_ok :
    (job_id : Text) (target : JobState) (now : ℕ) (db : Database)
    → (transition job_id target now db).0 ≡ ok tt
    → state_of job_id (transition job_id target now db).1 ≡ some target
transition_ok job_id target now db h =
    rw transition_lem
      (moved_ok job_id target now db (lookup job_id db.jobs) (rw transition_lem at h))

module _ {B : Type 0} (platform : Platform) (json : RecordJson) (env : Surroundings B)
    (job_id : Text) (max_pages : ℕ) (interrupt_after_pages : Option ℕ) where
  -- The job is succeeded, in the store and in the result.
  abbrev pub IsSucceeded : LiveCaptureResult → World B → Type 0
  IsSucceeded r w =
      (state_of job_id w.db ≡ some succeeded) × (r.state ≡ succeeded) × (r.job_id ≡ job_id)

  transition-Ensures :
      (state : JobState) (now : ℕ)
      → Ensures
          (λ _ (w : World B). state_of job_id w.db ≡ some state)
          (on_db (transition job_id state now))
  transition-Ensures state now = record { at = λ w _ h. transition_ok job_id state now w.db (h) }

  finish-Ensures :
      (state : JobState)
      → Ensures
          (λ _ (w : World B). state_of job_id w.db ≡ some state)
          (finish platform json env job_id max_pages interrupt_after_pages state)
  finish-Ensures state = search (ensures_rules, transition-Ensures) depth 10

  succeed-IsSucceeded :
      (run : LiveRunRow)
      → Ensures IsSucceeded (succeed platform json env job_id max_pages interrupt_after_pages run)
  unfolding identifiers
  succeed-IsSucceeded run = record {
    at = λ w r h.
        let (_, done, same) =
          bind_ok (finish platform json env job_id max_pages interrupt_after_pages succeeded) _ w
            h in
        subst (λ (p : Result LiveCaptureResult × World B). p.0 ≡ ok r → IsSucceeded r p.1)
          (sym same)
          (λ q. (
            (finish-Ensures succeeded).at w tt done,
            ap (λ (x : LiveCaptureResult). x.state) (sym (ok_injective q)),
            ap (λ (x : LiveCaptureResult). x.job_id) (sym (ok_injective q)),
          ))
          h;
  }

  after_page-IsSucceeded :
      (run : LiveRunRow) (again : Position → Exec (World B) LiveCaptureResult) (position : Position)
      (n : ℕ) (capture_id : Text) (next : Option Text)
      → ((p : Position) → Ensures IsSucceeded (again p))
      → Ensures IsSucceeded (
          after_page platform json env job_id max_pages interrupt_after_pages run again position n
            capture_id next)
  unfolding after_page
  after_page-IsSucceeded run again position n capture_id none ih =
      search (ensures_rules, succeed-IsSucceeded) depth 12
  after_page-IsSucceeded run again position n capture_id (some next) ih =
      search (ensures_rules, ih) depth 14

  capture_loop-IsSucceeded :
      (run : LiveRunRow) (session_class : Text) (fuel n : ℕ) (position : Position)
      → Ensures IsSucceeded (
          capture_loop platform json env job_id max_pages interrupt_after_pages run session_class
            fuel n position)
  unfolding capture_loop
  capture_loop-IsSucceeded run session_class zero n position = search ensures_rules
  capture_loop-IsSucceeded run session_class (suc fuel) n position =
      search
        (
          ensures_rules,
          after_page-IsSucceeded,
          capture_loop-IsSucceeded run session_class fuel (n + 1),
        )
        depth 12

  resume-IsSucceeded :
      (run : LiveRunRow) (position : Position)
      → Ensures IsSucceeded
          (resume platform json env job_id max_pages interrupt_after_pages run position)
  unfolding resume
  resume-IsSucceeded run position =
      search (ensures_rules, succeed-IsSucceeded, capture_loop-IsSucceeded) depth 12

  capture_run-IsSucceeded :
      Ensures IsSucceeded (capture_run platform json env job_id max_pages interrupt_after_pages)
  unfolding capture_run
  capture_run-IsSucceeded = search (ensures_rules, resume-IsSucceeded) depth 30

  capture_pages-Ensures :
      Ensures IsSucceeded (capture_pages platform json env job_id max_pages interrupt_after_pages)
  unfolding capture_pages
  capture_pages-Ensures = search (ensures_rules, capture_run-IsSucceeded) depth 12

  -- When a live capture returns, from any world and with any browser, the job is succeeded in the
  -- store and in the result: every other end raises.
  pub capture_pages_ok :
      (w : World B) (r : LiveCaptureResult)
      → (capture_pages platform json env job_id max_pages interrupt_after_pages w).0 ≡ ok r
      → IsSucceeded r (capture_pages platform json env job_id max_pages interrupt_after_pages w).1
  capture_pages_ok w r h = capture_pages-Ensures.at w r h
