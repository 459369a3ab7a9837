-- ===== src/Workflows/LiveCapture/Evidence.antt =====
-- A live capture never undoes evidence, whatever the browser and the parsers do and however the
-- run ends.
use fb_scraper.Prelude.{ℕ, zero, suc, ◌+◌, Bool, Option, none, some, Text, nat_eq}
use fb_scraper.Contracts.{RecordJson}
use fb_scraper.Errors.{Error}
use fb_scraper.Exec.{Exec, gets}
use fb_scraper.Exec.Steps.{IsPreorder, Steps, steps_rules}
use fb_scraper.Storage.Tables.{job_state_eq, JobState, LiveRunRow, Database}
use fb_scraper.Capture.RawStore.{Files}
use fb_scraper.Capture.RawStore.Files.{KeepsFiles, KeepsFiles-preorder, write-KeepsFiles}
use fb_scraper.Platform.{Platform}
use fb_scraper.Workflows.LiveCapture.{
  World, Surroundings, ParserInput, RenderedPage, LiveCaptureResult, on_db, on_files, on_browser,
  fail, stop, finish, interrupt, succeed, parser_drift, store_page, after_page, capture_loop,
  resume, start, capture_run, record_browser_failure, capture_pages,
}
use fb_scraper.Workflows.LiveCapture.Checkpoints.{Position}
use fb_scraper.Workflows.LiveCapture.Persist.{identifiers}
use fb_scraper.Workflows.LiveCapture.Durable.{Durable, Durable-preorder, untouched}
use fb_scraper.Workflows.LiveCapture.Untouched.{
  transition-Fixes, set_task_state-Fixes, ensure_task-Fixes, get_state-Fixes, get_run-Fixes,
  record_failure-Fixes, checkpoint-Fixes,
}
use fb_scraper.Workflows.LiveCapture.Stored.{add-Durable, persist_page-Durable}

module _ {B : Type 0} where
  -- Capture rows and files stand unchanged, records move forward, counters are only appended.
  pub record KeepsEvidence (v w : World B) : Type 0 where
    pub db : Durable v.db w.db
    pub files : KeepsFiles v.files w.files

  KeepsEvidence-preorder : IsPreorder KeepsEvidence
  KeepsEvidence-preorder = record {
    rfl = λ w. record { db = Durable-preorder.rfl w.db; files = KeepsFiles-preorder.rfl w.files };
    trans = λ u v w f g. record {
      db = Durable-preorder.trans u.db v.db w.db f.db g.db;
      files = KeepsFiles-preorder.trans u.files v.files w.files f.files g.files;
    };
  }

module _ {B A : Type 0} where
  on_db-KeepsEvidence :
      (m : Exec Database A) → Steps Durable m → Steps KeepsEvidence (on_db {B = B} m)
  on_db-KeepsEvidence m h = record {
    at = λ w. record { db = h.at w.db; files = KeepsFiles-preorder.rfl w.files };
  }

  on_files-KeepsEvidence :
      (m : Exec Files A) → Steps KeepsFiles m → Steps KeepsEvidence (on_files {B = B} m)
  on_files-KeepsEvidence m h = record {
    at = λ w. record { db = Durable-preorder.rfl w.db; files = h.at w.files };
  }

  on_browser-KeepsEvidence : (m : Exec B A) → Steps KeepsEvidence (on_browser m)
  on_browser-KeepsEvidence m = record {
    at = λ w. record { db = Durable-preorder.rfl w.db; files = KeepsFiles-preorder.rfl w.files };
  }

gets-Durable : {A : Type 0} (f : Database → A) → Steps Durable (gets f)
gets-Durable f = record { at = λ db. Durable-preorder.rfl db }

identifiers-Durable : (group_id : Text) → Steps Durable (identifiers group_id)
unfolding identifiers
identifiers-Durable group_id = record { at = λ db. Durable-preorder.rfl db }

ruleset evidence_rules = (
  steps_rules, KeepsEvidence-preorder, on_db-KeepsEvidence, on_files-KeepsEvidence,
  on_browser-KeepsEvidence, gets-Durable, untouched, transition-Fixes, set_task_state-Fixes,
  ensure_task-Fixes, get_state-Fixes, get_run-Fixes, record_failure-Fixes, checkpoint-Fixes,
  add-Durable, persist_page-Durable, write-KeepsFiles,
)

module _ {B : Type 0} (platform : Platform) (json : RecordJson) (env : Surroundings B)
    (job_id : Text) (max_pages : ℕ) (interrupt_after_pages : Option ℕ) where
  fail-KeepsEvidence :
      (capture_id failure_class message : Text)
      → Steps KeepsEvidence (
          fail platform json env job_id max_pages interrupt_after_pages capture_id failure_class
            message)
  fail-KeepsEvidence capture_id failure_class message = search evidence_rules depth 10

  stop-KeepsEvidence :
      (b : Bool) (capture_id failure_class message : Text) (e : Error)
      → Steps KeepsEvidence (
          stop platform json env job_id max_pages interrupt_after_pages b capture_id failure_class
            message e)
  stop-KeepsEvidence b capture_id failure_class message e =
      search (evidence_rules, fail-KeepsEvidence) depth 12

  finish-KeepsEvidence :
      (state : JobState)
      → Steps KeepsEvidence (finish platform json env job_id max_pages interrupt_after_pages state)
  finish-KeepsEvidence state = search evidence_rules depth 12

  interrupt-KeepsEvidence :
      (n : ℕ)
      → Steps KeepsEvidence (interrupt platform json env job_id max_pages interrupt_after_pages n)
  interrupt-KeepsEvidence n = search (evidence_rules, finish-KeepsEvidence) depth 12

  succeed-KeepsEvidence :
      (run : LiveRunRow)
      → Steps KeepsEvidence (succeed platform json env job_id max_pages interrupt_after_pages run)
  succeed-KeepsEvidence run =
      search (evidence_rules, finish-KeepsEvidence, identifiers-Durable) depth 12

  drift-KeepsEvidence :
      (capture_id : Text) (message : Option Text)
      → Steps KeepsEvidence
          (parser_drift platform json env job_id max_pages interrupt_after_pages capture_id message)
  drift-KeepsEvidence capture_id none = search evidence_rules
  drift-KeepsEvidence capture_id (some message) = fail-KeepsEvidence capture_id _ message

  start-KeepsEvidence :
      (state : JobState)
      → Steps KeepsEvidence (start platform json env job_id max_pages interrupt_after_pages state)
  start-KeepsEvidence state = search evidence_rules depth 12

  parse-KeepsEvidence :
      (input : ParserInput) → Steps (KeepsEvidence {B = B}) (λ w. (env.parse input, w))
  parse-KeepsEvidence input = record { at = KeepsEvidence-preorder.rfl }

  store_page-KeepsEvidence :
      (run : LiveRunRow) (session_class : Text) (cursor : Option Text) (n : ℕ) (page : RenderedPage)
      → Steps KeepsEvidence (
          store_page platform json env job_id max_pages interrupt_after_pages run session_class
            cursor n page)
  unfolding store_page
  store_page-KeepsEvidence run session_class cursor n page =
      search (evidence_rules, stop-KeepsEvidence, drift-KeepsEvidence, parse-KeepsEvidence) depth 30

  after_page-KeepsEvidence :
      (run : LiveRunRow) (again : Position → Exec (World B) LiveCaptureResult) (position : Position)
      (n : ℕ) (capture_id : Text) (next : Option Text)
      → ((p : Position) → Steps KeepsEvidence (again p))
      → Steps KeepsEvidence (
          after_page platform json env job_id max_pages interrupt_after_pages run again position n
            capture_id next)
  unfolding after_page
  after_page-KeepsEvidence run again position n capture_id none ih =
      search (evidence_rules, interrupt-KeepsEvidence, succeed-KeepsEvidence) depth 12
  after_page-KeepsEvidence run again position n capture_id (some next) ih =
      search (evidence_rules, stop-KeepsEvidence, interrupt-KeepsEvidence, ih) depth 14

  capture_loop-KeepsEvidence :
      (run : LiveRunRow) (session_class : Text) (fuel n : ℕ) (position : Position)
      → Steps KeepsEvidence (
          capture_loop platform json env job_id max_pages interrupt_after_pages run session_class
            fuel n position)
  unfolding capture_loop
  capture_loop-KeepsEvidence run session_class zero n position = search evidence_rules
  capture_loop-KeepsEvidence run session_class (suc fuel) n position =
      search
        (
          evidence_rules,
          store_page-KeepsEvidence,
          after_page-KeepsEvidence,
          capture_loop-KeepsEvidence run session_class fuel (n + 1),
        )
        depth 12

  resume-KeepsEvidence :
      (run : LiveRunRow) (position : Position)
      → Steps KeepsEvidence
          (resume platform json env job_id max_pages interrupt_after_pages run position)
  unfolding resume
  resume-KeepsEvidence run position =
      search (evidence_rules, succeed-KeepsEvidence, capture_loop-KeepsEvidence) depth 12

  capture_run-KeepsEvidence :
      Steps KeepsEvidence (capture_run platform json env job_id max_pages interrupt_after_pages)
  unfolding capture_run
  capture_run-KeepsEvidence =
      search (evidence_rules, start-KeepsEvidence, resume-KeepsEvidence) depth 30

  browser_failure-KeepsEvidence :
      (stopped : Option (Text × Text))
      → Steps KeepsEvidence
          (record_browser_failure platform json env job_id max_pages interrupt_after_pages stopped)
  browser_failure-KeepsEvidence none = search evidence_rules
  browser_failure-KeepsEvidence (some (failure_class, message)) =
      fail-KeepsEvidence _ failure_class _

  -- Whatever the browser, the clock and the parsers do, and whether the run returns or raises:
  -- every capture row and every file that was there stands unchanged, every Group, Post and
  -- Comment is there with an observation that is not earlier and with the same parents, and
  -- counters were only appended.
  pub capture_pages-KeepsEvidence :
      Steps KeepsEvidence (capture_pages platform json env job_id max_pages interrupt_after_pages)
  unfolding capture_pages
  capture_pages-KeepsEvidence =
      search (evidence_rules, capture_run-KeepsEvidence, browser_failure-KeepsEvidence) depth 12
