-- ===== src/Workflows/LiveCapture/Termination/Loop.antt =====
-- The loop of a live capture ends within the rounds that its fuel allows.
use fb_scraper.Prelude.{
  ℕ, zero, suc, ◌+◌, ◌-◌, ◌<◌, ◌≡◌, ◌≢◌, ◌∙◌, refl, sym, ap, arith, leb, Bool, true, false, Option,
  none, some, [], ◌∷◌, Text, text_eq, ◌++◌,
}
use fb_scraper.Contracts.{RecordJson}
use fb_scraper.Errors.{
  Error, Result, ok, err, out_of_fuel, page_limit_exceeded, pagination_loop_error,
}
use fb_scraper.Exec.{Exec}
use fb_scraper.Exec.Inversion.{bind_ok}
use fb_scraper.Exec.Fuel.{IsFueled, is_fuel, bind-IsFueled, bind_after-IsFueled}
use fb_scraper.Storage.Tables.{JobState, LiveRunRow}
use fb_scraper.Platform.{Platform}
use fb_scraper.Workflows.LiveCapture.{
  World, on_db, Surroundings, ParserInput, RenderedPage, LiveCaptureResult, on_browser, fail, stop,
  finish, interrupt, succeed, parser_drift, store_page, after_page, capture_loop, resume, start,
  capture_run, record_browser_failure, capture_pages,
}
use fb_scraper.Workflows.LiveCapture.Checkpoints.{Position, checkpoint}
use fb_scraper.Workflows.LiveCapture.Termination.{live_rules}

-- Neither the browser nor a parser reports that the fuel of the loop ran out.
pub record IsReal {B : Type 0} (env : Surroundings B) : Type 0 where
  pub pages : (cursor : Option Text) → IsFueled (env.capture_page cursor)
  pub parsers : (input : ParserInput) (e : Error) → env.parse input ≡ err e → is_fuel e ≡ false

module _ {B : Type 0} (platform : Platform) (json : RecordJson) (env : Surroundings B)
    (job_id : Text) (max_pages : ℕ) (interrupt_after_pages : Option ℕ) where
  fail-IsFueled :
      (capture_id failure_class message : Text)
      → IsFueled (
          fail platform json env job_id max_pages interrupt_after_pages capture_id failure_class
            message)
  fail-IsFueled capture_id failure_class message = search live_rules depth 10

  stop-IsFueled :
      (b : Bool) (capture_id failure_class message : Text) (e : Error)
      → is_fuel e ≡ false
      → IsFueled (
          stop platform json env job_id max_pages interrupt_after_pages b capture_id failure_class
            message e)
  stop-IsFueled b capture_id failure_class message e c =
      search (live_rules, fail-IsFueled, c) depth 12

  finish-IsFueled :
      (state : JobState)
      → IsFueled (finish platform json env job_id max_pages interrupt_after_pages state)
  finish-IsFueled state = search live_rules depth 12

  interrupt-IsFueled :
      (n : ℕ) → IsFueled (interrupt platform json env job_id max_pages interrupt_after_pages n)
  interrupt-IsFueled n = search (live_rules, finish-IsFueled) depth 12

  succeed-IsFueled :
      (run : LiveRunRow)
      → IsFueled (succeed platform json env job_id max_pages interrupt_after_pages run)
  succeed-IsFueled run = search (live_rules, finish-IsFueled) depth 12

  drift-IsFueled :
      (capture_id : Text) (message : Option Text)
      → IsFueled
          (parser_drift platform json env job_id max_pages interrupt_after_pages capture_id message)
  drift-IsFueled capture_id none = search live_rules
  drift-IsFueled capture_id (some message) = fail-IsFueled capture_id _ message

  start-IsFueled :
      (state : JobState)
      → IsFueled (start platform json env job_id max_pages interrupt_after_pages state)
  start-IsFueled state = search live_rules depth 12

  -- A test that stopped nothing was false.
  stop_ok :
      (b : Bool) (capture_id failure_class message : Text) (e : Error) (w : World B) {u : Unit {0}}
      → (stop platform json env job_id max_pages interrupt_after_pages b capture_id failure_class
          message e w).0
        ≡ ok u
      → b ≡ false
  stop_ok true capture_id failure_class message e w {u = u} h =
      let (_, _, same) =
        bind_ok
          (fail platform json env job_id max_pages interrupt_after_pages capture_id failure_class
            message)
          _ w h in
      absurd (raised (ap (λ (p : Result (Unit {0}) × World B). p.0) (sym same) ∙ h))
    where
      raised : ◌≡◌ {A = Result (Unit {0})} (err e) (ok u) → ⊥
      raised p = cc
  stop_ok false capture_id failure_class message e w h = refl

  module _ (real : IsReal env) where
    parse-IsFueled : (input : ParserInput) → IsFueled {S = World B} (λ w. (env.parse input, w))
    parse-IsFueled input = record { at = λ w e h. real.parsers input e h }

    store_page-IsFueled :
        (run : LiveRunRow) (session_class : Text) (cursor : Option Text) (n : ℕ)
        (page : RenderedPage)
        → IsFueled (
            store_page platform json env job_id max_pages interrupt_after_pages run session_class
              cursor n page)
    unfolding store_page
    store_page-IsFueled run session_class cursor n page =
        search (live_rules, stop-IsFueled, drift-IsFueled, parse-IsFueled) depth 30

    after_page-IsFueled :
        (run : LiveRunRow) (again : Position → Exec (World B) LiveCaptureResult)
        (position : Position) (n : ℕ) (capture_id : Text) (next : Option Text)
        → ((p : Position)
            → p.pages_completed < max_pages
            → p.pages_completed ≡ position.pages_completed + 1
            → IsFueled (again p))
        → IsFueled (
            after_page platform json env job_id max_pages interrupt_after_pages run again position n
              capture_id next)
    unfolding after_page
    after_page-IsFueled run again position n capture_id none ih =
        search (live_rules, interrupt-IsFueled, succeed-IsFueled) depth 12
    after_page-IsFueled run again position n capture_id (some next) ih =
        bind_after-IsFueled _ _ (stop-IsFueled _ capture_id _ _ page_limit_exceeded refl) λ _ w h.
          bind-IsFueled _ _ (stop-IsFueled _ capture_id _ _ pagination_loop_error refl) λ _.
            bind-IsFueled _ _ saved λ _.
              bind-IsFueled _ _ (interrupt-IsFueled n)
                λ _. next_round (stop_ok _ capture_id _ _ page_limit_exceeded w h)
      where
        saved : IsFueled (
            on_db {B = B}
              (checkpoint platform job_id capture_id (some next) (position.pages_completed + 1)))
        saved = search live_rules

        next_round :
            leb max_pages (position.pages_completed + 1) ≡ false
            → IsFueled (
                again (record {
                  cursor = some next;
                  pages_completed = position.pages_completed + 1;
                  seen_cursors = position.seen_cursors ++ (next ∷ []);
                }))
        next_round u = ih _ (ground arith) refl

    -- One round for each page up to the limit, and one more: a resumed run may have reached it.
    capture_loop-IsFueled :
        (run : LiveRunRow) (session_class : Text) (fuel n : ℕ) (position : Position)
        → max_pages < position.pages_completed + fuel
        → 0 < fuel
        → IsFueled (
            capture_loop platform json env job_id max_pages interrupt_after_pages run session_class
              fuel n position)
    unfolding capture_loop
    capture_loop-IsFueled run session_class zero n position h k = absurd (omega arith)
    capture_loop-IsFueled run session_class (suc fuel) n position h k =
        bind-IsFueled _ _ pages λ page.
          bind-IsFueled _ _
            (store_page-IsFueled run session_class position.cursor (position.pages_completed + 1)
              page)
            λ capture_id.
              after_page-IsFueled run _ position (n + 1) capture_id page.next_cursor λ p b q.
                capture_loop-IsFueled run session_class fuel (n + 1) p (omega arith) (omega arith)
      where
        pages : IsFueled (on_browser (env.capture_page position.cursor))
        pages = record { at = λ w e x. (real.pages position.cursor).at w.browser e x }

    resume-IsFueled :
        (run : LiveRunRow) (position : Position)
        → IsFueled (resume platform json env job_id max_pages interrupt_after_pages run position)
    unfolding resume
    resume-IsFueled run position = search (live_rules, succeed-IsFueled, loop) depth 12
      where
        enough : max_pages < position.pages_completed + suc (max_pages - position.pages_completed)
        enough = omega arith

        loop :
            (session_class : Text)
            → IsFueled (
                capture_loop platform json env job_id max_pages interrupt_after_pages run
                  session_class
                  (suc (max_pages - position.pages_completed))
                  0
                  position)
        loop session_class =
            capture_loop-IsFueled run session_class (suc (max_pages - position.pages_completed)) 0
              position enough (omega arith)

    capture_run-IsFueled :
        IsFueled (capture_run platform json env job_id max_pages interrupt_after_pages)
    unfolding capture_run
    capture_run-IsFueled = search (live_rules, start-IsFueled, resume-IsFueled) depth 30

    browser_failure-IsFueled :
        (stopped : Option (Text × Text))
        → IsFueled (
            record_browser_failure platform json env job_id max_pages interrupt_after_pages stopped)
    browser_failure-IsFueled none = search live_rules
    browser_failure-IsFueled (some (failure_class, message)) = fail-IsFueled _ failure_class _

    capture_pages-IsFueled :
        IsFueled (capture_pages platform json env job_id max_pages interrupt_after_pages)
    unfolding capture_pages
    capture_pages-IsFueled =
        search (live_rules, capture_run-IsFueled, browser_failure-IsFueled) depth 12

    -- The fuel that a run takes is enough: with a browser and parsers that do not report a lack
    -- of fuel themselves, a live capture never does, from any world, and also when it resumes
    -- past the limit of pages.
    pub capture_pages_fuel :
        (w : World B)
        → (capture_pages platform json env job_id max_pages interrupt_after_pages w).0
          ≢ err out_of_fuel
    capture_pages_fuel w h = true_ne_false (capture_pages-IsFueled.at w out_of_fuel h)
      where
        true_ne_false : ◌≡◌ {A = Bool} true false → ⊥
        true_ne_false p = cc
