-- ===== src/Workflows/LiveCapture.antt =====
-- `LiveCaptureWorkflow` of workflows/live_capture.py. The browser, the clock and the two parsers
-- are arguments; `B` is what the browser and the clock keep. The `while True` loop takes fuel.
-- The measurements of a run (`_timer`, `_write_measurement`) are not modelled.
pub mod Checkpoints
pub mod Tasks
pub mod Persist
pub mod Durable
pub mod Untouched
pub mod Stored
pub mod Evidence
pub mod Success
pub mod Resume
pub mod Failure
pub mod Selected
pub mod Termination
use fb_scraper.Prelude.{
  ℕ, zero, suc, ◌+◌, ◌-◌, Bool, true, false, not, ◌&&◌, ◌||◌, Option, none, some, List, [], ◌∷◌,
  ◌++◌, Text, text, text_eq, nat_eq, contains, ◌==◌, leb, is_none, pos, if◌then◌else◌,
}
use fb_scraper.Prelude.Dict.{lookup}
use fb_scraper.Contracts.{GroupRecord, PostRecord, CommentRecord, RecordJson}
use fb_scraper.Errors.{
  Error, Result, ok, err, value_error, live_run_not_found, unsupported_layout_error,
  page_limit_exceeded, pagination_loop_error, keyboard_interrupt, browser_state_error, out_of_fuel,
}
use fb_scraper.Exec.{Exec, pure, raise, gets, or_raise, on_error, raise_if, ◌>>=◌, ◌>>◌}
use fb_scraper.Storage.Tables.{
  JobState, planned, running, partial, succeeded, interrupted, failed, job_state_eq, aware,
  LiveRunRow, ProfileRow, CaptureRow, Database,
}
use fb_scraper.Storage.Jobs.{get_state, transition}
use fb_scraper.Storage.Captures.{add}
use fb_scraper.Storage.LiveRuns.{get_run}
use fb_scraper.Platform.{Platform}
use fb_scraper.Capture.RawStore.{Files, StoredRawCapture, write}
use fb_scraper.Workflows.LiveCapture.Checkpoints.{Position, resume_position, checkpoint}
use fb_scraper.Workflows.LiveCapture.Tasks.{ensure_task, set_task_state, record_failure}
use fb_scraper.Workflows.LiveCapture.Persist.{same_canonical_url, persist_page, identifiers}

-- capture/rendered.py, `RenderedPage`
pub record RenderedPage : Type 0 where
  pub raw_html : Text
  pub next_cursor : Option Text

-- `LiveCaptureResult`
pub record LiveCaptureResult : Type 0 where
  pub job_id : Text
  pub identifiers : List Text
  pub state : JobState

-- What the workflow acts on
pub record World (B : Type 0) : Type 0 where
  pub db : Database
  pub files : Files
  pub browser : B

-- What a parser is given
pub record ParserInput : Type 0 where
  pub adapter_version : Text
  pub raw_html : Text
  pub source_url : Text
  pub capture_id : Text
  pub raw_sha256 : Text
  pub session_class : Text
  pub observed_at : ℕ
  pub lower_bound : ℕ

pub record Parsed : Type 0 where
  pub group : GroupRecord
  pub posts : List PostRecord
  pub comments : List CommentRecord

-- The surroundings of a run: the browser, the clock, and the parsers, which the adapter version
-- chooses between
pub record Surroundings (B : Type 0) : Type 0 where
  pub capture_page : Option Text → B → Result RenderedPage × B
  pub now : B → ℕ × B
  pub parse : ParserInput → Result Parsed

module _ {B A : Type 0} where
  abbrev pub on_db : Exec Database A → Exec (World B) A
  on_db m w = ((m w.db).0, record w { db = (m w.db).1 })

  abbrev pub on_files : Exec Files A → Exec (World B) A
  on_files m w = ((m w.files).0, record w { files = (m w.files).1 })

  abbrev pub on_browser : Exec B A → Exec (World B) A
  on_browser m w = ((m w.browser).0, record w { browser = (m w.browser).1 })

-- `f"{job_id}|{page_number}|{cursor_key}|{raw_digest}"`
abbrev pub capture_key : Platform → Text → ℕ → Option Text → Text → Text
capture_key platform job_id page_number cursor raw_digest =
    job_id
    ++ (text "|"
        ++ (platform.str page_number
            ++ (text "|"
                ++ ((elim cursor [ none ↦ text "group-root" | some c ↦ c ])
                    ++ (text "|" ++ raw_digest)))))

-- `datetime.fromisoformat(...)` of the existing row, else the clock
abbrev pub observed_time : ℕ → Option CaptureRow → ℕ
observed_time now none = now
observed_time now (some row) = row.collected_at

-- The message of the parser's exception
abbrev pub layout_message : Error → Option Text
layout_message (unsupported_layout_error message) = some message
layout_message _ = none

-- The failure class and the message of a `BrowserStateError`
abbrev pub browser_stop : Error → Option (Text × Text)
browser_stop (browser_state_error failure_class message) = some (failure_class, message)
browser_stop _ = none

module _ {B : Type 0} (platform : Platform) (json : RecordJson) (env : Surroundings B)
    (job_id : Text) (max_pages : ℕ) (interrupt_after_pages : Option ℕ) where
  -- `datetime.now(UTC)`
  abbrev pub clock : Exec (World B) ℕ
  clock = on_browser (λ b. (ok (env.now b).0, (env.now b).1))

  abbrev pub fail : Text → Text → Text → Exec (World B) (Unit {0})
  fail capture_id failure_class message = do
    now ← clock
    on_db (record_failure job_id capture_id failure_class message now)

  -- `_record_failure(...)` and `raise error`
  abbrev pub stop : Bool → Text → Text → Text → Error → Exec (World B) (Unit {0})
  stop b capture_id failure_class message error =
      if b then (do fail capture_id failure_class message; raise error) else pure tt

  -- `_set_task_state(...)` and `jobs.transition(...)`
  abbrev pub finish : JobState → Exec (World B) (Unit {0})
  finish state = do
    now ← clock
    on_db (set_task_state job_id state now)
    later ← clock
    on_db (transition job_id state later)

  -- `interrupt_after_pages is not None and pages_this_attempt >= interrupt_after_pages`
  abbrev pub is_interrupted : ℕ → Bool
  is_interrupted pages_this_attempt = elim interrupt_after_pages [
    | none ↦ false
    | some n ↦ leb n pages_this_attempt
  ]

  abbrev pub interrupt : ℕ → Exec (World B) (Unit {0})
  interrupt pages_this_attempt =
      if is_interrupted pages_this_attempt
      then (do finish interrupted; raise keyboard_interrupt)
      else pure tt

  abbrev pub succeed : LiveRunRow → Exec (World B) LiveCaptureResult
  succeed live_run = do
    finish succeeded
    ids ← on_db (identifiers live_run.group_id)
    pure (record { job_id = job_id; identifiers = ids; state = succeeded })

  -- The `except UnsupportedLayoutError` block
  abbrev pub parser_drift : Text → Option Text → Exec (World B) (Unit {0})
  parser_drift capture_id none = pure tt
  parser_drift capture_id (some message) = fail capture_id (text "parser_drift") message

  -- From the page to its raw file, its metadata row and its records, which are stored
  unfoldable pub store_page :
      LiveRunRow → Text → Option Text → ℕ → RenderedPage → Exec (World B) Text
  store_page live_run session_class cursor page_number page = do
    let capture_id = platform.sha256 (
        platform.encode
          (capture_key platform job_id page_number cursor (platform.sha256 page.raw_html)))
    existing ← on_db (gets (λ db. lookup capture_id db.raw_captures))
    now ← clock
    let observed_at = observed_time now existing
    stored ← on_files (write platform capture_id page.raw_html (text ".html"))
    on_db (
        add capture_id stored.sha256 live_run.canonical_url (aware observed_at) (some stored.path)
          (some (pos stored.byte_count)))
    parsed ←
        on_error
          (λ w. (
            env.parse (record {
              adapter_version = live_run.adapter_version;
              raw_html = page.raw_html;
              source_url = live_run.canonical_url;
              capture_id = capture_id;
              raw_sha256 = stored.sha256;
              session_class = session_class;
              observed_at = observed_at;
              lower_bound = live_run.lower_bound;
            }),
            w,
          ))
          (λ e. parser_drift capture_id (layout_message e))
    stop (not (parsed.group.group_id == live_run.group_id)) capture_id (text "parser_drift")
        (text "captured Group does not match selected target")
        (unsupported_layout_error (text "captured Group does not match selected target"))
    stop (not (same_canonical_url platform parsed.group.canonical_url live_run.canonical_url))
        capture_id (text "parser_drift") (text "captured Group URL does not match selected target")
        (unsupported_layout_error (text "captured Group URL does not match selected target"))
    on_db (
        persist_page json live_run.canonical_url live_run.lower_bound stored.path stored.byte_count
          parsed.group parsed.posts parsed.comments)
    pure capture_id

  -- From `next_cursor = page.next_cursor` to the end of the loop's body; `again` is the next round
  unfoldable pub after_page :
      LiveRunRow
      → (Position → Exec (World B) LiveCaptureResult)
      → Position
      → ℕ
      → Text
      → Option Text
      → Exec (World B) LiveCaptureResult
  after_page live_run again position pages_this_attempt capture_id none = do
    on_db (checkpoint platform job_id capture_id none (position.pages_completed + 1))
    interrupt pages_this_attempt
    succeed live_run
  after_page live_run again position pages_this_attempt capture_id (some next) = do
    stop (leb max_pages (position.pages_completed + 1)) capture_id (text "page_limit")
        (text "pagination exceeded max_pages=" ++ platform.str max_pages) page_limit_exceeded
    stop (contains position.seen_cursors next) capture_id (text "pagination_loop")
        (text "repeated pagination cursor: " ++ platform.repr next) pagination_loop_error
    on_db (checkpoint platform job_id capture_id (some next) (position.pages_completed + 1))
    interrupt pages_this_attempt
    again (record {
      cursor = some next;
      pages_completed = position.pages_completed + 1;
      seen_cursors = position.seen_cursors ++ (next ∷ []);
    })

  -- `while True`
  unfoldable pub capture_loop :
      LiveRunRow → Text → ℕ → ℕ → Position → Exec (World B) LiveCaptureResult
  unfolding store_page after_page
  capture_loop live_run session_class zero pages_this_attempt position = raise out_of_fuel
  capture_loop live_run session_class (suc fuel) pages_this_attempt position = do
    page ← on_browser (env.capture_page position.cursor)
    capture_id ←
        store_page live_run session_class position.cursor (position.pages_completed + 1) page
    after_page live_run (capture_loop live_run session_class fuel (pages_this_attempt + 1)) position
        (pages_this_attempt + 1) capture_id page.next_cursor

  -- `if cursor is None and pages_completed > 0`: the run was complete, else the loop
  unfoldable pub resume : LiveRunRow → Position → Exec (World B) LiveCaptureResult
  unfolding capture_loop
  resume live_run position =
      if is_none position.cursor && not (position.pages_completed == 0)
      then succeed live_run
      else (do
        profile ← on_db (gets (λ db. lookup live_run.profile_id db.profiles))
        row ← or_raise profile value_error
        capture_loop live_run row.session_class (suc (max_pages - position.pages_completed)) 0
            position)

  abbrev pub start : JobState → Exec (World B) (Unit {0})
  start state =
      if contains (planned ∷ interrupted ∷ partial ∷ []) state
      then (do now ← clock; on_db (transition job_id running now))
      else pure tt

  -- `_capture_pages`, from the store that `database.migrate()` has left: its first call is not part
  -- of this definition
  unfoldable pub capture_run : Exec (World B) LiveCaptureResult
  unfolding resume
  capture_run = do
    raise_if (max_pages == 0) value_error
    raise_if (elim interrupt_after_pages [ none ↦ false | some n ↦ n == 0 ]) value_error
    live_run ← on_db (get_run job_id)
    state ← on_db (get_state job_id)
    start state
    started ← on_db (get_state job_id)
    raise_if (not (started == running)) value_error
    now ← clock
    on_db (ensure_task job_id now)
    position ← on_db (gets (λ db. resume_position job_id db))
    resume live_run position

  -- `_record_browser_failure`
  abbrev pub record_browser_failure : Option (Text × Text) → Exec (World B) (Unit {0})
  record_browser_failure none = pure tt
  record_browser_failure (some (failure_class, message)) =
      fail (text "browser-stop") failure_class (failure_class ++ (text ": " ++ message))

  -- `capture_pages`, without the measurements
  unfoldable pub capture_pages : Exec (World B) LiveCaptureResult
  unfolding capture_run
  capture_pages = do
    on_db (get_state job_id)
    on_error capture_run (λ e. record_browser_failure (browser_stop e))
