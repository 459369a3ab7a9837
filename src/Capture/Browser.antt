-- ===== src/Capture/Browser.antt =====
-- The bounds, the stops and the retries of capture/playwright_adapter.py:
-- `_BrowserRenderedPageCapture` with what its adapter records. Playwright's page and the clock are
-- arguments; `W` is what they act on. Seconds are ticks of the clock.
pub mod Retries
pub mod Checkpoint
pub mod Posts
pub mod Lifecycle
use fb_scraper.Prelude.{
  ℕ, zero, suc, ◌+◌, ◌-◌, Bool, true, false, not, ◌&&◌, ◌||◌, Option, none, some, List, [], ◌∷◌,
  ◌++◌, Text, text, nat_eq, ◌==◌, contains, all, ltb, leb, is_none, if◌then◌else◌,
}
use fb_scraper.Errors.{Error, Result, ok, err, value_error, browser_state_error, playwright_error}
use fb_scraper.Exec.{Exec, pure, raise, gets, modify, raise_if, continue, ◌>>=◌, ◌>>◌}

-- `BrowserCaptureLimits`; its numbers are not negative
pub record Limits : Type 0 where
  pub max_pages : ℕ
  pub max_interactions : ℕ
  pub max_retries : ℕ
  pub max_seconds : ℕ
  pub max_storage_bytes : ℕ
  pub navigation_timeout_ms : ℕ
  pub ready_timeout_ms : ℕ
  pub navigation_delay_seconds : ℕ
  pub scroll_delay_seconds : ℕ
  pub expansion_delay_seconds : ℕ
  pub retry_delays_seconds : List ℕ
  pub max_recent_posts : ℕ
  pub max_empty_group_shell_pages : ℕ

-- `__post_init__`, the guards on numbers that must be positive
unfoldable pub check_limits : Limits → Result (Unit {0})
check_limits l =
    if all (ltb 0) (
      l.max_pages ∷ l.max_interactions ∷ l.max_seconds ∷ l.max_storage_bytes
      ∷ l.navigation_timeout_ms ∷ l.ready_timeout_ms ∷ l.max_recent_posts
      ∷ l.max_empty_group_shell_pages ∷ [])
    then ok tt
    else err value_error

-- `BrowserStateError`, by its failure class and its message
pub record Failure : Type 0 where
  pub failure_class : Text
  pub message : Text

abbrev pub raised : Failure → Error
raised f = browser_state_error f.failure_class f.message

-- The capture and its adapter
pub record Browser (W : Type 0) : Type 0 where
  pub stop_failure : Option Failure
  pub stop_reason : Option Text
  pub retry_count : ℕ
  pub retry_waits : List ℕ
  pub world : W

-- Playwright's page and the clock: the seconds since the start, what `_classify_failure` makes of
-- the page, `wait_for_timeout`, which may both raise, the status of each response that Playwright
-- has reported during such a call, and the texts of the messages
pub record Page (W : Type 0) : Type 0 where
  pub elapsed : W → ℕ
  pub classify : Exec W (Option Failure)
  pub wait : ℕ → Exec W (Unit {0})
  pub received : W → List ℕ
  pub status_text : ℕ → Text
  pub time_limit : Failure
  pub attempts_failed : Text → Failure

-- `CaptureBoundExceeded("time_limit", ...)` and the other messages are those of the page
abbrev pub first_reason : Option Text → Text → Option Text
first_reason none reason = some reason
first_reason (some r) reason = some r

-- `except (PlaywrightTimeoutError, PlaywrightError)`
abbrev pub is_playwright : Error → Bool
is_playwright playwright_error = true
is_playwright _ = false

-- `_retry_delay`: the last delay goes on
unfoldable pub retry_delay : List ℕ → ℕ → ℕ
retry_delay [] attempt = 0
retry_delay (d ∷ []) attempt = d
retry_delay (d ∷ e ∷ ds) zero = d
retry_delay (d ∷ e ∷ ds) (suc attempt) = retry_delay (e ∷ ds) attempt

module _ {W : Type 0} where
  -- `_record_stop`
  abbrev pub record_stop : Text → Browser W → Browser W
  record_stop reason b = record b { stop_reason = first_reason b.stop_reason reason }

  -- `_record_retry`
  abbrev pub record_retry : ℕ → Browser W → Browser W
  record_retry delay b = record b {
    retry_count = suc b.retry_count;
    retry_waits = b.retry_waits ++ (delay ∷ []);
  }

  -- The branches of `_raise_if_stop_requested`
  abbrev pub raise_failure : Option Failure → Exec (Browser W) (Unit {0})
  raise_failure none = pure tt
  raise_failure (some f) = modify (record_stop f.failure_class) >> raise (raised f)

  module _ (limits : Limits) (page : Page W) where
    -- `_on_response`, on the status of a response
    abbrev pub http_failure : ℕ → Failure
    http_failure status = record {
      failure_class = text "http_" ++ page.status_text status;
      message = text "browser response returned HTTP " ++ page.status_text status;
    }

    unfoldable pub on_response : ℕ → Browser W → Browser W
    on_response status b =
        if contains (401 ∷ 403 ∷ 429 ∷ []) status && is_none b.stop_failure
        then record_stop (text "http_" ++ page.status_text status)
            (record b { stop_failure = some (http_failure status) })
        else b

    abbrev pub on_responses : List ℕ → Browser W → Browser W
    on_responses [] b = b
    on_responses (status ∷ later) b = on_responses later (on_response status b)

    -- A call of the page, with the responses that come in during it
    abbrev pub on_page : {A : Type 0} → Exec W A → Exec (Browser W) A
    on_page call b = (
      (call b.world).0,
      on_responses (page.received (call b.world).1) (record b { world = (call b.world).1 }),
    )

    -- The page is not asked when a stop is pending
    abbrev pub raise_stop : Option Failure → Exec (Browser W) (Unit {0})
    raise_stop (some f) = raise (raised f)
    raise_stop none = on_page page.classify >>= raise_failure

    -- `_ensure_time`
    unfoldable pub ensure_time : Exec (Browser W) (Unit {0})
    ensure_time = gets (λ b. ltb limits.max_seconds (page.elapsed b.world)) >>= λ late.
        raise_if late (raised page.time_limit)

    -- `_raise_if_stop_requested`
    unfoldable pub raise_if_stop_requested : Exec (Browser W) (Unit {0})
    raise_if_stop_requested = gets (λ b. b.stop_failure) >>= raise_stop

    -- `_wait_for_pacing`
    unfoldable pub wait_for_pacing : ℕ → Exec (Browser W) (Unit {0})
    unfolding ensure_time raise_if_stop_requested
    wait_for_pacing seconds = do
      ensure_time
      raise_if_stop_requested
      if seconds == 0 then pure tt else (do
        left ← gets (λ b. limits.max_seconds - page.elapsed b.world)
        raise_if (leb left 0 || ltb left seconds) (raised page.time_limit)
        on_page (page.wait seconds)
        ensure_time
        raise_if_stop_requested)

    module _ {A : Type 0} (operation : Exec (Browser W) A) (failure_class : Text) where
      abbrev pub retried : ℕ → Bool → Exec (Browser W) A → Exec (Browser W) A
      retried attempt is_last again =
          if is_last
          then raise (raised (page.attempts_failed failure_class))
          else wait_for_pacing (retry_delay limits.retry_delays_seconds attempt)
            >> (modify (record_retry (retry_delay limits.retry_delays_seconds attempt)) >> again)

      -- What follows the body: a Playwright error, of the operation or of the test, is tried again
      -- after a delay
      abbrev pub after_attempt : ℕ → Bool → Exec (Browser W) A → Result A → Exec (Browser W) A
      after_attempt attempt is_last again (ok a) = pure a
      after_attempt attempt is_last again (err e) =
          if is_playwright e
          then raise_if_stop_requested >> retried attempt is_last again
          else raise e

      -- The body of the `try`: the operation, and the test for a stop behind it
      abbrev pub checked_operation : Exec (Browser W) A
      checked_operation = operation >>= λ a. raise_if_stop_requested >> pure a

      -- How the body of the `try` ends, as a value
      abbrev pub try_operation : Exec (Browser W) (Result A)
      try_operation b = (ok (checked_operation b).0, (checked_operation b).1)

      -- The attempts that are left after this one
      unfoldable pub attempts : ℕ → ℕ → Exec (Browser W) A
      unfolding ensure_time raise_if_stop_requested wait_for_pacing retry_delay
      attempts attempt zero = do
        ensure_time
        raise_if_stop_requested
        try_operation
            >>= after_attempt attempt true (raise (raised (page.attempts_failed failure_class)))
      attempts attempt (suc n) = do
        ensure_time
        raise_if_stop_requested
        try_operation >>= after_attempt attempt false (attempts (suc attempt) n)

      -- `_retry`
      unfoldable pub retry : Exec (Browser W) A
      unfolding attempts
      retry = attempts 0 limits.max_retries
