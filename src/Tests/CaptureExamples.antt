-- ===== src/Tests/CaptureExamples.antt =====
-- The theorems on capture/pagination.py, capture/raw_store.py and capture/playwright_adapter.py at concrete inputs.
use fb_scraper.Prelude.{
  ℕ, suc, ◌+◌, ◌==◌, ◌++◌, if◌then◌else◌, ◌≡◌, ◌≢◌, ◌↔◌, arith, refl, Option, none, some, List, [],
  ◌∷◌, Text, text, text_eq, nat_eq,
}
use native.Mathlib.Decide.{ℕ_discrete}
use fb_scraper.Prelude.Dict.{lookup}
use fb_scraper.Errors.{ok, err, out_of_fuel, playwright_error, browser_state_error}
use fb_scraper.Exec.{Exec, pure, raise}
use fb_scraper.Exec.Steps.{Steps-raise}
use fb_scraper.Exec.Fixed.{Fixes-preorder}
use fb_scraper.Capture.Browser.{Limits, Browser, Page, Failure, on_response, retry}
use fb_scraper.Capture.Browser.Retries.{count, IsLimited, retry-IsLimited}
use fb_scraper.Capture.Pagination.{CursorPage, paginate_pages}
use fb_scraper.Capture.Pagination.Bounds.{paginate_pages_fuel}
use fb_scraper.Capture.Pagination.Trace.{fetch_recorded, save_recorded}
use fb_scraper.Capture.Pagination.Exact.{IsRun, paginate_pages_exact}
use fb_scraper.Capture.RawStore.{Files, StoredRawCapture, file_name, read, write}
use fb_scraper.Capture.RawStore.Files.{read-write}
use fb_scraper.Tests.Instances.{plain_platform}

abbrev page : Option ℕ → CursorPage ℕ ℕ
page none = record { items = 10 ∷ []; next_cursor = some 7 }
page (some c) = record { items = 20 ∷ c ∷ []; next_cursor = none }

abbrev two_pages : List (CursorPage ℕ ℕ)
two_pages = page none ∷ page (some 7) ∷ []

paginate_pages_exact_example :
    ((paginate_pages (fetch_recorded page) (save_recorded page) 5 none []).0 ≡ ok two_pages)
    ↔ IsRun page 5 none two_pages
paginate_pages_exact_example = paginate_pages_exact page 5 none two_pages

paginate_pages_fuel_example :
    (paginate_pages (fetch_recorded page) (save_recorded page) 5 none []).0 ≢ err out_of_fuel
paginate_pages_fuel_example =
    paginate_pages_fuel (fetch_recorded page) (save_recorded page) 5 none [] (λ c w. ground arith)
      (λ c n w. ground arith)

abbrev html : Text
html = text ".html"

abbrev stored : StoredRawCapture
stored = record {
  capture_id = text "c";
  sha256 = plain_platform.sha256 (text "<html>");
  path = file_name (text "c") html;
  byte_count = 6;
}

abbrev written : Files
written = (write plain_platform (text "c") (text "<html>") html []).1

read-write_example :
    read plain_platform (text "c") stored.sha256 html written ≡ (ok (text "<html>"), written)
unfolding write text_eq lookup
read-write_example = read-write plain_platform (text "c") (text "<html>") html [] stored refl

abbrev two_retries : Limits
two_retries = record {
  max_pages = 100;
  max_interactions = 99;
  max_retries = 2;
  max_seconds = 300;
  max_storage_bytes = 100;
  navigation_timeout_ms = 30000;
  ready_timeout_ms = 3000;
  navigation_delay_seconds = 0;
  scroll_delay_seconds = 0;
  expansion_delay_seconds = 0;
  retry_delays_seconds = 30 ∷ 120 ∷ [];
  max_recent_posts = 30;
  max_empty_group_shell_pages = 3;
}

abbrev a_failure : Failure
a_failure = record { failure_class = text "time_limit"; message = [] }

-- A page whose clock is its state
abbrev clock_page : Page ℕ
clock_page = record {
  elapsed = λ w. w;
  classify = pure none;
  wait = λ n w. (ok tt, n + w);
  received = λ w. [];
  status_text = λ n. n ∷ [];
  time_limit = a_failure;
  attempts_failed = λ t. record { failure_class = t; message = [] };
}

failing : Exec (Browser ℕ) ℕ
failing = raise playwright_error

retry-IsLimited_example : IsLimited 2 (retry two_retries clock_page failing (text "navigation"))
unfolding failing
retry-IsLimited_example =
    retry-IsLimited two_retries clock_page failing (text "navigation")
      (Steps-raise (Fixes-preorder count) playwright_error)

abbrev fresh_browser : Browser ℕ
fresh_browser = record {
  stop_failure = none;
  stop_reason = none;
  retry_count = 0;
  retry_waits = [];
  world = 0;
}

-- The operation is tried three times, and the third failure is the last.
three_attempts :
    (retry two_retries clock_page failing (text "navigation") fresh_browser).1.retry_waits
    ≡ 30 ∷ 120 ∷ []
unfolding failing retry nat_eq ℕ_discrete
three_attempts = refl

-- A page that cannot be read in the first second
abbrev broken_page : Page ℕ
broken_page = record clock_page {
  classify = λ w. (if w == 1 then err playwright_error else ok none, suc w);
}

-- The operation returns, and the test behind it fails once: it is tried again after 30 seconds.
test_tried_again :
    (retry two_retries broken_page (pure {A = ℕ} 7) (text "navigation") fresh_browser)
    ≡ (ok 7, record fresh_browser { retry_count = 1; retry_waits = 30 ∷ []; world = 37 })
unfolding retry nat_eq ℕ_discrete
test_tried_again = refl

-- A page whose first wait ends with a response of status 429
abbrev limited_page : Page ℕ
limited_page = record clock_page { received = λ w. if w == 30 then 429 ∷ [] else [] }

-- The wait for the second attempt reports the response, and the run stops.
stopped_by_response :
    (retry two_retries limited_page failing (text "navigation") fresh_browser).0
    ≡ err (
        browser_state_error
          (text "http_" ++ (429 ∷ []))
          (text "browser response returned HTTP " ++ (429 ∷ [])))
unfolding failing retry on_response nat_eq ℕ_discrete
stopped_by_response = refl
