-- ===== src/Capture/Browser/Retries.antt =====
-- How often `_retry` of capture/playwright_adapter.py tries again, and the reason of a stop.
use fb_scraper.Prelude.{
  ℕ, zero, suc, ◌+◌, ◌≡◌, ◌≤◌, refl, arith, Bool, true, false, Option, none, some, Text,
  if◌then◌else◌, List, [], ◌∷◌, contains, ◌&&◌, is_none, nat_eq, Bool-cases, inl, inr, ◌∙◌,
}
use fb_scraper.Errors.{Result, ok, err}
use fb_scraper.Exec.{Exec, pure, raise, modify, continue, ◌>>=◌, ◌>>◌}
use fb_scraper.Exec.Steps.{Steps, Steps-bind, Steps-pure, Steps-raise, steps_rules}
use fb_scraper.Exec.Fixed.{Fixes, Fixes-preorder, modify-Fixes}
use fb_scraper.Capture.Browser.{
  Limits, Browser, Page, Failure, record_stop, record_retry, raise_failure, raise_stop, ensure_time,
  raise_if_stop_requested, wait_for_pacing, retry_delay, is_playwright, raised, retried,
  after_attempt, on_response, on_responses, on_page, checked_operation, try_operation, attempts,
  retry,
}

abbrev pub count : {W : Type 0} → Browser W → ℕ
count b = b.retry_count

-- An action records at most `n` further retries.
pub record IsLimited {W A : Type 0} (n : ℕ) (m : Exec (Browser W) A) : Type 0 where
  pub at : (b : Browser W) → (m b).1.retry_count ≤ b.retry_count + n

module _ {W A : Type 0} (n : ℕ) where
  IsLimited-fixed : (m : Exec (Browser W) A) → Steps (Fixes count) m → IsLimited n m
  IsLimited-fixed m h = record { at = λ b. omega (arith, (h.at b).same) }

  IsLimited-choose :
      (c : Bool) (m k : Exec (Browser W) A)
      → IsLimited n m
      → IsLimited n k
      → IsLimited n (if c then m else k)
  IsLimited-choose true m k hm hk = hm
  IsLimited-choose false m k hm hk = hk

module _ {W A B : Type 0} (n : ℕ) where
  continue_limited :
      (f : A → Exec (Browser W) B) (r : Result A) (s t : Browser W)
      → t.retry_count ≡ s.retry_count
      → ((a : A) → IsLimited n (f a))
      → (continue f r t).1.retry_count ≤ s.retry_count + n
  continue_limited f (ok a) s t p h = omega (arith, p, (h a).at t)
  continue_limited f (err e) s t p h = omega (arith, p)

  IsLimited-bind :
      (m : Exec (Browser W) A) (f : A → Exec (Browser W) B)
      → Steps (Fixes count) m
      → ((a : A) → IsLimited n (f a))
      → IsLimited n (m >>= f)
  IsLimited-bind m f hm hf = record {
    at = λ b. continue_limited f (m b).0 b (m b).1 (hm.at b).same hf;
  }

module _ {W A : Type 0} (n delay : ℕ) (again : Exec (Browser W) A) where
  IsLimited-retry : IsLimited n again → IsLimited (suc n) (modify (record_retry delay) >> again)
  IsLimited-retry h = record { at = λ b. omega (arith, h.at (record_retry delay b)) }

module _ {W : Type 0} (limits : Limits) (page : Page W) where
  stop-Fixes : (reason : Text) → Steps (Fixes count) (modify {S = Browser W} (record_stop reason))
  stop-Fixes reason = modify-Fixes count (record_stop reason) (λ b. refl)

  on_responses-count :
      (statuses : List ℕ) (b : Browser W) → count (on_responses limits page statuses b) ≡ count b
  unfolding on_response
  on_responses-count [] b = refl
  on_responses-count (status ∷ later) b =
      on_responses-count later (on_response limits page status b)
      ∙ elim (Bool-cases (contains (401 ∷ 403 ∷ 429 ∷ []) status && is_none b.stop_failure)) [
        | inl t ↦ rw t refl
        | inr f ↦ rw f refl
      ]

  page-Fixes : {A : Type 0} (call : Exec W A) → Steps (Fixes count) (on_page limits page call)
  page-Fixes call = record {
    at = λ b. record { same = on_responses-count (page.received (call b.world).1) _ };
  }

  failure-Fixes : (found : Option Failure) → Steps (Fixes count) (raise_failure {W = W} found)
  failure-Fixes none = search (steps_rules, Fixes-preorder (count {W = W}))
  failure-Fixes (some f) = search (steps_rules, Fixes-preorder (count {W = W}), stop-Fixes) depth 8

  raise_stop-Fixes : (stop : Option Failure) → Steps (Fixes count) (raise_stop limits page stop)
  raise_stop-Fixes none =
      search (steps_rules, Fixes-preorder (count {W = W}), page-Fixes, failure-Fixes) depth 8
  raise_stop-Fixes (some f) = search (steps_rules, Fixes-preorder (count {W = W}))

  requested-Fixes : Steps (Fixes count) (raise_if_stop_requested limits page)
  unfolding raise_if_stop_requested
  requested-Fixes = search (steps_rules, Fixes-preorder (count {W = W}), raise_stop-Fixes) depth 10

  time-Fixes : Steps (Fixes count) (ensure_time limits page)
  unfolding ensure_time
  time-Fixes = search (steps_rules, Fixes-preorder (count {W = W})) depth 10

  pacing-Fixes : (seconds : ℕ) → Steps (Fixes count) (wait_for_pacing limits page seconds)
  unfolding wait_for_pacing
  pacing-Fixes seconds =
      search (steps_rules, Fixes-preorder (count {W = W}), time-Fixes, requested-Fixes, page-Fixes)
        depth 16

  module _ {A : Type 0} (operation : Exec (Browser W) A) (failure_class : Text)
      (o : Steps (Fixes count) operation) where
    retried-IsLimited :
        (n attempt : ℕ) (again : Exec (Browser W) A)
        → IsLimited n again
        → IsLimited (suc n) (retried limits page operation failure_class attempt false again)
    retried-IsLimited n attempt again h =
        IsLimited-bind (suc n)
          (wait_for_pacing limits page (retry_delay limits.retry_delays_seconds attempt)) _
          (pacing-Fixes (retry_delay limits.retry_delays_seconds attempt))
          (λ u. IsLimited-retry n (retry_delay limits.retry_delays_seconds attempt) again h)

    after-IsLimited :
        (n attempt : ℕ) (is_last : Bool) (again : Exec (Browser W) A)
        → IsLimited n (retried limits page operation failure_class attempt is_last again)
        → (r : Result A)
        → IsLimited n (after_attempt limits page operation failure_class attempt is_last again r)
    after-IsLimited n attempt is_last again h (ok a) =
        IsLimited-fixed n (pure a) (Steps-pure (Fixes-preorder count) a)
    after-IsLimited n attempt is_last again h (err e) =
        IsLimited-choose n (is_playwright e) _ (raise e)
          (IsLimited-bind n (raise_if_stop_requested limits page) _ requested-Fixes (λ u. h))
          (IsLimited-fixed n (raise e) (Steps-raise (Fixes-preorder count) e))

    checked-Fixes : Steps (Fixes count) (checked_operation limits page operation failure_class)
    checked-Fixes =
        Steps-bind (Fixes-preorder count) operation _ o
          (λ a. search (steps_rules, Fixes-preorder (count {W = W}), requested-Fixes) depth 8)

    try-Fixes : Steps (Fixes count) (try_operation limits page operation failure_class)
    try-Fixes = record { at = λ b. checked-Fixes.at b }

    started :
        (n attempt : ℕ) (is_last : Bool) (again : Exec (Browser W) A)
        → IsLimited n (retried limits page operation failure_class attempt is_last again)
        → IsLimited n (
            ensure_time limits page
            >> (raise_if_stop_requested limits page
                >> (try_operation limits page operation failure_class
                    >>= after_attempt limits page operation failure_class attempt is_last again)))
    started n attempt is_last again h =
        IsLimited-bind n (ensure_time limits page) _ time-Fixes (λ u.
          IsLimited-bind n (raise_if_stop_requested limits page) _ requested-Fixes (λ v.
            IsLimited-bind n (try_operation limits page operation failure_class) _ try-Fixes
              (after-IsLimited n attempt is_last again h)))

    attempts-IsLimited :
        (n attempt : ℕ) → IsLimited n (attempts limits page operation failure_class attempt n)
    unfolding attempts
    attempts-IsLimited zero attempt =
        started zero attempt true (raise (raised (page.attempts_failed failure_class)))
          (IsLimited-fixed zero _ (Steps-raise (Fixes-preorder count) _))
    attempts-IsLimited (suc n) attempt =
        started (suc n) attempt false (attempts limits page operation failure_class (suc attempt) n)
          (retried-IsLimited n attempt
            (attempts limits page operation failure_class (suc attempt) n)
            (attempts-IsLimited n (suc attempt)))

  -- Let an operation record no retry itself. However it fails, whether `_retry` returns or raises, it
  -- has recorded at most `max_retries` further retries.
  pub retry-IsLimited :
      {A : Type 0} (operation : Exec (Browser W) A) (failure_class : Text)
      → Steps (Fixes count) operation
      → IsLimited limits.max_retries (retry limits page operation failure_class)
  unfolding retry
  retry-IsLimited operation failure_class o =
      attempts-IsLimited operation failure_class o limits.max_retries 0
