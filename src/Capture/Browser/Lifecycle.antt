-- ===== src/Capture/Browser/Lifecycle.antt =====
-- `PlaywrightGroupCaptureAdapter.capture_pages` of capture/playwright_adapter.py: what it opens and
-- closes around a capture, and how a page is told to be no success. Playwright is an argument, and
-- each of its calls may raise; `W` is what they act on.
use fb_scraper.Prelude.{
  ℕ, ◌≡◌, refl, Bool, true, false, not, ◌||◌, Option, none, some, List, [], ◌∷◌, Text, text,
  text_eq, nat_eq, ◌==◌, any, has_part, lower, ltb, if◌then◌else◌, Bool-cases, inl, inr,
}
use fb_scraper.Errors.{Result, ok, err, value_error, runtime_error}
use fb_scraper.Exec.{Exec, pure, gets, modify, raise_if, ◌>>=◌, ◌>>◌}
use fb_scraper.Capture.Browser.{Failure}

-- One of the `conditions` of `_classify_failure`
pub record Condition : Type 0 where
  pub failure_class : Text
  pub selector : Text
  pub url_parts : List Text
  pub text_parts : List Text

abbrev pub conditions : List Condition
conditions =
    record {
      failure_class = text "login_required";
      selector = text "[data-pgscan-login-required], form input[type='password']";
      url_parts = text "/login" ∷ [];
      text_parts = text "log in" ∷ text "login" ∷ [];
    }
    ∷ record {
      failure_class = text "challenge";
      selector = text "[data-pgscan-challenge]";
      url_parts = text "/challenge" ∷ text "/checkpoint" ∷ text "/captcha" ∷ [];
      text_parts =
          text "security check"
          ∷ text "confirm your identity"
          ∷ text "captcha"
          ∷ text "checkpoint"
          ∷ [];
    }
    ∷ record {
      failure_class = text "restricted";
      selector = text "[data-pgscan-restricted]";
      url_parts = text "/restricted" ∷ text "/locked" ∷ [];
      text_parts =
          text "account temporarily restricted"
          ∷ text "account restricted"
          ∷ text "account locked"
          ∷ text "temporarily blocked"
          ∷ [];
    }
    ∷ record {
      failure_class = text "group_unavailable";
      selector = text "[data-pgscan-group-unavailable]";
      url_parts = text "/unavailable" ∷ [];
      text_parts = text "this content is not available" ∷ text "group is unavailable" ∷ [];
    }
    ∷ []

-- What a page shows: its URL, the text of its body, and how many elements a selector finds
pub record View : Type 0 where
  pub url : Text
  pub body : Text
  pub count : Text → ℕ

unfoldable pub matches : View → Condition → Bool
matches view c =
    ltb 0 (view.count c.selector)
    || any (λ part. has_part part (lower view.url)) c.url_parts
    || any (λ part. has_part part (lower view.body)) c.text_parts

unfoldable pub first_failure : View → List Condition → Option Failure
unfolding matches
first_failure view [] = none
first_failure view (c ∷ cs) =
    let rest = first_failure view cs in
    if matches view c
    then some (record {
      failure_class = c.failure_class;
      message = text "browser reported a non-success state";
    })
    else rest

-- `_classify_failure`
unfoldable pub classify_failure : View → Option Failure
unfolding first_failure
classify_failure view = first_failure view conditions

-- What the adapter holds, each open or None, and its flag
pub record Adapter (W : Type 0) : Type 0 where
  pub closed : Bool
  pub playwright : Bool
  pub browser : Bool
  pub context : Bool
  pub world : W

-- The calls of Playwright
pub record Driver (W : Type 0) : Type 0 where
  pub start : Exec W (Unit {0})
  pub launch_persistent_context : Exec W (Unit {0})
  pub launch : Exec W (Unit {0})
  pub new_context : Exec W (Unit {0})
  pub close_context : Exec W (Unit {0})
  pub close_browser : Exec W (Unit {0})
  pub stop : Exec W (Unit {0})

-- The result of `try: ... finally: ...`: what the second part raises, or else what the first did
abbrev pub after_finally : {A : Type 0} → Result A → Result (Unit {0}) → Result A
after_finally r (ok u) = r
after_finally r (err e) = err e

abbrev pub try_finally : {S A : Type 0} → Exec S A → Exec S (Unit {0}) → Exec S A
try_finally m c s = (after_finally (m s).0 (c (m s).1).0, (c (m s).1).1)

module _ {W A : Type 0} where
  -- A call on what Playwright acts on
  abbrev pub acts : Exec W A → Exec (Adapter W) A
  acts m a = ((m a.world).0, record a { world = (m a.world).1 })

module _ {W : Type 0} (driver : Driver W) where
  abbrev pub acts_if : Bool → Exec W (Unit {0}) → Exec (Adapter W) (Unit {0})
  acts_if b m = if b then acts m else pure tt

  -- The last part of `_close`
  unfoldable pub close_playwright : Exec (Adapter W) (Unit {0})
  close_playwright = do
    modify (λ a. record a { browser = false })
    is_open ← gets (λ a. a.playwright)
    acts_if is_open driver.stop
    modify (λ a. record a { playwright = false; closed = true })

  unfoldable pub close_browser : Exec (Adapter W) (Unit {0})
  unfolding close_playwright
  close_browser =
      modify (λ a. record a { context = false })
      >> try_finally (gets (λ a. a.browser) >>= λ is_open. acts_if is_open driver.close_browser)
          close_playwright

  -- `_close`
  unfoldable pub close : Exec (Adapter W) (Unit {0})
  unfolding close_browser
  close =
      try_finally (gets (λ a. a.context) >>= λ is_open. acts_if is_open driver.close_context)
        close_browser

  -- A profile's directory, or a browser with a context of its own
  abbrev pub open_directory : Exec (Adapter W) (Unit {0})
  open_directory =
      acts driver.launch_persistent_context >> modify (λ a. record a { context = true })

  abbrev pub open_context : Exec (Adapter W) (Unit {0})
  open_context = do
    acts driver.launch
    modify (λ a. record a { browser = true })
    acts driver.new_context
    modify (λ a. record a { context = true })

  unfoldable pub open_browser : Bool → Exec (Adapter W) (Unit {0})
  open_browser in_directory = do
    acts driver.start
    modify (λ a. record a { playwright = true })
    if in_directory then open_directory else open_context

  -- `with adapter.capture_pages(...)`, around its body
  unfoldable pub capture_pages : {A : Type 0} → Text → Bool → Exec W A → Exec (Adapter W) A
  unfolding open_browser close
  capture_pages target_url in_directory body = do
    raise_if (target_url == []) value_error
    is_closed ← gets (λ a. a.closed)
    raise_if (not is_closed) runtime_error
    modify (λ a. record a { closed = false })
    try_finally (open_browser in_directory >> acts body) close

  -- Nothing is open.
  pub record IsClosed (a : Adapter W) : Type 0 where
    pub closed : a.closed ≡ true
    pub playwright : a.playwright ≡ false
    pub browser : a.browser ≡ false
    pub context : a.context ≡ false

  acts_if-context :
      (b : Bool) (m : Exec W (Unit {0})) (a : Adapter W) → (acts_if b m a).1.context ≡ a.context
  acts_if-context true m a = refl
  acts_if-context false m a = refl

  module _ (stops : (w : W) → (driver.stop w).0 ≡ ok tt) where
    close_playwright-IsClosed :
        (a : Adapter W) → a.context ≡ false → IsClosed (close_playwright a).1
    unfolding close_playwright
    close_playwright-IsClosed a h = elim (Bool-cases a.playwright) [
      | inl p ↦
          rw (p, stops a.world)
            (record { closed = refl; playwright = refl; browser = refl; context = h })
      | inr p ↦ rw p (record { closed = refl; playwright = refl; browser = refl; context = h })
    ]

    close-IsClosed : (a : Adapter W) → IsClosed (close a).1
    unfolding close close_browser
    close-IsClosed a =
        let b = record (acts_if a.context driver.close_context a).1 { context = false } in
        let after = (acts_if b.browser driver.close_browser b).1 in
        close_playwright-IsClosed after (acts_if-context b.browser driver.close_browser b)

    -- When the stop of Playwright does not raise, a capture of a target that is not empty, on an
    -- adapter that is closed, leaves the adapter closed with no Playwright, browser or context,
    -- however the opening, the body and the closing of the browser and of the context end.
    pub capture_pages-IsClosed :
        {A : Type 0} (target_url : Text) (in_directory : Bool) (body : Exec W A) (a : Adapter W)
        → (target_url == []) ≡ false
        → a.closed ≡ true
        → IsClosed (capture_pages target_url in_directory body a).1
    unfolding capture_pages
    capture_pages-IsClosed target_url in_directory body a h k =
        let entered = record a { closed = false } in
        rw (h, k) (close-IsClosed ((open_browser in_directory >> acts body) entered).1)
