-- ===== src/Session/Health.antt =====
-- `classify_observation` of session/health.py.
pub mod Ready
use fb_scraper.Prelude.{
  ℕ, ◌≡◌, ◌≤◌, ◌<◌, Bool, true, false, ◌&&◌, ◌||◌, Option, none, some, List, [], ◌∷◌, Text, text,
  has_part, any, leb, ltb, nat_eq, ◌==◌, arith, if◌then◌else◌,
}
use fb_scraper.Platform.{Platform}

-- `SessionHealth`
pub data SessionHealth : Type 0 where
  ready expired challenged restricted invalid : SessionHealth

-- `ProbeObservation`
pub record ProbeObservation : Type 0 where
  pub status_code : Option ℕ
  pub route : Text
  pub page_text : Text
  pub navigation_error : Bool

-- `SessionHealthResult`
pub record SessionHealthResult : Type 0 where
  pub health : SessionHealth
  pub evidence : List Text

abbrev pub result : SessionHealth → Text → SessionHealthResult
result health evidence = record { health = health; evidence = evidence ∷ [] }

-- `any(marker in route or marker in text for marker in markers)`
unfoldable pub is_marked : List Text → Text → Text → Bool
is_marked markers route page_text =
    any (λ marker. has_part marker route || has_part marker page_text) markers

abbrev pub challenge_markers : List Text
challenge_markers = text "checkpoint" ∷ text "security check" ∷ []

abbrev pub login_markers : List Text
login_markers = text "/login" ∷ text "login required" ∷ text "session expired" ∷ text "sign in" ∷ []

abbrev pub restriction_markers : List Text
restriction_markers =
    text "access restricted" ∷ text "temporarily blocked" ∷ text "permission denied" ∷ []

-- `any(marker in text for marker in markers)`
unfoldable pub has_marker : List Text → Text → Bool
has_marker markers page_text = any (λ marker. has_part marker page_text) markers

-- The branches on the status, on the texts in case-folded form
abbrev pub classify_status : ℕ → Text → Text → SessionHealthResult
classify_status status route page_text =
    if is_marked challenge_markers route page_text
    then result challenged (text "challenge_detected")
    else if (status == 401) || is_marked login_markers route page_text
    then result expired (text "authentication_required")
    else if (status == 403) || has_marker restriction_markers page_text
    then result restricted (text "access_restricted")
    else if leb 200 status && ltb status 400
    then result ready (text "authenticated_route_reached")
    else result invalid (text "unexpected_response")

abbrev pub classify_with : Option ℕ → Text → Text → SessionHealthResult
classify_with none route page_text = result invalid (text "navigation_failed")
classify_with (some status) route page_text = classify_status status route page_text

-- `classify_observation`
unfoldable pub classify_observation : Platform → ProbeObservation → SessionHealthResult
classify_observation platform observation =
    if observation.navigation_error
    then result invalid (text "navigation_failed")
    else classify_with observation.status_code (platform.casefold observation.route)
        (platform.casefold observation.page_text)
