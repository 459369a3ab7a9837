-- ===== src/Tests/TargetExamples.antt =====
-- The theorems on targets/preparation.py, protection_join.py and session/health.py at concrete
-- inputs.
use fb_scraper.Prelude.{
  ℕ, ◌+◌, ◌≤◌, ◌≡◌, ◌↔◌, refl, arith, true, false, none, some, [], ◌∷◌, Text, text, text_eq, nat_eq,
  length, has_part,
}
use native.Mathlib.Decide.{ℕ_discrete}
use fb_scraper.Prelude.Dict.{lookup}
use fb_scraper.Errors.{ok}
use fb_scraper.Targets.{joined, HitRow, Tables, Selected, select, get_selected, selected_target}
use fb_scraper.Targets.Selection.{get_selected-select}
use fb_scraper.JoinGuard.{Policy, Guard, Request}
use fb_scraper.JoinGuard.Budget.{granted, length-granted}
use fb_scraper.Session.Health.{
  ready, expired, is_marked, has_marker, ProbeObservation, classify_observation,
}
use fb_scraper.Session.Health.Ready.{IsReached, classify_observation_ready}
use fb_scraper.Tests.Instances.{plain_platform}

abbrev hit : HitRow
hit = record {
  campaign_id = text "campaign";
  group_id = text "g";
  canonical_url = text "u";
  name = none;
  source = text "csv";
  rank = 1;
  membership_state = joined;
}

abbrev tables : Tables
tables = record {
  hits = (text "hit", hit) ∷ [];
  transitions = [];
  selected = (text "other", text "h2") ∷ [];
  captures = [];
  campaigns = text "campaign" ∷ [];
}

abbrev chosen : Selected
chosen = selected_target (text "campaign") (text "hit") hit

get_selected-select_example :
    get_selected (text "campaign") (select (text "campaign") (text "hit") tables).1
    ≡ (ok chosen, (select (text "campaign") (text "hit") tables).1)
unfolding select lookup text_eq
get_selected-select_example = get_selected-select (text "campaign") (text "hit") tables chosen refl

abbrev policy : Policy ℕ
policy = record { pacing_delay_seconds = 10; max_actions_per_run = 1 }

abbrev guard : Guard
guard = record { attempted_group_ids = []; actions_reserved = 0 }

abbrev request : Text → Request
request group_id = record {
  group_id = group_id;
  matches_keyword = true;
  matches_location = true;
  account_stop_reason = none;
}

length-granted_example :
    length (granted policy (request (text "a") ∷ request (text "b") ∷ []) guard) + 0 ≤ 1
length-granted_example =
    length-granted policy (request (text "a") ∷ request (text "b") ∷ []) guard (omega arith)

abbrev observation : ProbeObservation
observation = record {
  status_code = some 200;
  route = text "/groups";
  page_text = text "welcome";
  navigation_error = false;
}

classify_observation_ready_example :
    ((classify_observation plain_platform observation).health ≡ ready) ↔ (
      (observation.navigation_error ≡ false)
      × (status : ℕ) × (observation.status_code ≡ some status)
      × IsReached status (text "/groups") (text "welcome"))
classify_observation_ready_example = classify_observation_ready plain_platform observation

session_ready : (classify_observation plain_platform observation).health ≡ ready
unfolding classify_observation is_marked has_part nat_eq ℕ_discrete has_marker
session_ready = refl

abbrev marked_observation : ProbeObservation
marked_observation = record observation { page_text = text "please sign in here" }

session_expired : (classify_observation plain_platform marked_observation).health ≡ expired
unfolding classify_observation is_marked has_part nat_eq ℕ_discrete has_marker
session_expired = refl
