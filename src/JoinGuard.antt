-- ===== src/JoinGuard.antt =====
-- `JoinActionGuard` of protection_join.py. The pacing delay, a pair of floats that the guard only
-- passes on, is an argument type `P`; whether it is within 10 to 20 seconds is an argument too.
pub mod Budget
use fb_scraper.Prelude.{
  ℕ, suc, Bool, true, false, not, ◌&&◌, ◌||◌, Option, none, some, List, [], ◌∷◌, Text, text_eq,
  nat_eq, ◌==◌, contains, leb, is_none, strip, if◌then◌else◌,
}
use fb_scraper.Errors.{
  Result, ok, err, value_error, account_stop_error, keyword_match_error, join_action_limit_error,
}
use fb_scraper.Exec.{Exec, pure, raise, gets, modify, raise_if, ◌>>=◌, ◌>>◌}

-- `JoinProtectionPolicy`
pub record Policy (P : Type 0) : Type 0 where
  pub pacing_delay_seconds : P
  pub max_actions_per_run : ℕ

-- `__post_init__` of `JoinProtectionPolicy`
unfoldable pub check_policy : {P : Type 0} → (P → Bool) → Policy P → Result (Policy P)
check_policy is_within policy =
    if not (is_within policy.pacing_delay_seconds) || not (policy.max_actions_per_run == 1)
    then err value_error
    else ok policy

-- `ReservedJoinAction`
pub record ReservedJoinAction (P : Type 0) : Type 0 where
  pub group_id : Text
  pub ordinal : ℕ
  pub pacing_delay_seconds : P

-- The state of a guard
pub record Guard : Type 0 where
  pub attempted_group_ids : List Text
  pub actions_reserved : ℕ

-- The arguments of `reserve`
pub record Request : Type 0 where
  pub group_id : Text
  pub matches_keyword : Bool
  pub matches_location : Bool
  pub account_stop_reason : Option Text

-- `reserve`; `normalized` is `_group_id(group_id)`, which raises on a blank text
unfoldable pub reserve : {P : Type 0} → Policy P → Request → Exec Guard (ReservedJoinAction P)
reserve policy request = do
  raise_if (strip request.group_id == []) value_error
  raise_if (not (is_none request.account_stop_reason)) account_stop_error
  raise_if (not request.matches_keyword || not request.matches_location) keyword_match_error
  raise_if (← gets (λ g. contains g.attempted_group_ids (strip request.group_id)))
      join_action_limit_error
  raise_if (← gets (λ g. leb policy.max_actions_per_run g.actions_reserved)) join_action_limit_error
  modify (λ g. record {
    attempted_group_ids = strip request.group_id ∷ g.attempted_group_ids;
    actions_reserved = suc g.actions_reserved;
  })
  ordinal ← gets (λ g. g.actions_reserved)
  pure (record {
    group_id = strip request.group_id;
    ordinal = ordinal;
    pacing_delay_seconds = policy.pacing_delay_seconds;
  })
