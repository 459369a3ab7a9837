-- ===== src/Errors.antt =====
-- The exceptions that the modelled code raises, and the results of functions that may raise.
use fb_scraper.Prelude.{Text}

pub data Error : Type 0 where
  -- builtins and the standard library
  value_error runtime_error index_error key_error type_error keyboard_interrupt integrity_error :
      Error
  -- storage/repositories.py
  repository_error record_not_found capture_metadata_conflict invalid_state_transition : Error
  stale_observation canonical_identity_conflict observation_conflict : Error
  counter_observation_conflict : Error
  -- storage/database.py
  migration_error : Error
  -- storage/live_runs.py
  live_run_not_found : Error
  -- capture/raw_store.py, with zlib.error, and capture/pagination.py
  zlib_error raw_capture_integrity_error page_limit_exceeded pagination_loop_error : Error
  -- capture/playwright_adapter.py, by its failure class and its message
  browser_state_error : Text → Text → Error
  -- parsing/live_group.py
  unsupported_layout_error : Text → Error
  playwright_error : Error
  -- protection_join.py
  account_stop_error keyword_match_error join_action_limit_error : Error
  -- configuration.py
  configuration_error : Error
  -- retention.py, and OverflowError
  retention_error overflow_error : Error
  -- targets/preparation.py
  target_preparation_error : Error
  -- the loop of the model ran out of fuel; no run of the code does
  out_of_fuel : Error

pub data Result {ℓ} (A : Type ℓ) : Type ℓ where
  ok : A → Result A
  err : Error → Result A
