-- ===== src/Workflows/OperatorBatch/Run.antt =====
-- `OperatorBatchWorkflow.run` of workflows/operator_batch.py: the loop over the queue of targets.
-- The callback, the clocks and the pause between two groups are arguments.
use fb_scraper.Prelude.{
  ℕ, suc, ◌-◌, Bool, true, false, not, ◌&&◌, Option, none, some, List, [], ◌∷◌, ◌++◌, Text, text,
  text_eq, ltb, map, if◌then◌else◌,
}
use fb_scraper.Prelude.Dict.{Dict, lookup, insert}
use fb_scraper.Prelude.Sets.{sorted_set}
use fb_scraper.Errors.{Error, Result, ok, keyboard_interrupt}
use fb_scraper.Exec.{Exec, pure, raise, gets, on_error, modify, of_result, ◌>>=◌, ◌>>◌}
use fb_scraper.Json.{Builtins}
use fb_scraper.Metrics.{Clocks, Measurement, TimerStart, start, stop}
use fb_scraper.Workflows.OperatorBatch.{
  Target, Capture, GroupState, incomplete, failed, stopped, succeeded, GroupResult, Hashing,
  target_key, success, terminal, ordered_targets,
}
use fb_scraper.Workflows.OperatorBatch.Resume.{Batch, write_progress, previous}
use fb_scraper.Workflows.OperatorBatch.Results.{RunResult, Printing, conclude}

-- How a call of `capture_one` ends: with a capture, or with an exception, by the name of its type.
-- Among the exceptions that are no `Exception`, KeyboardInterrupt alone has a case.
pub data Outcome : Type 0 where
  captured : Capture → Outcome
  interrupt : Outcome
  batch_stop : Text → Text → Outcome
  browser_state : Text → Text → Outcome
  unsupported_layout : Text → Outcome
  recoverable other : Text → Outcome

-- What a batch is given; the pause between two Groups ends by itself, without an interrupt
pub record Outside (W : Type 0) : Type 0 where
  pub capture_one : Target → W → Outcome × W
  pub sleep : ℕ → W → W
  pub clocks : Clocks W
  pub between_groups_seconds : ℕ

-- What the loop does with a target, by its previous result
pub data Plan : Type 0 where
  halt keep : GroupResult → Plan
  attempt : ℕ → Plan

abbrev pub plan_on : GroupState → GroupResult → Plan
plan_on stopped r = halt r
plan_on incomplete r = attempt (suc r.attempts)
plan_on succeeded r = keep r
plan_on failed r = keep r

unfoldable pub plan : Option GroupResult → Plan
plan none = attempt 1
plan (some r) = plan_on r.state r

abbrev pub is_first : List GroupResult → Bool
is_first [] = true
is_first (g ∷ gs) = false

module _ (hashing : Hashing) {W : Type 0} where
  -- `groups.append(result)`, `_write_progress`, and what follows
  unfoldable pub append :
      List Text
      → List GroupResult
      → GroupResult
      → (List GroupResult → Exec (Batch W) (List GroupResult))
      → Exec (Batch W) (List GroupResult)
  unfolding write_progress
  append target_keys groups result follow = do
    write_progress hashing (groups ++ (result ∷ [])) target_keys
    follow (groups ++ (result ∷ []))

  abbrev pub keep_identifiers : Target → Capture → Batch W → Batch W
  keep_identifiers target c b = record b {
    identifier_values =
        insert (target_key hashing target) (sorted_set c.identifiers) b.identifier_values;
  }

  -- The branches on the outcome of an attempt; `follow` is the rest of the loop
  unfoldable pub settle_outcome :
      List Text
      → List GroupResult
      → Target
      → ℕ
      → ℕ
      → (List GroupResult → Exec (Batch W) (List GroupResult))
      → Outcome
      → Exec (Batch W) (List GroupResult)
  unfolding append success terminal
  settle_outcome keys groups target attempts duration follow (captured c) =
      modify (keep_identifiers target c)
      >> append keys groups (success hashing target c attempts duration) follow
  settle_outcome keys groups target attempts duration follow interrupt =
      append keys groups
        (terminal hashing target incomplete attempts duration (text "KeyboardInterrupt") none)
        (λ gs. raise keyboard_interrupt)
  settle_outcome keys groups target attempts duration follow (batch_stop name reason) =
      append keys groups (terminal hashing target stopped attempts duration name (some reason)) pure
  settle_outcome keys groups target attempts duration follow (browser_state name failure_class) =
      append keys groups
        (terminal hashing target stopped attempts duration name (some failure_class)) pure
  settle_outcome keys groups target attempts duration follow (unsupported_layout name) =
      append keys groups
        (terminal hashing target stopped attempts duration name
          (some (text "unsupported_discovery_layout")))
        pure
  settle_outcome keys groups target attempts duration follow (recoverable name) =
      append keys groups (terminal hashing target incomplete attempts duration name none) follow
  settle_outcome keys groups target attempts duration follow (other name) =
      append keys groups (terminal hashing target failed attempts duration name none) follow

module _ (hashing : Hashing) {W : Type 0} (outside : Outside W) where
  -- `time.perf_counter()`
  abbrev pub now : Batch W → ℕ
  now b = outside.clocks.wall_clock b.world

  abbrev pub capture : Target → Exec (Batch W) Outcome
  capture target b =
      let (outcome, w) = outside.capture_one target b.world in (ok outcome, record b { world = w })

  abbrev pub pause : ℕ → List GroupResult → Batch W → Batch W
  pause index groups b =
      if ltb 0 index && (not (is_first groups) && ltb 0 outside.between_groups_seconds)
      then record b { world = outside.sleep outside.between_groups_seconds b.world }
      else b

  -- The body of the loop
  unfoldable pub visit :
      List Text
      → List GroupResult
      → ℕ
      → Target
      → (List GroupResult → Exec (Batch W) (List GroupResult))
      → Plan
      → Exec (Batch W) (List GroupResult)
  unfolding settle_outcome
  visit keys groups index target follow (halt r) = pure (groups ++ (r ∷ []))
  visit keys groups index target follow (keep r) = follow (groups ++ (r ∷ []))
  visit keys groups index target follow (attempt attempts) = do
    modify (pause index groups)
    started ← gets now
    outcome ← capture target
    ended ← gets now
    settle_outcome hashing keys groups target attempts (ended - started) follow outcome

  -- The loop over the targets that are left
  unfoldable pub run_targets :
      List Text
      → Dict Text GroupResult
      → ℕ
      → List Target
      → List GroupResult
      → Exec (Batch W) (List GroupResult)
  unfolding visit plan
  run_targets keys results index [] groups = pure groups
  run_targets keys results index (target ∷ targets) groups =
      visit keys groups index target (run_targets keys results (suc index) targets)
        (plan (lookup (target_key hashing target) results))

abbrev pub is_interrupt : Error → Bool
is_interrupt keyboard_interrupt = true
is_interrupt _ = false

module _ {W : Type 0} (outside : Outside W) where
  abbrev pub stop_timer : TimerStart → Batch W → Result Measurement
  stop_timer timer b = (stop outside.clocks b.world (some timer)).0

  -- `except KeyboardInterrupt: timer.stop(); raise`
  abbrev pub on_interrupt : TimerStart → Error → Exec (Batch W) (Unit {0})
  on_interrupt timer e =
      if is_interrupt e then gets (stop_timer timer) >>= of_result >> pure tt else pure tt

module _ (hashing : Hashing) (builtins : Builtins) {W : Type 0} where
  -- The results of the earlier run, or a fresh receipt
  unfoldable pub earlier : Bool → List Text → Exec (Batch W) (Dict Text GroupResult)
  unfolding previous write_progress
  earlier true keys = previous hashing builtins keys
  earlier false keys = do
    modify (λ b. record b { identifier_values = [] })
    write_progress hashing [] keys
    pure []

module _ (hashing : Hashing) (printing : Printing) {W : Type 0} (outside : Outside W) where
  -- The part of `run` after the loop
  unfoldable pub finish : List Text → TimerStart → List GroupResult → Exec (Batch W) RunResult
  unfolding conclude stop
  finish keys timer groups = do
    ended ← gets (stop_timer outside timer)
    measurement ← of_result ended
    conclude hashing printing groups keys measurement

  -- The part of `run` from the start of the timer
  unfoldable pub run_queue :
      List Target → List Text → Dict Text GroupResult → Exec (Batch W) RunResult
  unfolding start run_targets finish
  run_queue targets keys results = do
    started ← gets (λ b. start outside.clocks b.world none)
    timer ← of_result started
    groups ←
        on_error (run_targets hashing outside keys results 0 targets [])
          (on_interrupt outside timer)
    finish keys timer groups

module _ (hashing : Hashing) (builtins : Builtins) (printing : Printing) {W : Type 0}
    (outside : Outside W) where
  -- `run`
  unfoldable pub run : List Target → Bool → Exec (Batch W) RunResult
  unfolding ordered_targets earlier run_queue
  run targets resume = do
    ordered ← of_result (ordered_targets hashing targets)
    let keys = map (target_key hashing) ordered
    results ← earlier hashing builtins resume keys
    run_queue hashing printing outside ordered keys results
