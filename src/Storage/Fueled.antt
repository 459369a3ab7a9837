-- ===== src/Storage/Fueled.antt =====
-- The repositories and the raw store have no loop of their own that could run out of fuel.
use fb_scraper.Prelude.{
  ℕ, arith, ◌≡◌, ◌==◌, false, Bool-cases, inl, inr, Option, none, some, List, [], ◌∷◌, Text,
  text_eq, ℤ,
}
use fb_scraper.Prelude.Dict.{lookup}
use fb_scraper.Contracts.{GroupRecord, PostRecord, CommentRecord, RecordJson}
use fb_scraper.Errors.{Error, err}
use fb_scraper.Exec.Fuel.{IsFueled, fuel_rules, is_fuel, bind-IsFueled}
use fb_scraper.Storage.Tables.{
  JobState, job_state_eq, DateTime, CaptureRow, JobRow, CounterRow, Database,
}
use fb_scraper.Storage.Jobs.{get_state, transition, transition_between, compare_and_swap, swap_row}
use fb_scraper.Storage.Captures.{add, add_row}
use fb_scraper.Storage.Counters.{save_row, save_counter, save_counters}
use fb_scraper.Storage.Canonical.{
  Current, guard_current_record, put_group, put_post, put_comment, save_group, save_post,
  save_comment,
}

pub get_state-IsFueled : (job_id : Text) → IsFueled (get_state job_id)
unfolding get_state
get_state-IsFueled job_id = search fuel_rules depth 8

swap-IsFueled :
    (job_id : Text) (current target : JobState) (now : ℕ)
    → IsFueled (compare_and_swap job_id current target now)
unfolding compare_and_swap
swap-IsFueled job_id current target now = record {
  at = λ db e h. go db e (lookup job_id db.jobs) h;
}
  where
    go :
        (db : Database) (e : Error) (o : Option JobRow)
        → (swap_row job_id current target now db o).0 ≡ err e
        → is_fuel e ≡ false
    go db e none h = absurd cc
    go db e (some row) h = elim (Bool-cases (row.state == current)) [
      | inl t ↦ absurd (ground arith)
      | inr f ↦ absurd (ground arith)
    ]

pub transition-IsFueled :
    (job_id : Text) (target : JobState) (now : ℕ) → IsFueled (transition job_id target now)
unfolding transition transition_between
transition-IsFueled job_id target now =
    search (fuel_rules, get_state-IsFueled, swap-IsFueled) depth 14

add_row-IsFueled :
    (capture_id : Text) (requested : CaptureRow) (o : Option CaptureRow)
    → IsFueled (add_row capture_id requested o)
add_row-IsFueled capture_id requested none = search fuel_rules depth 8
add_row-IsFueled capture_id requested (some row) = search fuel_rules depth 8

pub add-IsFueled :
    (capture_id sha256 source_url : Text) (at : DateTime) (path : Option Text) (count : Option ℤ)
    → IsFueled (add capture_id sha256 source_url at path count)
unfolding add
add-IsFueled capture_id sha256 source_url at path count =
    search (fuel_rules, add_row-IsFueled) depth 14

save_row-IsFueled : (new : CounterRow) (o : Option CounterRow) → IsFueled (save_row new o)
save_row-IsFueled new none = search fuel_rules depth 8
save_row-IsFueled new (some row) = search fuel_rules depth 8

save_counter-IsFueled : (new : CounterRow) → IsFueled (save_counter new)
unfolding save_counter
save_counter-IsFueled new = search (fuel_rules, save_row-IsFueled) depth 8

save_counters-IsFueled : (rows : List CounterRow) → IsFueled (save_counters rows)
unfolding save_counters
save_counters-IsFueled [] = search fuel_rules
save_counters-IsFueled (row ∷ rows) =
    bind-IsFueled _ _ (save_counter-IsFueled row) (λ _. save_counters-IsFueled rows)

guard-IsFueled :
    (o : Option Current) (t : ℕ) (payload : Text) → IsFueled (guard_current_record o t payload)
unfolding guard_current_record
guard-IsFueled none t payload = search fuel_rules
guard-IsFueled (some row) t payload = search fuel_rules depth 10

module _ (json : RecordJson) where
  pub save_group-IsFueled : (r : GroupRecord) → IsFueled (save_group json r)
  unfolding save_group put_group
  save_group-IsFueled r = search (fuel_rules, guard-IsFueled, save_counters-IsFueled) depth 14

  pub save_post-IsFueled : (r : PostRecord) → IsFueled (save_post json r)
  unfolding save_post put_post
  save_post-IsFueled r = search (fuel_rules, guard-IsFueled, save_counters-IsFueled) depth 14

  pub save_comment-IsFueled : (r : CommentRecord) → IsFueled (save_comment json r)
  unfolding save_comment put_comment
  save_comment-IsFueled r = search (fuel_rules, guard-IsFueled, save_counters-IsFueled) depth 14
