-- ===== src/Workflows/LiveCapture/Termination.antt =====
-- The loop of a live capture ends within the rounds that its fuel allows: the parts of a round. Termination/Loop has the loop.
pub mod Loop
use fb_scraper.Prelude.{
  ℕ, zero, suc, ◌+◌, ◌-◌, ◌≤◌, ◌<◌, ◌≡◌, ◌≢◌, ◌∙◌, refl, sym, ap, arith, leb, Bool, true, false,
  Bool-cases, inl, inr, Option, none, some, List, [], ◌∷◌, Text, text, text_eq, nat_eq, ◌==◌, ◌++◌,
  contains, not, ◌&&◌, is_none,
}
use fb_scraper.Prelude.Dict.{lookup}
use fb_scraper.Contracts.{GroupRecord, PostRecord, CommentRecord, RecordJson}
use fb_scraper.Errors.{Error, Result, ok, err, out_of_fuel, page_limit_exceeded}
use fb_scraper.Exec.{Exec, gets, pure}
use fb_scraper.Exec.Fuel.{
  IsFueled, fuel_rules, is_fuel, bind-IsFueled, bind_after-IsFueled, pure-IsFueled, gets-IsFueled,
}
use fb_scraper.Storage.Tables.{JobState, running, job_state_eq, LiveRunRow, Database}
use fb_scraper.Storage.Fueled.{
  get_state-IsFueled, transition-IsFueled, add-IsFueled, save_group-IsFueled, save_post-IsFueled,
  save_comment-IsFueled,
}
use fb_scraper.Storage.LiveRuns.{get_run}
use fb_scraper.Platform.{Platform}
use fb_scraper.Capture.RawStore.{unpack_error, Files, read, write_file, write}
use fb_scraper.Workflows.LiveCapture.{
  World, Surroundings, ParserInput, RenderedPage, LiveCaptureResult, on_db, on_files, on_browser,
  clock, fail, stop, finish, interrupt, succeed, parser_drift, store_page, after_page, capture_loop,
  resume, start, capture_run, record_browser_failure, capture_pages, is_interrupted,
}
use fb_scraper.Workflows.LiveCapture.Checkpoints.{Position, checkpoint}
use fb_scraper.Workflows.LiveCapture.Persist.{identifiers, save_posts, save_comments, persist_page}
use fb_scraper.Workflows.LiveCapture.Tasks.{
  set_task_state, insert_task, ensure_task, add_failure, fail_running, record_failure,
}

get_run-IsFueled : (job_id : Text) → IsFueled (get_run job_id)
unfolding get_run
get_run-IsFueled job_id = search fuel_rules depth 8

set_task_state-IsFueled :
    (job_id : Text) (state : JobState) (now : ℕ) → IsFueled (set_task_state job_id state now)
unfolding set_task_state
set_task_state-IsFueled job_id state now = search fuel_rules

insert_task-IsFueled : (job_id : Text) (now : ℕ) (b : Bool) → IsFueled (insert_task job_id now b)
insert_task-IsFueled job_id now true = search fuel_rules
insert_task-IsFueled job_id now false = search fuel_rules depth 8

ensure_task-IsFueled : (job_id : Text) (now : ℕ) → IsFueled (ensure_task job_id now)
unfolding ensure_task
ensure_task-IsFueled job_id now = search (fuel_rules, insert_task-IsFueled) depth 8

fail_running-IsFueled :
    (job_id : Text) (now : ℕ) (state : JobState) → IsFueled (fail_running job_id now state)
fail_running-IsFueled job_id now state = search (fuel_rules, transition-IsFueled) depth 8

add_failure-IsFueled :
    (job_id capture_id failure_class message : Text) (n : ℕ)
    → IsFueled (add_failure job_id capture_id failure_class message n)
add_failure-IsFueled job_id capture_id failure_class message n = search fuel_rules depth 10

record_failure-IsFueled :
    (job_id capture_id failure_class message : Text) (now : ℕ)
    → IsFueled (record_failure job_id capture_id failure_class message now)
unfolding record_failure
record_failure-IsFueled job_id capture_id failure_class message now =
    search
      (
        fuel_rules, add_failure-IsFueled, set_task_state-IsFueled, get_state-IsFueled,
        fail_running-IsFueled,
      )
      depth 12

checkpoint-IsFueled :
    (platform : Platform) (job_id capture_id : Text) (cursor : Option Text) (n : ℕ)
    → IsFueled (checkpoint platform job_id capture_id cursor n)
unfolding checkpoint
checkpoint-IsFueled platform job_id capture_id cursor n = search fuel_rules depth 12

identifiers-IsFueled : (group_id : Text) → IsFueled (identifiers group_id)
unfolding identifiers
identifiers-IsFueled group_id = gets-IsFueled _

is_fuel-unpack_error :
    (platform : Platform) (file : Option Text) → is_fuel (unpack_error platform file) ≡ false
is_fuel-unpack_error platform none = refl
is_fuel-unpack_error platform (some packed) = ground arith

read-IsFueled :
    (platform : Platform) (id sha suffix : Text) → IsFueled (read platform id sha suffix)
unfolding read
read-IsFueled platform id sha suffix = search (fuel_rules, is_fuel-unpack_error) depth 10

write_file-IsFueled :
    (platform : Platform) (id raw suffix : Text) (o : Option Text)
    → IsFueled (write_file platform id raw suffix o)
write_file-IsFueled platform id raw suffix none = search fuel_rules
write_file-IsFueled platform id raw suffix (some packed) =
    search (fuel_rules, read-IsFueled) depth 8

write-IsFueled :
    (platform : Platform) (id raw suffix : Text) → IsFueled (write platform id raw suffix)
unfolding write
write-IsFueled platform id raw suffix = search (fuel_rules, write_file-IsFueled) depth 12

module _ (json : RecordJson) where
  save_posts-IsFueled : (posts : List PostRecord) → IsFueled (save_posts json posts)
  unfolding save_posts
  save_posts-IsFueled [] = pure-IsFueled tt
  save_posts-IsFueled (post ∷ posts) =
      bind-IsFueled _ _ (save_post-IsFueled json post) (λ _. save_posts-IsFueled posts)

  save_comments-IsFueled : (comments : List CommentRecord) → IsFueled (save_comments json comments)
  unfolding save_comments
  save_comments-IsFueled [] = pure-IsFueled tt
  save_comments-IsFueled (comment ∷ comments) =
      bind-IsFueled _ _ (save_comment-IsFueled json comment) (λ _. save_comments-IsFueled comments)

  persist_page-IsFueled :
      (source_url : Text) (lower_bound : ℕ) (path : Text) (count : ℕ) (g : GroupRecord)
      (posts : List PostRecord) (comments : List CommentRecord)
      → IsFueled (persist_page json source_url lower_bound path count g posts comments)
  unfolding persist_page
  persist_page-IsFueled source_url lower_bound path count g posts comments =
      search
        (fuel_rules, add-IsFueled, save_group-IsFueled, save_posts-IsFueled, save_comments-IsFueled)
        depth 12

module _ {B A : Type 0} where
  on_db-IsFueled : (m : Exec Database A) → IsFueled m → IsFueled (on_db {B = B} m)
  on_db-IsFueled m h = record { at = λ w e p. h.at w.db e p }

  on_files-IsFueled : (m : Exec Files A) → IsFueled m → IsFueled (on_files {B = B} m)
  on_files-IsFueled m h = record { at = λ w e p. h.at w.files e p }

  on_browser-IsFueled : (m : Exec B A) → IsFueled m → IsFueled (on_browser m)
  on_browser-IsFueled m h = record { at = λ w e p. h.at w.browser e p }

now-IsFueled :
    {B : Type 0} (env : Surroundings B) → IsFueled (λ b. (ok (env.now b).0, (env.now b).1))
now-IsFueled env = record { at = λ b e h. absurd cc }

ruleset live_rules = (
  fuel_rules, on_db-IsFueled, on_files-IsFueled, on_browser-IsFueled, now-IsFueled,
  get_run-IsFueled, get_state-IsFueled, transition-IsFueled, add-IsFueled, set_task_state-IsFueled,
  ensure_task-IsFueled, record_failure-IsFueled, checkpoint-IsFueled, identifiers-IsFueled,
  write-IsFueled, persist_page-IsFueled,
)
