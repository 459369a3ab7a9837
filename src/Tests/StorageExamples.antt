-- ===== src/Tests/StorageExamples.antt =====
-- The theorems on the repositories of storage/repositories.py at concrete inputs.
use fb_scraper.Prelude.{
  ◌≡◌, ◌⊎◌, arith, refl, true, inl, Option, none, some, List, [], ◌∷◌, Text, text, text_eq, nat_eq,
  contains, pos, lower, All,
}
use fb_scraper.Prelude.Dict.{lookup, insert, has}
use fb_scraper.Prelude.Sort.{sorted}
use fb_scraper.Errors.{ok}
use fb_scraper.Contracts.{GroupRecord, PostRecord, CommentRecord}
use fb_scraper.Exec.Steps.{Steps}
use fb_scraper.Storage.Tables.{
  planned, running, succeeded, cancelled, aware, job_state_eq, entity_type_eq, JobRow, CaptureRow,
  Database, empty_database, post, CounterRow,
}
use fb_scraper.Storage.Jobs.{allowed_job_transitions, transition_between}
use fb_scraper.Storage.Jobs.Lifecycle.{
  Call, run_calls, run_calls_terminal, run_calls_idle, state_of,
}
use fb_scraper.Storage.Jobs.Concurrency.{transition_between_ok}
use fb_scraper.Storage.Captures.{add, get, is_sha256}
use fb_scraper.Storage.Captures.Immutable.{KeepsCaptures, add-KeepsCaptures}
use fb_scraper.Storage.Captures.Replay.{get-add}
use fb_scraper.Storage.Counters.{save_counters}
use fb_scraper.Storage.Counters.History.{Holds, save_counters-Holds}
use fb_scraper.Storage.Canonical.{save_group, save_post, save_comment, get_post}
use fb_scraper.Storage.Canonical.Forward.{Forward, save_post-Forward}
use fb_scraper.Storage.Canonical.Roundtrip.{get-save_post}
use fb_scraper.Tests.Instances.{number_json, digest}

abbrev job : JobRow
job = record { state = planned; created_at = 1; updated_at = 1 }

abbrev with_job : JobRow → Database
with_job row = record empty_database { jobs = insert (text "job") row [] }

-- Another connection touches the row between the two statements.
abbrev touched : Database → Database
touched db = with_job (record { state = planned; created_at = 1; updated_at = 5 })

transition_between_ok_example :
    (row : JobRow) × (lookup (text "job") (touched (with_job job)).jobs ≡ some row)
    × (contains (allowed_job_transitions row.state) running ≡ true)
    × ((transition_between touched (text "job") running 7 (with_job job)).1
        ≡ record (touched (with_job job)) {
          jobs =
              insert
                (text "job")
                (record row { state = running; updated_at = 7 })
                (touched (with_job job)).jobs;
        })
unfolding transition_between lookup insert text_eq job_state_eq nat_eq
transition_between_ok_example =
    transition_between_ok touched (text "job") running 7 (with_job job) refl

abbrev done : JobRow
done = record { state = succeeded; created_at = 1; updated_at = 9 }

abbrev calls : List Call
calls =
    record { job_id = text "job"; target = cancelled; now = 10 }
    ∷ record { job_id = text "other"; target = succeeded; now = 11 }
    ∷ []

run_calls_terminal_example : lookup (text "job") (run_calls calls (with_job done)).jobs ≡ some done
unfolding lookup insert text_eq job_state_eq
run_calls_terminal_example = run_calls_terminal calls (text "job") done (with_job done) refl refl

run_calls_idle_example :
    (state_of (text "job") (run_calls calls (with_job job)) ≡ some planned)
    ⊎ (state_of (text "job") (run_calls calls (with_job job)) ≡ some cancelled)
unfolding lookup insert text_eq
run_calls_idle_example =
    run_calls_idle calls (text "job") (with_job job)
      ((λ p. ground arith), ((λ p. ground arith), tt)) (inl refl)

abbrev html : Option Text
html = some (text "c.html.gz")

add-KeepsCaptures_example :
    Steps KeepsCaptures (add (text "c") digest (text "https://a") (aware 3) html (some (pos 12)))
add-KeepsCaptures_example =
    add-KeepsCaptures (text "c") digest (text "https://a") (aware 3) html (some (pos 12))

abbrev after_add : Database
after_add =
    (add (text "c") digest (text "https://a") (aware 3) html (some (pos 12)) empty_database).1

get-add_example :
    (row : CaptureRow) × (get (text "c") after_add ≡ (ok row, after_add))
    × (row.sha256 ≡ lower digest)
    × (row.source_url ≡ text "https://a")
    × (((html ≡ none) × (some (pos 12) ≡ none))
        ⊎ ((row.storage_path ≡ html) × (row.byte_count ≡ some (pos 12))))
    × (is_sha256 row.sha256 ≡ true)
unfolding add text_eq nat_eq lower lookup
get-add_example =
    get-add (text "c") digest (text "https://a") 3 html (some (pos 12)) empty_database refl

abbrev group_record : GroupRecord
group_record = record {
  group_id = text "g";
  canonical_url = text "https://a/groups/g";
  member_count = some 20;
  observed_at = 3;
  collected_at = 3;
  raw_capture_id = text "c";
  raw_sha256 = digest;
  schema_version = text "1";
  details = [];
}

abbrev post_record : PostRecord
post_record = record {
  post_id = text "p";
  group_id = text "g";
  canonical_url = text "https://a/p";
  published_at = some 2;
  observed_at = 3;
  reactions = (text "like", 4) ∷ (text "haha", 1) ∷ [];
  comments_count = 2;
  shares_count = 0;
  raw_capture_id = text "c";
  schema_version = text "1";
  details = [];
}

abbrev comment_record : CommentRecord
comment_record = record {
  comment_id = text "m";
  post_id = text "p";
  group_id = text "g";
  observed_at = 3;
  reactions = (text "like", 1) ∷ [];
  raw_capture_id = text "c";
  schema_version = text "1";
  details = [];
}

abbrev with_capture : Database
with_capture = record empty_database {
  raw_captures =
      (
        text "c",
        record {
          sha256 = digest;
          source_url = text "https://a";
          collected_at = 3;
          storage_path = none;
          byte_count = none;
        },
      )
      ∷ [];
}

abbrev with_group : Database
with_group = (save_group number_json group_record with_capture).1

abbrev with_post : Database
with_post = (save_post number_json post_record with_group).1

abbrev with_comment : Database
with_comment = (save_comment number_json comment_record with_post).1

save_post-Forward_example : Steps Forward (save_post number_json post_record)
save_post-Forward_example = save_post-Forward number_json post_record

get-save_post_example :
    get_post number_json (text "p") with_post ≡ (ok (some post_record), with_post)
unfolding save_post save_group lookup has text_eq save_counters insert entity_type_eq sorted
get-save_post_example = get-save_post number_json post_record with_group refl

abbrev counter_rows : List CounterRow
counter_rows =
    record {
      entity_type = post;
      entity_id = text "p";
      metric = text "shares_count";
      observed_at = 3;
      value = 6;
      raw_capture_id = text "c";
    }
    ∷ []

save_counters-Holds_example :
    All (λ row. Holds row (save_counters counter_rows with_capture).1) counter_rows
unfolding save_counters lookup has text_eq
save_counters-Holds_example = save_counters-Holds counter_rows with_capture refl
