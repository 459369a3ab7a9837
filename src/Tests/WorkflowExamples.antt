-- ===== src/Tests/WorkflowExamples.antt =====
-- The theorems on workflows/live_capture.py and storage/live_runs.py at concrete inputs.
use fb_scraper.Prelude.{
  ℕ, ◌≡◌, ◌≢◌, refl, arith, none, some, [], ◌∷◌, ◌++◌, text, text_eq, nat_eq, lower, option_eq,
  int_eq,
}
use fb_scraper.Prelude.Dict.{lookup, insert, has}
use fb_scraper.Errors.{ok, err, out_of_fuel, index_error}
use fb_scraper.Exec.Steps.{Steps}
use fb_scraper.Contracts.{GroupRecord, PostRecord}
use fb_scraper.Storage.Tables.{
  planned, running, succeeded, aware, job_state_eq, JobRow, LiveRunRow, Database, empty_database,
}
use fb_scraper.Storage.Jobs.Lifecycle.{state_of}
use fb_scraper.Storage.Jobs.{get_state, transition}
use fb_scraper.Prelude.Sort.{sorted}
use fb_scraper.Capture.RawStore.{write}
use fb_scraper.Storage.Captures.{add, is_consistent}
use fb_scraper.Storage.Canonical.{save_group}
use fb_scraper.Storage.Counters.{save_counters}
use fb_scraper.Storage.LiveRuns.{get_run, is_column, create_run}
use fb_scraper.Storage.LiveRuns.Existing.{create_run-existing}
use fb_scraper.Workflows.LiveCapture.{
  World, Surroundings, ParserInput, LiveCaptureResult, capture_pages,
}
use fb_scraper.Workflows.LiveCapture.Checkpoints.{checkpoint, resume_position}
use fb_scraper.Workflows.LiveCapture.Evidence.{KeepsEvidence, capture_pages-KeepsEvidence}
use fb_scraper.Workflows.LiveCapture.Failure.{record_failure_ok}
use fb_scraper.Workflows.LiveCapture.Persist.{same_canonical_url, persist_page, identifiers}
use fb_scraper.Workflows.LiveCapture.Resume.{resume_position-checkpoint}
use fb_scraper.Workflows.LiveCapture.Success.{capture_pages_ok}
use fb_scraper.Workflows.LiveCapture.Tasks.{ensure_task, set_task_state, record_failure}
use fb_scraper.Workflows.LiveCapture.Termination.Loop.{capture_pages_fuel}
use fb_scraper.Tests.Instances.{number_json, plain_platform, digest}

abbrev run : LiveRunRow
run = record {
  profile_id = text "profile";
  campaign_id = text "campaign";
  group_id = text "g";
  canonical_url = text "u";
  lower_bound = 5;
  adapter_version = text "v";
}

abbrev job_row : JobRow
job_row = record { state = planned; created_at = 1; updated_at = 1 }

abbrev with_run : Database
with_run = record empty_database {
  jobs = (text "j", job_row) ∷ [];
  profiles = (text "profile", record { session_class = text "imported" }) ∷ [];
  campaigns = text "campaign" ∷ [];
  live_runs = (text "j", run) ∷ [];
}

abbrev parsed_group : ParserInput → GroupRecord
parsed_group input = record {
  group_id = text "g";
  canonical_url = text "u";
  member_count = none;
  observed_at = input.observed_at;
  collected_at = input.observed_at;
  raw_capture_id = input.capture_id;
  raw_sha256 = input.raw_sha256;
  schema_version = text "1";
  details = [];
}

-- A Group of one page, at a clock that counts
abbrev one_page : Surroundings ℕ
one_page = record {
  capture_page = λ cursor n. (ok (record { raw_html = text "<p>"; next_cursor = none }), n);
  now = λ n. (n, ℕ.suc n);
  parse = λ input. ok (record { group = parsed_group input; posts = []; comments = [] });
}

abbrev before : World ℕ
before = record { db = with_run; files = []; browser = 10 }

abbrev result : LiveCaptureResult
result = record { job_id = text "j"; identifiers = text "group:g" ∷ []; state = succeeded }

capture_pages-KeepsEvidence_example :
    Steps KeepsEvidence (capture_pages plain_platform number_json one_page (text "j") 3 none)
capture_pages-KeepsEvidence_example =
    capture_pages-KeepsEvidence plain_platform number_json one_page (text "j") 3 none

capture_pages_fuel_example :
    (capture_pages plain_platform number_json one_page (text "j") 3 none before).0 ≢ err out_of_fuel
capture_pages_fuel_example =
    capture_pages_fuel plain_platform number_json one_page (text "j") 3 none
      (record {
        pages = λ cursor. record { at = λ n e h. absurd cc };
        parsers = λ input e h. absurd cc;
      })
      before

capture_pages_ok_example :
    (state_of
        (text "j")
        (capture_pages plain_platform number_json one_page (text "j") 3 none before).1.db
      ≡ some succeeded)
    × (result.state ≡ succeeded)
    × (result.job_id ≡ text "j")
unfolding capture_pages get_state lookup text_eq nat_eq get_run job_state_eq transition insert
    ensure_task has resume_position sorted write add lower same_canonical_url persist_page
    is_consistent option_eq int_eq save_group save_counters checkpoint set_task_state identifiers
capture_pages_ok_example =
    capture_pages_ok plain_platform number_json one_page (text "j") 3 none before result refl

abbrev started : Database
started = record with_run {
  tasks = (text "j", record { state = running; created_at = 2; updated_at = 2 }) ∷ [];
  raw_captures =
      (
        text "c",
        record {
          sha256 = digest;
          source_url = text "u";
          collected_at = 3;
          storage_path = none;
          byte_count = none;
        },
      )
      ∷ [];
  checkpoints =
      record {
        task_id = text "j";
        interaction_number = 1;
        checkpoint_id = text "first";
        raw_capture_id = text "c";
        cursor = some (text "two");
      }
      ∷ [];
}

resume_position-checkpoint_example :
    resume_position
      (text "j")
      (checkpoint plain_platform (text "j") (text "c") (some (text "three")) 2 started).1
    ≡ record {
      cursor = some (text "three");
      pages_completed = 2;
      seen_cursors = (resume_position (text "j") started).seen_cursors ++ (text "three" ∷ []);
    }
unfolding checkpoint has text_eq
resume_position-checkpoint_example =
    resume_position-checkpoint plain_platform (text "j") (text "c") (some (text "three")) 2 started
      ((λ p. omega arith), tt) refl

record_failure_ok_example :
    state_of
      (text "j")
      (record_failure (text "j") (text "c") (text "page_limit") (text "m") 9 started).1
    ≢ some running
unfolding record_failure has text_eq get_state job_state_eq
record_failure_ok_example =
    record_failure_ok (text "j") (text "c") (text "page_limit") (text "m") 9 started refl

abbrev early_post : PostRecord
early_post = record {
  post_id = text "p";
  group_id = text "g";
  canonical_url = text "q";
  published_at = some 2;
  observed_at = 3;
  reactions = [];
  comments_count = 0;
  shares_count = 0;
  raw_capture_id = text "c";
  schema_version = text "1";
  details = [];
}

abbrev page_group : GroupRecord
page_group = record {
  group_id = text "g";
  canonical_url = text "u";
  member_count = none;
  observed_at = 3;
  collected_at = 3;
  raw_capture_id = text "c";
  raw_sha256 = digest;
  schema_version = text "1";
  details = [];
}

create_run-existing_example :
    create_run plain_platform
      (text "j")
      (text "profile")
      (record { campaign_id = text "campaign"; group_id = text "g"; canonical_url = text "u" })
      (aware 5)
      (text "v")
      with_run
    ≡ (err index_error, with_run)
unfolding lookup is_column text_eq lower
create_run-existing_example =
    create_run-existing plain_platform (text "j") (text "profile")
      (record { campaign_id = text "campaign"; group_id = text "g"; canonical_url = text "u" })
      (aware 5) (text "v") with_run run refl refl
