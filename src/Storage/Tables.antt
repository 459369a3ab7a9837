-- ===== src/Storage/Tables.antt =====
-- The tables of migrations 001 to 005 that the repositories read and write. A table with a text
-- primary key is a dict from the key; one that is only appended to is a list. Instants are
-- numbers: microseconds of UTC, which `isoformat` and `fromisoformat` carry there and back.
use fb_scraper.Prelude.{ℕ, Option, List, [], Text, Eq, ℤ}
use fb_scraper.Prelude.Dict.{Dict}

-- A Python `datetime`: with a zone it is the instant, without one it is the wall clock's reading.
pub data DateTime : Type 0 where
  aware naive : ℕ → DateTime

-- contracts/models.py, `JobState`
pub data JobState : Type 0 where
  planned running partial succeeded failed interrupted cancelled : JobState

job_state_dec : Discrete JobState
job_state_dec = hlevel

instance unfoldable pub job_state_eq : Eq JobState
unfolding job_state_dec
job_state_eq = record { dec = job_state_dec }

-- contracts/models.py, `EntityType`
pub data EntityType : Type 0 where
  group post comment : EntityType

entity_type_dec : Discrete EntityType
entity_type_dec = hlevel

instance unfoldable pub entity_type_eq : Eq EntityType
unfolding entity_type_dec
entity_type_eq = record { dec = entity_type_dec }

-- jobs
pub record JobRow : Type 0 where
  pub state : JobState
  pub created_at : ℕ
  pub updated_at : ℕ

-- tasks: the columns that the code reads or changes
pub record TaskRow : Type 0 where
  pub state : JobState
  pub created_at : ℕ
  pub updated_at : ℕ

-- raw_captures
pub record CaptureRow : Type 0 where
  pub sha256 : Text
  pub source_url : Text
  pub collected_at : ℕ
  pub storage_path : Option Text
  pub byte_count : Option ℤ

-- groups
pub record GroupRow : Type 0 where
  pub canonical_url : Text
  pub observed_at : ℕ
  pub raw_capture_id : Text
  pub schema_version : Text
  pub payload_json : Text

-- posts
pub record PostRow : Type 0 where
  pub group_id : Text
  pub canonical_url : Text
  pub observed_at : ℕ
  pub raw_capture_id : Text
  pub schema_version : Text
  pub payload_json : Text

-- comments; `parent_comment_id` is NULL in every row
pub record CommentRow : Type 0 where
  pub post_id : Text
  pub group_id : Text
  pub observed_at : ℕ
  pub raw_capture_id : Text
  pub schema_version : Text
  pub payload_json : Text

-- counter_observations, in the order of `observation_id`
pub record CounterRow : Type 0 where
  pub entity_type : EntityType
  pub entity_id : Text
  pub metric : Text
  pub observed_at : ℕ
  pub value : ℕ
  pub raw_capture_id : Text

-- pagination_checkpoints
pub record CheckpointRow : Type 0 where
  pub task_id : Text
  pub interaction_number : ℕ
  pub checkpoint_id : Text
  pub raw_capture_id : Text
  pub cursor : Option Text

-- attempts
pub record AttemptRow : Type 0 where
  pub task_id : Text
  pub attempt_number : ℕ
  pub health : Text

-- failures
pub record FailureRow : Type 0 where
  pub task_id : Text
  pub attempt_number : ℕ
  pub failure_class : Text
  pub message : Text

-- session_profiles: the column that the workflow reads
pub record ProfileRow : Type 0 where
  pub session_class : Text

-- live_runs
pub record LiveRunRow : Type 0 where
  pub profile_id : Text
  pub campaign_id : Text
  pub group_id : Text
  pub canonical_url : Text
  pub lower_bound : ℕ
  pub adapter_version : Text

pub record Database : Type 0 where
  pub jobs : Dict Text JobRow
  pub tasks : Dict Text TaskRow
  pub raw_captures : Dict Text CaptureRow
  pub groups : Dict Text GroupRow
  pub posts : Dict Text PostRow
  pub comments : Dict Text CommentRow
  pub counters : List CounterRow
  pub checkpoints : List CheckpointRow
  pub attempts : List AttemptRow
  pub failures : List FailureRow
  -- discovery_campaigns, by the primary key
  pub campaigns : List Text
  pub profiles : Dict Text ProfileRow
  pub live_runs : Dict Text LiveRunRow

abbrev pub empty_database : Database
empty_database = record {
  jobs = [];
  tasks = [];
  raw_captures = [];
  groups = [];
  posts = [];
  comments = [];
  counters = [];
  checkpoints = [];
  attempts = [];
  failures = [];
  campaigns = [];
  profiles = [];
  live_runs = [];
}
