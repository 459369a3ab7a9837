-- ===== src/Contracts.antt =====
-- The normalized records of contracts/models.py, with the fields that the storage and the
-- workflows read; `details` stands for the others, which they pass on. The JSON form of a record
-- is pydantic's: an interface with the round trip that the storage relies on.
pub mod Validators
use fb_scraper.Prelude.{ℕ, ◌≡◌, Option, some, Text}
use fb_scraper.Prelude.Dict.{Dict}

pub record GroupRecord : Type 0 where
  pub group_id : Text
  pub canonical_url : Text
  pub member_count : Option ℕ
  pub observed_at : ℕ
  pub collected_at : ℕ
  pub raw_capture_id : Text
  pub raw_sha256 : Text
  pub schema_version : Text
  pub details : Text

pub record PostRecord : Type 0 where
  pub post_id : Text
  pub group_id : Text
  pub canonical_url : Text
  pub published_at : Option ℕ
  pub observed_at : ℕ
  pub reactions : Dict Text ℕ
  pub comments_count : ℕ
  pub shares_count : ℕ
  pub raw_capture_id : Text
  pub schema_version : Text
  pub details : Text

pub record CommentRecord : Type 0 where
  pub comment_id : Text
  pub post_id : Text
  pub group_id : Text
  pub observed_at : ℕ
  pub reactions : Dict Text ℕ
  pub raw_capture_id : Text
  pub schema_version : Text
  pub details : Text

-- `model_dump_json` and `model_validate_json`
pub record RecordJson : Type 0 where
  pub dump_group : GroupRecord → Text
  pub dump_post : PostRecord → Text
  pub dump_comment : CommentRecord → Text
  pub read_group : Text → Option GroupRecord
  pub read_post : Text → Option PostRecord
  pub read_comment : Text → Option CommentRecord
  pub read-dump_group : (r : GroupRecord) → read_group (dump_group r) ≡ some r
  pub read-dump_post : (r : PostRecord) → read_post (dump_post r) ≡ some r
  pub read-dump_comment : (r : CommentRecord) → read_comment (dump_comment r) ≡ some r
