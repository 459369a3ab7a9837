-- ===== src/Storage/Canonical.antt =====
-- `CanonicalRepository` of storage/repositories.py, over the JSON interface of the records. The
-- foreign keys of migration 001 are checked where a table is written.
pub mod Puts
pub mod Forward
pub mod Roundtrip
use mathlib.Core.Option
use fb_scraper.Prelude.{
  ℕ, Bool, not, ◌&&◌, ◌||◌, Option, none, some, List, [], ◌∷◌, ◌++◌, Text, text, text_eq, nat_eq,
  ◌==◌, ltb, any, map, text_leb, if◌then◌else◌,
}
use fb_scraper.Prelude.Dict.{Dict, lookup, insert, has}
use fb_scraper.Prelude.Sort.{sorted}
use fb_scraper.Contracts.{GroupRecord, PostRecord, CommentRecord, RecordJson}
use fb_scraper.Errors.{
  Result, ok, err, integrity_error, canonical_identity_conflict, stale_observation,
  observation_conflict, value_error,
}
use fb_scraper.Exec.{Exec, pure, raise, gets, or_raise, transaction, modify, raise_if, ◌>>=◌, ◌>>◌}
use fb_scraper.Storage.Tables.{
  EntityType, group, post, comment, GroupRow, PostRow, CommentRow, CounterRow, Database,
}
use fb_scraper.Storage.Counters.{save_counter, save_counters}

-- The columns that `_guard_current_record` selects; an identity column stands with the value
-- that is expected in it.
pub record Current : Type 0 where
  pub observed_at : ℕ
  pub payload_json : Text
  pub identity : List (Text × Text)

-- `_guard_current_record`
unfoldable pub guard_current_record : Option Current → ℕ → Text → Exec Database (Unit {0})
guard_current_record none observed_at payload_json = pure tt
guard_current_record (some row) observed_at payload_json = do
  raise_if (any (λ (actual, expected). not (actual == expected)) row.identity)
      canonical_identity_conflict
  raise_if (ltb observed_at row.observed_at) stale_observation
  raise_if ((observed_at == row.observed_at) && not (row.payload_json == payload_json))
      observation_conflict

-- `sorted(record.reactions.items())`, as the rows of the counters
abbrev pub reaction_rows : EntityType → Text → ℕ → Text → Dict Text ℕ → List CounterRow
reaction_rows entity_type entity_id observed_at raw_capture_id reactions =
    map
      (λ (reaction, value). record {
        entity_type = entity_type;
        entity_id = entity_id;
        metric = text "reaction:" ++ reaction;
        observed_at = observed_at;
        value = value;
        raw_capture_id = raw_capture_id;
      })
      (sorted (λ (a, _) (b, _). text_leb a b) reactions)

abbrev pub current_group : GroupRow → Current
current_group row = record {
  observed_at = row.observed_at;
  payload_json = row.payload_json;
  identity = [];
}

abbrev pub current_post : PostRecord → PostRow → Current
current_post r row = record {
  observed_at = row.observed_at;
  payload_json = row.payload_json;
  identity = (row.group_id, r.group_id) ∷ [];
}

abbrev pub current_comment : CommentRecord → CommentRow → Current
current_comment r row = record {
  observed_at = row.observed_at;
  payload_json = row.payload_json;
  identity = (row.post_id, r.post_id) ∷ (row.group_id, r.group_id) ∷ [];
}

-- The counter of `save_group`
abbrev pub group_counters : GroupRecord → Option ℕ → List CounterRow
group_counters r none = []
group_counters r (some member_count) =
    record {
      entity_type = group;
      entity_id = r.group_id;
      metric = text "member_count";
      observed_at = r.observed_at;
      value = member_count;
      raw_capture_id = r.raw_capture_id;
    }
    ∷ []

abbrev pub post_counter : PostRecord → Text → ℕ → CounterRow
post_counter r metric value = record {
  entity_type = post;
  entity_id = r.post_id;
  metric = metric;
  observed_at = r.observed_at;
  value = value;
  raw_capture_id = r.raw_capture_id;
}

-- The counters of `save_post`, in the order in which they are written
abbrev pub post_counters : PostRecord → List CounterRow
post_counters r =
    post_counter r (text "comments_count") r.comments_count
    ∷ post_counter r (text "shares_count") r.shares_count
    ∷ reaction_rows post r.post_id r.observed_at r.raw_capture_id r.reactions

-- The end of `get_group`, `get_post` and `get_comment`: a payload that does not validate raises.
abbrev pub parsed : {A : Type 0} → Option (Option A) → Exec Database (Option A)
parsed none = pure none
parsed (some r) = do value ← or_raise r value_error; pure (some value)

module _ (json : RecordJson) where
  -- The values of the upsert
  abbrev pub group_row : GroupRecord → GroupRow
  group_row r = record {
    canonical_url = r.canonical_url;
    observed_at = r.observed_at;
    raw_capture_id = r.raw_capture_id;
    schema_version = r.schema_version;
    payload_json = json.dump_group r;
  }

  -- The guard and the upsert of `save_group`
  unfoldable pub put_group : GroupRecord → Exec Database (Unit {0})
  unfolding guard_current_record
  put_group r = do
    row ← gets (λ db. lookup r.group_id db.groups)
    guard_current_record (Option.map current_group row) r.observed_at (json.dump_group r)
    raise_if (← gets (λ db. not (has r.raw_capture_id db.raw_captures))) integrity_error
    modify (λ db. record db { groups = insert r.group_id (group_row r) db.groups })

  -- `save_group`
  unfoldable pub save_group : GroupRecord → Exec Database (Unit {0})
  unfolding put_group
  save_group r = transaction (do put_group r; save_counters (group_counters r r.member_count))

  -- The values of the upsert
  abbrev pub post_row : PostRecord → PostRow
  post_row r = record {
    group_id = r.group_id;
    canonical_url = r.canonical_url;
    observed_at = r.observed_at;
    raw_capture_id = r.raw_capture_id;
    schema_version = r.schema_version;
    payload_json = json.dump_post r;
  }

  -- The guard and the upsert of `save_post`
  unfoldable pub put_post : PostRecord → Exec Database (Unit {0})
  unfolding guard_current_record
  put_post r = do
    row ← gets (λ db. lookup r.post_id db.posts)
    guard_current_record (Option.map (current_post r) row) r.observed_at (json.dump_post r)
    raise_if (← gets (λ db. not (has r.raw_capture_id db.raw_captures && has r.group_id db.groups)))
        integrity_error
    modify (λ db. record db { posts = insert r.post_id (post_row r) db.posts })

  -- `save_post`
  unfoldable pub save_post : PostRecord → Exec Database (Unit {0})
  unfolding put_post
  save_post r = transaction (do put_post r; save_counters (post_counters r))

  -- The values of the upsert
  abbrev pub comment_row : CommentRecord → CommentRow
  comment_row r = record {
    post_id = r.post_id;
    group_id = r.group_id;
    observed_at = r.observed_at;
    raw_capture_id = r.raw_capture_id;
    schema_version = r.schema_version;
    payload_json = json.dump_comment r;
  }

  -- The guard and the upsert of `save_comment`
  unfoldable pub put_comment : CommentRecord → Exec Database (Unit {0})
  unfolding guard_current_record
  put_comment r = do
    row ← gets (λ db. lookup r.comment_id db.comments)
    guard_current_record (Option.map (current_comment r) row) r.observed_at (json.dump_comment r)
    raise_if
        (← gets (λ db. not (
          has r.raw_capture_id db.raw_captures
          && (has r.post_id db.posts && has r.group_id db.groups))))
        integrity_error
    modify (λ db. record db { comments = insert r.comment_id (comment_row r) db.comments })

  -- `save_comment`
  unfoldable pub save_comment : CommentRecord → Exec Database (Unit {0})
  unfolding put_comment
  save_comment r = transaction (do
    put_comment r
    save_counters (reaction_rows comment r.comment_id r.observed_at r.raw_capture_id r.reactions))

  -- `get_group`
  unfoldable pub get_group : Text → Exec Database (Option GroupRecord)
  get_group group_id = do
    row ← gets (λ db. lookup group_id db.groups)
    parsed (Option.map (λ (r : GroupRow). json.read_group r.payload_json) row)

  -- `get_post`
  unfoldable pub get_post : Text → Exec Database (Option PostRecord)
  get_post post_id = do
    row ← gets (λ db. lookup post_id db.posts)
    parsed (Option.map (λ (r : PostRow). json.read_post r.payload_json) row)

  -- `get_comment`
  unfoldable pub get_comment : Text → Exec Database (Option CommentRecord)
  get_comment comment_id = do
    row ← gets (λ db. lookup comment_id db.comments)
    parsed (Option.map (λ (r : CommentRow). json.read_comment r.payload_json) row)
