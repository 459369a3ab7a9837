-- ===== src/Targets/Candidates.antt =====
-- The candidates that targets/preparation.py makes from a Group URL. The identifiers of `uuid4` are
-- arguments.
use fb_scraper.Prelude.{
  ℕ, Bool, not, ◌&&◌, ◌||◌, Option, none, some, List, [], ◌∷◌, ◌++◌, Text, text, text_eq, nat_eq,
  ◌==◌, any, contains, filter, lower, if◌then◌else◌,
}
use fb_scraper.Prelude.Dict.{insert, has}
use fb_scraper.Errors.{integrity_error, type_error, target_preparation_error}
use fb_scraper.Exec.{Exec, pure, gets, or_raise, transaction, modify, raise_if, ◌>>=◌, ◌>>◌}
use fb_scraper.Targets.{
  MembershipState, joined, Tables, TargetCandidate, Selected, select, is_known,
}
use fb_scraper.Platform.{Platform}

-- `path.split("/")` without the empty parts: the part that is being read, and those after it
abbrev pub close_part : Text → List Text → List Text
close_part [] parts = parts
close_part (c ∷ s) parts = (c ∷ s) ∷ parts

abbrev pub split_path : Text → Text × List Text
split_path [] = ([], [])
split_path (c ∷ s) =
    let (part, parts) = split_path s in
    if c == b'/' then ([], close_part part parts) else (c ∷ part, parts)

abbrev pub path_parts : Text → List Text
path_parts path = let (part, parts) = split_path path in close_part part parts

-- `group_id.replace("-", "").replace("_", "")`
abbrev pub bare_id : Text → Text
bare_id group_id = filter (λ c. not ((c == b'-') || (c == b'_'))) group_id

module _ (platform : Platform) where
  -- The tests on the parts of the path
  abbrev pub group_of_parts : Text → List Text → Option (Text × Text)
  group_of_parts netloc (first ∷ group_id ∷ []) =
      if (first == text "groups") && platform.isalnum (bare_id group_id)
      then some (text "https://" ++ (lower netloc ++ (text "/groups/" ++ group_id)), group_id)
      else none
  group_of_parts netloc _ = none

  -- `_normalize_group_url`: `none` is the exception
  unfoldable pub normalize_group_url : Text → Option (Text × Text)
  normalize_group_url url =
      if ((platform.urlsplit url).scheme == text "https")
        && not ((platform.urlsplit url).netloc == [])
      then group_of_parts (platform.urlsplit url).netloc (path_parts (platform.urlsplit url).path)
      else none

  -- `_candidate`
  unfoldable pub candidate :
      Text → Text → Option Text → Text → ℕ → MembershipState → Exec Tables TargetCandidate
  unfolding normalize_group_url
  candidate uuid url name source rank membership = do
    (canonical_url, group_id) ← or_raise (normalize_group_url url) target_preparation_error
    pure (record {
      candidate_id = uuid;
      group_id = group_id;
      canonical_url = canonical_url;
      name = name;
      source = source;
      rank = rank;
      membership = membership;
    })

  -- `_create_campaign`
  unfoldable pub create_campaign : Text → Exec Tables Text
  create_campaign uuid = do
    transaction (do
      raise_if (← gets (λ db. contains db.campaigns uuid)) integrity_error
      modify (λ db. record db { campaigns = uuid ∷ db.campaigns }))
    pure uuid

  -- The primary key, the unique index, the trigger and the CHECK on the rank
  abbrev pub is_refused : Text → TargetCandidate → Option Text → Tables → Bool
  is_refused campaign_id item raw_capture_id db =
      has item.candidate_id db.hits
      || (any (λ (_, row). (row.campaign_id == campaign_id) && (row.group_id == item.group_id))
            db.hits
          || (not (contains (text "discovery" ∷ text "direct_url" ∷ text "csv" ∷ []) item.source)
              || ((item.rank == 0) || not (is_known raw_capture_id db.captures))))

  -- `_add_candidate`; a campaign without a query makes `fetchone()[0]` raise a TypeError
  unfoldable pub add_candidate :
      Text
      → Text
      → Text
      → Option Text
      → Text
      → ℕ
      → Option Text
      → MembershipState
      → Exec Tables TargetCandidate
  unfolding candidate
  add_candidate uuid campaign_id url name source rank raw_capture_id membership = do
    item ← candidate uuid url name source rank membership
    raise_if (← gets (λ db. not (contains db.campaigns campaign_id))) type_error
    transaction (do
      raise_if (← gets (λ db. is_refused campaign_id item raw_capture_id db)) integrity_error
      modify (λ db. record db {
        hits =
            insert item.candidate_id
              (record {
                campaign_id = campaign_id;
                group_id = item.group_id;
                canonical_url = item.canonical_url;
                name = item.name;
                source = item.source;
                rank = item.rank;
                membership_state = item.membership;
              })
              db.hits;
      }))
    pure item

  -- `add_url`
  unfoldable pub add_url : Text → Text → Text → Text → Exec Tables Selected
  unfolding candidate create_campaign add_candidate
  add_url discarded campaign_uuid candidate_uuid url = do
    candidate discarded url none (text "direct_url") 1 joined
    campaign ← create_campaign campaign_uuid
    item ← add_candidate candidate_uuid campaign url none (text "direct_url") 1 none joined
    select campaign item.candidate_id
