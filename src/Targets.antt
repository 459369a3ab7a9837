-- ===== src/Targets.antt =====
-- `TargetPreparationService` of targets/preparation.py: the candidates of a campaign, the join
-- that is planned for one of them and the target that is selected. Targets/Candidates has the rows
-- that are made from a URL; CSV files and pages are not modelled.
pub mod Selection
pub mod Candidates
use fb_scraper.Prelude.{
  ℕ, suc, Bool, true, false, not, ◌&&◌, ◌||◌, Option, none, some, List, [], ◌∷◌, ◌++◌, Text, text,
  text_eq, nat_eq, ◌==◌, any, leb, filter, map, contains, text_leb, if◌then◌else◌,
}
use fb_scraper.Prelude.Dict.{Dict, lookup, insert}
use fb_scraper.Prelude.Sort.{sorted}
use fb_scraper.Errors.{ok, err, value_error, integrity_error, target_preparation_error}
use fb_scraper.Exec.{Exec, pure, raise, gets, or_raise, transaction, modify, raise_if, ◌>>=◌, ◌>>◌}

-- discovery/parser.py, `MembershipState`
pub data MembershipState : Type 0 where
  joined join_available join_requested : MembershipState

abbrev pub is_joined : MembershipState → Bool
is_joined joined = true
is_joined _ = false

abbrev pub is_available : MembershipState → Bool
is_available join_available = true
is_available _ = false

-- candidate_hits, with the campaign of its query
pub record HitRow : Type 0 where
  pub campaign_id : Text
  pub group_id : Text
  pub canonical_url : Text
  pub name : Option Text
  pub source : Text
  pub rank : ℕ
  pub membership_state : MembershipState

-- membership_transitions, without its times
pub record TransitionRow : Type 0 where
  pub campaign_id : Text
  pub candidate_hit_id : Text
  pub group_id : Text
  pub state : Text
  pub confirmation_capture_id : Option Text
  pub telemetry_json : Text

-- The tables; selected_targets is a dict from its unique campaign to the candidate
pub record Tables : Type 0 where
  pub hits : Dict Text HitRow
  pub transitions : List TransitionRow
  pub selected : Dict Text Text
  pub captures : List Text
  -- discovery_campaigns, each with its one query
  pub campaigns : List Text

-- `TargetCandidate`
pub record TargetCandidate : Type 0 where
  pub candidate_id : Text
  pub group_id : Text
  pub canonical_url : Text
  pub name : Option Text
  pub source : Text
  pub rank : ℕ
  pub membership : MembershipState

-- `SelectedTarget`
pub record Selected : Type 0 where
  pub campaign_id : Text
  pub candidate_id : Text
  pub group_id : Text
  pub canonical_url : Text
  pub name : Option Text
  pub source : Text

-- `WHERE query.campaign_id = ? AND hit.hit_id = ?`
abbrev pub of_campaign : Text → Option HitRow → Option HitRow
of_campaign campaign_id none = none
of_campaign campaign_id (some row) = if row.campaign_id == campaign_id then some row else none

-- `_candidate_row`
unfoldable pub candidate_row : Text → Text → Exec Tables HitRow
candidate_row campaign_id candidate_id = do
  row ← gets (λ db. of_campaign campaign_id (lookup candidate_id db.hits))
  or_raise row target_preparation_error

-- `_target_candidate`
abbrev pub target_candidate : Text → HitRow → TargetCandidate
target_candidate hit_id row = record {
  candidate_id = hit_id;
  group_id = row.group_id;
  canonical_url = row.canonical_url;
  name = row.name;
  source = row.source;
  rank = row.rank;
  membership = row.membership_state;
}

abbrev pub selected_target : Text → Text → HitRow → Selected
selected_target campaign_id hit_id row = record {
  campaign_id = campaign_id;
  candidate_id = hit_id;
  group_id = row.group_id;
  canonical_url = row.canonical_url;
  name = row.name;
  source = row.source;
}

-- The INSERT of `plan_join`, with the two UNIQUE constraints; `telemetry_json` is the dumped dict
unfoldable pub plan_join : Text → Text → Text → Exec Tables TargetCandidate
unfolding candidate_row
plan_join campaign_id candidate_id telemetry_json = do
  row ← candidate_row campaign_id candidate_id
  raise_if (not (is_available row.membership_state)) target_preparation_error
  transaction (do
    raise_if
        (← gets (λ db.
          any (λ t. (t.campaign_id == campaign_id) || (t.candidate_hit_id == candidate_id))
            db.transitions))
        target_preparation_error
    modify (λ db. record db {
      transitions =
          db.transitions
          ++ (record {
            campaign_id = campaign_id;
            candidate_hit_id = candidate_id;
            group_id = row.group_id;
            state = text "planned";
            confirmation_capture_id = none;
            telemetry_json = telemetry_json;
          }
              ∷ []);
    }))
  pure (target_candidate candidate_id row)

-- `WHERE campaign_id = ? AND candidate_hit_id = ? AND state = 'planned'`
abbrev pub is_awaiting : Text → Text → TransitionRow → Bool
is_awaiting campaign_id candidate_id t =
    (t.campaign_id == campaign_id)
    && ((t.candidate_hit_id == candidate_id) && (t.state == text "planned"))

abbrev pub complete_row : Text → Text → Text → Option Text → Text → TransitionRow → TransitionRow
complete_row campaign_id candidate_id state confirmation telemetry_json t =
    if is_awaiting campaign_id candidate_id t
    then record t {
      state = state;
      confirmation_capture_id = confirmation;
      telemetry_json = telemetry_json;
    }
    else t

-- `UPDATE candidate_hits SET membership_state = 'joined' WHERE hit_id = ?`
abbrev pub confirm_hit : Text → Option HitRow → Tables → Tables
confirm_hit candidate_id none db = db
confirm_hit candidate_id (some row) db = record db {
  hits = insert candidate_id (record row { membership_state = joined }) db.hits;
}

-- The foreign key of the confirmation
abbrev pub is_known : Option Text → List Text → Bool
is_known none captures = true
is_known (some c) captures = contains captures c

-- `complete_join`; the UNIQUE constraints leave at most one row for the UPDATE
unfoldable pub complete_join : Text → Text → Text → Option Text → Text → Exec Tables TargetCandidate
unfolding candidate_row
complete_join campaign_id candidate_id state confirmation telemetry_json = do
  raise_if
      (not
        (contains (text "joined" ∷ text "pending" ∷ text "rejected" ∷ text "stopped" ∷ []) state))
      target_preparation_error
  candidate_row campaign_id candidate_id
  transaction (do
    raise_if (← gets (λ db. not (any (is_awaiting campaign_id candidate_id) db.transitions)))
        target_preparation_error
    raise_if (← gets (λ db. not (is_known confirmation db.captures))) integrity_error
    modify (λ db. record db {
      transitions =
          map (complete_row campaign_id candidate_id state confirmation telemetry_json)
            db.transitions;
    })
    modify (λ db.
        if state == text "joined"
        then confirm_hit candidate_id (lookup candidate_id db.hits) db
        else db))
  row ← candidate_row campaign_id candidate_id
  pure (target_candidate candidate_id row)

-- `attempted_join_group_ids`, with repetitions
abbrev pub attempted_join_group_ids : Tables → List Text
attempted_join_group_ids db = map (λ (t : TransitionRow). t.group_id) db.transitions

-- On the candidate that is selected already
abbrev pub select_from : Text → Text → HitRow → Option Text → Exec Tables Selected
select_from campaign_id candidate_id row none = do
  modify (λ db. record db { selected = insert campaign_id candidate_id db.selected })
  pure (selected_target campaign_id candidate_id row)
select_from campaign_id candidate_id row (some existing) = do
  raise_if (not (existing == candidate_id)) target_preparation_error
  pure (selected_target campaign_id candidate_id row)

-- `select`
unfoldable pub select : Text → Text → Exec Tables Selected
unfolding candidate_row
select campaign_id candidate_id = do
  row ← candidate_row campaign_id candidate_id
  raise_if (not (is_joined row.membership_state)) target_preparation_error
  gets (λ db. lookup campaign_id db.selected) >>= select_from campaign_id candidate_id row

-- `get_selected`: the join of the two tables
abbrev pub hit_of : Option Text → Tables → Option (Text × HitRow)
hit_of none db = none
hit_of (some hit_id) db = elim (lookup hit_id db.hits) [
  | none ↦ none
  | some row ↦ some (hit_id, row)
]

unfoldable pub get_selected : Text → Exec Tables Selected
get_selected campaign_id = do
  found ← gets (λ db. hit_of (lookup campaign_id db.selected) db)
  (hit_id, row) ← or_raise found target_preparation_error
  pure (selected_target campaign_id hit_id row)

-- `ORDER BY hit.rank, hit.group_id`
abbrev pub by_rank : Text × HitRow → Text × HitRow → Bool
by_rank (_, a) (_, b) =
    if a.rank == b.rank then text_leb a.group_id b.group_id else leb a.rank b.rank

abbrev pub take : {A : Type 0} → ℕ → List A → List A
take ℕ.zero xs = []
take (suc n) [] = []
take (suc n) (x ∷ xs) = x ∷ take n xs

-- `get_joined_candidates`
unfoldable pub get_joined_candidates : Text → ℕ → Exec Tables (List TargetCandidate)
unfolding sorted
get_joined_candidates campaign_id limit = do
  raise_if (not (leb 1 limit && leb limit 10)) value_error
  gets (λ db.
      map (λ (hit_id, row). target_candidate hit_id row)
        (take limit (
          sorted by_rank (
            filter
              (λ ((_, row) : Text × HitRow).
                (row.campaign_id == campaign_id) && is_joined row.membership_state)
              db.hits))))
