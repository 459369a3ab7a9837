-- ===== src/Storage/LiveRuns.antt =====
-- `LiveRunRepository` of storage/live_runs.py.
pub mod Existing
use fb_scraper.Prelude.{
  ℕ, Bool, true, false, not, ◌&&◌, ◌||◌, Option, none, some, List, [], ◌∷◌, Text, text, text_eq,
  lower, ◌==◌, any, contains, filter, if◌then◌else◌,
}
use fb_scraper.Prelude.Dict.{Dict, lookup, insert, has}
use fb_scraper.Errors.{ok, err, value_error, index_error, integrity_error, live_run_not_found}
use fb_scraper.Exec.{Exec, pure, raise, gets, or_raise, transaction, modify, raise_if, ◌>>=◌, ◌>>◌}
use fb_scraper.Storage.Tables.{DateTime, LiveRunRow, Database}
use fb_scraper.Storage.Captures.{timestamp}
use fb_scraper.Platform.{Platform}

-- `SelectedTarget`, with the fields that are read here
pub record SelectedTarget : Type 0 where
  pub campaign_id : Text
  pub group_id : Text
  pub canonical_url : Text

-- The names of the columns, as `sqlite3.Row` looks them up: without regard to case
abbrev pub columns : List Text
columns =
    text "job_id"
    ∷ text "profile_id"
    ∷ text "campaign_id"
    ∷ text "group_id"
    ∷ text "canonical_url"
    ∷ text "lower_bound"
    ∷ text "adapter_version"
    ∷ []

unfoldable pub is_column : Text → Bool
is_column key = contains columns (lower key)

-- UNIQUE(profile_id, campaign_id)
abbrev pub is_taken : Text → Text → Dict Text LiveRunRow → Bool
is_taken profile_id campaign_id runs =
    any (λ (_, row). (row.profile_id == profile_id) && (row.campaign_id == campaign_id)) runs

abbrev pub same_texts : List Text → List Text → Bool
same_texts [] [] = true
same_texts [] (y ∷ ys) = false
same_texts (x ∷ xs) [] = false
same_texts (x ∷ xs) (y ∷ ys) = (x == y) && same_texts xs ys

-- `get`
unfoldable pub get_run : Text → Exec Database LiveRunRow
get_run job_id = do row ← gets (λ db. lookup job_id db.live_runs); or_raise row live_run_not_found

module _ (platform : Platform) where
  -- The columns of the row with their values, in order
  abbrev pub named_values : Text → LiveRunRow → Dict Text Text
  named_values job_id row =
      (text "job_id", job_id)
      ∷ (text "profile_id", row.profile_id)
      ∷ (text "campaign_id", row.campaign_id)
      ∷ (text "group_id", row.group_id)
      ∷ (text "canonical_url", row.canonical_url)
      ∷ (text "lower_bound", platform.isoformat row.lower_bound)
      ∷ (text "adapter_version", row.adapter_version)
      ∷ []

  -- `expected`, and the values of the row after the first one
  abbrev pub expected : LiveRunRow → List Text
  expected row =
      row.profile_id
      ∷ row.campaign_id
      ∷ row.group_id
      ∷ row.canonical_url
      ∷ platform.isoformat row.lower_bound
      ∷ row.adapter_version
      ∷ []

  -- What the iteration over a `sqlite3.Row` gives: its values
  abbrev pub row_values : Text → LiveRunRow → List Text
  row_values job_id row = job_id ∷ expected row

  -- `row[key]`: `none` is the IndexError of a name that is no column
  abbrev pub row_get : Text → LiveRunRow → Text → Option Text
  row_get job_id row key =
      if is_column key then lookup (lower key) (named_values job_id row) else none

  -- `tuple(row[key] for key in keys)`
  abbrev pub row_tuple : Text → LiveRunRow → List Text → Option (List Text)
  row_tuple job_id row [] = some []
  row_tuple job_id row (key ∷ keys) =
      let rest = row_tuple job_id row keys in
      elim (row_get job_id row key) [
        | none ↦ none
        | some value ↦ elim rest [ none ↦ none | some values ↦ some (value ∷ values) ]
      ]

  -- The two branches on the row that the SELECT finds
  abbrev pub create_row : Text → LiveRunRow → Option LiveRunRow → Exec Database (Unit {0})
  create_row job_id new none = do
    raise_if
        (← gets (λ db.
          not (
            has job_id db.jobs
            && (has new.profile_id db.profiles && contains db.campaigns new.campaign_id))
          || is_taken new.profile_id new.campaign_id db.live_runs))
        integrity_error
    modify (λ db. record db { live_runs = insert job_id new db.live_runs })
  create_row job_id new (some row) = do
    actual ←
        or_raise
          (row_tuple job_id row
            (filter (λ key. not (key == text "job_id")) (row_values job_id row)))
          index_error
    raise_if (not (same_texts actual (expected new))) value_error

  -- `create`
  unfoldable pub create_run :
      Text → Text → SelectedTarget → DateTime → Text → Exec Database LiveRunRow
  unfolding get_run is_column
  create_run job_id profile_id selected lower_bound adapter_version = do
    bound ← or_raise (timestamp lower_bound) value_error
    transaction (
        gets (λ db. lookup job_id db.live_runs)
        >>= create_row job_id (record {
          profile_id = profile_id;
          campaign_id = selected.campaign_id;
          group_id = selected.group_id;
          canonical_url = selected.canonical_url;
          lower_bound = bound;
          adapter_version = adapter_version;
        }))
    get_run job_id
