-- ===== src/Storage/LiveRuns/Existing.antt =====
-- What `create` does with a run that is there already.
use fb_scraper.Prelude.{
  ◌≡◌, ◌≢◌, ◌∙◌, refl, sym, ap, Bool, true, false, not, none, some, List, ◌∷◌, Text, text, text_eq,
  lower, ◌==◌, filter, arith,
}
use fb_scraper.Prelude.Dict.{lookup}
use fb_scraper.Errors.{Error, err, index_error, value_error}
use fb_scraper.Storage.Tables.{DateTime, aware, naive, LiveRunRow, Database}
use fb_scraper.Storage.LiveRuns.{
  SelectedTarget, is_column, row_tuple, row_values, expected, create_row, create_run,
}
use fb_scraper.Platform.{Platform}

-- A name that is no column stops the tuple.
first_key :
    (platform : Platform) (job_id : Text) (row : LiveRunRow) (key : Text) (keys : List Text)
    → is_column key ≡ false
    → row_tuple platform job_id row (key ∷ keys) ≡ none
first_key platform job_id row key keys h = rw (row_tuple, h) refl

first_kept :
    (job_id : Text) (keys : List Text)
    → job_id ≢ text "job_id"
    → filter (λ key. not (key == text "job_id")) (job_id ∷ keys)
      ≡ job_id ∷ filter (λ key. not (key == text "job_id")) keys
first_kept job_id keys n = ground arith

job_id_column : is_column (text "job_id") ≡ true
unfolding is_column text_eq lower
job_id_column = refl

no_tuple :
    (platform : Platform) (job_id : Text) (row : LiveRunRow)
    → is_column job_id ≡ false
    → row_tuple platform job_id row
        (filter (λ key. not (key == text "job_id")) (row_values platform job_id row))
      ≡ none
no_tuple platform job_id row c =
    ap (row_tuple platform job_id row) (first_kept job_id (expected platform row) other)
    ∙ first_key platform job_id row job_id
        (filter (λ key. not (key == text "job_id")) (expected platform row)) c
  where
    true_ne_false : ◌≡◌ {A = Bool} true false → ⊥
    true_ne_false p = cc

    other : job_id ≢ text "job_id"
    other p = true_ne_false (sym job_id_column ∙ ap is_column (sym p) ∙ c)

refused :
    (platform : Platform) (job_id : Text) (new row : LiveRunRow) (db : Database)
    → is_column job_id ≡ false
    → create_row platform job_id new (some row) db ≡ (err index_error, db)
refused platform job_id new row db c = rw (no_tuple platform job_id row c) refl

-- What a second create raises: a lower bound without a zone is refused first
abbrev pub refusal : DateTime → Error
refusal (aware bound) = index_error
refusal (naive bound) = value_error

-- A job whose identifier is no name of a column, and whose run is there, cannot be created again,
-- with the same arguments or others: `create` raises an IndexError when the lower bound has a time
-- zone and a ValueError when it has none, and changes nothing.
pub create_run-existing :
    (platform : Platform) (job_id profile_id : Text) (selected : SelectedTarget)
    (lower_bound : DateTime) (adapter_version : Text) (db : Database) (row : LiveRunRow)
    → is_column job_id ≡ false
    → lookup job_id db.live_runs ≡ some row
    → create_run platform job_id profile_id selected lower_bound adapter_version db
      ≡ (err (refusal lower_bound), db)
unfolding create_run
create_run-existing platform job_id profile_id selected (naive bound) adapter_version db row c e =
    refl
create_run-existing platform job_id profile_id selected (aware bound) adapter_version db row c e =
    rw e (rw (refused platform job_id new row db c) refl)
  where
    new : LiveRunRow
    new = record {
      profile_id = profile_id;
      campaign_id = selected.campaign_id;
      group_id = selected.group_id;
      canonical_url = selected.canonical_url;
      lower_bound = bound;
      adapter_version = adapter_version;
    }
