-- ===== src/Retention.antt =====
-- `RetentionService` of retention.py. Instants are microseconds from the first one that `datetime`
-- has, so a cutoff before it is an OverflowError. The raw directory holds its files by their names.
pub mod Predicted
pub mod Removed
use fb_scraper.Prelude.{
  ℕ, ◌+◌, ◌-◌, ◌*◌, Bool, true, false, not, ◌&&◌, ◌||◌, Option, none, some, List, [], ◌∷◌, ◌++◌,
  Text, text, text_eq, nat_eq, ◌==◌, any, all, filter, length, leb, ltb, if◌then◌else◌,
}
use fb_scraper.Prelude.Dict.{Dict, lookup}
use fb_scraper.Errors.{
  Result, ok, err, value_error, integrity_error, retention_error, overflow_error,
}
use fb_scraper.Exec.{
  Exec, pure, raise, gets, of_result, modify, raise_if, transaction, continue, settle, ◌>>=◌, ◌>>◌,
}
use fb_scraper.Storage.Tables.{
  Database, CaptureRow, CounterRow, EntityType, group, post, comment, entity_type_eq,
}

-- `CleanupReceipt`
pub record CleanupReceipt : Type 0 where
  pub category : Text
  pub cutoff_at : ℕ
  pub deleted_count : ℕ
  pub dry_run : Bool

-- The tables of the other modules, `cleanup_receipts`, and the files of the raw directory
pub record Store : Type 0 where
  pub database : Database
  pub receipts : List CleanupReceipt
  pub raw_files : Dict Text Text

abbrev pub is_digit : ℕ → Bool
is_digit c = leb b'0' c && leb c b'9'

abbrev pub digits_value : ℕ → Text → ℕ
digits_value n [] = n
digits_value n (c ∷ s) = digits_value (n * 10 + (c - b'0')) s

-- `int(...)` of digits, of which Python reads 4300
abbrev pub int_of_digits : Text → Result ℕ
int_of_digits s = if ltb 4300 (length s) then err value_error else ok (digits_value 0 s)

-- `([1-9][0-9]*)d`, the digits
abbrev pub split_d : Text → Option Text
split_d [] = none
split_d (c ∷ []) = if c == b'd' then some [] else none
split_d (c ∷ d ∷ s) = elim (split_d (d ∷ s)) [ none ↦ none | some ds ↦ some (c ∷ ds) ]

abbrev pub is_days : Text → Bool
is_days [] = false
is_days (c ∷ s) = (leb b'1' c && leb c b'9') && all is_digit s

abbrev pub microseconds : ℕ
microseconds = 86400000000

-- `timedelta(days=...)`
abbrev pub days_of : Result ℕ → Result ℕ
days_of (err e) = err e
days_of (ok n) = if ltb 999999999 n then err overflow_error else ok (n * microseconds)

abbrev pub matched_days : Option Text → Result ℕ
matched_days none = err retention_error
matched_days (some ds) = if is_days ds then days_of (int_of_digits ds) else err retention_error

-- `_duration`
unfoldable pub duration : Text → Result ℕ
duration value = matched_days (split_d value)

-- `current - ...`
abbrev pub before : ℕ → ℕ → Result ℕ
before current span = if ltb current span then err overflow_error else ok (current - span)

-- `observed_at < ?`
abbrev pub is_old : ℕ → ℕ → Bool
is_old cutoff observed_at = ltb observed_at cutoff

-- The rows of a table with and without those before the cutoff
module _ {V : Type 0} (observed_at : V → ℕ) (cutoff : ℕ) where
  abbrev pub old : Dict Text V → Dict Text V
  old = filter (λ (k, v). is_old cutoff (observed_at v))

  abbrev pub kept : Dict Text V → Dict Text V
  kept = filter (λ (k, v). not (is_old cutoff (observed_at v)))

  -- A key that the table has, of a row before the cutoff
  unfoldable pub is_old_key : Text → Dict Text V → Bool
  unfolding lookup
  is_old_key k d = elim (lookup k d) [ none ↦ false | some v ↦ is_old cutoff (observed_at v) ]

module _ (cutoff : ℕ) where
  abbrev pub old_captures : Database → List Text
  old_captures db = paths db.raw_captures
    where
      paths : Dict Text CaptureRow → List Text
      paths [] = []
      paths ((k, row) ∷ d) =
          let rest = paths d in
          elim row.storage_path [
            | none ↦ rest
            | some path ↦ if is_old cutoff row.collected_at then path ∷ rest else rest
          ]

  -- DELETE FROM counter_observations WHERE entity_type = ? AND observed_at < ?
  unfoldable pub delete_counters : EntityType → Exec Store (Unit {0})
  delete_counters entity = modify (λ s. record s {
    database = record s.database {
      counters =
          filter (λ c. not ((c.entity_type == entity) && is_old cutoff c.observed_at))
            s.database.counters;
    };
  })

  abbrev pub without_comments : Store → Store
  without_comments s = record s {
    database = record s.database {
      comments = kept (λ c. c.observed_at) cutoff s.database.comments;
    };
  }

  -- A comment that is left refers to a post that goes
  abbrev pub holds_posts : Store → Bool
  holds_posts s =
      any (λ (k, c). is_old_key (λ p. p.observed_at) cutoff c.post_id s.database.posts)
        s.database.comments

  abbrev pub without_posts : Store → Store
  without_posts s = record s {
    database = record s.database { posts = kept (λ p. p.observed_at) cutoff s.database.posts };
  }

  -- A comment or a post that is left refers to a group that goes
  abbrev pub holds_groups : Store → Bool
  holds_groups s =
      any (λ (k, c). is_old_key (λ g. g.observed_at) cutoff c.group_id s.database.groups)
        s.database.comments
      || any (λ (k, p). is_old_key (λ g. g.observed_at) cutoff p.group_id s.database.groups)
          s.database.posts

  abbrev pub without_groups : Store → Store
  without_groups s = record s {
    database = record s.database { groups = kept (λ g. g.observed_at) cutoff s.database.groups };
  }

  -- The deletions of `_clean_normalized`, in one transaction
  unfoldable pub delete_normalized : Exec Store (Unit {0})
  unfolding delete_counters is_old_key
  delete_normalized = transaction (do
    delete_counters comment
    modify without_comments
    delete_counters post
    held ← gets holds_posts
    raise_if held integrity_error
    modify without_posts
    delete_counters group
    still_held ← gets holds_groups
    raise_if still_held integrity_error
    modify without_groups)

  -- The sum of the three counts
  abbrev pub old_count : Database → ℕ
  old_count db =
      length (old (λ c. c.observed_at) cutoff db.comments)
      + length (old (λ p. p.observed_at) cutoff db.posts)
      + length (old (λ g. g.observed_at) cutoff db.groups)

-- `_record`
unfoldable pub record_receipt : CleanupReceipt → Exec Store CleanupReceipt
record_receipt r = modify (λ s. record s { receipts = s.receipts ++ (r ∷ []) }) >> pure r

abbrev pub receipt : Text → ℕ → Bool → ℕ → CleanupReceipt
receipt category cutoff dry_run count = record {
  category = category;
  cutoff_at = cutoff;
  deleted_count = count;
  dry_run = dry_run;
}

-- `_clean_normalized`
unfoldable pub clean_normalized : ℕ → Bool → Exec Store CleanupReceipt
unfolding delete_normalized record_receipt
clean_normalized cutoff dry_run = do
  count ← gets (λ s. old_count cutoff s.database)
  if dry_run then pure tt else delete_normalized cutoff
  record_receipt (receipt (text "normalized") cutoff dry_run count)

-- `_raw_path`: the name of a path in the raw directory, when it is one
module _ (raw_name : Text → Option Text) where
  abbrev pub raw_paths : List Text → Result (List Text)
  raw_paths [] = ok []
  raw_paths (path ∷ paths) = elim (raw_name path) [
    | none ↦ err retention_error
    | some name ↦ elim (raw_paths paths) [ err e ↦ err e | ok names ↦ ok (name ∷ names) ]
  ]

  abbrev pub unlink : Text → Store → Store
  unlink name s = record s { raw_files = filter (λ (k, v). not (k == name)) s.raw_files }

  unfoldable pub unlink_all : List Text → Exec Store (Unit {0})
  unlink_all [] = pure tt
  unlink_all (name ∷ names) = modify (unlink name) >> unlink_all names

  -- `_clean_raw`
  unfoldable pub clean_raw : ℕ → Bool → Exec Store CleanupReceipt
  unfolding unlink_all record_receipt
  clean_raw cutoff dry_run = do
    paths ← gets (λ s. old_captures cutoff s.database)
    names ← of_result (raw_paths paths)
    if dry_run then pure tt else unlink_all names
    record_receipt (receipt (text "raw") cutoff dry_run (length names))

  -- `clean`, at the instant `now`
  unfoldable pub clean : ℕ → Text → Text → Bool → Exec Store (CleanupReceipt × CleanupReceipt)
  unfolding duration clean_raw clean_normalized
  clean now raw_older_than normalized_older_than dry_run = do
    raw_span ← of_result (duration raw_older_than)
    raw_cutoff ← of_result (before now raw_span)
    normalized_span ← of_result (duration normalized_older_than)
    normalized_cutoff ← of_result (before now normalized_span)
    raw ← clean_raw raw_cutoff dry_run
    normalized ← clean_normalized normalized_cutoff dry_run
    pure (raw, normalized)
