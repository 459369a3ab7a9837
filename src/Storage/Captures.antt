-- ===== src/Storage/Captures.antt =====
-- `RawCaptureMetadataRepository` and `_timestamp` of storage/repositories.py.
pub mod Immutable
pub mod Replay
use fb_scraper.Prelude.{
  ℕ, suc, Bool, true, false, ◌&&◌, ◌||◌, not, Option, none, some, List, [], ◌∷◌, Text, text_eq,
  nat_eq, option_eq, lower, ℤ, int_eq, is_negative, ◌==◌, leb, length, all, is_none, if◌then◌else◌,
}
use fb_scraper.Prelude.Dict.{lookup, insert}
use fb_scraper.Errors.{
  Error, Result, ok, err, repository_error, record_not_found, capture_metadata_conflict,
}
use fb_scraper.Exec.{Exec, raise, gets, or_raise, transaction, modify, raise_if, ◌>>=◌, ◌>>◌}
use fb_scraper.Storage.Tables.{DateTime, aware, naive, CaptureRow, Database}

-- `_timestamp`
abbrev pub timestamp : DateTime → Option ℕ
timestamp (aware t) = some t
timestamp (naive t) = none

abbrev pub is_hex : ℕ → Bool
is_hex c = (leb b'0' c && leb c b'9') || (leb b'a' c && leb c b'f')

-- `fullmatch(r"[0-9a-f]{64}", s)`
unfoldable pub is_sha256 : Text → Bool
is_sha256 s = length s == 64 && all is_hex s

-- `byte_count is not None and byte_count < 0`
abbrev pub below_zero : Option ℤ → Bool
below_zero none = false
below_zero (some n) = is_negative n

-- The CHECK constraints of the table
unfoldable pub row_allowed : CaptureRow → Bool
unfolding is_sha256
row_allowed row = is_sha256 row.sha256 && not (below_zero row.byte_count)

-- The `else` branch: the row is there and must not change.
unfoldable pub is_consistent : CaptureRow → CaptureRow → Bool
is_consistent row requested =
    ((requested.sha256 == row.sha256) && (requested.source_url == row.source_url))
    && ((is_none requested.storage_path && is_none requested.byte_count)
        || ((requested.storage_path == row.storage_path)
            && (requested.byte_count == row.byte_count)))

-- The body of the transaction, on the row that the SELECT finds
abbrev pub add_row : Text → CaptureRow → Option CaptureRow → Exec Database (Unit {0})
add_row capture_id requested none = do
  raise_if (not (row_allowed requested)) capture_metadata_conflict
  modify (λ db. record db { raw_captures = insert capture_id requested db.raw_captures })
add_row capture_id requested (some row) =
    raise_if (not (is_consistent row requested)) capture_metadata_conflict

-- `add`
unfoldable pub add :
    Text → Text → Text → DateTime → Option Text → Option ℤ → Exec Database (Unit {0})
unfolding row_allowed
add capture_id sha256 source_url collected_at storage_path byte_count = do
  raise_if (capture_id == []) capture_metadata_conflict
  raise_if (not (is_sha256 (lower sha256))) capture_metadata_conflict
  raise_if (below_zero byte_count) capture_metadata_conflict
  normalized_collected_at ← or_raise (timestamp collected_at) repository_error
  transaction (do
    row ← gets (λ db. lookup capture_id db.raw_captures)
    add_row capture_id
        (record {
          sha256 = lower sha256;
          source_url = source_url;
          collected_at = normalized_collected_at;
          storage_path = storage_path;
          byte_count = byte_count;
        })
        row)

-- `get`
unfoldable pub get : Text → Exec Database CaptureRow
get capture_id = do
  row ← gets (λ db. lookup capture_id db.raw_captures)
  or_raise row record_not_found
