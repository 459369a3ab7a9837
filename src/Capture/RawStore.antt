-- ===== src/Capture/RawStore.antt =====
-- `GzipRawCaptureStore` of capture/raw_store.py: the files below the root by their names. The
-- temporary file of `_atomic_write` is renamed in one step, so a write is one update here.
pub mod Files
use fb_scraper.Prelude.{
  ℕ, Bool, not, Option, none, some, List, [], ◌++◌, Text, text, text_eq, ◌==◌, lower, length,
  if◌then◌else◌,
}
use fb_scraper.Prelude.Dict.{Dict, lookup, insert}
use fb_scraper.Errors.{Error, ok, value_error, zlib_error, raw_capture_integrity_error}
use fb_scraper.Exec.{Exec, pure, raise, gets, or_raise, modify, raise_if, ◌>>=◌, ◌>>◌}
use fb_scraper.Platform.{Platform}

abbrev pub Files : Type 0
Files = Dict Text Text

-- `StoredRawCapture`, with the name of the path
pub record StoredRawCapture : Type 0 where
  pub capture_id : Text
  pub sha256 : Text
  pub path : Text
  pub byte_count : ℕ

-- `f"{capture_id}{suffix}.gz"`
abbrev pub file_name : Text → Text → Text
file_name capture_id suffix = capture_id ++ (suffix ++ text ".gz")

module _ (platform : Platform) where
  -- `gzip.decompress(path.read_bytes())`: a missing file raises too
  abbrev pub unpacked : Option Text → Option Text
  unpacked none = none
  unpacked (some packed) = platform.decompress packed

  -- `read` catches OSError and EOFError; zlib.error goes through
  abbrev pub unpack_error : Option Text → Error
  unpack_error none = raw_capture_integrity_error
  unpack_error (some packed) =
      if platform.is_zlib_error packed then zlib_error else raw_capture_integrity_error

  -- `read`
  unfoldable pub read : Text → Text → Text → Exec Files Text
  read capture_id expected_sha256 suffix = do
    file ← gets (lookup (file_name capture_id suffix))
    raw_bytes ← or_raise (unpacked file) (unpack_error file)
    raise_if (not (platform.sha256 raw_bytes == lower expected_sha256)) raw_capture_integrity_error
    pure raw_bytes

  -- The two branches on `path.exists()`
  abbrev pub write_file : Text → Text → Text → Option Text → Exec Files (Unit {0})
  write_file capture_id raw_bytes suffix none =
      modify (insert (file_name capture_id suffix) (platform.compress raw_bytes))
  write_file capture_id raw_bytes suffix (some packed) = do
    existing ← read capture_id (platform.sha256 raw_bytes) suffix
    raise_if (not (existing == raw_bytes)) raw_capture_integrity_error

  -- `write`
  unfoldable pub write : Text → Text → Text → Exec Files StoredRawCapture
  unfolding read
  write capture_id raw_bytes suffix = do
    raise_if (capture_id == []) value_error
    (gets (lookup (file_name capture_id suffix)) >>= write_file capture_id raw_bytes suffix)
    pure (record {
      capture_id = capture_id;
      sha256 = platform.sha256 raw_bytes;
      path = file_name capture_id suffix;
      byte_count = length raw_bytes;
    })
