-- ===== src/Platform.antt =====
-- What the code uses of the standard library beyond texts and lists, as an interface: SHA-256,
-- gzip, UTF-8, `urlsplit` and `str.casefold`. A byte string is the list of its bytes.
use fb_scraper.Prelude.{Bool, ℕ, ◌≡◌, true, Option, some, Text}
use fb_scraper.Storage.Captures.{is_sha256}

-- `urlsplit`: the parts that the code reads
pub record SplitUrl : Type 0 where
  pub scheme : Text
  pub netloc : Text
  pub path : Text

pub record Platform : Type 0 where
  -- `sha256(...).hexdigest()`
  pub sha256 : Text → Text
  -- a digest has 64 hexadecimal digits in lower case
  pub sha256_hex : (bytes : Text) → is_sha256 (sha256 bytes) ≡ true
  -- `gzip.compress(..., mtime=0)`, and `gzip.decompress`, which raises on other bytes: zlib.error
  -- when the compressed data is not valid, and otherwise OSError or EOFError
  pub compress : Text → Text
  pub decompress : Text → Option Text
  pub is_zlib_error : Text → Bool
  pub decompress-compress : (bytes : Text) → decompress (compress bytes) ≡ some bytes
  -- `str.encode()`
  pub encode : Text → Text
  pub urlsplit : Text → SplitUrl
  pub casefold : Text → Text
  -- `str.isalnum`
  pub isalnum : Text → Bool
  -- `str` of an integer, `repr` of a text
  pub str : ℕ → Text
  pub repr : Text → Text
  -- `datetime.isoformat` of an instant in UTC
  pub isoformat : ℕ → Text
