-- ===== src/Storage/Captures/Replay.antt =====
-- What a replay can rely on: a capture that `add` has accepted is found by `get`, with the hash
-- and the source that were given, and adding it once more changes nothing.
use fb_scraper.Prelude.{
  ℕ, ◌≡◌, ◌⊎◌, true, false, Option, none, some, [], Text, text_eq, option_eq, int_eq, ℤ, arith,
  refl, lower, ◌==◌,
}
use fb_scraper.Prelude.Dict.{lookup, lookup-insert_self}
use fb_scraper.Errors.{ok}
use fb_scraper.Storage.Tables.{aware, CaptureRow, Database}
use fb_scraper.Storage.Captures.{is_sha256, below_zero, is_consistent, add, get}

abbrev requested : Text → Text → ℕ → Option Text → Option ℤ → CaptureRow
requested sha256 source_url t storage_path byte_count = record {
  sha256 = lower sha256;
  source_url = source_url;
  collected_at = t;
  storage_path = storage_path;
  byte_count = byte_count;
}

is_consistent_sound :
    (row new : CaptureRow)
    → is_consistent row new ≡ true
    → (row.sha256 ≡ new.sha256)
      × (row.source_url ≡ new.source_url)
      × (((new.storage_path ≡ none) × (new.byte_count ≡ none))
          ⊎ ((row.storage_path ≡ new.storage_path) × (row.byte_count ≡ new.byte_count)))
unfolding is_consistent
is_consistent_sound row new h = ground arith

is_consistent_self :
    (sha256 source_url : Text) (t u : ℕ) (path : Option Text) (count : Option ℤ)
    → is_consistent
        (requested sha256 source_url t path count)
        (requested sha256 source_url u path count)
      ≡ true
unfolding is_consistent
is_consistent_self sha256 source_url t u path count = ground arith

module _ (capture_id sha256 source_url : Text) (t : ℕ) (storage_path : Option Text)
    (byte_count : Option ℤ) (db : Database) where
  accepted_by :
      (o : Option CaptureRow)
      → lookup capture_id db.raw_captures ≡ o
      → (add capture_id sha256 source_url (aware t) storage_path byte_count db).0 ≡ ok tt
      → (row : CaptureRow) × (lookup capture_id
            (add capture_id sha256 source_url (aware t) storage_path byte_count db).1.raw_captures
          ≡ some row)
        × (is_consistent row (requested sha256 source_url t storage_path byte_count) ≡ true)
        × (is_sha256 (lower sha256) ≡ true)
        × ((capture_id == []) ≡ false)
        × (below_zero byte_count ≡ false)
  unfolding add
  accepted_by none e h = (
    requested sha256 source_url t storage_path byte_count,
    ground (
      arith,
      lookup-insert_self capture_id (requested sha256 source_url t storage_path byte_count)
          db.raw_captures,
    ),
    is_consistent_self sha256 source_url t t storage_path byte_count,
    ground arith,
    ground arith,
    ground arith,
  )
  accepted_by (some row) e h =
      (row, ground arith, ground arith, ground arith, ground arith, ground arith)

  -- A capture that `add` accepts is found by `get` with the hash in lower case, the source and
  -- the storage place that were given, if any was given; the hash has 64 hexadecimal digits.
  pub get-add :
      (add capture_id sha256 source_url (aware t) storage_path byte_count db).0 ≡ ok tt
      → (row : CaptureRow) × (get capture_id
            (add capture_id sha256 source_url (aware t) storage_path byte_count db).1
          ≡ (ok row, (add capture_id sha256 source_url (aware t) storage_path byte_count db).1))
        × (row.sha256 ≡ lower sha256)
        × (row.source_url ≡ source_url)
        × (((storage_path ≡ none) × (byte_count ≡ none))
            ⊎ ((row.storage_path ≡ storage_path) × (row.byte_count ≡ byte_count)))
        × (is_sha256 row.sha256 ≡ true)
  unfolding get
  get-add h =
      let (row, found, same, valid, _, _) = accepted_by _ refl h in
      let c = is_consistent_sound row _ same in (row, rw found, c.0, c.1, c.2, rw c.0 valid)

  -- A row that agrees with what is added is left as it is.
  unchanged :
      (row : CaptureRow) (u : ℕ) (t' : Database)
      → lookup capture_id t'.raw_captures ≡ some row
      → is_consistent row (requested sha256 source_url t storage_path byte_count) ≡ true
      → is_sha256 (lower sha256) ≡ true
      → (capture_id == []) ≡ false
      → below_zero byte_count ≡ false
      → add capture_id sha256 source_url (aware u) storage_path byte_count t' ≡ (ok tt, t')
  unfolding add is_consistent
  unchanged row u t' e same valid nonempty counted = rw (nonempty, valid, counted, e) (rw same)

  -- Adding an accepted capture once more, at any later time, returns and changes nothing.
  pub add-add :
      (u : ℕ)
      → (add capture_id sha256 source_url (aware t) storage_path byte_count db).0 ≡ ok tt
      → add capture_id sha256 source_url
          (aware u)
          storage_path
          byte_count
          (add capture_id sha256 source_url (aware t) storage_path byte_count db).1
        ≡ (ok tt, (add capture_id sha256 source_url (aware t) storage_path byte_count db).1)
  add-add u h =
      let (row, found, same, valid, nonempty, counted) = accepted_by _ refl h in
      unchanged row u _ found same valid nonempty counted
