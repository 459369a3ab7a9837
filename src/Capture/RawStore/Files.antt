-- ===== src/Capture/RawStore/Files.antt =====
-- A stored capture is written once, never changes and is read back.
use fb_scraper.Prelude.{
  ◌≡◌, ◌∙◌, true, Option, none, some, [], Text, text_eq, arith, refl, lower, lower_code, all, not,
  sym, ap, length, ◌==◌, ◌∷◌,
}
use fb_scraper.Prelude.Dict.{lookup, lookup-insert, lookup-insert_self}
use fb_scraper.Errors.{ok, raw_capture_integrity_error, value_error}
use fb_scraper.Exec.{gets, raise_if, pure, continue, ◌>>=◌, ◌>>◌}
use fb_scraper.Exec.Inversion.{bind_ok, guard_ok, return_ok}
use fb_scraper.Exec.Steps.{IsPreorder, Steps, steps_rules}
use fb_scraper.Storage.Captures.{is_hex, is_sha256}
use fb_scraper.Platform.{Platform}
use fb_scraper.Capture.RawStore.{Files, StoredRawCapture, file_name, read, write_file, write}

-- Every file of the first state is in the second one with the same bytes.
pub record KeepsFiles (s t : Files) : Type 0 where
  pub kept : (name bytes : Text) → lookup name s ≡ some bytes → lookup name t ≡ some bytes

pub KeepsFiles-preorder : IsPreorder KeepsFiles
KeepsFiles-preorder = record {
  rfl = λ s. record { kept = λ n b h. h };
  trans = λ s t u f g. record { kept = λ n b h. g.kept n b (f.kept n b h) };
}

-- The digits of a digest have no upper case.
lower-hex : (s : Text) → all is_hex s ≡ true → lower s ≡ s
unfolding lower lower_code
lower-hex [] h = refl
lower-hex (c ∷ s) h = ground (arith, lower-hex s)

lower-sha256 :
    (platform : Platform) (bytes : Text) → lower (platform.sha256 bytes) ≡ platform.sha256 bytes
unfolding is_sha256
lower-sha256 platform bytes =
    lower-hex (platform.sha256 bytes) (ground (arith, platform.sha256_hex bytes))

module _ (platform : Platform) where
  read-KeepsFiles : (id sha suffix : Text) → Steps KeepsFiles (read platform id sha suffix)
  unfolding read
  read-KeepsFiles id sha suffix = search (steps_rules, KeepsFiles-preorder) depth 8

  write_file-KeepsFiles :
      (id raw suffix : Text)
      → Steps KeepsFiles (gets (lookup (file_name id suffix)) >>= write_file platform id raw suffix)
  write_file-KeepsFiles id raw suffix = record {
    at = λ files. go files (lookup (file_name id suffix) files) refl;
  }
    where
      go :
          (files : Files) (o : Option Text)
          → lookup (file_name id suffix) files ≡ o
          → KeepsFiles files (write_file platform id raw suffix o files).1
      go files none e = record {
        kept = λ name bytes h.
            ground
              (arith, lookup-insert name (file_name id suffix) (platform.compress raw) files, h);
      }
      go files (some packed) e = (existing-KeepsFiles).at files
        where
          existing-KeepsFiles : Steps KeepsFiles (write_file platform id raw suffix (some packed))
          existing-KeepsFiles = search (steps_rules, KeepsFiles-preorder, read-KeepsFiles) depth 8

  -- Writing a capture, whether it returns or raises, changes no file that is there.
  pub write-KeepsFiles : (id raw suffix : Text) → Steps KeepsFiles (write platform id raw suffix)
  unfolding write
  write-KeepsFiles id raw suffix =
      search (steps_rules, KeepsFiles-preorder, write_file-KeepsFiles) depth 12

  read-packed :
      (id raw suffix packed : Text) (files : Files)
      → lookup (file_name id suffix) files ≡ some packed
      → platform.decompress packed ≡ some raw
      → read platform id (platform.sha256 raw) suffix files ≡ (ok raw, files)
  unfolding read
  read-packed id raw suffix packed files e d = ground (arith, lower-sha256 platform raw, e, d)

  -- A read that returns leaves the files as they are and gives what the file holds.
  read_ok :
      (id sha suffix packed : Text) (files : Files) (o : Option Text)
      → lookup (file_name id suffix) files ≡ some packed
      → platform.decompress packed ≡ o
      → {existing : Text} → (read platform id sha suffix files).0 ≡ ok existing
      → (platform.decompress packed ≡ some existing)
        × ((read platform id sha suffix files).1 ≡ files)
  unfolding read
  read_ok id sha suffix packed files none e d h = ground (arith, e, d, h)
  read_ok id sha suffix packed files (some raw) e d h = ground (arith, e, d, h)

  write_file-packed :
      (id raw suffix : Text) (files : Files) (o : Option Text)
      → lookup (file_name id suffix) files ≡ o
      → (write_file platform id raw suffix o files).0 ≡ ok tt
      → (packed : Text) × (lookup
            (file_name id suffix)
            (write_file platform id raw suffix o files).1
          ≡ some packed)
        × (platform.decompress packed ≡ some raw)
  write_file-packed id raw suffix files none e h = (
    platform.compress raw,
    lookup-insert_self (file_name id suffix) (platform.compress raw) files,
    platform.decompress-compress raw,
  )
  write_file-packed id raw suffix files (some packed) e h =
      let (existing, re, we) =
        bind_ok (read platform id (platform.sha256 raw) suffix)
          (λ existing. raise_if (not (existing == raw)) raw_capture_integrity_error) files h in
      same existing h we (
        read_ok id (platform.sha256 raw) suffix packed files (platform.decompress packed) e refl re)
    where
      same :
          (existing : Text)
          → (write_file platform id raw suffix (some packed) files).0 ≡ ok tt
          → write_file platform id raw suffix (some packed) files
            ≡ raise_if
                (not (existing == raw))
                raw_capture_integrity_error
                (read platform id (platform.sha256 raw) suffix files).1
          → (platform.decompress packed ≡ some existing)
            × ((read platform id (platform.sha256 raw) suffix files).1 ≡ files)
          → (packed : Text) × (lookup
                (file_name id suffix)
                (write_file platform id raw suffix (some packed) files).1
              ≡ some packed)
            × (platform.decompress packed ≡ some raw)
      same existing h we (d, k) = (packed, ground (arith, we, k, e), ground (arith, we, d, h))

  write_ok :
      (id raw suffix : Text) (files : Files) (stored : StoredRawCapture)
      → (write platform id raw suffix files).0 ≡ ok stored
      → ((write_file platform id raw suffix (lookup (file_name id suffix) files) files).0 ≡ ok tt)
        × (stored.sha256 ≡ platform.sha256 raw)
        × ((write platform id raw suffix files).1
            ≡ (write_file platform id raw suffix (lookup (file_name id suffix) files) files).1)
  unfolding write
  write_ok id raw suffix files stored h =
      let (wf, sha, same) =
        return_ok (write_file platform id raw suffix stored_bytes files).0
          (write_file platform id raw suffix stored_bytes files).1
          (sym (ap (λ p. p.0) passed) ∙ h) in
      (wf, sym (ap (λ (r : StoredRawCapture). r.sha256) sha), ap (λ p. p.1) passed ∙ same)
    where
      stored_bytes : Option Text
      stored_bytes = lookup (file_name id suffix) files

      passed :
          write platform id raw suffix files
          ≡ continue
              (λ _. pure (record {
                capture_id = id;
                sha256 = platform.sha256 raw;
                path = file_name id suffix;
                byte_count = length raw;
              }))
              (write_file platform id raw suffix stored_bytes files).0
              (write_file platform id raw suffix stored_bytes files).1
      passed =
          guard_ok (id == []) value_error
            ((gets (lookup (file_name id suffix)) >>= write_file platform id raw suffix) >> pure _)
            files h

  -- A capture that was written is read back by its own digest, in either case of its letters.
  pub read-write :
      (id raw suffix : Text) (files : Files) (stored : StoredRawCapture)
      → (write platform id raw suffix files).0 ≡ ok stored
      → read platform id stored.sha256 suffix (write platform id raw suffix files).1
        ≡ (ok raw, (write platform id raw suffix files).1)
  read-write id raw suffix files stored h =
      let (wf, sha, same) = write_ok id raw suffix files stored h in
      let (packed, e, d) =
        write_file-packed id raw suffix files (lookup (file_name id suffix) files) refl wf in
      ground (
        arith,
        sha,
        read-packed id raw suffix packed (write platform id raw suffix files).1
            (ap (lookup (file_name id suffix)) same ∙ e) d,
      )
