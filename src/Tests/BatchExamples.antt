-- ===== src/Tests/BatchExamples.antt =====
-- The theorems on the operator batch, on two targets.
use fb_scraper.Prelude.{
  ◌≡◌, refl, Bool, true, false, none, List, [], ◌∷◌, Text, text, text_eq, text_dec, nat_eq,
  option_eq, ◌==◌, map, strip, lower,
}
use native.Mathlib.Decide.{ℕ_discrete}
use fb_scraper.Prelude.Dict.{Dict, lookup, insert, has}
use fb_scraper.Prelude.Sort.{sorted}
use fb_scraper.Errors.{Result, ok, err, value_error}
use fb_scraper.Storage.Captures.{is_sha256}
use fb_scraper.Platform.{Platform}
use fb_scraper.Json.{Json, null, string, number, Builtins, missing, document, object, from_dict}
use fb_scraper.Workflows.OperatorBatch.{
  Target, Capture, GroupResult, Hashing, target_key, success, is_batch, ordered_targets,
}
use fb_scraper.Workflows.OperatorBatch.Resume.{
  Batch, identifier_payload, load_identifiers, previous, write_progress, write_receipt,
}
use fb_scraper.Workflows.OperatorBatch.Receipts.{as_dict, group_result}
use fb_scraper.Workflows.OperatorBatch.Results.{RunResult, Printing}
use fb_scraper.Workflows.OperatorBatch.Queue.{IsQueue, ordered_targets-IsQueue}
use fb_scraper.Workflows.OperatorBatch.Run.{
  Outcome, captured, interrupt, batch_stop, recoverable, Outside, run,
}
use fb_scraper.Workflows.OperatorBatch.Restored.{by_key, IsClean, IsClean-insert}
use fb_scraper.Workflows.OperatorBatch.Accepted.{IsRecorded}
use fb_scraper.Workflows.OperatorBatch.Order.{Queued}
use fb_scraper.Workflows.OperatorBatch.Reported.{run-Queued}
use fb_scraper.Workflows.OperatorBatch.Torn.{previous-write_progress, previous-write_receipt}
use fb_scraper.Workflows.OperatorBatch.Again.{IsClean-nil, resumes, resume_accepted}
use fb_scraper.Workflows.OperatorBatch.Results.{joined}
use fb_scraper.Tests.Instances.{plain_platform, digest, digest-hex}

abbrev other_digest : Text
other_digest = text "0000c44298fc1c149afbf4c8996fb92427ae41e4649b934ca495991b7852b855"

other_digest-hex : is_sha256 other_digest ≡ true
unfolding is_sha256 nat_eq ℕ_discrete
other_digest-hex = refl

-- A hash that tells two texts apart by their first code
abbrev choose_digest : Bool → Text
choose_digest true = digest
choose_digest false = other_digest

choose_digest-hex : (b : Bool) → is_sha256 (choose_digest b) ≡ true
choose_digest-hex true = digest-hex
choose_digest-hex false = other_digest-hex

abbrev is_first_code : Text → Bool
is_first_code [] = true
is_first_code (c ∷ t) = c == 97

abbrev batch_platform : Platform
batch_platform = record plain_platform {
  sha256 = λ bytes. choose_digest (is_first_code bytes);
  sha256_hex = λ bytes. choose_digest-hex (is_first_code bytes);
  urlsplit = λ u. record { scheme = text "HTTPS"; netloc = text "example.org"; path = u };
}

abbrev hashing : Hashing
hashing = record { platform = batch_platform; dumps = joined (text ",") }

abbrev target_a : Target
target_a = record { group_id = text "a"; canonical_url = text "https://example.org/groups/a" }

abbrev target_b : Target
target_b = record { group_id = text "b"; canonical_url = text "https://example.org/groups/b" }

in_order : ordered_targets hashing (target_b ∷ target_a ∷ []) ≡ ok (target_a ∷ target_b ∷ [])
unfolding ordered_targets is_batch target_key sorted text_eq text_dec ℕ_discrete strip lower nat_eq
in_order = refl

ordered_targets-IsQueue_example : IsQueue hashing (target_a ∷ target_b ∷ [])
ordered_targets-IsQueue_example =
    ordered_targets-IsQueue hashing (target_b ∷ target_a ∷ []) (target_a ∷ target_b ∷ []) in_order

abbrev builtin_str : Json → Text
builtin_str (string t) = t
builtin_str v = []

abbrev builtins : Builtins
builtins = record {
  str = builtin_str;
  str_text = λ t. refl;
  int_of_text = λ t. none;
  float_of_text = λ t. none;
}

abbrev printing : Printing
printing = record {
  ratio = λ r. number r.numerator;
  integer = λ z. null;
  fixed = λ r. [];
  str = λ n. n ∷ [];
}

-- The outcomes of the captures, in order
abbrev scripted : Target → List Outcome → Outcome × List Outcome
scripted t [] = (interrupt, [])
scripted t (o ∷ os) = (o, os)

abbrev outside : Outside (List Outcome)
outside = record {
  capture_one = scripted;
  sleep = λ n w. w;
  clocks = record {
    wall_clock = λ w. 0;
    cpu_clock = λ w. 0;
    resource_snapshot = λ w. record { memory_bytes = 0; storage_bytes = 0 };
  };
  between_groups_seconds = 900;
}

abbrev one_post : Capture
one_post = record {
  run_id = text "run";
  identifiers = text "post:2" ∷ text "comment:1" ∷ text "post:2" ∷ [];
  normalized_sha256 = text "n";
  raw_sha256 = text "r";
}

abbrev with_outcomes : List Outcome → Batch (List Outcome)
with_outcomes os = record {
  receipt = missing;
  identifier_state = missing;
  report = none;
  identifier_values = [];
  world = os;
}

resume_accepted_example :
    (results : Dict Text GroupResult) × ((previous hashing builtins
        (map (target_key hashing) (target_a ∷ target_b ∷ []))
        (resumes hashing builtins printing
          (outside ∷ [])
          (target_b ∷ target_a ∷ [])
          (run hashing builtins printing outside
            (target_b ∷ target_a ∷ [])
            false
            (with_outcomes (captured one_post ∷ interrupt ∷ []))).1)).0
      ≡ ok results)
resume_accepted_example =
    resume_accepted hashing builtins printing outside (outside ∷ []) (target_b ∷ target_a ∷ [])
      (target_a ∷ target_b ∷ []) (with_outcomes (captured one_post ∷ interrupt ∷ [])) in_order

abbrev scripted_run : Bool → List Outcome → Result RunResult × Batch (List Outcome)
scripted_run resume os =
    run hashing builtins printing outside (target_b ∷ target_a ∷ []) resume (with_outcomes os)

-- The second group stops.
stopped_run :
    (r : RunResult) × ((scripted_run false
        (captured one_post ∷ batch_stop (text "Stop") (text "s") ∷ [])).0
      ≡ ok r)
unfolding run ordered_targets strip text_eq lower nat_eq lookup insert
stopped_run = (_, refl)

run-Queued_example : Queued hashing (target_a ∷ target_b ∷ []) stopped_run.0.groups
run-Queued_example =
    run-Queued hashing builtins printing outside (target_b ∷ target_a ∷ [])
      (target_a ∷ target_b ∷ []) false
      (with_outcomes (captured one_post ∷ batch_stop (text "Stop") (text "s") ∷ [])) stopped_run.0
      in_order stopped_run.1

abbrev key_a : Text
key_a = digest

abbrev key_b : Text
key_b = other_digest

abbrev ids_a : List Text
ids_a = text "comment:1" ∷ text "post:2" ∷ []

abbrev values_a : Dict Text (List Text)
values_a = (key_a, ids_a) ∷ []

abbrev saved_batch : Dict Text (List Text) → Batch (List Outcome)
saved_batch values = record (with_outcomes []) {
  identifier_state =
      document (object (from_dict (identifier_payload hashing (key_a ∷ key_b ∷ []) values)));
  identifier_values = values;
}

abbrev groups_a : List GroupResult
groups_a = success hashing target_a one_post 1 7 ∷ []

values_a-IsClean : IsClean values_a
unfolding insert text_eq nat_eq
values_a-IsClean = IsClean-insert [] key_a ids_a refl IsClean-nil

groups_a-IsRecorded : IsRecorded hashing (key_a ∷ key_b ∷ []) groups_a values_a
unfolding success text_eq nat_eq lookup option_eq
groups_a-IsRecorded = record {
  known = refl;
  once = refl;
  evidenced = refl;
  clean = values_a-IsClean;
}

previous-write_progress_example :
    (previous hashing builtins
      (key_a ∷ key_b ∷ [])
      (write_progress hashing groups_a (key_a ∷ key_b ∷ []) (saved_batch values_a)).1).0
    ≡ ok (by_key groups_a [])
unfolding text_eq nat_eq
previous-write_progress_example =
    previous-write_progress hashing builtins (key_a ∷ key_b ∷ []) (saved_batch values_a) refl
      groups_a groups_a-IsRecorded

previous-write_receipt_example :
    (previous hashing builtins
      (key_a ∷ key_b ∷ [])
      (write_receipt hashing groups_a (key_a ∷ key_b ∷ []) (saved_batch [])).1).0
    ≡ err value_error
unfolding text_eq nat_eq success lookup
previous-write_receipt_example =
    previous-write_receipt hashing builtins (key_a ∷ key_b ∷ []) (saved_batch []) refl [] []
      (success hashing target_a one_post 1 7) IsClean-nil refl refl refl refl

-- A batch with a group that can be retried and one that succeeded is resumed, and the resumed run is
-- interrupted in the first group: the receipt no longer has the second one.
abbrev retried : Batch (List Outcome)
retried = record (scripted_run false (recoverable (text "Retry") ∷ captured one_post ∷ [])).1 {
  world = interrupt ∷ [];
}

abbrev interrupted_resume : Batch (List Outcome)
interrupted_resume =
    (run hashing builtins printing outside (target_b ∷ target_a ∷ []) true retried).1

-- The keys of the results that the next resume reads
abbrev keys_read : Result (Dict Text GroupResult) → List Text
keys_read (ok results) = map (λ (k, g). k) results
keys_read (err e) = []

kept_before :
    keys_read (previous hashing builtins (key_a ∷ key_b ∷ []) retried).0 ≡ key_a ∷ key_b ∷ []
unfolding run ordered_targets strip text_eq lower nat_eq lookup insert load_identifiers group_result
    as_dict has option_eq
kept_before = refl

lost_after :
    keys_read (previous hashing builtins (key_a ∷ key_b ∷ []) interrupted_resume).0 ≡ key_a ∷ []
unfolding run ordered_targets strip text_eq lower nat_eq lookup insert load_identifiers group_result
    as_dict has option_eq
lost_after = refl
