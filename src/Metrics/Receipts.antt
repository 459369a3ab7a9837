-- ===== src/Metrics/Receipts.antt =====
-- The receipts of metrics.py: what `MeasurementReceiptWriter` and `PhaseOneQualityReceiptWriter`
-- compute and write. A directory holds the payloads under the names of their files; the write
-- itself, with its temporary file, is one step. Numbers that the code tests for their sign are
-- integers.
use fb_scraper.Prelude.{
  ℕ, ◌+◌, Bool, not, ◌&&◌, ◌||◌, List, [], ◌∷◌, ◌++◌, ℤ, pos, negsuc, is_negative, Text, text,
  text_eq, nat_eq, ◌==◌, any, contains, filter, length, ltb, if◌then◌else◌,
}
use fb_scraper.Prelude.Dict.{Dict, insert}
use fb_scraper.Prelude.Sets.{distinct, sorted_set}
use fb_scraper.Errors.{Result, ok, err, value_error}
use fb_scraper.Exec.{Exec, pure, of_result, modify, raise_if, ◌>>=◌, ◌>>◌}
use fb_scraper.Metrics.{Ratio, Measurement, is_share, calculate_throughput}
use fb_scraper.Metrics.Rounding.{rounded, is_one, at_least, at_most}

-- `MeasurementCounts`; its constructor refuses negative numbers
pub record Counts : Type 0 where
  pub groups : ℕ
  pub posts : ℕ
  pub comments : ℕ
  pub retries : ℕ
  pub failures : ℕ

-- The payload of a measurement, and `MeasurementReceipt` without its path
pub record Receipt : Type 0 where
  pub operation : Text
  pub run_id : Text
  pub counts : Counts
  pub measurement : Measurement
  pub completeness : Ratio
  pub records_per_minute : Ratio
  pub completeness_adjusted_records_per_minute : Ratio
  pub validated_records : ℕ

abbrev pub zero_ratio : Ratio
zero_ratio = record { numerator = 0; denominator = 1 }

-- `_OPERATIONS`
abbrev pub operations : List Text
operations = text "run" ∷ text "resume" ∷ text "replay" ∷ []

-- The two rates of a measurement; one that took no time has none
abbrev pub rates : Counts → Measurement → Ratio → Result (Ratio × Ratio)
rates counts measurement completeness =
    if measurement.wall_seconds == 0
    then ok (zero_ratio, zero_ratio)
    else elim (calculate_throughput counts.posts counts.comments completeness
        measurement.wall_seconds) [
          | err e ↦ err e
          | ok t ↦ ok (t.records_per_minute, t.completeness_adjusted_records_per_minute)
        ]

abbrev pub receipt_of : Text → Text → Counts → Measurement → Ratio → Ratio × Ratio → Receipt
receipt_of operation run_id counts measurement completeness (rate, adjusted) = record {
  operation = operation;
  run_id = run_id;
  counts = counts;
  measurement = measurement;
  completeness = completeness;
  records_per_minute = rate;
  completeness_adjusted_records_per_minute = adjusted;
  validated_records = counts.posts + counts.comments;
}

abbrev pub receipt_name : Text → Text → Text
receipt_name run_id operation = run_id ++ text "." ++ operation ++ text ".metrics.json"

-- `MeasurementReceiptWriter.write`
unfoldable pub write_measurement :
    Text → Text → Counts → Measurement → Ratio → Exec (Dict Text Receipt) Receipt
unfolding calculate_throughput
write_measurement operation run_id counts measurement completeness = do
  raise_if (not (contains operations operation)) value_error
  raise_if (run_id == []) value_error
  raise_if (not (is_share completeness)) value_error
  both ← of_result (rates counts measurement completeness)
  modify (
      insert (receipt_name run_id operation)
        (receipt_of operation run_id counts measurement completeness both))
  pure (receipt_of operation run_id counts measurement completeness both)

-- The arguments of `PhaseOneQualityReceiptWriter.write`, the identifiers after `str`
pub record Quality : Type 0 where
  pub run_id : Text
  pub expected_identifiers : List Text
  pub run_identifiers : List Text
  pub resume_identifiers : List Text
  pub replay_identifiers : List Text
  pub expected_required_fields : ℤ
  pub observed_required_fields : ℤ
  pub expected_pages : ℤ
  pub observed_pages : ℤ
  pub canonical_record_count : ℤ
  pub duplicate_count : ℤ
  pub retries : ℤ
  pub measurement : Measurement

-- The payload of the evidence, with the fields of `PhaseOneQualityReceipt`
pub record Evidence : Type 0 where
  pub run_id : Text
  pub identifier_precision : Ratio
  pub required_field_accuracy : Ratio
  pub pagination_completeness : Ratio
  pub duplicate_rate : Ratio
  pub run_hash : Text
  pub resume_hash : Text
  pub replay_hash : Text
  pub run_resume_match : Bool
  pub run_replay_match : Bool
  pub phase_one_gates_pass : Bool
  pub retries : ℤ
  pub measurement : Measurement

-- The value of a number that is not negative
abbrev pub count_of : ℤ → ℕ
count_of (pos n) = n
count_of (negsuc n) = 0

-- `a / b`, a double
abbrev pub over : ℤ → ℤ → Ratio
over a b = rounded (count_of a) (count_of b)

-- `_identifiers`: one that is empty is refused
abbrev pub has_empty : List Text → Bool
has_empty = any (λ i. i == [])

abbrev pub numbers : Quality → List ℤ
numbers q =
    q.expected_required_fields ∷ q.observed_required_fields ∷ q.expected_pages ∷ q.observed_pages
    ∷ q.canonical_record_count ∷ q.duplicate_count ∷ q.retries ∷ []

-- `a > b` and `a == 0`, of numbers that are not negative
abbrev pub exceeds : ℤ → ℤ → Bool
exceeds a b = ltb (count_of b) (count_of a)

abbrev pub is_zero : ℤ → Bool
is_zero a = count_of a == 0

-- The guards, in their order; each raises ValueError
unfoldable pub is_refused : Quality → Bool
is_refused q =
    has_empty q.expected_identifiers
    || has_empty q.run_identifiers
    || has_empty q.resume_identifiers
    || has_empty q.replay_identifiers
    || any is_negative (numbers q)
    || (is_zero q.expected_required_fields
        || is_zero q.expected_pages
        || is_zero q.canonical_record_count)
    || exceeds q.observed_required_fields q.expected_required_fields
    || exceeds q.observed_pages q.expected_pages
    || exceeds q.duplicate_count q.canonical_record_count

-- `len(run_set & expected_set) / len(run_set) if run_set else 0.0`
unfoldable pub precision : List Text → List Text → Ratio
precision run expected =
    let run_set = distinct run in
    if length run_set == 0
    then zero_ratio
    else rounded (length (filter (contains expected) run_set)) (length run_set)

-- `_identifier_hash`, by the hash of the text that `json.dumps` makes of a list
module _ (hash : List Text → Text) where
  abbrev pub identifier_hash : List Text → Text
  identifier_hash identifiers = hash (sorted_set identifiers)

  unfoldable pub gates : Quality → Bool
  unfolding precision sorted_set
  gates q =
      is_one (precision q.run_identifiers q.expected_identifiers)
      && at_least (rounded 99 100) (over q.observed_required_fields q.expected_required_fields)
      && at_least (rounded 995 1000) (over q.observed_pages q.expected_pages)
      && at_most (rounded 1 1000) (over q.duplicate_count q.canonical_record_count)
      && (identifier_hash q.run_identifiers == identifier_hash q.resume_identifiers)
      && (identifier_hash q.run_identifiers == identifier_hash q.replay_identifiers)

  abbrev pub evidence : Quality → Evidence
  evidence q = record {
    run_id = q.run_id;
    identifier_precision = precision q.run_identifiers q.expected_identifiers;
    required_field_accuracy = over q.observed_required_fields q.expected_required_fields;
    pagination_completeness = over q.observed_pages q.expected_pages;
    duplicate_rate = over q.duplicate_count q.canonical_record_count;
    run_hash = identifier_hash q.run_identifiers;
    resume_hash = identifier_hash q.resume_identifiers;
    replay_hash = identifier_hash q.replay_identifiers;
    run_resume_match = identifier_hash q.run_identifiers == identifier_hash q.resume_identifiers;
    run_replay_match = identifier_hash q.run_identifiers == identifier_hash q.replay_identifiers;
    phase_one_gates_pass = gates q;
    retries = q.retries;
    measurement = q.measurement;
  }

  -- `PhaseOneQualityReceiptWriter.write`
  unfoldable pub write_quality : Quality → Exec (Dict Text Evidence) Evidence
  unfolding is_refused gates
  write_quality q = do
    raise_if (is_refused q) value_error
    modify (insert (q.run_id ++ text ".phase1-quality.json") (evidence q))
    pure (evidence q)
