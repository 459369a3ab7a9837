-- ===== src/Workflows/OperatorBatch.antt =====
-- `OperatorBatchWorkflow` of workflows/operator_batch.py: the records, the queue of the targets and
-- the results of a group. Receipts has the two files of a batch, Run the loop over the queue.
pub mod Receipts
pub mod Resume
pub mod Results
pub mod Run
pub mod Queue
pub mod Restored
pub mod Accepted
pub mod Ready
pub mod Saved
pub mod Kept
pub mod Resumable
pub mod Again
pub mod Order
pub mod Reported
pub mod Torn
use fb_scraper.Prelude.{
  ℕ, ◌+◌, ◌-◌, ◌≡◌, Bool, true, false, not, ◌&&◌, ◌||◌, Option, none, some, List, [], ◌∷◌, ◌++◌,
  Text, text, text_eq, text_leb, nat_eq, ◌==◌, contains, any, all, filter, map, length, leb, lower,
  strip, starts_with, if◌then◌else◌,
}
use fb_scraper.Prelude.Sort.{sorted}
use fb_scraper.Prelude.Sets.{has_duplicates, sorted_set}
use fb_scraper.Errors.{Result, ok, err, value_error}
use fb_scraper.Platform.{Platform, SplitUrl}
use fb_scraper.Metrics.{Ratio, Measurement, Throughput, calculate_throughput}

-- `OperatorBatchTarget`
pub record Target : Type 0 where
  pub group_id : Text
  pub canonical_url : Text

-- `OperatorCaptureResult`
pub record Capture : Type 0 where
  pub run_id : Text
  pub identifiers : List Text
  pub normalized_sha256 : Text
  pub raw_sha256 : Text

-- The states of a group in a receipt
pub data GroupState : Type 0 where
  succeeded incomplete failed stopped : GroupState

-- `OperatorBatchGroupResult`
pub record GroupResult : Type 0 where
  pub target_key : Text
  pub state : GroupState
  pub attempts : ℕ
  pub run_id_sha256 : Option Text
  pub identifier_count : ℕ
  pub identifier_set_sha256 : Option Text
  pub normalized_sha256 : Option Text
  pub raw_sha256 : Option Text
  pub validated_posts : ℕ
  pub validated_comments : ℕ
  pub duration_seconds : ℕ
  pub error_type : Option Text
  pub stop_reason : Option Text

abbrev pub is_succeeded : GroupState → Bool
is_succeeded succeeded = true
is_succeeded _ = false

abbrev pub is_stopped : GroupState → Bool
is_stopped stopped = true
is_stopped _ = false

-- `not value or not value.strip()`
abbrev pub is_blank : Text → Bool
is_blank t = is_empty (strip t)
  where
    is_empty : Text → Bool
    is_empty [] = true
    is_empty (c ∷ cs) = false

-- What the batch uses of SHA-256, UTF-8, URLs and `json.dumps` of a list of texts
pub record Hashing : Type 0 where
  pub platform : Platform
  pub dumps : List Text → Text

-- `key=lambda target: (target.group_id, target.canonical_url)`
abbrev pub by_target : Target → Target → Bool
by_target a b =
    if a.group_id == b.group_id
    then text_leb a.canonical_url b.canonical_url
    else text_leb a.group_id b.group_id

module _ (hashing : Hashing) where
  abbrev pub digest : Text → Text
  digest t = hashing.platform.sha256 (hashing.platform.encode t)

  -- `OperatorBatchTarget.target_key`
  unfoldable pub target_key : Target → Text
  target_key target = digest (target.group_id ++ (0 ∷ target.canonical_url))

  -- `_set_hash`
  unfoldable pub set_hash : List Text → Text
  unfolding sorted_set
  set_hash values = digest (hashing.dumps (sorted_set values))

  -- The guards of one target: its identifier, its URL, and an absolute HTTPS URL
  abbrev pub is_https : SplitUrl → Bool
  is_https url = (lower url.scheme == text "https") && not (url.netloc == [])

  abbrev pub is_target : Target → Bool
  is_target target =
      not (is_blank target.group_id)
      && (not (is_blank target.canonical_url)
          && is_https (hashing.platform.urlsplit target.canonical_url))

  -- The guards of the whole batch
  unfoldable pub is_batch : List Target → Bool
  unfolding target_key
  is_batch values =
      (leb 1 (length values) && leb (length values) 10)
      && (all is_target values
          && (not (has_duplicates (map target_key values))
              && (not (has_duplicates (map (λ (t : Target). t.group_id) values))
                  && not (has_duplicates (map (λ (t : Target). t.canonical_url) values)))))

  -- `_ordered_targets`; every guard raises ValueError
  unfoldable pub ordered_targets : List Target → Result (List Target)
  unfolding is_batch sorted
  ordered_targets values = if is_batch values then ok (sorted by_target values) else err value_error

  -- `sum(item.startswith(prefix) for item in identifiers)`
  abbrev pub count_prefix : Text → List Text → ℕ
  count_prefix p identifiers = length (filter (λ i. starts_with i p) identifiers)

  -- `_success`; the duration is that of the clock
  unfoldable pub success : Target → Capture → ℕ → ℕ → GroupResult
  unfolding target_key sorted_set set_hash
  success target capture attempts duration =
      let identifiers = sorted_set capture.identifiers in
      record {
        target_key = target_key target;
        state = succeeded;
        attempts = attempts;
        run_id_sha256 = some (digest capture.run_id);
        identifier_count = length identifiers;
        identifier_set_sha256 = some (set_hash identifiers);
        normalized_sha256 = some capture.normalized_sha256;
        raw_sha256 = some capture.raw_sha256;
        validated_posts = count_prefix (text "post:") identifiers;
        validated_comments = count_prefix (text "comment:") identifiers;
        duration_seconds = duration;
        error_type = none;
        stop_reason = none;
      }

  -- `_terminal`
  unfoldable pub terminal : Target → GroupState → ℕ → ℕ → Text → Option Text → GroupResult
  unfolding target_key
  terminal target state attempts duration error_type stop_reason = record {
    target_key = target_key target;
    state = state;
    attempts = attempts;
    run_id_sha256 = none;
    identifier_count = 0;
    identifier_set_sha256 = none;
    normalized_sha256 = none;
    raw_sha256 = none;
    validated_posts = 0;
    validated_comments = 0;
    duration_seconds = duration;
    error_type = some error_type;
    stop_reason = stop_reason;
  }

-- `OperatorBatchMetrics`; `worker_limit` is always 1
pub record Metrics : Type 0 where
  pub completed_groups : ℕ
  pub failed_groups : ℕ
  pub completeness : Ratio
  pub measured : Measurement
  pub retries : ℕ
  pub validated_posts : ℕ
  pub validated_comments : ℕ
  pub records_per_minute : Ratio
  pub completeness_adjusted_records_per_minute : Ratio

abbrev pub sum : (GroupResult → ℕ) → List GroupResult → ℕ
sum f [] = 0
sum f (g ∷ gs) = f g + sum f gs

abbrev pub completed : List GroupResult → ℕ
completed groups = length (filter (λ (g : GroupResult). is_succeeded g.state) groups)

abbrev pub completeness_of : List GroupResult → Ratio
completeness_of groups = record { numerator = completed groups; denominator = length groups }

-- `0.0`
abbrev pub nothing : Ratio
nothing = record { numerator = 0; denominator = 1 }

abbrev pub metrics_with : List GroupResult → Measurement → Ratio → Ratio → Metrics
metrics_with groups measurement rate adjusted = record {
  completed_groups = completed groups;
  failed_groups = length groups - completed groups;
  completeness = completeness_of groups;
  measured = measurement;
  retries = sum (λ g. g.attempts - 1) groups;
  validated_posts = sum (λ g. g.validated_posts) groups;
  validated_comments = sum (λ g. g.validated_comments) groups;
  records_per_minute = rate;
  completeness_adjusted_records_per_minute = adjusted;
}

abbrev pub with_throughput : List GroupResult → Measurement → Result Throughput → Result Metrics
with_throughput groups measurement (err e) = err e
with_throughput groups measurement (ok t) = ok (
    metrics_with groups measurement t.records_per_minute t.completeness_adjusted_records_per_minute)

-- `_metrics`; a batch has at least one group
unfoldable pub metrics : List GroupResult → Measurement → Result Metrics
unfolding calculate_throughput
metrics groups measurement =
    if measurement.wall_seconds == 0
    then ok (metrics_with groups measurement nothing nothing)
    else with_throughput groups measurement (
        calculate_throughput (sum (λ g. g.validated_posts) groups)
          (sum (λ g. g.validated_comments) groups) (completeness_of groups)
          measurement.wall_seconds)
