-- ===== src/Workflows/OperatorBatch/Results.antt =====
-- The result of an operator batch and the two files that `_write_result` of
-- workflows/operator_batch.py publishes.
use fb_scraper.Prelude.{
  ℕ, Option, none, some, List, [], ◌∷◌, ◌++◌, Text, text, text_eq, map, filter, any, ℤ, text_leb,
  if◌then◌else◌,
}
use fb_scraper.Prelude.Dict.{Dict, lookup}
use fb_scraper.Prelude.Sort.{sorted}
use fb_scraper.Prelude.Sets.{sorted_set}
use fb_scraper.Errors.{key_error}
use fb_scraper.Exec.{Exec, pure, gets, or_raise, modify, of_result, ◌>>=◌, ◌>>◌}
use fb_scraper.Json.{Json, number, string, object, array, document, from_list, from_dict, text_list}
use fb_scraper.Metrics.{Ratio, Measurement}
use fb_scraper.Workflows.OperatorBatch.{
  GroupResult, Metrics, is_succeeded, is_stopped, Hashing, set_hash, metrics,
}
use fb_scraper.Workflows.OperatorBatch.Resume.{Batch, group_json}

-- `OperatorBatchRunResult`, without the paths of the files
pub record RunResult : Type 0 where
  pub groups : List GroupResult
  pub metrics : Metrics
  pub identifier_set_sha256 : Text
  pub normalized_set_sha256 : Text
  pub raw_set_sha256 : Text

-- How a float and an integer are written: in JSON, and in the report with six decimals
pub record Printing : Type 0 where
  pub ratio : Ratio → Json
  pub integer : ℤ → Json
  pub fixed : Ratio → Text
  pub str : ℕ → Text

-- `[item for item in values if item]`
abbrev pub present : List (Option Text) → List Text
present [] = []
present (none ∷ ts) = present ts
present (some [] ∷ ts) = present ts
present (some t ∷ ts) = t ∷ present ts

abbrev pub joined : Text → List Text → Text
joined sep [] = []
joined sep (t ∷ []) = t
joined sep (t ∷ u ∷ ts) = t ++ (sep ++ joined sep (u ∷ ts))

abbrev pub succeeded_of : List GroupResult → List GroupResult
succeeded_of groups = filter (λ (g : GroupResult). is_succeeded g.state) groups

-- The identifiers of the groups that succeeded; a group without an entry is a KeyError
abbrev pub identifiers_of : Dict Text (List Text) → List GroupResult → Option (List Text)
identifiers_of values [] = some []
identifiers_of values (g ∷ gs) = elim (lookup g.target_key values) [
  | none ↦ none
  | some ids ↦ elim (identifiers_of values gs) [ none ↦ none | some rest ↦ some (ids ++ rest) ]
]

abbrev pub final_state : List GroupResult → Text
final_state groups =
    if any (λ (g : GroupResult). is_stopped g.state) groups
    then text "stopped"
    else text "completed"

-- `OperatorBatchMetrics.as_dict`
unfoldable pub metrics_dict : Printing → Metrics → Dict Text Json
metrics_dict printing m =
    (text "completeness", printing.ratio m.completeness)
    ∷ (
      text "completeness_adjusted_records_per_minute",
      printing.ratio m.completeness_adjusted_records_per_minute,
    )
    ∷ (text "completed_groups", number m.completed_groups)
    ∷ (text "cpu_seconds", number m.measured.cpu_seconds)
    ∷ (text "duration_seconds", number m.measured.wall_seconds)
    ∷ (text "failed_groups", number m.failed_groups)
    ∷ (text "peak_memory_bytes", number m.measured.peak_memory_bytes)
    ∷ (text "records_per_minute", printing.ratio m.records_per_minute)
    ∷ (text "retries", number m.retries)
    ∷ (text "storage_delta_bytes", printing.integer m.measured.storage_delta_bytes)
    ∷ (text "validated_comments", number m.validated_comments)
    ∷ (text "validated_posts", number m.validated_posts)
    ∷ (text "worker_limit", number 1)
    ∷ []

-- f"- {label}: `{value}`"
abbrev pub line : Text → Text → Text
line label value = text "- " ++ (label ++ (text ": `" ++ (value ++ text "`")))

abbrev pub stop_line : List Text → List Text
stop_line [] = []
stop_line (r ∷ rs) = line (text "Stop reasons") (joined (text ", ") (r ∷ rs)) ∷ []

-- `{item.stop_reason for item in groups if item.stop_reason is not None}`
abbrev pub stop_reasons : List GroupResult → List Text
stop_reasons [] = []
stop_reasons (g ∷ gs) = elim g.stop_reason [ none ↦ stop_reasons gs | some r ↦ r ∷ stop_reasons gs ]

-- The report
unfoldable pub report_of : Printing → RunResult → Text
unfolding sorted_set
report_of printing r =
    let m = r.metrics in
    joined (10 ∷ []) (
      text "# Phase 4G sequential operator batch"
      ∷ []
      ∷ line (text "Worker limit") (printing.str 1)
      ∷ line (text "Completed Groups") (printing.str m.completed_groups)
      ∷ line (text "Incomplete or failed Groups") (printing.str m.failed_groups)
      ∷ line (text "Completeness") (printing.fixed m.completeness)
      ∷ line (text "Retries") (printing.str m.retries)
      ∷ line (text "Records per minute") (printing.fixed m.records_per_minute)
      ∷ line (text "Completeness-adjusted records per minute")
          (printing.fixed m.completeness_adjusted_records_per_minute)
      ∷ line (text "Identifier-set SHA-256") r.identifier_set_sha256
      ∷ line (text "Normalized-set SHA-256") r.normalized_set_sha256
      ∷ line (text "Raw-set SHA-256") r.raw_set_sha256
      ∷ stop_line (sorted_set (stop_reasons r.groups)))
    ++ (10 ∷ [])

module _ (hashing : Hashing) where
  abbrev pub run_result : List GroupResult → Metrics → List Text → RunResult
  run_result groups measured ids = record {
    groups = groups;
    metrics = measured;
    identifier_set_sha256 = set_hash hashing ids;
    normalized_set_sha256 = set_hash hashing (
        sorted text_leb
          (present (map (λ (g : GroupResult). g.normalized_sha256) (succeeded_of groups))));
    raw_set_sha256 =
        set_hash hashing (
          sorted text_leb
            (present (map (λ (g : GroupResult). g.raw_sha256) (succeeded_of groups))));
  }

  -- The payload of `_write_result`
  abbrev pub result_payload : Printing → RunResult → List Text → Dict Text Json
  result_payload printing r target_keys =
      (text "groups", array (from_list (map group_json r.groups)))
      ∷ (text "identifier_set_sha256", string r.identifier_set_sha256)
      ∷ (text "metrics", object (from_dict (metrics_dict printing r.metrics)))
      ∷ (text "normalized_set_sha256", string r.normalized_set_sha256)
      ∷ (text "raw_set_sha256", string r.raw_set_sha256)
      ∷ (text "schema_version", string (text "1.0"))
      ∷ (text "state", string (final_state r.groups))
      ∷ (text "target_keys", text_list target_keys)
      ∷ (text "target_set_sha256", string (set_hash hashing target_keys))
      ∷ []

module _ (hashing : Hashing) (printing : Printing) {W : Type 0} where
  -- `_write_result`
  unfoldable pub write_result : RunResult → List Text → Exec (Batch W) (Unit {0})
  unfolding report_of
  write_result r target_keys = do
    modify (λ b. record b {
      receipt = document (object (from_dict (result_payload hashing printing r target_keys)));
    })
    modify (λ b. record b { report = some (report_of printing r) })

  -- The end of `run`, after the loop
  unfoldable pub conclude : List GroupResult → List Text → Measurement → Exec (Batch W) RunResult
  unfolding metrics write_result
  conclude groups target_keys measurement = do
    measured ← of_result (metrics groups measurement)
    found ← gets (λ b. identifiers_of b.identifier_values (succeeded_of groups))
    ids ← or_raise found key_error
    write_result (run_result hashing groups measured ids) target_keys
    pure (run_result hashing groups measured ids)
