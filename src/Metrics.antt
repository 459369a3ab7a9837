-- ===== src/Metrics.antt =====
-- metrics.py: the timer of a measured workflow and the throughput. Here a quotient of floats
-- is a pair of numbers that stays unrounded; Rounding has the quotients of integers that the receipts
-- compare. Seconds are ticks of the clocks.
pub mod Rounding
pub mod Receipts
pub mod Quality
use fb_scraper.Prelude.{
  ℕ, ◌+◌, ◌-◌, ◌*◌, Bool, ◌||◌, Option, none, some, ℤ, pos, negsuc, ltb, leb, nat_eq, ◌==◌, not,
  if◌then◌else◌,
}
use fb_scraper.Errors.{Result, ok, err, value_error, runtime_error}

pub record Ratio : Type 0 where
  pub numerator : ℕ
  pub denominator : ℕ

-- `ResourceSnapshot`; its numbers are not negative
pub record ResourceSnapshot : Type 0 where
  pub memory_bytes : ℕ
  pub storage_bytes : ℕ

-- `ProcessResourceMeasurement`
pub record Measurement : Type 0 where
  pub wall_seconds : ℕ
  pub cpu_seconds : ℕ
  pub peak_memory_bytes : ℕ
  pub storage_delta_bytes : ℤ

-- `_TimerStart`
pub record TimerStart : Type 0 where
  pub wall_seconds : ℕ
  pub cpu_seconds : ℕ
  pub resources : ResourceSnapshot

-- What a timer reads
pub record Clocks (W : Type 0) : Type 0 where
  pub wall_clock : W → ℕ
  pub cpu_clock : W → ℕ
  pub resource_snapshot : W → ResourceSnapshot

-- `a - b` of two sizes
abbrev pub difference : ℕ → ℕ → ℤ
difference a b = if leb b a then pos (a - b) else negsuc (b - a - 1)

abbrev pub max : ℕ → ℕ → ℕ
max a b = if leb a b then b else a

module _ {W : Type 0} (clocks : Clocks W) where
  abbrev pub baseline : W → TimerStart
  baseline w = record {
    wall_seconds = clocks.wall_clock w;
    cpu_seconds = clocks.cpu_clock w;
    resources = clocks.resource_snapshot w;
  }

  -- `ProcessResourceTimer.start`, on `_start`
  unfoldable pub start : W → Option TimerStart → Result TimerStart
  start w (some s) = err runtime_error
  start w none = ok (baseline w)

  abbrev pub measurement : TimerStart → TimerStart → Measurement
  measurement s e = record {
    wall_seconds = e.wall_seconds - s.wall_seconds;
    cpu_seconds = e.cpu_seconds - s.cpu_seconds;
    peak_memory_bytes = max s.resources.memory_bytes e.resources.memory_bytes;
    storage_delta_bytes = difference e.resources.storage_bytes s.resources.storage_bytes;
  }

  -- `ProcessResourceTimer.stop`: the measurement, and the timer is reset
  unfoldable pub stop : W → Option TimerStart → Result Measurement × Option TimerStart
  stop w none = (err runtime_error, none)
  stop w (some s) =
      if ltb (clocks.wall_clock w) s.wall_seconds || ltb (clocks.cpu_clock w) s.cpu_seconds
      then (err value_error, none)
      else (ok (measurement s (baseline w)), none)

-- `ThroughputMetrics`
pub record Throughput : Type 0 where
  pub validated_posts : ℕ
  pub validated_comments : ℕ
  pub completeness : Ratio
  pub wall_seconds : ℕ
  pub records_per_minute : Ratio
  pub completeness_adjusted_records_per_minute : Ratio

-- `0.0 <= completeness <= 1.0`
abbrev pub is_share : Ratio → Bool
is_share r = leb r.numerator r.denominator

-- `calculate_throughput`; the number of posts and of comments is not negative
unfoldable pub calculate_throughput : ℕ → ℕ → Ratio → ℕ → Result Throughput
calculate_throughput posts comments completeness wall_seconds =
    if not (is_share completeness)
    then err value_error
    else if wall_seconds == 0
    then err value_error
    else ok (record {
      validated_posts = posts;
      validated_comments = comments;
      completeness = completeness;
      wall_seconds = wall_seconds;
      records_per_minute = record {
        numerator = (posts + comments) * 60;
        denominator = wall_seconds;
      };
      completeness_adjusted_records_per_minute = record {
        numerator = (posts + comments) * 60 * completeness.numerator;
        denominator = wall_seconds * completeness.denominator;
      };
    })
