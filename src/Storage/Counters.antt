-- ===== src/Storage/Counters.antt =====
-- `CanonicalRepository._save_counter` and `counter_observations` of storage/repositories.py: the
-- append-only history of the counters.
pub mod History
use fb_scraper.Prelude.{
  ℕ, Bool, not, ◌&&◌, Option, none, some, List, [], ◌∷◌, ◌++◌, Text, text, text_eq, nat_eq, ◌==◌,
  leb, text_leb, filter, if◌then◌else◌,
}
use fb_scraper.Prelude.Dict.{has}
use fb_scraper.Prelude.Sort.{sorted}
use fb_scraper.Errors.{ok, err, integrity_error, counter_observation_conflict}
use fb_scraper.Exec.{Exec, pure, raise, gets, modify, raise_if, ◌>>=◌, ◌>>◌}
use fb_scraper.Storage.Tables.{EntityType, entity_type_eq, CounterRow, Database}

-- The WHERE clause of the SELECT, and the UNIQUE constraint
abbrev pub has_key : EntityType → Text → Text → ℕ → CounterRow → Bool
has_key entity_type entity_id metric observed_at row =
    ((row.entity_type == entity_type) && (row.entity_id == entity_id))
    && ((row.metric == metric) && (row.observed_at == observed_at))

unfoldable pub find_counter : EntityType → Text → Text → ℕ → List CounterRow → Option CounterRow
find_counter entity_type entity_id metric observed_at [] = none
find_counter entity_type entity_id metric observed_at (row ∷ rows) =
    if has_key entity_type entity_id metric observed_at row
    then some row
    else find_counter entity_type entity_id metric observed_at rows

-- On the row that the SELECT finds: a second value for one key is a conflict.
abbrev pub save_row : CounterRow → Option CounterRow → Exec Database (Unit {0})
save_row new none = do
  raise_if (← gets (λ db. not (has new.raw_capture_id db.raw_captures))) integrity_error
  modify (λ db. record db { counters = db.counters ++ (new ∷ []) })
save_row new (some row) =
    raise_if (not ((row.value == new.value) && (row.raw_capture_id == new.raw_capture_id)))
      counter_observation_conflict

-- `_save_counter`
unfoldable pub save_counter : CounterRow → Exec Database (Unit {0})
unfolding find_counter
save_counter new = do
  row ←
      gets (λ db. find_counter new.entity_type new.entity_id new.metric new.observed_at db.counters)
  save_row new row

-- `for reaction, value in sorted(reactions.items()): self._save_counter(...)`
unfoldable pub save_counters : List CounterRow → Exec Database (Unit {0})
unfolding save_counter
save_counters [] = pure tt
save_counters (row ∷ rows) = do save_counter row; save_counters rows

-- `counter_observations`: the rows come in the order of `observation_id`, and the sort is stable
unfoldable pub counter_observations : EntityType → Text → Text → Database → List CounterRow
unfolding sorted
counter_observations entity_type entity_id metric db =
    sorted (λ a b. leb a.observed_at b.observed_at)
      (filter
        (λ row.
          (row.entity_type == entity_type)
          && ((row.entity_id == entity_id) && (row.metric == metric)))
        db.counters)
