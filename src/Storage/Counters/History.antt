-- ===== src/Storage/Counters/History.antt =====
-- The history of the counters only grows, and one key has one value for ever.
use fb_scraper.Prelude.{
  ℕ, ◌≡◌, ◌∙◌, Option, none, some, List, [], ◌∷◌, ◌++◌, Text, text_eq, nat_eq, arith, refl, sym,
  subst, ap, subst, All,
}
use mathlib.Core.List.{append_assoc, append-nil}
use fb_scraper.Errors.{Result, ok}
use fb_scraper.Exec.{modify}
use fb_scraper.Exec.Inversion.{bind_ok}
use fb_scraper.Exec.Steps.{IsPreorder, Steps, steps_rules, Steps-pure, Steps-bind}
use fb_scraper.Storage.Tables.{EntityType, entity_type_eq, CounterRow, Database}
use fb_scraper.Storage.Counters.{find_counter, save_row, save_counter, save_counters}

-- The first history is the beginning of the second one, and the other tables are the same.
pub record Appends (s t : Database) : Type 0 where
  pub added : List CounterRow
  pub counters : t.counters ≡ s.counters ++ added
  pub rest : t ≡ record s { counters = t.counters }

pub Appends-preorder : IsPreorder Appends
Appends-preorder = record {
  rfl = λ s. record { added = []; counters = sym (append-nil s.counters); rest = refl };
  trans = λ s t u f g. record {
    added = f.added ++ g.added;
    counters =
        g.counters ∙ ap (λ l. l ++ g.added) f.counters ∙ append_assoc s.counters f.added g.added;
    rest = g.rest ∙ ap (λ (d : Database). record d { counters = u.counters }) f.rest;
  };
}

append-Appends :
    (new : CounterRow)
    → Steps Appends (modify (λ (db : Database). record db { counters = db.counters ++ (new ∷ []) }))
append-Appends new = record { at = λ s. record { added = new ∷ []; counters = refl; rest = refl } }

save_row-Appends : (new : CounterRow) (o : Option CounterRow) → Steps Appends (save_row new o)
save_row-Appends new none = search (steps_rules, Appends-preorder, append-Appends)
save_row-Appends new (some row) = search (steps_rules, Appends-preorder)

save_counter-Appends : (new : CounterRow) → Steps Appends (save_counter new)
unfolding save_counter
save_counter-Appends new = search (steps_rules, Appends-preorder, save_row-Appends)

-- Saving counters adds rows at the end of the history, and changes no other table, whether it
-- returns or raises.
pub save_counters-Appends : (rows : List CounterRow) → Steps Appends (save_counters rows)
unfolding save_counters
save_counters-Appends [] = Steps-pure Appends-preorder tt
save_counters-Appends (row ∷ rows) =
    Steps-bind Appends-preorder _ _ (save_counter-Appends row) (λ _. save_counters-Appends rows)

find : CounterRow → List CounterRow → Option CounterRow
find new rows = find_counter new.entity_type new.entity_id new.metric new.observed_at rows

-- A row that is found stays found when rows are added.
find_counter-append :
    (e : EntityType) (i m : Text) (t : ℕ) (rows more : List CounterRow) (row : CounterRow)
    → find_counter e i m t rows ≡ some row
    → find_counter e i m t (rows ++ more) ≡ some row
unfolding find_counter
find_counter-append e i m t [] more row h = cc
find_counter-append e i m t (x ∷ rows) more row h =
    ground (arith, find_counter-append e i m t rows more row)

find_counter-append_none :
    (e : EntityType) (i m : Text) (t : ℕ) (rows more : List CounterRow)
    → find_counter e i m t rows ≡ none
    → find_counter e i m t (rows ++ more) ≡ find_counter e i m t more
unfolding find_counter
find_counter-append_none e i m t [] more h = refl
find_counter-append_none e i m t (x ∷ rows) more h =
    ground (arith, find_counter-append_none e i m t rows more)

-- What the history says of one key never changes: a value that was found is found after any later
-- appends.
pub Appends-find_counter :
    (s t : Database) (e : EntityType) (i m : Text) (at : ℕ) (row : CounterRow)
    → Appends s t
    → find_counter e i m at s.counters ≡ some row
    → find_counter e i m at t.counters ≡ some row
Appends-find_counter s t e i m at row a h =
    rw a.counters (find_counter-append e i m at s.counters a.added row h)

-- The row of a key carries the value and the capture.
abbrev pub Holds : CounterRow → Database → Type 0
Holds new db =
    (row : CounterRow) × (find_counter new.entity_type new.entity_id new.metric new.observed_at
        db.counters
      ≡ some row)
    × (row.value ≡ new.value)
    × (row.raw_capture_id ≡ new.raw_capture_id)

find_counter_self : (new : CounterRow) → find new (new ∷ []) ≡ some new
unfolding find find_counter
find_counter_self new = ground arith

save_row-Holds :
    (new : CounterRow) (db : Database) (o : Option CounterRow)
    → find new db.counters ≡ o
    → (save_row new o db).0 ≡ ok tt
    → Holds new (save_row new o db).1
unfolding find
save_row-Holds new db none e h = (
  new,
  ground (
    arith,
    find_counter-append_none new.entity_type new.entity_id new.metric new.observed_at db.counters
        (new ∷ []),
    find_counter_self new,
  ),
  refl,
  refl,
)
save_row-Holds new db (some row) e h = (row, ground arith, ground arith, ground arith)

save_counter-Holds :
    (new : CounterRow) (db : Database)
    → (save_counter new db).0 ≡ ok tt
    → Holds new (save_counter new db).1
unfolding save_counter find
save_counter-Holds new db h = save_row-Holds new db (find new db.counters) refl h

Appends-Holds : (new : CounterRow) (s t : Database) → Appends s t → Holds new s → Holds new t
Appends-Holds new s t a (row, found, v, c) =
    (row, Appends-find_counter s t _ _ _ _ row a found, v, c)

-- When the counters are saved without a raise, each of them is found in the history with the
-- value and the capture that were given.
pub save_counters-Holds :
    (rows : List CounterRow) (db : Database)
    → (save_counters rows db).0 ≡ ok tt
    → All (λ row. Holds row (save_counters rows db).1) rows
unfolding save_counters
save_counters-Holds [] db h = tt
save_counters-Holds (row ∷ rows) db h =
    let (_, first, same) = bind_ok (save_counter row) (λ _. save_counters rows) db h in
    subst (λ (p : Result (Unit {0}) × Database). All (λ r. Holds r p.1) (row ∷ rows)) (sym same)
      (
        Appends-Holds row (save_counter row db).1 _ ((save_counters-Appends rows).at _)
            (save_counter-Holds row db first),
        save_counters-Holds rows (save_counter row db).1
            (ap (λ (p : Result (Unit {0}) × Database). p.0) (sym same) ∙ h),
      )

-- Saving counters that the history holds already changes nothing.
pub save_counters_held :
    (rows : List CounterRow) (db : Database)
    → All (λ row. Holds row db) rows
    → save_counters rows db ≡ (ok tt, db)
unfolding save_counters save_counter
save_counters_held [] db h = refl
save_counters_held (new ∷ rows) db ((row, found, v, c), hs) =
    ground (arith, save_counters_held rows db hs)
