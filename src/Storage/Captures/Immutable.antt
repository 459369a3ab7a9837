-- ===== src/Storage/Captures/Immutable.antt =====
-- Raw-capture metadata is written once and never changes.
use fb_scraper.Prelude.{◌≡◌, Option, none, some, Text, text_eq, ℤ, arith, refl}
use fb_scraper.Prelude.Dict.{lookup, lookup-insert}
use fb_scraper.Storage.Tables.{DateTime, CaptureRow, Database}
use fb_scraper.Storage.Captures.{add_row, add}
use fb_scraper.Exec.{gets, ◌>>=◌}
use fb_scraper.Exec.Steps.{IsPreorder, Steps, steps_rules}

-- Every row of the first store stands in the second one.
pub record KeepsCaptures (s t : Database) : Type 0 where
  pub kept :
      (capture_id : Text) (row : CaptureRow)
      → lookup capture_id s.raw_captures ≡ some row
      → lookup capture_id t.raw_captures ≡ some row

pub KeepsCaptures-preorder : IsPreorder KeepsCaptures
KeepsCaptures-preorder = record {
  rfl = λ s. record { kept = λ c row h. h };
  trans = λ s t u f g. record { kept = λ c row h. g.kept c row (f.kept c row h) };
}

-- The transaction of `add`, from the row that its SELECT finds.
block-KeepsCaptures :
    (capture_id : Text) (requested : CaptureRow)
    → Steps KeepsCaptures
        (gets (λ db. lookup capture_id db.raw_captures) >>= add_row capture_id requested)
block-KeepsCaptures capture_id requested = record {
  at = λ db. go db (lookup capture_id db.raw_captures) refl;
}
  where
    go :
        (db : Database) (o : Option CaptureRow)
        → lookup capture_id db.raw_captures ≡ o
        → KeepsCaptures db (add_row capture_id requested o db).1
    go db none e = record {
      kept = λ c row h. ground (arith, lookup-insert c capture_id requested db.raw_captures, h);
    }
    go db (some r) e = record { kept = λ c row h. h }

module _ (capture_id sha256 source_url : Text) (collected_at : DateTime)
    (storage_path : Option Text) (byte_count : Option ℤ) where
  -- Whatever `add` is called with, and whether it returns or raises, every row that was stored
  -- before stands unchanged after it.
  pub add-KeepsCaptures :
      Steps KeepsCaptures (add capture_id sha256 source_url collected_at storage_path byte_count)
  unfolding add
  add-KeepsCaptures = search (steps_rules, KeepsCaptures-preorder, block-KeepsCaptures) depth 12
