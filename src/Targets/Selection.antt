-- ===== src/Targets/Selection.antt =====
-- A campaign has one selected target, which never changes.
use fb_scraper.Prelude.{◌≡◌, refl, arith, Option, none, some, Text, text_eq}
use fb_scraper.Prelude.Dict.{lookup, lookup-insert, lookup-insert_self}
use fb_scraper.Errors.{ok}
use fb_scraper.Targets.{HitRow, Tables, Selected, of_campaign, select, get_selected}

-- The selected candidates stand.
pub record KeepsSelected (s t : Tables) : Type 0 where
  pub kept :
      (campaign_id candidate_id : Text)
      → lookup campaign_id s.selected ≡ some candidate_id
      → lookup campaign_id t.selected ≡ some candidate_id

module _ (campaign_id candidate_id : Text) (db : Tables) where
  keep_found :
      (o : Option HitRow) (c : Option Text)
      → of_campaign campaign_id (lookup candidate_id db.hits) ≡ o
      → lookup campaign_id db.selected ≡ c
      → KeepsSelected db (select campaign_id candidate_id db).1
  unfolding select
  keep_found none c e f = record { kept = λ k v h. ground (arith, e, h) }
  keep_found (some row) none e f = record {
    kept = λ k v h. ground (arith, e, f, h, lookup-insert k campaign_id candidate_id db.selected);
  }
  keep_found (some row) (some existing) e f = record { kept = λ k v h. ground (arith, e, f, h) }

  -- Whatever is selected, and whether it returns or raises, every campaign that had a selected
  -- candidate keeps it.
  pub select-KeepsSelected : KeepsSelected db (select campaign_id candidate_id db).1
  select-KeepsSelected = keep_found _ _ refl refl

  selected_hit :
      (o : Option HitRow) (c : Option Text) (r : Selected)
      → lookup candidate_id db.hits ≡ o
      → lookup campaign_id db.selected ≡ c
      → (select campaign_id candidate_id db).0 ≡ ok r
      → get_selected campaign_id (select campaign_id candidate_id db).1
        ≡ (ok r, (select campaign_id candidate_id db).1)
  unfolding select get_selected
  selected_hit none c r e f h = absurd (ground arith)
  selected_hit (some row) none r e f h =
      ground (arith, e, f, h, lookup-insert_self campaign_id candidate_id db.selected)
  selected_hit (some row) (some existing) r e f h = ground (arith, e, f, h)

  -- A target that was selected is the one that the campaign's live capture gets.
  pub get_selected-select :
      (r : Selected)
      → (select campaign_id candidate_id db).0 ≡ ok r
      → get_selected campaign_id (select campaign_id candidate_id db).1
        ≡ (ok r, (select campaign_id candidate_id db).1)
  get_selected-select r h = selected_hit _ _ r refl refl h
