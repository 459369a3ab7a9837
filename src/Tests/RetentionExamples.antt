-- ===== src/Tests/RetentionExamples.antt =====
-- Retention at a group with one old and one new post.
use fb_scraper.Prelude.{
  ℕ, ◌≡◌, ◌⊎◌, refl, true, false, ◌||◌, Option, some, [], ◌∷◌, Text, text, text_eq, nat_eq,
}
use fb_scraper.Prelude.Dict.{lookup}
use fb_scraper.Errors.{ok, err, integrity_error}
use fb_scraper.Exec.Steps.{Steps}
use fb_scraper.Exec.Fixed.{Fixes}
use fb_scraper.Storage.Tables.{GroupRow, PostRow, empty_database, entity_type_eq}
use fb_scraper.Retention.{
  CleanupReceipt, Store, is_old_key, delete_counters, delete_normalized, clean_normalized, clean,
}
use fb_scraper.Retention.Predicted.{data_of, clean-Fixes}
use fb_scraper.Retention.Removed.{IsRemoved, held_posts, held_groups, clean_normalized-IsRemoved}

abbrev group_at : ℕ → GroupRow
group_at observed_at = record {
  canonical_url = text "https://g";
  observed_at = observed_at;
  raw_capture_id = text "c";
  schema_version = text "1.0";
  payload_json = text "{}";
}

abbrev post_at : ℕ → PostRow
post_at observed_at = record {
  group_id = text "g";
  canonical_url = text "https://p";
  observed_at = observed_at;
  raw_capture_id = text "c";
  schema_version = text "1.0";
  payload_json = text "{}";
}

abbrev store_at : ℕ → Store
store_at group_observed_at = record {
  database = record empty_database {
    groups = (text "g", group_at group_observed_at) ∷ [];
    posts = (text "old", post_at 3) ∷ (text "new", post_at 9) ∷ [];
  };
  receipts = [];
  raw_files = (text "c.html.gz", text "raw") ∷ [];
}

abbrev named : Text → Option Text
named path = some path

clean-Fixes_example : Steps (Fixes data_of) (clean named 20 (text "30d") (text "30d") true)
clean-Fixes_example = clean-Fixes named 20 (text "30d") (text "30d")

clean_normalized-IsRemoved_example :
    ((r : CleanupReceipt) × ((clean_normalized 5 false (store_at 9)).0 ≡ ok r)
      × IsRemoved 5 (store_at 9).database r (clean_normalized 5 false (store_at 9)).1.database)
    ⊎ (((clean_normalized 5 false (store_at 9)).0 ≡ err integrity_error)
        × ((clean_normalized 5 false (store_at 9)).1 ≡ store_at 9)
        × ((held_posts 5 (store_at 9).database || held_groups 5 (store_at 9).database) ≡ true))
clean_normalized-IsRemoved_example = clean_normalized-IsRemoved 5 (store_at 9)

-- A group that is older than a post of it stops the run.
old_group : (clean_normalized 5 false (store_at 3)).0 ≡ err integrity_error
unfolding clean_normalized delete_normalized delete_counters is_old_key lookup text_eq
    entity_type_eq
old_group = refl
