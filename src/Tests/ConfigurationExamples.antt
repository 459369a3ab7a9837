-- ===== src/Tests/ConfigurationExamples.antt =====
-- The theorem on the configuration's limits, and what its tests let pass.
use fb_scraper.Prelude.{◌≡◌, refl, true, some, [], ◌∷◌, Text, text, text_eq, nat_eq, pos}
use fb_scraper.Prelude.Dict.{Dict, lookup}
use fb_scraper.Errors.{ok, err, type_error}
use fb_scraper.Configuration.{
  nan, infinity, from_zero, Scalar, integer, float, Entry, scalar, array, table, Paths, number_pair,
}
use fb_scraper.Configuration.Operator.{Protection, protection, session, whole}
use fb_scraper.Configuration.Bounds.{IsProtected, protection-IsProtected}

abbrev seconds : Scalar → Scalar → Entry
seconds a b = array (a ∷ b ∷ [])

-- A table with these delays between two navigations
abbrev with_navigation : Entry → Dict Text Entry
with_navigation delays =
    (text "navigation_delay_seconds", delays)
    ∷ (text "scroll_delay_seconds", seconds (integer (pos 6)) (float (from_zero 15 1)))
    ∷ (text "expansion_delay_seconds", seconds (integer (pos 3)) (integer (pos 7)))
    ∷ (text "retry_delays_seconds", seconds (integer (pos 30)) (integer (pos 120)))
    ∷ (text "between_groups_seconds", scalar (integer (pos 900)))
    ∷ (text "workers", scalar (integer (pos 1)))
    ∷ (text "active_groups", scalar (integer (pos 1)))
    ∷ (text "first_group_post_limit", scalar (integer (pos 12)))
    ∷ []

abbrev protected_run : Protection
protected_run = record {
  navigation_delay_seconds = (whole 12, whole 20);
  scroll_delay_seconds = (whole 6, from_zero 15 1);
  expansion_delay_seconds = (whole 3, whole 7);
  retry_delays_seconds = (whole 30, whole 120);
  between_groups_seconds = whole 900;
  workers = pos 1;
  active_groups = pos 1;
  first_group_post_limit = pos 12;
}

protection-IsProtected_example : IsProtected protected_run
unfolding protection lookup text_eq nat_eq number_pair
protection-IsProtected_example =
    protection-IsProtected
      (some (table (with_navigation (seconds (integer (pos 12)) (integer (pos 20)))))) protected_run
      refl refl

-- Every comparison with `nan` is false, so a pair of an infinite delay and `nan` is in bounds.
nan_passes :
    protection (some (table (with_navigation (seconds (float infinity) (float nan)))))
    ≡ ok (record protected_run { navigation_delay_seconds = (infinity, nan) })
unfolding protection lookup text_eq nat_eq number_pair
nan_passes = refl

abbrev plain_paths : Paths
plain_paths = record { is_absolute = λ t. true; resolve = λ parent t. t }

-- A method that is an array is a TypeError.
array_method : session plain_paths [] ((text "method", array []) ∷ []) ≡ err type_error
unfolding session lookup text_eq nat_eq
array_method = refl
