-- ===== src/Tests/QualityExamples.antt =====
-- The gates of phase one at two identifiers that every run has found.
use fb_scraper.Prelude.{
  ◌≡◌, ◌∙◌, sym, arith, ◌↔◌, ap, refl, true, ◌++◌, List, [], ◌∷◌, Text, text, text_eq, nat_eq, pos,
  some,
}
use fb_scraper.Prelude.Sort.{sorted}
use fb_scraper.Prelude.Sets.{sorted_set}
use fb_scraper.Prelude.Dict.{lookup}
use fb_scraper.Errors.{ok}
use fb_scraper.Metrics.Receipts.{Quality, Evidence, is_refused, precision, gates, write_quality}
use fb_scraper.Metrics.Rounding.{rounded, nearest, unit, at_least}
use native.Mathlib.Decide.{ℕ_discrete}
use fb_scraper.Metrics.Quality.{IsExit, write_quality-IsExit}
use fb_scraper.Tests.Instances.{Codec, code_codec, list_codec}

abbrev texts : Codec (List Text)
texts = list_codec (list_codec code_codec)

-- A dump that keeps the items of a list apart
abbrev dump : List Text → Text
dump ts = texts.put ts []

dump_injective : (xs ys : List Text) → dump xs ≡ dump ys → xs ≡ ys
dump_injective xs ys h =
    let same : some (xs, []) ≡ some (ys, []) =
      sym (texts.get-put xs []) ∙ ap texts.get h ∙ texts.get-put ys [] in
    ground (arith, same)

abbrev group_and_post : List Text
group_and_post = text "group:1" ∷ text "post:2" ∷ []

abbrev quality : Quality
quality = record {
  run_id = text "run";
  expected_identifiers = text "post:2" ∷ group_and_post;
  run_identifiers = group_and_post;
  resume_identifiers = text "post:2" ∷ text "group:1" ∷ [];
  replay_identifiers = group_and_post;
  expected_required_fields = pos 100;
  observed_required_fields = pos 99;
  expected_pages = pos 2;
  observed_pages = pos 2;
  canonical_record_count = pos 2;
  duplicate_count = pos 0;
  retries = pos 1;
  measurement = record {
    wall_seconds = 60;
    cpu_seconds = 10;
    peak_memory_bytes = 1000;
    storage_delta_bytes = pos 500;
  };
}

write_quality-IsExit_example :
    (e : Evidence) × ((write_quality dump quality []).0 ≡ ok e)
    × (lookup (text "run.phase1-quality.json") (write_quality dump quality []).1 ≡ some e)
    × (e.phase_one_gates_pass ≡ true ↔ IsExit quality)
unfolding is_refused text_eq nat_eq
write_quality-IsExit_example =
    write_quality-IsExit dump quality [] refl
      (record {
        run = omega arith;
        fields = omega arith;
        pages = omega arith;
        records = omega arith;
      })
      (record { resumed = λ e. dump_injective _ _ e; replayed = λ e. dump_injective _ _ e })

-- The texts of a list, one after the other
abbrev joined : List Text → Text
joined [] = []
joined (t ∷ ts) = t ++ joined ts

-- The gates of this evidence pass.
quality_passes : gates joined quality ≡ true
unfolding gates precision rounded nearest unit sorted_set sorted text_eq nat_eq ℕ_discrete
quality_passes = refl

-- With far larger counts, one field less than 99 of 100 is rounded to the double of 0.99.
rounded_up : at_least (rounded 99 100) (rounded 98999999999999999 100000000000000000) ≡ true
unfolding rounded nearest unit nat_eq ℕ_discrete
rounded_up = refl
