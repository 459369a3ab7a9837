-- ===== src/Prelude/Sets.antt =====
-- Python's `set` of texts, and its sorted list.
pub mod Canonical
use Prim.Native.Nat.{ℕ}
use mathlib.Core.Path.{◌≡◌, refl}
use mathlib.Core.Bool.{Bool, true, false, ◌||◌}
use mathlib.Core.List.{List, [], ◌∷◌}
use native.Mathlib.Omega.{arith}
use fb_scraper.Prelude.Equality.{◌==◌, contains, if◌then◌else◌}
use fb_scraper.Prelude.Texts.{Text, text_eq, text_leb}
use fb_scraper.Prelude.Sort.{sorted, insert}

-- `len(set(values)) != len(values)`
abbrev pub has_duplicates : List Text → Bool
has_duplicates [] = false
has_duplicates (x ∷ xs) = contains xs x || has_duplicates xs

-- `set(values)`, each value once
abbrev pub distinct : List Text → List Text
distinct [] = []
distinct (x ∷ xs) = let rest = distinct xs in if contains rest x then rest else x ∷ rest

-- `sorted(set(values))`
unfoldable pub sorted_set : List Text → List Text
unfolding sorted
sorted_set xs = sorted text_leb (distinct xs)
