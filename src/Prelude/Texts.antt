-- ===== src/Prelude/Texts.antt =====
-- A Python `str` is the list of its code points. `str.lower` is written for the letters A to Z,
-- `str.strip` for the white space of ASCII.
use Prim.Native.Nat.{ℕ, ◌+◌, compare, Ordering}
use Prim.Native.Char.{code}
use Prim.Native.String.{String}
use mathlib.Core.Bool.{Bool, true, false, ◌&&◌, ◌||◌}
use mathlib.Core.Logic.{dite, ◌⊎◌, inl, inr, ◌≢◌}
use mathlib.Core.Path.{◌≡◌, refl, sym, ap₂}
use mathlib.Core.List.{List, [], ◌∷◌, map, reverse}
use native.Mathlib.Omega.{arith}
use native.Mathlib.Decide.{ℕ_discrete}
use fb_scraper.Prelude.Equality.{Eq, if◌then◌else◌}
use fb_scraper.Prelude.Numbers.{leb}

abbrev pub Text : Type 0
Text = List ℕ

-- The code points of a literal. `String` has its own `[]` and `∷`.
abbrev pub text : String → Text
text String.[] = []
text (String.◌∷◌ c s) = code c ∷ text s

nil-ne-cons : (x : ℕ) (xs : Text) → ¬ ([] ≡ x ∷ xs)
nil-ne-cons x xs p = ground arith

head_eq : (x y : ℕ) (xs ys : Text) → x ∷ xs ≡ y ∷ ys → x ≡ y
head_eq x y xs ys p = ground arith

tail_eq : (x y : ℕ) (xs ys : Text) → x ∷ xs ≡ y ∷ ys → xs ≡ ys
tail_eq x y xs ys p = ground arith

unfoldable pub text_dec : Discrete Text
unfolding ℕ_discrete nil-ne-cons head_eq tail_eq
text_dec [] [] = yes refl
text_dec [] (y ∷ ys) = no (nil-ne-cons y ys)
text_dec (x ∷ xs) [] = no (λ p. nil-ne-cons x xs (sym p))
text_dec (x ∷ xs) (y ∷ ys) = elim (text_dec xs ys) [
  | yes q ↦ dite (ℕ_discrete x y) (λ p. yes (ap₂ ◌∷◌ p q)) (λ n. no (λ r. n (head_eq x y xs ys r)))
  | no n ↦ no (λ r. n (tail_eq x y xs ys r))
]

instance unfoldable pub text_eq : Eq Text
unfolding text_dec
text_eq = record { dec = text_dec }

-- `str.lower`
unfoldable pub lower_code : ℕ → ℕ
lower_code c = if leb b'A' c && leb c b'Z' then c + 32 else c

unfoldable pub lower : Text → Text
unfolding lower_code
lower = map lower_code

abbrev pub is_space : ℕ → Bool
is_space c = (leb 9 c && leb c 13) || (leb 28 c && leb c 32)

unfoldable pub lstrip : Text → Text
lstrip [] = []
lstrip (c ∷ s) = if is_space c then lstrip s else c ∷ s

-- `str.strip`
unfoldable pub strip : Text → Text
unfolding lstrip
strip s = reverse (lstrip (reverse (lstrip s)))

-- `str.startswith`
unfoldable pub starts_with : Text → Text → Bool
starts_with s [] = true
starts_with [] (p ∷ ps) = false
starts_with (c ∷ s) (p ∷ ps) = (leb c p && leb p c) && starts_with s ps

-- `needle in haystack`
unfoldable pub has_part : Text → Text → Bool
unfolding starts_with
has_part needle [] = starts_with [] needle
has_part needle (c ∷ s) = starts_with (c ∷ s) needle || has_part needle s

-- `s <= t` of Python's texts: by code points
abbrev pub text_leb : Text → Text → Bool
text_leb [] t = true
text_leb (c ∷ s) [] = false
text_leb (c ∷ s) (d ∷ t) = elim (compare c d) [
  | Ordering.lt ↦ true
  | Ordering.eq ↦ text_leb s t
  | Ordering.gt ↦ false
]

-- To split on whether two texts are the same.
pub Text-cases : (s t : Text) → (s ≡ t) ⊎ (s ≢ t)
Text-cases s t = elim (text_dec s t) [ yes p ↦ inl p | no n ↦ inr n ]
