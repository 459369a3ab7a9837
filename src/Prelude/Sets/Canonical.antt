-- ===== src/Prelude/Sets/Canonical.antt =====
-- The order of texts is total, and the sorted list of a set depends on its members only.
use mathlib.Core.Path.{◌≡◌, refl, sym, subst, ap₂, ◌∙◌}
use mathlib.Core.Bool.{Bool, true, false}
use mathlib.Core.Logic.{inl, inr}
use mathlib.Core.List.{List, [], ◌∷◌, map}
use native.Mathlib.Omega.{arith}
use fb_scraper.Prelude.Equality.{contains}
use fb_scraper.Prelude.Lists.{all}
use fb_scraper.Prelude.Texts.{Text, text_eq, text_leb, Text-cases}
use fb_scraper.Prelude.Sort.{sorted, insert}
use fb_scraper.Prelude.Sort.Order.{
  is_sorted, is_sorted-sorted, contains-map-insert, contains-map-sorted,
}
use fb_scraper.Prelude.Sets.{has_duplicates, distinct, sorted_set}

pub text_leb_total : (s t : Text) → text_leb s t ≡ false → text_leb t s ≡ true
text_leb_total [] t h = ground arith
text_leb_total (c ∷ s) [] h = refl
text_leb_total (c ∷ s) (d ∷ t) h = ground (arith, text_leb_total s t)

pub text_leb_trans :
    (s t u : Text) → text_leb s t ≡ true → text_leb t u ≡ true → text_leb s u ≡ true
text_leb_trans [] t u h k = refl
text_leb_trans (c ∷ s) [] u h k = ground arith
text_leb_trans (c ∷ s) (d ∷ t) [] h k = ground arith
text_leb_trans (c ∷ s) (d ∷ t) (e ∷ u) h k = ground (arith, text_leb_trans s t u)

pub text_leb_antisym : (s t : Text) → text_leb s t ≡ true → text_leb t s ≡ true → s ≡ t
text_leb_antisym [] [] h k = refl
text_leb_antisym [] (d ∷ t) h k = ground arith
text_leb_antisym (c ∷ s) [] h k = ground arith
text_leb_antisym (c ∷ s) (d ∷ t) h k = ground (arith, text_leb_antisym s t)

-- A set has the members of its list, each once.
pub contains-distinct : (xs : List Text) (a : Text) → contains (distinct xs) a ≡ contains xs a
contains-distinct [] a = refl
contains-distinct (x ∷ xs) a = ground (arith, contains-distinct xs a, contains-distinct xs x)

has_duplicates-distinct : (xs : List Text) → has_duplicates (distinct xs) ≡ false
has_duplicates-distinct [] = refl
has_duplicates-distinct (x ∷ xs) = ground (arith, has_duplicates-distinct xs)

-- Sorting by any order keeps the members and the duplicates of a key.
module _ {ℓ} {A : Type ℓ} (le : A → A → Bool) (f : A → Text) where
  duplicates-map-insert :
      (x : A) (ys : List A)
      → has_duplicates (map f (insert le x ys)) ≡ has_duplicates (map f (x ∷ ys))
  unfolding insert
  duplicates-map-insert x [] = refl
  duplicates-map-insert x (y ∷ ys) =
      ground (arith, duplicates-map-insert x ys, contains-map-insert le f (f y) x ys)

  pub duplicates-map-sorted :
      (xs : List A) → has_duplicates (map f (sorted le xs)) ≡ has_duplicates (map f xs)
  unfolding sorted
  duplicates-map-sorted [] = refl
  duplicates-map-sorted (x ∷ xs) = ground (
    arith,
    duplicates-map-sorted xs,
    duplicates-map-insert x (sorted le xs),
    contains-map-sorted le f (f x) xs,
  )

map_self : (xs : List Text) → map (λ x. x) xs ≡ xs
map_self [] = refl
map_self (x ∷ xs) = ground (arith, map_self xs)

contains-sorted : (a : Text) (xs : List Text) → contains (sorted text_leb xs) a ≡ contains xs a
contains-sorted a xs = simp map_self at (contains-map-sorted text_leb (λ x. x) a xs)

duplicates-sorted : (xs : List Text) → has_duplicates (sorted text_leb xs) ≡ has_duplicates xs
duplicates-sorted xs = simp map_self at (duplicates-map-sorted text_leb (λ x. x) xs)

all_leb :
    (y : Text) (ys : List Text) (x : Text)
    → all (text_leb y) ys ≡ true
    → contains ys x ≡ true
    → text_leb y x ≡ true
all_leb y [] x h k = ground arith
all_leb y (z ∷ zs) x h k = elim (Text-cases x z) [
  | inl p ↦ subst (λ u. text_leb y u ≡ true) (sym p) (ground arith)
  | inr n ↦ all_leb y zs x (ground arith) (ground arith)
]

-- Without their common head, two lists without duplicates still have the same members.
tail_members :
    (x y a : Text) (xs ys : List Text)
    → x ≡ y
    → contains xs x ≡ false
    → contains ys y ≡ false
    → contains (x ∷ xs) a ≡ contains (y ∷ ys) a
    → contains xs a ≡ contains ys a
tail_members x y a xs ys p hx hy h = elim (Text-cases a x) [
  | inl q ↦
      subst (λ b. contains xs b ≡ false) (sym q) hx
      ∙ sym (subst (λ b. contains ys b ≡ false) (sym (q ∙ p)) hy)
  | inr n ↦ ground (arith, subst (λ b. contains (x ∷ xs) a ≡ contains (b ∷ ys) a) (sym p) h)
]

-- Two sorted lists without duplicates that have the same members are equal.
pub sorted_unique :
    (xs ys : List Text)
    → is_sorted text_leb xs ≡ true
    → is_sorted text_leb ys ≡ true
    → has_duplicates xs ≡ false
    → has_duplicates ys ≡ false
    → ((a : Text) → contains xs a ≡ contains ys a)
    → xs ≡ ys
sorted_unique [] [] hx hy dx dy h = refl
sorted_unique [] (y ∷ ys) hx hy dx dy h = absurd (ground (arith, h y))
sorted_unique (x ∷ xs) [] hx hy dx dy h = absurd (ground (arith, h x))
sorted_unique (x ∷ xs) (y ∷ ys) hx hy dx dy h = elim (Text-cases x y) [
  | inl p ↦ ap₂ ◌∷◌ p (
      sorted_unique xs ys (ground arith) (ground arith) (ground arith) (ground arith)
        (λ a. tail_members x y a xs ys p (ground arith) (ground arith) (h a)))
  | inr n ↦ absurd (
      n (
        text_leb_antisym x y (all_leb x xs y (ground arith) (ground (arith, h y)))
          (all_leb y ys x (ground arith) (ground (arith, h x)))))
]

pub sorted_set_canonical :
    (xs ys : List Text)
    → ((a : Text) → contains xs a ≡ contains ys a)
    → sorted_set xs ≡ sorted_set ys
unfolding sorted_set
sorted_set_canonical xs ys h =
    sorted_unique (sorted text_leb (distinct xs)) (sorted text_leb (distinct ys))
      (is_sorted-sorted text_leb text_leb_total text_leb_trans (distinct xs))
      (is_sorted-sorted text_leb text_leb_total text_leb_trans (distinct ys))
      (duplicates-sorted (distinct xs) ∙ has_duplicates-distinct xs)
      (duplicates-sorted (distinct ys) ∙ has_duplicates-distinct ys)
      (λ a. members xs a ∙ (h a ∙ sym (members ys a)))
  where
    members :
        (zs : List Text) (a : Text) → contains (sorted text_leb (distinct zs)) a ≡ contains zs a
    members zs a = contains-sorted a (distinct zs) ∙ contains-distinct zs a

pub has_duplicates-sorted_set : (xs : List Text) → has_duplicates (sorted_set xs) ≡ false
unfolding sorted_set
has_duplicates-sorted_set xs = duplicates-sorted (distinct xs) ∙ has_duplicates-distinct xs

pub contains-sorted_set : (xs : List Text) (a : Text) → contains (sorted_set xs) a ≡ contains xs a
unfolding sorted_set
contains-sorted_set xs a = contains-sorted a (distinct xs) ∙ contains-distinct xs a
