-- ===== src/Prelude/Sort/Order.antt =====
-- What `sorted` does by an order that is total and transitive, and which properties of a list it
-- keeps.
use mathlib.Core.Path.{◌≡◌, refl}
use mathlib.Core.Bool.{Bool, true, false, ◌&&◌, ◌||◌}
use mathlib.Core.List.{List, [], ◌∷◌, map}
use native.Mathlib.Omega.{arith}
use fb_scraper.Prelude.Equality.{Eq, ◌==◌, contains}
use fb_scraper.Prelude.Lists.{length, all}
use fb_scraper.Prelude.Sort.{insert, sorted}

module _ {ℓ} {A : Type ℓ} where
  -- Each item is before all that follow it.
  abbrev pub is_sorted : (A → A → Bool) → List A → Bool
  is_sorted le [] = true
  is_sorted le (x ∷ xs) = all (le x) xs && is_sorted le xs

  module _ (le : A → A → Bool) where
    length-insert : (x : A) (ys : List A) → length (insert le x ys) ≡ length (x ∷ ys)
    unfolding insert
    length-insert x [] = refl
    length-insert x (y ∷ ys) = ground (arith, length-insert x ys)

    pub length-sorted : (xs : List A) → length (sorted le xs) ≡ length xs
    unfolding sorted
    length-sorted [] = refl
    length-sorted (x ∷ xs) = ground (arith, length-sorted xs, length-insert x (sorted le xs))

    all-insert : (p : A → Bool) (x : A) (ys : List A) → all p (insert le x ys) ≡ (p x && all p ys)
    unfolding insert
    all-insert p x [] = refl
    all-insert p x (y ∷ ys) = ground (arith, all-insert p x ys)

    pub all-sorted : (p : A → Bool) (xs : List A) → all p (sorted le xs) ≡ all p xs
    unfolding sorted
    all-sorted p [] = refl
    all-sorted p (x ∷ xs) = ground (arith, all-sorted p xs, all-insert p x (sorted le xs))

    module _ {κ} {B : Type κ} ⦃e : Eq B⦄ (f : A → B) (b : B) where
      pub contains-map-insert :
          (x : A) (ys : List A)
          → contains (map f (insert le x ys)) b ≡ ((b == f x) || contains (map f ys) b)
      unfolding insert
      contains-map-insert x [] = refl
      contains-map-insert x (y ∷ ys) = ground (arith, contains-map-insert x ys)

      pub contains-map-sorted :
          (xs : List A) → contains (map f (sorted le xs)) b ≡ contains (map f xs) b
      unfolding sorted
      contains-map-sorted [] = refl
      contains-map-sorted (x ∷ xs) =
          ground (arith, contains-map-sorted xs, contains-map-insert x (sorted le xs))

    module _ (total : (x y : A) → le x y ≡ false → le y x ≡ true)
        (trans : (x y z : A) → le x y ≡ true → le y z ≡ true → le x z ≡ true) where
      all_trans :
          (x y : A) (ys : List A) → le x y ≡ true → all (le y) ys ≡ true → all (le x) ys ≡ true
      all_trans x y [] h k = refl
      all_trans x y (z ∷ zs) h k = ground (arith, all_trans x y zs, trans x y z)

      insert-sorted :
          (x : A) (ys : List A) → is_sorted le ys ≡ true → is_sorted le (insert le x ys) ≡ true
      unfolding insert
      insert-sorted x [] h = refl
      insert-sorted x (y ∷ ys) h =
          ground (arith, insert-sorted x ys, total x y, all_trans x y ys, all-insert (le y) x ys)

      pub is_sorted-sorted : (xs : List A) → is_sorted le (sorted le xs) ≡ true
      unfolding sorted
      is_sorted-sorted [] = refl
      is_sorted-sorted (x ∷ xs) = insert-sorted x (sorted le xs) (is_sorted-sorted xs)
