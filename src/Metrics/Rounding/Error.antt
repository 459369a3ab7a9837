-- ===== src/Metrics/Rounding/Error.antt =====
-- How far a rounded quotient is from the exact one.
use fb_scraper.Prelude.{
  ℕ, zero, suc, ◌≡◌, ◌+◌, ◌*◌, ◌/◌, ◌%◌, ◌≤◌, ◌<◌, Bool, true, false, ◌&&◌, ◌||◌, nat_eq, ◌==◌, ltb,
  arith, refl, ap, Bool-cases, inl, inr, ltb→lt, ltb_false→le, if◌then◌else◌,
}
use native.Mathlib.Nat.{mul-le-mul_left, mul-le-mul_right, mod-lt, div-add-mod}
use fb_scraper.Metrics.Rounding.{nearest, unit, unit_of_one, rounded}

-- At most half of a unit
pub record IsNear (n d m : ℕ) : Type 0 where
  pub above : 2 * n ≤ 2 * (d * m) + d
  pub below : 2 * (d * m) ≤ 2 * n + d

IsNear-if :
    (up : Bool) (n d q r : ℕ)
    → d * q + r ≡ n
    → r < d
    → (up ≡ true → d ≤ 2 * r)
    → (up ≡ false → 2 * r ≤ d)
    → IsNear n d (if up then suc q else q)
IsNear-if true n d q r e l h k = record {
  above = omega (arith, e, l);
  below = omega (arith, e, h refl);
}
IsNear-if false n d q r e l h k = record {
  above = omega (arith, e, k refl);
  below = omega (arith, e);
}

nearest-IsNear : (n d : ℕ) → 0 < d → IsNear n d (nearest n d)
unfolding nearest
nearest-IsNear n d h =
    IsNear-if (ltb d (2 * (n % d)) || ((2 * (n % d) == d) && (n / d % 2 == 1))) n d (n / d) (n % d)
      (div-add-mod n d) (mod-lt n h) (λ t. ground (arith, t)) (λ f. ground (arith, f))

unit_le : (fuel n d k : ℕ) → k ≤ unit fuel n d k
unfolding unit
unit_le zero n d k = omega arith
unit_le (suc fuel) n d k = let rest = unit_le fuel (2 * n) d (2 * k) in ground (arith, rest)

-- Both numbers of a rounded quotient: it is near to n / d, in units of at most 2 ^ -52.
pub rounded-IsNear :
    (n d : ℕ) → 0 < d → IsNear (n * (rounded n d).denominator) d (rounded n d).numerator
unfolding rounded
rounded-IsNear n d h = nearest-IsNear (n * unit 1022 n d unit_of_one) d h

pub rounded_fine : (n d : ℕ) → unit_of_one ≤ (rounded n d).denominator
unfolding rounded
rounded_fine n d = unit_le 1022 n d unit_of_one

-- An inequality times a number
pub times : (c a b : ℕ) → a ≤ b → c * a ≤ c * b
times c a b h = mul-le-mul_left c h

pub not_below : (a b : ℕ) → (a < b → ⊥) → b ≤ a
not_below a b h = elim (Bool-cases (ltb a b)) [
  | inl t ↦ absurd (h (ltb→lt a b t))
  | inr f ↦ ltb_false→le a b f
]

cross : (k p n q d : ℕ) → p * n < q * d → p * (n * k) + k ≤ q * (d * k)
cross k p n q d l = grind (arith, mul-le-mul_right k l)

-- The unit `k` and the counts `n` and `d`, by their products: a quotient that is rounded to at least
-- the double of 0.99 is not below 99 / 100.
below_99 :
    (d k dk nk dm : ℕ)
    → 8917127262193582 * dk ≤ 9007199254740992 * dm
    → 2 * dm ≤ 2 * nk + d
    → 100 * nk + k ≤ 99 * dk
    → 4503599627370496 * d ≤ dk
    → dk ≤ 1000000000000 * k
    → 1 ≤ k
    → ⊥
below_99 d k dk nk dm a b c e f g = omega (arith, a, b, c, e, f, g)

below_995 :
    (d k dk nk dm : ℕ)
    → 8962163258467287 * dk ≤ 9007199254740992 * dm
    → 2 * dm ≤ 2 * nk + d
    → 1000 * nk + k ≤ 995 * dk
    → 4503599627370496 * d ≤ dk
    → dk ≤ 1000000000000 * k
    → 1 ≤ k
    → ⊥
below_995 d k dk nk dm a b c e f g = omega (arith, a, b, c, e, f, g)

above_1 :
    (d k dk nk dm : ℕ)
    → 4611686018427387904 * dm ≤ 4611686018427388 * dk
    → 2 * nk ≤ 2 * dm + d
    → dk + k ≤ 1000 * nk
    → 4503599627370496 * d ≤ dk
    → dk ≤ 1000000000000 * k
    → 1 ≤ k
    → ⊥
above_1 d k dk nk dm a b c e f g = omega (arith, a, b, c, e, f, g)

-- `n * k / d` is near to `m`, in a unit of at most 2 ^ -52, for counts of at most a million million.
module _ (n d m k : ℕ) (near : IsNear (n * k) d m) (fine : unit_of_one ≤ k)
    (bound : d ≤ 1000000000000) where
  fine_count : 4503599627370496 * d ≤ d * k
  fine_count = grind (arith, times d _ _ fine)

  bounded_count : d * k ≤ 1000000000000 * k
  bounded_count = mul-le-mul_right k bound

  pub share_99 : 8917127262193582 * k ≤ m * 9007199254740992 → 99 * d ≤ 100 * n
  share_99 h = not_below (100 * n) (99 * d) (λ l.
      below_99 d k (d * k) (n * k) (d * m) (grind (arith, times d _ _ h)) near.below
        (cross k 100 n 99 d l) fine_count bounded_count (omega (arith, fine)))

  pub share_995 : 8962163258467287 * k ≤ m * 9007199254740992 → 995 * d ≤ 1000 * n
  share_995 h = not_below (1000 * n) (995 * d) (λ l.
      below_995 d k (d * k) (n * k) (d * m) (grind (arith, times d _ _ h)) near.below
        (cross k 1000 n 995 d l) fine_count bounded_count (omega (arith, fine)))

  pub share_1 : m * 4611686018427387904 ≤ 4611686018427388 * k → 1000 * n ≤ d
  share_1 h = not_below d (1000 * n) (λ l.
      above_1 d k (d * k) (n * k) (d * m) (grind (arith, times d _ _ h)) near.above
        (grind (arith, mul-le-mul_right k l)) fine_count bounded_count (omega (arith, fine)))

  -- A rounded quotient of one is a quotient of one.
  pub share_one : m ≡ k → d ≤ n
  share_one e =
      not_below n d (λ l. omega (arith, near.below, ap (λ x. d * x) e, add_times l, fine, bound))
    where
      add_times : n < d → n * k + k ≤ d * k
      add_times l = grind (arith, mul-le-mul_right k l)
