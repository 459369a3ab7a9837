-- ===== src/Metrics/Rounding/Exact.antt =====
-- The comparisons of rounded quotients with the doubles of 1, 0.99, 0.995 and 0.001.
use fb_scraper.Prelude.{
  ℕ, zero, suc, ◌≡◌, ◌+◌, ◌*◌, ◌≤◌, ◌<◌, true, leb, ltb, arith, refl, ◌∙◌, subst, Bool-cases, inl,
  inr, leb→le, nat_eq, ◌⊎◌, ◌↔◌, sym, ltb→lt, ltb_false→le,
}
use native.Mathlib.Decide.{ℕ_discrete}
use native.Mathlib.Nat.{mul-le-mul_right}
use fb_scraper.Metrics.Rounding.{nearest, unit, unit_of_one, rounded, is_one, at_least, at_most}
use fb_scraper.Metrics.Rounding.Error.{
  IsNear, rounded-IsNear, rounded_fine, not_below, times, share_99, share_995, share_1, share_one,
}

le→leb : (a b : ℕ) → a ≤ b → leb a b ≡ true
le→leb a b h = ground arith

-- A whole number of units is rounded to itself.
near_self : (d m k : ℕ) → 0 < d → IsNear (d * k) d m → m ≡ k
near_self d m k p near = omega (
  arith,
  not_below k m (λ l. omega (arith, near.below, p, more k m l)),
  not_below m k (λ l. omega (arith, near.above, p, more m k l)),
)
  where
    more : (a b : ℕ) → a < b → d * a + d ≤ d * b
    more a b l = grind (arith, times d _ _ l)

unit_here : (fuel n d k : ℕ) → d ≤ n → unit (suc fuel) n d k ≡ k
unfolding unit
unit_here fuel n d k h = ground arith

unit_next : (fuel n d k : ℕ) → n < d → unit (suc fuel) n d k ≡ unit fuel (2 * n) d (2 * k)
unfolding unit
unit_next fuel n d k h = ground arith

-- A unit is a multiple of the first one.
unit_multiple : (fuel n d k : ℕ) → (t : ℕ) × (1 ≤ t) × (unit fuel n d k ≡ k * t)
unfolding unit
unit_multiple zero n d k = (1, omega arith, omega arith)
unit_multiple (suc fuel) n d k =
    let (t, l, e) = unit_multiple fuel (2 * n) d (2 * k) in
    elim (Bool-cases (leb d n)) [
      | inl y ↦ (1, omega arith, ground (arith, y))
      | inr f ↦ (2 * t, omega (arith, l), grind (arith, f, e))
    ]

-- From one half on, there is at most one halving.
unit_half :
    (n d : ℕ)
    → d ≤ 2 * n
    → (n < d → unit 1022 n d unit_of_one ≡ 9007199254740992)
      × (d ≤ n → unit 1022 n d unit_of_one ≡ unit_of_one)
unit_half n d h = (
  (λ l. unit_next 1021 n d unit_of_one l ∙ unit_here 1020 (2 * n) d 9007199254740992 h),
  unit_here 1021 n d unit_of_one,
)

-- Below one in a thousand, there are ten halvings or more.
unit_small :
    (n d : ℕ)
    → 1000 * n ≤ d
    → 0 < d
    → (t : ℕ) × (1 ≤ t) × (unit 1022 n d unit_of_one ≡ 4611686018427387904 * t)
unit_small n d h p =
    let (t, l, e) =
      unit_multiple 1012 (2 * (2 * (2 * (2 * (2 * (2 * (2 * (2 * (2 * (2 * n)))))))))) d
        4611686018427387904 in
    (
      t,
      l,
      unit_next 1021 n d 4503599627370496 (omega (arith, h, p))
          ∙ unit_next 1020 (2 * n) d 9007199254740992 (omega (arith, h, p))
          ∙ unit_next 1019 (2 * (2 * n)) d 18014398509481984 (omega (arith, h, p))
          ∙ unit_next 1018 (2 * (2 * (2 * n))) d 36028797018963968 (omega (arith, h, p))
          ∙ unit_next 1017 (2 * (2 * (2 * (2 * n)))) d 72057594037927936 (omega (arith, h, p))
          ∙ unit_next 1016 (2 * (2 * (2 * (2 * (2 * n))))) d 144115188075855872
              (omega (arith, h, p))
          ∙ unit_next 1015 (2 * (2 * (2 * (2 * (2 * (2 * n)))))) d 288230376151711744
              (omega (arith, h, p))
          ∙ unit_next 1014 (2 * (2 * (2 * (2 * (2 * (2 * (2 * n))))))) d 576460752303423488
              (omega (arith, h, p))
          ∙ unit_next 1013 (2 * (2 * (2 * (2 * (2 * (2 * (2 * (2 * n)))))))) d 1152921504606846976
              (omega (arith, h, p))
          ∙ unit_next 1012 (2 * (2 * (2 * (2 * (2 * (2 * (2 * (2 * (2 * n))))))))) d
              2305843009213693952 (omega (arith, h, p))
          ∙ e,
    )

-- What a quotient that is large enough is rounded to, by its unit
reaches_99 :
    (n d m k : ℕ)
    → (k ≡ 9007199254740992) ⊎ (k ≡ unit_of_one)
    → 2 * (n * k) ≤ 2 * (d * m) + d
    → 99 * d ≤ 100 * n
    → 0 < d
    → 8917127262193582 * k ≤ m * 9007199254740992
reaches_99 n d m k u a b c = not_below (m * 9007199254740992) (8917127262193582 * k) (λ l. elim u [
  | inl e ↦ omega (arith, nk 9007199254740992 e, b, c, dm 8917127262193581 (omega (arith, l, e)))
  | inr e ↦ omega (arith, nk unit_of_one e, b, c, dm 4458563631096790 (omega (arith, l, e)))
])
  where
    nk : (u : ℕ) → k ≡ u → 2 * (n * u) ≤ 2 * (d * m) + d
    nk u e = subst (λ x. 2 * (n * x) ≤ 2 * (d * m) + d) e a

    dm : (b : ℕ) → m ≤ b → d * m ≤ d * b
    dm b h = times d m b h

reaches_995 :
    (n d m k : ℕ)
    → (k ≡ 9007199254740992) ⊎ (k ≡ unit_of_one)
    → 2 * (n * k) ≤ 2 * (d * m) + d
    → 995 * d ≤ 1000 * n
    → 0 < d
    → 8962163258467287 * k ≤ m * 9007199254740992
reaches_995 n d m k u a b c = not_below (m * 9007199254740992) (8962163258467287 * k) (λ l. elim u [
  | inl e ↦ omega (arith, nk 9007199254740992 e, b, c, dm 8962163258467286 (omega (arith, l, e)))
  | inr e ↦ omega (arith, nk unit_of_one e, b, c, dm 4481081629233643 (omega (arith, l, e)))
])
  where
    nk : (u : ℕ) → k ≡ u → 2 * (n * u) ≤ 2 * (d * m) + d
    nk u e = subst (λ x. 2 * (n * x) ≤ 2 * (d * m) + d) e a

    dm : (b : ℕ) → m ≤ b → d * m ≤ d * b
    dm b h = times d m b h

stays_1 :
    (n d m k t : ℕ)
    → k ≡ 4611686018427387904 * t
    → 1 ≤ t
    → 2 * (d * m) ≤ 2 * (n * k) + d
    → 1000 * n ≤ d
    → 0 < d
    → m * 4611686018427387904 ≤ 4611686018427388 * k
stays_1 n d m k t e l a b c = omega (arith, whole t m l (omega (arith, thousandth, e)), e)
  where
    by_unit : 1000 * (n * k) ≤ d * k
    by_unit = grind (arith, mul-le-mul_right k b)

    thousandth : 2000 * m ≤ 2 * k + 1000
    thousandth =
        not_below (2 * k + 1000) (2000 * m)
          (λ h. omega (arith, a, by_unit, times_more (times d _ _ h), c))
      where
        times_more :
            d * suc (2 * k + 1000) ≤ d * (2000 * m) → 2 * (d * k) + 1001 * d ≤ 2000 * (d * m)
        times_more h = grind (arith, h)

    whole : (t m : ℕ) → 1 ≤ t → 2000 * m ≤ 9223372036854775808 * t + 1000 → m ≤ 4611686018427388 * t
    whole t m l h = omega (arith, l, h)

-- The doubles of the three literals
double_99 : rounded 99 100 ≡ record { numerator = 8917127262193582; denominator = 9007199254740992 }
unfolding rounded nearest unit nat_eq ℕ_discrete
double_99 = refl

double_995 :
    rounded 995 1000 ≡ record { numerator = 8962163258467287; denominator = 9007199254740992 }
unfolding rounded nearest unit nat_eq ℕ_discrete
double_995 = refl

double_1 :
    rounded 1 1000 ≡ record { numerator = 4611686018427388; denominator = 4611686018427387904 }
unfolding rounded nearest unit nat_eq ℕ_discrete
double_1 = refl

-- Counts of at most a million million, of which the first is a part of the second
module _ (n d : ℕ) (part : n ≤ d) (some_d : 0 < d) (bound : d ≤ 1000000000000) where
  half_unit :
      d ≤ 2 * n
      → ((rounded n d).denominator ≡ 9007199254740992) ⊎ ((rounded n d).denominator ≡ unit_of_one)
  unfolding rounded
  half_unit h = elim (Bool-cases (ltb n d)) [
    | inl l ↦ inl ((unit_half n d h).0 (ltb→lt n d l))
    | inr g ↦ inr ((unit_half n d h).1 (ltb_false→le n d g))
  ]

  -- The comparisons of the doubles are those of the quotients.
  pub at_least_99 : (at_least (rounded 99 100) (rounded n d) ≡ true) ↔ (99 * d ≤ 100 * n)
  at_least_99 = (
    (λ h.
        share_99 n d (rounded n d).numerator (rounded n d).denominator (rounded-IsNear n d some_d)
          (rounded_fine n d) bound
          (leb→le _ _ (subst (λ x. at_least x (rounded n d) ≡ true) double_99 h))),
    λ h.
        subst (λ x. at_least x (rounded n d) ≡ true) (sym double_99)
          (le→leb _ _ (
            reaches_99 n d (rounded n d).numerator (rounded n d).denominator
              (half_unit (omega (arith, h))) (rounded-IsNear n d some_d).above h some_d)),
  )

  pub at_least_995 : (at_least (rounded 995 1000) (rounded n d) ≡ true) ↔ (995 * d ≤ 1000 * n)
  at_least_995 = (
    (λ h.
        share_995 n d (rounded n d).numerator (rounded n d).denominator (rounded-IsNear n d some_d)
          (rounded_fine n d) bound
          (leb→le _ _ (subst (λ x. at_least x (rounded n d) ≡ true) double_995 h))),
    λ h.
        subst (λ x. at_least x (rounded n d) ≡ true) (sym double_995)
          (le→leb _ _ (
            reaches_995 n d (rounded n d).numerator (rounded n d).denominator
              (half_unit (omega (arith, h))) (rounded-IsNear n d some_d).above h some_d)),
  )

  pub at_most_1 : (at_most (rounded 1 1000) (rounded n d) ≡ true) ↔ (1000 * n ≤ d)
  unfolding rounded
  at_most_1 = (
    (λ h.
        share_1 n d (rounded n d).numerator (rounded n d).denominator (rounded-IsNear n d some_d)
          (rounded_fine n d) bound
          (leb→le _ _ (subst (λ x. at_most x (rounded n d) ≡ true) double_1 h))),
    λ h.
        let (t, l, e) = unit_small n d h some_d in
        subst (λ x. at_most x (rounded n d) ≡ true) (sym double_1)
          (le→leb _ _ (
            stays_1 n d (rounded n d).numerator (rounded n d).denominator t e l
              (rounded-IsNear n d some_d).below h some_d)),
  )

  pub is_one_iff : (is_one (rounded n d) ≡ true) ↔ (n ≡ d)
  is_one_iff = (
    (λ h. omega (
      arith,
      part,
      share_one n d _ _ (rounded-IsNear n d some_d) (rounded_fine n d) bound (ground (arith, h)),
    )),
    λ e. ground (
      arith,
      near_self d (rounded n d).numerator (rounded n d).denominator some_d (
          subst (λ x. IsNear (x * (rounded n d).denominator) d (rounded n d).numerator) e
            (rounded-IsNear n d some_d)),
    ),
  )
