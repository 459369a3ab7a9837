-- ===== src/Configuration/Bounds.antt =====
-- The limits of a protected run that a configuration can set.
use fb_scraper.Prelude.{
  ℕ, zero, suc, ◌*◌, ◌≡◌, ◌≤◌, refl, subst, ap, ◌∙◌, arith, Bool, true, false, not, ◌&&◌, Option,
  none, some, [], ◌∷◌, Text, text, text_eq, ltb_false→le, nat_eq,
}
use native.Mathlib.Decide.{ℕ_discrete}
use fb_scraper.Prelude.Dict.{Dict, lookup}
use fb_scraper.Errors.{Result, ok, err}
use fb_scraper.Exec.Inversion.{ok_injective}
use fb_scraper.Configuration.{
  Number, nan, infinity, minus_infinity, from_zero, below_zero, less, equals, Entry, scalar, array,
  nested, Section, table, entry, refuse_if, number_at, integer_at, number_of, number_pair,
  is_outside, has_only, has_all, ◌>>=◌, ◌>>◌,
}
use fb_scraper.Configuration.Operator.{
  Protection, default_protection, protection_keys, protection_of, protection, is_one, is_limit,
  is_retries,
}

abbrev pub is_number : Number → Bool
is_number nan = false
is_number _ = true

-- Two fractions in order, within the bounds
pub record IsWithin (minimum maximum : ℕ) (x : Number × Number) : Type 0 where
  pub n : ℕ
  pub d : ℕ
  pub m : ℕ
  pub e : ℕ
  pub lower : x.0 ≡ from_zero n d
  pub upper : x.1 ≡ from_zero m e
  pub at_least : minimum * suc d ≤ n
  pub in_order : n * suc e ≤ m * suc d
  pub at_most : m ≤ maximum * suc e

-- A zero is below a positive bound.
sign_lt : (lo n d : ℕ) → 1 ≤ lo → lo * suc d ≤ n * 1 → 1 ≤ n
sign_lt zero n d l h = absurd (omega (arith, l))
sign_lt (suc lo) n d l h = omega (arith, h)

inside :
    (lo hi : ℕ) (a b : Number)
    → 1 ≤ lo
    → is_outside lo hi a b ≡ false
    → is_number a ≡ true
    → is_number b ≡ true
    → IsWithin lo hi (a, b)
unfolding is_outside less
inside lo hi (from_zero n d) (from_zero m e) l h p q = record {
  n = n;
  d = d;
  m = m;
  e = e;
  lower = refl;
  upper = refl;
  at_least = omega (arith, ltb_false→le (n * 1) (lo * suc d) (ground arith));
  in_order = ltb_false→le (m * suc d) (n * suc e) (ground arith);
  at_most = omega (arith, ltb_false→le (hi * suc e) (m * 1) (ground arith));
}
inside lo hi nan b l h p q = absurd (ground arith)
inside lo hi infinity nan l h p q = absurd (ground arith)
inside lo hi infinity infinity l h p q = absurd (ground arith)
inside lo hi infinity minus_infinity l h p q = absurd (ground arith)
inside lo hi infinity (from_zero m e) l h p q = absurd (ground arith)
inside lo hi infinity (below_zero m e) l h p q = absurd (ground arith)
inside lo hi minus_infinity b l h p q = absurd (ground arith)
inside lo hi (below_zero n d) b l h p q = absurd (ground arith)
inside lo hi (from_zero n d) nan l h p q = absurd (ground arith)
inside lo hi (from_zero n d) infinity l h p q = absurd (ground arith)
inside lo hi (from_zero n d) minus_infinity l h p q = absurd (ground arith)
inside lo hi (from_zero n d) (below_zero m e) l h p q = absurd (
    omega (
      arith,
      sign_lt lo n d l (ltb_false→le (n * 1) (lo * suc d) (ground arith)),
      ltb_false→le 0 n (ground arith),
    ))

-- What a block that was not refused has read first, and what came of the rest.
bind_inv :
    {X Y : Type 0} (first : Result X) (rest : X → Result Y) {out : Y}
    → (first >>= rest) ≡ ok out
    → (x : X) × (first ≡ ok x) × (rest x ≡ ok out)
bind_inv (err refusal) rest eq = absurd cc
bind_inv (ok x) rest eq = (x, refl, eq)

guard_inv :
    {B : Type 0} (c : Bool) (m : Result B) {b : B}
    → (refuse_if c >> m) ≡ ok b
    → (c ≡ false) × (m ≡ ok b)
guard_inv true m h = absurd cc
guard_inv false m h = (refl, h)

within :
    (lo hi : ℕ) (value : Option Entry) (x : Number × Number)
    → 1 ≤ lo
    → number_pair lo hi value ≡ ok x
    → is_number x.0 ≡ true
    → is_number x.1 ≡ true
    → IsWithin lo hi x
unfolding number_pair
within lo hi (some (array (a ∷ b ∷ []))) x positive h p q =
    let (lower, la, h₁) =
      bind_inv (number_of a)
        (λ l. number_of b >>= λ u. refuse_if (is_outside lo hi l u) >> ok (l, u)) h in
    let (upper, ub, h₂) =
      bind_inv (number_of b) (λ u. refuse_if (is_outside lo hi lower u) >> ok (lower, u)) h₁ in
    let (o, r) = guard_inv (is_outside lo hi lower upper) (ok (lower, upper)) h₂ in
    let same = ok_injective r in
    subst (IsWithin lo hi) same (
      inside lo hi lower upper positive o (ap (λ y. is_number y.0) same ∙ p)
        (ap (λ y. is_number y.1) same ∙ q))
within lo hi (some (array [])) x positive h p q = absurd cc
within lo hi (some (array (a ∷ []))) x positive h p q = absurd cc
within lo hi (some (array (a ∷ b ∷ c ∷ vs))) x positive h p q = absurd cc
within lo hi (some (scalar v)) x positive h p q = absurd cc
within lo hi (some nested) x positive h p q = absurd cc
within lo hi none x positive h p q = absurd cc

-- The numbers of the three pairs that a configuration can set
abbrev pub are_numbers : Protection → Bool
are_numbers p =
    (is_number p.navigation_delay_seconds.0 && is_number p.navigation_delay_seconds.1)
    && ((is_number p.scroll_delay_seconds.0 && is_number p.scroll_delay_seconds.1)
        && (is_number p.expansion_delay_seconds.0 && is_number p.expansion_delay_seconds.1))

-- The limits of one protected run
pub record IsProtected (p : Protection) : Type 0 where
  pub navigation : IsWithin 10 20 p.navigation_delay_seconds
  pub scroll : IsWithin 6 12 p.scroll_delay_seconds
  pub expansion : IsWithin 3 7 p.expansion_delay_seconds
  pub retries : is_retries p.retry_delays_seconds ≡ true
  pub between_groups : equals p.between_groups_seconds 900 ≡ true
  pub workers : is_one p.workers ≡ true
  pub active_groups : is_one p.active_groups ≡ true
  pub post_limit : is_limit p.first_group_post_limit ≡ true

-- What `_protection` has read of a table, before its tests
record Read (values : Dict Text Entry) (p : Protection) : Type 0 where
  pub navigation :
      number_pair 10 20 (lookup (text "navigation_delay_seconds") values)
      ≡ ok p.navigation_delay_seconds
  pub scroll :
      number_pair 6 12 (lookup (text "scroll_delay_seconds") values) ≡ ok p.scroll_delay_seconds
  pub expansion :
      number_pair 3 7 (lookup (text "expansion_delay_seconds") values)
      ≡ ok p.expansion_delay_seconds
  pub retries : not (is_retries p.retry_delays_seconds) ≡ false
  pub between_groups : not (equals p.between_groups_seconds 900) ≡ false
  pub workers : not (is_one p.workers && is_one p.active_groups) ≡ false
  pub post_limit : not (is_limit p.first_group_post_limit) ≡ false

protection_of-Read :
    (values : Dict Text Entry) (p : Protection) → protection_of values ≡ ok p → Read values p
unfolding protection_of
protection_of-Read values p h =
    let (_, h₀) =
      guard_inv (not (has_only protection_keys values && has_all protection_keys values)) _ h in
    let (navigation, e₁, h₁) =
      bind_inv (number_pair 10 20 (lookup (text "navigation_delay_seconds") values)) _ h₀ in
    let (scroll, e₂, h₂) =
      bind_inv (number_pair 6 12 (lookup (text "scroll_delay_seconds") values)) _ h₁ in
    let (expansion, e₃, h₃) =
      bind_inv (number_pair 3 7 (lookup (text "expansion_delay_seconds") values)) _ h₂ in
    let (retries, e₄, h₄) =
      bind_inv (number_pair 30 120 (lookup (text "retry_delays_seconds") values)) _ h₃ in
    let (e₅, h₅) = guard_inv (not (is_retries retries)) _ h₄ in
    let (between, e₆, h₆) =
      bind_inv (number_at (lookup (text "between_groups_seconds") values)) _ h₅ in
    let (workers, e₇, h₇) = bind_inv (integer_at (lookup (text "workers") values)) _ h₆ in
    let (active, e₈, h₈) = bind_inv (integer_at (lookup (text "active_groups") values)) _ h₇ in
    let (limit, e₉, h₉) =
      bind_inv (integer_at (lookup (text "first_group_post_limit") values)) _ h₈ in
    let (g₁, k₁) = guard_inv (not (equals between 900)) _ h₉ in
    let (g₂, k₂) = guard_inv (not (is_one workers && is_one active)) _ k₁ in
    let (g₃, k₃) = guard_inv (not (is_limit limit)) _ k₂ in
    subst (Read values) (ok_injective k₃) (record {
      navigation = e₁;
      scroll = e₂;
      expansion = e₃;
      retries = e₅;
      between_groups = g₁;
      workers = g₂;
      post_limit = g₃;
    })

default-IsProtected : IsProtected default_protection
unfolding equals nat_eq ℕ_discrete is_outside less
default-IsProtected = record {
  navigation = inside 10 20 (from_zero 10 0) (from_zero 20 0) (omega arith) refl refl refl;
  scroll = inside 6 12 (from_zero 6 0) (from_zero 12 0) (omega arith) refl refl refl;
  expansion = inside 3 7 (from_zero 3 0) (from_zero 7 0) (omega arith) refl refl refl;
  retries = refl;
  between_groups = refl;
  workers = refl;
  active_groups = refl;
  post_limit = refl;
}

table-IsProtected :
    (values : Dict Text Entry) (p : Protection)
    → Read values p
    → are_numbers p ≡ true
    → IsProtected p
table-IsProtected values p r n = record {
  navigation =
      within 10 20 (lookup (text "navigation_delay_seconds") values) p.navigation_delay_seconds
        (omega arith) r.navigation (ground arith) (ground arith);
  scroll =
      within 6 12 (lookup (text "scroll_delay_seconds") values) p.scroll_delay_seconds (omega arith)
        r.scroll (ground arith) (ground arith);
  expansion =
      within 3 7 (lookup (text "expansion_delay_seconds") values) p.expansion_delay_seconds
        (omega arith) r.expansion (ground arith) (ground arith);
  retries = ground (arith, r.retries);
  between_groups = ground (arith, r.between_groups);
  workers = ground (arith, r.workers);
  active_groups = ground (arith, r.workers);
  post_limit = ground (arith, r.post_limit);
}

-- When the protection is accepted, left out or as a table, and none of the three pairs of delays has
-- a float that is not a number, then the navigations are from 10 to 20 seconds apart, the scrolls
-- from 6 to 12 and the expansions from 3 to 7, with the lower bound first; the retries are after
-- 30 and 120 seconds and the groups 900 seconds apart, with one worker, one active group and a limit
-- of 1 to 30 posts.
pub protection-IsProtected :
    (value : Option Section) (p : Protection)
    → protection value ≡ ok p
    → are_numbers p ≡ true
    → IsProtected p
unfolding protection
protection-IsProtected none p h n = subst IsProtected (ok_injective h) default-IsProtected
protection-IsProtected (some (table values)) p h n =
    table-IsProtected values p (protection_of-Read values p h) n
protection-IsProtected (some (entry e)) p h n = absurd cc
