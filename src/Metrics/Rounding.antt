-- ===== src/Metrics/Rounding.antt =====
-- `n / d` of two integers of Python, as metrics.py divides its counts: the double that is nearest to
-- the quotient, by the binary64 format. Both numbers are not negative and n is at most d.
pub mod Error
pub mod Exact
use fb_scraper.Prelude.{
  ℕ, zero, suc, ◌+◌, ◌*◌, ◌/◌, ◌%◌, Bool, ◌&&◌, ◌||◌, nat_eq, ◌==◌, leb, ltb, if◌then◌else◌,
}
use fb_scraper.Metrics.{Ratio}

-- The integer nearest to n / d; of two that are as near, the even one
unfoldable pub nearest : ℕ → ℕ → ℕ
nearest n d =
    if ltb d (2 * (n % d)) || ((2 * (n % d) == d) && (n / d % 2 == 1)) then suc (n / d) else n / d

-- The denominator of the doubles about n / d, from that of the doubles from 1 to 2: twice as large
-- for each halving of the quotient, at most as often as the exponent of a double goes down from that
-- of one: 1022 times
unfoldable pub unit : ℕ → ℕ → ℕ → ℕ → ℕ
unit zero n d k = k
unit (suc fuel) n d k = let finer = unit fuel (2 * n) d (2 * k) in if leb d n then k else finer

-- 2 ^ 52
abbrev pub unit_of_one : ℕ
unit_of_one = 4503599627370496

unfoldable pub rounded : ℕ → ℕ → Ratio
unfolding nearest unit
rounded n d =
    let k = unit 1022 n d unit_of_one in record { numerator = nearest (n * k) d; denominator = k }

-- `ratio == 1.0`, `ratio >= bound` and `ratio <= bound`
abbrev pub is_one : Ratio → Bool
is_one r = r.numerator == r.denominator

abbrev pub at_least : Ratio → Ratio → Bool
at_least bound r = leb (bound.numerator * r.denominator) (r.numerator * bound.denominator)

abbrev pub at_most : Ratio → Ratio → Bool
at_most bound r = leb (r.numerator * bound.denominator) (bound.numerator * r.denominator)
