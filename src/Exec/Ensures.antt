-- ===== src/Exec/Ensures.antt =====
-- What holds of the result and the store when an action returns; the last action of a block
-- decides it.
use fb_scraper.Prelude.{◌≡◌, refl, sym, subst, Bool, true, false, if◌then◌else◌}
use fb_scraper.Errors.{Error, Result, ok, err}
use fb_scraper.Exec.{Exec, raise, continue, reraise, handle, on_error, ◌>>=◌}

pub record Ensures {S A : Type 0} (P : A → S → Type 0) (m : Exec S A) : Type 0 where
  pub at : (s : S) (a : A) → (m s).0 ≡ ok a → P a (m s).1

module _ {S A : Type 0} where
  never_ok :
      (e : Error) (q : Result (Unit {0})) (t : S) (a : A)
      → (reraise {S = S} {A = A} e q t).0 ≡ ok a
      → ⊥
  never_ok e (ok u) t a x = cc
  never_ok e (err f) t a x = cc

  -- A `try` block whose handler raises again returns only when its body does.
  pub handle_ok :
      (r : Result A) (h : Error → Exec S (Unit {0})) (t : S) (a : A)
      → (handle h r t).0 ≡ ok a
      → (r ≡ ok a) × ((handle h r t).1 ≡ t)
  handle_ok (ok b) h t a p = (p, refl)
  handle_ok (err e) h t a p = absurd (never_ok e (h e t).0 (h e t).1 a p)

module _ {S A : Type 0} {P : A → S → Type 0} where
  pub Ensures-raise : (e : Error) → Ensures P (raise e)
  Ensures-raise e = record { at = λ s a h. absurd (cc) }

  pub Ensures-choose :
      (b : Bool) (m n : Exec S A) → Ensures P m → Ensures P n → Ensures P (if b then m else n)
  Ensures-choose true m n hm hn = hm
  Ensures-choose false m n hm hn = hn

  pub Ensures-on_error :
      (m : Exec S A) (h : Error → Exec S (Unit {0})) → Ensures P m → Ensures P (on_error m h)
  Ensures-on_error m h hm = record {
    at = λ s a p.
        let (q, same) = handle_ok (m s).0 h (m s).1 a p in subst (P a) (sym same) (hm.at s a q);
  }

module _ {S A B : Type 0} {P : B → S → Type 0} where
  continue_ensures :
      (r : Result A) (f : A → Exec S B) (t : S) (b : B)
      → ((a : A) → Ensures P (f a))
      → (continue f r t).0 ≡ ok b
      → P b (continue f r t).1
  continue_ensures (ok a) f t b h p = (h a).at t b p
  continue_ensures (err e) f t b h p = absurd cc

  pub Ensures-bind :
      (m : Exec S A) (f : A → Exec S B) → ((a : A) → Ensures P (f a)) → Ensures P (m >>= f)
  Ensures-bind m f h = record { at = λ s b p. continue_ensures (m s).0 f (m s).1 b h p }

pub ruleset ensures_rules = (Ensures-raise, Ensures-choose, Ensures-on_error, Ensures-bind)
