-- ===== src/Exec/Fuel.antt =====
-- Actions that never report that the fuel of a loop ran out.
use fb_scraper.Prelude.{
  arith, ◌≡◌, ◌∙◌, refl, sym, ap, Bool, true, false, Option, none, some, if◌then◌else◌,
}
use fb_scraper.Errors.{Error, Result, ok, err, out_of_fuel}
use fb_scraper.Exec.{
  Exec, pure, raise, gets, or_raise, modify, settle, transaction, continue, raise_if, reraise,
  handle, on_error, ◌>>=◌,
}

abbrev pub is_fuel : Error → Bool
is_fuel out_of_fuel = true
is_fuel _ = false

-- No run of `m` raises the error of a loop without fuel.
pub record IsFueled {S A : Type 0} (m : Exec S A) : Type 0 where
  pub at : (s : S) (e : Error) → (m s).0 ≡ err e → is_fuel e ≡ false

pub err_injective : {A : Type 0} {e f : Error} → ◌≡◌ {A = Result A} (err e) (err f) → e ≡ f
err_injective h = ground arith

module _ {S : Type 0} where
  pub modify-IsFueled : (f : S → S) → IsFueled (modify f)
  modify-IsFueled f = record { at = λ s e h. absurd cc }

  pub raise_if-IsFueled :
      (b : Bool) (e : Error) → is_fuel e ≡ false → IsFueled (raise_if {S = S} b e)
  raise_if-IsFueled true e c = record { at = λ s f h. ap is_fuel (sym (err_injective h)) ∙ c }
  raise_if-IsFueled false e c = record { at = λ s f h. absurd cc }

module _ {S A : Type 0} where
  pub pure-IsFueled : (a : A) → IsFueled {S = S} (pure a)
  pure-IsFueled a = record { at = λ s e h. absurd cc }

  pub raise-IsFueled : (e : Error) → is_fuel e ≡ false → IsFueled {S = S} {A = A} (raise e)
  raise-IsFueled e c = record { at = λ s f h. ap is_fuel (sym (err_injective h)) ∙ c }

  pub gets-IsFueled : (f : S → A) → IsFueled (gets f)
  gets-IsFueled f = record { at = λ s e h. absurd cc }

  pub or_raise-IsFueled :
      (x : Option A) (e : Error) → is_fuel e ≡ false → IsFueled {S = S} (or_raise x e)
  or_raise-IsFueled none e c = raise-IsFueled e c
  or_raise-IsFueled (some a) e c = pure-IsFueled a

  pub choose-IsFueled :
      (b : Bool) (m n : Exec S A) → IsFueled m → IsFueled n → IsFueled (if b then m else n)
  choose-IsFueled true m n hm hn = hm
  choose-IsFueled false m n hm hn = hn

  settle_err : (s t : S) (r : Result A) (e : Error) → (settle s r t).0 ≡ err e → r ≡ err e
  settle_err s t (ok a) e h = h
  settle_err s t (err f) e h = h

  pub transaction-IsFueled : (m : Exec S A) → IsFueled m → IsFueled (transaction m)
  transaction-IsFueled m h = record { at = λ s e p. h.at s e (settle_err s (m s).1 (m s).0 e p) }

  reraised :
      (e f : Error) (q : Result (Unit {0})) (t : S)
      → is_fuel e ≡ false
      → ((g : Error) → q ≡ err g → is_fuel g ≡ false)
      → (reraise {A = A} e q t).0 ≡ err f
      → is_fuel f ≡ false
  reraised e f (ok u) t c k h = ap is_fuel (sym (err_injective h)) ∙ c
  reraised e f (err g) t c k h = ap is_fuel (sym (err_injective h)) ∙ k g refl

  handled :
      (r : Result A) (h : Error → Exec S (Unit {0})) (t : S) (f : Error)
      → ((e : Error) → r ≡ err e → is_fuel e ≡ false)
      → ((e : Error) → IsFueled (h e))
      → (handle h r t).0 ≡ err f
      → is_fuel f ≡ false
  handled (ok a) h t f c k p = absurd cc
  handled (err e) h t f c k p =
      reraised e f (h e t).0 (h e t).1 (c e refl) (λ g q. (k e).at t g q) p

  pub on_error-IsFueled :
      (m : Exec S A) (h : Error → Exec S (Unit {0}))
      → IsFueled m
      → ((e : Error) → IsFueled (h e))
      → IsFueled (on_error m h)
  on_error-IsFueled m h hm hh = record { at = λ s f p. handled (m s).0 h (m s).1 f (hm.at s) hh p }

module _ {S A B : Type 0} where
  continued :
      (r : Result A) (f : A → Exec S B) (t : S) (e : Error)
      → ((e : Error) → r ≡ err e → is_fuel e ≡ false)
      → ((a : A) → r ≡ ok a → IsFueled (f a))
      → (continue f r t).0 ≡ err e
      → is_fuel e ≡ false
  continued (ok a) f t e c k h = (k a refl).at t e h
  continued (err g) f t e c k h = ap is_fuel (sym (err_injective h)) ∙ c g refl

  -- The second part runs only after the first one has returned.
  pub bind_after-IsFueled :
      (m : Exec S A) (f : A → Exec S B)
      → IsFueled m
      → ((a : A) (s : S) → (m s).0 ≡ ok a → IsFueled (f a))
      → IsFueled (m >>= f)
  bind_after-IsFueled m f hm hf = record {
    at = λ s e p. continued (m s).0 f (m s).1 e (hm.at s) (λ a q. hf a s q) p;
  }

  pub bind-IsFueled :
      (m : Exec S A) (f : A → Exec S B)
      → IsFueled m
      → ((a : A) → IsFueled (f a))
      → IsFueled (m >>= f)
  bind-IsFueled m f hm hf = bind_after-IsFueled m f hm (λ a s q. hf a)

pub ruleset fuel_rules = (
  modify-IsFueled, raise_if-IsFueled, pure-IsFueled, raise-IsFueled, gets-IsFueled,
  or_raise-IsFueled, choose-IsFueled, transaction-IsFueled, on_error-IsFueled, bind-IsFueled,
)
