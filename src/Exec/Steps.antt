-- ===== src/Exec/Steps.antt =====
-- What an action guarantees between the state before it and the state after it, whether it
-- returns or raises; one rule for each way to build an action.
use fb_scraper.Prelude.{◌≡◌, refl, Bool, true, false, Option, none, some, if◌then◌else◌}
use fb_scraper.Errors.{Error, Result, ok, err}
use fb_scraper.Exec.{
  Exec, pure, raise, gets, or_raise, settle, transaction, continue, raise_if, reraise, handle,
  on_error, ◌>>=◌,
}

pub record IsPreorder {S : Type 0} (R : S → S → Type 0) : Type 0 where
  pub rfl : (s : S) → R s s
  pub trans : (s t u : S) → R s t → R t u → R s u

-- Every run of `m` leads from its state to a later one.
pub record Steps {S A : Type 0} (R : S → S → Type 0) (m : Exec S A) : Type 0 where
  pub at : (s : S) → R s (m s).1

module _ {S : Type 0} {R : S → S → Type 0} where
  pub Steps-raise_if : IsPreorder R → (b : Bool) (e : Error) → Steps R (raise_if {S = S} b e)
  Steps-raise_if o b e = record { at = o.rfl }

module _ {S A : Type 0} {R : S → S → Type 0} where
  pub Steps-pure : IsPreorder R → (a : A) → Steps R (pure a)
  Steps-pure o a = record { at = o.rfl }

  pub Steps-raise : IsPreorder R → (e : Error) → Steps R (raise {A = A} e)
  Steps-raise o e = record { at = o.rfl }

  pub Steps-gets : IsPreorder R → (f : S → A) → Steps R (gets f)
  Steps-gets o f = record { at = o.rfl }

  pub Steps-or_raise : IsPreorder R → (x : Option A) (e : Error) → Steps R (or_raise x e)
  Steps-or_raise o none e = record { at = o.rfl }
  Steps-or_raise o (some a) e = record { at = o.rfl }

  pub Steps-if :
      (b : Bool) (m n : Exec S A) → Steps R m → Steps R n → Steps R (λ s. if b then m s else n s)
  Steps-if true m n hm hn = record { at = hm.at }
  Steps-if false m n hm hn = record { at = hn.at }

  pub Steps-choose :
      (b : Bool) (m n : Exec S A) → Steps R m → Steps R n → Steps R (if b then m else n)
  Steps-choose true m n hm hn = hm
  Steps-choose false m n hm hn = hn

  settle_step :
      {s t : S} (r : Result A) → IsPreorder R → ((a : A) → r ≡ ok a → R s t) → R s (settle s r t).1
  settle_step (ok a) o h = h a refl
  settle_step {s} (err e) o h = o.rfl s

  -- A block that rolls back takes a step only when it returns.
  pub Steps-transaction_of_ok :
      IsPreorder R
      → (m : Exec S A) → ((s : S) (a : A) → (m s).0 ≡ ok a → R s (m s).1)
      → Steps R (transaction m)
  Steps-transaction_of_ok o m h = record { at = λ s. settle_step (m s).0 o (h s) }

  pub Steps-transaction : IsPreorder R → (m : Exec S A) → Steps R m → Steps R (transaction m)
  Steps-transaction o m h = Steps-transaction_of_ok o m (λ s a p. h.at s)

module _ {S A B : Type 0} {R : S → S → Type 0} where
  continue_step :
      {s t : S} (r : Result A) (f : A → Exec S B)
      → IsPreorder R
      → R s t
      → ((a : A) → r ≡ ok a → R t (f a t).1)
      → R s (continue f r t).1
  continue_step {s} {t} (ok a) f o h k = o.trans s t (f a t).1 h (k a refl)
  continue_step (err e) f o h k = h

  pub Steps-bind :
      IsPreorder R
      → (m : Exec S A) (f : A → Exec S B) → Steps R m
      → ((a : A) → Steps R (f a))
      → Steps R (m >>= f)
  Steps-bind o m f hm hf = record {
    at = λ s. continue_step (m s).0 f o (hm.at s) (λ a p. (hf a).at (m s).1);
  }

module _ {S A : Type 0} {R : S → S → Type 0} where
  handle_step :
      {s t : S} (r : Result A) (h : Error → Exec S (Unit {0}))
      → IsPreorder R
      → R s t
      → ((e : Error) → R t (h e t).1)
      → R s (handle h r t).1
  handle_step (ok a) h o st k = st
  handle_step {s} {t} (err e) h o st k = raised (h e t).0 (o.trans s t (h e t).1 st (k e))
    where
      raised :
          (r : Result (Unit {0})) → R s (h e t).1 → R s (reraise {S = S} {A = A} e r (h e t).1).1
      raised (ok u) x = x
      raised (err f) x = x

  pub Steps-on_error :
      IsPreorder R
      → (m : Exec S A) (h : Error → Exec S (Unit {0})) → Steps R m
      → ((e : Error) → Steps R (h e))
      → Steps R (on_error m h)
  Steps-on_error o m h hm hh = record {
    at = λ s. handle_step (m s).0 h o (hm.at s) (λ e. (hh e).at (m s).1);
  }

pub ruleset steps_rules = (
  Steps-on_error, Steps-choose, Steps-pure, Steps-raise, Steps-gets, Steps-or_raise, Steps-raise_if,
  Steps-if, Steps-transaction, Steps-bind,
)
