-- ===== src/Exec/Inversion.antt =====
-- What a block has done when it returned, and that a transaction which raised has done nothing.
use fb_scraper.Prelude.{◌≡◌, ◌≢◌, ◌⊎◌, arith, inl, inr, refl, Bool, true, false}
use fb_scraper.Errors.{Error, Result, ok, err}
use fb_scraper.Exec.{Exec, pure, raise_if, settle, transaction, continue, ◌>>=◌, ◌>>◌}

pub ok_injective : {A : Type 0} {a b : A} → ◌≡◌ {A = Result A} (ok a) (ok b) → a ≡ b
ok_injective h = ground arith

-- To split on how an action ended.
pub Result-cases :
    {A : Type 0} (r : Result A) → ((a : A) × (r ≡ ok a)) ⊎ ((e : Error) × (r ≡ err e))
Result-cases (ok a) = inl (a, refl)
Result-cases (err e) = inr (e, refl)

module _ {S A B : Type 0} where
  continue_ok :
      (f : A → Exec S B) (r : Result A) (t : S) {b : B}
      → (continue f r t).0 ≡ ok b
      → (a : A) × (r ≡ ok a) × (continue f r t ≡ f a t)
  continue_ok f (ok a) t h = (a, refl, refl)
  continue_ok f (err e) t h = cc

  -- Both parts of a block that returned have returned, and it did what they did.
  pub bind_ok :
      (m : Exec S A) (f : A → Exec S B) (s : S) {b : B}
      → ((m >>= f) s).0 ≡ ok b
      → (a : A) × ((m s).0 ≡ ok a) × ((m >>= f) s ≡ f a (m s).1)
  bind_ok m f s h = continue_ok f (m s).0 (m s).1 h

  continue_ne_err :
      (f : A → Exec S B) (r : Result A) (t : S) (x : Error)
      → r ≢ err x
      → ((a : A) → r ≡ ok a → (f a t).0 ≢ err x)
      → (continue f r t).0 ≢ err x
  continue_ne_err f (ok a) t x n h = h a refl
  continue_ne_err f (err e) t x n h = λ p. n (ground arith)

  -- A block raises what one of its parts raises.
  pub bind_ne_err :
      (m : Exec S A) (f : A → Exec S B) (s : S) (x : Error)
      → (m s).0 ≢ err x
      → ((a : A) → (m s).0 ≡ ok a → (f a (m s).1).0 ≢ err x)
      → ((m >>= f) s).0 ≢ err x
  bind_ne_err m f s x = continue_ne_err f (m s).0 (m s).1 x

module _ {S A : Type 0} where
  settle_ok :
      (s t : S) (r : Result A) {a : A}
      → (settle s r t).0 ≡ ok a
      → (r ≡ ok a) × (settle s r t ≡ (r, t))
  settle_ok s t (ok a) h = (h, refl)
  settle_ok s t (err e) h = cc

  settle_err :
      (s t : S) (r : Result A) {e : Error} → (settle s r t).0 ≡ err e → (settle s r t).1 ≡ s
  settle_err s t (ok a) h = cc
  settle_err s t (err e) h = refl

  pub transaction_ok :
      (m : Exec S A) (s : S) {a : A}
      → (transaction m s).0 ≡ ok a
      → ((m s).0 ≡ ok a) × (transaction m s ≡ m s)
  transaction_ok m s h = settle_ok s (m s).1 (m s).0 h

  -- A transaction that raises has rolled back.
  pub transaction_err :
      (m : Exec S A) (s : S) {e : Error} → (transaction m s).0 ≡ err e → (transaction m s).1 ≡ s
  transaction_err m s h = settle_err s (m s).1 (m s).0 h

  -- A guard in front of a block that returned did not raise.
  pub guard_ok :
      (b : Bool) (e : Error) (m : Exec S A) (s : S) {a : A}
      → ((raise_if b e >> m) s).0 ≡ ok a
      → (raise_if b e >> m) s ≡ m s
  guard_ok true e m s h = cc
  guard_ok false e m s h = refl

  -- A block that ends in `return a` gives `a` when its first part returned.
  pub return_ok :
      (r : Result (Unit {0})) (t : S) {a b : A}
      → (continue (λ _. pure a) r t).0 ≡ ok b
      → (r ≡ ok tt) × (a ≡ b) × ((continue (λ _. pure a) r t).1 ≡ t)
  return_ok (ok u) t h = (refl, ok_injective h, refl)
  return_ok (err e) t h = cc
