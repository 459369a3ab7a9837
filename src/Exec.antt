-- ===== src/Exec.antt =====
-- Code that changes a store and may raise. What was written before a raise stays written, so the
-- state comes back beside the error too; `transaction` is `with connection:`, which rolls back.
pub mod Steps
pub mod Inversion
pub mod Fixed
pub mod Ensures
pub mod Fuel
use fb_scraper.Prelude.{Bool, Option, none, some, if◌then◌else◌}
use fb_scraper.Errors.{Error, Result, ok, err}

abbrev pub Exec : Type 0 → Type 0 → Type 0
Exec S A = S → Result A × S

module _ {S A : Type 0} where
  abbrev pub pure : A → Exec S A
  pure a s = (ok a, s)

  abbrev pub raise : Error → Exec S A
  raise e s = (err e, s)

  abbrev pub gets : (S → A) → Exec S A
  gets f s = (ok (f s), s)

  abbrev pub or_raise : Option A → Error → Exec S A
  or_raise none e = raise e
  or_raise (some a) e = pure a

  -- A function that may raise, called
  abbrev pub of_result : Result A → Exec S A
  of_result r s = (r, s)

  abbrev pub settle : S → Result A → S → Result A × S
  settle s (ok a) t = (ok a, t)
  settle s (err e) t = (err e, s)

  -- `with connection:` commits when the block ends, and rolls back when it raises.
  abbrev pub transaction : Exec S A → Exec S A
  transaction m s = settle s (m s).0 (m s).1

  -- The end of an `except` block: it raises what it caught, or what it raised itself.
  abbrev pub reraise : Error → Result (Unit {0}) → Exec S A
  reraise e (ok u) t = (err e, t)
  reraise e (err f) t = (err f, t)

  -- `except ... as error: ...; raise`
  abbrev pub handle : (Error → Exec S (Unit {0})) → Result A → Exec S A
  handle h (ok a) t = (ok a, t)
  handle h (err e) t = reraise e (h e t).0 (h e t).1

  abbrev pub on_error : Exec S A → (Error → Exec S (Unit {0})) → Exec S A
  on_error m h s = handle h (m s).0 (m s).1

module _ {S : Type 0} where
  abbrev pub modify : (S → S) → Exec S (Unit {0})
  modify f s = (ok tt, f s)

  abbrev pub raise_if : Bool → Error → Exec S (Unit {0})
  raise_if b e s = (if b then err e else ok tt, s)

module _ {S A B : Type 0} where
  abbrev pub continue : (A → Exec S B) → Result A → Exec S B
  continue f (ok a) t = f a t
  continue f (err e) t = (err e, t)

  infixl 10 ◌>>=◌ ◌>>◌
  abbrev pub ◌>>=◌ : Exec S A → (A → Exec S B) → Exec S B
  ◌>>=◌ m f s = continue f (m s).0 (m s).1

  abbrev pub ◌>>◌ : Exec S A → Exec S B → Exec S B
  m >> n = m >>= λ _. n
