-- ===== src/Capture/Pagination/Trace.antt =====
-- The loop against its specification, with callbacks that record their calls: a checkpoint is
-- durable before the page that it points to is fetched.
use fb_scraper.Prelude.{
  ℕ, zero, suc, ◌≡◌, ◌∙◌, false, Option, none, some, List, [], ◌∷◌, ◌++◌, Eq, length, length-append,
  contains, arith, leb, refl, sym, ap, ap₂, subst, Bool-cases, inl, inr, nat_eq,
}
use mathlib.Core.List.{append_assoc}
use fb_scraper.Errors.{Result, ok}
use fb_scraper.Exec.{Exec}
use fb_scraper.Capture.Pagination.{CursorPage, after_page, page_loop}

-- What the callbacks were asked, in order.
pub data Event (C : Type 0) : Type 0 where
  fetched : Option C → Event C
  saved : C → ℕ → Event C

-- A choice on the cursor of a page
abbrev pub on_next {ℓ} : {C : Type 0} {X : Type ℓ} → Option C → X → (C → X) → X
on_next none x f = x
on_next (some d) x f = f d

module _ {I C : Type 0} (page_at : Option C → CursorPage I C) where
  abbrev pub fetch_recorded : Option C → Exec (List (Event C)) (CursorPage I C)
  fetch_recorded c log = (ok (page_at c), log ++ (fetched c ∷ []))

  abbrev pub save_recorded : C → ℕ → Exec (List (Event C)) (Unit {0})
  save_recorded c n log = (ok tt, log ++ (saved c n ∷ []))

  -- The pages follow one another from a cursor to a page with no next cursor.
  abbrev pub IsLinked : Option C → List (CursorPage I C) → Type 0
  IsLinked c [] = ⊥
  IsLinked c (p ∷ ps) =
      (p ≡ page_at c) × on_next p.next_cursor (ps ≡ []) (λ d. IsLinked (some d) ps)

module _ {I C : Type 0} where
  -- The log of a run over linked pages, of which `n` came before.
  abbrev pub trace : ℕ → Option C → List (CursorPage I C) → List (Event C)
  trace n c [] = []
  trace n c (p ∷ ps) =
      fetched c ∷ on_next p.next_cursor [] (λ d. saved d (suc n) ∷ trace (suc n) (some d) ps)

module _ {I C : Type 0} where
  -- The events of one page in front of those of the pages that follow it.
  pub trace_step :
      (log : List (Event C)) (c : Option C) (d : C) (n k : ℕ) (next : Option C)
      (new : List (CursorPage I C))
      → k ≡ suc n
      → next ≡ some d
      → ((log ++ (fetched c ∷ [])) ++ (saved d k ∷ [])) ++ trace k (some d) new
        ≡ log
          ++ (fetched c ∷ on_next next [] (λ d'. saved d' (suc n) ∷ trace (suc n) (some d') new))
  trace_step log c d n k next new p q =
      rw (p, q)
        (append_assoc (log ++ (fetched c ∷ [])) (saved d (suc n) ∷ []) (trace (suc n) (some d) new)
          ∙ append_assoc log (fetched c ∷ []) (saved d (suc n) ∷ trace (suc n) (some d) new))

module _ {I C : Type 0} ⦃e : Eq C⦄ where
  -- No cursor among `seen` or of an earlier page comes again.
  abbrev pub IsFresh : List C → List (CursorPage I C) → Type 0
  IsFresh seen [] = Unit
  IsFresh seen (p ∷ ps) =
      on_next p.next_cursor Unit (λ d. (contains seen d ≡ false) × IsFresh (d ∷ seen) ps)

module _ {I C : Type 0} ⦃e : Eq C⦄ (page_at : Option C → CursorPage I C) (max_pages : ℕ) where
  abbrev pub loop :
      ℕ → List (CursorPage I C) → List C → Option C → Exec (List (Event C)) (List (CursorPage I C))
  loop = page_loop (fetch_recorded page_at) (save_recorded page_at) max_pages

  abbrev pub after :
      ℕ → List (CursorPage I C) → List C → Option C → Exec (List (Event C)) (List (CursorPage I C))
  after fuel = after_page (fetch_recorded page_at) (save_recorded page_at) max_pages (loop fuel)

  -- A run of the loop that follows the specification.
  abbrev pub Follows :
      List (CursorPage I C)
      → List C
      → Option C
      → List (Event C)
      → Result (List (CursorPage I C)) × List (Event C)
      → Type 0
  Follows pages seen cursor log r =
      (new : List (CursorPage I C)) × (r
        ≡ (ok (pages ++ new), log ++ trace (length pages) cursor new))
      × IsLinked page_at cursor new
      × IsFresh seen new

  -- One page more in front of a run that follows the specification.
  follow_page :
      (pages : List (CursorPage I C)) (seen : List C) (cursor : Option C) (log : List (Event C))
      (d : C) (r : Result (List (CursorPage I C)) × List (Event C))
      → (page_at cursor).next_cursor ≡ some d
      → contains seen d ≡ false
      → Follows
          (pages ++ (page_at cursor ∷ []))
          (d ∷ seen)
          (some d)
          ((log ++ (fetched cursor ∷ []))
            ++ (saved d (length (pages ++ (page_at cursor ∷ []))) ∷ []))
          r
      → Follows pages seen cursor log r
  follow_page pages seen cursor log d r q unseen (new, runs, linked, fresh) = (
    page_at cursor ∷ new,
    runs
        ∙ ap₂ (λ a b. (ok a, b)) (append_assoc pages (page_at cursor ∷ []) new)
            (trace_step log cursor d (length pages) (length (pages ++ (page_at cursor ∷ [])))
              (page_at cursor).next_cursor new
              (omega (arith, length-append pages (page_at cursor ∷ []))) q),
    (refl, subst (λ x. on_next x (new ≡ []) (λ d. IsLinked page_at (some d) new)) (sym q) linked),
    subst (λ x. on_next x Unit (λ d. (contains seen d ≡ false) × IsFresh (d ∷ seen) new)) (sym q)
        (unseen, fresh),
  )

  pub after_step :
      (fuel : ℕ) (pages : List (CursorPage I C)) (seen : List C) (d : C) (log : List (Event C))
      → leb max_pages (length pages) ≡ false
      → contains seen d ≡ false
      → after fuel pages seen (some d) log
        ≡ loop fuel pages (d ∷ seen) (some d) (log ++ (saved d (length pages) ∷ []))
  unfolding after_page
  after_step fuel pages seen d log under unseen = rw (under, unseen)

  after_sound :
      (fuel : ℕ) (pages : List (CursorPage I C)) (seen : List C) (cursor next : Option C)
      (log : List (Event C)) (out : List (CursorPage I C))
      → ((seen' : List C) (d : C) (log' : List (Event C))
          → (loop fuel (pages ++ (page_at cursor ∷ [])) seen' (some d) log').0 ≡ ok out
          → Follows
              (pages ++ (page_at cursor ∷ []))
              seen'
              (some d)
              log'
              (loop fuel (pages ++ (page_at cursor ∷ [])) seen' (some d) log'))
      → (page_at cursor).next_cursor ≡ next
      → (after fuel (pages ++ (page_at cursor ∷ [])) seen next (log ++ (fetched cursor ∷ []))).0
        ≡ ok out
      → Follows pages seen cursor log
          (after fuel (pages ++ (page_at cursor ∷ [])) seen next (log ++ (fetched cursor ∷ [])))
  unfolding after_page
  after_sound fuel pages seen cursor none log out ih q h = (
    page_at cursor ∷ [],
    ap
        (λ x. (
          ok (pages ++ (page_at cursor ∷ [])),
          log ++ (fetched cursor ∷ on_next x [] (λ d. saved d (suc (length pages)) ∷ [])),
        ))
        (sym q),
    (refl, subst (λ x. on_next x (◌≡◌ {A = List (CursorPage I C)} [] []) (λ d. ⊥)) (sym q) refl),
    subst (λ x. on_next x Unit (λ d. (contains seen d ≡ false) × Unit)) (sym q) tt,
  )
  after_sound fuel pages seen cursor (some d) log out ih q h =
      elim (Bool-cases (leb max_pages (length (pages ++ (page_at cursor ∷ []))))) [
        | inl over ↦ absurd (ground arith)
        | inr under ↦ elim (Bool-cases (contains seen d)) [
          | inl loops ↦ absurd (ground arith)
          | inr unseen ↦
              let step =
                after_step fuel (pages ++ (page_at cursor ∷ [])) seen d
                  (log ++ (fetched cursor ∷ [])) under unseen in
              subst (Follows pages seen cursor log) (sym step) (
                follow_page pages seen cursor log d _ q unseen (
                  ih (d ∷ seen) d _ (
                    ap (λ (p : Result (List (CursorPage I C)) × List (Event C)). p.0) (sym step)
                    ∙ h)))
        ]
      ]

  pub page_loop_sound :
      (fuel : ℕ) (pages : List (CursorPage I C)) (seen : List C) (cursor : Option C)
      (log : List (Event C)) (out : List (CursorPage I C))
      → (loop fuel pages seen cursor log).0 ≡ ok out
      → Follows pages seen cursor log (loop fuel pages seen cursor log)
  unfolding page_loop
  page_loop_sound zero pages seen cursor log out h = cc
  page_loop_sound (suc fuel) pages seen cursor log out h =
      after_sound fuel pages seen cursor (page_at cursor).next_cursor log out
        (λ seen' d log' h'.
          page_loop_sound fuel (pages ++ (page_at cursor ∷ [])) seen' (some d) log' out h')
        refl h
