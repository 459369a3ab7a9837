-- ===== src/Capture/Pagination/Exact.antt =====
-- The runs that return are exactly those over linked pages with fresh cursors, within the bound.
use fb_scraper.Prelude.{
  ℕ, zero, suc, ◌+◌, ◌≤◌, ◌<◌, ◌≡◌, ◌∙◌, false, Option, none, some, List, [], ◌∷◌, ◌++◌, Eq, length,
  length-append, contains, arith, leb, refl, sym, ap, ap₂, subst, ◌↔◌, ◌==◌, nat_eq, Bool-cases,
  inl, inr,
}
use mathlib.Core.List.{append_assoc}
use fb_scraper.Errors.{Result, ok}
use fb_scraper.Exec.Inversion.{ok_injective}
use fb_scraper.Capture.Pagination.{CursorPage, after_page, page_loop, paginate_pages, initial_seen}
use fb_scraper.Capture.Pagination.Bounds.{length-paginate_pages}
use fb_scraper.Capture.Pagination.Trace.{
  Event, fetched, saved, fetch_recorded, save_recorded, IsLinked, trace, IsFresh, on_next, loop,
  after, after_step, trace_step, page_loop_sound,
}

module _ {I C : Type 0} ⦃e : Eq C⦄ (page_at : Option C → CursorPage I C) (max_pages : ℕ) where
  complete_next :
      (fuel : ℕ) (pages : List (CursorPage I C)) (seen : List C) (cursor next : Option C)
      (log : List (Event C)) (new : List (CursorPage I C))
      → ((d : C) (log' : List (Event C))
          → IsLinked page_at (some d) new
          → IsFresh (d ∷ seen) new
          → loop page_at max_pages fuel (pages ++ (page_at cursor ∷ [])) (d ∷ seen) (some d) log'
            ≡ (
              ok ((pages ++ (page_at cursor ∷ [])) ++ new),
              log' ++ trace (length (pages ++ (page_at cursor ∷ []))) (some d) new,
            ))
      → (page_at cursor).next_cursor ≡ next
      → on_next next (new ≡ []) (λ d. IsLinked page_at (some d) new)
      → on_next next Unit (λ d. (contains seen d ≡ false) × IsFresh (d ∷ seen) new)
      → length pages + suc (length new) ≤ max_pages
      → after page_at max_pages fuel
          (pages ++ (page_at cursor ∷ []))
          seen
          next
          (log ++ (fetched cursor ∷ []))
        ≡ (
          ok (pages ++ (page_at cursor ∷ new)),
          log
              ++ (fetched cursor
                  ∷ on_next next [] (λ d.
                    saved d (suc (length pages)) ∷ trace (suc (length pages)) (some d) new)),
        )
  unfolding after_page
  complete_next fuel pages seen cursor none log new ih q linked fresh b = rw linked
  complete_next fuel pages seen cursor (some d) log [] ih q linked fresh b = absurd linked
  complete_next fuel pages seen cursor (some d) log (p ∷ ps) ih q linked (unseen, fresh) b =
      after_step page_at max_pages fuel (pages ++ (page_at cursor ∷ [])) seen d
        (log ++ (fetched cursor ∷ [])) (room (length-append pages (page_at cursor ∷ []))) unseen
      ∙ ih d _ linked fresh
      ∙ ap₂ (λ a b. (ok a, b)) (append_assoc pages (page_at cursor ∷ []) (p ∷ ps))
          (trace_step log cursor d (length pages) (length (pages ++ (page_at cursor ∷ []))) (some d)
            (p ∷ ps) (omega (arith, length-append pages (page_at cursor ∷ []))) refl)
    where
      room :
          length (pages ++ (page_at cursor ∷ [])) ≡ length pages + 1
          → leb max_pages (length (pages ++ (page_at cursor ∷ []))) ≡ false
      room l = ground arith

  page_loop_complete :
      (new : List (CursorPage I C)) (fuel : ℕ) (pages : List (CursorPage I C)) (seen : List C)
      (cursor : Option C) (log : List (Event C))
      → IsLinked page_at cursor new
      → IsFresh seen new
      → length pages + length new ≤ max_pages
      → length new ≤ fuel
      → loop page_at max_pages fuel pages seen cursor log
        ≡ (ok (pages ++ new), log ++ trace (length pages) cursor new)
  unfolding page_loop
  page_loop_complete [] fuel pages seen cursor log linked fresh b f = absurd linked
  page_loop_complete (p ∷ ps) zero pages seen cursor log linked fresh b f = absurd (omega arith)
  page_loop_complete (p ∷ ps) (suc fuel) pages seen cursor log (here, linked) fresh b f =
      subst
        (λ x.
          loop page_at max_pages (suc fuel) pages seen cursor log
          ≡ (ok (pages ++ (x ∷ ps)), log ++ trace (length pages) cursor (x ∷ ps)))
        (sym here)
        (complete_next fuel pages seen cursor (page_at cursor).next_cursor log ps
          (λ d log' l fr.
            page_loop_complete ps fuel (pages ++ (page_at cursor ∷ [])) (d ∷ seen) (some d) log' l
              fr (omega (arith, length-append pages (page_at cursor ∷ []))) (omega arith))
          refl
          (subst (λ x. on_next x.next_cursor (ps ≡ []) (λ d. IsLinked page_at (some d) ps)) here
            linked)
          (subst
            (λ x.
              on_next x.next_cursor Unit (λ d. (contains seen d ≡ false) × IsFresh (d ∷ seen) ps))
            here fresh)
          (omega arith))

  -- The specification of a run that returns these pages.
  pub record IsRun (initial : Option C) (out : List (CursorPage I C)) : Type 0 where
    pub linked : IsLinked page_at initial out
    pub fresh : IsFresh (initial_seen initial) out
    pub bounded : length out ≤ max_pages

  abbrev run : Option C → Result (List (CursorPage I C)) × List (Event C)
  run initial = paginate_pages (fetch_recorded page_at) (save_recorded page_at) max_pages initial []

  entered :
      (initial : Option C) (out : List (CursorPage I C))
      → (run initial).0 ≡ ok out
      → run initial ≡ loop page_at max_pages max_pages [] (initial_seen initial) initial []
  unfolding paginate_pages
  entered initial out h = elim (Bool-cases (max_pages == 0)) [
    | inl z ↦ absurd (ground arith)
    | inr n ↦ rw n
  ]

  followed :
      (initial : Option C) (out : List (CursorPage I C))
      → (run initial).0 ≡ ok out
      → (run initial ≡ (ok out, trace 0 initial out))
        × IsLinked page_at initial out
        × IsFresh (initial_seen initial) out
  followed initial out h =
      let start = entered initial out h in
      let (new, runs, linked, fresh) =
        page_loop_sound page_at max_pages max_pages [] (initial_seen initial) initial [] out
          (ap (λ (p : Result (List (CursorPage I C)) × List (Event C)). p.0) (sym start) ∙ h) in
      let same : new ≡ out = ok_injective (
        ap (λ (p : Result (List (CursorPage I C)) × List (Event C)). p.0) (sym (start ∙ runs))
        ∙ h) in
      (
        start ∙ runs ∙ ap (λ x. (ok x, trace 0 initial x)) same,
        subst (IsLinked page_at initial) same linked,
        subst (IsFresh (initial_seen initial)) same fresh,
      )

  linked_pos :
      (cursor : Option C) (out : List (CursorPage I C))
      → IsLinked page_at cursor out
      → 0 < length out
  linked_pos cursor [] l = absurd l
  linked_pos cursor (p ∷ ps) l = omega arith

  started :
      (initial : Option C)
      → 0 < max_pages
      → run initial ≡ loop page_at max_pages max_pages [] (initial_seen initial) initial []
  unfolding paginate_pages
  started initial h = elim (Bool-cases (max_pages == 0)) [
    | inl z ↦ absurd (ground arith)
    | inr n ↦ rw n
  ]

  completed :
      (initial : Option C) (out : List (CursorPage I C))
      → IsRun initial out
      → (run initial).0 ≡ ok out
  completed initial out r =
      let pos = linked_pos initial out r.linked in
      let bounded = r.bounded in
      ap (λ (p : Result (List (CursorPage I C)) × List (Event C)). p.0)
        (started initial (omega arith)
          ∙ page_loop_complete out max_pages [] (initial_seen initial) initial [] r.linked r.fresh
              (omega arith) bounded)

  -- With callbacks that record their calls, the helper returns a list of pages exactly when the
  -- pages are linked from the initial cursor to a page with no next cursor, no cursor comes twice
  -- and there are at most `max_pages` of them.
  pub paginate_pages_exact :
      (initial : Option C) (out : List (CursorPage I C))
      → ((run initial).0 ≡ ok out) ↔ IsRun initial out
  paginate_pages_exact initial out = (
    (λ h. record {
      linked = (followed initial out h).1;
      fresh = (followed initial out h).2;
      bounded =
          length-paginate_pages (fetch_recorded page_at) (save_recorded page_at) max_pages initial
            [] out h;
    }),
    λ r. completed initial out r,
  )

  -- The calls of a run that returns are the fetch of the first page and, for each further page,
  -- its numbered checkpoint followed by its fetch: a checkpoint stands before its page.
  pub paginate_pages_calls :
      (initial : Option C) (out : List (CursorPage I C))
      → (run initial).0 ≡ ok out
      → (run initial).1 ≡ trace 0 initial out
  paginate_pages_calls initial out h =
      ap (λ (p : Result (List (CursorPage I C)) × List (Event C)). p.1) (followed initial out h).0
