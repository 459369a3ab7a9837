-- ===== src/Capture/Pagination/Bounds.antt =====
-- The loop ends within `max_pages` rounds, whatever the callbacks do.
use fb_scraper.Prelude.{
  ℕ, zero, suc, ◌+◌, ◌≤◌, ◌≡◌, ◌≢◌, Option, none, some, List, [], ◌∷◌, ◌++◌, Eq, length,
  length-append, arith, ap, sym, ◌∙◌,
}
use fb_scraper.Errors.{Result, ok, err, out_of_fuel}
use fb_scraper.Exec.{Exec}
use fb_scraper.Exec.Inversion.{bind_ok, bind_ne_err}
use fb_scraper.Capture.Pagination.{CursorPage, initial_seen, after_page, page_loop, paginate_pages}

module _ {W I C : Type 0} ⦃e : Eq C⦄ (fetch_page : Option C → Exec W (CursorPage I C))
    (checkpoint : C → ℕ → Exec W (Unit {0})) (max_pages : ℕ) where
  after_page_bound :
      (again : List (CursorPage I C) → List C → Option C → Exec W (List (CursorPage I C)))
      (pages : List (CursorPage I C)) (seen : List C) (next : Option C) (w : W)
      (out : List (CursorPage I C))
      → ((seen' : List C) (c : Option C) (w' : W)
          → suc (length pages) ≤ max_pages
          → (again pages seen' c w').0 ≡ ok out
          → length out ≤ max_pages)
      → length pages ≤ max_pages
      → (after_page fetch_page checkpoint max_pages again pages seen next w).0 ≡ ok out
      → length out ≤ max_pages
  unfolding after_page
  after_page_bound again pages seen none w out ih b h = ground arith
  after_page_bound again pages seen (some next) w out ih b h =
      ground (arith, ih (next ∷ seen) (some next) (checkpoint next (length pages) w).1)

  page_loop_bound :
      (fuel : ℕ) (pages : List (CursorPage I C)) (seen : List C) (cursor : Option C) (w : W)
      (out : List (CursorPage I C))
      → suc (length pages) ≤ max_pages
      → (page_loop fetch_page checkpoint max_pages fuel pages seen cursor w).0 ≡ ok out
      → length out ≤ max_pages
  unfolding page_loop
  page_loop_bound zero pages seen cursor w out b h = cc
  page_loop_bound (suc fuel) pages seen cursor w out b h =
      let (page, _, same) = bind_ok (fetch_page cursor) _ w h in
      after_page_bound (page_loop fetch_page checkpoint max_pages fuel) (pages ++ (page ∷ [])) seen
        page.next_cursor _ out
        (λ seen' c w' b' h'. page_loop_bound fuel (pages ++ (page ∷ [])) seen' c w' out b' h')
        (omega (arith, length-append pages (page ∷ [])))
        (ap (λ (p : Result (List (CursorPage I C)) × W). p.0) (sym same) ∙ h)

  -- A run that returns has fetched at most `max_pages` pages, whatever the callbacks do.
  pub length-paginate_pages :
      (initial : Option C) (w : W) (out : List (CursorPage I C))
      → (paginate_pages fetch_page checkpoint max_pages initial w).0 ≡ ok out
      → length out ≤ max_pages
  unfolding paginate_pages
  length-paginate_pages initial w out h =
      ground (arith, page_loop_bound max_pages [] (initial_seen initial) initial w out)

  after_page_fuel :
      (again : List (CursorPage I C) → List C → Option C → Exec W (List (CursorPage I C)))
      (pages : List (CursorPage I C)) (seen : List C) (next : Option C) (w : W)
      → ((c : C) (n : ℕ) (w' : W) → (checkpoint c n w').0 ≢ err out_of_fuel)
      → ((seen' : List C) (c : Option C) (w' : W)
          → suc (length pages) ≤ max_pages
          → (again pages seen' c w').0 ≢ err out_of_fuel)
      → (after_page fetch_page checkpoint max_pages again pages seen next w).0 ≢ err out_of_fuel
  unfolding after_page
  after_page_fuel again pages seen none w saves ih h = cc
  after_page_fuel again pages seen (some next) w saves ih h = ground (
    arith,
    saves next (length pages) w,
    ih (next ∷ seen) (some next) (checkpoint next (length pages) w).1,
  )

  page_loop_fuel :
      (fuel : ℕ) (pages : List (CursorPage I C)) (seen : List C) (cursor : Option C) (w : W)
      → ((c : Option C) (w' : W) → (fetch_page c w').0 ≢ err out_of_fuel)
      → ((c : C) (n : ℕ) (w' : W) → (checkpoint c n w').0 ≢ err out_of_fuel)
      → suc (length pages) ≤ max_pages
      → max_pages ≤ length pages + fuel
      → (page_loop fetch_page checkpoint max_pages fuel pages seen cursor w).0 ≢ err out_of_fuel
  unfolding page_loop
  page_loop_fuel zero pages seen cursor w fetches saves b f = absurd (omega arith)
  page_loop_fuel (suc fuel) pages seen cursor w fetches saves b f =
      bind_ne_err (fetch_page cursor) _ w out_of_fuel (fetches cursor w) λ page _.
        after_page_fuel (page_loop fetch_page checkpoint max_pages fuel) (pages ++ (page ∷ [])) seen
          page.next_cursor _ saves
          λ seen' c w' b'.
            page_loop_fuel fuel (pages ++ (page ∷ [])) seen' c w' fetches saves b'
              (omega (arith, length-append pages (page ∷ [])))

  -- The fuel is enough: if no callback reports that it ran out, the whole run does not.
  pub paginate_pages_fuel :
      (initial : Option C) (w : W)
      → ((c : Option C) (w' : W) → (fetch_page c w').0 ≢ err out_of_fuel)
      → ((c : C) (n : ℕ) (w' : W) → (checkpoint c n w').0 ≢ err out_of_fuel)
      → (paginate_pages fetch_page checkpoint max_pages initial w).0 ≢ err out_of_fuel
  unfolding paginate_pages
  paginate_pages_fuel initial w fetches saves =
      ground (arith, page_loop_fuel max_pages [] (initial_seen initial) initial w fetches saves)
