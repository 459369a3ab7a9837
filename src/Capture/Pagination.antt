-- ===== src/Capture/Pagination.antt =====
-- `paginate_pages` of capture/pagination.py. The callbacks `fetch_page` and `checkpoint` act on a
-- world `W` and may raise. `max_pages` is a natural number: zero stands for every value that the
-- guard refuses. The `while True` loop takes fuel; `max_pages` rounds are enough
-- (Pagination/Bounds).
pub mod Bounds
pub mod Trace
pub mod Exact
use fb_scraper.Prelude.{
  ℕ, zero, suc, Bool, Option, none, some, List, [], ◌∷◌, ◌++◌, Eq, contains, leb, length, nat_eq,
  ◌==◌,
}
use fb_scraper.Errors.{
  ok, err, value_error, page_limit_exceeded, pagination_loop_error, out_of_fuel,
}
use fb_scraper.Exec.{Exec, pure, raise, raise_if, ◌>>=◌, ◌>>◌}

-- `CursorPage`
pub record CursorPage (I C : Type 0) : Type 0 where
  pub items : List I
  pub next_cursor : Option C

-- `seen_cursors` before the loop
abbrev pub initial_seen : {C : Type 0} → Option C → List C
initial_seen none = []
initial_seen (some c) = c ∷ []

module _ {W I C : Type 0} ⦃e : Eq C⦄ (fetch_page : Option C → Exec W (CursorPage I C))
    (checkpoint : C → ℕ → Exec W (Unit {0})) (max_pages : ℕ) where
  -- What follows the fetch of a page: `pages` ends with it, `next` is its cursor, and `again` is
  -- the next round of the loop.
  unfoldable pub after_page :
      (List (CursorPage I C) → List C → Option C → Exec W (List (CursorPage I C)))
      → List (CursorPage I C)
      → List C
      → Option C
      → Exec W (List (CursorPage I C))
  after_page again pages seen_cursors none = pure pages
  after_page again pages seen_cursors (some next) = do
    raise_if (leb max_pages (length pages)) page_limit_exceeded
    raise_if (contains seen_cursors next) pagination_loop_error
    checkpoint next (length pages)
    again pages (next ∷ seen_cursors) (some next)

  unfoldable pub page_loop :
      ℕ → List (CursorPage I C) → List C → Option C → Exec W (List (CursorPage I C))
  unfolding after_page
  page_loop zero pages seen_cursors cursor = raise out_of_fuel
  page_loop (suc fuel) pages seen_cursors cursor = do
    page ← fetch_page cursor
    after_page (page_loop fuel) (pages ++ (page ∷ [])) seen_cursors page.next_cursor

  unfoldable pub paginate_pages : Option C → Exec W (List (CursorPage I C))
  unfolding page_loop
  paginate_pages initial_cursor = do
    raise_if (max_pages == 0) value_error
    page_loop max_pages [] (initial_seen initial_cursor) initial_cursor
