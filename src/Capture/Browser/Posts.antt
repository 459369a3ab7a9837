-- ===== src/Capture/Browser/Posts.antt =====
-- What capture/playwright_adapter.py does with the Posts of a rendered page: the identifiers that
-- may be expanded, the Posts that a snapshot keeps, and the pages that show none. The elements of
-- the page are what its queries give, in the order of the document.
pub mod Bounded
use fb_scraper.Prelude.{
  ℕ, zero, suc, Bool, true, false, ◌&&◌, ◌||◌, Option, none, some, List, [], ◌∷◌, ◌++◌, Text, text,
  text_eq, nat_eq, ◌==◌, contains, length, leb, ltb, if◌then◌else◌,
}
use fb_scraper.Errors.{Result, ok, err}
use fb_scraper.Exec.{Exec, pure, raise}
use fb_scraper.Capture.Browser.{Failure, Browser, raised, record_stop}

-- An element that names a Post: its attribute `data-pgscan-post-id`, and what the pattern
-- `/posts/([^/?#]+)` finds in its `href`, or in that of its link
pub record Element : Type 0 where
  pub explicit : Option Text
  pub in_href : Option Text

-- `explicit or (match.group(1) if match else None)`
abbrev pub post_id : Option Text → Option Text → Option Text
post_id none in_href = in_href
post_id (some []) in_href = in_href
post_id (some (c ∷ t)) in_href = some (c ∷ t)

abbrev pub post_id_of : Element → Option Text
post_id_of e = post_id e.explicit e.in_href

abbrev pub add_id : Option Text → List Text → List Text
add_id none ids = ids
add_id (some i) ids = if contains ids i then ids else ids ++ (i ∷ [])

-- The loop of `_permitted_post_ids`
unfoldable pub permitted_from : ℕ → List Text → List Element → List Text
permitted_from limit ids [] = ids
permitted_from limit ids (e ∷ es) =
    let next = add_id (post_id_of e) ids in
    let rest = permitted_from limit next es in if leb limit (length next) then next else rest

-- `_permitted_post_ids`
unfoldable pub permitted_post_ids : ℕ → List Element → List Text
unfolding permitted_from
permitted_post_ids limit = permitted_from limit []

-- A snapshot: the identifiers that were captured, the known ones that were skipped, and the Posts
-- that stay in the HTML, in order
pub record Snapshot : Type 0 where
  pub captured : List Text
  pub skipped : List Text
  pub kept : List (Option Text)

abbrev pub keep : Option Text → Snapshot → Snapshot
keep i s = record s { kept = s.kept ++ (i ∷ []) }

module _ (known : List Text) (limit : ℕ) where
  -- One Post of `_bounded_html`
  abbrev pub take_post : Option Text → Snapshot → Snapshot
  take_post none s = keep none s
  take_post (some i) s =
      if contains known i
      then record s { skipped = add_id (some i) s.skipped }
      else if contains s.captured i
      then keep (some i) s
      else if leb limit (length s.captured)
      then s
      else keep (some i) (record s { captured = i ∷ s.captured })

  unfoldable pub take_posts : List Element → Snapshot → Snapshot
  take_posts [] s = s
  take_posts (e ∷ es) s = take_posts es (take_post (post_id_of e) s)

-- `_bounded_html`, on the Posts that are captured and skipped already
unfoldable pub bounded_html : List Text → ℕ → List Element → List Text → List Text → Snapshot
unfolding take_posts
bounded_html known limit elements captured skipped =
    take_posts known limit elements (record { captured = captured; skipped = skipped; kept = [] })

-- The number of empty shells after a page
abbrev pub shells_after : Bool → ℕ → ℕ
shells_after has_post_progress shells = if has_post_progress then 0 else suc shells

abbrev pub is_stuck : ℕ → Bool → ℕ → Bool
is_stuck limit has_post_progress shells =
    if has_post_progress then false else (leb limit (suc shells) && ltb 1 (suc shells))

-- `_check_empty_group_shell_progress`, with the capture that it may stop and the number of shells
module _ {W : Type 0} (limit : ℕ) (failure : ℕ → Failure) where
  unfoldable pub check_shell : Bool → Exec (Browser W × ℕ) (Unit {0})
  check_shell has_post_progress (b, shells) =
      let pages = shells_after has_post_progress shells in
      if is_stuck limit has_post_progress shells
      then (
        err (raised (failure pages)),
        (
          record_stop (failure pages).failure_class
              (record b { stop_failure = some (failure pages) }),
          pages,
        ),
      )
      else (ok tt, (b, pages))
