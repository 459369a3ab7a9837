-- ===== src/Workflows/LiveCapture/Persist.antt =====
-- `_same_canonical_url`, `_persist_page` and `_identifiers` of workflows/live_capture.py.
use fb_scraper.Prelude.{
  ℕ, Bool, false, ◌&&◌, none, some, List, [], ◌∷◌, ◌++◌, Text, text, text_eq, nat_eq, ◌==◌,
  contains, filter, map, leb, text_leb, pos, reverse, if◌then◌else◌,
}
use fb_scraper.Prelude.Sort.{sorted}
use fb_scraper.Contracts.{GroupRecord, PostRecord, CommentRecord, RecordJson}
use fb_scraper.Exec.{Exec, pure, gets, ◌>>◌}
use fb_scraper.Storage.Tables.{aware, PostRow, CommentRow, Database}
use fb_scraper.Storage.Captures.{add}
use fb_scraper.Storage.Canonical.{save_group, save_post, save_comment}
use fb_scraper.Platform.{Platform}

-- `str.rstrip("/")` on the reversed text
abbrev pub drop_slashes : Text → Text
drop_slashes [] = []
drop_slashes (c ∷ s) = let rest = drop_slashes s in if c == b'/' then rest else c ∷ s

-- `path.rstrip("/") or "/"`
abbrev pub or_slash : Text → Text
or_slash [] = text "/"
or_slash (c ∷ s) = c ∷ s

unfoldable pub url_path : Text → Text
url_path path = or_slash (reverse (drop_slashes (reverse path)))

-- `_same_canonical_url`
unfoldable pub same_canonical_url : Platform → Text → Text → Bool
unfolding url_path
same_canonical_url platform left right =
    (platform.casefold (platform.urlsplit left).scheme
      == platform.casefold (platform.urlsplit right).scheme)
    && ((platform.casefold (platform.urlsplit left).netloc
          == platform.casefold (platform.urlsplit right).netloc)
        && (url_path (platform.urlsplit left).path == url_path (platform.urlsplit right).path))

-- `post.published_at is not None and post.published_at >= lower_bound`
abbrev pub is_selected : ℕ → PostRecord → Bool
is_selected lower_bound post = elim post.published_at [ none ↦ false | some t ↦ leb lower_bound t ]

-- `selected_posts`
unfoldable pub selected_posts : ℕ → List PostRecord → List PostRecord
selected_posts lower_bound posts = filter (is_selected lower_bound) posts

-- The comments whose Post is among the selected ones
unfoldable pub selected_comments : List PostRecord → List CommentRecord → List CommentRecord
selected_comments selected comments =
    filter (λ comment. contains (map (λ (p : PostRecord). p.post_id) selected) comment.post_id)
      comments

module _ (json : RecordJson) where
  unfoldable pub save_posts : List PostRecord → Exec Database (Unit {0})
  save_posts [] = pure tt
  save_posts (post ∷ posts) = do save_post json post; save_posts posts

  unfoldable pub save_comments : List CommentRecord → Exec Database (Unit {0})
  save_comments [] = pure tt
  save_comments (comment ∷ comments) = do save_comment json comment; save_comments comments

  -- `_persist_page`
  unfoldable pub persist_page :
      Text
      → ℕ
      → Text
      → ℕ
      → GroupRecord
      → List PostRecord
      → List CommentRecord
      → Exec Database (Unit {0})
  unfolding save_posts save_comments selected_posts selected_comments
  persist_page source_url lower_bound storage_path byte_count group posts comments = do
    add group.raw_capture_id group.raw_sha256 source_url (aware group.collected_at)
        (some storage_path) (some (pos byte_count))
    save_group json group
    save_posts (selected_posts lower_bound posts)
    save_comments (selected_comments (selected_posts lower_bound posts) comments)

-- `_identifiers`
unfoldable pub identifiers : Text → Exec Database (List Text)
unfolding sorted
identifiers group_id = gets (λ db. sorted text_leb (
    (text "group:" ++ group_id)
    ∷ (map (λ (key, _). text "post:" ++ key)
          (filter (λ ((_, row) : Text × PostRow). row.group_id == group_id) db.posts)
        ++ map (λ (key, _). text "comment:" ++ key)
            (filter (λ ((_, row) : Text × CommentRow). row.group_id == group_id) db.comments))))
