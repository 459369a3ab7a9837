-- ===== src/Workflows/LiveCapture/Selected.antt =====
-- A page changes only the Posts that are inside the time window.
use fb_scraper.Prelude.{
  ℕ, ◌≡◌, ◌≢◌, refl, ap, ◌∙◌, Bool, true, false, Option, inl, inr, List, [], ◌∷◌, Text, text_eq,
  nat_eq, All, if◌then◌else◌, ℤ,
}
use fb_scraper.Prelude.Dict.{lookup, lookup-insert_ne}
use fb_scraper.Contracts.{GroupRecord, PostRecord, CommentRecord, RecordJson}
use fb_scraper.Exec.Fixed.{Fixes, Fixes-preorder}
use fb_scraper.Exec.Inversion.{Result-cases}
use fb_scraper.Exec.Steps.{Steps, steps_rules, Steps-pure, Steps-bind, Steps-transaction}
use fb_scraper.Storage.Tables.{DateTime, PostRow, CounterRow, Database}
use fb_scraper.Storage.Captures.{add}
use fb_scraper.Storage.Counters.{save_counters}
use fb_scraper.Storage.Counters.History.{save_counters-Appends}
use fb_scraper.Storage.Canonical.{
  put_group, put_post, put_comment, post_row, save_group, save_post, save_comment,
}
use fb_scraper.Storage.Canonical.Puts.{
  put_group_ok, put_group_err, put_post_ok, put_post_err, put_comment_ok, put_comment_err,
}
use fb_scraper.Workflows.LiveCapture.Durable.{Records}
use fb_scraper.Workflows.LiveCapture.Stored.{add-Fixes}
use fb_scraper.Workflows.LiveCapture.Persist.{
  is_selected, selected_posts, save_posts, save_comments, persist_page,
}

-- The row of one Post
abbrev pub post_of : Text → Database → Option PostRow
post_of key db = lookup key db.posts

module _ (json : RecordJson) (key : Text) where
  add-Keeps :
      (capture_id sha256 source_url : Text) (at : DateTime) (path : Option Text) (count : Option ℤ)
      → Steps (Fixes (post_of key)) (add capture_id sha256 source_url at path count)
  add-Keeps capture_id sha256 source_url at path count = record {
    at = λ db. record {
      same =
          ap (λ (x : Records). lookup key x.1.0)
            ((add-Fixes capture_id sha256 source_url at path count).at db).same;
    };
  }

  counters-Keeps : (rows : List CounterRow) → Steps (Fixes (post_of key)) (save_counters rows)
  counters-Keeps rows = record {
    at = λ db. record { same = ap (post_of key) ((save_counters-Appends rows).at db).rest };
  }

  put_group-Keeps : (r : GroupRecord) → Steps (Fixes (post_of key)) (put_group json r)
  put_group-Keeps r = record {
    at = λ db. elim (Result-cases (put_group json r db).0) [
      | inl (_, h) ↦ record { same = ap (post_of key) (put_group_ok json r db h) }
      | inr (_, h) ↦ record { same = ap (post_of key) (put_group_err json r db h) }
    ];
  }

  put_comment-Keeps : (r : CommentRecord) → Steps (Fixes (post_of key)) (put_comment json r)
  put_comment-Keeps r = record {
    at = λ db. elim (Result-cases (put_comment json r db).0) [
      | inl (_, h) ↦ record { same = ap (post_of key) (put_comment_ok json r db h) }
      | inr (_, h) ↦ record { same = ap (post_of key) (put_comment_err json r db h) }
    ];
  }

  put_post-Keeps :
      (r : PostRecord) → key ≢ r.post_id → Steps (Fixes (post_of key)) (put_post json r)
  put_post-Keeps r n = record {
    at = λ db. elim (Result-cases (put_post json r db).0) [
      | inl (_, h) ↦ record {
        same =
            ap (post_of key) (put_post_ok json r db h)
            ∙ lookup-insert_ne key r.post_id (post_row json r) db.posts n;
      }
      | inr (_, h) ↦ record { same = ap (post_of key) (put_post_err json r db h) }
    ];
  }

  save_group-Keeps : (r : GroupRecord) → Steps (Fixes (post_of key)) (save_group json r)
  unfolding save_group
  save_group-Keeps r =
      search (steps_rules, Fixes-preorder (post_of key), put_group-Keeps, counters-Keeps) depth 8

  save_comment-Keeps : (r : CommentRecord) → Steps (Fixes (post_of key)) (save_comment json r)
  unfolding save_comment
  save_comment-Keeps r =
      search (steps_rules, Fixes-preorder (post_of key), put_comment-Keeps, counters-Keeps) depth 8

  save_post-Keeps :
      (r : PostRecord) → key ≢ r.post_id → Steps (Fixes (post_of key)) (save_post json r)
  unfolding save_post
  save_post-Keeps r n =
      Steps-transaction (Fixes-preorder (post_of key)) _
        (Steps-bind (Fixes-preorder (post_of key)) _ _ (put_post-Keeps r n) (λ _. counters-Keeps _))

  save_posts-Keeps :
      (posts : List PostRecord)
      → All (λ p. key ≢ p.post_id) posts
      → Steps (Fixes (post_of key)) (save_posts json posts)
  unfolding save_posts
  save_posts-Keeps [] h = Steps-pure (Fixes-preorder (post_of key)) tt
  save_posts-Keeps (post ∷ posts) (h, hs) =
      Steps-bind (Fixes-preorder (post_of key)) _ _ (save_post-Keeps post h)
        (λ _. save_posts-Keeps posts hs)

  save_comments-Keeps :
      (comments : List CommentRecord) → Steps (Fixes (post_of key)) (save_comments json comments)
  unfolding save_comments
  save_comments-Keeps [] = Steps-pure (Fixes-preorder (post_of key)) tt
  save_comments-Keeps (comment ∷ comments) =
      Steps-bind (Fixes-preorder (post_of key)) _ _ (save_comment-Keeps comment)
        (λ _. save_comments-Keeps comments)

  kept_others :
      (b : Bool) (p : PostRecord) (posts : List PostRecord)
      → (b ≡ true → key ≢ p.post_id)
      → All (λ p. key ≢ p.post_id) posts
      → All (λ p. key ≢ p.post_id) (if b then p ∷ posts else posts)
  kept_others true p posts h hs = (h refl, hs)
  kept_others false p posts h hs = hs

  others :
      (lower_bound : ℕ) (posts : List PostRecord)
      → All (λ p. is_selected lower_bound p ≡ true → key ≢ p.post_id) posts
      → All (λ p. key ≢ p.post_id) (selected_posts lower_bound posts)
  unfolding selected_posts
  others lower_bound [] h = tt
  others lower_bound (p ∷ posts) (h, hs) =
      kept_others (is_selected lower_bound p) p _ h (others lower_bound posts hs)

  -- The row of a Post that is none of the page's Posts with a publication time from the lower
  -- bound on is the same after the page was stored, or its storing was stopped by a raise.
  pub persist_page-Fixes :
      (source_url : Text) (lower_bound : ℕ) (path : Text) (count : ℕ) (g : GroupRecord)
      (posts : List PostRecord) (comments : List CommentRecord)
      → All (λ p. is_selected lower_bound p ≡ true → key ≢ p.post_id) posts
      → Steps
          (Fixes (post_of key))
          (persist_page json source_url lower_bound path count g posts comments)
  unfolding persist_page
  persist_page-Fixes source_url lower_bound path count g posts comments h =
      let o = Fixes-preorder (post_of key) in
      Steps-bind o _ _ (add-Keeps _ _ _ _ _ _) λ _. Steps-bind o _ _ (save_group-Keeps g) λ _.
        Steps-bind o _ _ (save_posts-Keeps _ (others lower_bound posts h))
          λ _. save_comments-Keeps _
