-- ===== src/Workflows/LiveCapture/Stored.antt =====
-- The writes of a live capture to the captures and the records, which undo nothing.
use fb_scraper.Prelude.{ℕ, refl, ap, text_eq, Option, none, some, List, [], ◌∷◌, Text, ℤ, inl, inr}
use fb_scraper.Prelude.Dict.{insert}
use fb_scraper.Contracts.{GroupRecord, PostRecord, CommentRecord, RecordJson}
use fb_scraper.Exec.{modify}
use fb_scraper.Exec.Fixed.{Fixes, Fixes-preorder, Steps-both}
use fb_scraper.Exec.Inversion.{Result-cases}
use fb_scraper.Exec.Steps.{Steps, steps_rules, Steps-pure, Steps-bind}
use fb_scraper.Storage.Tables.{DateTime, CaptureRow, CounterRow, Database}
use fb_scraper.Storage.Captures.{add, add_row}
use fb_scraper.Storage.Captures.Immutable.{add-KeepsCaptures}
use fb_scraper.Storage.Counters.{save_counters}
use fb_scraper.Storage.Counters.History.{save_counters-Appends}
use fb_scraper.Storage.Canonical.{
  put_group, put_post, put_comment, save_group, save_post, save_comment,
}
use fb_scraper.Storage.Canonical.Puts.{
  put_group_ok, put_group_err, put_post_ok, put_post_err, put_comment_ok, put_comment_err,
}
use fb_scraper.Storage.Canonical.Forward.{
  save_group-Forward, save_post-Forward, save_comment-Forward,
}
use fb_scraper.Workflows.LiveCapture.Durable.{
  Durable, Durable-preorder, captures_of, records_of, same_captures, same_records,
}
use fb_scraper.Workflows.LiveCapture.Persist.{save_posts, save_comments, persist_page}

add_capture-Fixes :
    (capture_id : Text) (row : CaptureRow)
    → Steps (Fixes records_of) (
        modify
          (λ (db : Database). record db { raw_captures = insert capture_id row db.raw_captures }))
add_capture-Fixes capture_id row = record { at = λ db. record { same = refl } }

add_row-Fixes :
    (capture_id : Text) (requested : CaptureRow) (o : Option CaptureRow)
    → Steps (Fixes records_of) (add_row capture_id requested o)
add_row-Fixes capture_id requested none =
    search (steps_rules, Fixes-preorder records_of, add_capture-Fixes) depth 10
add_row-Fixes capture_id requested (some row) = search (steps_rules, Fixes-preorder records_of)

pub add-Fixes :
    (capture_id sha256 source_url : Text) (at : DateTime) (path : Option Text) (count : Option ℤ)
    → Steps (Fixes records_of) (add capture_id sha256 source_url at path count)
unfolding add
add-Fixes capture_id sha256 source_url at path count =
    search (steps_rules, Fixes-preorder records_of, add_row-Fixes) depth 14

pub add-Durable :
    (capture_id sha256 source_url : Text) (at : DateTime) (path : Option Text) (count : Option ℤ)
    → Steps Durable (add capture_id sha256 source_url at path count)
add-Durable capture_id sha256 source_url at path count =
    Steps-both (add capture_id sha256 source_url at path count)
      (λ s t k f. record { captures = k; forward = same_records s t f.same })
      (add-KeepsCaptures capture_id sha256 source_url at path count)
      (add-Fixes capture_id sha256 source_url at path count)

counters-Fixes : (rows : List CounterRow) → Steps (Fixes captures_of) (save_counters rows)
counters-Fixes rows = record {
  at = λ db. record { same = ap captures_of ((save_counters-Appends rows).at db).rest };
}

module _ (json : RecordJson) where
  put_group-Fixes : (r : GroupRecord) → Steps (Fixes captures_of) (put_group json r)
  put_group-Fixes r = record {
    at = λ db. elim (Result-cases (put_group json r db).0) [
      | inl (_, h) ↦ record { same = ap captures_of (put_group_ok json r db h) }
      | inr (_, h) ↦ record { same = ap captures_of (put_group_err json r db h) }
    ];
  }

  put_post-Fixes : (r : PostRecord) → Steps (Fixes captures_of) (put_post json r)
  put_post-Fixes r = record {
    at = λ db. elim (Result-cases (put_post json r db).0) [
      | inl (_, h) ↦ record { same = ap captures_of (put_post_ok json r db h) }
      | inr (_, h) ↦ record { same = ap captures_of (put_post_err json r db h) }
    ];
  }

  put_comment-Fixes : (r : CommentRecord) → Steps (Fixes captures_of) (put_comment json r)
  put_comment-Fixes r = record {
    at = λ db. elim (Result-cases (put_comment json r db).0) [
      | inl (_, h) ↦ record { same = ap captures_of (put_comment_ok json r db h) }
      | inr (_, h) ↦ record { same = ap captures_of (put_comment_err json r db h) }
    ];
  }

  save_group-Fixes : (r : GroupRecord) → Steps (Fixes captures_of) (save_group json r)
  unfolding save_group
  save_group-Fixes r =
      search (steps_rules, Fixes-preorder captures_of, put_group-Fixes, counters-Fixes) depth 8

  save_post-Fixes : (r : PostRecord) → Steps (Fixes captures_of) (save_post json r)
  unfolding save_post
  save_post-Fixes r =
      search (steps_rules, Fixes-preorder captures_of, put_post-Fixes, counters-Fixes) depth 8

  save_comment-Fixes : (r : CommentRecord) → Steps (Fixes captures_of) (save_comment json r)
  unfolding save_comment
  save_comment-Fixes r =
      search (steps_rules, Fixes-preorder captures_of, put_comment-Fixes, counters-Fixes) depth 8

  save_group-Durable : (r : GroupRecord) → Steps Durable (save_group json r)
  save_group-Durable r =
      Steps-both (save_group json r)
        (λ s t f k. record { captures = same_captures s t k.same; forward = f })
        (save_group-Forward json r) (save_group-Fixes r)

  save_post-Durable : (r : PostRecord) → Steps Durable (save_post json r)
  save_post-Durable r =
      Steps-both (save_post json r)
        (λ s t f k. record { captures = same_captures s t k.same; forward = f })
        (save_post-Forward json r) (save_post-Fixes r)

  save_comment-Durable : (r : CommentRecord) → Steps Durable (save_comment json r)
  save_comment-Durable r =
      Steps-both (save_comment json r)
        (λ s t f k. record { captures = same_captures s t k.same; forward = f })
        (save_comment-Forward json r) (save_comment-Fixes r)

  save_posts-Durable : (posts : List PostRecord) → Steps Durable (save_posts json posts)
  unfolding save_posts
  save_posts-Durable [] = Steps-pure Durable-preorder tt
  save_posts-Durable (post ∷ posts) =
      Steps-bind Durable-preorder _ _ (save_post-Durable post) (λ _. save_posts-Durable posts)

  save_comments-Durable :
      (comments : List CommentRecord) → Steps Durable (save_comments json comments)
  unfolding save_comments
  save_comments-Durable [] = Steps-pure Durable-preorder tt
  save_comments-Durable (comment ∷ comments) =
      Steps-bind Durable-preorder _ _ (save_comment-Durable comment)
        (λ _. save_comments-Durable comments)

  pub persist_page-Durable :
      (source_url : Text) (lower_bound : ℕ) (path : Text) (count : ℕ) (g : GroupRecord)
      (posts : List PostRecord) (comments : List CommentRecord)
      → Steps Durable (persist_page json source_url lower_bound path count g posts comments)
  unfolding persist_page
  persist_page-Durable source_url lower_bound path count g posts comments =
      search
        (
          steps_rules, Durable-preorder, add-Durable, save_group-Durable, save_posts-Durable,
          save_comments-Durable,
        )
        depth 10
