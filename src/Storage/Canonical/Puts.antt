-- ===== src/Storage/Canonical/Puts.antt =====
-- What the guarded upserts do: one that raises writes nothing, and one that returns has written
-- the record's row over a row that is not newer and has the same parents.
use fb_scraper.Prelude.{◌≡◌, ◌≤◌, some, text_eq, nat_eq, arith}
use fb_scraper.Prelude.Dict.{lookup, insert}
use fb_scraper.Contracts.{GroupRecord, PostRecord, CommentRecord, RecordJson}
use fb_scraper.Errors.{Error, ok, err}
use fb_scraper.Storage.Tables.{GroupRow, PostRow, CommentRow, Database}
use fb_scraper.Storage.Canonical.{
  group_row, post_row, comment_row, put_group, put_post, put_comment,
}

pub record LaterGroup (row row' : GroupRow) : Type 0 where
  pub time : row.observed_at ≤ row'.observed_at

pub record LaterPost (row row' : PostRow) : Type 0 where
  pub time : row.observed_at ≤ row'.observed_at
  pub group_id : row'.group_id ≡ row.group_id

pub record LaterComment (row row' : CommentRow) : Type 0 where
  pub time : row.observed_at ≤ row'.observed_at
  pub post_id : row'.post_id ≡ row.post_id
  pub group_id : row'.group_id ≡ row.group_id

module _ (json : RecordJson) where
  pub put_group_err :
      (r : GroupRecord) (db : Database) {e : Error}
      → (put_group json r db).0 ≡ err e
      → (put_group json r db).1 ≡ db
  unfolding put_group
  put_group_err r db h = ground arith

  pub put_group_ok :
      (r : GroupRecord) (db : Database)
      → (put_group json r db).0 ≡ ok tt
      → (put_group json r db).1
        ≡ record db { groups = insert r.group_id (group_row json r) db.groups }
  unfolding put_group
  put_group_ok r db h = ground arith

  pub put_group_after :
      (r : GroupRecord) (db : Database) (old : GroupRow)
      → (put_group json r db).0 ≡ ok tt
      → lookup r.group_id db.groups ≡ some old
      → LaterGroup old (group_row json r)
  unfolding put_group
  put_group_after r db old h e = ground arith

  pub put_post_err :
      (r : PostRecord) (db : Database) {e : Error}
      → (put_post json r db).0 ≡ err e
      → (put_post json r db).1 ≡ db
  unfolding put_post
  put_post_err r db h = ground arith

  pub put_post_ok :
      (r : PostRecord) (db : Database)
      → (put_post json r db).0 ≡ ok tt
      → (put_post json r db).1 ≡ record db { posts = insert r.post_id (post_row json r) db.posts }
  unfolding put_post
  put_post_ok r db h = ground arith

  pub put_post_after :
      (r : PostRecord) (db : Database) (old : PostRow)
      → (put_post json r db).0 ≡ ok tt
      → lookup r.post_id db.posts ≡ some old
      → LaterPost old (post_row json r)
  unfolding put_post
  put_post_after r db old h e = ground arith

  pub put_comment_err :
      (r : CommentRecord) (db : Database) {e : Error}
      → (put_comment json r db).0 ≡ err e
      → (put_comment json r db).1 ≡ db
  unfolding put_comment
  put_comment_err r db h = ground arith

  pub put_comment_ok :
      (r : CommentRecord) (db : Database)
      → (put_comment json r db).0 ≡ ok tt
      → (put_comment json r db).1
        ≡ record db { comments = insert r.comment_id (comment_row json r) db.comments }
  unfolding put_comment
  put_comment_ok r db h = ground arith

  pub put_comment_after :
      (r : CommentRecord) (db : Database) (old : CommentRow)
      → (put_comment json r db).0 ≡ ok tt
      → lookup r.comment_id db.comments ≡ some old
      → LaterComment old (comment_row json r)
  unfolding put_comment
  put_comment_after r db old h e = ground arith
