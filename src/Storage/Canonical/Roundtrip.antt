-- ===== src/Storage/Canonical/Roundtrip.antt =====
-- What can be read back after a save, and that saving the same record again changes nothing.
use fb_scraper.Prelude.{
  ◌≡◌, ◌∙◌, Bool, true, ◌&&◌, some, List, text_eq, nat_eq, arith, sym, ap, subst, All,
}
use fb_scraper.Prelude.Dict.{lookup, has, lookup-insert_self, insert-lookup}
use fb_scraper.Contracts.{GroupRecord, PostRecord, CommentRecord, RecordJson}
use fb_scraper.Errors.{Result, ok}
use fb_scraper.Exec.Inversion.{bind_ok, transaction_ok}
use fb_scraper.Exec.{Exec, ◌>>◌, transaction}
use fb_scraper.Storage.Tables.{comment, CounterRow, Database}
use fb_scraper.Storage.Counters.{save_counters}
use fb_scraper.Storage.Counters.History.{
  Appends, save_counters-Appends, Holds, save_counters-Holds, save_counters_held,
}
use fb_scraper.Storage.Canonical.{
  group_row, post_row, comment_row, group_counters, post_counters, reaction_rows, put_group,
  put_post, put_comment, save_group, save_post, save_comment, get_group, get_post, get_comment,
}
use fb_scraper.Storage.Canonical.Puts.{put_group_ok, put_post_ok, put_comment_ok}

-- The shape of every save: an upsert and the counters, in one transaction.
saved :
    (put : Exec Database (Unit {0})) (rows : List CounterRow) (db : Database)
    → (transaction (put >> save_counters rows) db).0 ≡ ok tt
    → ((put db).0 ≡ ok tt)
      × ((save_counters rows (put db).1).0 ≡ ok tt)
      × (transaction (put >> save_counters rows) db ≡ save_counters rows (put db).1)
saved put rows db h =
    let (inner, same) = transaction_ok (put >> save_counters rows) db h in
    let (_, first, rest) = bind_ok put (λ _. save_counters rows) db inner in
    (first, ap (λ (p : Result (Unit {0}) × Database). p.0) (sym rest) ∙ inner, same ∙ rest)

-- Saving the counters leaves the tables of the records and of the captures.
tables_kept :
    (s t : Database)
    → Appends s t
    → (t.groups ≡ s.groups)
      × (t.posts ≡ s.posts)
      × (t.comments ≡ s.comments)
      × (t.raw_captures ≡ s.raw_captures)
tables_kept s t a = (
  ap (λ (d : Database). d.groups) a.rest,
  ap (λ (d : Database). d.posts) a.rest,
  ap (λ (d : Database). d.comments) a.rest,
  ap (λ (d : Database). d.raw_captures) a.rest,
)

module _ (json : RecordJson) where
  -- The foreign keys of a Group that the upsert accepts.
  abbrev has_group_refs : GroupRecord → Database → Bool
  has_group_refs r db = has r.raw_capture_id db.raw_captures

  put_group_refs :
      (r : GroupRecord) (db : Database)
      → (put_group json r db).0 ≡ ok tt
      → has_group_refs r db ≡ true
  unfolding put_group
  put_group_refs r db h = ground arith

  put_group_again :
      (r : GroupRecord) (db : Database)
      → lookup r.group_id db.groups ≡ some (group_row json r)
      → has_group_refs r db ≡ true
      → put_group json r db ≡ (ok tt, db)
  unfolding put_group
  put_group_again r db e h = ground (arith, insert-lookup r.group_id (group_row json r) db.groups)

  -- The Group stands in the store, with its references and its counters.
  abbrev pub StoredGroup : GroupRecord → Database → Type 0
  StoredGroup r db =
      (lookup r.group_id db.groups ≡ some (group_row json r))
      × (has_group_refs r db ≡ true)
      × All (λ c. Holds c db) (group_counters r r.member_count)

  -- A Group record that was saved without a raise stands in the store with the values of the record,
  -- beside the rows that its foreign keys name, and each of its counters stands in the history.
  pub save_group_stored :
      (r : GroupRecord) (db : Database)
      → (save_group json r db).0 ≡ ok tt
      → StoredGroup r (save_group json r db).1
  unfolding save_group
  save_group_stored r db h =
      let (first, counted, same) =
        saved (put_group json r) (group_counters r r.member_count) db h in
      let k =
        tables_kept (put_group json r db).1 _
          ((save_counters-Appends (group_counters r r.member_count)).at (put_group json r db).1) in
      subst (λ (p : Result (Unit {0}) × Database). StoredGroup r p.1) (sym same)
        (
          rw (k.0, put_group_ok json r db first)
              (lookup-insert_self r.group_id (group_row json r) db.groups),
          rw (k.3, put_group_ok json r db first) (put_group_refs r db first),
          save_counters-Holds (group_counters r r.member_count) (put_group json r db).1 counted,
        )

  -- The foreign keys of a Post that the upsert accepts.
  abbrev has_post_refs : PostRecord → Database → Bool
  has_post_refs r db = has r.raw_capture_id db.raw_captures && has r.group_id db.groups

  put_post_refs :
      (r : PostRecord) (db : Database) → (put_post json r db).0 ≡ ok tt → has_post_refs r db ≡ true
  unfolding put_post
  put_post_refs r db h = ground arith

  put_post_again :
      (r : PostRecord) (db : Database)
      → lookup r.post_id db.posts ≡ some (post_row json r)
      → has_post_refs r db ≡ true
      → put_post json r db ≡ (ok tt, db)
  unfolding put_post
  put_post_again r db e h = ground (arith, insert-lookup r.post_id (post_row json r) db.posts)

  -- The Post stands in the store, with its references and its counters.
  abbrev pub StoredPost : PostRecord → Database → Type 0
  StoredPost r db =
      (lookup r.post_id db.posts ≡ some (post_row json r))
      × (has_post_refs r db ≡ true)
      × All (λ c. Holds c db) (post_counters r)

  -- A Post record that was saved without a raise stands in the store with the values of the record,
  -- beside the rows that its foreign keys name, and each of its counters stands in the history.
  pub save_post_stored :
      (r : PostRecord) (db : Database)
      → (save_post json r db).0 ≡ ok tt
      → StoredPost r (save_post json r db).1
  unfolding save_post
  save_post_stored r db h =
      let (first, counted, same) = saved (put_post json r) (post_counters r) db h in
      let k =
        tables_kept (put_post json r db).1 _
          ((save_counters-Appends (post_counters r)).at (put_post json r db).1) in
      subst (λ (p : Result (Unit {0}) × Database). StoredPost r p.1) (sym same)
        (
          rw (k.1, put_post_ok json r db first)
              (lookup-insert_self r.post_id (post_row json r) db.posts),
          rw (k.3, k.0, put_post_ok json r db first) (put_post_refs r db first),
          save_counters-Holds (post_counters r) (put_post json r db).1 counted,
        )

  -- The foreign keys of a Comment that the upsert accepts.
  abbrev has_comment_refs : CommentRecord → Database → Bool
  has_comment_refs r db =
      has r.raw_capture_id db.raw_captures && (has r.post_id db.posts && has r.group_id db.groups)

  put_comment_refs :
      (r : CommentRecord) (db : Database)
      → (put_comment json r db).0 ≡ ok tt
      → has_comment_refs r db ≡ true
  unfolding put_comment
  put_comment_refs r db h = ground arith

  put_comment_again :
      (r : CommentRecord) (db : Database)
      → lookup r.comment_id db.comments ≡ some (comment_row json r)
      → has_comment_refs r db ≡ true
      → put_comment json r db ≡ (ok tt, db)
  unfolding put_comment
  put_comment_again r db e h =
      ground (arith, insert-lookup r.comment_id (comment_row json r) db.comments)

  -- The Comment stands in the store, with its references and its counters.
  abbrev pub StoredComment : CommentRecord → Database → Type 0
  StoredComment r db =
      (lookup r.comment_id db.comments ≡ some (comment_row json r))
      × (has_comment_refs r db ≡ true)
      × All (λ c. Holds c db)
          (reaction_rows comment r.comment_id r.observed_at r.raw_capture_id r.reactions)

  -- A Comment record that was saved without a raise stands in the store with the values of the record,
  -- beside the rows that its foreign keys name, and each of its counters stands in the history.
  pub save_comment_stored :
      (r : CommentRecord) (db : Database)
      → (save_comment json r db).0 ≡ ok tt
      → StoredComment r (save_comment json r db).1
  unfolding save_comment
  save_comment_stored r db h =
      let (first, counted, same) =
        saved (put_comment json r)
          (reaction_rows comment r.comment_id r.observed_at r.raw_capture_id r.reactions) db h in
      let k = tables_kept (put_comment json r db).1 _ (
        (save_counters-Appends
            (reaction_rows comment r.comment_id r.observed_at r.raw_capture_id r.reactions)).at
          (put_comment json r db).1) in
      subst (λ (p : Result (Unit {0}) × Database). StoredComment r p.1) (sym same)
        (
          rw (k.2, put_comment_ok json r db first)
              (lookup-insert_self r.comment_id (comment_row json r) db.comments),
          rw (k.3, k.1, k.0, put_comment_ok json r db first) (put_comment_refs r db first),
          save_counters-Holds
              (reaction_rows comment r.comment_id r.observed_at r.raw_capture_id r.reactions)
              (put_comment json r db).1 counted,
        )

  held_group_again :
      (r : GroupRecord) (db : Database) → StoredGroup r db → save_group json r db ≡ (ok tt, db)
  unfolding save_group
  held_group_again r db (row, refs, counters) = rw (
    put_group_again r db row refs,
    save_counters_held (group_counters r r.member_count) db counters,
  )

  -- Saving a Group record that was saved once more returns and changes nothing.
  save-save_group :
      (r : GroupRecord) (db : Database)
      → (save_group json r db).0 ≡ ok tt
      → save_group json r (save_group json r db).1 ≡ (ok tt, (save_group json r db).1)
  save-save_group r db h = held_group_again r (save_group json r db).1 (save_group_stored r db h)

  -- A Group record that was saved without a raise is what its identifier reads back.
  pub get-save_group :
      (r : GroupRecord) (db : Database)
      → (save_group json r db).0 ≡ ok tt
      → get_group json r.group_id (save_group json r db).1 ≡ (ok (some r), (save_group json r db).1)
  unfolding get_group
  get-save_group r db h = rw (save_group_stored r db h).0 (rw json.read-dump_group)

  held_post_again :
      (r : PostRecord) (db : Database) → StoredPost r db → save_post json r db ≡ (ok tt, db)
  unfolding save_post
  held_post_again r db (row, refs, counters) =
      rw (put_post_again r db row refs, save_counters_held (post_counters r) db counters)

  -- Saving a Post record that was saved once more returns and changes nothing.
  pub save-save_post :
      (r : PostRecord) (db : Database)
      → (save_post json r db).0 ≡ ok tt
      → save_post json r (save_post json r db).1 ≡ (ok tt, (save_post json r db).1)
  save-save_post r db h = held_post_again r (save_post json r db).1 (save_post_stored r db h)

  -- A Post record that was saved without a raise is what its identifier reads back.
  pub get-save_post :
      (r : PostRecord) (db : Database)
      → (save_post json r db).0 ≡ ok tt
      → get_post json r.post_id (save_post json r db).1 ≡ (ok (some r), (save_post json r db).1)
  unfolding get_post
  get-save_post r db h = rw (save_post_stored r db h).0 (rw json.read-dump_post)

  held_comment_again :
      (r : CommentRecord) (db : Database)
      → StoredComment r db
      → save_comment json r db ≡ (ok tt, db)
  unfolding save_comment
  held_comment_again r db (row, refs, counters) = rw (
    put_comment_again r db row refs,
    save_counters_held
        (reaction_rows comment r.comment_id r.observed_at r.raw_capture_id r.reactions) db counters,
  )

  -- Saving a Comment record that was saved once more returns and changes nothing.
  save-save_comment :
      (r : CommentRecord) (db : Database)
      → (save_comment json r db).0 ≡ ok tt
      → save_comment json r (save_comment json r db).1 ≡ (ok tt, (save_comment json r db).1)
  save-save_comment r db h =
      held_comment_again r (save_comment json r db).1 (save_comment_stored r db h)

  -- A Comment record that was saved without a raise is what its identifier reads back.
  pub get-save_comment :
      (r : CommentRecord) (db : Database)
      → (save_comment json r db).0 ≡ ok tt
      → get_comment json r.comment_id (save_comment json r db).1
        ≡ (ok (some r), (save_comment json r db).1)
  unfolding get_comment
  get-save_comment r db h = rw (save_comment_stored r db h).0 (rw json.read-dump_comment)
