-- ===== src/Storage/Canonical/Forward.antt =====
-- Canonical records only move forward: a save never replaces a record by an older observation,
-- never changes the parents of one, and never loses a counter.
use fb_scraper.Prelude.{
  ◌≡◌, ◌∙◌, some, List, [], ◌++◌, Text, text_eq, nat_eq, refl, sym, ap, subst, IsPrefix, inl, inr,
  Text-cases,
}
use mathlib.Core.List.{append_assoc, append-nil}
use native.Mathlib.Nat.{le_refl, le_trans}
use fb_scraper.Prelude.Dict.{Dict, lookup, insert, lookup-insert_ne, lookup-insert_self}
use fb_scraper.Contracts.{GroupRecord, PostRecord, CommentRecord, RecordJson}
use fb_scraper.Errors.{ok}
use fb_scraper.Exec.Inversion.{Result-cases}
use fb_scraper.Exec.Steps.{IsPreorder, Steps, Steps-transaction, Steps-bind}
use fb_scraper.Storage.Tables.{CounterRow, Database}
use fb_scraper.Storage.Counters.{save_counters}
use fb_scraper.Storage.Counters.History.{Appends, save_counters-Appends}
use fb_scraper.Storage.Canonical.{
  group_row, post_row, comment_row, put_group, put_post, put_comment, save_group, save_post,
  save_comment,
}
use fb_scraper.Storage.Canonical.Puts.{
  LaterGroup, LaterPost, LaterComment, put_group_err, put_group_ok, put_group_after, put_post_err,
  put_post_ok, put_post_after, put_comment_err, put_comment_ok, put_comment_after,
}

-- Every row of the first table has a later row in the second one.
abbrev pub Later : {R : Type 0} → (R → R → Type 0) → Dict Text R → Dict Text R → Type 0
Later {R} rel d d' =
    (key : Text) (row : R)
    → lookup key d ≡ some row
    → (row' : R) × (lookup key d' ≡ some row') × rel row row'

pub record Forward (s t : Database) : Type 0 where
  pub groups : Later LaterGroup s.groups t.groups
  pub posts : Later LaterPost s.posts t.posts
  pub comments : Later LaterComment s.comments t.comments
  pub counters : IsPrefix s.counters t.counters

module _ {R : Type 0} (rel : R → R → Type 0) where
  Later-refl : ((a : R) → rel a a) → (d : Dict Text R) → Later rel d d
  Later-refl r d key row h = (row, h, r row)

  Later-trans :
      ((a b c : R) → rel a b → rel b c → rel a c)
      → (d e f : Dict Text R) → Later rel d e
      → Later rel e f
      → Later rel d f
  Later-trans t d e f p q key row h =
      let (row', h', m) = p key row h in
      let (row'', h'', n) = q key row' h' in (row'', h'', t row row' row'' m n)

  -- An upsert whose row comes after the one that it replaces.
  Later-insert :
      ((a : R) → rel a a)
      → (d : Dict Text R) (id : Text) (new : R) → ((old : R) → lookup id d ≡ some old → rel old new)
      → Later rel d (insert id new d)
  Later-insert r d id new h key row e = elim (Text-cases key id) [
    | inl same ↦ (new, rw same (lookup-insert_self id new d), h row (rw same at e))
    | inr other ↦ (row, lookup-insert_ne key id new d other ∙ e, r row)
  ]

pub Forward-preorder : IsPreorder Forward
Forward-preorder = record {
  rfl = λ s. record {
    groups = Later-refl LaterGroup (λ a. record { time = le_refl _ }) s.groups;
    posts = Later-refl LaterPost (λ a. record { time = le_refl _; group_id = refl }) s.posts;
    comments =
        Later-refl LaterComment (λ a. record { time = le_refl _; post_id = refl; group_id = refl })
          s.comments;
    counters = ([], sym (append-nil s.counters));
  };
  trans = λ s t u f g. record {
    groups =
        Later-trans LaterGroup (λ a b c m n. record { time = le_trans m.time n.time }) s.groups
          t.groups u.groups f.groups g.groups;
    posts =
        Later-trans LaterPost
          (λ a b c m n. record {
            time = le_trans m.time n.time;
            group_id = n.group_id ∙ m.group_id;
          })
          s.posts t.posts u.posts f.posts g.posts;
    comments =
        Later-trans LaterComment
          (λ a b c m n. record {
            time = le_trans m.time n.time;
            post_id = n.post_id ∙ m.post_id;
            group_id = n.group_id ∙ m.group_id;
          })
          s.comments t.comments u.comments f.comments g.comments;
    counters = (
      f.counters.0 ++ g.counters.0,
      g.counters.1
          ∙ ap (λ l. l ++ g.counters.0) f.counters.1
          ∙ append_assoc s.counters f.counters.0 g.counters.0,
    );
  };
}

Appends-Forward : (s t : Database) → Appends s t → Forward s t
Appends-Forward s t a = subst (Forward s) (sym a.rest) (record {
  groups = (Forward-preorder.rfl s).groups;
  posts = (Forward-preorder.rfl s).posts;
  comments = (Forward-preorder.rfl s).comments;
  counters = (a.added, a.counters);
})

save_counters-Forward : (rows : List CounterRow) → Steps Forward (save_counters rows)
save_counters-Forward rows = record {
  at = λ s. Appends-Forward s _ ((save_counters-Appends rows).at s);
}

module _ (json : RecordJson) where
  put_group_written :
      (r : GroupRecord) (db : Database)
      → (put_group json r db).0 ≡ ok tt
      → Forward db (record db { groups = insert r.group_id (group_row json r) db.groups })
  put_group_written r db h = record {
    groups =
        Later-insert LaterGroup (λ a. record { time = le_refl _ }) db.groups r.group_id
          (group_row json r) (λ old e. put_group_after json r db old h e);
    posts = (Forward-preorder.rfl db).posts;
    comments = (Forward-preorder.rfl db).comments;
    counters = (Forward-preorder.rfl db).counters;
  }

  put_group-Forward : (r : GroupRecord) → Steps Forward (put_group json r)
  put_group-Forward r = record {
    at = λ db. elim (Result-cases (put_group json r db).0) [
      | inl (_, h) ↦ subst (Forward db) (sym (put_group_ok json r db h)) (put_group_written r db h)
      | inr (_, h) ↦ subst (Forward db) (sym (put_group_err json r db h)) (Forward-preorder.rfl db)
    ];
  }

  -- Saving a Group record, whether it returns or raises, moves the store forward: every group, post
  -- and comment that was stored is still stored, observed no earlier and with the same parents,
  -- and the history of the counters has only grown.
  pub save_group-Forward : (r : GroupRecord) → Steps Forward (save_group json r)
  unfolding save_group
  save_group-Forward r =
      Steps-transaction Forward-preorder _
        (Steps-bind Forward-preorder _ _ (put_group-Forward r) λ _. save_counters-Forward _)

  put_post_written :
      (r : PostRecord) (db : Database)
      → (put_post json r db).0 ≡ ok tt
      → Forward db (record db { posts = insert r.post_id (post_row json r) db.posts })
  put_post_written r db h = record {
    groups = (Forward-preorder.rfl db).groups;
    posts =
        Later-insert LaterPost (λ a. record { time = le_refl _; group_id = refl }) db.posts
          r.post_id (post_row json r) (λ old e. put_post_after json r db old h e);
    comments = (Forward-preorder.rfl db).comments;
    counters = (Forward-preorder.rfl db).counters;
  }

  put_post-Forward : (r : PostRecord) → Steps Forward (put_post json r)
  put_post-Forward r = record {
    at = λ db. elim (Result-cases (put_post json r db).0) [
      | inl (_, h) ↦ subst (Forward db) (sym (put_post_ok json r db h)) (put_post_written r db h)
      | inr (_, h) ↦ subst (Forward db) (sym (put_post_err json r db h)) (Forward-preorder.rfl db)
    ];
  }

  -- Saving a Post record, whether it returns or raises, moves the store forward: every group, post
  -- and comment that was stored is still stored, observed no earlier and with the same parents,
  -- and the history of the counters has only grown.
  pub save_post-Forward : (r : PostRecord) → Steps Forward (save_post json r)
  unfolding save_post
  save_post-Forward r =
      Steps-transaction Forward-preorder _
        (Steps-bind Forward-preorder _ _ (put_post-Forward r) λ _. save_counters-Forward _)

  put_comment_written :
      (r : CommentRecord) (db : Database)
      → (put_comment json r db).0 ≡ ok tt
      → Forward db (record db { comments = insert r.comment_id (comment_row json r) db.comments })
  put_comment_written r db h = record {
    groups = (Forward-preorder.rfl db).groups;
    posts = (Forward-preorder.rfl db).posts;
    comments =
        Later-insert LaterComment
          (λ a. record { time = le_refl _; post_id = refl; group_id = refl }) db.comments
          r.comment_id (comment_row json r) (λ old e. put_comment_after json r db old h e);
    counters = (Forward-preorder.rfl db).counters;
  }

  put_comment-Forward : (r : CommentRecord) → Steps Forward (put_comment json r)
  put_comment-Forward r = record {
    at = λ db. elim (Result-cases (put_comment json r db).0) [
      | inl (_, h) ↦
          subst (Forward db) (sym (put_comment_ok json r db h)) (put_comment_written r db h)
      | inr (_, h) ↦
          subst (Forward db) (sym (put_comment_err json r db h)) (Forward-preorder.rfl db)
    ];
  }

  -- Saving a Comment record, whether it returns or raises, moves the store forward: every group, post
  -- and comment that was stored is still stored, observed no earlier and with the same parents,
  -- and the history of the counters has only grown.
  pub save_comment-Forward : (r : CommentRecord) → Steps Forward (save_comment json r)
  unfolding save_comment
  save_comment-Forward r =
      Steps-transaction Forward-preorder _
        (Steps-bind Forward-preorder _ _ (put_comment-Forward r) λ _. save_counters-Forward _)
