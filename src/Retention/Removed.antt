-- ===== src/Retention/Removed.antt =====
-- The rows and the references that `_clean_normalized` of retention.py leaves.
use fb_scraper.Prelude.{
  ℕ, ◌+◌, ◌≡◌, refl, sym, subst, arith, Bool, true, false, ◌||◌, [], ◌∷◌, Text, text_eq, nat_eq,
  leb, any, filter, all, text, ◌⊎◌, length, Bool-cases, inl, inr,
}
use fb_scraper.Prelude.Dict.{Dict, lookup, has}
use fb_scraper.Errors.{Error, Result, ok, err, integrity_error}
use fb_scraper.Storage.Tables.{Database, entity_type_eq}
use fb_scraper.Retention.{
  CleanupReceipt, Store, is_old_key, old, kept, old_count, delete_counters, delete_normalized,
  clean_normalized, record_receipt, receipt,
}

module _ {V : Type 0} (observed_at : V → ℕ) (cutoff : ℕ) where
  -- The rows from the cutoff on
  abbrev pub since : Dict Text V → Dict Text V
  since = filter (λ (k, v). leb cutoff (observed_at v))

  since-kept : (d : Dict Text V) → kept observed_at cutoff d ≡ since d
  since-kept [] = refl
  since-kept ((k, v) ∷ d) = ground (arith, since-kept d)

  -- Every row is before the cutoff or is kept.
  length-since : (d : Dict Text V) → length (old observed_at cutoff d) + length (since d) ≡ length d
  length-since [] = refl
  length-since ((k, v) ∷ d) = ground (arith, length-since d)

  -- A key whose row is not before the cutoff is still there.
  has-since :
      (k : Text) (d : Dict Text V)
      → has k d ≡ true
      → is_old_key observed_at cutoff k d ≡ false
      → has k (since d) ≡ true
  unfolding has lookup is_old_key
  has-since k [] h n = ground arith
  has-since k ((j, v) ∷ d) h n = ground (arith, h, n, has-since k d)

abbrev pub row_count : Database → ℕ
row_count db = length db.comments + length db.posts + length db.groups

-- The parts of the tables that a deletion looks at
module _ (cutoff : ℕ) (db : Database) where
  abbrev pub held_posts : Bool
  held_posts =
      any (λ (k, c). is_old_key (λ p. p.observed_at) cutoff c.post_id db.posts)
        (kept (λ c. c.observed_at) cutoff db.comments)

  abbrev pub held_groups : Bool
  held_groups =
      any (λ (k, c). is_old_key (λ g. g.observed_at) cutoff c.group_id db.groups)
        (kept (λ c. c.observed_at) cutoff db.comments)
      || any (λ (k, p). is_old_key (λ g. g.observed_at) cutoff p.group_id db.groups)
          (kept (λ p. p.observed_at) cutoff db.posts)

  -- The rows that are left of the three tables
  pub record IsCleaned (after : Database) : Type 0 where
    pub comments : after.comments ≡ since (λ c. c.observed_at) cutoff db.comments
    pub posts : after.posts ≡ since (λ p. p.observed_at) cutoff db.posts
    pub groups : after.groups ≡ since (λ g. g.observed_at) cutoff db.groups
    pub no_post_held : held_posts ≡ false
    pub no_group_held : held_groups ≡ false

-- A run cannot both raise and return.
raised_not_ok : {A : Type 0} (r : Result A) (e : Error) (a : A) → r ≡ err e → r ≡ ok a → ⊥
raised_not_ok r e a p q = cc

delete_normalized-IsCleaned :
    (cutoff : ℕ) (s : Store) (u : Unit {0})
    → (delete_normalized cutoff s).0 ≡ ok u
    → IsCleaned cutoff s.database (delete_normalized cutoff s).1.database
unfolding delete_normalized delete_counters
delete_normalized-IsCleaned cutoff s u h = elim (Bool-cases (held_posts cutoff s.database)) [
  | inl p ↦ absurd (raised_not_ok _ integrity_error u (rw p refl) h)
  | inr p ↦ elim (Bool-cases (held_groups cutoff s.database)) [
    | inl q ↦ absurd (raised_not_ok _ integrity_error u (rw (p, q) refl) h)
    | inr q ↦
        rw (p, q)
          (record {
            comments = since-kept (λ c. c.observed_at) cutoff s.database.comments;
            posts = since-kept (λ p. p.observed_at) cutoff s.database.posts;
            groups = since-kept (λ g. g.observed_at) cutoff s.database.groups;
            no_post_held = p;
            no_group_held = q;
          })
  ]
]

-- When the rows before a cutoff are cleaned, the receipt counts the rows that are gone.
count_of_cleaned :
    (cutoff : ℕ) (db after : Database)
    → IsCleaned cutoff db after
    → old_count cutoff db + row_count after ≡ row_count db
count_of_cleaned cutoff db after c =
    rw (c.comments, c.posts, c.groups)
      (omega (
        arith,
        length-since (λ c. c.observed_at) cutoff db.comments,
        length-since (λ p. p.observed_at) cutoff db.posts,
        length-since (λ g. g.observed_at) cutoff db.groups,
      ))

-- The references of comments and posts have their rows.
pub record IsLinked (db : Database) : Type 0 where
  pub comment_posts : all (λ (k, c). has c.post_id db.posts) db.comments ≡ true
  pub comment_groups : all (λ (k, c). has c.group_id db.groups) db.comments ≡ true
  pub post_groups : all (λ (k, p). has p.group_id db.groups) db.posts ≡ true

-- Rows that are kept, and refer to no row that goes, refer to rows that are kept.
module _ {V W : Type 0} (reference : V → Text) (at_v : V → ℕ) (at_w : W → ℕ) (cutoff : ℕ)
    (target : Dict Text W) where
  kept_linked :
      (d : Dict Text V)
      → all (λ (k, v). has (reference v) target) d ≡ true
      → any (λ (k, v). is_old_key at_w cutoff (reference v) target) (kept at_v cutoff d) ≡ false
      → all (λ (k, v). has (reference v) (since at_w cutoff target)) (since at_v cutoff d) ≡ true
  kept_linked [] h n = refl
  kept_linked ((k, v) ∷ d) h n =
      ground (arith, h, n, kept_linked d, has-since at_w cutoff (reference v) target)

pub cleaned-IsLinked :
    (cutoff : ℕ) (db after : Database) → IsCleaned cutoff db after → IsLinked db → IsLinked after
cleaned-IsLinked cutoff db after c l = record {
  comment_posts =
      rw (c.comments, c.posts)
        (kept_linked (λ c. c.post_id) (λ c. c.observed_at) (λ p. p.observed_at) cutoff db.posts
          db.comments l.comment_posts c.no_post_held);
  comment_groups =
      rw (c.comments, c.groups)
        (kept_linked (λ c. c.group_id) (λ c. c.observed_at) (λ g. g.observed_at) cutoff db.groups
          db.comments l.comment_groups (ground (arith, c.no_group_held)));
  post_groups =
      rw (c.posts, c.groups)
        (kept_linked (λ p. p.group_id) (λ p. p.observed_at) (λ g. g.observed_at) cutoff db.groups
          db.posts l.post_groups (ground (arith, c.no_group_held)));
}

-- What a run returned, with the tables that it left
pub record IsRemoved (cutoff : ℕ) (db : Database) (r : CleanupReceipt) (after : Database)
    : Type 0 where
  pub cleaned : IsCleaned cutoff db after
  pub counted : r.deleted_count + row_count after ≡ row_count db
  pub linked : IsLinked db → IsLinked after

-- For every store and cutoff, a run of _clean_normalized that is not dry either returns, and then
-- the groups, posts and comments from the cutoff on are exactly those that are left, the count of
-- its receipt and the rows that are left add up to the rows before, and every reference has its
-- row if so it was before; or it raises IntegrityError and changes nothing, and then a comment or
-- a post that would be left refers to a row that would go.
pub clean_normalized-IsRemoved :
    (cutoff : ℕ) (s : Store)
    → ((r : CleanupReceipt) × ((clean_normalized cutoff false s).0 ≡ ok r)
        × IsRemoved cutoff s.database r (clean_normalized cutoff false s).1.database)
      ⊎ (((clean_normalized cutoff false s).0 ≡ err integrity_error)
          × ((clean_normalized cutoff false s).1 ≡ s)
          × ((held_posts cutoff s.database || held_groups cutoff s.database) ≡ true))
unfolding clean_normalized record_receipt delete_normalized delete_counters
clean_normalized-IsRemoved cutoff s =
    let db = s.database in
    elim (Bool-cases (held_posts cutoff db)) [
      | inl p ↦ inr (rw p refl, rw p refl, rw p refl)
      | inr p ↦ elim (Bool-cases (held_groups cutoff db)) [
        | inl q ↦ inr (rw (p, q) refl, rw (p, q) refl, rw (p, q) refl)
        | inr q ↦
            let after = (delete_normalized cutoff s).1.database in
            let c = delete_normalized-IsCleaned cutoff s tt (rw (p, q) refl) in
            let removed : IsRemoved cutoff db
                (receipt (text "normalized") cutoff false (old_count cutoff db)) after =
              record {
                cleaned = c;
                counted = count_of_cleaned cutoff db after c;
                linked = cleaned-IsLinked cutoff db after c;
              } in
            let same : (clean_normalized cutoff false s).1.database ≡ after = rw (p, q) refl in
            inl (
              receipt (text "normalized") cutoff false (old_count cutoff db),
              rw (p, q) refl,
              subst
                  (IsRemoved cutoff db
                    (receipt (text "normalized") cutoff false (old_count cutoff db)))
                  (sym same) removed,
            )
      ]
    ]
