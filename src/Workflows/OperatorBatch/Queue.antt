-- ===== src/Workflows/OperatorBatch/Queue.antt =====
-- The queue of an operator batch, and the hashes of its receipts.
use fb_scraper.Prelude.{
  ◌≡◌, ◌≢◌, ◌≤◌, ◌∙◌, inl, inr, refl, sym, subst, arith, true, false, List, map, Text, text_eq,
  text_leb, contains, all, length, leb→le, Bool-cases, Text-cases,
}
use fb_scraper.Prelude.Sort.{sorted}
use fb_scraper.Prelude.Sort.Order.{
  is_sorted, is_sorted-sorted, length-sorted, all-sorted, contains-map-sorted,
}
use fb_scraper.Prelude.Sets.{has_duplicates}
use fb_scraper.Prelude.Sets.Canonical.{
  text_leb_total, text_leb_trans, text_leb_antisym, duplicates-map-sorted, sorted_set_canonical,
}
use fb_scraper.Errors.{ok}
use fb_scraper.Exec.Inversion.{ok_injective}
use fb_scraper.Workflows.OperatorBatch.{
  Target, Hashing, target_key, set_hash, is_target, is_batch, by_target, ordered_targets,
}

-- Lists of identifiers with the same members, in any order and as often as may be, have the same
-- hash.
pub members_hash :
    (hashing : Hashing) (xs ys : List Text)
    → ((a : Text) → contains xs a ≡ contains ys a)
    → set_hash hashing xs ≡ set_hash hashing ys
unfolding set_hash
members_hash hashing xs ys h = rw (sorted_set_canonical xs ys h) refl

by_target_total : (a b : Target) → by_target a b ≡ false → by_target b a ≡ true
by_target_total a b h =
    ground
      (arith, text_leb_total a.group_id b.group_id, text_leb_total a.canonical_url b.canonical_url)

same_ids : (i j k : Text) → text_leb i j ≡ true → text_leb j k ≡ true → i ≡ k → i ≡ j
same_ids i j k h g p = text_leb_antisym i j h (subst (λ u. text_leb j u ≡ true) (sym p) g)

by_url :
    (a b : Target)
    → a.group_id ≡ b.group_id
    → by_target a b ≡ text_leb a.canonical_url b.canonical_url
by_url a b p = ground arith

by_id : (a b : Target) → a.group_id ≢ b.group_id → by_target a b ≡ text_leb a.group_id b.group_id
by_id a b n = ground arith

by_ids :
    (a b c : Target)
    → text_leb a.group_id b.group_id ≡ true
    → text_leb b.group_id c.group_id ≡ true
    → a.group_id ≢ b.group_id
    → by_target a c ≡ true
by_ids a b c x y n = elim (Text-cases a.group_id c.group_id) [
  | inl r ↦ absurd (n (same_ids a.group_id b.group_id c.group_id x y r))
  | inr o ↦ by_id a c o ∙ text_leb_trans a.group_id b.group_id c.group_id x y
]

by_target_trans :
    (a b c : Target) → by_target a b ≡ true → by_target b c ≡ true → by_target a c ≡ true
by_target_trans a b c h k = elim (Text-cases a.group_id b.group_id) [
  | inl p ↦ elim (Text-cases b.group_id c.group_id) [
    | inl q ↦
        by_url a c (p ∙ q)
        ∙ text_leb_trans a.canonical_url b.canonical_url c.canonical_url (sym (by_url a b p) ∙ h)
            (sym (by_url b c q) ∙ k)
    | inr m ↦
        by_id a c (λ r. m (sym p ∙ r))
        ∙ subst (λ i. text_leb i c.group_id ≡ true) (sym p) (sym (by_id b c m) ∙ k)
  ]
  | inr n ↦ elim (Text-cases b.group_id c.group_id) [
    | inl q ↦
        by_id a c (λ r. n (r ∙ sym q))
        ∙ subst (λ i. text_leb a.group_id i ≡ true) q (sym (by_id a b n) ∙ h)
    | inr m ↦ by_ids a b c (sym (by_id a b n) ∙ h) (sym (by_id b c m) ∙ k) n
  ]
]

-- What `run` relies on of its queue
pub record IsQueue (hashing : Hashing) (targets : List Target) : Type 0 where
  pub at_least : 1 ≤ length targets
  pub at_most : length targets ≤ 10
  pub in_order : is_sorted by_target targets ≡ true
  pub valid : all (is_target hashing) targets ≡ true
  pub keys : has_duplicates (map (target_key hashing) targets) ≡ false
  pub group_ids : has_duplicates (map (λ (t : Target). t.group_id) targets) ≡ false

-- When the targets are accepted, the queue has from one to ten of them, in the order of their
-- identifiers, each valid and with an HTTPS URL, and no two with one key or one identifier.
pub ordered_targets-IsQueue :
    (hashing : Hashing) (values targets : List Target)
    → ordered_targets hashing values ≡ ok targets
    → IsQueue hashing targets
unfolding ordered_targets is_batch
ordered_targets-IsQueue hashing values targets h = elim (Bool-cases (is_batch hashing values)) [
  | inl b ↦ subst (IsQueue hashing) (ok_injective (ground arith)) (record {
    at_least =
        leb→le 1 (length (sorted by_target values))
          (ground (arith, length-sorted by_target values));
    at_most =
        leb→le (length (sorted by_target values)) 10
          (ground (arith, length-sorted by_target values));
    in_order = is_sorted-sorted by_target by_target_total by_target_trans values;
    valid = all-sorted by_target (is_target hashing) values ∙ ground arith;
    keys = duplicates-map-sorted by_target (target_key hashing) values ∙ ground arith;
    group_ids = duplicates-map-sorted by_target (λ (t : Target). t.group_id) values ∙ ground arith;
  })
  | inr b ↦ absurd (ground arith)
]

-- The queue has the targets that were given, and no others.
pub ordered_targets-targets :
    (hashing : Hashing) (values targets : List Target) (key : Text)
    → ordered_targets hashing values ≡ ok targets
    → contains (map (target_key hashing) targets) key
      ≡ contains (map (target_key hashing) values) key
unfolding ordered_targets
ordered_targets-targets hashing values targets key h = elim (Bool-cases (is_batch hashing values)) [
  | inl b ↦
      subst
        (λ ts.
          contains (map (target_key hashing) ts) key
          ≡ contains (map (target_key hashing) values) key)
        (ok_injective (ground arith))
        (contains-map-sorted by_target (target_key hashing) key values)
  | inr b ↦ absurd (ground arith)
]
