-- ===== src/Capture/Browser/Posts/Bounded.antt =====
-- How many Posts a snapshot of capture/playwright_adapter.py takes, and which.
use fb_scraper.Prelude.{
  ℕ, suc, ◌≡◌, ◌≢◌, ◌≤◌, ◌<◌, sym, subst, ◌∙◌, arith, true, false, ◌||◌, Option, none, some, List,
  [], ◌∷◌, ◌++◌, Text, text_eq, option_eq, nat_eq, Text-cases, ◌==◌, contains, length, leb,
  Bool-cases, inl, inr, All, length-append,
}
use fb_scraper.Capture.Browser.Posts.{
  Element, post_id_of, Snapshot, take_post, take_posts, bounded_html, permitted_from,
  permitted_post_ids, add_id,
}

other_post : (a b : Option Text) → a ≢ b → (a == b || false) ≡ false
other_post a b n = ground (arith, n)

-- What an appended Post adds to the members
kept_none :
    (ks : List (Option Text)) (i : Text)
    → contains (ks ++ none ∷ []) (some i) ≡ contains ks (some i)
kept_none [] i = other_post (some i) none (λ p. cc)
kept_none (k ∷ ks) i = ground (arith, kept_none ks i)

kept_other :
    (ks : List (Option Text)) (i j : Text)
    → i ≢ j
    → contains (ks ++ some j ∷ []) (some i) ≡ contains ks (some i)
kept_other [] i j n = other_post (some i) (some j) (λ p. n (ground arith))
kept_other (k ∷ ks) i j n = ground (arith, kept_other ks i j n)

module _ (known : List Text) (limit : ℕ) where
  -- At most the limit is captured, no known Post is, and each Post that stays was captured or has
  -- no identifier.
  pub record IsBounded (s : Snapshot) : Type 0 where
    pub bound : length s.captured ≤ limit
    pub fresh : All (λ i. contains known i ≡ false) s.captured
    pub accounted : (i : Text) → contains s.kept (some i) ≡ true → contains s.captured i ≡ true

  take_post-IsBounded :
      (i : Option Text) (s : Snapshot) → IsBounded s → IsBounded (take_post known limit i s)
  take_post-IsBounded none s h = record {
    bound = h.bound;
    fresh = h.fresh;
    accounted = λ i k. h.accounted i (sym (kept_none s.kept i) ∙ k);
  }
  take_post-IsBounded (some i) s h = elim (Bool-cases (contains known i)) [
    | inl p ↦ rw p (record { bound = h.bound; fresh = h.fresh; accounted = h.accounted })
    | inr p ↦ elim (Bool-cases (contains s.captured i)) [
      | inl q ↦
          rw (p, q)
            (record {
              bound = h.bound;
              fresh = h.fresh;
              accounted = λ j k. elim (Text-cases j i) [
                | inl e ↦ subst (λ t. contains s.captured t ≡ true) (sym e) q
                | inr n ↦ h.accounted j (sym (kept_other s.kept j i n) ∙ k)
              ];
            })
      | inr q ↦ elim (Bool-cases (leb limit (length s.captured))) [
        | inl r ↦ rw (p, q, r) h
        | inr r ↦
            rw (p, q, r)
              (record {
                bound = ground (arith, r);
                fresh = (p, h.fresh);
                accounted = λ j k. elim (Text-cases j i) [
                  | inl e ↦ ground (arith, e)
                  | inr n ↦ ground (arith, n, h.accounted j (sym (kept_other s.kept j i n) ∙ k))
                ];
              })
      ]
    ]
  ]

  take_posts-IsBounded :
      (es : List Element) (s : Snapshot) → IsBounded s → IsBounded (take_posts known limit es s)
  unfolding take_posts
  take_posts-IsBounded [] s h = h
  take_posts-IsBounded (e ∷ es) s h =
      take_posts-IsBounded es (take_post known limit (post_id_of e) s)
        (take_post-IsBounded (post_id_of e) s h)

  -- When at most the limit of Posts is captured and none of them is known, then so it is after a
  -- snapshot, and each Post with an identifier that stays in the snapshot is captured.
  pub bounded_html-IsBounded :
      (elements : List Element) (captured skipped : List Text)
      → length captured ≤ limit
      → All (λ i. contains known i ≡ false) captured
      → IsBounded (bounded_html known limit elements captured skipped)
  unfolding bounded_html
  bounded_html-IsBounded elements captured skipped b f =
      take_posts-IsBounded elements _
        (record { bound = b; fresh = f; accounted = λ i k. absurd cc })

add_id-most : (i : Option Text) (ids : List Text) → length (add_id i ids) ≤ suc (length ids)
add_id-most none ids = omega arith
add_id-most (some i) ids = ground (arith, length-append ids (i ∷ []))

permitted_from-most :
    (limit : ℕ) (ids : List Text) (es : List Element)
    → length ids < limit
    → length (permitted_from limit ids es) ≤ limit
unfolding permitted_from
permitted_from-most limit ids [] h = omega (arith, h)
permitted_from-most limit ids (e ∷ es) h =
    let next = add_id (post_id_of e) ids in
    elim (Bool-cases (leb limit (length next))) [
      | inl p ↦ rw p (omega (arith, h, add_id-most (post_id_of e) ids))
      | inr p ↦ rw p (permitted_from-most limit next es (ground (arith, p)))
    ]

-- No more Posts than the limit may be expanded.
pub length-permitted_post_ids :
    (limit : ℕ) (es : List Element) → 0 < limit → length (permitted_post_ids limit es) ≤ limit
unfolding permitted_post_ids
length-permitted_post_ids limit es h = permitted_from-most limit [] es h
