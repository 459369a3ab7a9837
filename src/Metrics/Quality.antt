-- ===== src/Metrics/Quality.antt =====
-- When the gates of phase one of metrics.py pass.
use fb_scraper.Prelude.{
  ◌≡◌, ◌≢◌, ◌≤◌, ◌*◌, refl, sym, ap, ◌∙◌, subst, arith, Bool, true, false, List, [], ◌∷◌, Text,
  text_eq, nat_eq, ◌==◌, contains, filter, length, Text-cases, Bool-cases, ◌↔◌, ◌++◌, text, some,
  inl, inr,
}
use fb_scraper.Prelude.Sets.{distinct, sorted_set}
use fb_scraper.Prelude.Sets.Canonical.{sorted_set_canonical, contains-sorted_set, contains-distinct}
use fb_scraper.Errors.{ok}
use fb_scraper.Metrics.Receipts.{
  Quality, Evidence, count_of, precision, gates, is_refused, evidence, write_quality, over,
  identifier_hash,
}
use fb_scraper.Metrics.Rounding.{rounded, is_one, at_least, at_most}
use fb_scraper.Metrics.Rounding.Exact.{at_least_99, at_least_995, at_most_1, is_one_iff}
use fb_scraper.Prelude.Dict.{Dict, lookup, lookup-insert_self}

-- Two lists with the same members
abbrev pub SameMembers : List Text → List Text → Type 0
SameMembers xs ys = (a : Text) → contains xs a ≡ contains ys a

-- What the exit of phase one asks: something was found, all of it was expected, and every run, its
-- resumption and its replay found the same; the shares are in bounds.
pub record IsExit (q : Quality) : Type 0 where
  pub found : ◌≢◌ {A = List Text} q.run_identifiers []
  pub expected :
      (a : Text) → contains q.run_identifiers a ≡ true → contains q.expected_identifiers a ≡ true
  pub accurate :
      99 * count_of q.expected_required_fields ≤ 100 * count_of q.observed_required_fields
  pub complete : 995 * count_of q.expected_pages ≤ 1000 * count_of q.observed_pages
  pub unique : 1000 * count_of q.duplicate_count ≤ count_of q.canonical_record_count
  pub resumed : SameMembers q.run_identifiers q.resume_identifiers
  pub replayed : SameMembers q.run_identifiers q.replay_identifiers

-- Counts of at most a million million
pub record IsCountable (q : Quality) : Type 0 where
  pub run : length q.run_identifiers ≤ 1000000000000
  pub fields : count_of q.expected_required_fields ≤ 1000000000000
  pub pages : count_of q.expected_pages ≤ 1000000000000
  pub records : count_of q.canonical_record_count ≤ 1000000000000

-- The hash tells the identifiers of a run from those of its resumption and of its replay.
pub record IsTold (hash : List Text → Text) (q : Quality) : Type 0 where
  pub resumed :
      identifier_hash hash q.run_identifiers ≡ identifier_hash hash q.resume_identifiers
      → sorted_set q.run_identifiers ≡ sorted_set q.resume_identifiers
  pub replayed :
      identifier_hash hash q.run_identifiers ≡ identifier_hash hash q.replay_identifiers
      → sorted_set q.run_identifiers ≡ sorted_set q.replay_identifiers

length-filter : (p : Text → Bool) (xs : List Text) → length (filter p xs) ≤ length xs
length-filter p [] = omega arith
length-filter p (x ∷ xs) = ground (arith, length-filter p xs)

-- A filter that keeps the length keeps every member.
filter_all :
    (p : Text → Bool) (xs : List Text)
    → length (filter p xs) ≡ length xs
    → (a : Text) → contains xs a ≡ true
    → p a ≡ true
filter_all p [] h a k = absurd cc
filter_all p (x ∷ xs) h a k = elim (Bool-cases (p x)) [
  | inr n ↦ absurd (ground (arith, h, n, length-filter p xs))
  | inl y ↦ elim (Text-cases a x) [
    | inl e ↦ subst (λ b. p b ≡ true) (sym e) y
    | inr n ↦ filter_all p xs (ground (arith, h, y)) a (ground (arith, k, n))
  ]
]

all_filter :
    (p : Text → Bool) (xs : List Text)
    → ((a : Text) → contains xs a ≡ true → p a ≡ true)
    → length (filter p xs) ≡ length xs
all_filter p [] h = refl
all_filter p (x ∷ xs) h =
    let rest = all_filter p xs (λ a k. h a (ground (arith, k))) in
    ground (arith, rest, h x (ground arith))

distinct_nil : (xs : List Text) → xs ≡ [] → length (distinct xs) ≡ 0
distinct_nil xs e = subst (λ ys. length (distinct ys) ≡ 0) (sym e) refl

distinct_cons : (xs : List Text) → ◌≢◌ {A = List Text} xs [] → length (distinct xs) ≢ 0
distinct_cons [] h = absurd (h refl)
distinct_cons (x ∷ []) h = λ p. ground arith
distinct_cons (x ∷ y ∷ ys) h = ground (arith, distinct_cons (y ∷ ys) (λ e. absurd cc))

length-distinct : (xs : List Text) → length (distinct xs) ≤ length xs
length-distinct [] = omega arith
length-distinct (x ∷ xs) = ground (arith, length-distinct xs)

module _ (run expected : List Text) (bound : length run ≤ 1000000000000) where
  found_share :
      length (distinct run) ≢ 0
      → (is_one
            (rounded (length (filter (contains expected) (distinct run))) (length (distinct run)))
          ≡ true)
        ↔ (length (filter (contains expected) (distinct run)) ≡ length (distinct run))
  found_share n =
      is_one_iff (length (filter (contains expected) (distinct run))) (length (distinct run))
        (length-filter (contains expected) (distinct run)) (omega (arith, n))
        (omega (arith, length-distinct run, bound))

  precision_one :
      is_one (precision run expected) ≡ true
      → (◌≢◌ {A = List Text} run [])
        × ((a : Text) → contains run a ≡ true → contains expected a ≡ true)
  unfolding precision
  precision_one h = elim (Bool-cases (length (distinct run) == 0)) [
    | inl z ↦ absurd (ground (arith, h, z))
    | inr n ↦ (
      (λ e. absurd (ground (arith, n, distinct_nil run e))),
      λ a k.
          filter_all (contains expected) (distinct run)
            ((found_share (ground (arith, n))).0 (ground (arith, h, n))) a
            (contains-distinct run a ∙ k),
    )
  ]

  one_precision :
      ◌≢◌ {A = List Text} run []
      → ((a : Text) → contains run a ≡ true → contains expected a ≡ true)
      → is_one (precision run expected) ≡ true
  unfolding precision
  one_precision h k =
      let all_found =
        all_filter (contains expected) (distinct run)
          (λ a m. k a (sym (contains-distinct run a) ∙ m)) in
      let some_run = distinct_cons run h in
      ground (arith, some_run, (found_share some_run).1 all_found)

module _ (hash : List Text → Text) where
  -- The hashes of two lists that it tells apart agree when the lists have the same members.
  SameMembers-hash :
      (xs ys : List Text)
      → (identifier_hash hash xs ≡ identifier_hash hash ys → sorted_set xs ≡ sorted_set ys)
      → (identifier_hash hash xs == identifier_hash hash ys) ≡ true
      → SameMembers xs ys
  SameMembers-hash xs ys told h a =
      sym (contains-sorted_set xs a)
      ∙ ap (λ zs. contains zs a) (told (ground (arith, h)))
      ∙ contains-sorted_set ys a

  hash-SameMembers :
      (xs ys : List Text)
      → SameMembers xs ys
      → (identifier_hash hash xs == identifier_hash hash ys) ≡ true
  hash-SameMembers xs ys h = ground (arith, ap hash (sorted_set_canonical xs ys h))

-- What the guards leave
module _ (q : Quality) (h : is_refused q ≡ false) (c : IsCountable q) where
  accurate_iff :
      (at_least (rounded 99 100) (over q.observed_required_fields q.expected_required_fields)
        ≡ true)
      ↔ (99 * count_of q.expected_required_fields ≤ 100 * count_of q.observed_required_fields)
  unfolding is_refused
  accurate_iff = at_least_99 _ _ (ground (arith, h)) (ground (arith, h)) c.fields

  complete_iff :
      (at_least (rounded 995 1000) (over q.observed_pages q.expected_pages) ≡ true)
      ↔ (995 * count_of q.expected_pages ≤ 1000 * count_of q.observed_pages)
  unfolding is_refused
  complete_iff = at_least_995 _ _ (ground (arith, h)) (ground (arith, h)) c.pages

  unique_iff :
      (at_most (rounded 1 1000) (over q.duplicate_count q.canonical_record_count) ≡ true)
      ↔ (1000 * count_of q.duplicate_count ≤ count_of q.canonical_record_count)
  unfolding is_refused
  unique_iff = at_most_1 _ _ (ground (arith, h)) (ground (arith, h)) c.records

module _ (hash : List Text → Text) (q : Quality) (h : is_refused q ≡ false) (c : IsCountable q)
    (told : IsTold hash q) where
  gates-IsExit : gates hash q ≡ true → IsExit q
  unfolding gates
  gates-IsExit g =
      let one = precision_one q.run_identifiers q.expected_identifiers c.run (ground (arith, g)) in
      record {
        found = one.0;
        expected = one.1;
        accurate = (accurate_iff q h c).0 (ground (arith, g));
        complete = (complete_iff q h c).0 (ground (arith, g));
        unique = (unique_iff q h c).0 (ground (arith, g));
        resumed =
            SameMembers-hash hash q.run_identifiers q.resume_identifiers told.resumed
              (ground (arith, g));
        replayed =
            SameMembers-hash hash q.run_identifiers q.replay_identifiers told.replayed
              (ground (arith, g));
      }

  IsExit-gates : IsExit q → gates hash q ≡ true
  unfolding gates
  IsExit-gates x = ground (
    arith,
    one_precision q.run_identifiers q.expected_identifiers c.run x.found x.expected,
    (accurate_iff q h c).1 x.accurate,
    (complete_iff q h c).1 x.complete,
    (unique_iff q h c).1 x.unique,
    hash-SameMembers hash q.run_identifiers q.resume_identifiers x.resumed,
    hash-SameMembers hash q.run_identifiers q.replay_identifiers x.replayed,
  )

-- When the evidence is not refused, its counts are at most 10 ^ 12 each, and the hash gives the
-- identifiers of the run another value than those of its resumption or replay where these differ,
-- write returns the evidence and writes it under its name, and its gates, which compare rounded
-- quotients, pass exactly when some identifier was found, every found one was expected, the run, its
-- resumption and its replay found the same identifiers, at least 99 of 100 required fields and 995
-- of 1000 pages were observed, and at most one record in 1000 is a duplicate.
pub write_quality-IsExit :
    (hash : List Text → Text) (q : Quality) (files : Dict Text Evidence)
    → is_refused q ≡ false
    → IsCountable q
    → IsTold hash q
    → (e : Evidence) × ((write_quality hash q files).0 ≡ ok e)
      × (lookup (q.run_id ++ text ".phase1-quality.json") (write_quality hash q files).1 ≡ some e)
      × (e.phase_one_gates_pass ≡ true ↔ IsExit q)
unfolding write_quality
write_quality-IsExit hash q files h c told = (
  evidence hash q,
  rw h refl,
  rw h (lookup-insert_self _ (evidence hash q) files),
  (gates-IsExit hash q h c told, IsExit-gates hash q h c told),
)
