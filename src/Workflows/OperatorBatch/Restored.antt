-- ===== src/Workflows/OperatorBatch/Restored.antt =====
-- What `_previous` gives for the files that the batch has written.
use fb_scraper.Prelude.{
  ◌≡◌, ◌≢◌, ◌∙◌, ◌⊎◌, inl, inr, refl, sym, subst, arith, Bool, true, false, Option, none, some,
  List, [], ◌∷◌, Text, text_eq, contains, all, Text-cases, Option-cases,
}
use fb_scraper.Prelude.Dict.{Dict, lookup, insert, lookup-insert, lookup-insert_ne}
use fb_scraper.Prelude.Sets.{has_duplicates}
use fb_scraper.Json.{as_text_list-text_list}
use fb_scraper.Workflows.OperatorBatch.{GroupResult}
use fb_scraper.Workflows.OperatorBatch.Resume.{known_identifiers, load_identifiers}

-- The dict that `_load_identifier_state` makes of the written identifiers
pub restored : List Text → Dict Text (List Text) → Dict Text (List Text) → Dict Text (List Text)
restored [] values state = state
restored (key ∷ keys) values state = elim (lookup key values) [
  | none ↦ restored keys values state
  | some ids ↦ restored keys values (insert key ids state)
]

-- The dict that `_previous` makes of the written groups
unfoldable pub by_key : List GroupResult → Dict Text GroupResult → Dict Text GroupResult
by_key [] results = results
by_key (g ∷ gs) results = by_key gs (insert g.target_key g results)

-- Identifiers without duplicates
pub record IsClean (values : Dict Text (List Text)) : Type 0 where
  pub clean :
      (key : Text) (ids : List Text) → lookup key values ≡ some ids → has_duplicates ids ≡ false

-- Every key of `keys` is expected.
abbrev pub are_known : List Text → List Text → Bool
are_known expected keys = all (contains expected) keys

pub load_known :
    (expected keys : List Text) (values state : Dict Text (List Text))
    → are_known expected keys ≡ true
    → IsClean values
    → load_identifiers expected (known_identifiers keys values) state
      ≡ some (restored keys values state)
unfolding load_identifiers restored
load_known expected [] values state h c = refl
load_known expected (key ∷ keys) values state h c = elim (Option-cases (lookup key values)) [
  | inl e ↦ ground (arith, e, load_known expected keys values state)
  | inr (ids, e) ↦ ground (
    arith,
    e,
    load_known expected keys values (insert key ids state),
    c.clean key ids e,
    as_text_list-text_list ids,
  )
]

read-insert :
    (values state : Dict Text (List Text)) (key k : Text) (ids : List Text)
    → lookup k values ≡ some ids
    → (key ≢ k → lookup key state ≡ lookup key values)
    → (key ≡ k) ⊎ (key ≢ k)
    → lookup key (insert k ids state) ≡ lookup key values
read-insert values state key k ids e h (inl p) =
    ground (arith, lookup-insert key k ids state, subst (λ j. lookup j values ≡ some ids) (sym p) e)
read-insert values state key k ids e h (inr n) = lookup-insert_ne key k ids state n ∙ h n

-- A key that reads as in the dict keeps doing so.
keep-restored :
    (keys : List Text) (values state : Dict Text (List Text)) (key : Text)
    → lookup key state ≡ lookup key values
    → lookup key (restored keys values state) ≡ lookup key values
unfolding restored
keep-restored [] values state key h = h
keep-restored (k ∷ keys) values state key h = elim (Option-cases (lookup k values)) [
  | inl e ↦ ground (arith, e, keep-restored keys values state key h)
  | inr (ids, e) ↦ ground (
    arith,
    e,
    keep-restored keys values (insert k ids state) key
        (read-insert values state key k ids e (λ m. h) (Text-cases key k)),
  )
]

pub lookup-restored :
    (keys : List Text) (values state : Dict Text (List Text)) (key : Text)
    → contains keys key ≡ true
    → (lookup key values ≡ none → lookup key state ≡ none)
    → lookup key (restored keys values state) ≡ lookup key values
unfolding restored
lookup-restored [] values state key h n = absurd (ground arith)
lookup-restored (k ∷ keys) values state key h n = elim (Option-cases (lookup k values)) [
  | inl e ↦ elim (Text-cases key k) [
    | inl p ↦ ground (
      arith,
      e,
      keep-restored keys values state key (absent (subst (λ j. lookup j values ≡ none) (sym p) e)),
    )
    | inr m ↦ ground (arith, e, lookup-restored keys values state key (ground arith) n)
  ]
  | inr (ids, e) ↦ elim (Text-cases key k) [
    | inl p ↦ ground (
      arith,
      e,
      keep-restored keys values (insert k ids state) key
          (read-insert values state key k ids e (λ m. absurd (m p)) (inl p)),
    )
    | inr m ↦ ground (
      arith,
      e,
      lookup-restored keys values (insert k ids state) key (ground arith)
          (λ g. lookup-insert_ne key k ids state m ∙ n g),
    )
  ]
]
  where
    absent : lookup key values ≡ none → lookup key state ≡ lookup key values
    absent g = n g ∙ sym g

pub IsClean-insert :
    (values : Dict Text (List Text)) (key : Text) (ids : List Text)
    → has_duplicates ids ≡ false
    → IsClean values
    → IsClean (insert key ids values)
IsClean-insert values key ids n c = record {
  clean = λ k js h. ground (arith, lookup-insert k key ids values, h, c.clean k js, n);
}

pub IsClean-restored :
    (keys : List Text) (values state : Dict Text (List Text))
    → IsClean values
    → IsClean state
    → IsClean (restored keys values state)
unfolding restored
IsClean-restored [] values state c d = d
IsClean-restored (k ∷ keys) values state c d =
    found (lookup k values) refl (IsClean-restored keys values)
  where
    found :
        (o : Option (List Text))
        → lookup k values ≡ o
        → ((st : Dict Text (List Text))
            → IsClean values
            → IsClean st
            → IsClean (restored keys values st))
        → IsClean (restored (k ∷ keys) values state)
    found none e h = subst IsClean (sym (ground (arith, e))) (h state c d)
    found (some ids) e h =
        subst IsClean (sym (ground (arith, e)))
          (h (insert k ids state) c (IsClean-insert state k ids (c.clean k ids e) d))
