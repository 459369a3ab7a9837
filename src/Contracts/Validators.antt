-- ===== src/Contracts/Validators.antt =====
-- The validators of contracts/models.py on the fields of a record: null reasons, provenance, times
-- with a zone, reactions and the level of a comment. What pydantic checks by itself, the lengths and
-- the types of the fields, is not here.
use fb_scraper.Prelude.{
  ℕ, ◌≡◌, ◌↔◌, refl, arith, Bool, true, false, not, ◌&&◌, List, [], ◌∷◌, ℤ, is_negative, Text, text,
  text_eq, ◌==◌, any, contains, strip, if◌then◌else◌, Text-cases, Bool-cases, inl, inr, subst, sym,
}
use fb_scraper.Prelude.Dict.{Dict}
use fb_scraper.Errors.{Error, Result, ok, err, value_error}
use fb_scraper.Storage.Tables.{DateTime, aware, naive}

-- `NullReason`
pub data NullReason : Type 0 where
  not_observed not_present unsupported redacted invalid not_applicable : NullReason

-- What the validators read of a record: the class's `nullable_fields` and `model_fields`, whether a
-- field is None, the reasons, and the names of the fields with a provenance
pub record Fields : Type 0 where
  pub nullable_fields : List Text
  pub model_fields : List Text
  pub is_null : Text → Bool
  pub null_reasons : Dict Text NullReason
  pub field_provenance : List Text

-- `nullable_fields` of the three records
abbrev pub group_nullable_fields : List Text
group_nullable_fields = text "description" ∷ text "member_count" ∷ []

abbrev pub post_nullable_fields : List Text
post_nullable_fields =
    text "author_id" ∷ text "author_name" ∷ text "published_at" ∷ text "text" ∷ []

abbrev pub keys : Dict Text NullReason → List Text
keys [] = []
keys ((k, r) ∷ d) = k ∷ keys d

-- The four tests of `require_null_reasons`
abbrev pub has_unknown : Fields → Bool
has_unknown f = any (λ k. not (contains f.nullable_fields k)) (keys f.null_reasons)

abbrev pub has_missing : Fields → Bool
has_missing f = any (λ n. f.is_null n && not (contains (keys f.null_reasons) n)) f.nullable_fields

abbrev pub has_stale : Fields → Bool
has_stale f = any (λ k. not (f.is_null k)) (keys f.null_reasons)

abbrev pub has_unknown_provenance : Fields → Bool
has_unknown_provenance f = any (λ n. not (contains f.model_fields n)) f.field_provenance

-- `CanonicalRecord.require_null_reasons`
unfoldable pub require_null_reasons : Fields → Result Fields
require_null_reasons f =
    if has_unknown f
    then err value_error
    else if has_missing f
    then err value_error
    else if has_stale f
    then err value_error
    else if has_unknown_provenance f
    then err value_error
    else ok f

-- `_require_aware`: the instant, in UTC
abbrev pub require_aware : DateTime → Result ℕ
require_aware (aware n) = ok n
require_aware (naive n) = err value_error

-- `_validate_reactions`
unfoldable pub validate_reactions : Dict Text ℤ → Result (Dict Text ℤ)
validate_reactions value =
    if any (λ (name, count). strip name == []) value
    then err value_error
    else if any (λ (name, count). is_negative count) value
    then err value_error
    else ok value

-- `enforce_top_level_only`, on whether the parent is given
abbrev pub enforce_top_level_only : Bool → Result (Unit {0})
enforce_top_level_only has_parent = if has_parent then err value_error else ok tt

-- A field may be absent exactly when a reason is given, and nothing else has a reason.
pub record IsReasoned (f : Fields) : Type 0 where
  pub supported :
      (n : Text) → contains (keys f.null_reasons) n ≡ true → contains f.nullable_fields n ≡ true
  pub exact :
      (n : Text)
      → contains f.nullable_fields n ≡ true
      → f.is_null n ≡ contains (keys f.null_reasons) n
  pub provenance :
      (n : Text) → contains f.field_provenance n ≡ true → contains f.model_fields n ≡ true

-- `any` finds nothing exactly when no member is found.
any_member :
    (p : Text → Bool) (ns : List Text)
    → any p ns ≡ false
    → (n : Text) → contains ns n ≡ true
    → p n ≡ false
any_member p [] h n k = absurd cc
any_member p (m ∷ ns) h n k = elim (Text-cases n m) [
  | inl e ↦ subst (λ u. p u ≡ false) (sym e) (ground (arith, h))
  | inr ne ↦ any_member p ns (ground (arith, h)) n (ground (arith, k, ne))
]

member_any :
    (p : Text → Bool) (ns : List Text)
    → ((n : Text) → contains ns n ≡ true → p n ≡ false)
    → any p ns ≡ false
member_any p [] h = ground arith
member_any p (m ∷ ns) h =
    ground (arith, h m (ground arith), member_any p ns (λ n k. h n (ground (arith, k))))

module _ (f : Fields) where
  refused : (e : Error) → require_null_reasons f ≡ err e → require_null_reasons f ≡ ok f → ⊥
  refused e p q = cc

  found_none :
      require_null_reasons f ≡ ok f
      → (has_unknown f ≡ false)
        × (has_missing f ≡ false)
        × (has_stale f ≡ false)
        × (has_unknown_provenance f ≡ false)
  unfolding require_null_reasons
  found_none h = elim (Bool-cases (has_unknown f)) [
    | inl p ↦ absurd (refused value_error (rw p refl) h)
    | inr p ↦ elim (Bool-cases (has_missing f)) [
      | inl q ↦ absurd (refused value_error (rw (p, q) refl) h)
      | inr q ↦ elim (Bool-cases (has_stale f)) [
        | inl r ↦ absurd (refused value_error (rw (p, q, r) refl) h)
        | inr r ↦ elim (Bool-cases (has_unknown_provenance f)) [
          | inl t ↦ absurd (refused value_error (rw (p, q, r, t) refl) h)
          | inr t ↦ (p, q, r, t)
        ]
      ]
    ]
  ]

  ok-IsReasoned : require_null_reasons f ≡ ok f → IsReasoned f
  ok-IsReasoned h =
      let (unknown, missing, stale, provenance) = found_none h in
      record {
        supported = λ n k. ground (arith, any_member _ (keys f.null_reasons) unknown n k);
        exact = λ n k. elim (Bool-cases (contains (keys f.null_reasons) n)) [
          | inl c ↦ ground (arith, c, any_member _ (keys f.null_reasons) stale n c)
          | inr c ↦ ground (arith, c, any_member _ f.nullable_fields missing n k)
        ];
        provenance = λ n k. ground (arith, any_member _ f.field_provenance provenance n k);
      }

  IsReasoned-ok : IsReasoned f → require_null_reasons f ≡ ok f
  unfolding require_null_reasons
  IsReasoned-ok r =
      let unknown =
        member_any (λ k. not (contains f.nullable_fields k)) (keys f.null_reasons)
          (λ n k. ground (arith, r.supported n k)) in
      let missing =
        member_any (λ n. f.is_null n && not (contains (keys f.null_reasons) n)) f.nullable_fields
          (λ n k. ground (arith, r.exact n k)) in
      let stale =
        member_any (λ k. not (f.is_null k)) (keys f.null_reasons)
          (λ n k. ground (arith, k, r.exact n (r.supported n k))) in
      let provenance =
        member_any (λ n. not (contains f.model_fields n)) f.field_provenance
          (λ n k. ground (arith, r.provenance n k)) in
      rw (unknown, missing, stale, provenance) refl

  -- A record is accepted as it is exactly when only nullable fields have a reason, each nullable
  -- field is None if and only if it has one, and only fields of the record have a provenance.
  pub require_null_reasons-IsReasoned : require_null_reasons f ≡ ok f ↔ IsReasoned f
  require_null_reasons-IsReasoned = (ok-IsReasoned, IsReasoned-ok)
