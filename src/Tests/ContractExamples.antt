-- ===== src/Tests/ContractExamples.antt =====
-- The validators at a group without a description.
use fb_scraper.Prelude.{◌≡◌, ◌↔◌, refl, false, [], ◌∷◌, text, text_eq, ◌==◌}
use fb_scraper.Errors.{ok, err, value_error}
use fb_scraper.Contracts.Validators.{
  Fields, IsReasoned, not_present, group_nullable_fields, require_null_reasons,
  require_null_reasons-IsReasoned,
}

abbrev described : Fields
described = record {
  nullable_fields = group_nullable_fields;
  model_fields = text "group_id" ∷ group_nullable_fields;
  is_null = λ n. n == text "description";
  null_reasons = (text "description", not_present) ∷ [];
  field_provenance = text "group_id" ∷ [];
}

require_null_reasons-IsReasoned_example :
    require_null_reasons described ≡ ok described ↔ IsReasoned described
require_null_reasons-IsReasoned_example = require_null_reasons-IsReasoned described

described-is_accepted : require_null_reasons described ≡ ok described
unfolding require_null_reasons text_eq
described-is_accepted = refl

-- A reason for a field that is there is refused.
stale_reason : require_null_reasons (record described { is_null = λ n. false }) ≡ err value_error
unfolding require_null_reasons text_eq
stale_reason = refl
