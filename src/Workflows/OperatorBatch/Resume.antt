-- ===== src/Workflows/OperatorBatch/Resume.antt =====
-- The two files of an operator batch, the receipt and the identifiers of the captured groups:
-- `_write_progress`, `_write_identifier_state`, `_load_identifier_state` and `_previous` of
-- workflows/operator_batch.py. `_atomic_write` renames a temporary file: one update here.
use fb_scraper.Prelude.{
  Bool, true, false, not, ◌&&◌, Option, none, some, List, [], ◌∷◌, Text, text, text_eq, option_eq,
  nat_eq, ◌==◌, contains, length, map, if◌then◌else◌,
}
use fb_scraper.Prelude.Dict.{Dict, lookup, insert, has}
use fb_scraper.Prelude.Sets.{has_duplicates}
use fb_scraper.Errors.{value_error}
use fb_scraper.Exec.{Exec, gets, or_raise, modify, raise_if, ◌>>=◌, ◌>>◌}
use fb_scraper.Json.{
  Json, number, string, object, array, File, missing, unreadable, document, from_list, from_dict,
  as_dict, as_list, as_text_list, text_list, is_text, Builtins,
}
use fb_scraper.Workflows.OperatorBatch.{GroupResult, is_succeeded, Hashing, set_hash}
use fb_scraper.Workflows.OperatorBatch.Receipts.{group_result}
use fb_scraper.Workflows.OperatorBatch.Receipts

-- The files of a batch and its object; `W` is what the callback and the clocks act on and read
pub record Batch (W : Type 0) : Type 0 where
  pub receipt : File
  pub identifier_state : File
  pub report : Option Text
  pub identifier_values : Dict Text (List Text)
  pub world : W

-- `values == other` of two tuples of texts
abbrev pub same_texts : List Text → List Text → Bool
same_texts [] [] = true
same_texts (x ∷ xs) (y ∷ ys) = (x == y) && same_texts xs ys
same_texts _ _ = false

abbrev pub document_of : File → Option (Dict Text Json)
document_of missing = none
document_of unreadable = none
document_of (document v) = as_dict v

abbrev pub list_at : Text → Dict Text Json → Option (List Text)
list_at k d = elim (lookup k d) [ none ↦ none | some v ↦ as_text_list v ]

-- `payload[k] != expected`, where a missing key raises
abbrev pub holds_text : Text → Text → Dict Text Json → Bool
holds_text k expected d = elim (lookup k d) [ none ↦ false | some v ↦ is_text v expected ]

abbrev pub group_json : GroupResult → Json
group_json g = object (from_dict (Receipts.as_dict g))

-- The dict of `_write_identifier_state`: the targets that have identifiers
abbrev pub known_identifiers : List Text → Dict Text (List Text) → Dict Text Json
known_identifiers [] values = []
known_identifiers (key ∷ keys) values =
    let rest = known_identifiers keys values in
    elim (lookup key values) [ none ↦ rest | some ids ↦ (key, text_list ids) ∷ rest ]

-- The loop of `_load_identifier_state`; `none` is a ValueError or a TypeError
unfoldable pub load_identifiers :
    List Text → Dict Text Json → Dict Text (List Text) → Option (Dict Text (List Text))
load_identifiers expected [] state = some state
load_identifiers expected ((key, value) ∷ values) state =
    if not (contains expected key) then none else elim (as_text_list value) [
      | none ↦ none
      | some ids ↦
          if has_duplicates ids
          then none
          else load_identifiers expected values (insert key ids state)
    ]

-- `payload["identifiers"]`, a dict
abbrev pub identifiers_in : List Text → Dict Text Json → Option (Dict Text (List Text))
identifiers_in expected payload = elim (lookup (text "identifiers") payload) [
  | none ↦ none
  | some v ↦ elim (as_dict v) [ none ↦ none | some values ↦ load_identifiers expected values [] ]
]

abbrev pub groups_in : Dict Text Json → Option (List Json)
groups_in payload = elim (lookup (text "groups") payload) [ none ↦ none | some v ↦ as_list v ]

module _ (hashing : Hashing) where
  -- The payload of `_write_progress`
  abbrev pub receipt_payload : List GroupResult → List Text → Dict Text Json
  receipt_payload groups target_keys =
      (text "groups", array (from_list (map group_json groups)))
      ∷ (text "schema_version", string (text "1.0"))
      ∷ (text "state", string (text "running"))
      ∷ (text "target_keys", text_list target_keys)
      ∷ (text "target_set_sha256", string (set_hash hashing target_keys))
      ∷ (text "worker_limit", number 1)
      ∷ []

  abbrev pub identifier_payload : List Text → Dict Text (List Text) → Dict Text Json
  identifier_payload target_keys values =
      (text "identifiers", object (from_dict (known_identifiers target_keys values)))
      ∷ (text "schema_version", string (text "1.0"))
      ∷ (text "target_keys", text_list target_keys)
      ∷ (text "target_set_sha256", string (set_hash hashing target_keys))
      ∷ []

  -- `target_keys != expected_target_keys`, and the hash of the keys
  abbrev pub is_for : List Text → List Text → Dict Text Json → Bool
  is_for expected target_keys payload =
      same_texts target_keys expected
      && holds_text (text "target_set_sha256") (set_hash hashing target_keys) payload

  -- The identifiers of a group that succeeded: there, as many and with the hash of the receipt
  abbrev pub is_evidenced : Dict Text (List Text) → GroupResult → Bool
  is_evidenced values g =
      if is_succeeded g.state
      then elim (lookup g.target_key values) [
        | none ↦ false
        | some ids ↦
            (g.identifier_count == length ids)
            && (g.identifier_set_sha256 == some (set_hash hashing ids))
      ]
      else true

module _ (hashing : Hashing) (builtins : Builtins) where
  -- The body of the loop of `_previous`
  abbrev pub checked_group :
      List Text → Dict Text (List Text) → Dict Text GroupResult → Json → Option GroupResult
  checked_group expected values results v = elim (as_dict v) [
    | none ↦ none
    | some d ↦ elim (group_result builtins d) [
      | none ↦ none
      | some g ↦
          if contains expected g.target_key
            && (not (has g.target_key results) && is_evidenced hashing values g)
          then some g
          else none
    ]
  ]

  unfoldable pub previous_groups :
      List Text
      → Dict Text (List Text)
      → List Json
      → Dict Text GroupResult
      → Option (Dict Text GroupResult)
  previous_groups expected values [] results = some results
  previous_groups expected values (v ∷ vs) results =
      elim (checked_group expected values results v) [
        | none ↦ none
        | some g ↦ previous_groups expected values vs (insert g.target_key g results)
      ]

module _ (hashing : Hashing) {W : Type 0} where
  -- `_write_identifier_state`
  unfoldable pub write_identifier_state : List Text → Exec (Batch W) (Unit {0})
  write_identifier_state target_keys = modify (λ b. record b {
    identifier_state =
        document (object (from_dict (identifier_payload hashing target_keys b.identifier_values)));
  })

  -- The first file of `_write_progress`
  unfoldable pub write_receipt : List GroupResult → List Text → Exec (Batch W) (Unit {0})
  write_receipt groups target_keys = modify (λ b. record b {
    receipt = document (object (from_dict (receipt_payload hashing groups target_keys)));
  })

  -- `_write_progress`
  unfoldable pub write_progress : List GroupResult → List Text → Exec (Batch W) (Unit {0})
  unfolding write_receipt write_identifier_state
  write_progress groups target_keys = do
    write_receipt groups target_keys
    write_identifier_state target_keys

  -- `_load_identifier_state`
  unfoldable pub load_identifier_state : List Text → Exec (Batch W) (Unit {0})
  load_identifier_state expected = do
    found ← gets (λ b. document_of b.identifier_state)
    payload ← or_raise found value_error
    target_keys ← or_raise (list_at (text "target_keys") payload) value_error
    raise_if (not (is_for hashing expected target_keys payload)) value_error
    state ← or_raise (identifiers_in expected payload) value_error
    modify (λ b. record b { identifier_values = state })

module _ (hashing : Hashing) (builtins : Builtins) {W : Type 0} where
  -- `_previous`; what goes wrong raises ValueError
  unfoldable pub previous : List Text → Exec (Batch W) (Dict Text GroupResult)
  unfolding load_identifier_state previous_groups
  previous expected = do
    found ← gets (λ b. document_of b.receipt)
    payload ← or_raise found value_error
    target_keys ← or_raise (list_at (text "target_keys") payload) value_error
    raise_if (has_duplicates target_keys) value_error
    raise_if (not (is_for hashing expected target_keys payload)) value_error
    load_identifier_state hashing expected
    groups ← or_raise (groups_in payload) value_error
    values ← gets (λ b. b.identifier_values)
    or_raise (previous_groups hashing builtins expected values groups []) value_error
