-- ===== src/Workflows/OperatorBatch/Torn.antt =====
-- The two files of an operator batch are written one after the other: what a resume reads when both
-- are there, and when only the first was.
use fb_scraper.Prelude.{
  ◌≡◌, refl, ap, arith, true, false, none, List, [], ◌∷◌, ◌++◌, map, Text, text_eq, contains, all,
}
use fb_scraper.Prelude.Dict.{Dict, lookup, insert, lookup-nil}
use fb_scraper.Prelude.Sets.{has_duplicates}
use fb_scraper.Errors.{ok, err, value_error}
use fb_scraper.Json.{Builtins, document, object, from_dict, to_dict-from_dict}
use fb_scraper.Workflows.OperatorBatch.{GroupResult, is_succeeded, Hashing}
use fb_scraper.Workflows.OperatorBatch.Receipts.{group_result-as_dict}
use fb_scraper.Workflows.OperatorBatch.Receipts
use fb_scraper.Workflows.OperatorBatch.Resume.{
  Batch, is_evidenced, identifier_payload, group_json, previous, previous_groups, write_receipt,
  write_identifier_state, write_progress, receipt_payload,
}
use fb_scraper.Workflows.OperatorBatch.Restored.{restored, by_key, IsClean, lookup-restored}
use fb_scraper.Workflows.OperatorBatch.Accepted.{
  IsRecorded, progress-IsReceipt, previous_saved, load_written, same_texts_refl,
}

module _ (hashing : Hashing) (builtins : Builtins) where
  previous_refused :
      (keys : List Text) (values : Dict Text (List Text)) (groups : List GroupResult)
      (results : Dict Text GroupResult)
      → all (is_evidenced hashing values) groups ≡ false
      → previous_groups hashing builtins keys values (map group_json groups) results ≡ none
  unfolding previous_groups
  previous_refused keys values [] results h = absurd (ground arith)
  previous_refused keys values (g ∷ gs) results h = ground (
    arith,
    to_dict-from_dict (Receipts.as_dict g),
    group_result-as_dict builtins g,
    previous_refused keys values gs (insert g.target_key g results),
  )

  last_refused :
      (values : Dict Text (List Text)) (gs : List GroupResult) (g : GroupResult)
      → is_evidenced hashing values g ≡ false
      → all (is_evidenced hashing values) (gs ++ (g ∷ [])) ≡ false
  last_refused values [] g h = ground arith
  last_refused values (x ∷ xs) g h = ground (arith, last_refused values xs g)

module _ (hashing : Hashing) (builtins : Builtins) {W : Type 0} (keys : List Text) (b : Batch W)
    (unique : has_duplicates keys ≡ false) where
  -- Let the keys of the targets be distinct, and let the results be of these targets, one for each,
  -- those that succeeded with the identifiers of the batch, whose lists have no duplicates. Then
  -- `_previous` reads from what `_write_progress` wrote the results by their keys.
  pub previous-write_progress :
      (groups : List GroupResult)
      → IsRecorded hashing keys groups b.identifier_values
      → (previous hashing builtins keys (write_progress hashing groups keys b).1).0
        ≡ ok (by_key groups [])
  unfolding write_progress write_receipt write_identifier_state
  previous-write_progress groups r =
      ap (λ x. x.0)
        (previous_saved hashing builtins keys groups b.identifier_values _ unique r
          (record { receipt = progress-IsReceipt hashing keys groups; identifiers = refl }))

  -- Let the keys of the targets be distinct, and let the file of the identifiers be that of some
  -- lists without duplicates. When the receipt of a further group that succeeded is written and the
  -- identifiers of the group are not, the resume raises ValueError.
  pub previous-write_receipt :
      (values : Dict Text (List Text)) (gs : List GroupResult) (g : GroupResult)
      → IsClean values
      → b.identifier_state ≡ document (object (from_dict (identifier_payload hashing keys values)))
      → is_succeeded g.state ≡ true
      → contains keys g.target_key ≡ true
      → lookup g.target_key values ≡ none
      → (previous hashing builtins keys (write_receipt hashing (gs ++ (g ∷ [])) keys b).1).0
        ≡ err value_error
  unfolding previous write_receipt
  previous-write_receipt values gs g c s u k n =
      let r = progress-IsReceipt hashing keys (gs ++ (g ∷ [])) in
      let b₁ = record b {
        receipt = document (object (from_dict (receipt_payload hashing (gs ++ (g ∷ [])) keys)));
      } in
      ground (
        arith,
        r.read,
        r.named,
        r.hashed,
        r.listed,
        unique,
        same_texts_refl hashing keys,
        load_written hashing keys values b₁ c s,
        previous_refused hashing builtins keys (restored keys values []) (gs ++ (g ∷ [])) [] (
            last_refused hashing builtins (restored keys values []) gs g (
              ground (
                arith,
                u,
                n,
                lookup-restored keys values [] g.target_key k (λ e. lookup-nil g.target_key),
              ))),
      )
