-- ===== src/Workflows/OperatorBatch/Accepted.antt =====
-- `_previous` accepts the files of a batch that hold results of its targets.
use fb_scraper.Prelude.{
  ◌≡◌, refl, ap, arith, Bool, true, false, not, ◌||◌, some, List, [], ◌∷◌, map, Text, text, text_eq,
  text_dec, ◌==◌, contains, all,
}
use fb_scraper.Prelude.Dict.{Dict, lookup, insert, has, lookup-insert, lookup-nil}
use fb_scraper.Prelude.Sets.{has_duplicates}
use fb_scraper.Errors.{ok}
use fb_scraper.Json.{
  Json, string, object, from_dict, to_list-from_list, is_text, to_dict-from_dict,
  as_text_list-text_list, Builtins, File, document,
}
use fb_scraper.Workflows.OperatorBatch.{GroupResult, Hashing, set_hash}
use fb_scraper.Workflows.OperatorBatch.Receipts.{group_result, group_result-as_dict}
use fb_scraper.Workflows.OperatorBatch.Receipts
use fb_scraper.Workflows.OperatorBatch.Resume.{
  Batch, same_texts, document_of, list_at, holds_text, group_json, known_identifiers, groups_in,
  is_for, is_evidenced, previous_groups, identifier_payload, previous, load_identifier_state,
  receipt_payload, identifiers_in,
}
use fb_scraper.Workflows.OperatorBatch.Restored.{
  restored, by_key, are_known, IsClean, load_known, lookup-restored,
}

has-insert :
    {V : Type 0} (j k : Text) (v : V) (d : Dict Text V)
    → has j (insert k v d) ≡ ((j == k) || has j d)
unfolding has
has-insert j k v d = ground (arith, lookup-insert j k v d)

-- Not one of the groups has a result yet.
abbrev are_new : List GroupResult → Dict Text GroupResult → Bool
are_new groups results = all (λ g. not (has g.target_key results)) groups

are_new-insert :
    (groups : List GroupResult) (results : Dict Text GroupResult) (g : GroupResult)
    → are_new groups results ≡ true
    → contains (map (λ (x : GroupResult). x.target_key) groups) g.target_key ≡ false
    → are_new groups (insert g.target_key g results) ≡ true
are_new-insert [] results g h n = refl
are_new-insert (x ∷ xs) results g h n =
    ground (arith, are_new-insert xs results g, has-insert x.target_key g.target_key g results)

all_new : (groups : List GroupResult) → are_new groups [] ≡ true
unfolding has
all_new [] = refl
all_new (g ∷ gs) = ground (arith, all_new gs, lookup-nil {V = GroupResult} g.target_key)

known_weaken :
    (k : Text) (expected keys : List Text)
    → are_known expected keys ≡ true
    → are_known (k ∷ expected) keys ≡ true
known_weaken k expected [] h = refl
known_weaken k expected (x ∷ xs) h = ground (arith, known_weaken k expected xs)

pub are_known_refl : (keys : List Text) → are_known keys keys ≡ true
are_known_refl [] = refl
are_known_refl (k ∷ ks) = ground (arith, known_weaken k ks ks (are_known_refl ks))

module _ (hashing : Hashing) where
  -- Results of the targets with these keys, whose identifiers are among the values
  pub record IsRecorded (keys : List Text) (groups : List GroupResult)
      (values : Dict Text (List Text)) : Type 0 where
    pub known : all (λ g. contains keys g.target_key) groups ≡ true
    pub once : has_duplicates (map (λ (g : GroupResult). g.target_key) groups) ≡ false
    pub evidenced : all (is_evidenced hashing values) groups ≡ true
    pub clean : IsClean values

  previous_known :
      (builtins : Builtins) (keys : List Text) (values : Dict Text (List Text))
      (groups : List GroupResult) (results : Dict Text GroupResult)
      → all (λ g. contains keys g.target_key) groups ≡ true
      → has_duplicates (map (λ (g : GroupResult). g.target_key) groups) ≡ false
      → all (is_evidenced hashing values) groups ≡ true
      → are_new groups results ≡ true
      → previous_groups hashing builtins keys values (map group_json groups) results
        ≡ some (by_key groups results)
  unfolding previous_groups by_key
  previous_known builtins keys values [] results k o e n = refl
  previous_known builtins keys values (g ∷ gs) results k o e n = ground (
    arith,
    to_dict-from_dict (Receipts.as_dict g),
    group_result-as_dict builtins g,
    previous_known builtins keys values gs (insert g.target_key g results),
    are_new-insert gs results g,
  )

  pub evidenced-restored :
      (keys : List Text) (values : Dict Text (List Text)) (groups : List GroupResult)
      → all (λ g. contains keys g.target_key) groups ≡ true
      → all (is_evidenced hashing values) groups ≡ true
      → all (is_evidenced hashing (restored keys values [])) groups ≡ true
  evidenced-restored keys values [] k e = refl
  evidenced-restored keys values (g ∷ gs) k e = ground (
    arith,
    evidenced-restored keys values gs,
    lookup-restored keys values [] g.target_key,
    lookup-nil {V = List Text} g.target_key,
  )

  pub same_texts_refl : (keys : List Text) → same_texts keys keys ≡ true
  same_texts_refl [] = refl
  same_texts_refl (k ∷ ks) = ground (arith, same_texts_refl ks)

  pub is_text_refl : (t : Text) → is_text (string t) t ≡ true
  is_text_refl t = ground arith

  known_keys :
      (keys : List Text) (values : Dict Text (List Text))
      → list_at (text "target_keys") (identifier_payload hashing keys values) ≡ some keys
  unfolding lookup text_eq text_dec
  known_keys keys values = as_text_list-text_list keys

  identifiers_are_for :
      (keys : List Text) (values : Dict Text (List Text))
      → is_for hashing keys keys (identifier_payload hashing keys values) ≡ true
  unfolding lookup text_eq text_dec
  identifiers_are_for keys values =
      ground (arith, same_texts_refl keys, is_text_refl (set_hash hashing keys))

  identifiers_read :
      (keys : List Text) (values : Dict Text (List Text))
      → IsClean values
      → identifiers_in keys (identifier_payload hashing keys values)
        ≡ some (restored keys values [])
  unfolding lookup text_eq text_dec
  identifiers_read keys values c =
      rw (to_dict-from_dict (known_identifiers keys values))
        (load_known keys keys values [] (are_known_refl keys) c)

  pub load_written :
      {W : Type 0} (keys : List Text) (values : Dict Text (List Text)) (b : Batch W)
      → IsClean values
      → b.identifier_state ≡ document (object (from_dict (identifier_payload hashing keys values)))
      → load_identifier_state hashing keys b
        ≡ (ok tt, record b { identifier_values = restored keys values [] })
  unfolding load_identifier_state
  load_written keys values b c h = ground (
    arith,
    h,
    to_dict-from_dict (identifier_payload hashing keys values),
    known_keys keys values,
    identifiers_are_for keys values,
    identifiers_read keys values c,
  )

  -- A receipt of these targets and results, whatever else it holds
  pub record IsReceipt (keys : List Text) (groups : List GroupResult) (file : File) : Type 0 where
    pub payload : Dict Text Json
    pub read : document_of file ≡ some payload
    pub named : list_at (text "target_keys") payload ≡ some keys
    pub hashed : holds_text (text "target_set_sha256") (set_hash hashing keys) payload ≡ true
    pub listed : groups_in payload ≡ some (map group_json groups)

  -- The files of a batch hold these results and these identifiers.
  pub record IsSaved {W : Type 0} (keys : List Text) (groups : List GroupResult)
      (values : Dict Text (List Text)) (b : Batch W) : Type 0 where
    pub receipt : IsReceipt keys groups b.receipt
    pub identifiers :
        b.identifier_state ≡ document (object (from_dict (identifier_payload hashing keys values)))

  pub previous_saved :
      {W : Type 0} (builtins : Builtins) (keys : List Text) (groups : List GroupResult)
      (values : Dict Text (List Text)) (b : Batch W)
      → has_duplicates keys ≡ false
      → IsRecorded keys groups values
      → IsSaved keys groups values b
      → previous hashing builtins keys b
        ≡ (ok (by_key groups []), record b { identifier_values = restored keys values [] })
  unfolding previous
  previous_saved builtins keys groups values b u r s = ground (
    arith,
    s.receipt.read,
    s.receipt.named,
    s.receipt.hashed,
    s.receipt.listed,
    u,
    same_texts_refl keys,
    load_written keys values b r.clean s.identifiers,
    previous_known builtins keys (restored keys values []) groups [] r.known r.once
        (evidenced-restored keys values groups r.known r.evidenced) (all_new groups),
  )

  pub progress-IsReceipt :
      (keys : List Text) (groups : List GroupResult)
      → IsReceipt keys groups (document (object (from_dict (receipt_payload hashing groups keys))))
  unfolding lookup text_eq text_dec
  progress-IsReceipt keys groups = record {
    payload = receipt_payload hashing groups keys;
    read = ap some (to_dict-from_dict (receipt_payload hashing groups keys));
    named = as_text_list-text_list keys;
    hashed = is_text_refl (set_hash hashing keys);
    listed = ap some (to_list-from_list (map group_json groups));
  }
