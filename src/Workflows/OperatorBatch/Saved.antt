-- ===== src/Workflows/OperatorBatch/Saved.antt =====
-- What the end of the loop of an operator batch has to be for its files to be resumed from.
use fb_scraper.Prelude.{
  ℕ, ◌≡◌, ◌∙◌, refl, sym, subst, arith, true, List, [], ◌∷◌, ◌++◌, Text, text_eq, nat_eq, option_eq,
}
use fb_scraper.Prelude.Dict.{Dict, insert, lookup-insert_self}
use fb_scraper.Prelude.Sets.{sorted_set}
use fb_scraper.Errors.{Error, Result, ok}
use fb_scraper.Json.{document, object, from_dict}
use fb_scraper.Exec.{Exec, pure, raise}
use fb_scraper.Exec.Inversion.{ok_injective}
use fb_scraper.Workflows.OperatorBatch.{Target, Capture, GroupResult, Hashing, target_key, success}
use fb_scraper.Workflows.OperatorBatch.Resume.{
  Batch, is_evidenced, identifier_payload, write_progress, write_receipt, write_identifier_state,
}
use fb_scraper.Workflows.OperatorBatch.Accepted.{IsRecorded, IsReceipt, progress-IsReceipt}
use fb_scraper.Workflows.OperatorBatch.Ready.{IsResumable, AreLeft}
use fb_scraper.Workflows.OperatorBatch.Run.{append}

module _ (hashing : Hashing) where
  pub target_key-success :
      (t : Target) (c : Capture) (n d : ℕ)
      → (success hashing t c n d).target_key ≡ target_key hashing t
  unfolding success
  target_key-success t c n d = refl

  pub success-evidenced :
      (t : Target) (c : Capture) (n d : ℕ) (values : Dict Text (List Text))
      → is_evidenced hashing
          (insert (target_key hashing t) (sorted_set c.identifiers) values)
          (success hashing t c n d)
        ≡ true
  unfolding success
  success-evidenced t c n d values =
      ground (arith, lookup-insert_self (target_key hashing t) (sorted_set c.identifiers) values)

module _ (hashing : Hashing) {W : Type 0} (keys : List Text) where
  -- The file of identifiers is that of the object.
  abbrev pub IsSynced : Batch W → Type 0
  IsSynced b =
      b.identifier_state
      ≡ document (object (from_dict (identifier_payload hashing keys b.identifier_values)))

  -- The files can be resumed from, and the results that come back belong to the identifiers.
  pub record Ends (r : Result (List GroupResult) × Batch W) : Type 0 where
    pub resumable : IsResumable hashing keys r.1
    pub recorded :
        (groups : List GroupResult)
        → r.0 ≡ ok groups
        → IsRecorded hashing keys groups r.1.identifier_values
    pub synced : (groups : List GroupResult) → r.0 ≡ ok groups → IsSynced r.1

  pub IsResumable-moved :
      (b c : Batch W)
      → c.receipt ≡ b.receipt
      → c.identifier_state ≡ b.identifier_state
      → IsResumable hashing keys b
      → IsResumable hashing keys c
  IsResumable-moved b c p q r = record {
    groups = r.groups;
    values = r.values;
    recorded = r.recorded;
    saved = record {
      receipt = subst (λ f. IsReceipt hashing keys r.groups f) (sym p) r.saved.receipt;
      identifiers = q ∙ r.saved.identifiers;
    };
  }

  module _ (results : Dict Text GroupResult) (ts : List Target)
      (follow : List GroupResult → Exec (Batch W) (List GroupResult)) where
    -- The rest of the loop does its part for the targets `ts`.
    abbrev pub Goes : Type 0
    Goes =
        (groups : List GroupResult) (b : Batch W)
        → IsResumable hashing keys b
        → IsRecorded hashing keys groups b.identifier_values
        → AreLeft hashing keys results b.identifier_values groups ts
        → IsSynced b
        → Ends (follow groups b)

  pub write_progress-IsResumable :
      (groups : List GroupResult) (b : Batch W)
      → IsRecorded hashing keys groups b.identifier_values
      → IsResumable hashing keys (write_progress hashing groups keys b).1
  unfolding write_progress write_receipt write_identifier_state
  write_progress-IsResumable groups b r = record {
    groups = groups;
    values = b.identifier_values;
    recorded = r;
    saved = record { receipt = progress-IsReceipt hashing keys groups; identifiers = refl };
  }

  pub append-Ends :
      (groups : List GroupResult) (g : GroupResult)
      (follow : List GroupResult → Exec (Batch W) (List GroupResult)) (b : Batch W)
      → IsRecorded hashing keys (groups ++ (g ∷ [])) b.identifier_values
      → ((c : Batch W)
          → c.identifier_values ≡ b.identifier_values
          → IsResumable hashing keys c
          → IsSynced c
          → Ends (follow (groups ++ (g ∷ [])) c))
      → Ends (append hashing keys groups g follow b)
  unfolding append write_progress write_receipt write_identifier_state
  append-Ends groups g follow b r h =
      h _ refl (write_progress-IsResumable (groups ++ (g ∷ [])) b r) refl

  pub pure-Ends :
      (groups : List GroupResult) (b : Batch W)
      → IsResumable hashing keys b
      → IsRecorded hashing keys groups b.identifier_values
      → IsSynced b
      → Ends (pure groups b)
  pure-Ends groups b h r y = record {
    synced = λ gs p. y;
    resumable = h;
    recorded =
        λ gs p. subst (λ xs. IsRecorded hashing keys xs b.identifier_values) (ok_injective p) r;
  }

  pub raise-Ends : (e : Error) (b : Batch W) → IsResumable hashing keys b → Ends (raise e b)
  raise-Ends e b h = record {
    resumable = h;
    recorded = λ gs p. absurd cc;
    synced = λ gs p. absurd cc;
  }
