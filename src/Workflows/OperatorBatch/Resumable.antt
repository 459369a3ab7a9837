-- ===== src/Workflows/OperatorBatch/Resumable.antt =====
-- Any number of runs of an operator batch can be followed by another one.
use fb_scraper.Prelude.{
  ◌≡◌, inl, inr, refl, sym, subst, ap, arith, Option, none, some, List, [], map, Text, text_eq,
  text_dec,
}
use fb_scraper.Prelude.Dict.{Dict, lookup}
use fb_scraper.Errors.{Error, Result, ok, err, key_error}
use fb_scraper.Exec.{Exec, pure, raise, continue, handle, reraise, ◌>>◌}
use fb_scraper.Exec.Inversion.{Result-cases}
use fb_scraper.Json.{
  document, object, from_dict, to_dict-from_dict, to_list-from_list, as_text_list-text_list,
}
use fb_scraper.Metrics.{Measurement, TimerStart, start}
use fb_scraper.Workflows.OperatorBatch.{Target, GroupResult, Metrics, Hashing, set_hash, metrics}
use fb_scraper.Workflows.OperatorBatch.Resume.{Batch, group_json}
use fb_scraper.Workflows.OperatorBatch.Results.{
  RunResult, Printing, result_payload, write_result, conclude, run_result, identifiers_of,
  succeeded_of,
}
use fb_scraper.Workflows.OperatorBatch.Accepted.{IsRecorded, IsReceipt, is_text_refl}
use fb_scraper.Workflows.OperatorBatch.Ready.{IsResumable, AreLeft}
use fb_scraper.Workflows.OperatorBatch.Saved.{Ends, IsSynced}
use fb_scraper.Workflows.OperatorBatch.Kept.{run_targets-Ends}
use fb_scraper.Workflows.OperatorBatch.Run.{
  Outside, stop_timer, on_interrupt, run_targets, finish, run_queue,
}

module _ (hashing : Hashing) (printing : Printing) (keys : List Text) where
  result-IsReceipt :
      (r : RunResult)
      → IsReceipt hashing keys r.groups
          (document (object (from_dict (result_payload hashing printing r keys))))
  unfolding lookup text_eq text_dec
  result-IsReceipt r = record {
    payload = result_payload hashing printing r keys;
    read = ap some (to_dict-from_dict (result_payload hashing printing r keys));
    named = as_text_list-text_list keys;
    hashed = is_text_refl hashing (set_hash hashing keys);
    listed = ap some (to_list-from_list (map group_json r.groups));
  }

module _ (hashing : Hashing) (printing : Printing) {W : Type 0} (keys : List Text) where
  module _ (groups : List GroupResult) (b : Batch W) (h : IsResumable hashing keys b)
      (r : IsRecorded hashing keys groups b.identifier_values) (y : IsSynced hashing keys b) where
    write_result-IsResumable :
        (m : Metrics) (ids : List Text)
        → IsResumable hashing keys
            (write_result hashing printing (run_result hashing groups m ids) keys b).1
    unfolding write_result
    write_result-IsResumable m ids = record {
      groups = groups;
      values = b.identifier_values;
      recorded = r;
      saved = record {
        receipt = result-IsReceipt hashing printing keys (run_result hashing groups m ids);
        identifiers = y;
      };
    }

    -- `conclude` on the metrics and the identifiers that it has found
    conclude_with : Result Metrics → Option (List Text) → Exec (Batch W) RunResult
    conclude_with (err e) found = raise e
    conclude_with (ok m) none = raise key_error
    conclude_with (ok m) (some ids) =
        write_result hashing printing (run_result hashing groups m ids) keys
        >> pure (run_result hashing groups m ids)

    concluded :
        (m : Result Metrics) (found : Option (List Text))
        → IsResumable hashing keys (conclude_with m found b).1
    unfolding conclude_with write_result
    concluded (err e) found = h
    concluded (ok m) none = h
    concluded (ok m) (some ids) = write_result-IsResumable m ids

    conclude_cases :
        (m : Measurement) (x : Result Metrics) (found : Option (List Text))
        → metrics groups m ≡ x
        → identifiers_of b.identifier_values (succeeded_of groups) ≡ found
        → conclude hashing printing groups keys m b ≡ conclude_with x found b
    unfolding conclude conclude_with write_result
    conclude_cases m (err e) found p q = ground (arith, p, q)
    conclude_cases m (ok x) none p q = ground (arith, p, q)
    conclude_cases m (ok x) (some ids) p q = ground (arith, p, q)

    conclude-IsResumable :
        (m : Measurement) → IsResumable hashing keys (conclude hashing printing groups keys m b).1
    conclude-IsResumable m =
        subst (λ x. IsResumable hashing keys x.1)
          (sym (
            conclude_cases m (metrics groups m)
              (identifiers_of b.identifier_values (succeeded_of groups)) refl refl))
          (concluded (metrics groups m) (identifiers_of b.identifier_values (succeeded_of groups)))

  module _ (outside : Outside W) (timer : TimerStart) where
    finish-IsResumable :
        (groups : List GroupResult) (b : Batch W)
        → IsResumable hashing keys b
        → IsRecorded hashing keys groups b.identifier_values
        → IsSynced hashing keys b
        → IsResumable hashing keys (finish hashing printing outside keys timer groups b).1
    unfolding finish
    finish-IsResumable groups b h r y = stopped (stop_timer outside timer b)
      where
        stopped :
            (x : Result Measurement)
            → IsResumable hashing keys (continue (conclude hashing printing groups keys) x b).1
        stopped (ok m) = conclude-IsResumable groups b h r y m
        stopped (err e) = h

    -- The handler of an interruption leaves the files as they are.
    handled : (e : Error) (b : Batch W) → (on_interrupt outside timer e b).1 ≡ b
    handled e b = elim (Result-cases (stop_timer outside timer b)) [
      | inl (m, p) ↦ ground (arith, p)
      | inr (f, p) ↦ ground (arith, p)
    ]

    raised-IsResumable :
        (e : Error) (x : Result (Unit {0})) (b : Batch W)
        → IsResumable hashing keys b
        → IsResumable hashing keys
            (continue
              (finish hashing printing outside keys timer)
              (reraise {A = List GroupResult} e x b).0
              (reraise {A = List GroupResult} e x b).1).1
    raised-IsResumable e (ok u) b h = h
    raised-IsResumable e (err f) b h = h

    ended-IsResumable :
        (x : Result (List GroupResult)) (b : Batch W)
        → Ends hashing keys (x, b)
        → IsResumable hashing keys
            (continue
              (finish hashing printing outside keys timer)
              (handle (on_interrupt outside timer) x b).0
              (handle (on_interrupt outside timer) x b).1).1
    ended-IsResumable (ok groups) b h =
        finish-IsResumable groups b h.resumable (h.recorded groups refl) (h.synced groups refl)
    ended-IsResumable (err e) b h =
        raised-IsResumable e (on_interrupt outside timer e b).0 (on_interrupt outside timer e b).1
          (subst (IsResumable hashing keys) (sym (handled e b)) h.resumable)

  pub run_queue-IsResumable :
      (outside : Outside W) (targets : List Target) (results : Dict Text GroupResult) (b : Batch W)
      → IsResumable hashing keys b
      → IsRecorded hashing keys [] b.identifier_values
      → AreLeft hashing keys results b.identifier_values [] targets
      → IsSynced hashing keys b
      → IsResumable hashing keys (run_queue hashing printing outside targets keys results b).1
  unfolding run_queue start
  run_queue-IsResumable outside targets results b h r l y =
      ended-IsResumable outside _ (run_targets hashing outside keys results 0 targets [] b).0
        (run_targets hashing outside keys results 0 targets [] b).1
        (run_targets-Ends hashing keys outside results 0 targets [] b h r l y)
