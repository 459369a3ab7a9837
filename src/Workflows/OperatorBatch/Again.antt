-- ===== src/Workflows/OperatorBatch/Again.antt =====
-- A run of an operator batch after another: what `_previous` reads back is what the loop needs, and
-- no run leaves files that the next one refuses.
use fb_scraper.Prelude.{
  ◌≡◌, ◌≢◌, ◌∙◌, ◌⊎◌, inl, inr, refl, sym, subst, ap, arith, Bool, true, false, not, some, List, [],
  ◌∷◌, map, Text, text_eq, contains, all, All, Text-cases,
}
use mathlib.Core.Option.{some-injective}
use fb_scraper.Prelude.Dict.{Dict, lookup, insert, lookup-nil, lookup-insert, lookup-insert_ne}
use fb_scraper.Prelude.Sets.{has_duplicates}
use fb_scraper.Errors.{ok}
use fb_scraper.Exec.{Exec, continue, ◌>>=◌}
use fb_scraper.Json.{Builtins, document, object, from_dict}
use fb_scraper.Workflows.OperatorBatch.{Target, GroupResult, Hashing, target_key, ordered_targets}
use fb_scraper.Workflows.OperatorBatch.Resume.{
  Batch, is_evidenced, identifier_payload, known_identifiers, previous, write_progress,
  write_receipt, write_identifier_state,
}
use fb_scraper.Workflows.OperatorBatch.Results.{RunResult, Printing}
use fb_scraper.Workflows.OperatorBatch.Queue.{IsQueue, ordered_targets-IsQueue}
use fb_scraper.Workflows.OperatorBatch.Restored.{
  restored, by_key, IsClean, IsClean-restored, are_known, lookup-restored,
}
use fb_scraper.Workflows.OperatorBatch.Accepted.{
  IsRecorded, previous_saved, are_known_refl, evidenced-restored,
}
use fb_scraper.Workflows.OperatorBatch.Ready.{IsResumable, AreLeft, IsPrior}
use fb_scraper.Workflows.OperatorBatch.Saved.{
  IsSynced, IsResumable-moved, write_progress-IsResumable,
}
use fb_scraper.Workflows.OperatorBatch.Run.{Outside, earlier, run_queue, run}
use fb_scraper.Workflows.OperatorBatch.Resumable.{run_queue-IsResumable}

pub IsClean-nil : IsClean []
IsClean-nil = record { clean = λ k ids h. absurd (ground (arith, h, lookup-nil {V = List Text} k)) }

-- Dicts that agree on the targets give the same file.
known_identifiers_same :
    (keys : List Text) (values other : Dict Text (List Text))
    → All (λ k. lookup k values ≡ lookup k other) keys
    → known_identifiers keys values ≡ known_identifiers keys other
known_identifiers_same [] values other h = refl
known_identifiers_same (k ∷ ks) values other (p, ps) =
    ground (arith, p, known_identifiers_same ks values other ps)

agree :
    (keys ks : List Text) (values : Dict Text (List Text))
    → are_known keys ks ≡ true
    → All (λ k. lookup k (restored keys values []) ≡ lookup k values) ks
agree keys [] values h = tt
agree keys (k ∷ ks) values h = (
  lookup-restored keys values [] k (ground arith) (λ e. lookup-nil k),
  agree keys ks values (ground arith),
)

module _ (hashing : Hashing) where
  -- The results that were read back are their targets' own.
  record AreOwn (values : Dict Text (List Text)) (results : Dict Text GroupResult) : Type 0 where
    pub own :
        (key : Text) (r : GroupResult)
        → lookup key results ≡ some r
        → (r.target_key ≡ key) × (is_evidenced hashing values r ≡ true)

  AreOwn-insert :
      (values : Dict Text (List Text)) (results : Dict Text GroupResult) (g : GroupResult)
      → is_evidenced hashing values g ≡ true
      → AreOwn values results
      → AreOwn values (insert g.target_key g results)
  AreOwn-insert values results g e h = record {
    own = λ k r p. inserted k r p (Text-cases k g.target_key);
  }
    where
      inserted :
          (k : Text) (r : GroupResult)
          → lookup k (insert g.target_key g results) ≡ some r
          → (k ≡ g.target_key) ⊎ (k ≢ g.target_key)
          → (r.target_key ≡ k) × (is_evidenced hashing values r ≡ true)
      inserted k r p (inl q) =
          let same =
            some-injective g r (ground (arith, p, lookup-insert k g.target_key g results)) in
          (
            ap (λ (x : GroupResult). x.target_key) (sym same) ∙ sym q,
            subst (λ x. is_evidenced hashing values x ≡ true) same e,
          )
      inserted k r p (inr n) = h.own k r (sym (lookup-insert_ne k g.target_key g results n) ∙ p)

  AreOwn-by_key :
      (values : Dict Text (List Text)) (groups : List GroupResult) (results : Dict Text GroupResult)
      → all (is_evidenced hashing values) groups ≡ true
      → AreOwn values results
      → AreOwn values (by_key groups results)
  unfolding by_key
  AreOwn-by_key values [] results e h = h
  AreOwn-by_key values (g ∷ gs) results e h =
      AreOwn-by_key values gs (insert g.target_key g results) (ground arith)
        (AreOwn-insert values results g (ground arith) h)

  AreOwn-nil : (values : Dict Text (List Text)) → AreOwn values []
  AreOwn-nil values = record {
    own = λ k r h. absurd (ground (arith, h, lookup-nil {V = GroupResult} k));
  }

  abbrev pub keys_of : List Target → List Text
  keys_of targets = map (target_key hashing) targets

  IsRecorded-nil :
      (keys : List Text) (values : Dict Text (List Text))
      → IsClean values
      → IsRecorded hashing keys [] values
  IsRecorded-nil keys values c = record { known = refl; once = refl; evidenced = refl; clean = c }

  AreLeft-all :
      (results : Dict Text GroupResult) (values : Dict Text (List Text)) (targets : List Target)
      → IsQueue hashing targets
      → AreOwn values results
      → AreLeft hashing (keys_of targets) results values [] targets
  AreLeft-all results values targets q o = record {
    known = all-map (keys_of targets) targets (are_known_refl (keys_of targets));
    once = q.keys;
    apart = all_apart targets;
    prior = all_prior targets;
  }
    where
      all-map :
          (ks : List Text) (ts : List Target)
          → are_known ks (keys_of ts) ≡ true
          → all (λ t. contains ks (target_key hashing t)) ts ≡ true
      all-map ks [] h = refl
      all-map ks (t ∷ ts) h = ground (arith, all-map ks ts)

      all_apart : (ts : List Target) → all (λ t. not (contains [] (target_key hashing t))) ts ≡ true
      all_apart [] = refl
      all_apart (t ∷ ts) = all_apart ts

      all_prior : (ts : List Target) → All (IsPrior hashing results values) ts
      all_prior [] = tt
      all_prior (t ∷ ts) = (o.own (target_key hashing t), all_prior ts)

module _ (hashing : Hashing) (builtins : Builtins) (printing : Printing) {W : Type 0} where
  fresh-IsResumable :
      (outside : Outside W) (targets : List Target) (b : Batch W)
      → IsQueue hashing targets
      → IsResumable hashing
          (keys_of hashing targets)
          ((earlier hashing builtins false (keys_of hashing targets)
              >>= run_queue hashing printing outside targets (keys_of hashing targets))
            b).1
  unfolding earlier write_progress write_receipt write_identifier_state
  fresh-IsResumable outside targets b q =
      run_queue-IsResumable hashing printing (keys_of hashing targets) outside targets [] _
        (write_progress-IsResumable hashing (keys_of hashing targets) []
          (record b { identifier_values = [] })
          (IsRecorded-nil hashing (keys_of hashing targets) [] IsClean-nil))
        (IsRecorded-nil hashing (keys_of hashing targets) [] IsClean-nil)
        (AreLeft-all hashing [] [] targets q (AreOwn-nil hashing [])) refl

  restored-IsSynced :
      (keys : List Text) (values : Dict Text (List Text)) (b : Batch W)
      → b.identifier_state ≡ document (object (from_dict (identifier_payload hashing keys values)))
      → IsSynced hashing keys (record b { identifier_values = restored keys values [] })
  restored-IsSynced keys values b h =
      rw
        (known_identifiers_same keys (restored keys values []) values
          (agree keys keys values (are_known_refl keys)))
        h

  queued : Outside W → Bool → List Target → Exec (Batch W) RunResult
  queued outside resume targets =
      earlier hashing builtins resume (keys_of hashing targets)
      >>= run_queue hashing printing outside targets (keys_of hashing targets)

  -- What `_previous` has read back
  previous_read :
      (keys : List Text) (b : Batch W)
      → has_duplicates keys ≡ false
      → (h : IsResumable hashing keys b)
      → previous hashing builtins keys b
        ≡ (ok (by_key h.groups []), record b { identifier_values = restored keys h.values [] })
  previous_read keys b u h =
      previous_saved hashing builtins keys h.groups h.values b u h.recorded h.saved

  again-IsResumable :
      (outside : Outside W) (targets : List Target) (b : Batch W)
      → IsQueue hashing targets
      → IsResumable hashing (keys_of hashing targets) b
      → IsResumable hashing
          (keys_of hashing targets)
          ((earlier hashing builtins true (keys_of hashing targets)
              >>= run_queue hashing printing outside targets (keys_of hashing targets))
            b).1
  unfolding earlier
  again-IsResumable outside targets b q h =
      let keys = keys_of hashing targets in
      let values = restored keys h.values [] in
      subst
        (λ x.
          IsResumable hashing keys
            (continue (run_queue hashing printing outside targets keys) x.0 x.1).1)
        (sym (previous_read keys b q.keys h))
        (run_queue-IsResumable hashing printing keys outside targets (by_key h.groups [])
          (record b { identifier_values = values })
          (IsResumable-moved hashing keys b (record b { identifier_values = values }) refl refl h)
          (IsRecorded-nil hashing keys values
            (IsClean-restored keys h.values [] h.recorded.clean IsClean-nil))
          (AreLeft-all hashing (by_key h.groups []) values targets q (
            AreOwn-by_key hashing values h.groups []
              (evidenced-restored hashing keys h.values h.groups h.recorded.known
                h.recorded.evidenced)
              (AreOwn-nil hashing values)))
          (restored-IsSynced keys h.values b h.saved.identifiers))

  -- What a run of a batch leaves can be resumed from: always after a fresh run, and after a resumed
  -- run when it could be before.
  run-IsResumable :
      (outside : Outside W) (values targets : List Target) (b : Batch W)
      → ordered_targets hashing values ≡ ok targets
      → IsResumable hashing
          (keys_of hashing targets)
          (run hashing builtins printing outside values false b).1
  unfolding run queued
  run-IsResumable outside values targets b p =
      subst
        (λ x. IsResumable hashing (keys_of hashing targets) (continue (queued outside false) x b).1)
        (sym p)
        (fresh-IsResumable outside targets b (ordered_targets-IsQueue hashing values targets p))

  run_again-IsResumable :
      (outside : Outside W) (values targets : List Target) (b : Batch W)
      → ordered_targets hashing values ≡ ok targets
      → IsResumable hashing (keys_of hashing targets) b
      → IsResumable hashing
          (keys_of hashing targets)
          (run hashing builtins printing outside values true b).1
  unfolding run queued
  run_again-IsResumable outside values targets b p h =
      subst
        (λ x. IsResumable hashing (keys_of hashing targets) (continue (queued outside true) x b).1)
        (sym p)
        (again-IsResumable outside targets b (ordered_targets-IsQueue hashing values targets p) h)

  -- A batch that is resumed once for each of these callbacks
  unfoldable pub resumes : List (Outside W) → List Target → Batch W → Batch W
  unfolding run
  resumes [] values b = b
  resumes (o ∷ os) values b = resumes os values (run hashing builtins printing o values true b).1

  resumes-IsResumable :
      (outsides : List (Outside W)) (values targets : List Target) (b : Batch W)
      → ordered_targets hashing values ≡ ok targets
      → IsResumable hashing (keys_of hashing targets) b
      → IsResumable hashing (keys_of hashing targets) (resumes outsides values b)
  unfolding resumes
  resumes-IsResumable [] values targets b p h = h
  resumes-IsResumable (o ∷ os) values targets b p h =
      resumes-IsResumable os values targets (run hashing builtins printing o values true b).1 p
        (run_again-IsResumable o values targets b p h)

  -- Let a batch whose targets are accepted run afresh, and let it be resumed any number of times;
  -- whatever the captures of these runs do, and whether the runs return or raise, the next resume
  -- reads the receipt and the identifiers back without an error.
  pub resume_accepted :
      (outside : Outside W) (outsides : List (Outside W)) (values targets : List Target)
      (b : Batch W)
      → ordered_targets hashing values ≡ ok targets
      → (results : Dict Text GroupResult) × ((previous hashing builtins
            (keys_of hashing targets)
            (resumes outsides values (run hashing builtins printing outside values false b).1)).0
          ≡ ok results)
  resume_accepted outside outsides values targets b p =
      let h =
        resumes-IsResumable outsides values targets
          (run hashing builtins printing outside values false b).1 p
          (run-IsResumable outside values targets b p) in
      (
        by_key h.groups [],
        ap (λ x. x.0)
            (previous_read (keys_of hashing targets) _
              (ordered_targets-IsQueue hashing values targets p).keys h),
      )
