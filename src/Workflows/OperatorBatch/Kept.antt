-- ===== src/Workflows/OperatorBatch/Kept.antt =====
-- The loop of an operator batch leaves files that can be resumed from, whatever the captures do.
use fb_scraper.Prelude.{
  ℕ, suc, ◌≡◌, refl, sym, subst, arith, Bool, true, false, not, ◌&&◌, Option, none, some, List, [],
  ◌∷◌, ◌++◌, map, Text, text_eq, ltb, contains, nat_eq, option_eq, if◌then◌else◌,
}
use fb_scraper.Prelude.Dict.{Dict, lookup}
use fb_scraper.Prelude.Sets.{sorted_set}
use fb_scraper.Prelude.Sets.Canonical.{has_duplicates-sorted_set}
use fb_scraper.Errors.{keyboard_interrupt}
use fb_scraper.Exec.{Exec, pure, raise}
use fb_scraper.Workflows.OperatorBatch.{
  Target, Capture, GroupState, succeeded, incomplete, failed, stopped, GroupResult, Hashing,
  target_key, success, terminal,
}
use fb_scraper.Workflows.OperatorBatch.Resume.{Batch, is_evidenced}
use fb_scraper.Workflows.OperatorBatch.Accepted.{IsRecorded}
use fb_scraper.Workflows.OperatorBatch.Ready.{
  group_keys, IsResumable, AreLeft, IsRecorded-insert, IsRecorded-snoc, AreLeft-tail, AreLeft-snoc,
  AreLeft-insert, next_known,
}
use fb_scraper.Workflows.OperatorBatch.Run.{
  Outcome, captured, interrupt, batch_stop, browser_state, unsupported_layout, recoverable, other,
  is_first, Outside, attempt, plan, plan_on, pause, append, keep_identifiers, settle_outcome, visit,
  run_targets,
}
use fb_scraper.Workflows.OperatorBatch.Saved.{
  Ends, Goes, IsSynced, IsResumable-moved, append-Ends, pure-Ends, raise-Ends, target_key-success,
  success-evidenced,
}

module _ (hashing : Hashing) {W : Type 0} (keys : List Text) where
  -- A target that is next in the queue, and what the loop has then
  pub record IsNext (results : Dict Text GroupResult) (t : Target) (ts : List Target)
      (groups : List GroupResult) (b : Batch W) : Type 0 where
    pub resumable : IsResumable hashing keys b
    pub recorded : IsRecorded hashing keys groups b.identifier_values
    pub known : contains keys (target_key hashing t) ≡ true
    pub fresh : contains (group_keys groups) (target_key hashing t) ≡ false
    pub later : contains (map (target_key hashing) ts) (target_key hashing t) ≡ false
    pub left : AreLeft hashing keys results b.identifier_values groups ts

  IsNext-tail :
      {results : Dict Text GroupResult} {t : Target} {ts : List Target} {groups : List GroupResult}
      {b : Batch W}
      → IsResumable hashing keys b
      → IsRecorded hashing keys groups b.identifier_values
      → AreLeft hashing keys results b.identifier_values groups (t ∷ ts)
      → IsNext results t ts groups b
  IsNext-tail {results} {t} {ts} {groups} {b} h r l =
      let (k, n, m) = next_known hashing keys results b.identifier_values groups t ts l in
      record {
        resumable = h;
        recorded = r;
        known = k;
        fresh = n;
        later = m;
        left = AreLeft-tail hashing keys results b.identifier_values groups t ts l;
      }

  module _ (results : Dict Text GroupResult) (t : Target) (ts : List Target)
      (follow : List GroupResult → Exec (Batch W) (List GroupResult))
      (groups : List GroupResult) where
    abbrev IsNow : Batch W → Type 0
    IsNow = IsNext results t ts groups

    -- The identifiers of a capture
    IsNext-keep : (c : Capture) (b : Batch W) → IsNow b → IsNow (keep_identifiers hashing t c b)
    IsNext-keep c b r = record {
      resumable =
          IsResumable-moved hashing keys b (keep_identifiers hashing t c b) refl refl r.resumable;
      recorded =
          IsRecorded-insert hashing keys groups b.identifier_values (target_key hashing t)
            (sorted_set c.identifiers) (has_duplicates-sorted_set c.identifiers) r.fresh r.recorded;
      known = r.known;
      fresh = r.fresh;
      later = r.later;
      left =
          AreLeft-insert hashing keys results b.identifier_values groups ts (target_key hashing t)
            (sorted_set c.identifiers) r.later r.left;
    }

    module _ (g : GroupResult) (b : Batch W) where
      abbrev IsOwn : Type 0
      IsOwn =
          (g.target_key ≡ target_key hashing t)
          × (is_evidenced hashing b.identifier_values g ≡ true)

      snoc-IsRecorded :
          IsNow b → IsOwn → IsRecorded hashing keys (groups ++ (g ∷ [])) b.identifier_values
      snoc-IsRecorded r (p, e) =
          IsRecorded-snoc hashing keys groups b.identifier_values g (ground (arith, r.known, p))
            (ground (arith, r.fresh, p)) e r.recorded

      snoc_left :
          IsNow b → IsOwn → AreLeft hashing keys results b.identifier_values (groups ++ (g ∷ [])) ts
      snoc_left r (p, e) =
          AreLeft-snoc hashing keys results b.identifier_values groups g ts
            (ground (arith, r.later, p)) r.left

      pub follow-Ends :
          IsNow b
          → Goes hashing keys results ts follow
          → IsOwn
          → Ends hashing keys (append hashing keys groups g follow b)
      follow-Ends r goes o =
          append-Ends hashing keys groups g follow b (snoc-IsRecorded r o) (λ c q h y.
            goes (groups ++ (g ∷ [])) c h
              (subst (λ v. IsRecorded hashing keys (groups ++ (g ∷ [])) v) (sym q)
                (snoc-IsRecorded r o))
              (subst (λ v. AreLeft hashing keys results v (groups ++ (g ∷ [])) ts) (sym q)
                (snoc_left r o))
              y)

      pub stop-Ends : IsNow b → IsOwn → Ends hashing keys (append hashing keys groups g pure b)
      stop-Ends r o = append-Ends hashing keys groups g pure b (snoc-IsRecorded r o) (λ c q h y.
          pure-Ends hashing keys (groups ++ (g ∷ [])) c h
            (subst (λ v. IsRecorded hashing keys (groups ++ (g ∷ [])) v) (sym q)
              (snoc-IsRecorded r o))
            y)

      pub interrupt-Ends :
          IsNow b
          → IsOwn
          → Ends hashing keys (append hashing keys groups g (λ gs. raise keyboard_interrupt) b)
      interrupt-Ends r o =
          append-Ends hashing keys groups g (λ gs. raise keyboard_interrupt) b (snoc-IsRecorded r o)
            (λ c q h y. raise-Ends hashing keys keyboard_interrupt c h)

    pub settle-Ends :
        (b : Batch W)
        → IsNow b
        → Goes hashing keys results ts follow
        → (n d : ℕ) (outcome : Outcome)
        → Ends hashing keys (settle_outcome hashing keys groups t n d follow outcome b)
    unfolding settle_outcome terminal
    settle-Ends b r goes n d (captured c) =
        follow-Ends (success hashing t c n d) (keep_identifiers hashing t c b) (IsNext-keep c b r)
          goes
          (
            target_key-success hashing t c n d,
            success-evidenced hashing t c n d b.identifier_values,
          )
    settle-Ends b r goes n d interrupt = interrupt-Ends _ b r (refl, refl)
    settle-Ends b r goes n d (batch_stop name reason) = stop-Ends _ b r (refl, refl)
    settle-Ends b r goes n d (browser_state name failure_class) = stop-Ends _ b r (refl, refl)
    settle-Ends b r goes n d (unsupported_layout name) = stop-Ends _ b r (refl, refl)
    settle-Ends b r goes n d (recoverable name) = follow-Ends _ b r goes (refl, refl)
    settle-Ends b r goes n d (other name) = follow-Ends _ b r goes (refl, refl)

    module _ (outside : Outside W) where
      -- What an attempt does before its outcome is settled leaves the files as they are.
      IsNext-world : (b : Batch W) (w : W) → IsNow b → IsNow (record b { world = w })
      IsNext-world b w r = record {
        resumable = IsResumable-moved hashing keys b (record b { world = w }) refl refl r.resumable;
        recorded = r.recorded;
        known = r.known;
        fresh = r.fresh;
        later = r.later;
        left = r.left;
      }

      choose-IsNow : (c : Bool) (x y : Batch W) → IsNow x → IsNow y → IsNow (if c then x else y)
      choose-IsNow true x y hx hy = hx
      choose-IsNow false x y hx hy = hy

      IsNext-pause :
          (index : ℕ) (b : Batch W) → IsNow b → IsNow (pause hashing outside index groups b)
      IsNext-pause index b r =
          choose-IsNow
            (ltb 0 index && (not (is_first groups) && ltb 0 outside.between_groups_seconds)) _ b
            (IsNext-world b _ r) r

      keep-Ends :
          (g : GroupResult) (b : Batch W)
          → IsNow b
          → IsSynced hashing keys b
          → Goes hashing keys results ts follow
          → IsOwn g b
          → Ends hashing keys (follow (groups ++ (g ∷ [])) b)
      keep-Ends g b r y goes o =
          goes (groups ++ (g ∷ [])) b r.resumable (snoc-IsRecorded g b r o) (snoc_left g b r o) y

      halt-Ends :
          (g : GroupResult) (b : Batch W)
          → IsNow b
          → IsSynced hashing keys b
          → IsOwn g b
          → Ends hashing keys (pure (groups ++ (g ∷ [])) b)
      halt-Ends g b r y o =
          pure-Ends hashing keys (groups ++ (g ∷ [])) b r.resumable (snoc-IsRecorded g b r o) y

      attempt-Ends :
          (index n : ℕ) (b : Batch W)
          → IsNow b
          → Goes hashing keys results ts follow
          → Ends hashing keys (visit hashing outside keys groups index t follow (attempt n) b)
      unfolding visit
      attempt-Ends index n b r goes =
          settle-Ends _
            (IsNext-world (pause hashing outside index groups b) _ (IsNext-pause index b r)) goes n
            _ _

      prior-Ends :
          (index : ℕ) (b : Batch W) (g : GroupResult)
          → IsNow b
          → IsSynced hashing keys b
          → Goes hashing keys results ts follow
          → IsOwn g b
          → (st : GroupState)
          → Ends hashing keys (visit hashing outside keys groups index t follow (plan_on st g) b)
      unfolding visit
      prior-Ends index b g r y goes o stopped = halt-Ends g b r y o
      prior-Ends index b g r y goes o incomplete = attempt-Ends index (suc g.attempts) b r goes
      prior-Ends index b g r y goes o succeeded = keep-Ends g b r y goes o
      prior-Ends index b g r y goes o failed = keep-Ends g b r y goes o

      pub visit-Ends :
          (index : ℕ) (b : Batch W)
          → IsNow b
          → IsSynced hashing keys b
          → Goes hashing keys results ts follow
          → (o : Option GroupResult) → ((g : GroupResult) → o ≡ some g → IsOwn g b)
          → Ends hashing keys (visit hashing outside keys groups index t follow (plan o) b)
      unfolding plan
      visit-Ends index b r y goes none h = attempt-Ends index 1 b r goes
      visit-Ends index b r y goes (some g) h = prior-Ends index b g r y goes (h g refl) g.state

  pub run_targets-Ends :
      (outside : Outside W) (results : Dict Text GroupResult) (index : ℕ) (targets : List Target)
      (groups : List GroupResult) (b : Batch W)
      → IsResumable hashing keys b
      → IsRecorded hashing keys groups b.identifier_values
      → AreLeft hashing keys results b.identifier_values groups targets
      → IsSynced hashing keys b
      → Ends hashing keys (run_targets hashing outside keys results index targets groups b)
  unfolding run_targets
  run_targets-Ends outside results index [] groups b h r l y = pure-Ends hashing keys groups b h r y
  run_targets-Ends outside results index (t ∷ ts) groups b h r l y =
      visit-Ends results t ts (run_targets hashing outside keys results (suc index) ts) groups
        outside index b (IsNext-tail h r l) y (run_targets-Ends outside results (suc index) ts)
        (lookup (target_key hashing t) results) l.prior.0
