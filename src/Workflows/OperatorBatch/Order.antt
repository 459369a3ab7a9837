-- ===== src/Workflows/OperatorBatch/Order.antt =====
-- The results of a run stand in the order of the queue, and end at the first group that stopped.
use fb_scraper.Prelude.{
  ℕ, suc, ◌≡◌, ◌∙◌, refl, sym, subst, ap, arith, Bool, true, false, Option, none, some, List, [],
  ◌∷◌, ◌++◌, any, Text, text_eq,
}
use fb_scraper.Prelude.Dict.{Dict, lookup}
use fb_scraper.Errors.{ok}
use fb_scraper.Exec.{Exec, pure}
use fb_scraper.Exec.Inversion.{ok_injective}
use fb_scraper.Workflows.OperatorBatch.{
  Target, GroupState, succeeded, incomplete, failed, stopped, is_stopped, GroupResult, Hashing,
  target_key, success, terminal,
}
use fb_scraper.Workflows.OperatorBatch.Resume.{
  Batch, write_progress, write_receipt, write_identifier_state,
}
use fb_scraper.Workflows.OperatorBatch.Run.{
  Outcome, captured, interrupt, batch_stop, browser_state, unsupported_layout, recoverable, other,
  Outside, plan, plan_on, append, keep_identifiers, settle_outcome, visit, run_targets,
}

abbrev pub has_stopped : List GroupResult → Bool
has_stopped groups = any (λ (g : GroupResult). is_stopped g.state) groups

-- The groups that are added to those before: the next targets in order, one result for each; only
-- the last one may have stopped, and without one that stopped the targets are all there.
pub data Queued (hashing : Hashing) : List Target → List GroupResult → Type 0 where
  done : Queued hashing [] []
  one :
      (t : Target) (ts : List Target) (g : GroupResult) (gs : List GroupResult)
      → g.target_key ≡ target_key hashing t
      → is_stopped g.state ≡ false
      → Queued hashing ts gs
      → Queued hashing (t ∷ ts) (g ∷ gs)
  last :
      (t : Target) (ts : List Target) (g : GroupResult)
      → g.target_key ≡ target_key hashing t
      → is_stopped g.state ≡ true
      → Queued hashing (t ∷ ts) (g ∷ [])

module _ (hashing : Hashing) where
  -- The results after those that the loop had
  pub record Adds (ts : List Target) (before after : List GroupResult) : Type 0 where
    pub added : List GroupResult
    pub joined : after ≡ before ++ added
    pub queued : Queued hashing ts added

  assoc : (xs ys : List GroupResult) (g : GroupResult) → (xs ++ (g ∷ [])) ++ ys ≡ xs ++ (g ∷ ys)
  assoc [] ys g = refl
  assoc (x ∷ xs) ys g = ground (arith, assoc xs ys g)

  Adds-one :
      (t : Target) (ts : List Target) (g : GroupResult) (before after : List GroupResult)
      → g.target_key ≡ target_key hashing t
      → is_stopped g.state ≡ false
      → Adds ts (before ++ (g ∷ [])) after
      → Adds (t ∷ ts) before after
  Adds-one t ts g before after p s a = record {
    added = g ∷ a.added;
    joined = a.joined ∙ assoc before a.added g;
    queued = one t ts g a.added p s a.queued;
  }

  Adds-last :
      (t : Target) (ts : List Target) (g : GroupResult) (before : List GroupResult)
      → g.target_key ≡ target_key hashing t
      → is_stopped g.state ≡ true
      → Adds (t ∷ ts) before (before ++ (g ∷ []))
  Adds-last t ts g before p s = record { added = g ∷ []; joined = refl; queued = last t ts g p s }

module _ (hashing : Hashing) {W : Type 0} where
  -- What a part of the loop returns continues the queue.
  abbrev Continues : List Target → List GroupResult → Exec (Batch W) (List GroupResult) → Type 0
  Continues ts before m =
      (b : Batch W) (after : List GroupResult) → (m b).0 ≡ ok after → Adds hashing ts before after

  module _ (keys : List Text) (groups : List GroupResult) (t : Target) (ts : List Target)
      (follow : List GroupResult → Exec (Batch W) (List GroupResult))
      (h : (gs : List GroupResult) → Continues ts gs (follow gs)) where
    go_on :
        (g : GroupResult) (b : Batch W) (after : List GroupResult)
        → g.target_key ≡ target_key hashing t
        → is_stopped g.state ≡ false
        → (append hashing keys groups g follow b).0 ≡ ok after
        → Adds hashing (t ∷ ts) groups after
    unfolding append write_progress write_receipt write_identifier_state
    go_on g b after p s e =
        Adds-one hashing t ts g groups after p s (h (groups ++ (g ∷ [])) _ after e)

    end_here :
        (g : GroupResult) (b : Batch W) (after : List GroupResult)
        → g.target_key ≡ target_key hashing t
        → is_stopped g.state ≡ true
        → (append hashing keys groups g pure b).0 ≡ ok after
        → Adds hashing (t ∷ ts) groups after
    unfolding append write_progress write_receipt write_identifier_state
    end_here g b after p s e =
        subst (Adds hashing (t ∷ ts) groups) (ok_injective e) (Adds-last hashing t ts g groups p s)

    settle-Continues :
        (n d : ℕ) (outcome : Outcome)
        → Continues (t ∷ ts) groups (settle_outcome hashing keys groups t n d follow outcome)
    unfolding settle_outcome success terminal append write_progress write_receipt
        write_identifier_state
    settle-Continues n d (captured c) b after e =
        go_on (success hashing t c n d) (keep_identifiers hashing t c b) after refl refl e
    settle-Continues n d interrupt b after e = absurd cc
    settle-Continues n d (batch_stop name reason) b after e = end_here _ b after refl refl e
    settle-Continues n d (browser_state name failure_class) b after e =
        end_here _ b after refl refl e
    settle-Continues n d (unsupported_layout name) b after e = end_here _ b after refl refl e
    settle-Continues n d (recoverable name) b after e = go_on _ b after refl refl e
    settle-Continues n d (other name) b after e = go_on _ b after refl refl e

    module _ (outside : Outside W) (index : ℕ) where
      plan-Continues :
          (g : GroupResult)
          → g.target_key ≡ target_key hashing t
          → (st : GroupState) → g.state ≡ st
          → Continues
              (t ∷ ts)
              groups
              (visit hashing outside keys groups index t follow (plan_on st g))
      unfolding visit
      plan-Continues g p stopped q b after e =
          subst (Adds hashing (t ∷ ts) groups) (ok_injective e)
            (Adds-last hashing t ts g groups p (ap is_stopped q))
      plan-Continues g p incomplete q b after e = settle-Continues (suc g.attempts) _ _ _ after e
      plan-Continues g p succeeded q b after e =
          Adds-one hashing t ts g groups after p (ap is_stopped q)
            (h (groups ++ (g ∷ [])) b after e)
      plan-Continues g p failed q b after e =
          Adds-one hashing t ts g groups after p (ap is_stopped q)
            (h (groups ++ (g ∷ [])) b after e)

      visit-Continues :
          (o : Option GroupResult)
          → ((g : GroupResult) → o ≡ some g → g.target_key ≡ target_key hashing t)
          → Continues (t ∷ ts) groups (visit hashing outside keys groups index t follow (plan o))
      unfolding visit plan
      visit-Continues none p b after e = settle-Continues 1 _ _ _ after e
      visit-Continues (some g) p b after e = plan-Continues g (p g refl) g.state refl b after e

  -- Let every earlier result be that of the target by whose key it is found. When the loop over the
  -- targets that are left returns, it has added one result for each, in the order of the queue, up
  -- to the first group that stopped; with no such group every target has a result.
  pub run_targets-Queued :
      (outside : Outside W) (keys : List Text) (results : Dict Text GroupResult) (index : ℕ)
      (targets : List Target) (groups after : List GroupResult) (b : Batch W)
      → ((key : Text) (g : GroupResult) → lookup key results ≡ some g → g.target_key ≡ key)
      → (run_targets hashing outside keys results index targets groups b).0 ≡ ok after
      → Adds hashing targets groups after
  unfolding run_targets
  run_targets-Queued outside keys results index [] groups after b h e =
      subst (Adds hashing [] groups) (ok_injective e)
        (record { added = []; joined = sym (nil groups); queued = done })
    where
      nil : (gs : List GroupResult) → gs ++ [] ≡ gs
      nil [] = refl
      nil (g ∷ gs) = ap (λ xs. g ∷ xs) (nil gs)
  run_targets-Queued outside keys results index (t ∷ ts) groups after b h e =
      visit-Continues keys groups t ts (run_targets hashing outside keys results (suc index) ts)
        (λ gs c out q. run_targets-Queued outside keys results (suc index) ts gs out c h q) outside
        index (lookup (target_key hashing t) results) (h (target_key hashing t)) b after e
