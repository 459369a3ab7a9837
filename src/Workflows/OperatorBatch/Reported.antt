-- ===== src/Workflows/OperatorBatch/Reported.antt =====
-- The result that a run of an operator batch returns, fresh or resumed, on its queue.
use fb_scraper.Prelude.{
  ◌≡◌, ◌≢◌, ◌∙◌, ◌⊎◌, inl, inr, refl, sym, subst, ap, arith, Bool, true, false, Option, none, some,
  List, [], ◌∷◌, map, Text, text_eq, Text-cases, Option-cases,
}
use mathlib.Core.Option.{some-injective}
use fb_scraper.Prelude.Dict.{Dict, lookup, insert, lookup-nil, lookup-insert, lookup-insert_ne}
use fb_scraper.Errors.{Error, ok, value_error}
use fb_scraper.Exec.{Exec, pure, or_raise, on_error, continue, ◌>>=◌}
use fb_scraper.Exec.Inversion.{ok_injective, bind_ok}
use fb_scraper.Exec.Ensures.{Ensures, ensures_rules, handle_ok}
use fb_scraper.Json.{Json, Builtins}
use fb_scraper.Metrics.{TimerStart, start, baseline}
use fb_scraper.Workflows.OperatorBatch.{Target, GroupResult, Hashing, target_key, ordered_targets}
use fb_scraper.Workflows.OperatorBatch.Resume.{Batch, checked_group, previous_groups, previous}
use fb_scraper.Workflows.OperatorBatch.Results.{RunResult, Printing, conclude}
use fb_scraper.Workflows.OperatorBatch.Order.{Queued, run_targets-Queued}
use fb_scraper.Workflows.OperatorBatch.Run.{
  Outside, on_interrupt, run_targets, finish, run_queue, earlier, run,
}

-- Every result is found by its own key.
pub record IsKeyed (results : Dict Text GroupResult) : Type 0 where
  pub keyed : (key : Text) (g : GroupResult) → lookup key results ≡ some g → g.target_key ≡ key

IsKeyed-nil : IsKeyed []
IsKeyed-nil = record { keyed = λ k g h. absurd (ground (arith, h, lookup-nil {V = GroupResult} k)) }

IsKeyed-insert :
    (results : Dict Text GroupResult) (g : GroupResult)
    → IsKeyed results
    → IsKeyed (insert g.target_key g results)
IsKeyed-insert results g h = record { keyed = λ k r p. inserted k r p (Text-cases k g.target_key) }
  where
    inserted :
        (k : Text) (r : GroupResult)
        → lookup k (insert g.target_key g results) ≡ some r
        → (k ≡ g.target_key) ⊎ (k ≢ g.target_key)
        → r.target_key ≡ k
    inserted k r p (inl q) =
        ap (λ (x : GroupResult). x.target_key)
          (sym (some-injective g r (ground (arith, p, lookup-insert k g.target_key g results))))
        ∙ sym q
    inserted k r p (inr n) = h.keyed k r (sym (lookup-insert_ne k g.target_key g results n) ∙ p)

module _ (hashing : Hashing) (builtins : Builtins) where
  previous_groups-IsKeyed :
      (expected : List Text) (values : Dict Text (List Text)) (vs : List Json)
      (results out : Dict Text GroupResult)
      → previous_groups hashing builtins expected values vs results ≡ some out
      → IsKeyed results
      → IsKeyed out
  unfolding previous_groups
  previous_groups-IsKeyed expected values [] results out h k =
      subst IsKeyed (some-injective results out h) k
  previous_groups-IsKeyed expected values (v ∷ vs) results out h k =
      elim (Option-cases (checked_group hashing builtins expected values results v)) [
        | inl e ↦ absurd (ground (arith, e, h))
        | inr (g, e) ↦
            previous_groups-IsKeyed expected values vs (insert g.target_key g results) out
              (ground (arith, e, h)) (IsKeyed-insert results g k)
      ]

  or_raise-IsKeyed :
      {W : Type 0} (o : Option (Dict Text GroupResult)) (e : Error) (b : Batch W)
      (out : Dict Text GroupResult)
      → ((r : Dict Text GroupResult) → o ≡ some r → IsKeyed r)
      → (or_raise o e b).0 ≡ ok out
      → IsKeyed out
  or_raise-IsKeyed none e b out h p = absurd cc
  or_raise-IsKeyed (some r) e b out h p = subst IsKeyed (ok_injective p) (h r refl)

  accepted-IsKeyed :
      {W : Type 0} (expected : List Text) (values : Dict Text (List Text)) (vs : List Json)
      → Ensures {S = Batch W}
          (λ out b. IsKeyed out)
          (or_raise (previous_groups hashing builtins expected values vs []) value_error)
  accepted-IsKeyed expected values vs = record {
    at = λ b out p.
        or_raise-IsKeyed (previous_groups hashing builtins expected values vs []) value_error b out
          (λ r q. previous_groups-IsKeyed expected values vs [] r q IsKeyed-nil) p;
  }

  previous-IsKeyed :
      {W : Type 0} (expected : List Text)
      → Ensures {S = Batch W} (λ out b. IsKeyed out) (previous hashing builtins expected)
  unfolding previous
  previous-IsKeyed expected = search (ensures_rules, accepted-IsKeyed expected) depth 20

returned-groups :
    {W : Type 0} (r : RunResult)
    → Ensures {S = Batch W} (λ (x : RunResult) b. x.groups ≡ r.groups) (pure r)
returned-groups r = record { at = λ b x p. ap (λ (y : RunResult). y.groups) (sym (ok_injective p)) }

module _ (hashing : Hashing) (printing : Printing) {W : Type 0} (outside : Outside W) where
  finish-groups :
      (keys : List Text) (timer : TimerStart) (groups : List GroupResult)
      → Ensures
          (λ (r : RunResult) b. r.groups ≡ groups)
          (finish hashing printing outside keys timer groups)
  unfolding finish conclude
  finish-groups keys timer groups = search (ensures_rules, returned-groups) depth 20

  run_queue-Queued :
      (targets : List Target) (keys : List Text) (results : Dict Text GroupResult) (b : Batch W)
      (r : RunResult)
      → IsKeyed results
      → (run_queue hashing printing outside targets keys results b).0 ≡ ok r
      → Queued hashing targets r.groups
  unfolding run_queue start
  run_queue-Queued targets keys results b r k p =
      let timer = baseline outside.clocks b.world in
      let m = run_targets hashing outside keys results 0 targets [] in
      let (groups, q, same) =
        bind_ok (on_error m (on_interrupt outside timer))
          (finish hashing printing outside keys timer) b p in
      let (returned, _) = handle_ok (m b).0 (on_interrupt outside timer) (m b).1 groups q in
      let adds =
        run_targets-Queued hashing outside keys results 0 targets [] groups b k.keyed returned in
      subst (Queued hashing targets)
        (sym adds.joined
          ∙ sym ((finish-groups keys timer groups).at _ r (ap (λ x. x.0) (sym same) ∙ p)))
        adds.queued

module _ (hashing : Hashing) (builtins : Builtins) (printing : Printing) {W : Type 0}
    (outside : Outside W) where
  pure-IsKeyed : Ensures {S = Batch W} (λ (out : Dict Text GroupResult) b. IsKeyed out) (pure [])
  pure-IsKeyed = record { at = λ b out p. subst IsKeyed (ok_injective p) IsKeyed-nil }

  earlier-IsKeyed :
      (resume : Bool) (keys : List Text)
      → Ensures {S = Batch W} (λ out b. IsKeyed out) (earlier hashing builtins resume keys)
  unfolding earlier
  earlier-IsKeyed true keys = previous-IsKeyed hashing builtins keys
  earlier-IsKeyed false keys = search (ensures_rules, pure-IsKeyed) depth 8

  queued : Bool → List Target → Exec (Batch W) RunResult
  queued resume ts =
      earlier hashing builtins resume (map (target_key hashing) ts)
      >>= run_queue hashing printing outside ts (map (target_key hashing) ts)

  accepted :
      (values targets : List Target) (resume : Bool) (b : Batch W) (r : RunResult)
      → ordered_targets hashing values ≡ ok targets
      → (run hashing builtins printing outside values resume b).0 ≡ ok r
      → (queued resume targets b).0 ≡ ok r
  unfolding run queued
  accepted values targets resume b r e h = subst (λ y. (continue (queued resume) y b).0 ≡ ok r) e h

  -- Let the targets be accepted in this order. When a run returns, fresh or resumed, its result has
  -- one group for each target, in the order of the queue, up to the first group that stopped;
  -- only the last one may have stopped, and without it every target has its group.
  pub run-Queued :
      (values targets : List Target) (resume : Bool) (b : Batch W) (r : RunResult)
      → ordered_targets hashing values ≡ ok targets
      → (run hashing builtins printing outside values resume b).0 ≡ ok r
      → Queued hashing targets r.groups
  unfolding queued
  run-Queued values targets resume b r o p =
      let keys = map (target_key hashing) targets in
      let (results, q, same) =
        bind_ok (earlier hashing builtins resume keys)
          (run_queue hashing printing outside targets keys) b
          (accepted values targets resume b r o p) in
      run_queue-Queued hashing printing outside targets keys results _ r
        ((earlier-IsKeyed resume keys).at b results q)
        (ap (λ x. x.0) (sym same) ∙ accepted values targets resume b r o p)
