-- ===== src/JoinGuard/Budget.antt =====
-- What a guard grants over a sequence of requests, whose exceptions the caller catches.
use fb_scraper.Prelude.{
  suc, ◌+◌, ◌≤◌, ◌<◌, ◌≡◌, refl, ap, arith, false, List, [], ◌∷◌, text_eq, nat_eq, contains, length,
}
use fb_scraper.Errors.{Error, Result, ok, err}
use fb_scraper.JoinGuard.{Policy, ReservedJoinAction, Guard, Request, reserve}

module _ {P : Type 0} where
  -- The actions of the requests that returned
  abbrev pub collect :
      Result (ReservedJoinAction P) → List (ReservedJoinAction P) → List (ReservedJoinAction P)
  collect (ok action) rest = action ∷ rest
  collect (err e) rest = rest

  abbrev pub granted : Policy P → List Request → Guard → List (ReservedJoinAction P)
  granted policy [] g = []
  granted policy (r ∷ rs) g =
      collect (reserve policy r g).0 (granted policy rs (reserve policy r g).1)

  reserve_ok :
      (policy : Policy P) (r : Request) (g : Guard) {action : ReservedJoinAction P}
      → (reserve policy r g).0 ≡ ok action
      → (g.actions_reserved < policy.max_actions_per_run)
        × ((reserve policy r g).1.actions_reserved ≡ suc g.actions_reserved)
        × (contains g.attempted_group_ids action.group_id ≡ false)
        × ((reserve policy r g).1.attempted_group_ids ≡ action.group_id ∷ g.attempted_group_ids)
  unfolding reserve
  reserve_ok policy r g h = (ground arith, ground arith, ground arith, ground arith)

  reserve_err :
      (policy : Policy P) (r : Request) (g : Guard) {e : Error}
      → (reserve policy r g).0 ≡ err e
      → (reserve policy r g).1 ≡ g
  unfolding reserve
  reserve_err policy r g h = ground arith

  granted_step :
      (policy : Policy P) (r : Request) (rs : List Request) (g : Guard)
      (o : Result (ReservedJoinAction P))
      → (reserve policy r g).0 ≡ o
      → g.actions_reserved ≤ policy.max_actions_per_run
      → (((reserve policy r g).1.actions_reserved ≤ policy.max_actions_per_run)
          → length (granted policy rs (reserve policy r g).1)
              + (reserve policy r g).1.actions_reserved
            ≤ policy.max_actions_per_run)
      → length (collect o (granted policy rs (reserve policy r g).1)) + g.actions_reserved
        ≤ policy.max_actions_per_run
  granted_step policy r rs g (ok action) e b ih =
      let (under, count, _, _) = reserve_ok policy r g e in
      omega (arith, ih (omega (arith, count, under)), count)
  granted_step policy r rs g (err x) e b ih =
      let same = ap (λ (g' : Guard). g'.actions_reserved) (reserve_err policy r g e) in
      omega (arith, ih (omega (arith, same, b)), same)

  -- The actions that a guard grants, with those that it has granted before, are at most as many as
  -- the policy allows in a run, whatever is requested.
  pub length-granted :
      (policy : Policy P) (rs : List Request) (g : Guard)
      → g.actions_reserved ≤ policy.max_actions_per_run
      → length (granted policy rs g) + g.actions_reserved ≤ policy.max_actions_per_run
  length-granted policy [] g b = omega (arith, b)
  length-granted policy (r ∷ rs) g b =
      granted_step policy r rs g (reserve policy r g).0 refl b
        (length-granted policy rs (reserve policy r g).1)
