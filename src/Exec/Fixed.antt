-- ===== src/Exec/Fixed.antt =====
-- Actions that leave a part of the state as it is.
use fb_scraper.Prelude.{◌≡◌, ◌∙◌, refl}
use fb_scraper.Exec.{Exec, modify}
use fb_scraper.Exec.Steps.{IsPreorder, Steps}

module _ {S X : Type 0} (f : S → X) where
  -- The part has not changed.
  pub record Fixes (s t : S) : Type 0 where
    pub same : f t ≡ f s

  pub Fixes-preorder : IsPreorder Fixes
  Fixes-preorder = record {
    rfl = λ s. record { same = refl };
    trans = λ s t u p q. record { same = q.same ∙ p.same };
  }

  pub modify-Fixes : (g : S → S) → ((s : S) → f (g s) ≡ f s) → Steps Fixes (modify g)
  modify-Fixes g h = record { at = λ s. record { same = h s } }

module _ {S A : Type 0} {P Q : S → S → Type 0} where
  -- Two guarantees of one action, as one.
  pub Steps-both :
      {R : S → S → Type 0} (m : Exec S A)
      → ((s t : S) → P s t → Q s t → R s t)
      → Steps P m
      → Steps Q m
      → Steps R m
  Steps-both m f p q = record { at = λ s. f s (m s).1 (p.at s) (q.at s) }
