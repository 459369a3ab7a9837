-- ===== src/Workflows/OperatorBatch/Ready.antt =====
-- The condition under which the loop of an operator batch goes on, and how one step keeps it.
use fb_scraper.Prelude.{
  ◌≡◌, ◌≢◌, ◌∙◌, refl, arith, Bool, true, false, not, ◌&&◌, ◌||◌, some, List, [], ◌∷◌, ◌++◌, map,
  Text, text_eq, ◌==◌, contains, all, All,
}
use fb_scraper.Prelude.Dict.{Dict, lookup, insert, lookup-insert}
use fb_scraper.Prelude.Sets.{has_duplicates}
use fb_scraper.Workflows.OperatorBatch.{Target, GroupResult, Hashing, target_key}
use fb_scraper.Workflows.OperatorBatch.Resume.{Batch, is_evidenced}
use fb_scraper.Workflows.OperatorBatch.Restored.{IsClean-insert}
use fb_scraper.Workflows.OperatorBatch.Accepted.{IsRecorded, IsSaved}

abbrev pub group_keys : List GroupResult → List Text
group_keys groups = map (λ (g : GroupResult). g.target_key) groups

all-snoc :
    (p : GroupResult → Bool) (groups : List GroupResult) (g : GroupResult)
    → all p (groups ++ (g ∷ [])) ≡ (all p groups && p g)
all-snoc p [] g = ground arith
all-snoc p (x ∷ xs) g = ground (arith, all-snoc p xs g)

contains-snoc :
    (groups : List GroupResult) (g : GroupResult) (key : Text)
    → contains (group_keys (groups ++ (g ∷ []))) key
      ≡ (contains (group_keys groups) key || (key == g.target_key))
contains-snoc [] g key = ground arith
contains-snoc (x ∷ xs) g key = ground (arith, contains-snoc xs g key)

duplicates-snoc :
    (groups : List GroupResult) (g : GroupResult)
    → has_duplicates (group_keys groups) ≡ false
    → contains (group_keys groups) g.target_key ≡ false
    → has_duplicates (group_keys (groups ++ (g ∷ []))) ≡ false
duplicates-snoc [] g h n = refl
duplicates-snoc (x ∷ xs) g h n =
    ground (arith, duplicates-snoc xs g, contains-snoc xs g x.target_key)

module _ (hashing : Hashing) where
  evidenced-insert :
      (values : Dict Text (List Text)) (key : Text) (ids : List Text) (groups : List GroupResult)
      → contains (group_keys groups) key ≡ false
      → all (is_evidenced hashing values) groups ≡ true
      → all (is_evidenced hashing (insert key ids values)) groups ≡ true
  evidenced-insert values key ids [] n h = refl
  evidenced-insert values key ids (g ∷ gs) n h =
      ground (arith, evidenced-insert values key ids gs, lookup-insert g.target_key key ids values)

  evidenced-insert_ne :
      (values : Dict Text (List Text)) (key : Text) (ids : List Text) (r : GroupResult)
      → key ≢ r.target_key
      → is_evidenced hashing values r ≡ true
      → is_evidenced hashing (insert key ids values) r ≡ true
  evidenced-insert_ne values key ids r n h =
      ground (arith, evidenced-insert values key ids (r ∷ []))

  pub IsRecorded-insert :
      (keys : List Text) (groups : List GroupResult) (values : Dict Text (List Text)) (key : Text)
      (ids : List Text)
      → has_duplicates ids ≡ false
      → contains (group_keys groups) key ≡ false
      → IsRecorded hashing keys groups values
      → IsRecorded hashing keys groups (insert key ids values)
  IsRecorded-insert keys groups values key ids d n r = record {
    known = r.known;
    once = r.once;
    evidenced = evidenced-insert values key ids groups n r.evidenced;
    clean = IsClean-insert values key ids d r.clean;
  }

  pub IsRecorded-snoc :
      (keys : List Text) (groups : List GroupResult) (values : Dict Text (List Text))
      (g : GroupResult)
      → contains keys g.target_key ≡ true
      → contains (group_keys groups) g.target_key ≡ false
      → is_evidenced hashing values g ≡ true
      → IsRecorded hashing keys groups values
      → IsRecorded hashing keys (groups ++ (g ∷ [])) values
  IsRecorded-snoc keys groups values g k n e r = record {
    known = all-snoc (λ x. contains keys x.target_key) groups g ∙ ground (arith, r.known);
    once = duplicates-snoc groups g r.once n;
    evidenced = all-snoc (is_evidenced hashing values) groups g ∙ ground (arith, r.evidenced);
    clean = r.clean;
  }

  -- A resume accepts the files of the batch.
  pub record IsResumable {W : Type 0} (keys : List Text) (b : Batch W) : Type 0 where
    pub groups : List GroupResult
    pub values : Dict Text (List Text)
    pub recorded : IsRecorded hashing keys groups values
    pub saved : IsSaved hashing keys groups values b

  -- The earlier result of a target is its own, with its identifiers.
  abbrev pub IsPrior : Dict Text GroupResult → Dict Text (List Text) → Target → Type 0
  IsPrior results values t =
      (r : GroupResult)
      → lookup (target_key hashing t) results ≡ some r
      → (r.target_key ≡ target_key hashing t) × (is_evidenced hashing values r ≡ true)

  -- What the loop has of the targets that are left
  pub record AreLeft (keys : List Text) (results : Dict Text GroupResult)
      (values : Dict Text (List Text)) (groups : List GroupResult) (targets : List Target)
      : Type 0 where
    pub known : all (λ t. contains keys (target_key hashing t)) targets ≡ true
    pub once : has_duplicates (map (target_key hashing) targets) ≡ false
    pub apart : all (λ t. not (contains (group_keys groups) (target_key hashing t))) targets ≡ true
    pub prior : All (IsPrior results values) targets

  apart-snoc :
      (groups : List GroupResult) (g : GroupResult) (targets : List Target)
      → all (λ t. not (contains (group_keys groups) (target_key hashing t))) targets ≡ true
      → contains (map (target_key hashing) targets) g.target_key ≡ false
      → all (λ t. not (contains (group_keys (groups ++ (g ∷ []))) (target_key hashing t))) targets
        ≡ true
  apart-snoc groups g [] h n = refl
  apart-snoc groups g (t ∷ ts) h n =
      ground (arith, apart-snoc groups g ts, contains-snoc groups g (target_key hashing t))

  IsPrior-insert :
      (results : Dict Text GroupResult) (values : Dict Text (List Text)) (key : Text)
      (ids : List Text) (targets : List Target)
      → contains (map (target_key hashing) targets) key ≡ false
      → All (IsPrior results values) targets
      → All (IsPrior results (insert key ids values)) targets
  IsPrior-insert results values key ids [] n h = tt
  IsPrior-insert results values key ids (t ∷ ts) n (p, ps) = (
    (λ r h. (
      (p r h).0,
      evidenced-insert_ne values key ids r (λ q. ground (arith, q ∙ (p r h).0)) (p r h).1,
    )),
    IsPrior-insert results values key ids ts (ground arith) ps,
  )

  pub AreLeft-tail :
      (keys : List Text) (results : Dict Text GroupResult) (values : Dict Text (List Text))
      (groups : List GroupResult) (t : Target) (ts : List Target)
      → AreLeft keys results values groups (t ∷ ts)
      → AreLeft keys results values groups ts
  AreLeft-tail keys results values groups t ts l = record {
    known = ground (arith, l.known);
    once = ground (arith, l.once);
    apart = ground (arith, l.apart);
    prior = l.prior.1;
  }

  -- The next target is one of the batch, without a result, and not among the later ones.
  pub next_known :
      (keys : List Text) (results : Dict Text GroupResult) (values : Dict Text (List Text))
      (groups : List GroupResult) (t : Target) (ts : List Target)
      → AreLeft keys results values groups (t ∷ ts)
      → (contains keys (target_key hashing t) ≡ true)
        × (contains (group_keys groups) (target_key hashing t) ≡ false)
        × (contains (map (target_key hashing) ts) (target_key hashing t) ≡ false)
  next_known keys results values groups t ts l =
      (ground (arith, l.known), ground (arith, l.apart), ground (arith, l.once))

  pub AreLeft-snoc :
      (keys : List Text) (results : Dict Text GroupResult) (values : Dict Text (List Text))
      (groups : List GroupResult) (g : GroupResult) (ts : List Target)
      → contains (map (target_key hashing) ts) g.target_key ≡ false
      → AreLeft keys results values groups ts
      → AreLeft keys results values (groups ++ (g ∷ [])) ts
  AreLeft-snoc keys results values groups g ts n l = record {
    known = l.known;
    once = l.once;
    apart = apart-snoc groups g ts l.apart n;
    prior = l.prior;
  }

  pub AreLeft-insert :
      (keys : List Text) (results : Dict Text GroupResult) (values : Dict Text (List Text))
      (groups : List GroupResult) (ts : List Target) (key : Text) (ids : List Text)
      → contains (map (target_key hashing) ts) key ≡ false
      → AreLeft keys results values groups ts
      → AreLeft keys results (insert key ids values) groups ts
  AreLeft-insert keys results values groups ts key ids n l = record {
    known = l.known;
    once = l.once;
    apart = l.apart;
    prior = IsPrior-insert results values key ids ts n l.prior;
  }
