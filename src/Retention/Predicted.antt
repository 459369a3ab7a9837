-- ===== src/Retention/Predicted.antt =====
-- The dry runs of retention.py.
use fb_scraper.Prelude.{ℕ, refl, true, Option, Text}
use fb_scraper.Prelude.Dict.{Dict}
use fb_scraper.Exec.Steps.{Steps, Steps-bind, Steps-pure, steps_rules}
use fb_scraper.Exec.Fixed.{Fixes, Fixes-preorder, modify-Fixes}
use fb_scraper.Storage.Tables.{Database}
use fb_scraper.Retention.{CleanupReceipt, Store, record_receipt, clean_raw, clean_normalized, clean}

abbrev pub data_of : Store → Database × Dict Text Text
data_of s = (s.database, s.raw_files)

record_receipt-Fixes : (r : CleanupReceipt) → Steps (Fixes data_of) (record_receipt r)
unfolding record_receipt
record_receipt-Fixes r =
    Steps-bind (Fixes-preorder data_of) _ _ (modify-Fixes data_of _ (λ s. refl))
      (λ u. Steps-pure (Fixes-preorder data_of) r)

clean_normalized-Fixes : (cutoff : ℕ) → Steps (Fixes data_of) (clean_normalized cutoff true)
unfolding clean_normalized
clean_normalized-Fixes cutoff =
    search (steps_rules, Fixes-preorder data_of, record_receipt-Fixes) depth 10

module _ (raw_name : Text → Option Text) where
  clean_raw-Fixes : (cutoff : ℕ) → Steps (Fixes data_of) (clean_raw raw_name cutoff true)
  unfolding clean_raw
  clean_raw-Fixes cutoff =
      search (steps_rules, Fixes-preorder data_of, record_receipt-Fixes) depth 10

  -- A dry run of clean, whether it returns or raises, leaves the tables of records and the files
  -- of the raw directory as they were.
  pub clean-Fixes :
      (now : ℕ) (raw_older_than normalized_older_than : Text)
      → Steps (Fixes data_of) (clean raw_name now raw_older_than normalized_older_than true)
  unfolding clean
  clean-Fixes now a b =
      search (steps_rules, Fixes-preorder data_of, clean_raw-Fixes, clean_normalized-Fixes) depth 20
