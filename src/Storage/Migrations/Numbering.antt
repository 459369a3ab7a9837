-- ===== src/Storage/Migrations/Numbering.antt =====
-- The versions of the migrations of storage/database.py, and the tests on them.
use fb_scraper.Prelude.{
  ℕ, zero, suc, ◌+◌, ◌≤◌, ◌<◌, ◌≡◌, inl, inr, refl, sym, ◌∙◌, subst, arith, true, some, List, [],
  ◌∷◌, ◌++◌, map, length, text_eq, nat_eq, All, text_leb, contains, Bool-cases,
}
use fb_scraper.Prelude.Dict.{lookup}
use fb_scraper.Errors.{ok}
use fb_scraper.Exec.Inversion.{Result-cases}
use fb_scraper.Prelude.Sort.{sorted}
use fb_scraper.Storage.MigrationFiles.{
  Directory, Engine, Migration, available, range, same_numbers, last_or, repeats, check_versions,
  read_names, migration_files,
}
use fb_scraper.Storage.Migrations.{Row, apply_migrations}
use fb_scraper.Storage.Migrations.Checked.{Numbered, IsUpTo, Recorded}

same_numbers-Numbered :
    (k count : ℕ) (ms : List Migration)
    → same_numbers (map (λ m. m.version) ms) (range (suc k) count) ≡ true
    → Numbered k ms
same_numbers-Numbered k count [] h = tt
same_numbers-Numbered k zero (m ∷ ms) h = absurd cc
same_numbers-Numbered k (suc count) (m ∷ ms) h =
    (ground (arith, h), same_numbers-Numbered (suc k) count ms (ground (arith, h)))

check_versions-Numbered :
    (ms files : List Migration) → check_versions ms ≡ ok files → Numbered 0 files
unfolding check_versions
check_versions-Numbered ms files h =
    let versions = map (λ m. m.version) ms in
    elim (Bool-cases (repeats versions)) [
      | inl p ↦ absurd (ground (arith, h, p))
      | inr p ↦ elim (Bool-cases (same_numbers versions (range 1 (last_or 0 versions)))) [
        | inl q ↦
            subst (Numbered 0) (ground (arith, h, p, q))
              (same_numbers-Numbered 0 (last_or 0 versions) ms q)
        | inr q ↦ absurd (ground (arith, h, p, q))
      ]
    ]

-- A version above `k` that a part of the files gives
abbrev Above : ℕ → List Migration → Migration → Type 0
Above k found m = (k < m.version) × (lookup m.version (available found) ≡ some m)

Above-cons :
    (k : ℕ) (head : Migration) (found ms : List Migration)
    → head.version ≡ suc k
    → All (Above (suc k) found) ms
    → All (Above k (head ∷ found)) ms
unfolding lookup
Above-cons k head found [] p h = tt
Above-cons k head found (m ∷ ms) p ((q, l), h) =
    ((omega (arith, q), ground (arith, p, q, l)), Above-cons k head found ms p h)

pub Numbered-Above : (k : ℕ) (ms : List Migration) → Numbered k ms → All (Above k ms) ms
unfolding lookup
Numbered-Above k [] n = tt
Numbered-Above k (m ∷ ms) (p, n) =
    ((omega (arith, p), ground arith), Above-cons k m ms ms p (Numbered-Above (suc k) ms n))

pub found_of :
    (k : ℕ) (files ms : List Migration)
    → All (Above k files) ms
    → All (λ m. lookup m.version (available files) ≡ some m) ms
found_of k files [] h = tt
found_of k files (m ∷ ms) ((p, l), h) = (l, found_of k files ms h)

pub All-first : {A : Type 0} (P : A → Type 0) (xs ys : List A) → All P (xs ++ ys) → All P xs
All-first P [] ys h = tt
All-first P (x ∷ xs) ys (p, h) = (p, All-first P xs ys h)

pub Numbered-split :
    (k : ℕ) (xs ys : List Migration)
    → Numbered k (xs ++ ys)
    → Numbered k xs × Numbered (k + length xs) ys
Numbered-split k [] ys n = (tt, subst (λ j. Numbered j ys) (omega arith) n)
Numbered-split k (x ∷ xs) ys (p, n) =
    let (first, second) = Numbered-split (suc k) xs ys n in
    ((p, first), subst (λ j. Numbered j ys) (omega arith) second)

pub versions_up_to :
    (k : ℕ) (ms : List Migration)
    → Numbered k ms
    → All (λ v. v ≤ k + length ms) (map (λ m. m.version) ms)
versions_up_to k [] n = tt
versions_up_to k (m ∷ ms) (p, n) = (
  omega (arith, p),
  subst (λ j. All (λ v. v ≤ j) (map (λ m. m.version) ms)) (omega arith)
      (versions_up_to (suc k) ms n),
)

contains_more :
    (v : ℕ) (vs : List ℕ) (ms : List Migration)
    → All (λ m. contains vs m.version ≡ true) ms
    → All (λ m. contains (v ∷ vs) m.version ≡ true) ms
contains_more v vs [] h = tt
contains_more v vs (m ∷ ms) (p, h) = (ground (arith, p), contains_more v vs ms h)

pub contains-All :
    (ms : List Migration) → All (λ m. contains (map (λ m. m.version) ms) m.version ≡ true) ms
contains-All [] = tt
contains-All (m ∷ ms) =
    (ground arith, contains_more m.version (map (λ m. m.version) ms) ms (contains-All ms))

module _ {D : Type 0} (engine : Engine D) where
  pub rows-IsUpTo :
      (k : ℕ) (ms : List Migration) (rows : List Row)
      → Numbered k ms
      → Recorded engine ms rows
      → All (IsUpTo (k + length ms)) rows
  rows-IsUpTo k [] [] n r = tt
  rows-IsUpTo k [] (row ∷ rows) n r = absurd r
  rows-IsUpTo k (m ∷ ms) [] n r = absurd r
  rows-IsUpTo k (m ∷ ms) (row ∷ rows) (p, n) (r, rs) = (
    omega (arith, p, r.version),
    subst (λ j. All (IsUpTo j) rows) (omega arith) (rows-IsUpTo (suc k) ms rows n rs),
  )

  -- The migrations that are recorded are passed over.
  pub skip :
      (applied : List ℕ) (ms left : List Migration)
      → All (λ m. contains applied m.version ≡ true) ms
      → apply_migrations engine applied (ms ++ left) ≡ apply_migrations engine applied left
  unfolding apply_migrations
  skip applied [] left h = refl
  skip applied (m ∷ ms) left (p, h) = rw p (skip applied ms left h)

  -- The versions of the files go up from 1 when their names are accepted.
  pub migration_files-Numbered :
      (directory : Directory) (files : List Migration)
      → migration_files engine directory ≡ ok files
      → Numbered 0 files
  unfolding migration_files
  migration_files-Numbered directory files h =
      let names = sorted text_leb directory.names in
      elim (Bool-cases directory.is_dir) [
        | inr p ↦ absurd (ground (arith, h, p))
        | inl p ↦ elim (Result-cases (read_names engine directory names)) [
          | inr (e, q) ↦ absurd (ground (arith, h, p, q))
          | inl (ms, q) ↦ check_versions-Numbered ms files (sym (rw (p, q) refl) ∙ h)
        ]
      ]
