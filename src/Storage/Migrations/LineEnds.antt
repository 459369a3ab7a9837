-- ===== src/Storage/Migrations/LineEnds.antt =====
-- `_migration_checksum` of storage/database.py and the line ends of a migration's file.
use fb_scraper.Prelude.{
  ◌≡◌, refl, arith, false, [], ◌∷◌, Text, nat_eq, ◌==◌, contains, some, if◌then◌else◌,
}
use fb_scraper.Storage.MigrationFiles.{Engine, replace_crlf, replace_cr, migration_checksum}

-- A text with `\r\n` for each `\n`
abbrev pub with_crlf : Text → Text
with_crlf [] = []
with_crlf (c ∷ s) = let rest = with_crlf s in if c == 10 then 13 ∷ c ∷ rest else c ∷ rest

-- `\r` does not occur.
abbrev pub IsPlain : Text → Type 0
IsPlain s = contains s 13 ≡ false

replace_cr-plain : (s : Text) → IsPlain s → replace_cr s ≡ s
unfolding replace_cr
replace_cr-plain [] h = refl
replace_cr-plain (c ∷ s) h = ground (arith, h, replace_cr-plain s)

replace_crlf-plain : (s : Text) → IsPlain s → replace_crlf false s ≡ s
unfolding replace_crlf
replace_crlf-plain [] h = refl
replace_crlf-plain (c ∷ s) h = ground (arith, h, replace_crlf-plain s)

replace_crlf-with_crlf : (s : Text) → IsPlain s → replace_crlf false (with_crlf s) ≡ s
unfolding replace_crlf
replace_crlf-with_crlf [] h = refl
replace_crlf-with_crlf (c ∷ s) h = ground (arith, h, replace_crlf-with_crlf s)

module _ {D : Type 0} (engine : Engine D) where
  -- For a text without carriage returns, a file that decodes to it and a file that decodes to it
  -- with \r\n for each \n have the same checksum.
  pub checksum-with_crlf :
      (unix windows s : Text)
      → IsPlain s
      → engine.decode unix ≡ some s
      → engine.decode windows ≡ some (with_crlf s)
      → migration_checksum engine windows ≡ migration_checksum engine unix
  unfolding migration_checksum
  checksum-with_crlf unix windows s h p q =
      rw (migration_checksum, p, q, replace_crlf-with_crlf s h, replace_crlf-plain s h) refl
