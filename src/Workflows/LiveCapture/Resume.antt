-- ===== src/Workflows/LiveCapture/Resume.antt =====
-- A checkpoint is where a resumed run goes on.
use fb_scraper.Prelude.{
  ℕ, ◌<◌, ◌≡◌, ◌∙◌, refl, ap, Bool, true, false, Option, none, some, List, [], ◌∷◌, ◌++◌, Text,
  text_eq, nat_eq, ◌==◌, All, leb, filter, last?, arith, if◌then◌else◌,
}
use fb_scraper.Prelude.Sort.{sorted, insert}
use fb_scraper.Errors.{ok}
use fb_scraper.Storage.Tables.{CheckpointRow, Database}
use fb_scraper.Platform.{Platform}
use fb_scraper.Workflows.LiveCapture.Checkpoints.{
  cursors, position_at, ordered_rows, resume_position, upsert, checkpoint_row, checkpoint,
}

-- The number comes after those of the job's rows.
abbrev pub IsNext : Text → ℕ → List CheckpointRow → Type 0
IsNext job_id n rows = All (λ row. row.task_id ≡ job_id → row.interaction_number < n) rows

abbrev by_number : CheckpointRow → CheckpointRow → Bool
by_number a b = leb a.interaction_number b.interaction_number

upsert_next :
    (new : CheckpointRow) (rows : List CheckpointRow)
    → IsNext new.task_id new.interaction_number rows
    → upsert new rows ≡ rows ++ (new ∷ [])
unfolding upsert
upsert_next new [] h = refl
upsert_next new (row ∷ rows) (h, hs) = ground (arith, upsert_next new rows hs)

filter-append :
    (p : CheckpointRow → Bool) (rows more : List CheckpointRow)
    → filter p (rows ++ more) ≡ filter p rows ++ filter p more
filter-append p [] more = refl
filter-append p (row ∷ rows) more = ground (arith, filter-append p rows more)

abbrev IsBelow : ℕ → List CheckpointRow → Type 0
IsBelow n rows = All (λ row. row.interaction_number < n) rows

kept-IsBelow :
    (b : Bool) (n : ℕ) (row : CheckpointRow) (rows : List CheckpointRow)
    → (b ≡ true → row.interaction_number < n)
    → IsBelow n rows
    → IsBelow n (if b then row ∷ rows else rows)
kept-IsBelow true n row rows h hs = (h refl, hs)
kept-IsBelow false n row rows h hs = hs

filter-IsBelow :
    (job_id : Text) (n : ℕ) (rows : List CheckpointRow)
    → IsNext job_id n rows
    → IsBelow n (filter (λ row. row.task_id == job_id) rows)
filter-IsBelow job_id n [] h = tt
filter-IsBelow job_id n (row ∷ rows) (h, hs) =
    kept-IsBelow (row.task_id == job_id) n row _ (λ p. h (ground arith))
      (filter-IsBelow job_id n rows hs)

insert-last :
    (row new : CheckpointRow) (rows : List CheckpointRow)
    → row.interaction_number < new.interaction_number
    → insert by_number row (rows ++ (new ∷ [])) ≡ insert by_number row rows ++ (new ∷ [])
unfolding insert
insert-last row new [] h = ground arith
insert-last row new (r ∷ rows) h = ground (arith, insert-last row new rows h)

sorted-last :
    (new : CheckpointRow) (rows : List CheckpointRow)
    → IsBelow new.interaction_number rows
    → sorted by_number (rows ++ (new ∷ [])) ≡ sorted by_number rows ++ (new ∷ [])
unfolding sorted insert
sorted-last new [] h = refl
sorted-last new (row ∷ rows) (h, hs) =
    ap (insert by_number row) (sorted-last new rows hs)
    ∙ insert-last row new (sorted by_number rows) h

last-append :
    (rows : List CheckpointRow) (new : CheckpointRow) → last? (rows ++ (new ∷ [])) ≡ some new
last-append [] new = refl
last-append (a ∷ []) new = refl
last-append (a ∷ b ∷ rows) new = last-append (b ∷ rows) new

cursors-cons :
    (o : Option Text) (front back : List Text)
    → (elim o [ none ↦ front ++ back | some c ↦ c ∷ (front ++ back) ])
      ≡ (elim o [ none ↦ front | some c ↦ c ∷ front ]) ++ back
cursors-cons none front back = refl
cursors-cons (some c) front back = refl

cursors-append :
    (rows more : List CheckpointRow) → cursors (rows ++ more) ≡ cursors rows ++ cursors more
cursors-append [] more = refl
cursors-append (row ∷ rows) more =
    ap (λ (x : List Text). elim row.cursor [ none ↦ x | some c ↦ c ∷ x ]) (cursors-append rows more)
    ∙ cursors-cons row.cursor (cursors rows) (cursors more)

ordered_rows-next :
    (new : CheckpointRow) (rows : List CheckpointRow)
    → IsNext new.task_id new.interaction_number rows
    → ordered_rows new.task_id (upsert new rows) ≡ ordered_rows new.task_id rows ++ (new ∷ [])
unfolding ordered_rows
ordered_rows-next new rows h =
    ap (λ l. sorted by_number (filter (λ row. row.task_id == new.task_id) l))
      (upsert_next new rows h)
    ∙ ap (sorted by_number)
        (filter-append (λ row. row.task_id == new.task_id) rows (new ∷ []) ∙ ground arith)
    ∙ sorted-last new (filter (λ row. row.task_id == new.task_id) rows) (filter-IsBelow _ _ rows h)

last_some :
    (a : CheckpointRow) (rows : List CheckpointRow)
    → (l : CheckpointRow) × (last? (a ∷ rows) ≡ some l)
last_some a [] = (a, refl)
last_some a (b ∷ rows) = last_some b rows

seen_at : (rows : List CheckpointRow) → (position_at rows (last? rows)).seen_cursors ≡ cursors rows
seen_at [] = refl
seen_at (a ∷ rows) = let (l, e) = last_some a rows in rw e refl

-- A cursor as the cursors that it adds
abbrev pub added : Option Text → List Text
added none = []
added (some c) = c ∷ []

module _ (platform : Platform) (job_id capture_id : Text) (cursor : Option Text) (n : ℕ)
    (db : Database) where
  checkpoint_ok :
      (checkpoint platform job_id capture_id cursor n db).0 ≡ ok tt
      → (checkpoint platform job_id capture_id cursor n db).1 ≡ record db {
        checkpoints = upsert (checkpoint_row platform job_id capture_id cursor n) db.checkpoints;
      }
  unfolding checkpoint
  checkpoint_ok h = ground arith

  -- When a checkpoint returns whose number comes after those of the job's earlier ones, a run that
  -- starts then goes on from its cursor and its number, and has seen the cursors of before and
  -- that of the checkpoint, if it has one.
  pub resume_position-checkpoint :
      IsNext job_id n db.checkpoints
      → (checkpoint platform job_id capture_id cursor n db).0 ≡ ok tt
      → resume_position job_id (checkpoint platform job_id capture_id cursor n db).1 ≡ record {
        cursor = cursor;
        pages_completed = n;
        seen_cursors = (resume_position job_id db).seen_cursors ++ added cursor;
      }
  unfolding resume_position
  resume_position-checkpoint next h =
      let new = checkpoint_row platform job_id capture_id cursor n in
      let rows = ordered_rows job_id db.checkpoints in
      rw
        (
          checkpoint_ok h,
          ordered_rows-next new db.checkpoints next,
          last-append rows new,
          seen_at rows,
          cursors-append rows (new ∷ []),
        )
        refl
