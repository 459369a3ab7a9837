-- ===== src/Workflows/LiveCapture/Checkpoints.antt =====
-- `_resume_position` and `_checkpoint` of workflows/live_capture.py: where a resumed run goes on.
use fb_scraper.Prelude.{
  ℕ, Bool, not, ◌&&◌, Option, none, some, List, [], ◌∷◌, ◌++◌, Text, text, text_eq, nat_eq, ◌==◌,
  any, leb, filter, last?, if◌then◌else◌,
}
use fb_scraper.Prelude.Dict.{has}
use fb_scraper.Prelude.Sort.{sorted}
use fb_scraper.Errors.{integrity_error}
use fb_scraper.Exec.{Exec, gets, transaction, modify, raise_if, ◌>>=◌, ◌>>◌}
use fb_scraper.Storage.Tables.{CheckpointRow, Database}
use fb_scraper.Platform.{Platform}

-- The cursor, the number of completed pages and the cursors that were seen
pub record Position : Type 0 where
  pub cursor : Option Text
  pub pages_completed : ℕ
  pub seen_cursors : List Text

-- The cursors of the rows that have one
abbrev pub cursors : List CheckpointRow → List Text
cursors [] = []
cursors (row ∷ rows) = elim row.cursor [ none ↦ cursors rows | some c ↦ c ∷ cursors rows ]

-- What `_resume_position` computes from the ordered rows. With a terminal row at the end,
-- `rows[:-1]` has the same cursors as `rows`; without one, the last row is the last of
-- `non_terminal`.
abbrev pub position_at : List CheckpointRow → Option CheckpointRow → Position
position_at rows none = record { cursor = none; pages_completed = 0; seen_cursors = [] }
position_at rows (some latest) = record {
  cursor = latest.cursor;
  pages_completed = latest.interaction_number;
  seen_cursors = cursors rows;
}

-- `SELECT ... WHERE task_id = ? ORDER BY interaction_number`
unfoldable pub ordered_rows : Text → List CheckpointRow → List CheckpointRow
ordered_rows job_id rows =
    sorted (λ a b. leb a.interaction_number b.interaction_number)
      (filter (λ row. row.task_id == job_id) rows)

-- `_resume_position`
unfoldable pub resume_position : Text → Database → Position
unfolding ordered_rows
resume_position job_id db =
    position_at (ordered_rows job_id db.checkpoints) (last? (ordered_rows job_id db.checkpoints))

abbrev pub same_key : CheckpointRow → CheckpointRow → Bool
same_key a b = (a.task_id == b.task_id) && (a.interaction_number == b.interaction_number)

-- `INSERT ... ON CONFLICT(task_id, interaction_number) DO UPDATE`
unfoldable pub upsert : CheckpointRow → List CheckpointRow → List CheckpointRow
upsert new [] = new ∷ []
upsert new (row ∷ rows) = if same_key row new then new ∷ rows else row ∷ upsert new rows

-- `cursor or 'terminal'`
abbrev pub cursor_text : Option Text → Text
cursor_text none = text "terminal"
cursor_text (some []) = text "terminal"
cursor_text (some (c ∷ s)) = c ∷ s

module _ (platform : Platform) where
  abbrev pub checkpoint_row : Text → Text → Option Text → ℕ → CheckpointRow
  checkpoint_row job_id capture_id cursor interaction_number = record {
    task_id = job_id;
    interaction_number = interaction_number;
    checkpoint_id = platform.sha256 (
        platform.encode (
          job_id
          ++ (text "|" ++ (platform.str interaction_number ++ (text "|" ++ cursor_text cursor)))));
    raw_capture_id = capture_id;
    cursor = cursor;
  }

  -- `_checkpoint`: the foreign keys and the primary key of the table raise
  unfoldable pub checkpoint : Text → Text → Option Text → ℕ → Exec Database (Unit {0})
  unfolding upsert
  checkpoint job_id capture_id cursor interaction_number = transaction (do
    raise_if (← gets (λ db. not (has job_id db.tasks && has capture_id db.raw_captures)))
        integrity_error
    raise_if
        (← gets (λ db.
          any
            (λ row.
              (row.checkpoint_id
                == (checkpoint_row job_id capture_id cursor interaction_number).checkpoint_id)
              && not (same_key row (checkpoint_row job_id capture_id cursor interaction_number)))
            db.checkpoints))
        integrity_error
    modify (λ db. record db {
      checkpoints =
          upsert (checkpoint_row job_id capture_id cursor interaction_number) db.checkpoints;
    }))
