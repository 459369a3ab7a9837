-- ===== src/Lib.antt =====
-- fb_scraper: a raw-first collector of public Groups. It captures pages into immutable files,
-- keeps normalized records in SQLite and can be interrupted and resumed.
--
-- The parts and the files that model them:
--   src/app/workflows/live_capture.py  Workflows/LiveCapture: LiveCaptureWorkflow, with its tasks
--                                      and failures (Tasks), checkpoints and resume position
--                                      (Checkpoints) and the storing of a page (Persist)
--   src/app/storage/repositories.py    Storage/Jobs, Storage/Captures, Storage/Canonical and
--                                      Storage/Counters: JobRepository, RawCaptureMetadataRepository,
--                                      CanonicalRepository and its counters; Storage/Tables has the
--                                      tables of src/app/storage/migrations as one record, Database
--   src/app/storage/live_runs.py       Storage/LiveRuns: create_run and get_run are create and get
--   src/app/contracts/models.py        Contracts: the records, with their JSON form as an interface;
--                                      Contracts/Validators: the validators of their fields
--   src/app/capture/pagination.py      Capture/Pagination: paginate_pages over callbacks
--   src/app/storage/database.py        Storage/MigrationFiles: the files of the migrations, their names
--                                      and checksums; Storage/Migrations: what is recorded of them, and
--                                      migrate
--   src/app/capture/playwright_adapter.py
--                                      Capture/Browser: the limits, the stops, the pacing and _retry;
--                                      Browser/Checkpoint: the checkpoints; Browser/Posts: the Posts
--                                      of a snapshot; Browser/Lifecycle: what is opened and closed
--   src/app/capture/raw_store.py       Capture/RawStore: GzipRawCaptureStore
--   src/app/targets/preparation.py     Targets: the rows of the candidates, the planned join and the
--                                      selection; CSV files and discovery pages are left out
--   src/app/protection_join.py         JoinGuard: JoinActionGuard
--   src/app/session/health.py          Session/Health: classify_observation
--   src/app/workflows/operator_batch.py
--                                      Workflows/OperatorBatch: OperatorBatchWorkflow; Receipts and
--                                      Resume have its two files, Run the loop over the targets and
--                                      Results what a run publishes
--   src/app/configuration.py           Configuration: the fields of a document that tomllib has read;
--                                      Configuration/Operator has the operator's tables
--   src/app/retention.py               Retention: the durations, the cleaning and its receipts
--   src/app/metrics.py                 Metrics: the timer and the throughput; Metrics/Receipts: the two
--                                      receipts; Metrics/Rounding: the quotients, as doubles
--   json                               Json: documents, and files that hold one
--   hashlib, gzip, urllib              Platform: an interface with the documented laws
--
-- An operation is an action on a store (Exec): it returns or raises, and the store comes back in
-- both cases; `with connection:` rolls back what a raising block wrote. A method is the function
-- of the same name, without the leading underscore. Instants are microseconds of UTC. A
-- repository takes the clock's reading as an argument. The workflow acts on the database, the raw
-- files and what the browser keeps; the browser, the clock and the two HTML parsers are arguments
-- that may do anything.
--
-- The loop of paginate_pages takes max_pages as fuel. The loop of a live capture takes one more
-- round than the pages that are left up to max_pages, since a resumed run captures a page before
-- it tests the limit. Capture/Pagination/Bounds and Workflows/LiveCapture/Termination show that
-- this is enough.
--
-- Not modelled: of the browser, the clicks, the choice of the next action and what composes them; the
-- extraction from HTML and the command line, which call libraries; the fixture, replay and comparison
-- workflows, the receipts of operators, the discovery of Groups, the checks before a run, the clicks of
-- a join and the profiles of the sessions. In the operator batch, errors of the disk and the guards of
-- the constructor are left out, and so are an interrupt during the pause between two Groups and the
-- exceptions of a capture that are neither an Exception nor KeyboardInterrupt. A live capture starts from
-- the store that its first call, migrate, has left. The order of the keys of a JSON object is left out,
-- since nothing reads it.
pub mod Prelude
pub mod Errors
pub mod Contracts
pub mod Exec
pub mod Storage
pub mod Platform
pub mod Capture
pub mod Tests
pub mod Workflows
pub mod Targets
pub mod JoinGuard
pub mod Session
pub mod Json
pub mod Metrics
pub mod Configuration
pub mod Retention
