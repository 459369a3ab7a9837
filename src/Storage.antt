-- ===== src/Storage.antt =====
-- The SQLite store and its repositories (src/app/storage).
pub mod Tables
pub mod Jobs
pub mod Captures
pub mod Counters
pub mod Canonical
pub mod Fueled
pub mod LiveRuns
pub mod MigrationFiles
pub mod Migrations
