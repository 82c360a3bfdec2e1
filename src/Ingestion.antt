-- ===== src/Ingestion.antt =====
-- packages/db/src/repositories/ingestion.ts: the rows that polling reads and writes, the lease of
-- a run, the transaction that stores a page, and the end of a run.
pub mod Rows
pub mod Tags
pub mod Persist
pub mod Runs
pub mod Columns
pub mod Due
