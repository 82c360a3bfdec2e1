-- ===== src/Maintenance.antt =====
-- The retention of old rows: packages/db/src/repositories/maintenance.ts.
pub mod Rows
pub mod Batch
pub mod Retention
