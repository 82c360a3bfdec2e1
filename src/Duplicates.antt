-- ===== src/Duplicates.antt =====
-- packages/db/src/repositories/duplicates.ts: which content items are duplicates, and their groups.
pub mod Matches
pub mod Groups
