-- ===== src/MediaCache.antt =====
-- The cache of media: packages/db/src/repositories/cache.ts, the job and the eviction of
-- apps/worker/src/media-cache.ts, and the limit that a storage write keeps
-- (packages/storage/src/local-filesystem.ts).
pub mod Rows
pub mod Schedule
pub mod Claim
pub mod Job
pub mod Evict
pub mod Freed
pub mod Quota
pub mod Retry
