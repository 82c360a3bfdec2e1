-- ===== src/Feed.antt =====
-- The feed: the queries of packages/db/src/repositories/feed.ts, the cursors and the service of
-- apps/web/src/lib/feed.
pub mod Query
pub mod Cursor
pub mod Service
pub mod Orders
pub mod Parts
pub mod Signed
pub mod Walk
pub mod Shown
