-- ===== src/Storage.antt =====
-- packages/storage/src: which media are cached, and which are evicted.
pub mod Policy
