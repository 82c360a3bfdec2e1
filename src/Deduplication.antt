-- ===== src/Deduplication.antt =====
-- packages/deduplication/src: canonical URLs, tags and perceptual hashes.
pub mod CanonicalUrl
pub mod Tag
pub mod Hash
