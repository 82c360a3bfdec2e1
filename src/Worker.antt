-- ===== src/Worker.antt =====
-- apps/worker/src: the source poll processor (processor.ts).
pub mod Backoff
pub mod Content
pub mod Bounded
pub mod Poll
