-- ===== src/Db.antt =====
-- packages/db: the enumerations of the schema (prisma/schema.prisma) that the repositories share,
-- with the tests that the code makes on them.
use mirth_spool.Base.{Bool, true, false}

pub data SourceKind : Type 0 where
  rss lemmy mastodon reddit ifunny : SourceKind

pub data SourceStatus : Type 0 where
  active paused degraded auth_error config_error : SourceStatus

pub data ContentRating : Type 0 where
  safe sensitive adult unknown : ContentRating

pub data ContentStatus : Type 0 where
  active removed_at_source broken suppressed : ContentStatus

pub data MediaKind : Type 0 where
  image animated_image video link : MediaKind

pub data CacheState : Type 0 where
  remote_only queued fetching cached evicted failed blocked : CacheState

pub data RunTrigger : Type 0 where
  scheduled manual retry backfill : RunTrigger

pub data RunStatus : Type 0 where
  running succeeded partial failed cancelled : RunStatus

pub data TagSource : Type 0 where
  admin provider rule : TagSource

pub data DuplicateReason : Type 0 where
  canonical_url sha256 perceptual_hash manual : DuplicateReason

abbrev pub is_running : RunStatus → Bool
is_running RunStatus.running = true
is_running _ = false

abbrev pub is_provider : TagSource → Bool
is_provider TagSource.provider = true
is_provider _ = false

abbrev pub is_suppressed : ContentStatus → Bool
is_suppressed ContentStatus.suppressed = true
is_suppressed _ = false
