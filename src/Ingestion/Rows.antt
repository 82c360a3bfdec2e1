-- ===== src/Ingestion/Rows.antt =====
-- The rows of the tables that polling reads and writes, with the columns that the code names.
-- An identifier is a number, a time is in milliseconds since the epoch, and JSON is its text.
use Prim.Native.String.{String}
use mirth_spool.Base.{ℕ, Bool, Option, List, ◌==◌}
use mirth_spool.Base.Int.{ℤ}
use mirth_spool.Base.Double.{Double}
use mirth_spool.Db.{
  SourceKind, SourceStatus, ContentRating, ContentStatus, MediaKind, CacheState, DuplicateReason,
  RunTrigger, RunStatus, TagSource,
}

pub record Credential : Type 0 where
  pub kind : ℕ
  pub label : String
  pub encrypted_payload : List ℕ

pub record SourceRow : Type 0 where
  pub id : ℕ
  pub kind : SourceKind
  pub display_name : String
  pub enabled : Bool
  pub status : SourceStatus
  pub priority : ℤ
  pub poll_interval_seconds : ℕ
  pub default_content_rating : ContentRating
  pub config_json : String
  pub credentials : List Credential
  pub next_poll_at : Option ℕ
  pub last_attempt_at : Option ℕ
  pub last_success_at : Option ℕ
  pub consecutive_failures : ℕ
  pub last_error_code : Option String
  pub last_error_message : Option String
  pub deleted_at : Option ℕ

-- The counters of a run.
pub record Stats : Type 0 where
  pub bytes_fetched : ℕ
  pub items_created : ℕ
  pub items_seen : ℕ
  pub items_skipped : ℕ
  pub items_updated : ℕ
  pub pages_fetched : ℕ
  pub provider_requests : ℕ

abbrev pub empty_stats : Stats
empty_stats = record {
  bytes_fetched = 0;
  items_created = 0;
  items_seen = 0;
  items_skipped = 0;
  items_updated = 0;
  pages_fetched = 0;
  provider_requests = 0;
}

pub record RunRow : Type 0 where
  pub id : ℕ
  pub source_id : ℕ
  pub trigger : RunTrigger
  pub status : RunStatus
  pub job_id : String
  pub attempt : ℕ
  pub started_at : ℕ
  pub finished_at : Option ℕ
  pub stats : Stats
  pub error_code : Option String
  pub error_message : Option String
  pub rate_limit_reset_at : Option ℕ

pub record PostRow : Type 0 where
  pub id : ℕ
  pub source_id : ℕ
  pub content_item_id : ℕ
  pub external_id : String
  pub provider_url : Option String
  pub provider_author : Option String
  pub boosted_by : Option String
  pub community_name : Option String
  pub provider_score : Option ℤ
  pub provider_comment_count : Option ℕ
  pub provider_favourite_count : Option ℕ
  pub provider_share_count : Option ℕ
  pub provider_language : Option String
  pub provider_published_at : Option ℕ
  pub provider_updated_at : Option ℕ
  pub provider_deleted_at : Option ℕ
  pub last_seen_at : ℕ

pub record ContentRow : Type 0 where
  pub id : ℕ
  pub title : Option String
  pub normalized_title : Option String
  pub summary : Option String
  pub author_name : Option String
  pub content_rating : ContentRating
  pub content_warning : Option String
  pub status : ContentStatus
  pub published_at : ℕ
  pub last_seen_at : ℕ
  pub primary_source_post_id : Option ℕ
  pub canonical_url : Option String
  pub canonical_url_hash : Option String
  pub ranking_score : Double
  pub random_key : ℕ
  pub search_text : Option String
  pub duplicate_analyzed_at : Option ℕ
  pub duplicate_group_id : Option ℕ
  pub duplicate_primary : Bool

pub record MediaInput : Type 0 where
  pub ordinal : ℕ
  pub kind : MediaKind
  pub alt_text : Option String
  pub remote_url : String
  pub mime_type : Option String
  pub byte_length : Option ℕ
  pub width : Option ℕ
  pub height : Option ℕ
  pub duration_milliseconds : Option ℕ

-- A medium is named by its content item and its ordinal. The table lists the newest first.
pub record MediaRow : Type 0 where
  pub content_item_id : ℕ
  pub asset : MediaInput
  pub cache_state : CacheState
  pub storage_key : Option String
  pub sha256 : Option String
  pub perceptual_hash : Option String

pub record TagRow : Type 0 where
  pub id : ℕ
  pub label : String
  pub slug : String

pub record ContentTagRow : Type 0 where
  pub content_item_id : ℕ
  pub tag_id : ℕ
  pub source : TagSource

-- The checkpoint of a source in the scope "poll".
pub record CheckpointRow : Type 0 where
  pub source_id : ℕ
  pub value_json : String

pub record GroupRow : Type 0 where
  pub id : ℕ
  pub primary_content_id : Option ℕ

pub record LinkRow : Type 0 where
  pub from_content_id : ℕ
  pub to_content_id : ℕ
  pub reason : DuplicateReason
  pub distance : Option ℕ

-- An audit event, with the identifiers of its metadata as a list.
pub record AuditRow : Type 0 where
  pub actor_user_id : ℕ
  pub event_type : String
  pub target_id : ℕ
  pub subjects : List ℕ

-- `users` lists the identifiers of the users, and `next_id` is the supply of fresh identifiers.
pub record Db : Type 0 where
  pub sources : List SourceRow
  pub runs : List RunRow
  pub posts : List PostRow
  pub contents : List ContentRow
  pub media : List MediaRow
  pub tags : List TagRow
  pub content_tags : List ContentTagRow
  pub checkpoints : List CheckpointRow
  pub groups : List GroupRow
  pub links : List LinkRow
  pub audits : List AuditRow
  pub users : List ℕ
  pub next_id : ℕ

-- NormalizedContentInput, with `undefined` and `null` both `none`.
pub record ContentInput : Type 0 where
  pub source_id : ℕ
  pub external_id : String
  pub provider_url : Option String
  pub provider_author : Option String
  pub boosted_by : Option String
  pub community_name : Option String
  pub provider_score : Option ℤ
  pub provider_comment_count : Option ℕ
  pub provider_favourite_count : Option ℕ
  pub provider_share_count : Option ℕ
  pub provider_language : Option String
  pub provider_published_at : Option ℕ
  pub provider_updated_at : Option ℕ
  pub provider_deleted_at : Option ℕ
  pub title : Option String
  pub normalized_title : Option String
  pub summary : Option String
  pub author_name : Option String
  pub content_rating : ContentRating
  pub content_warning : Option String
  pub status : Option ContentStatus
  pub published_at : ℕ
  pub canonical_url : Option String
  pub canonical_url_hash : Option String
  pub provider_tags : List String
  pub media : List MediaInput

-- where: { id } on the sources
unfoldable pub has_source_id : ℕ → SourceRow → Bool
has_source_id id s = s.id == id
