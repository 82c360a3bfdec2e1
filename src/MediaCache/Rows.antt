-- ===== src/MediaCache/Rows.antt =====
-- The columns of the media that the cache uses, with its views of the other tables, and the
-- repository packages/db/src/repositories/cache.ts. Keys of stored objects are numbers, and the
-- objects in the storage are the list of their keys.
use Prim.Native.String.{String}
use mirth_spool.Base.{
  ℕ, ◌+◌, max, min, Bool, true, false, ◌&&◌, Option, none, some, List, [], ◌∷◌, ltb, ◌==◌,
  if◌then◌else◌, any, find, filter, take,
}
use mirth_spool.Base.Sort.{sort}
use mirth_spool.Base.Table.{update_where, count_where}
use mirth_spool.Db.{ContentStatus, ContentRating, MediaKind, CacheState}
use mirth_spool.Storage.Policy.{CachePolicyName, same_kind}

pub record Asset : Type 0 where
  pub id : ℕ
  pub content_item_id : ℕ
  pub kind : MediaKind
  pub remote_url : String
  pub cache_state : CacheState
  pub cache_error_code : Option String
  pub cache_policy : Option CachePolicyName
  pub byte_length : Option ℕ
  pub cached_at : Option ℕ
  pub cache_expires_at : Option ℕ
  pub last_accessed_at : Option ℕ
  pub mime_type : Option String
  pub sha256 : Option String
  pub storage_key : Option ℕ
  pub created_at : ℕ

pub record CacheConfiguration : Type 0 where
  pub allowed_kinds : List MediaKind
  pub max_object_bytes : ℕ
  pub policy : CachePolicyName
  pub quota_bytes : ℕ
  pub ttl_seconds : ℕ

-- The tables, the settings and the storage. `unanalyzed` lists the items whose duplicateAnalyzedAt
-- was set to null.
pub record Cache : Type 0 where
  pub assets : List Asset
  pub configuration : CacheConfiguration
  pub status_of : ℕ → ContentStatus
  pub rating_of : ℕ → ContentRating
  pub is_favorite : ℕ → Bool
  pub unanalyzed : List ℕ
  pub objects : List ℕ
  pub next_key : ℕ

abbrev pub is_cached : CacheState → Bool
is_cached CacheState.cached = true
is_cached _ = false

abbrev pub is_fetching : CacheState → Bool
is_fetching CacheState.fetching = true
is_fetching _ = false

abbrev pub is_queued : CacheState → Bool
is_queued CacheState.queued = true
is_queued _ = false

abbrev pub is_waiting : CacheState → Bool
is_waiting CacheState.evicted = true
is_waiting CacheState.remote_only = true
is_waiting _ = false

abbrev pub is_active : ContentStatus → Bool
is_active ContentStatus.active = true
is_active _ = false

abbrev pub or_zero : Option ℕ → ℕ
or_zero none = 0
or_zero (some n) = n

abbrev pub is_some : Option ℕ → Bool
is_some none = false
is_some (some n) = true

-- ORDER BY with ascending columns, where null comes last
unfoldable pub in_order : List (Option ℕ) → List (Option ℕ) → Bool
in_order [] ys = true
in_order (x ∷ xs) [] = true
in_order (none ∷ xs) (none ∷ ys) = in_order xs ys
in_order (none ∷ xs) (some b ∷ ys) = false
in_order (some a ∷ xs) (none ∷ ys) = true
in_order (some a ∷ xs) (some b ∷ ys) = let rest = in_order xs ys in if a == b then rest else ltb a b

unfoldable pub has_asset_id : ℕ → Asset → Bool
has_asset_id id a = a.id == id

-- SUM(byteLength) WHERE cacheState = CACHED
unfoldable pub used_bytes : List Asset → ℕ
used_bytes [] = 0
used_bytes (a ∷ rest) =
    (if is_cached a.cache_state then or_zero a.byte_length else 0) + used_bytes rest

unfoldable pub in_state : (CacheState → Bool) → Asset → Bool
in_state p a = p a.cache_state

is_blocked : CacheState → Bool
is_blocked CacheState.blocked = true
is_blocked _ = false

is_failed : CacheState → Bool
is_failed CacheState.failed = true
is_failed _ = false

is_remote_only : CacheState → Bool
is_remote_only CacheState.remote_only = true
is_remote_only _ = false

pub record CacheSummary : Type 0 where
  pub configuration : CacheConfiguration
  pub blocked : ℕ
  pub cached : ℕ
  pub failed : ℕ
  pub fetching : ℕ
  pub queued : ℕ
  pub remote_only : ℕ
  pub used : ℕ

get_cache_summary : Cache → CacheSummary
unfolding is_blocked is_failed is_remote_only
get_cache_summary c = record {
  configuration = c.configuration;
  blocked = count_where (in_state is_blocked) c.assets;
  cached = count_where (in_state is_cached) c.assets;
  failed = count_where (in_state is_failed) c.assets;
  fetching = count_where (in_state is_fetching) c.assets;
  queued = count_where (in_state is_queued) c.assets;
  remote_only = count_where (in_state is_remote_only) c.assets;
  used = used_bytes c.assets;
}

is_schedulable : Cache → List MediaKind → Asset → Bool
is_schedulable c kinds a =
    is_waiting a.cache_state
    && is_active (c.status_of a.content_item_id)
    && any (same_kind a.kind) kinds

created_before : Asset → Asset → Bool
created_before a b =
    in_order (some a.created_at ∷ some a.id ∷ []) (some b.created_at ∷ some b.id ∷ [])

unfoldable pub list_cache_scheduling_candidates : Cache → List MediaKind → ℕ → List Asset
unfolding is_schedulable created_before
list_cache_scheduling_candidates c kinds limit =
    take (min 250 (max 1 limit)) (sort created_before (filter (is_schedulable c kinds) c.assets))

unfoldable pub is_waiting_id : ℕ → Asset → Bool
is_waiting_id id a = is_waiting a.cache_state && a.id == id

unfoldable pub queue_asset : Asset → Asset
queue_asset a = record a { cache_error_code = none; cache_state = CacheState.queued }

-- The tables after the update, and the number of rows that it changed.
unfoldable pub mark_media_queued : ℕ → Cache → ℕ × Cache
unfolding is_waiting_id queue_asset
mark_media_queued id c = (
  count_where (is_waiting_id id) c.assets,
  record c { assets = update_where (is_waiting_id id) queue_asset c.assets },
)

unfoldable pub is_queued_id : ℕ → Asset → Bool
is_queued_id id a = is_queued a.cache_state && a.id == id

unfoldable pub unqueue_asset : Asset → Asset
unqueue_asset a = record a { cache_state = CacheState.remote_only }

unfoldable pub reset_queued_media : ℕ → Cache → Cache
unfolding is_queued_id unqueue_asset
reset_queued_media id c = record c {
  assets = update_where (is_queued_id id) unqueue_asset c.assets;
}

unfoldable pub same_rating : ContentRating → ContentRating → Bool
same_rating ContentRating.safe ContentRating.safe = true
same_rating ContentRating.sensitive ContentRating.sensitive = true
same_rating ContentRating.adult ContentRating.adult = true
same_rating ContentRating.unknown ContentRating.unknown = true
same_rating _ _ = false

is_shown_status : ContentStatus → Bool
is_shown_status ContentStatus.active = true
is_shown_status ContentStatus.removed_at_source = true
is_shown_status _ = false

is_deliverable : Cache → List ContentRating → ℕ → Asset → Bool
unfolding is_shown_status same_rating
is_deliverable c ratings id a =
    is_cached a.cache_state
    && any (same_rating (c.rating_of a.content_item_id)) ratings
    && is_shown_status (c.status_of a.content_item_id)
    && a.id == id
    && is_some a.storage_key

get_media_for_delivery : Cache → List ContentRating → ℕ → Option Asset
unfolding is_deliverable
get_media_for_delivery c ratings id = find (is_deliverable c ratings id) c.assets

-- No access yet, or one before the interval
unfoldable pub is_touchable : ℕ → ℕ → ℕ → Asset → Bool
is_touchable id now interval a =
    is_cached a.cache_state
    && a.id == id
    && elim a.last_accessed_at [ none ↦ true | some t ↦ ltb (t + interval) now ]

unfoldable pub touch_asset : ℕ → Asset → Asset
touch_asset now a = record a { last_accessed_at = some now }

unfoldable pub touch_media_access : ℕ → ℕ → ℕ → Cache → Cache
unfolding is_touchable touch_asset
touch_media_access id now interval c = record c {
  assets = update_where (is_touchable id now interval) (touch_asset now) c.assets;
}
