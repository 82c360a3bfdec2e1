-- ===== src/MediaCache/Evict.antt =====
-- `evictMediaCache` and `purgeOrphanedObjects` of apps/worker/src/media-cache.ts.
use mirth_spool.Base.{
  ℕ, ◌+◌, ◌-◌, Bool, false, not, ◌&&◌, ◌||◌, Option, none, some, List, [], ◌∷◌, leb, filter, take,
  elem, length, map,
}
use mathlib.Core.List.{◌++◌}
use mirth_spool.Base.Sort.{sort}
use mirth_spool.Base.Table.{update_where}
use mirth_spool.Storage.Policy.{CacheCandidate, is_favorites_only, is_none_cached, select_evictions}
use mirth_spool.MediaCache.Rows.{Asset, Cache, or_zero, in_order}
use mirth_spool.MediaCache.Claim.{is_stored, candidate_of, ids_of, is_among, evict_asset, keys_of}
use mirth_spool.MediaCache.Job.{delete_objects, is_ttl}

access_order : Asset → Asset → Bool
access_order a b =
    in_order (a.last_accessed_at ∷ a.cached_at ∷ some a.id ∷ [])
      (b.last_accessed_at ∷ b.cached_at ∷ some b.id ∷ [])

unfoldable pub evictable : Cache → List Asset
unfolding access_order
evictable c = take 1000 (sort access_order (filter is_stored c.assets))

is_past : ℕ → Option ℕ → Bool
is_past now none = false
is_past now (some t) = leb t now

-- the rows that have to go
is_forced : Bool → ℕ → Cache → Asset → Bool
unfolding is_past
is_forced purge now c a =
    purge
    || is_none_cached c.configuration.policy
    || (is_favorites_only c.configuration.policy && not (c.is_favorite a.content_item_id))
    || (is_ttl c.configuration.policy && is_past now a.cache_expires_at)

sum_sizes : List CacheCandidate → ℕ
sum_sizes [] = 0
sum_sizes (r ∷ rest) = r.size + sum_sizes rest

retained : Bool → ℕ → Cache → List CacheCandidate
unfolding is_forced
retained purge now c =
    map (candidate_of c) (filter (λ a. not (is_forced purge now c a)) (evictable c))

-- the identifiers of forced rows, and of the rows that the quota evicts
unfoldable pub selected_ids : Bool → ℕ → Cache → List ℕ
unfolding is_forced retained sum_sizes
selected_ids purge now c =
    map (λ (a : Asset). a.id) (filter (is_forced purge now c) (evictable c))
    ++ ids_of (
        select_evictions (retained purge now c)
          (sum_sizes (retained purge now c) - c.configuration.quota_bytes) now
          c.configuration.policy)

-- evict_asset, which also forgets the error
unfoldable pub clear_asset : Asset → Asset
clear_asset a = record (evict_asset a) { cache_error_code = none }

unfoldable pub evict_rows : Bool → ℕ → Cache → Cache
unfolding clear_asset
evict_rows purge now c = record c {
  assets = update_where (is_among (selected_ids purge now c)) clear_asset c.assets;
}

sum_bytes : List Asset → ℕ
sum_bytes [] = 0
sum_bytes (a ∷ rest) = or_zero a.byte_length + sum_bytes rest

-- The bytes and the objects that were evicted.
unfoldable pub evict_media_cache : Bool → ℕ → Cache → (ℕ × ℕ) × Cache
unfolding evict_rows sum_bytes
evict_media_cache purge now c =
    let gone = filter (is_among (selected_ids purge now c)) (evictable c) in
    ((sum_bytes gone, length gone), delete_objects (keys_of gone) (evict_rows purge now c))

is_retained : List Asset → ℕ → Bool
is_retained assets key = elem key (keys_of assets)

-- The number of objects without a row, among the first `limit` that the storage lists.
unfoldable pub purge_orphaned_objects : ℕ → Cache → ℕ × Cache
unfolding is_retained
purge_orphaned_objects limit c =
    let orphans = filter (λ k. not (is_retained c.assets k)) (take limit c.objects) in
    (length orphans, delete_objects orphans c)
