-- ===== src/MediaCache/Claim.antt =====
-- `claimMedia` of apps/worker/src/media-cache.ts: the transaction that reserves room for an object,
-- under the lock of the quota.
use Prim.Native.String.{String}
use mirth_spool.Base.{
  ℕ, ◌+◌, ◌-◌, ◌*◌, Bool, true, false, not, ◌&&◌, none, some, List, [], ◌∷◌, ◌==◌, if◌then◌else◌,
  find, filter, take, elem, map,
}
use mirth_spool.Base.Sort.{sort}
use mirth_spool.Base.Table.{update_where, count_where}
use mirth_spool.Db.{MediaKind, CacheState}
use mirth_spool.Storage.Policy.{
  CachePolicyName, CacheCandidate, should_cache_media, select_evictions, is_empty,
}
use mirth_spool.MediaCache.Rows.{
  Asset, CacheConfiguration, Cache, is_cached, is_fetching, is_queued, is_active, or_zero, is_some,
  in_order, has_asset_id, used_bytes, in_state, is_queued_id,
}

pub record MediaCacheError : Type 0 where
  pub code : String
  pub retryable : Bool

abbrev is_link : MediaKind → Bool
is_link MediaKind.link = true
is_link _ = false

-- the test that gives no claim
unfoldable pub is_claimable : Cache → Asset → Bool
is_claimable c a =
    is_queued a.cache_state
    && is_active (c.status_of a.content_item_id)
    && not (is_link a.kind)
    && should_cache_media (c.is_favorite a.content_item_id) a.kind c.configuration.allowed_kinds
        c.configuration.policy

unfoldable pub eviction_order : Asset → Asset → Bool
eviction_order a b =
    in_order (a.cache_expires_at ∷ a.last_accessed_at ∷ a.cached_at ∷ some a.id ∷ [])
      (b.cache_expires_at ∷ b.last_accessed_at ∷ b.cached_at ∷ some b.id ∷ [])

unfoldable pub is_stored : Asset → Bool
is_stored a = is_cached a.cache_state && is_some a.storage_key

unfoldable pub candidate_of : Cache → Asset → CacheCandidate
candidate_of c a = record {
  cache_expires_at = a.cache_expires_at;
  cached_at = a.cached_at;
  favorite = c.is_favorite a.content_item_id;
  id = a.id;
  last_accessed_at = a.last_accessed_at;
  size = or_zero a.byte_length;
}

unfoldable pub candidates : Cache → List Asset
unfolding eviction_order is_stored
candidates c = take 500 (sort eviction_order (filter is_stored c.assets))

-- What is stored and what is being fetched, and one object more, beyond the quota.
unfoldable pub bytes_needed : Cache → ℕ
bytes_needed c =
    used_bytes c.assets
    + (count_where (in_state is_fetching) c.assets + 1) * c.configuration.max_object_bytes
    - c.configuration.quota_bytes

unfoldable pub evictions : ℕ → Cache → List CacheCandidate
unfolding candidates candidate_of bytes_needed
evictions now c =
    select_evictions (map (candidate_of c) (candidates c)) (bytes_needed c) now
      c.configuration.policy

unfoldable pub ids_of : List CacheCandidate → List ℕ
ids_of cs = map (λ (c : CacheCandidate). c.id) cs

unfoldable pub is_among : List ℕ → Asset → Bool
is_among ids a = elem a.id ids

unfoldable pub evict_asset : Asset → Asset
evict_asset a = record a {
  cached_at = none;
  cache_expires_at = none;
  cache_state = CacheState.evicted;
  last_accessed_at = none;
  storage_key = none;
}

unfoldable pub fetch_asset : CachePolicyName → Asset → Asset
fetch_asset policy a = record a {
  cache_error_code = none;
  cache_policy = some policy;
  cache_state = CacheState.fetching;
}

unfoldable pub keys_of : List Asset → List ℕ
keys_of [] = []
keys_of (a ∷ rest) = elim a.storage_key [ none ↦ keys_of rest | some k ↦ k ∷ keys_of rest ]

pub record Claim : Type 0 where
  pub configuration : CacheConfiguration
  pub content_item_id : ℕ
  pub evicted_objects : List ℕ
  pub kind : MediaKind
  pub remote_url : String

pub data Claimed : Type 0 where
  refused : MediaCacheError → Claimed
  coalesced : Claimed
  claimed : Claim → Cache → Claimed

-- the rows after the updates of the transaction
unfoldable pub reserve : ℕ → ℕ → Cache → Cache
unfolding is_among evict_asset fetch_asset is_queued_id ids_of
reserve id now c = record c {
  assets =
      update_where (is_queued_id id) (fetch_asset c.configuration.policy)
        (update_where (is_among (ids_of (evictions now c))) evict_asset c.assets);
}

-- The transaction. The queued row is read before it is updated, under one lock: it is there.
unfoldable pub claim_rows : ℕ → ℕ → Cache → Claimed
unfolding is_claimable has_asset_id reserve is_empty keys_of
claim_rows id now c = elim (find (has_asset_id id) c.assets) [
  | none ↦ coalesced
  | some asset ↦
      if not (is_claimable c asset)
      then coalesced
      else if not (bytes_needed c == 0) && is_empty (evictions now c)
      then refused (record { code = "MEDIA_QUOTA_EXCEEDED"; retryable = false })
      else claimed
          (record {
            configuration = c.configuration;
            content_item_id = asset.content_item_id;
            evicted_objects = keys_of (filter (is_among (ids_of (evictions now c))) (candidates c));
            kind = asset.kind;
            remote_url = asset.remote_url;
          })
          (reserve id now c)
]
