-- ===== src/Tests/MediaCache.antt =====
-- The properties of the cache of media, where one object is stored and one medium is queued.
use mirth_spool.Base.{
  ℕ, ◌≡◌, ◌≤◌, refl, true, false, none, some, [], ◌∷◌, arith, ◌==◌, Bool-cases, inl, inr,
}
use mirth_spool.Base.Table.{count_where, update_where}
use mirth_spool.Base.Sort.{sort}
use mirth_spool.Db.{ContentStatus, ContentRating, MediaKind, CacheState}
use mirth_spool.Storage.Policy.{CachePolicyName, should_cache_media, select_evictions}
use mirth_spool.MediaCache.Rows.{
  Asset, Cache, has_asset_id, mark_media_queued, used_bytes, in_state,
}
use mirth_spool.MediaCache.Claim.{Claim, claimed, claim_rows, bytes_needed, evictions, reserve}
use mirth_spool.MediaCache.Job.{Job, process, was_coalesced, failed}
use mirth_spool.MediaCache.Quota.{IsWithin}
use mirth_spool.MediaCache.Quota.Runs.{here, next, queues, claims, CacheSteps-IsWithin}
use mirth_spool.MediaCache.Retry.{process_again}

abbrev stored_asset : Asset
stored_asset = record {
  id = 1;
  content_item_id = 10;
  kind = MediaKind.image;
  remote_url = "https://example.org/1";
  cache_state = CacheState.cached;
  cache_error_code = none;
  cache_policy = some CachePolicyName.all_within_quota;
  byte_length = some 80;
  cached_at = some 5;
  cache_expires_at = none;
  last_accessed_at = some 6;
  mime_type = none;
  sha256 = none;
  storage_key = some 3;
  created_at = 1;
}

abbrev remote_asset : Asset
remote_asset = record stored_asset {
  id = 2;
  cache_state = CacheState.remote_only;
  byte_length = none;
  storage_key = none;
}

abbrev test_cache : Cache
test_cache = record {
  assets = stored_asset ∷ remote_asset ∷ [];
  configuration = record {
    allowed_kinds = MediaKind.image ∷ [];
    max_object_bytes = 50;
    policy = CachePolicyName.all_within_quota;
    quota_bytes = 100;
    ttl_seconds = 0;
  };
  status_of = λ i. ContentStatus.active;
  rating_of = λ i. ContentRating.safe;
  is_favorite = λ i. false;
  unanalyzed = [];
  objects = 3 ∷ [];
  next_key = 4;
}

abbrev queued_cache : Cache
queued_cache = (mark_media_queued 2 test_cache).1

test_cache_unique : (i : ℕ) → count_where (has_asset_id i) test_cache.assets ≤ 1
unfolding has_asset_id count_where
test_cache_unique i = elim (Bool-cases (1 == i)) [
  | inl e ↦ ground (arith, e)
  | inr e ↦ elim (Bool-cases (2 == i)) [
    | inl k ↦ rw (e, k) (omega arith)
    | inr k ↦ rw (e, k) (omega arith)
  ]
]

test_cache-IsWithin : IsWithin test_cache
unfolding count_where used_bytes in_state
test_cache-IsWithin = record { room = omega arith; ids = test_cache_unique }

abbrev test_claim : Claim
test_claim = record {
  configuration = test_cache.configuration;
  content_item_id = 10;
  evicted_objects = 3 ∷ [];
  kind = MediaKind.image;
  remote_url = "https://example.org/1";
}

test_claim_granted : claim_rows 2 20 queued_cache ≡ claimed test_claim (reserve 2 20 queued_cache)
unfolding claim_rows mark_media_queued update_where should_cache_media bytes_needed used_bytes
    count_where in_state evictions select_evictions sort
test_claim_granted = refl

CacheSteps-IsWithin_example : IsWithin (reserve 2 20 queued_cache)
CacheSteps-IsWithin_example = CacheSteps-IsWithin test_cache-IsWithin (
    next (next here (queues 2))
      (claims 2 20 test_claim (reserve 2 20 queued_cache) test_claim_granted))

abbrev broken_job : Job
broken_job = record {
  media_id = 2;
  now = 20;
  cached_at = 21;
  download = λ n u k. failed (record { code = "MEDIA_FETCH_FAILED"; retryable = true });
  commits = true;
  meanwhile = λ c. c;
  records = true;
}

process_again_example :
    process broken_job (process broken_job queued_cache).1
    ≡ (was_coalesced, (process broken_job queued_cache).1)
unfolding process claim_rows mark_media_queued update_where should_cache_media bytes_needed
    used_bytes count_where in_state evictions select_evictions sort
process_again_example =
    process_again broken_job broken_job queued_cache (process broken_job queued_cache).1
      (record { blocked = false; code = "MEDIA_FETCH_FAILED"; retryable = true }) (λ c h. h) refl
      refl
