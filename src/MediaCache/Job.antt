-- ===== src/MediaCache/Job.antt =====
-- `createMediaCacheProcessor` of apps/worker/src/media-cache.ts, and the write that it prepares
-- (`prepareWrite` of packages/storage/src/local-filesystem.ts, without the file).
use Prim.Native.String.{String}
use text.Mathlib.Text.{◌==◌ as str_eq}
use mirth_spool.Base.{
  ℕ, suc, ◌+◌, ◌*◌, Bool, true, false, not, ◌&&◌, ◌||◌, Option, none, some, List, [], ◌∷◌, ltb,
  ◌==◌, if◌then◌else◌, any, filter, length,
}
use mirth_spool.Base.Table.{update_where, count_where}
use mirth_spool.Db.{MediaKind, CacheState}
use mirth_spool.Storage.Policy.{CachePolicyName}
use mirth_spool.MediaCache.Rows.{Asset, CacheConfiguration, Cache, is_fetching}
use mirth_spool.MediaCache.Claim.{
  MediaCacheError, Claim, Claimed, refused, coalesced, claimed, claim_rows,
}

pub data Written : Type 0 where
  wrote : ℕ → Written
  gave_up : MediaCacheError → Written

-- The loop over the chunks: `broken` is an error that the source throws behind them.
unfoldable pub prepare_write : ℕ → ℕ → List (List ℕ) → Option MediaCacheError → Written
prepare_write max_bytes count [] none = wrote count
prepare_write max_bytes count [] (some e) = gave_up e
prepare_write max_bytes count (chunk ∷ rest) broken =
    let more = prepare_write max_bytes (count + length chunk) rest broken in
    if ltb max_bytes (count + length chunk)
    then gave_up (record { code = "MEDIA_RESPONSE_TOO_LARGE"; retryable = false })
    else more

pub record Verified : Type 0 where
  pub byte_length : ℕ
  pub mime_type : String
  pub sha256 : String

-- What the client downloads: an error, or the chunks that pass its verifier, an error behind them,
-- and the verdict of the verifier with the digest of what was written.
pub data Download : Type 0 where
  failed : MediaCacheError → Download
  received : List (List ℕ) → Option MediaCacheError → Verified → String → Download

-- The client, the storage, the clock and what other processes do to the tables while the object is
-- fetched.
pub record Job : Type 0 where
  pub media_id : ℕ
  pub now : ℕ
  pub cached_at : ℕ
  pub download : ℕ → String → MediaKind → Download
  pub commits : Bool
  pub meanwhile : Cache → Cache
  pub records : Bool

pub data Fetched : Type 0 where
  object : Verified → Fetched
  unfetched : MediaCacheError → Fetched

unfoldable pub storage_failed : MediaCacheError
storage_failed = record { code = "MEDIA_STORAGE_FAILED"; retryable = false }

unfoldable pub written_as : Verified → String → Written → Fetched
unfolding storage_failed
written_as verified etag (gave_up e) = unfetched e
written_as verified etag (wrote n) =
    if not (n == verified.byte_length) || not (str_eq etag verified.sha256)
    then unfetched storage_failed
    else object verified

-- the download, with the callback that writes and compares
unfoldable pub fetch : ℕ → Download → Fetched
unfolding prepare_write written_as
fetch max_bytes (failed e) = unfetched e
fetch max_bytes (received chunks broken verified etag) =
    written_as verified etag (prepare_write max_bytes 0 chunks broken)

unfoldable pub is_fetching_id : ℕ → Asset → Bool
is_fetching_id id a = is_fetching a.cache_state && a.id == id

pub is_ttl : CachePolicyName → Bool
is_ttl CachePolicyName.ttl = true
is_ttl _ = false

unfoldable pub cached_asset : CacheConfiguration → ℕ → Verified → ℕ → Asset → Asset
unfolding is_ttl
cached_asset configuration cached_at v key a = record a {
  byte_length = some v.byte_length;
  cached_at = some cached_at;
  cache_error_code = none;
  cache_expires_at =
      if is_ttl configuration.policy
      then some (cached_at + configuration.ttl_seconds * 1000)
      else none;
  cache_policy = some configuration.policy;
  cache_state = CacheState.cached;
  last_accessed_at = some cached_at;
  mime_type = some v.mime_type;
  sha256 = some v.sha256;
  storage_key = some key;
}

-- the transaction that records the object; the number is that of the rows that it changed
unfoldable pub record_object : ℕ → Claim → ℕ → Verified → ℕ → Cache → ℕ × Cache
unfolding is_fetching_id cached_asset
record_object id claim cached_at v key c =
    let n = count_where (is_fetching_id id) c.assets in
    (
      n,
      record c {
        assets =
            update_where (is_fetching_id id) (cached_asset claim.configuration cached_at v key)
              c.assets;
        unanalyzed = if n == 0 then c.unanalyzed else claim.content_item_id ∷ c.unanalyzed;
      },
    )

unfoldable pub delete_object : ℕ → Cache → Cache
delete_object key c = record c { objects = filter (λ k. not (k == key)) c.objects }

unfoldable pub delete_objects : List ℕ → Cache → Cache
unfolding delete_object
delete_objects [] c = c
delete_objects (k ∷ ks) c = delete_objects ks (delete_object k c)

blocked_codes : List String
blocked_codes =
    "MEDIA_ACTIVE_CONTENT" ∷ "MEDIA_ADDRESS_REJECTED" ∷ "MEDIA_CONTENT_TYPE_MISMATCH"
    ∷ "MEDIA_CONTENT_TYPE_UNSUPPORTED" ∷ "MEDIA_RESPONSE_TOO_LARGE" ∷ "MEDIA_URL_REJECTED" ∷ []

pub record CacheFailure : Type 0 where
  pub blocked : Bool
  pub code : String
  pub retryable : Bool

-- `none` is an error of another class.
unfoldable pub safe_cache_failure : Option MediaCacheError → CacheFailure
unfolding blocked_codes
safe_cache_failure none = record { blocked = false; code = "MEDIA_CACHE_FAILED"; retryable = true }
safe_cache_failure (some e) = record {
  blocked = any (λ c. str_eq c e.code) blocked_codes;
  code = e.code;
  retryable = e.retryable;
}

unfoldable pub failed_asset : CacheFailure → Asset → Asset
failed_asset f a = record a {
  cache_error_code = some f.code;
  cache_state = if f.blocked then CacheState.blocked else CacheState.failed;
  storage_key = none;
}

-- the update of the `catch`
unfoldable pub record_failure : ℕ → CacheFailure → Cache → Cache
unfolding is_fetching_id failed_asset
record_failure id f c = record c {
  assets = update_where (is_fetching_id id) (failed_asset f) c.assets;
}

-- How the job ends: what it returns, or an error that the queue tries again or not.
pub data JobEnd : Type 0 where
  was_coalesced : JobEnd
  was_cached : Verified → JobEnd
  was_refused : MediaCacheError → JobEnd
  threw : CacheFailure → JobEnd

-- the whole `catch`, where `key` is that of an object that was committed
unfoldable pub handle_failure : ℕ → Option MediaCacheError → Option ℕ → Cache → JobEnd × Cache
unfolding safe_cache_failure record_failure delete_object
handle_failure id e key c =
    let kept : Cache = elim key [ none ↦ c | some k ↦ delete_object k c ] in
    (threw (safe_cache_failure e), record_failure id (safe_cache_failure e) kept)

-- after the download: the commit of the object under a new key, and the transaction
unfoldable pub finish : Job → Claim → Fetched → Cache → JobEnd × Cache
unfolding handle_failure record_object storage_failed
finish job claim (unfetched e) c = handle_failure job.media_id (some e) none c
finish job claim (object v) c =
    if not job.commits
    then handle_failure job.media_id (some storage_failed) none c
    else (let key = c.next_key in
        let stored = record c { objects = key ∷ c.objects; next_key = suc key } in
        if not job.records
        then handle_failure job.media_id none (some key) stored
        else (let (n, d) = record_object job.media_id claim job.cached_at v key stored in
            if n == 0 then (was_coalesced, delete_object key d) else (was_cached v, d)))

unfoldable pub after_claim : Job → Claimed → Cache → JobEnd × Cache
unfolding finish fetch delete_objects
after_claim job coalesced c = (was_coalesced, c)
after_claim job (refused e) c = (was_refused e, c)
after_claim job (claimed claim d) c =
    finish job claim
      (fetch claim.configuration.max_object_bytes
        (job.download claim.configuration.max_object_bytes claim.remote_url claim.kind))
      (job.meanwhile (delete_objects claim.evicted_objects d))

unfoldable pub process : Job → Cache → JobEnd × Cache
unfolding after_claim
process job c = after_claim job (claim_rows job.media_id job.now c) c
