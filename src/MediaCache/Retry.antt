-- ===== src/MediaCache/Retry.antt =====
-- What an attempt does after an attempt that failed.
use mirth_spool.Base.{
  ℕ, suc, ◌≡◌, refl, sym, subst, ap, ◌∙◌, Bool, true, false, Option, none, some, List, [], ◌∷◌,
  ◌==◌, if◌then◌else◌, find, All, Bool-cases, Option-cases, inl, inr,
}
use mirth_spool.Base.Each.{trivial}
use mirth_spool.Base.Table.{All-update_where, update_where-each, find-some}
use mathlib.Core.Option.{some-injective}
use mirth_spool.MediaCache.Quota.Runs.{claim_rows-reserve}
use mirth_spool.MediaCache.Rows.{Asset, Cache, is_queued, has_asset_id, is_queued_id}
use mirth_spool.MediaCache.Claim.{
  MediaCacheError, Claim, Claimed, refused, coalesced, claimed, is_claimable, fetch_asset, reserve,
  claim_rows,
}
use mirth_spool.MediaCache.Job.{
  Job, JobEnd, was_coalesced, was_cached, was_refused, threw, Fetched, object, unfetched, Verified,
  CacheFailure, is_fetching_id, failed_asset, record_failure, record_object, delete_object,
  delete_objects, handle_failure, finish, after_claim, process, storage_failed, safe_cache_failure,
}

-- No row with the identifier is queued.
abbrev pub IsUnqueued : ℕ → List Asset → Type 0
IsUnqueued id xs = All (λ a. is_queued_id id a ≡ false) xs

reserved-IsUnqueued : (id now : ℕ) (c : Cache) → IsUnqueued id (reserve id now c).assets
unfolding reserve fetch_asset is_queued_id
reserved-IsUnqueued id now c =
    update_where-each (λ a. Unit {0}) (λ a. is_queued_id id a ≡ false) (is_queued_id id)
      (fetch_asset c.configuration.policy) _ (λ a u h. refl) (λ a u h. h) (trivial _)

failed-unqueued :
    (id : ℕ) (f : CacheFailure) (a : Asset) → is_queued_id id (failed_asset f a) ≡ false
unfolding is_queued_id failed_asset
failed-unqueued id f a = elim (Bool-cases f.blocked) [ inl e ↦ rw e refl | inr e ↦ rw e refl ]

failure-IsUnqueued :
    (id : ℕ) (f : CacheFailure) (c : Cache)
    → IsUnqueued id c.assets
    → IsUnqueued id (record_failure id f c).assets
unfolding record_failure
failure-IsUnqueued id f c h =
    All-update_where (λ a. is_queued_id id a ≡ false) (is_fetching_id id) (failed_asset f) c.assets
      (λ a k. failed-unqueued id f a) h

-- What is left by a job that threw.
data LeavesUnqueued (id : ℕ) : JobEnd × Cache → Type 0 where
  thrown : (f : CacheFailure) (d : Cache) → IsUnqueued id d.assets → LeavesUnqueued id (threw f, d)
  as_coalesced : (d : Cache) → LeavesUnqueued id (was_coalesced, d)
  as_cached : (v : Verified) (d : Cache) → LeavesUnqueued id (was_cached v, d)
  as_refused : (e : MediaCacheError) (d : Cache) → LeavesUnqueued id (was_refused e, d)

handled :
    (id : ℕ) (e : Option MediaCacheError) (key : Option ℕ) (c : Cache)
    → IsUnqueued id c.assets
    → LeavesUnqueued id (handle_failure id e key c)
unfolding handle_failure delete_object
handled id e none c h = thrown _ _ (failure-IsUnqueued id (safe_cache_failure e) c h)
handled id e (some k) c h =
    thrown _ _ (failure-IsUnqueued id (safe_cache_failure e) (delete_object k c) h)

recorded :
    (id key : ℕ) (v : Verified) (none_changed : Bool) (d : Cache)
    → LeavesUnqueued id
        (if none_changed then (was_coalesced, delete_object key d) else (was_cached v, d))
recorded id key v true d = as_coalesced _
recorded id key v false d = as_cached v d

finished :
    (job : Job) (claim : Claim) (f : Fetched) (c : Cache)
    → IsUnqueued job.media_id c.assets
    → LeavesUnqueued job.media_id (finish job claim f c)
unfolding finish storage_failed
finished job claim (unfetched e) c h = handled job.media_id (some e) none c h
finished job claim (object v) c h =
    let key = c.next_key in
    let stored : Cache = record c { objects = key ∷ c.objects; next_key = suc key } in
    let written = record_object job.media_id claim job.cached_at v key stored in
    elim (Bool-cases job.commits) [
      | inr e ↦ rw (e, finish) (handled job.media_id (some storage_failed) none c h)
      | inl e ↦ elim (Bool-cases job.records) [
        | inr k ↦ rw (e, k, finish) (handled job.media_id none (some key) stored h)
        | inl k ↦ rw (e, k, finish) (recorded job.media_id key v (written.0 == 0) written.1)
      ]
    ]

deleted-assets : (keys : List ℕ) (c : Cache) → (delete_objects keys c).assets ≡ c.assets
unfolding delete_objects delete_object
deleted-assets [] c = refl
deleted-assets (k ∷ ks) c = deleted-assets ks (delete_object k c)

-- While the object is fetched, nobody puts the medium into the queue.
abbrev pub IsLeftAlone : Job → Type 0
IsLeftAlone job =
    (c : Cache)
    → IsUnqueued job.media_id c.assets
    → IsUnqueued job.media_id (job.meanwhile c).assets

claimed-unqueued :
    (job : Job) (r : Claimed) (c : Cache)
    → IsLeftAlone job
    → ((claim : Claim) (d : Cache) → r ≡ claimed claim d → IsUnqueued job.media_id d.assets)
    → LeavesUnqueued job.media_id (after_claim job r c)
unfolding after_claim
claimed-unqueued job coalesced c alone h = as_coalesced c
claimed-unqueued job (refused e) c alone h = as_refused e c
claimed-unqueued job (claimed claim d) c alone h = finished job claim _ _ (
    alone _ (
      subst (IsUnqueued job.media_id) (sym (deleted-assets claim.evicted_objects d))
        (h claim d refl)))

claim_rows-IsUnqueued :
    (id now : ℕ) (c d : Cache) (claim : Claim)
    → claim_rows id now c ≡ claimed claim d
    → IsUnqueued id d.assets
claim_rows-IsUnqueued id now c d claim e =
    subst (λ (x : Cache). IsUnqueued id x.assets) (sym (claim_rows-reserve id now c d claim e).0)
      (reserved-IsUnqueued id now c)

unclaimable :
    (id : ℕ) (c : Cache) (a : Asset)
    → is_queued_id id a ≡ false
    → has_asset_id id a ≡ true
    → is_claimable c a ≡ false
unfolding is_queued_id has_asset_id is_claimable
unclaimable id c a h k = elim (Bool-cases (is_queued a.cache_state)) [
  | inl e ↦ cc (rw (e, k) at h)
  | inr e ↦ rw e refl
]

unqueued-found :
    (id : ℕ) (xs : List Asset) (a : Asset)
    → IsUnqueued id xs
    → find (has_asset_id id) xs ≡ some a
    → is_queued_id id a ≡ false
unqueued-found id [] a h e = cc
unqueued-found id (x ∷ xs) a h e = elim (Bool-cases (has_asset_id id x)) [
  | inl here ↦ ap (is_queued_id id) (sym (some-injective _ _ (rw here at e))) ∙ h.0
  | inr other ↦ unqueued-found id xs a h.1 (rw other at e)
]

unqueued-coalesced :
    (id now : ℕ) (c : Cache) → IsUnqueued id c.assets → claim_rows id now c ≡ coalesced
unfolding claim_rows
unqueued-coalesced id now c h = elim (Option-cases (find (has_asset_id id) c.assets)) [
  | inl q ↦ rw (q, claim_rows) refl
  | inr (a, q) ↦
      let no_claim =
        unclaimable id c a (unqueued-found id c.assets a h q)
          (find-some (has_asset_id id) c.assets a q) in
      rw (q, no_claim, claim_rows) refl
]

left :
    (id : ℕ) (r : JobEnd × Cache) (f : CacheFailure) (d : Cache)
    → LeavesUnqueued id r
    → r ≡ (threw f, d)
    → IsUnqueued id d.assets
left id r f d (thrown g x h) e = subst (λ (p : JobEnd × Cache). IsUnqueued id p.1.assets) e h
left id r f d (as_coalesced x) e = cc (ap (λ (p : JobEnd × Cache). p.0) e)
left id r f d (as_cached v x) e = cc (ap (λ (p : JobEnd × Cache). p.0) e)
left id r f d (as_refused v x) e = cc (ap (λ (p : JobEnd × Cache). p.0) e)

-- After an attempt that threw, with an error that may be tried again or not, every further attempt
-- for the medium is coalesced and changes nothing, unless another process queued the medium while
-- the object was fetched: an attempt wants it QUEUED.
pub process_again :
    (job again : Job) (c d : Cache) (f : CacheFailure)
    → IsLeftAlone job
    → process job c ≡ (threw f, d)
    → again.media_id ≡ job.media_id
    → process again d ≡ (was_coalesced, d)
unfolding process after_claim
process_again job again c d f alone e same =
    let unqueued =
      left job.media_id (process job c) f d
        (claimed-unqueued job (claim_rows job.media_id job.now c) c alone
          (λ claim x k. claim_rows-IsUnqueued job.media_id job.now c x claim k))
        e in
    let nothing =
      unqueued-coalesced again.media_id again.now d
        (subst (λ (i : ℕ). IsUnqueued i d.assets) (sym same) unqueued) in
    rw (nothing, process) refl
