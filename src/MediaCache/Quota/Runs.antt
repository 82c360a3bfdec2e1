-- ===== src/MediaCache/Quota/Runs.antt =====
-- Claims keep the quota, and so does every run of the processes.
use mirth_spool.Base.{
  ℕ, suc, ◌+◌, ◌-◌, ◌*◌, ◌≤◌, ◌≡◌, refl, sym, subst, Bool, false, not, ◌&&◌, List, ◌∷◌, arith, ◌==◌,
  find, filter, Bool-cases, Option-cases, inl, inr,
}
use native.Mathlib.Nat.{le_trans}
use mirth_spool.Base.Counts.{count-imp}
use mirth_spool.Base.Table.{update_where, count_where, count-update_where}
use mirth_spool.Storage.Policy.{is_empty}
use mirth_spool.Storage.Policy.Evicted.{total_size}
use mirth_spool.Storage.Policy.Selected.{select_evictions_enough}
use mirth_spool.MediaCache.Rows.{
  Asset, Cache, is_fetching, has_asset_id, used_bytes, in_state, is_waiting_id, queue_asset,
  mark_media_queued, is_queued_id, unqueue_asset, reset_queued_media, is_touchable, touch_asset,
  touch_media_access,
}
use mirth_spool.MediaCache.Claim.{
  Claim, claimed, is_claimable, bytes_needed, evictions, ids_of, is_among, evict_asset, fetch_asset,
  reserve, claim_rows,
}
use mirth_spool.MediaCache.Job.{
  Verified, Download, object, fetch, CacheFailure, is_fetching_id, cached_asset, record_object,
  failed_asset, record_failure, delete_object,
}
use mirth_spool.MediaCache.Evict.{selected_ids, clear_asset, evict_rows}
use mirth_spool.MediaCache.Freed.{weight, evictions-weight}
use mirth_spool.MediaCache.Quota.{
  load, load_all, IsWithin, load-used, update-IsWithin, fetch_bounded, queued-load, unqueued-load,
  recorded-load, failed-load, cleared-load, fetched-load, one-updated, evicted-load,
}

-- The evictions of a claim that is granted free what it needs.
abbrev pub IsCovered : ℕ → Cache → Type 0
IsCovered now c = bytes_needed c ≤ total_size (evictions now c)

covered :
    (now : ℕ) (c : Cache)
    → (not (bytes_needed c == 0) && is_empty (evictions now c)) ≡ false
    → IsCovered now c
unfolding evictions
covered now c h = elim (Bool-cases (bytes_needed c == 0)) [
  | inl e ↦ ground (arith, e)
  | inr e ↦ select_evictions_enough _ _ now _ (rw e at h)
]

pub claim_rows-reserve :
    (id now : ℕ) (c d : Cache) (claim : Claim)
    → claim_rows id now c ≡ claimed claim d
    → (d ≡ reserve id now c) × IsCovered now c
unfolding claim_rows
claim_rows-reserve id now c d claim e = elim (Option-cases (find (has_asset_id id) c.assets)) [
  | inl q ↦ cc (rw (q, claim_rows) at e)
  | inr (asset, q) ↦ elim (Bool-cases (is_claimable c asset)) [
    | inr no_claim ↦ cc (rw (q, no_claim, claim_rows) at e)
    | inl good ↦ elim (Bool-cases (not (bytes_needed c == 0) && is_empty (evictions now c))) [
      | inl full ↦ cc (rw (q, good, full, claim_rows) at e)
      | inr free ↦ (sym (granted _ _ _ _ (rw (q, good, free, claim_rows) at e)), covered now c free)
    ]
  ]
]
  where
    granted : (a b : Claim) (x y : Cache) → claimed a x ≡ claimed b y → x ≡ y
    granted a b x y k = cc

room_left :
    (m : ℕ) (xs ys zs : List Asset) (freed quota : ℕ)
    → freed + load_all m ys ≤ load_all m xs
    → load_all m zs ≤ load_all m ys + m
    → used_bytes xs + (count_where (in_state is_fetching) xs + 1) * m - quota ≤ freed
    → used_bytes xs + count_where (in_state is_fetching) xs * m ≤ quota
    → used_bytes zs + count_where (in_state is_fetching) zs * m ≤ quota
room_left m xs ys zs freed quota free more enough room =
    let spread : (count_where (in_state is_fetching) xs + 1) * m
        ≡ count_where (in_state is_fetching) xs * m + m =
      grind arith in
    omega (arith, load-used m xs, load-used m zs, free, more, enough, room, spread)

reserve-IsWithin :
    (id now : ℕ) (c : Cache) → IsCovered now c → IsWithin c → IsWithin (reserve id now c)
unfolding reserve has_asset_id fetch_asset evict_asset is_queued_id bytes_needed
reserve-IsWithin id now c cover w =
    let m = c.configuration.max_object_bytes in
    let ids = ids_of (evictions now c) in
    let left = update_where (is_among ids) evict_asset c.assets in
    let p = is_queued_id id in
    let f = fetch_asset c.configuration.policy in
    let unique : (i : ℕ) → count_where (has_asset_id i) left ≤ 1 = λ i.
      rw (count-update_where (has_asset_id i) (is_among ids) evict_asset (λ a h. refl) c.assets)
        (w.ids i) in
    let one : count_where p left ≤ 1 =
      le_trans (count-imp p (has_asset_id id) left (λ a h. ground (arith, h))) (unique id) in
    let free : weight (is_among ids) c.assets + load_all m left ≤ load_all m c.assets =
      omega (arith, evicted-load m ids c.assets) in
    let more : load_all m (update_where p f left) ≤ load_all m left + m =
      one-updated m p f left (λ a h. fetched-load m id c.configuration.policy a h) one in
    let enough : bytes_needed c ≤ weight (is_among ids) c.assets =
      le_trans cover (evictions-weight c now w.ids) in
    record {
      room =
          room_left m c.assets left (update_where p f left) (weight (is_among ids) c.assets)
            c.configuration.quota_bytes free more enough w.room;
      ids = λ i. rw (count-update_where (has_asset_id i) p f (λ a h. refl) left) (unique i);
    }

-- One write of one of the processes. An object that is recorded was fetched under the limit.
pub data CacheStep (c : Cache) : Cache → Type 0 where
  queues : (id : ℕ) → CacheStep c (mark_media_queued id c).1
  unqueues : (id : ℕ) → CacheStep c (reset_queued_media id c)
  touches : (id now interval : ℕ) → CacheStep c (touch_media_access id now interval c)
  claims :
      (id now : ℕ) (claim : Claim) (d : Cache)
      → claim_rows id now c ≡ claimed claim d
      → CacheStep c d
  records :
      (id : ℕ) (claim : Claim) (at key : ℕ) (download : Download) (v : Verified)
      → fetch c.configuration.max_object_bytes download ≡ object v
      → CacheStep c (record_object id claim at v key c).1
  fails : (id : ℕ) (f : CacheFailure) → CacheStep c (record_failure id f c)
  evicts : (purge : Bool) (now : ℕ) → CacheStep c (evict_rows purge now c)
  stores : (key : ℕ) → CacheStep c (record c { objects = key ∷ c.objects; next_key = suc key })
  removes : (key : ℕ) → CacheStep c (delete_object key c)

pub data CacheSteps (start : Cache) : Cache → Type 0 where
  here : CacheSteps start start
  next : {c d : Cache} → CacheSteps start c → CacheStep c d → CacheSteps start d

touched-load : (largest now : ℕ) (a : Asset) → load largest (touch_asset now a) ≤ load largest a
unfolding load touch_asset
touched-load largest now a = omega arith

with_objects :
    (c : Cache) (objects : List ℕ) (n : ℕ)
    → IsWithin c
    → IsWithin (record c { objects = objects; next_key = n })
with_objects c objects n w = record { room = w.room; ids = w.ids }

recorded-IsWithin :
    (c : Cache) (id : ℕ) (claim : Claim) (at key : ℕ) (v : Verified)
    → v.byte_length ≤ c.configuration.max_object_bytes
    → IsWithin c
    → IsWithin (record_object id claim at v key c).1
unfolding record_object cached_asset
recorded-IsWithin c id claim at key v small w =
    let updated =
      update-IsWithin c (is_fetching_id id) (cached_asset claim.configuration at v key)
        (λ a h.
          recorded-load id claim.configuration c.configuration.max_object_bytes at key v a small h)
        (λ a. refl) w in
    record { room = updated.room; ids = updated.ids }

CacheStep-IsWithin : {c d : Cache} → CacheStep c d → IsWithin c → IsWithin d
unfolding mark_media_queued reset_queued_media touch_media_access record_failure evict_rows
    delete_object queue_asset unqueue_asset touch_asset failed_asset clear_asset evict_asset
CacheStep-IsWithin {c} (queues id) w =
    update-IsWithin c (is_waiting_id id) queue_asset
      (λ a h. queued-load c.configuration.max_object_bytes id a h) (λ a. refl) w
CacheStep-IsWithin {c} (unqueues id) w =
    update-IsWithin c (is_queued_id id) unqueue_asset
      (λ a h. unqueued-load c.configuration.max_object_bytes a) (λ a. refl) w
CacheStep-IsWithin {c} (touches id now interval) w =
    update-IsWithin c (is_touchable id now interval) (touch_asset now)
      (λ a h. touched-load c.configuration.max_object_bytes now a) (λ a. refl) w
CacheStep-IsWithin {c} (claims id now claim d e) w =
    let (same, cover) = claim_rows-reserve id now c d claim e in
    subst IsWithin (sym same) (reserve-IsWithin id now c cover w)
CacheStep-IsWithin {c} (records id claim at key download v e) w =
    recorded-IsWithin c id claim at key v
      (fetch_bounded c.configuration.max_object_bytes download v e) w
CacheStep-IsWithin {c} (fails id f) w =
    update-IsWithin c (is_fetching_id id) (failed_asset f)
      (λ a h. failed-load c.configuration.max_object_bytes f a) (λ a. refl) w
CacheStep-IsWithin {c} (evicts purge now) w =
    update-IsWithin c (is_among (selected_ids purge now c)) clear_asset
      (λ a h. cleared-load c.configuration.max_object_bytes a) (λ a. refl) w
CacheStep-IsWithin {c} (stores key) w = with_objects c (key ∷ c.objects) (suc key) w
CacheStep-IsWithin {c} (removes key) w =
    with_objects c (filter (λ k. not (k == key)) c.objects) c.next_key w

-- While the settings stay as they are, the media that are stored, and room for one object of the
-- largest size for each that is being fetched, stay within the quota: however schedules, claims,
-- recorded objects, failures, evictions and purges of any number of workers interleave.
pub CacheSteps-IsWithin : {start c : Cache} → IsWithin start → CacheSteps start c → IsWithin c
CacheSteps-IsWithin w here = w
CacheSteps-IsWithin w (next steps step) = CacheStep-IsWithin step (CacheSteps-IsWithin w steps)
