-- ===== src/MediaCache/Quota.antt =====
-- The cache stays within its quota, whatever its processes do and in whatever order.
pub mod Runs
use Prim.Native.String.{String}
use mirth_spool.Base.{
  ℕ, zero, suc, ◌+◌, ◌-◌, ◌*◌, ◌≤◌, ◌<◌, ◌≡◌, refl, sym, subst, ap, ◌∙◌, Bool, true, false, not,
  ◌&&◌, Option, none, some, List, [], ◌∷◌, arith, leb, ltb, ◌==◌, if◌then◌else◌, length, find,
  Bool-cases, Option-cases, inl, inr,
}
use native.Mathlib.Nat.{le_trans}
use mirth_spool.Base.Counts.{count-imp}
use mirth_spool.Base.Table.{update_where, count_where, count-update_where}
use mirth_spool.Storage.Policy.{CachePolicyName, CacheCandidate, is_empty}
use mirth_spool.Storage.Policy.Evicted.{total_size}
use mirth_spool.Storage.Policy.Selected.{select_evictions_enough}
use mirth_spool.MediaCache.Rows.{
  Asset, CacheConfiguration, Cache, is_cached, is_fetching, or_zero, has_asset_id, used_bytes,
  in_state, is_waiting_id, queue_asset, mark_media_queued, is_queued_id, unqueue_asset,
  reset_queued_media, is_touchable, touch_asset, touch_media_access,
}
use mirth_spool.MediaCache.Claim.{
  MediaCacheError, Claim, Claimed, refused, coalesced, claimed, is_claimable, bytes_needed,
  evictions, ids_of, is_among, evict_asset, fetch_asset, reserve, claim_rows,
}
use mirth_spool.MediaCache.Job.{
  Verified, Written, wrote, gave_up, prepare_write, Download, failed, received, Fetched, object,
  unfetched, written_as, fetch, CacheFailure, is_fetching_id, cached_asset, record_object,
  failed_asset, record_failure, delete_object,
}
use mirth_spool.MediaCache.Evict.{selected_ids, clear_asset, evict_rows}
use mirth_spool.MediaCache.Freed.{counted, weight, evictions-weight}

-- What a row may need: the bytes that are stored, or the room that a fetch has reserved.
load : ℕ → Asset → ℕ
load largest a = counted a + (if is_fetching a.cache_state then largest else 0)

load_all : ℕ → List Asset → ℕ
load_all largest [] = 0
load_all largest (a ∷ rest) = load largest a + load_all largest rest

-- The objects that are stored, and one of the largest size for each fetch, are within the quota;
-- identifiers are unique.
pub record IsWithin (c : Cache) : Type 0 where
  pub room :
      used_bytes c.assets
        + count_where (in_state is_fetching) c.assets * c.configuration.max_object_bytes
      ≤ c.configuration.quota_bytes
  pub ids : (i : ℕ) → count_where (has_asset_id i) c.assets ≤ 1

load-used :
    (largest : ℕ) (xs : List Asset)
    → load_all largest xs ≡ used_bytes xs + count_where (in_state is_fetching) xs * largest
unfolding load_all load used_bytes count_where in_state
load-used largest [] = grind arith
load-used largest (a ∷ rest) = elim (Bool-cases (is_fetching a.cache_state)) [
  | inl e ↦ rw e (grind (arith, load-used largest rest))
  | inr e ↦ rw e (grind (arith, load-used largest rest))
]

load-update :
    (largest : ℕ) (p : Asset → Bool) (f : Asset → Asset) (xs : List Asset)
    → ((a : Asset) → p a ≡ true → load largest (f a) ≤ load largest a)
    → load_all largest (update_where p f xs) ≤ load_all largest xs
unfolding load_all update_where
load-update largest p f [] h = omega arith
load-update largest p f (a ∷ rest) h = elim (Bool-cases (p a)) [
  | inl e ↦ rw e (omega (arith, h a e, load-update largest p f rest h))
  | inr e ↦ rw e (omega (arith, load-update largest p f rest h))
]

-- An update that keeps identifiers and lowers no room keeps the quota.
update-IsWithin :
    (c : Cache) (p : Asset → Bool) (f : Asset → Asset)
    → ((a : Asset)
        → p a ≡ true
        → load c.configuration.max_object_bytes (f a) ≤ load c.configuration.max_object_bytes a)
    → ((a : Asset) → (f a).id ≡ a.id)
    → IsWithin c
    → IsWithin (record c { assets = update_where p f c.assets })
unfolding has_asset_id
update-IsWithin c p f less same w =
    let m = c.configuration.max_object_bytes in
    record {
      room = omega (
        arith,
        load-used m c.assets,
        load-used m (update_where p f c.assets),
        load-update m p f c.assets less,
        w.room,
      );
      ids = λ i.
          rw
            (count-update_where (has_asset_id i) p f (λ a h. ap (λ (k : ℕ). k == i) (same a))
              c.assets)
            (w.ids i);
    }

prepare-bounded :
    (largest count n : ℕ) (chunks : List (List ℕ)) (broken : Option MediaCacheError)
    → count ≤ largest
    → prepare_write largest count chunks broken ≡ wrote n
    → n ≤ largest
unfolding prepare_write
prepare-bounded largest count n [] none h e = ground (arith, e, h)
prepare-bounded largest count n [] (some x) h e = cc
prepare-bounded largest count n (chunk ∷ rest) broken h e =
    elim (Bool-cases (ltb largest (count + length chunk))) [
      | inl long ↦ cc (rw (long, prepare_write) at e)
      | inr fits ↦
          prepare-bounded largest (count + length chunk) n rest broken (ground (arith, fits))
            (rw (fits, prepare_write) at e)
    ]

written-bounded :
    (largest : ℕ) (v w : Verified) (etag : String) (r : Written)
    → ((n : ℕ) → r ≡ wrote n → n ≤ largest)
    → written_as v etag r ≡ object w
    → w.byte_length ≤ largest
unfolding written_as
written-bounded largest v w etag (gave_up e) h k = cc
written-bounded largest v w etag (wrote n) h k = ground (arith, h n refl, k)

-- An object that was fetched is no larger than the limit.
pub fetch_bounded :
    (largest : ℕ) (d : Download) (v : Verified)
    → fetch largest d ≡ object v
    → v.byte_length ≤ largest
unfolding fetch
fetch_bounded largest (failed e) v k = cc
fetch_bounded largest (received chunks broken verified etag) v k =
    written-bounded largest verified v etag (prepare_write largest 0 chunks broken)
      (λ n e. prepare-bounded largest 0 n chunks broken (omega arith) e) k

queued-load :
    (largest id : ℕ) (a : Asset)
    → is_waiting_id id a ≡ true
    → load largest (queue_asset a) ≤ load largest a
unfolding load is_waiting_id queue_asset
queued-load largest id a h = omega arith

unqueued-load : (largest : ℕ) (a : Asset) → load largest (unqueue_asset a) ≤ load largest a
unfolding load unqueue_asset
unqueued-load largest a = omega arith

recorded-load :
    (id : ℕ) (k : CacheConfiguration) (largest at key : ℕ) (v : Verified) (a : Asset)
    → v.byte_length ≤ largest
    → is_fetching_id id a ≡ true
    → load largest (cached_asset k at v key a) ≤ load largest a
unfolding load is_fetching_id cached_asset
recorded-load id k largest at key v a small h = ground (arith, h)

failed-load :
    (largest : ℕ) (f : CacheFailure) (a : Asset) → load largest (failed_asset f a) ≤ load largest a
unfolding load failed_asset
failed-load largest f a = elim (Bool-cases f.blocked) [
  | inl e ↦ rw e (omega arith)
  | inr e ↦ rw e (omega arith)
]

cleared-load : (largest : ℕ) (a : Asset) → load largest (clear_asset a) ≤ load largest a
unfolding load clear_asset evict_asset
cleared-load largest a = omega arith

-- One row more is being fetched.
fetched-load :
    (largest id : ℕ) (policy : CachePolicyName) (a : Asset)
    → is_queued_id id a ≡ true
    → load largest (fetch_asset policy a) ≤ load largest a + largest
unfolding load is_queued_id fetch_asset
fetched-load largest id policy a h = ground (arith, h)

none-updated :
    (largest : ℕ) (p : Asset → Bool) (f : Asset → Asset) (xs : List Asset)
    → count_where p xs ≡ 0
    → load_all largest (update_where p f xs) ≡ load_all largest xs
unfolding load_all update_where count_where
none-updated largest p f [] h = refl
none-updated largest p f (a ∷ rest) h = elim (Bool-cases (p a)) [
  | inl e ↦ absurd (ground (arith, h, e))
  | inr e ↦
      let less : count_where p rest ≡ 0 = ground (arith, h, e) in
      rw e (omega (arith, none-updated largest p f rest less))
]

one-updated :
    (largest : ℕ) (p : Asset → Bool) (f : Asset → Asset) (xs : List Asset)
    → ((a : Asset) → p a ≡ true → load largest (f a) ≤ load largest a + largest)
    → count_where p xs ≤ 1
    → load_all largest (update_where p f xs) ≤ load_all largest xs + largest
unfolding load_all update_where count_where
one-updated largest p f [] h one = omega arith
one-updated largest p f (a ∷ rest) h one = elim (Bool-cases (p a)) [
  | inl e ↦
      let less : count_where p rest ≡ 0 = ground (arith, one, e) in
      rw e (omega (arith, h a e, none-updated largest p f rest less))
  | inr e ↦
      let less : count_where p rest ≤ 1 = ground (arith, one, e) in
      rw e (omega (arith, one-updated largest p f rest h less))
]

-- An evicted row frees what it counted.
evicted-load :
    (largest : ℕ) (ids : List ℕ) (xs : List Asset)
    → load_all largest (update_where (is_among ids) evict_asset xs) + weight (is_among ids) xs
      ≤ load_all largest xs
unfolding load_all update_where weight evict_asset load
evicted-load largest ids [] = omega arith
evicted-load largest ids (a ∷ rest) = elim (Bool-cases (is_among ids a)) [
  | inl e ↦ rw e (omega (arith, evicted-load largest ids rest))
  | inr e ↦ rw e (omega (arith, evicted-load largest ids rest))
]
