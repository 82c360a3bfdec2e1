-- ===== src/MediaCache/Freed.antt =====
-- What the eviction of a claim frees: at least the bytes of the objects that it selected.
use mirth_spool.Base.{
  ℕ, ◌+◌, ◌≤◌, ◌≡◌, refl, ap, ◌∙◌, Bool, true, false, ◌&&◌, List, [], ◌∷◌, arith, leb, ◌==◌,
  if◌then◌else◌, any, elem, filter, All, Bool-cases, inl, inr,
}
use native.Mathlib.Nat.{le_trans}
use mirth_spool.Base.Counts.{count-take-le, count-filter-le, count-sort, count-map}
use mirth_spool.Base.Each.{each, filter-each, take-each, map-each}
use mirth_spool.Base.Sort.{sort-All}
use mirth_spool.Base.Table.{update_where, count_where}
use mirth_spool.Storage.Policy.{CacheCandidate}
use mirth_spool.Storage.Policy.Evicted.{total_size}
use mirth_spool.Storage.Policy.Selected.{select_evictions-All, select_evictions-count}
use mirth_spool.MediaCache.Rows.{Asset, Cache, is_cached, or_zero, has_asset_id, used_bytes}
use mirth_spool.MediaCache.Claim.{
  eviction_order, is_stored, candidate_of, candidates, evictions, ids_of, is_among, evict_asset,
}

-- the bytes that a row counts
abbrev pub counted : Asset → ℕ
counted a = if is_cached a.cache_state then or_zero a.byte_length else 0

unfoldable pub weight : (Asset → Bool) → List Asset → ℕ
weight p [] = 0
weight p (a ∷ rest) = (if p a then counted a else 0) + weight p rest

pub used-evicted :
    (ids : List ℕ) (xs : List Asset)
    → used_bytes (update_where (is_among ids) evict_asset xs) + weight (is_among ids) xs
      ≡ used_bytes xs
unfolding used_bytes update_where weight evict_asset is_among
used-evicted ids [] = refl
used-evicted ids (a ∷ rest) = elim (Bool-cases (elem a.id ids)) [
  | inl e ↦ rw e (omega (arith, used-evicted ids rest))
  | inr e ↦ rw e (omega (arith, used-evicted ids rest))
]

backs : CacheCandidate → Asset → Bool
backs c a = a.id == c.id && leb c.size (counted a)

weight-backs :
    (c : CacheCandidate) (xs : List Asset)
    → any (backs c) xs ≡ true
    → c.size ≤ weight (has_asset_id c.id) xs
unfolding backs weight has_asset_id
weight-backs c [] h = cc
weight-backs c (a ∷ rest) h = elim (Bool-cases (a.id == c.id && leb c.size (counted a))) [
  | inl e ↦ ground (arith, e)
  | inr e ↦ omega (arith, weight-backs c rest (rw e at h))
]

among-cons :
    (i : ℕ) (ids : List ℕ) (a : Asset)
    → elem i ids ≡ false
    → (if is_among (i ∷ ids) a then counted a else 0)
      ≡ (if has_asset_id i a then counted a else 0) + (if is_among ids a then counted a else 0)
unfolding is_among has_asset_id
among-cons i ids a out = elim (Bool-cases (i == a.id)) [
  | inl e ↦
      let same : a.id ≡ i = ground (arith, e) in
      let gone : elem a.id ids ≡ false = ap (λ k. elem k ids) same ∙ out in
      let here : (a.id == i) ≡ true = ground (arith, same) in rw (e, gone, here) (omega arith)
  | inr e ↦ let other : (a.id == i) ≡ false = ground (arith, e) in rw (e, other) (omega arith)
]

weight-cons :
    (i : ℕ) (ids : List ℕ) (xs : List Asset)
    → elem i ids ≡ false
    → weight (is_among (i ∷ ids)) xs ≡ weight (has_asset_id i) xs + weight (is_among ids) xs
unfolding weight
weight-cons i ids [] out = refl
weight-cons i ids (a ∷ rest) out = omega (arith, among-cons i ids a out, weight-cons i ids rest out)

has_candidate_id : ℕ → CacheCandidate → Bool
has_candidate_id i c = c.id == i

not_elem :
    (i : ℕ) (cs : List CacheCandidate)
    → count_where (has_candidate_id i) cs ≡ 0
    → elem i (ids_of cs) ≡ false
unfolding count_where has_candidate_id ids_of
not_elem i [] h = refl
not_elem i (c ∷ cs) h = ground (arith, h, not_elem i cs)

-- Candidates with identifiers of their own, each behind a row, weigh at most what their rows do.
total-weight :
    (cs : List CacheCandidate) (xs : List Asset)
    → ((i : ℕ) → count_where (has_candidate_id i) cs ≤ 1)
    → All (λ c. any (backs c) xs ≡ true) cs
    → total_size cs ≤ weight (is_among (ids_of cs)) xs
unfolding total_size count_where has_candidate_id ids_of
total-weight [] xs one h = omega arith
total-weight (c ∷ cs) xs one h =
    let alone : count_where (has_candidate_id c.id) cs ≡ 0 = alone_of c cs (one c.id) in
    let fewer = total-weight cs xs (λ i. fewer_of c cs i (one i)) h.1 in
    rw (weight-cons c.id (ids_of cs) xs (not_elem c.id cs alone))
      (omega (arith, fewer, weight-backs c xs h.0))
  where
    alone_of :
        (c : CacheCandidate) (cs : List CacheCandidate)
        → count_where (has_candidate_id c.id) (c ∷ cs) ≤ 1
        → count_where (has_candidate_id c.id) cs ≡ 0
    alone_of c cs h = ground (arith, h)

    fewer_of :
        (c : CacheCandidate) (cs : List CacheCandidate) (i : ℕ)
        → count_where (has_candidate_id i) (c ∷ cs) ≤ 1
        → count_where (has_candidate_id i) cs ≤ 1
    fewer_of c cs i h = ground (arith, h)

module _ (c : Cache) where
  -- Every stored row is among the rows.
  self_backed :
      (xs : List Asset)
      → All (λ a. is_stored a ≡ true → any (backs (candidate_of c a)) xs ≡ true) xs
  unfolding is_stored backs candidate_of
  self_backed [] = tt
  self_backed (a ∷ rest) = (
    λ h. ground (arith, h),
    each (λ b. is_stored b ≡ true → any (backs (candidate_of c b)) rest ≡ true)
        (λ b. is_stored b ≡ true → any (backs (candidate_of c b)) (a ∷ rest) ≡ true) rest
        (λ b k h. ground (arith, k h)) (self_backed rest),
  )

  abbrev IsBacked : CacheCandidate → Type 0
  IsBacked d = any (backs d) c.assets ≡ true

  evictions-IsBacked : (now : ℕ) → All IsBacked (evictions now c)
  unfolding evictions candidates
  evictions-IsBacked now = select_evictions-All _ _ now _ IsBacked (
      map-each (λ a. any (backs (candidate_of c a)) c.assets ≡ true) IsBacked (candidate_of c) _
        (λ a h. h)
        (take-each (λ a. any (backs (candidate_of c a)) c.assets ≡ true) 500 _
          (sort-All eviction_order (λ a. any (backs (candidate_of c a)) c.assets ≡ true) _
            (filter-each (λ a. is_stored a ≡ true → any (backs (candidate_of c a)) c.assets ≡ true)
              (λ a. any (backs (candidate_of c a)) c.assets ≡ true) is_stored c.assets
              (λ a k s. k s) (self_backed c.assets)))))

  evictions_unique :
      (now i : ℕ)
      → count_where (has_asset_id i) c.assets ≤ 1
      → count_where (has_candidate_id i) (evictions now c) ≤ 1
  unfolding evictions candidates has_candidate_id has_asset_id candidate_of
  evictions_unique now i one =
      let q = has_asset_id i in
      le_trans (select_evictions-count _ _ now _ (has_candidate_id i)) (
        rw (count-map (has_candidate_id i) q (candidate_of c) (candidates c) (λ a. refl)) (
          le_trans (count-take-le q 500 _) (
            rw (count-sort q eviction_order (filter is_stored c.assets))
              (le_trans (count-filter-le q is_stored c.assets) one))))

  -- The evicted rows held the bytes that were selected.
  pub evictions-weight :
      (now : ℕ)
      → ((i : ℕ) → count_where (has_asset_id i) c.assets ≤ 1)
      → total_size (evictions now c) ≤ weight (is_among (ids_of (evictions now c))) c.assets
  evictions-weight now one =
      total-weight (evictions now c) c.assets (λ i. evictions_unique now i (one i))
        (evictions-IsBacked now)
