-- ===== src/Storage/Policy/Reference.antt =====
-- The order of the objects to evict, as a specification: by rank.
use mirth_spool.Base.{
  ℕ, ◌≡◌, refl, Bool, true, false, not, ◌||◌, Option, none, some, List, [], ◌∷◌, arith, leb, ltb,
  if◌then◌else◌, filter,
}
use mirth_spool.Base.Sort.{sort}
use mirth_spool.Base.Rank.{ranks_before}
use mirth_spool.Storage.Policy.{
  CachePolicyName, CacheCandidate, is_favorites_only, is_expired, accessed_at, evicts_before,
  is_eligible, eligible,
}

-- 0 from the expiry on
unfoldable pub expiry_rank : ℕ → Option ℕ → ℕ
expiry_rank now none = 1
expiry_rank now (some t) = if ltb now t then 1 else 0

unfoldable pub favorite_rank : Bool → ℕ
favorite_rank true = 1
favorite_rank false = 0

-- The last access, or else the time of the caching, or else 0.
unfoldable pub access_rank : Option ℕ → Option ℕ → ℕ
access_rank (some t) cached = t
access_rank none (some t) = t
access_rank none none = 0

-- The smallest rank goes first.
unfoldable pub eviction_rank : ℕ → CacheCandidate → List ℕ
eviction_rank now c =
    expiry_rank now c.cache_expires_at
    ∷ favorite_rank c.favorite
    ∷ access_rank c.last_accessed_at c.cached_at
    ∷ c.id
    ∷ []

-- Under FAVORITES_ONLY a favourite stays.
unfoldable pub may_go : CachePolicyName → Bool → Bool
may_go CachePolicyName.favorites_only true = false
may_go CachePolicyName.favorites_only false = true
may_go CachePolicyName.all_within_quota f = true
may_go CachePolicyName.none_cached f = true
may_go CachePolicyName.ttl f = true

-- The objects that may be evicted, in the order in which they go.
unfoldable pub eviction_order : ℕ → CachePolicyName → List CacheCandidate → List CacheCandidate
eviction_order now policy candidates =
    sort (λ a b. ranks_before (eviction_rank now a) (eviction_rank now b))
      (filter (λ (c : CacheCandidate). may_go policy c.favorite) candidates)

is_eligible-may_go :
    (policy : CachePolicyName) (c : CacheCandidate)
    → is_eligible policy c ≡ may_go policy c.favorite
unfolding is_eligible may_go
is_eligible-may_go policy c = go policy c.favorite
  where
    go : (p : CachePolicyName) (f : Bool) → (not (is_favorites_only p) || not f) ≡ may_go p f
    go CachePolicyName.favorites_only true = refl
    go CachePolicyName.favorites_only false = refl
    go CachePolicyName.all_within_quota f = refl
    go CachePolicyName.none_cached f = refl
    go CachePolicyName.ttl f = refl

accessed_at-access_rank :
    (c : CacheCandidate) → accessed_at c ≡ access_rank c.last_accessed_at c.cached_at
unfolding accessed_at access_rank
accessed_at-access_rank c = go c.last_accessed_at c.cached_at
  where
    go :
        (last cached : Option ℕ)
        → elim last [ some t ↦ t | none ↦ (elim cached [ some t ↦ t | none ↦ 0 ]) ]
          ≡ access_rank last cached
    go (some t) cached = refl
    go none (some t) = refl
    go none none = refl

is_expired-expiry_rank :
    (now : ℕ) (c : CacheCandidate)
    → expiry_rank now c.cache_expires_at ≡ (if is_expired now c then 0 else 1)
unfolding is_expired expiry_rank
is_expired-expiry_rank now c = go c.cache_expires_at
  where
    go :
        (expires : Option ℕ)
        → expiry_rank now expires
          ≡ (if (elim expires [ none ↦ false | some t ↦ leb t now ]) then 0 else 1)
    go none = refl
    go (some t) = ground arith

-- The comparator is the order of the ranks.
evicts_before-ranks :
    (now : ℕ) (a b : CacheCandidate)
    → evicts_before now a b ≡ ranks_before (eviction_rank now a) (eviction_rank now b)
unfolding evicts_before eviction_rank ranks_before favorite_rank
evicts_before-ranks now a b =
    rw
      (
        is_expired-expiry_rank now a,
        is_expired-expiry_rank now b,
        accessed_at-access_rank a,
        accessed_at-access_rank b,
      )
      (ground arith)

pub eligible-eviction_order :
    (now : ℕ) (policy : CachePolicyName) (candidates : List CacheCandidate)
    → eligible now policy candidates ≡ eviction_order now policy candidates
unfolding eligible eviction_order
eligible-eviction_order now policy candidates i =
    sort (λ a b. evicts_before-ranks now a b i)
      (filter (λ (c : CacheCandidate). is_eligible-may_go policy c i) candidates)
