-- ===== src/Storage/Policy.antt =====
-- packages/storage/src/policy.ts: the cache policy and the choice of the objects to evict. An
-- identifier is a number, and a need of bytes below zero is zero.
pub mod Reference
pub mod Evicted
pub mod Selected
use mirth_spool.Base.{
  ℕ, ◌+◌, Bool, true, false, not, ◌&&◌, ◌||◌, Option, none, some, List, [], ◌∷◌, leb, ltb, ◌==◌,
  if◌then◌else◌, any, filter,
}
use mirth_spool.Base.Sort.{sort}
use mirth_spool.Db.{MediaKind}

pub data CachePolicyName : Type 0 where
  all_within_quota favorites_only none_cached ttl : CachePolicyName

pub record CacheCandidate : Type 0 where
  pub cache_expires_at : Option ℕ
  pub cached_at : Option ℕ
  pub favorite : Bool
  pub id : ℕ
  pub last_accessed_at : Option ℕ
  pub size : ℕ

pub same_kind : MediaKind → MediaKind → Bool
same_kind MediaKind.image MediaKind.image = true
same_kind MediaKind.animated_image MediaKind.animated_image = true
same_kind MediaKind.video MediaKind.video = true
same_kind MediaKind.link MediaKind.link = true
same_kind _ _ = false

abbrev pub is_favorites_only : CachePolicyName → Bool
is_favorites_only CachePolicyName.favorites_only = true
is_favorites_only _ = false

abbrev pub is_none_cached : CachePolicyName → Bool
is_none_cached CachePolicyName.none_cached = true
is_none_cached _ = false

unfoldable pub should_cache_media : Bool → MediaKind → List MediaKind → CachePolicyName → Bool
unfolding same_kind
should_cache_media favorite kind allowed_kinds policy =
    if is_none_cached policy
    then false
    else if not (any (same_kind kind) allowed_kinds)
    then false
    else not (is_favorites_only policy) || favorite

pub is_expired : ℕ → CacheCandidate → Bool
is_expired now c = elim c.cache_expires_at [ none ↦ false | some t ↦ leb t now ]

-- lastAccessedAt ?? cachedAt ?? 0
pub accessed_at : CacheCandidate → ℕ
accessed_at c = elim c.last_accessed_at [
  | some t ↦ t
  | none ↦ (elim c.cached_at [ some t ↦ t | none ↦ 0 ])
]

abbrev differ : Bool → Bool → Bool
differ true b = not b
differ false b = b

-- The comparator: expired first, then what is no favourite, then the longest not accessed.
pub evicts_before : ℕ → CacheCandidate → CacheCandidate → Bool
unfolding is_expired accessed_at
evicts_before now left right =
    if differ (is_expired now left) (is_expired now right)
    then is_expired now left
    else if differ left.favorite right.favorite
    then not left.favorite
    else if accessed_at left == accessed_at right
    then leb left.id right.id
    else ltb (accessed_at left) (accessed_at right)

pub is_eligible : CachePolicyName → CacheCandidate → Bool
is_eligible policy c = not (is_favorites_only policy) || not c.favorite

pub eligible : ℕ → CachePolicyName → List CacheCandidate → List CacheCandidate
unfolding evicts_before is_eligible
eligible now policy candidates = sort (evicts_before now) (filter (is_eligible policy) candidates)

-- The loop: what was selected, and the bytes that it recovers.
pub collect : ℕ → ℕ → List CacheCandidate → List CacheCandidate × ℕ
collect needed recovered [] = ([], recovered)
collect needed recovered (c ∷ cs) =
    let more = collect needed (recovered + c.size) cs in
    if leb needed (recovered + c.size) then (c ∷ [], recovered + c.size) else (c ∷ more.0, more.1)

unfoldable pub select_evictions :
    List CacheCandidate → ℕ → ℕ → CachePolicyName → List CacheCandidate
unfolding eligible collect
select_evictions candidates bytes_needed now policy =
    if bytes_needed == 0
    then []
    else (let (selected, recovered) = collect bytes_needed 0 (eligible now policy candidates) in
        if leb bytes_needed recovered then selected else [])

-- selected.length === 0
unfoldable pub is_empty : List CacheCandidate → Bool
is_empty [] = true
is_empty (c ∷ cs) = false
