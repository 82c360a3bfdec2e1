-- ===== src/Storage/Policy/Evicted.antt =====
-- Which objects an eviction selects.
use mirth_spool.Base.{
  ℕ, suc, ◌+◌, ◌≤◌, ◌<◌, ◌≡◌, refl, ap, true, false, List, [], ◌∷◌, arith, leb, ◌==◌, if◌then◌else◌,
  All, Bool-cases, ◌⊎◌, inl, inr, take,
}
use mirth_spool.Storage.Policy.Reference.{eviction_order, eligible-eviction_order}
use mirth_spool.Storage.Policy.{
  CachePolicyName, CacheCandidate, eligible, collect, select_evictions,
}

unfoldable pub total_size : List CacheCandidate → ℕ
total_size [] = 0
total_size (c ∷ cs) = c.size + total_size cs

-- The first `n` of the eligible objects, which recover enough where one fewer does not.
pub record IsFirst (needed : ℕ) (from selected : List CacheCandidate) : Type 0 where
  pub before : ℕ
  pub first : selected ≡ take (suc before) from
  pub enough : needed ≤ total_size selected
  pub least : total_size (take before from) < needed

collect-IsFirst :
    (needed recovered : ℕ) (cs : List CacheCandidate)
    → recovered < needed
    → needed ≤ recovered + total_size cs
    → (n : ℕ) × ((collect needed recovered cs).0 ≡ take (suc n) cs)
      × (needed ≤ recovered + total_size (collect needed recovered cs).0)
      × (recovered + total_size (take n cs) < needed)
      × ((collect needed recovered cs).1 ≡ recovered + total_size (collect needed recovered cs).0)
unfolding collect total_size
collect-IsFirst needed recovered [] low enough = absurd (omega arith)
collect-IsFirst needed recovered (c ∷ cs) low enough =
    elim (Bool-cases (leb needed (recovered + c.size))) [
      | inl done ↦ (
        0,
        rw (done, collect) refl,
        rw (done, collect) (ground arith),
        omega arith,
        rw (done, collect) (omega arith),
      )
      | inr more ↦
          let (n, first, full, least, sum) =
            collect-IsFirst needed (recovered + c.size) cs (ground arith) (omega arith) in
          (
            suc n,
            rw (more, collect) (ap (λ rest. c ∷ rest) first),
            rw (more, collect) (omega (arith, full)),
            omega (arith, least),
            rw (more, collect) (omega (arith, sum)),
          )
    ]

collect-low :
    (needed recovered : ℕ) (cs : List CacheCandidate)
    → recovered + total_size cs < needed
    → (collect needed recovered cs).1 ≡ recovered + total_size cs
unfolding collect total_size
collect-low needed recovered [] low = omega arith
collect-low needed recovered (c ∷ cs) low = elim (Bool-cases (leb needed (recovered + c.size))) [
  | inl done ↦ absurd (ground arith)
  | inr more ↦
      rw (more, collect) (omega (arith, collect-low needed (recovered + c.size) cs (omega arith)))
]

-- The selection from objects in their order.
unfoldable pub pick : ℕ → List CacheCandidate → List CacheCandidate
pick needed cs = if leb needed (collect needed 0 cs).1 then (collect needed 0 cs).0 else []

pick-IsFirst :
    (needed : ℕ) (cs : List CacheCandidate)
    → 1 ≤ needed
    → needed ≤ total_size cs
    → IsFirst needed cs (pick needed cs)
unfolding pick
pick-IsFirst needed cs pos enough =
    let (n, first, full, least, sum) = collect-IsFirst needed 0 cs pos (omega (arith, enough)) in
    let hit : leb needed (collect needed 0 cs).1 ≡ true = ground (arith, sum, full) in
    rw hit (record {
      before = n;
      first = first;
      enough = omega (arith, full);
      least = omega (arith, least);
    })

pick-low : (needed : ℕ) (cs : List CacheCandidate) → total_size cs < needed → pick needed cs ≡ []
unfolding pick
pick-low needed cs low =
    let sum = collect-low needed 0 cs (omega (arith, low)) in
    let miss : leb needed (collect needed 0 cs).1 ≡ false = ground (arith, sum, low) in rw miss refl

collect-All :
    (P : CacheCandidate → Type 0) (needed recovered : ℕ) (cs : List CacheCandidate)
    → All P cs
    → All P (collect needed recovered cs).0
unfolding collect
collect-All P needed recovered [] h = tt
collect-All P needed recovered (c ∷ cs) h = elim (Bool-cases (leb needed (recovered + c.size))) [
  | inl done ↦ rw (done, collect) (h.0, tt)
  | inr more ↦ rw (more, collect) (h.0, collect-All P needed (recovered + c.size) cs h.1)
]

pub pick-All :
    (P : CacheCandidate → Type 0) (needed : ℕ) (cs : List CacheCandidate)
    → All P cs
    → All P (pick needed cs)
unfolding pick
pick-All P needed cs h = elim (Bool-cases (leb needed (collect needed 0 cs).1)) [
  | inl e ↦ rw e (collect-All P needed 0 cs h)
  | inr e ↦ rw e tt
]

pub select_evictions-pick :
    (candidates : List CacheCandidate) (needed now : ℕ) (policy : CachePolicyName)
    → 1 ≤ needed
    → select_evictions candidates needed now policy ≡ pick needed (eligible now policy candidates)
unfolding select_evictions pick
select_evictions-pick candidates needed now policy pos =
    let e : needed == 0 ≡ false = ground arith in rw (e, select_evictions) refl

-- Those objects that may go, under FAVORITES_ONLY those that are no favourites, go in the order of
-- their ranks: expired ones first, then those that are no favourites, then those longest not accessed,
-- and last by their identifiers. Where they have the bytes that are needed, the eviction selects the
-- shortest beginning of that order that recovers them; where they have not, it selects nothing.
pub select_evictions-IsFirst :
    (candidates : List CacheCandidate) (needed now : ℕ) (policy : CachePolicyName)
    → 1 ≤ needed
    → ((needed ≤ total_size (eviction_order now policy candidates))
        × IsFirst needed
            (eviction_order now policy candidates)
            (select_evictions candidates needed now policy))
      ⊎ ((total_size (eviction_order now policy candidates) < needed)
          × (select_evictions candidates needed now policy ≡ []))
select_evictions-IsFirst candidates needed now policy pos =
    let cs = eviction_order now policy candidates in
    rw
      (
        select_evictions-pick candidates needed now policy pos,
        eligible-eviction_order now policy candidates,
      )
      (elim (Bool-cases (leb needed (total_size cs))) [
        | inl e ↦
            let enough : needed ≤ total_size cs = ground (arith, e) in
            inl (enough, pick-IsFirst needed cs pos enough)
        | inr e ↦
            let low : total_size cs < needed = ground (arith, e) in
            inr (low, pick-low needed cs low)
      ])
