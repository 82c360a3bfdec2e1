-- ===== src/Storage/Policy/Selected.antt =====
-- What every selection of objects to evict satisfies.
use mirth_spool.Base.{
  ℕ, ◌+◌, ◌≤◌, ◌≡◌, Bool, false, List, [], ◌∷◌, arith, leb, ◌==◌, All, Bool-cases, inl, inr, leb→le,
  filter,
}
use mirth_spool.Base.Counts.{count-filter-le, count-sort}
use mirth_spool.Base.Each.{filter-each}
use mirth_spool.Base.Sort.{sort-All}
use mirth_spool.Base.Table.{count_where}
use mirth_spool.Storage.Policy.{
  CachePolicyName, CacheCandidate, evicts_before, is_eligible, eligible, collect, select_evictions,
  is_empty,
}
use mirth_spool.Storage.Policy.Evicted.{total_size, pick, pick-All, select_evictions-pick}

collect-sum :
    (needed recovered : ℕ) (cs : List CacheCandidate)
    → (collect needed recovered cs).1 ≡ recovered + total_size (collect needed recovered cs).0
unfolding collect total_size
collect-sum needed recovered [] = omega arith
collect-sum needed recovered (c ∷ cs) = elim (Bool-cases (leb needed (recovered + c.size))) [
  | inl done ↦ rw (done, collect) (omega arith)
  | inr more ↦ rw (more, collect) (omega (arith, collect-sum needed (recovered + c.size) cs))
]

collect-count :
    (p : CacheCandidate → Bool) (needed recovered : ℕ) (cs : List CacheCandidate)
    → count_where p (collect needed recovered cs).0 ≤ count_where p cs
unfolding collect count_where
collect-count p needed recovered [] = omega arith
collect-count p needed recovered (c ∷ cs) = elim (Bool-cases (leb needed (recovered + c.size))) [
  | inl done ↦ rw (done, collect) (omega arith)
  | inr more ↦ rw (more, collect) (omega (arith, collect-count p needed (recovered + c.size) cs))
]

pick-count :
    (p : CacheCandidate → Bool) (needed : ℕ) (cs : List CacheCandidate)
    → count_where p (pick needed cs) ≤ count_where p cs
unfolding pick count_where
pick-count p needed cs = elim (Bool-cases (leb needed (collect needed 0 cs).1)) [
  | inl e ↦ rw e (collect-count p needed 0 cs)
  | inr e ↦ rw e (omega arith)
]

pick-enough :
    (needed : ℕ) (cs : List CacheCandidate)
    → is_empty (pick needed cs) ≡ false
    → needed ≤ total_size (pick needed cs)
unfolding pick is_empty
pick-enough needed cs some_of = elim (Bool-cases (leb needed (collect needed 0 cs).1)) [
  | inl e ↦ rw e (omega (arith, leb→le _ _ e, collect-sum needed 0 cs))
  | inr e ↦ cc (rw e at some_of)
]

module _ (candidates : List CacheCandidate) (needed now : ℕ) (policy : CachePolicyName) where
  pub select_evictions-All :
      (P : CacheCandidate → Type 0)
      → All P candidates
      → All P (select_evictions candidates needed now policy)
  unfolding select_evictions eligible
  select_evictions-All P h = elim (Bool-cases (needed == 0)) [
    | inl e ↦ rw (e, select_evictions) tt
    | inr e ↦ rw (select_evictions-pick candidates needed now policy (ground (arith, e))) (
        pick-All P needed (eligible now policy candidates) (
          sort-All (evicts_before now) P _
            (filter-each P P (is_eligible policy) candidates (λ c p q. p) h)))
  ]

  pub select_evictions-count :
      (p : CacheCandidate → Bool)
      → count_where p (select_evictions candidates needed now policy) ≤ count_where p candidates
  unfolding select_evictions eligible count_where
  select_evictions-count p = elim (Bool-cases (needed == 0)) [
    | inl e ↦ rw (e, select_evictions) (omega arith)
    | inr e ↦ rw (select_evictions-pick candidates needed now policy (ground (arith, e))) (
        omega (
          arith,
          pick-count p needed (eligible now policy candidates),
          count-sort p (evicts_before now) (filter (is_eligible policy) candidates),
          count-filter-le p (is_eligible policy) candidates,
        ))
  ]

  pub select_evictions_enough :
      is_empty (select_evictions candidates needed now policy) ≡ false
      → needed ≤ total_size (select_evictions candidates needed now policy)
  unfolding select_evictions
  select_evictions_enough some_of = elim (Bool-cases (needed == 0)) [
    | inl e ↦ ground (arith, e)
    | inr e ↦
        let same = select_evictions-pick candidates needed now policy (ground (arith, e)) in
        rw same (pick-enough needed (eligible now policy candidates) (rw same at some_of))
  ]
