-- ===== src/Recommendations/Diverse.antt =====
-- The order of recommendations ends, and spreads the sources as far as the candidates allow.
use mathlib.Core.List.{Perm}
use mathlib.Core.List.Perm
use mirth_spool.Base.{
  ℕ, zero, suc, ◌+◌, ◌≤◌, ◌<◌, ◌≡◌, refl, sym, ◌∙◌, ap, subst, min, Bool, true, false, Option, none,
  some, List, [], ◌∷◌, ◌++◌, arith, ltb, length, length-append, All, Bool-cases, Option-cases, inl,
  inr, ◌⊎◌, ◌-◌, ◌==◌, filter, take, drop, length-drop,
}
use mirth_spool.Base.Each.{each}
use mirth_spool.Base.Table.{count_where}
use mirth_spool.Recommendations.{
  RecommendationCandidate, fits, same_source, recent, pick_first, choose, diversify,
  diversify_recommendations,
}

-- A candidate of a source.
unfoldable pub is_from : ℕ → RecommendationCandidate → Bool
is_from id c = elim c.source_id [ none ↦ false | some s ↦ s == id ]

-- Of the last places, three at most, at most one is taken by the source of the candidate.
abbrev pub IsSpread : List RecommendationCandidate → RecommendationCandidate → Type 0
IsSpread selected c =
    (before last : List RecommendationCandidate) (id : ℕ)
    → selected ≡ before ++ last
    → length last ≤ 3
    → c.source_id ≡ some id
    → count_where (is_from id) last ≤ 1

-- A pick from a list: what is left, and that its source is spread or that of nothing is.
pub record IsPick (selected from : List RecommendationCandidate) (next : RecommendationCandidate)
    (rest : List RecommendationCandidate) : Type 0 where
  pub perm : Perm (next ∷ rest) from
  pub size : length from ≡ suc (length rest)
  pub best : IsSpread selected next ⊎ All (λ c. ¬ IsSpread selected c) from

-- How a page comes about: one pick after another, each by the places that are filled.
pub data Diverse
    : List RecommendationCandidate
      → List RecommendationCandidate
      → List RecommendationCandidate
      → Type 0 where
  ends : (selected remaining : List RecommendationCandidate) → Diverse selected remaining selected
  picks :
      (selected remaining out rest : List RecommendationCandidate) (next : RecommendationCandidate)
      → IsPick selected remaining next rest
      → Diverse (selected ++ next ∷ []) rest out
      → Diverse selected remaining out

pick_first-none :
    (p : RecommendationCandidate → Bool) (cs : List RecommendationCandidate)
    → pick_first p cs ≡ none
    → All (λ c. p c ≡ false) cs
unfolding pick_first
pick_first-none p [] h = tt
pick_first-none p (c ∷ cs) h = elim (Bool-cases (p c)) [
  | inl e ↦ cc (rw (e, pick_first) at h)
  | inr e ↦ elim (Option-cases (pick_first p cs)) [
    | inl n ↦ (e, pick_first-none p cs n)
    | inr (r, m) ↦ cc (rw (e, m, pick_first) at h)
  ]
]

abbrev Picked :
    (RecommendationCandidate → Bool)
    → List RecommendationCandidate
    → Option (RecommendationCandidate × List RecommendationCandidate)
    → Type 0
Picked p from none = Unit
Picked p from (some r) = Perm (r.0 ∷ r.1) from × (length from ≡ suc (length r.1)) × (p r.0 ≡ true)

pick_first-Picked :
    (p : RecommendationCandidate → Bool) (cs : List RecommendationCandidate)
    → Picked p cs (pick_first p cs)
unfolding pick_first
pick_first-Picked p [] = tt
pick_first-Picked p (c ∷ cs) = elim (Bool-cases (p c)) [
  | inl e ↦ rw (e, pick_first) (Perm.rfl, refl, e)
  | inr e ↦ elim (Option-cases (pick_first p cs)) [
    | inl n ↦ rw (e, n, pick_first) tt
    | inr (r, m) ↦
        let (perm, size, good) = subst (Picked p cs) m (pick_first-Picked p cs) in
        rw (e, m, pick_first)
          (Perm.trans (Perm.swap c r.0 r.1) (Perm.cons c perm), ap suc size, good)
  ]
]

length-filter-same_source :
    (id : ℕ) (xs : List RecommendationCandidate)
    → length (filter (λ (item : RecommendationCandidate). same_source item.source_id id) xs)
      ≡ count_where (is_from id) xs
unfolding same_source is_from count_where
length-filter-same_source id [] = refl
length-filter-same_source id (x ∷ xs) = elim (Option-cases x.source_id) [
  | inl e ↦ rw e (omega (arith, length-filter-same_source id xs))
  | inr (s, e) ↦ rw e (ground (arith, length-filter-same_source id xs))
]

drop-append :
    (n : ℕ) (xs ys : List RecommendationCandidate)
    → n ≤ length xs
    → drop n (xs ++ ys) ≡ drop n xs ++ ys
drop-append zero xs ys h = refl
drop-append (suc n) [] ys h = absurd (omega (arith, h))
drop-append (suc n) (x ∷ xs) ys h = drop-append n xs ys (omega (arith, h))

count_where-append-le :
    (p : RecommendationCandidate → Bool) (xs ys : List RecommendationCandidate)
    → count_where p ys ≤ count_where p (xs ++ ys)
unfolding count_where
count_where-append-le p [] ys = omega arith
count_where-append-le p (x ∷ xs) ys = ground (arith, count_where-append-le p xs ys)

take-drop-append : (n : ℕ) (xs : List RecommendationCandidate) → xs ≡ take n xs ++ drop n xs
take-drop-append zero xs = refl
take-drop-append (suc n) [] = refl
take-drop-append (suc n) (x ∷ xs) = ap (λ r. x ∷ r) (take-drop-append n xs)

fits-count :
    (selected : List RecommendationCandidate) (c : RecommendationCandidate) (id : ℕ)
    → c.source_id ≡ some id
    → fits selected c ≡ ltb (count_where (is_from id) (drop (length selected - 3) selected)) 2
unfolding fits recent
fits-count selected c id e =
    rw (e, length-filter-same_source id (drop (length selected - 3) selected)) refl

fits-IsSpread :
    (selected : List RecommendationCandidate) (c : RecommendationCandidate)
    → fits selected c ≡ true
    → IsSpread selected c
fits-IsSpread selected c h before last id whole short e =
    let n = length selected - 3 in
    let size : length selected ≡ length before + length last =
      ap length whole ∙ length-append before last in
    let few : count_where (is_from id) (drop n selected) ≤ 1 =
      ground (arith, sym (fits-count selected c id e) ∙ h) in
    let split : drop n selected ≡ drop n before ++ last =
      ap (drop n) whole ∙ drop-append n before last (omega (arith, size, short)) in
    omega (
      arith,
      few,
      ap (count_where (is_from id)) split,
      count_where-append-le (is_from id) (drop n before) last,
    )

fits_not :
    (selected : List RecommendationCandidate) (c : RecommendationCandidate)
    → fits selected c ≡ false
    → ¬ IsSpread selected c
unfolding fits
fits_not selected c h spread = elim (Option-cases c.source_id) [
  | inl e ↦ cc (rw (e, fits) at h)
  | inr (id, e) ↦
      let n = length selected - 3 in
      let few =
        spread (take n selected) (drop n selected) id (take-drop-append n selected)
          (omega (arith, length-drop n selected)) e in
      ground (arith, few, sym (fits-count selected c id e) ∙ h)
]

choose-IsPick :
    (selected : List RecommendationCandidate) (c : RecommendationCandidate)
    (cs : List RecommendationCandidate)
    → IsPick selected (c ∷ cs) (choose selected c cs).0 (choose selected c cs).1
unfolding choose
choose-IsPick selected c cs = elim (Option-cases (pick_first (fits selected) (c ∷ cs))) [
  | inl n ↦
      rw (n, choose)
        (record {
          perm = Perm.rfl;
          size = refl;
          best = inr (
              each _ _ (c ∷ cs) (λ d k. fits_not selected d k)
                (pick_first-none (fits selected) (c ∷ cs) n));
        })
  | inr (r, m) ↦
      let (perm, size, good) =
        subst (Picked (fits selected) (c ∷ cs)) m (pick_first-Picked (fits selected) (c ∷ cs)) in
      rw (m, choose)
        (record { perm = perm; size = size; best = inl (fits-IsSpread selected r.0 good) })
]

diversify_total :
    (fuel limit : ℕ) (remaining selected : List RecommendationCandidate)
    → length remaining < fuel
    → length selected ≤ limit
    → (out : List RecommendationCandidate) × (diversify fuel limit remaining selected ≡ some out)
      × Diverse selected remaining out
      × (length out ≡ min limit (length selected + length remaining))
unfolding diversify
diversify_total zero limit remaining selected f l = absurd (omega arith)
diversify_total (suc fuel) limit [] selected f l = (selected, refl, ends selected [], omega arith)
diversify_total (suc fuel) limit (c ∷ cs) selected f l =
    let next = (choose selected c cs).0 in
    let rest = (choose selected c cs).1 in
    let pick = choose-IsPick selected c cs in
    elim (Bool-cases (ltb (length selected) limit)) [
      | inr full ↦ (selected, rw (full, diversify) refl, ends selected (c ∷ cs), ground arith)
      | inl room ↦
          let (out, made, diverse, size) =
            diversify_total fuel limit rest (selected ++ next ∷ []) (omega (arith, pick.size))
              (ground (arith, length-append selected (next ∷ []))) in
          (
            out,
            rw (room, diversify) made,
            picks selected (c ∷ cs) out rest next pick diverse,
            omega (arith, size, pick.size, length-append selected (next ∷ [])),
          )
    ]

-- The loop ends, with a page of `limit` candidates or of all if there are fewer. Each is picked from
-- those that are left: one whose source has at most one of the last three places, or has none, or any
-- if no candidate that is left is such.
pub diversify_recommendations_total :
    (ranked : List RecommendationCandidate) (limit : ℕ)
    → (out : List RecommendationCandidate) × (diversify_recommendations ranked limit ≡ some out)
      × Diverse [] ranked out
      × (length out ≡ min limit (length ranked))
unfolding diversify_recommendations
diversify_recommendations_total ranked limit =
    let (out, made, diverse, size) =
      diversify_total (suc (length ranked)) limit ranked [] (omega arith) (omega arith) in
    (out, made, diverse, omega (arith, size))
