-- ===== src/Duplicates/Matches/Full.antt =====
-- The list of matches has room for `maximum` of them, and has one for each item.
use mirth_spool.Base.{
  ℕ, ◌+◌, ◌≤◌, ◌≡◌, refl, subst, false, List, [], ◌∷◌, ◌++◌, arith, leb, ltb, ◌==◌, if◌then◌else◌,
  find, length, length-append, All, All-append, Bool-cases, Option-cases, inl, inr,
}
use mirth_spool.Base.Table.{count_where, count-zero_of_any, any_of_find-none}
use mirth_spool.Duplicates.Matches.{Match, reason_weight, is_match_of, replace_match, add, add_all}

length-replace_match : (m : Match) (xs : List Match) → length (replace_match m xs) ≡ length xs
unfolding replace_match
length-replace_match m [] = refl
length-replace_match m (x ∷ xs) = ground (arith, length-replace_match m xs)

count-replace_match :
    (id : ℕ) (m : Match) (xs : List Match)
    → count_where (is_match_of id) (replace_match m xs) ≡ count_where (is_match_of id) xs
unfolding replace_match count_where is_match_of
count-replace_match id m [] = refl
count-replace_match id m (x ∷ xs) = ground (arith, count-replace_match id m xs)

count-append_one :
    (id : ℕ) (m : Match) (xs : List Match)
    → count_where (is_match_of id) (xs ++ m ∷ [])
      ≡ count_where (is_match_of id) xs + (if m.content_id == id then 1 else 0)
unfolding count_where is_match_of
count-append_one id m [] = ground arith
count-append_one id m (x ∷ xs) = omega (arith, count-append_one id m xs)

replace_match-All :
    (P : Match → Type 0) (m : Match) (xs : List Match) → P m → All P xs → All P (replace_match m xs)
unfolding replace_match
replace_match-All P m [] p h = tt
replace_match-All P m (x ∷ xs) p h = elim (Bool-cases (x.content_id == m.content_id)) [
  | inl e ↦ rw e (p, h.1)
  | inr e ↦ rw e (h.0, replace_match-All P m xs p h.1)
]

module _ (target maximum : ℕ) where
  -- The matches so far: not too many, one for each content item.
  pub record IsFull (ms : List Match) : Type 0 where
    pub size : length ms ≤ maximum
    pub once : (id : ℕ) → count_where (is_match_of id) ms ≤ 1

  module _ (P : Match → Type 0) where
    -- What holds of every candidate that is not the target.
    add-All :
        (m : Match) (ms : List Match)
        → (m.content_id == target ≡ false → P m)
        → All P ms
        → All P (add target maximum m ms)
    unfolding add
    add-All m ms p h = elim (Bool-cases (m.content_id == target)) [
      | inl e ↦ rw (e, add) h
      | inr e ↦ elim (Bool-cases (leb maximum (length ms))) [
        | inl full ↦ rw (e, full, add) h
        | inr room ↦ elim (Option-cases (find (is_match_of m.content_id) ms)) [
          | inl new ↦ rw (e, room, new, add) (All-append P ms (m ∷ []) h (p e, tt))
          | inr (current, old) ↦
              elim (Bool-cases (ltb (reason_weight current.reason) (reason_weight m.reason))) [
                | inl stronger ↦ rw (e, room, old, add, stronger) (replace_match-All P m ms (p e) h)
                | inr weaker ↦ rw (e, room, old, add, weaker) h
              ]
        ]
      ]
    ]

    pub add_all-All :
        (cs ms : List Match)
        → All (λ m. m.content_id == target ≡ false → P m) cs
        → All P ms
        → All P (add_all target maximum cs ms)
    unfolding add_all
    add_all-All [] ms p h = h
    add_all-All (c ∷ cs) ms p h = add_all-All cs (add target maximum c ms) p.1 (add-All c ms p.0 h)

  add-IsFull : (m : Match) (ms : List Match) → IsFull ms → IsFull (add target maximum m ms)
  unfolding add
  add-IsFull m ms f = elim (Bool-cases (m.content_id == target)) [
    | inl e ↦ rw (e, add) f
    | inr e ↦ elim (Bool-cases (leb maximum (length ms))) [
      | inl full ↦ rw (e, full, add) f
      | inr room ↦ elim (Option-cases (find (is_match_of m.content_id) ms)) [
        | inl new ↦
            rw (e, room, new, add)
              (record {
                size = ground (arith, length-append ms (m ∷ []));
                once = λ id. appended id (λ same.
                    subst (λ n. count_where (is_match_of n) ms ≡ 0) same
                      (count-zero_of_any (is_match_of m.content_id) ms
                        (any_of_find-none (is_match_of m.content_id) ms new)));
              })
        | inr (current, old) ↦
            elim (Bool-cases (ltb (reason_weight current.reason) (reason_weight m.reason))) [
              | inl stronger ↦
                  rw (e, room, old, add, stronger)
                    (record {
                      size = omega (arith, length-replace_match m ms, f.size);
                      once = λ id. omega (arith, count-replace_match id m ms, f.once id);
                    })
              | inr weaker ↦ rw (e, room, old, add, weaker) f
            ]
      ]
    ]
  ]
    where
      appended :
          (id : ℕ)
          → (m.content_id ≡ id → count_where (is_match_of id) ms ≡ 0)
          → count_where (is_match_of id) (ms ++ m ∷ []) ≤ 1
      appended id h = ground (arith, count-append_one id m ms, f.once id, h)

  pub add_all-IsFull : (cs ms : List Match) → IsFull ms → IsFull (add_all target maximum cs ms)
  unfolding add_all
  add_all-IsFull [] ms f = f
  add_all-IsFull (c ∷ cs) ms f = add_all-IsFull cs (add target maximum c ms) (add-IsFull c ms f)
