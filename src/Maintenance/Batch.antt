-- ===== src/Maintenance/Batch.antt =====
-- Deleting a batch of rows, in one table: what is planned shrinks by the batch, and nothing else is
-- deleted.
use mirth_spool.Base.{
  ℕ, zero, suc, ◌-◌, ◌≡◌, refl, sym, ap, ◌∙◌, Bool, true, false, not, List, [], ◌∷◌, arith, ◌==◌,
  All, filter, take, drop, map, elem, length, length-drop, Bool-cases, inl, inr,
}
use mirth_spool.Base.Sort.{insert, sort, sort-All, insert-All, length-sort}
use mirth_spool.Base.Each.{each, filter-each, take-each, pair-each}
use mirth_spool.Base.Strict.{Distinct}
use mirth_spool.Maintenance.Rows.{batch_of, without}

module _ {A : Type 0} where
  filter-swap : (p q : A → Bool) (xs : List A) → filter p (filter q xs) ≡ filter q (filter p xs)
  filter-swap p q [] = refl
  filter-swap p q (x ∷ xs) = elim (Bool-cases (p x)) [
    | inl e ↦ elim (Bool-cases (q x)) [
      | inl k ↦ rw (e, k, e, filter-swap p q xs) refl
      | inr k ↦ rw (e, k, filter-swap p q xs) refl
    ]
    | inr e ↦ elim (Bool-cases (q x)) [
      | inl k ↦ rw (e, k, e, filter-swap p q xs) refl
      | inr k ↦ rw (e, k, filter-swap p q xs) refl
    ]
  ]

  filter-keeps : (q : A → Bool) (xs : List A) → All (λ x. q x ≡ true) xs → filter q xs ≡ xs
  filter-keeps q [] h = refl
  filter-keeps q (x ∷ xs) h = rw h.0 (ap (λ r. x ∷ r) (filter-keeps q xs h.1))

  filter-same : (p q : A → Bool) (xs : List A) → All (λ x. p x ≡ q x) xs → filter p xs ≡ filter q xs
  filter-same p q [] h = refl
  filter-same p q (x ∷ xs) h = rw (h.0, filter-same p q xs h.1) refl

  length-filter-insert :
      (le : A → A → Bool) (q : A → Bool) (x : A) (ys : List A)
      → length (filter q (insert le x ys)) ≡ length (filter q (x ∷ ys))
  unfolding insert
  length-filter-insert le q x [] = refl
  length-filter-insert le q x (y ∷ ys) = elim (Bool-cases (le x y)) [
    | inl e ↦ rw e refl
    | inr e ↦
        let rest = length-filter-insert le q x ys in
        elim (Bool-cases (q y)) [
          | inl k ↦
              rw (e, k)
                (elim (Bool-cases (q x)) [
                  | inl j ↦ rw j (ap suc (rw j at rest))
                  | inr j ↦ rw j (ap suc (rw j at rest))
                ])
          | inr k ↦ rw (e, k) rest
        ]
  ]

  length-filter-sort :
      (le : A → A → Bool) (q : A → Bool) (xs : List A)
      → length (filter q (sort le xs)) ≡ length (filter q xs)
  unfolding sort
  length-filter-sort le q [] = refl
  length-filter-sort le q (x ∷ xs) =
      length-filter-insert le q x (sort le xs) ∙ (elim (Bool-cases (q x)) [
        | inl e ↦ rw e (ap suc (length-filter-sort le q xs))
        | inr e ↦ rw e (length-filter-sort le q xs)
      ])

module _ {A : Type 0} (id : A → ℕ) where
  abbrev pub same_key : A → A → Bool
  same_key a b = id a == id b

  -- No row has the identifier.
  abbrev IsNew : ℕ → List A → Type 0
  IsNew i xs = All (λ y. (i == id y) ≡ false) xs

  insert-Distinct :
      (le : A → A → Bool) (x : A) (ys : List A)
      → IsNew (id x) ys
      → Distinct same_key ys
      → Distinct same_key (insert le x ys)
  unfolding insert
  insert-Distinct le x [] h d = (tt, tt)
  insert-Distinct le x (y ∷ ys) h d = elim (Bool-cases (le x y)) [
    | inl e ↦ rw e (h, d)
    | inr e ↦ rw e (
      insert-All le (λ z. (id y == id z) ≡ false) x ys (ground (arith, h.0)) d.0,
      insert-Distinct le x ys h.1 d.1,
    )
  ]

  sort-Distinct :
      (le : A → A → Bool) (xs : List A) → Distinct same_key xs → Distinct same_key (sort le xs)
  unfolding sort
  sort-Distinct le [] d = tt
  sort-Distinct le (x ∷ xs) d =
      insert-Distinct le x (sort le xs) (sort-All le (λ y. (id x == id y) ≡ false) xs d.0)
        (sort-Distinct le xs d.1)

  abbrev is_left : List ℕ → A → Bool
  is_left ids r = not (elem (id r) ids)

  all_left : (xs : List A) → filter (is_left []) xs ≡ xs
  all_left [] = refl
  all_left (x ∷ xs) = ap (λ r. x ∷ r) (all_left xs)

  -- Deleting the first rows of a list leaves the others.
  left_of_first :
      (n : ℕ) (xs : List A)
      → Distinct same_key xs
      → filter (is_left (map id (take n xs))) xs ≡ drop n xs
  left_of_first zero xs d = all_left xs
  left_of_first (suc n) [] d = refl
  left_of_first (suc n) (x ∷ xs) d =
      let ids = map id (take n xs) in
      let gone : is_left (id x ∷ ids) x ≡ false = ground arith in
      let same =
        each (λ y. (id x == id y) ≡ false) (λ y. is_left (id x ∷ ids) y ≡ is_left ids y) xs
          (λ y h. ground (arith, h)) d.0 in
      rw (gone, filter-same (is_left (id x ∷ ids)) (is_left ids) xs same) (left_of_first n xs d.1)

  elem_of_IsNew : (i : ℕ) (xs : List A) → IsNew i xs → elem i (map id xs) ≡ false
  elem_of_IsNew i [] h = refl
  elem_of_IsNew i (x ∷ xs) h =
      let other : (id x == i) ≡ false = ground (arith, h.0) in
      rw (other, elem_of_IsNew i xs h.1) refl

  others-IsNew :
      (p : A → Bool) (xs : List A)
      → Distinct same_key xs
      → All (λ y. IsNew (id y) (filter p xs)) (filter (λ x. not (p x)) xs)
  others-IsNew p [] d = tt
  others-IsNew p (x ∷ xs) d = elim (Bool-cases (p x)) [
    | inl e ↦
        let apart =
          filter-each (λ y. (id x == id y) ≡ false) (λ y. (id y == id x) ≡ false) (λ y. not (p y))
            xs (λ y h k. ground (arith, h)) d.0 in
        rw e (
          pair-each (λ y. (id y == id x) ≡ false) (λ y. IsNew (id y) (filter p xs)) _ apart
            (others-IsNew p xs d.1))
    | inr e ↦
        let apart =
          filter-each (λ y. (id x == id y) ≡ false) (λ y. (id x == id y) ≡ false) p xs (λ y h k. h)
            d.0 in
        rw e (apart, others-IsNew p xs d.1)
  ]

  pub filter-Distinct :
      (p : A → Bool) (xs : List A) → Distinct same_key xs → Distinct same_key (filter p xs)
  filter-Distinct p [] d = tt
  filter-Distinct p (x ∷ xs) d = elim (Bool-cases (p x)) [
    | inl e ↦ rw e (
      filter-each (λ y. (id x == id y) ≡ false) (λ y. (id x == id y) ≡ false) p xs (λ y h k. h) d.0,
      filter-Distinct p xs d.1,
    )
    | inr e ↦ rw e (filter-Distinct p xs d.1)
  ]

  module _ (p : A → Bool) (le : A → A → Bool) (n : ℕ) (xs : List A) (d : Distinct same_key xs) where
    -- What is planned shrinks by the batch.
    pub planned_left :
        length (filter p (without id (batch_of id p le n xs) xs)) ≡ length (filter p xs) - n
    unfolding without batch_of
    planned_left =
        let sorted = sort le (filter p xs) in
        let q = is_left (map id (take n sorted)) in
        ap length (filter-swap p q xs)
        ∙ sym (length-filter-sort le q (filter p xs))
        ∙ ap length
            (left_of_first n sorted (sort-Distinct le (filter p xs) (filter-Distinct p xs d)))
        ∙ length-drop n sorted
        ∙ ap (λ k. k - n) (length-sort le (filter p xs))

    -- Nothing that is not planned is deleted.
    pub others_kept :
        filter (λ x. not (p x)) (without id (batch_of id p le n xs) xs) ≡ filter (λ x. not (p x)) xs
    unfolding without batch_of
    others_kept =
        let sorted = sort le (filter p xs) in
        let np : A → Bool = λ x. not (p x) in
        let q = is_left (map id (take n sorted)) in
        let kept : All (λ y. q y ≡ true) (filter np xs) =
          each (λ y. IsNew (id y) (filter p xs)) (λ y. q y ≡ true) (filter np xs)
            (λ y h. ap not (
              elem_of_IsNew (id y) (take n sorted)
                (take-each _ n sorted (sort-All le (λ z. (id y == id z) ≡ false) (filter p xs) h))))
            (others-IsNew p xs d) in
        filter-swap np q xs ∙ filter-keeps q (filter np xs) kept
