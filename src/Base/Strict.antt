-- ===== src/Base/Strict.antt =====
-- Sorting rows that are pairwise different by a total order: keeping rows commutes with sorting, and
-- the rows behind an element of the result are those that the order puts behind it.
use mirth_spool.Base.{
  ◌≡◌, refl, sym, ap, ◌∙◌, Bool, true, false, List, [], ◌∷◌, ◌++◌, All, filter, Bool-cases, inl,
  inr,
}
use mirth_spool.Base.Sort.{insert, sort}

-- `le` is the comparator of a sort, `after x y` says that `y` stands behind `x`, and `same` compares
-- identifiers.
pub record StrictOrder {ℓ} {A : Type ℓ} (le after same : A → A → Bool) : Type ℓ where
  pub step : (x y : A) → le x y ≡ true → same x y ≡ false → after x y ≡ true
  pub flip : (x y : A) → le x y ≡ false → after y x ≡ true
  pub trans : (x y z : A) → after x y ≡ true → after y z ≡ true → after x z ≡ true
  pub weak : (x y : A) → after x y ≡ true → le x y ≡ true
  pub asym : (x y : A) → after x y ≡ true → after y x ≡ false
  pub irrefl : (x : A) → after x x ≡ false

-- No two rows have one identifier.
abbrev pub Distinct {ℓ} : {A : Type ℓ} → (A → A → Bool) → List A → Type 0
Distinct same [] = Unit
Distinct same (x ∷ xs) = All (λ y. same x y ≡ false) xs × Distinct same xs

-- Each row stands in front of those behind it.
abbrev pub IsStrict {ℓ} : {A : Type ℓ} → (A → A → Bool) → List A → Type 0
IsStrict after [] = Unit
IsStrict after (x ∷ xs) = All (λ y. after x y ≡ true) xs × IsStrict after xs

module _ {ℓ} {A : Type ℓ} (le after same : A → A → Bool) (o : StrictOrder le after same) where
  all_after :
      (x y : A) (ys : List A)
      → after x y ≡ true
      → All (λ z. after y z ≡ true) ys
      → All (λ z. after x z ≡ true) ys
  all_after x y [] e h = tt
  all_after x y (z ∷ zs) e h = (o.trans x y z e h.0, all_after x y zs e h.1)

  insert-each : (P : A → Type 0) (x : A) (ys : List A) → P x → All P ys → All P (insert le x ys)
  unfolding insert
  insert-each P x [] p h = (p, tt)
  insert-each P x (y ∷ ys) p h = elim (Bool-cases (le x y)) [
    | inl e ↦ rw e (p, h)
    | inr e ↦ rw e (h.0, insert-each P x ys p h.1)
  ]

  pub sort-each : (P : A → Type 0) (xs : List A) → All P xs → All P (sort le xs)
  unfolding sort
  sort-each P [] h = tt
  sort-each P (x ∷ xs) h = insert-each P x (sort le xs) h.0 (sort-each P xs h.1)

  insert-IsStrict :
      (x : A) (ys : List A)
      → All (λ y. same x y ≡ false) ys
      → IsStrict after ys
      → IsStrict after (insert le x ys)
  unfolding insert
  insert-IsStrict x [] d s = (tt, tt)
  insert-IsStrict x (y ∷ ys) d s = elim (Bool-cases (le x y)) [
    | inl e ↦ let first = o.step x y e d.0 in rw e ((first, all_after x y ys first s.0), s)
    | inr e ↦
        rw e (
          insert-each (λ z. after y z ≡ true) x ys (o.flip x y e) s.0,
          insert-IsStrict x ys d.1 s.1,
        )
  ]

  pub sort-IsStrict : (xs : List A) → Distinct same xs → IsStrict after (sort le xs)
  unfolding sort
  sort-IsStrict [] d = tt
  sort-IsStrict (x ∷ xs) d =
      insert-IsStrict x (sort le xs) (sort-each (λ y. same x y ≡ false) xs d.0)
        (sort-IsStrict xs d.1)

  insert_first : (x : A) (ys : List A) → All (λ y. after x y ≡ true) ys → insert le x ys ≡ x ∷ ys
  unfolding insert
  insert_first x [] h = refl
  insert_first x (y ∷ ys) h = rw (o.weak x y h.0) refl

  pub filter-all : (P : A → Type 0) (p : A → Bool) (ys : List A) → All P ys → All P (filter p ys)
  filter-all P p [] h = tt
  filter-all P p (y ∷ ys) h = elim (Bool-cases (p y)) [
    | inl e ↦ rw e (h.0, filter-all P p ys h.1)
    | inr e ↦ rw e (filter-all P p ys h.1)
  ]

  pub filter-Distinct :
      (p : A → Bool) (xs : List A) → Distinct same xs → Distinct same (filter p xs)
  filter-Distinct p [] d = tt
  filter-Distinct p (x ∷ xs) d = elim (Bool-cases (p x)) [
    | inl e ↦ rw e (filter-all (λ y. same x y ≡ false) p xs d.0, filter-Distinct p xs d.1)
    | inr e ↦ rw e (filter-Distinct p xs d.1)
  ]

  filter-insert_dropped :
      (p : A → Bool) (x : A) (ys : List A) → p x ≡ false → filter p (insert le x ys) ≡ filter p ys
  unfolding insert
  filter-insert_dropped p x [] e = rw e refl
  filter-insert_dropped p x (y ∷ ys) e = elim (Bool-cases (le x y)) [
    | inl k ↦ rw (k, e) refl
    | inr k ↦ rw k (elim (Bool-cases (p y)) [
      | inl q ↦ rw q (ap (λ r. y ∷ r) (filter-insert_dropped p x ys e))
      | inr q ↦ rw q (filter-insert_dropped p x ys e)
    ])
  ]

  filter-insert_kept :
      (p : A → Bool) (x : A) (ys : List A)
      → p x ≡ true
      → All (λ y. same x y ≡ false) ys
      → IsStrict after ys
      → filter p (insert le x ys) ≡ insert le x (filter p ys)
  unfolding insert
  filter-insert_kept p x [] e d s = rw e refl
  filter-insert_kept p x (y ∷ ys) e d s = elim (Bool-cases (le x y)) [
    | inl k ↦
        let first = o.step x y k d.0 in
        rw (k, e)
          (sym (
            insert_first x (filter p (y ∷ ys))
              (filter-all (λ z. after x z ≡ true) p (y ∷ ys) (first, all_after x y ys first s.0))))
    | inr k ↦ rw k (elim (Bool-cases (p y)) [
      | inl q ↦ rw (q, k) (ap (λ r. y ∷ r) (filter-insert_kept p x ys e d.1 s.1))
      | inr q ↦ rw q (filter-insert_kept p x ys e d.1 s.1)
    ])
  ]

  pub filter-sort :
      (p : A → Bool) (xs : List A)
      → Distinct same xs
      → filter p (sort le xs) ≡ sort le (filter p xs)
  unfolding sort
  filter-sort p [] d = refl
  filter-sort p (x ∷ xs) d = elim (Bool-cases (p x)) [
    | inr e ↦ rw e (filter-insert_dropped p x (sort le xs) e ∙ filter-sort p xs d.1)
    | inl e ↦ rw e (
        filter-insert_kept p x (sort le xs) e (sort-each (λ y. same x y ≡ false) xs d.0)
          (sort-IsStrict xs d.1)
        ∙ ap (insert le x) (filter-sort p xs d.1))
  ]

  filter-none : (p : A → Bool) (ys : List A) → All (λ y. p y ≡ true) ys → filter p ys ≡ ys
  filter-none p [] h = refl
  filter-none p (y ∷ ys) h = rw h.0 (ap (λ r. y ∷ r) (filter-none p ys h.1))

  pub all-middle : (P : A → Type 0) (x : A) (before ys : List A) → All P (before ++ x ∷ ys) → P x
  all-middle P x [] ys h = h.0
  all-middle P x (b ∷ before) ys h = all-middle P x before ys h.1

  -- In a list in order, the rows behind an element are those that stand behind it.
  pub after_middle :
      (before : List A) (x : A) (ys : List A)
      → IsStrict after (before ++ x ∷ ys)
      → filter (after x) (before ++ x ∷ ys) ≡ ys
  after_middle [] x ys s = rw (o.irrefl x) (filter-none (after x) ys s.0)
  after_middle (b ∷ before) x ys s =
      rw (o.asym b x (all-middle (λ y. after b y ≡ true) x before ys s.0))
        (after_middle before x ys s.1)
